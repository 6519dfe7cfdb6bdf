-- ===== src/Text.antt =====
-- Rust strings as lists of code points, and the `str` methods that the program calls on them.
pub mod Splitting
use aver.Prelude.{
  false, ltb, ◌+◌, if◌then◌else◌, ℕ, String, Bool, true, List, [], ◌∷◌, ◌||◌, ◌&&◌, leb, nat_beq,
}
use mathlib.Core.List.{reverse}
use Prim.Native.Char.{code}

-- The code points of a text.
abbrev pub codes : String → List ℕ
codes String.[] = []
codes (String.◌∷◌ c s) = code c ∷ codes s

-- `char::is_whitespace`: the Unicode property White_Space.
unfoldable pub is_whitespace : ℕ → Bool
is_whitespace c =
    leb 9 c && leb c 13
    || nat_beq c 32
    || nat_beq c 0x85
    || nat_beq c 0xA0
    || nat_beq c 0x1680
    || leb 0x2000 c && leb c 0x200A
    || nat_beq c 0x2028
    || nat_beq c 0x2029
    || nat_beq c 0x202F
    || nat_beq c 0x205F
    || nat_beq c 0x3000

unfoldable pub all_whitespace : List ℕ → Bool
unfolding is_whitespace
all_whitespace [] = true
all_whitespace (c ∷ cs) = is_whitespace c && all_whitespace cs

-- `s.trim().is_empty()`
unfoldable pub is_blank : String → Bool
unfolding all_whitespace
is_blank s = all_whitespace (codes s)

-- `str::len`: the bytes of the UTF-8 encoding.
abbrev utf8_len : ℕ → ℕ
utf8_len c = if ltb c 0x80 then 1 else if ltb c 0x800 then 2 else if ltb c 0x10000 then 3 else 4

unfoldable pub byte_len : List ℕ → ℕ
byte_len [] = 0
byte_len (c ∷ cs) = utf8_len c + byte_len cs

-- `str::starts_with`
unfoldable pub starts_with : List ℕ → List ℕ → Bool
starts_with [] s = true
starts_with (p ∷ ps) [] = false
starts_with (p ∷ ps) (c ∷ cs) = nat_beq p c && starts_with ps cs

-- `str::contains`
unfoldable pub contains : List ℕ → List ℕ → Bool
unfolding starts_with
contains p [] = starts_with p []
contains p (c ∷ cs) = starts_with p (c ∷ cs) || contains p cs

-- `==` on texts
unfoldable pub text_beq : List ℕ → List ℕ → Bool
text_beq [] [] = true
text_beq (a ∷ as') (b ∷ bs) = nat_beq a b && text_beq as' bs
text_beq _ _ = false

-- `str::ends_with`
unfoldable pub ends_with : List ℕ → List ℕ → Bool
unfolding text_beq
ends_with p [] = text_beq p []
ends_with p (c ∷ cs) = text_beq p (c ∷ cs) || ends_with p cs

unfoldable pub all_chars : (ℕ → Bool) → List ℕ → Bool
all_chars p [] = true
all_chars p (c ∷ cs) = p c && all_chars p cs

unfoldable pub any {ℓ} : {A : Type ℓ} → (A → Bool) → List A → Bool
any p [] = false
any p (x ∷ xs) = p x || any p xs

abbrev pub glue : ℕ → List (List ℕ) → List (List ℕ)
glue c [] = (c ∷ []) ∷ []
glue c (w ∷ ws) = (c ∷ w) ∷ ws

-- `str::split` at every character for which `p` holds.
unfoldable pub split : (ℕ → Bool) → List ℕ → List (List ℕ)
split p [] = [] ∷ []
split p (c ∷ cs) = let rest = split p cs in if p c then [] ∷ rest else glue c rest

abbrev pub is_ascii_digit : ℕ → Bool
is_ascii_digit c = leb b'0' c && leb c b'9'

abbrev pub is_ascii_uppercase : ℕ → Bool
is_ascii_uppercase c = leb b'A' c && leb c b'Z'

abbrev pub is_ascii_lowercase : ℕ → Bool
is_ascii_lowercase c = leb b'a' c && leb c b'z'

abbrev pub is_ascii_alphanumeric : ℕ → Bool
is_ascii_alphanumeric c = is_ascii_digit c || is_ascii_uppercase c || is_ascii_lowercase c

-- Drops the leading characters for which `p` holds.
unfoldable pub trim_start : (ℕ → Bool) → List ℕ → List ℕ
trim_start p [] = []
trim_start p (c ∷ cs) = let rest = trim_start p cs in if p c then rest else c ∷ cs

-- `str::trim`
unfoldable pub trim : List ℕ → List ℕ
unfolding trim_start is_whitespace
trim s = reverse (trim_start is_whitespace (reverse (trim_start is_whitespace s)))

abbrev drop_cr_reversed : List ℕ → List ℕ
drop_cr_reversed [] = []
drop_cr_reversed (c ∷ cs) = if nat_beq c 13 then cs else c ∷ cs

-- A line without its final carriage return.
abbrev pub drop_cr : List ℕ → List ℕ
drop_cr s = reverse (drop_cr_reversed (reverse s))

abbrev pub is_newline : ℕ → Bool
is_newline c = nat_beq c 10

-- `str::lines`. (A carriage return is dropped only before a newline; the last piece keeps it.)
abbrev is_nil : List ℕ → Bool
is_nil [] = true
is_nil (c ∷ cs) = false

unfoldable pub lines_of : List (List ℕ) → List (List ℕ)
lines_of [] = []
lines_of (w ∷ []) = if is_nil w then [] else w ∷ []
lines_of (w ∷ v ∷ ws) = drop_cr w ∷ lines_of (v ∷ ws)

unfoldable pub lines : List ℕ → List (List ℕ)
unfolding split lines_of
lines s = lines_of (split is_newline s)
