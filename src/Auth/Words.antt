-- ===== src/Auth/Words.antt =====
-- The scope lists of auth.rs: what is decoded from a text, and what an encoded list decodes to.
use aver.Prelude.{ℕ, false, List, [], ◌∷◌, ◌≡◌, refl, arith, ap, ◌∙◌, Bool-cases, inl, inr}
use aver.Auth.{Text}
use aver.Auth.Scopes.{encode_scopes, decode_scopes}
use aver.Text.{split, glue}
use aver.Text.Splitting.{Plain, split-Plain, split_token}
use aver.OauthScopes.{is_ascii_whitespace, non_empty, split_ascii_whitespace}

-- A scope without whitespace that is not empty.
abbrev pub IsWord : Text → Type 0
IsWord s = ¬ (s ≡ []) × Plain is_ascii_whitespace s

abbrev pub AllWords : List Text → Type 0
AllWords [] = Unit
AllWords (s ∷ rest) = IsWord s × AllWords rest

non_empty_word :
    (s : Text) (rest : List Text) → ¬ (s ≡ []) → non_empty (s ∷ rest) ≡ s ∷ non_empty rest
unfolding non_empty
non_empty_word [] rest h = absurd (h refl)
non_empty_word (c ∷ s) rest h = refl

-- A list of scopes that are not empty and hold no whitespace is decoded from its encoding.
pub decode-encode : (ws : List Text) → AllWords ws → decode_scopes (encode_scopes ws) ≡ ws
unfolding decode_scopes encode_scopes split_ascii_whitespace
decode-encode [] h = refl
decode-encode (s ∷ []) ((n, p), h) =
    rw (split-Plain is_ascii_whitespace s p) (non_empty_word s [] n)
decode-encode (s ∷ t ∷ rest) ((n, p), h) =
    rw (split_token is_ascii_whitespace s (encode_scopes (t ∷ rest)) 32 p refl)
      (non_empty_word s _ n ∙ ap (λ w. s ∷ w) (decode-encode (t ∷ rest) h))

abbrev AllPlain : List Text → Type 0
AllPlain [] = Unit
AllPlain (s ∷ rest) = Plain is_ascii_whitespace s × AllPlain rest

glue-AllPlain :
    (c : ℕ) (ws : List Text) → is_ascii_whitespace c ≡ false → AllPlain ws → AllPlain (glue c ws)
glue-AllPlain c [] h p = ((h, tt), tt)
glue-AllPlain c (w ∷ ws) h p = ((h, p.0), p.1)

split-AllPlain : (s : Text) → AllPlain (split is_ascii_whitespace s)
unfolding split
split-AllPlain [] = (tt, tt)
split-AllPlain (c ∷ s) = elim (Bool-cases (is_ascii_whitespace c)) [
  | inl space ↦ rw space (tt, split-AllPlain s)
  | inr other ↦ rw other (glue-AllPlain c _ other (split-AllPlain s))
]

non_empty-AllWords : (ws : List Text) → AllPlain ws → AllWords (non_empty ws)
unfolding non_empty
non_empty-AllWords [] p = tt
non_empty-AllWords ([] ∷ ws) p = non_empty-AllWords ws p.1
non_empty-AllWords ((c ∷ w) ∷ ws) p = ((λ e. ground (arith, e), p.0), non_empty-AllWords ws p.1)

decode-AllWords : (raw : Text) → AllWords (decode_scopes raw)
unfolding decode_scopes split_ascii_whitespace
decode-AllWords raw = non_empty-AllWords _ (split-AllPlain raw)

-- Encoding what was decoded does not change what is decoded.
pub decode-encode-decode :
    (raw : Text) → decode_scopes (encode_scopes (decode_scopes raw)) ≡ decode_scopes raw
decode-encode-decode raw = decode-encode (decode_scopes raw) (decode-AllWords raw)
