-- ===== src/OauthScopes/RoundTrip.antt =====
-- Parsing what was serialised, and the strict parser beside the permissive one.
use aver.Text.{any, split, glue}
use aver.OauthScopes.{
  and_then, keep, claims_read, Scope, supported, as_str, Parsed, parsed, unknown, from_str,
  is_ascii_whitespace, non_empty, split_ascii_whitespace, parse_words, parse_scope_list, keep_known,
  parse_scope_list_lossy, holds, push_scope, serialize_from, serialize_scope_list,
}
use aver.Prelude.{
  ℕ, Bool, true, false, List, [], ◌∷◌, ◌++◌, ◌≡◌, refl, arith, if◌then◌else◌, sym, ap,
}
use aver.Text.Splitting.{Plain, split-Plain, Plain-any}
use mathlib.Core.List.{append-nil, append_assoc}

glue-append :
    (c : ℕ) (ws : List (List ℕ)) (tok : List ℕ)
    → ¬ (ws ≡ [])
    → glue c (ws ++ tok ∷ []) ≡ glue c ws ++ tok ∷ []
glue-append c [] tok h = absurd (h refl)
glue-append c (w ∷ ws) tok h = refl

glue-ne : (c : ℕ) (ws : List (List ℕ)) → ¬ (glue c ws ≡ [])
glue-ne c [] h = ground arith
glue-ne c (w ∷ ws) h = ground arith

glued :
    (p : ℕ → Bool) (c : ℕ) (ws : List (List ℕ)) (tok : List ℕ)
    → ¬ (ws ≡ [])
    → (if p c then [] ∷ (ws ++ tok ∷ []) else glue c (ws ++ tok ∷ []))
      ≡ (if p c then [] ∷ ws else glue c ws) ++ tok ∷ []
glued p c ws tok h = ground (arith, glue-append c ws tok h)

split-ne : (p : ℕ → Bool) (s : List ℕ) → ¬ (split p s ≡ [])
unfolding split
split-ne p [] h = ground arith
split-ne p (c ∷ s) h = ground (arith, glue-ne c (split p s))

-- A token after the last boundary is the last piece.
split_last :
    (p : ℕ → Bool) (s tok : List ℕ) (b : ℕ)
    → p b ≡ true
    → Plain p tok
    → split p (s ++ b ∷ tok) ≡ split p s ++ tok ∷ []
unfolding split
split_last p [] tok b hb h = rw (hb, split-Plain p tok h) refl
split_last p (c ∷ s) tok b hb h =
    rw (split_last p s tok b hb h) (glued p c (split p s) tok (split-ne p s))

non_empty-append : (us ws : List (List ℕ)) → non_empty (us ++ ws) ≡ non_empty us ++ non_empty ws
unfolding non_empty
non_empty-append [] ws = refl
non_empty-append ([] ∷ us) ws = non_empty-append us ws
non_empty-append ((c ∷ w) ∷ us) ws = rw (non_empty-append us ws) refl

as_str-from_str : (s : Scope) → from_str (as_str s) ≡ parsed s
unfolding from_str as_str
as_str-from_str claims_read = refl
as_str-from_str _ = refl

-- The scopes that are held, in canonical order.
abbrev pub held : List Scope → List Scope → List Scope
held scopes [] = []
held scopes (s ∷ rest) = let later = held scopes rest in if holds scopes s then s ∷ later else later

abbrev names : List Scope → List (List ℕ)
names [] = []
names (s ∷ ss) = as_str s ∷ names ss

spaceless : (s : Scope) → any is_ascii_whitespace (as_str s) ≡ false
unfolding as_str any
spaceless claims_read = refl
spaceless _ = refl

plain : (s : Scope) → Plain is_ascii_whitespace (as_str s)
plain s = Plain-any is_ascii_whitespace (as_str s) (spaceless s)

nonempty : (s : Scope) → non_empty (as_str s ∷ []) ≡ as_str s ∷ []
unfolding non_empty as_str
nonempty claims_read = refl
nonempty _ = refl

words_push :
    (out : List ℕ) (s : Scope)
    → split_ascii_whitespace (push_scope out (as_str s))
      ≡ split_ascii_whitespace out ++ as_str s ∷ []
unfolding split_ascii_whitespace
words_push [] s = rw (split-Plain is_ascii_whitespace (as_str s) (plain s)) (nonempty s)
words_push (c ∷ out) s =
    rw
      (
        split_last is_ascii_whitespace (c ∷ out) (as_str s) 32 refl (plain s),
        non_empty-append (split is_ascii_whitespace (c ∷ out)) (as_str s ∷ []),
      )
      (ap (λ w. non_empty (split is_ascii_whitespace (c ∷ out)) ++ w) (nonempty s))

words_next :
    (scopes : List Scope) (s : Scope) (rest : List Scope) (out : List ℕ) (b : Bool)
    → ((out : List ℕ)
        → split_ascii_whitespace (serialize_from scopes rest out)
          ≡ split_ascii_whitespace out ++ names (held scopes rest))
    → split_ascii_whitespace
        (serialize_from scopes rest (if b then push_scope out (as_str s) else out))
      ≡ split_ascii_whitespace out ++ names (if b then s ∷ held scopes rest else held scopes rest)
words_next scopes s rest out true ih =
    rw (ih (push_scope out (as_str s)), words_push out s)
      (append_assoc (split_ascii_whitespace out) (as_str s ∷ []) (names (held scopes rest)))
words_next scopes s rest out false ih = ih out

words_serialize :
    (scopes rest : List Scope) (out : List ℕ)
    → split_ascii_whitespace (serialize_from scopes rest out)
      ≡ split_ascii_whitespace out ++ names (held scopes rest)
unfolding serialize_from
words_serialize scopes [] out = sym (append-nil _)
words_serialize scopes (s ∷ rest) out =
    words_next scopes s rest out (holds scopes s) (words_serialize scopes rest)

parse_words-names : (ss out : List Scope) → parse_words out (names ss) ≡ parsed (out ++ ss)
unfolding parse_words
parse_words-names [] out = ap parsed (sym (append-nil out))
parse_words-names (s ∷ ss) out =
    rw (parse_words, as_str-from_str s, parse_words-names ss (out ++ s ∷ []))
      (ap parsed (append_assoc out (s ∷ []) ss))

-- Parsing a serialised list gives its scopes, each once and in the canonical order.
pub parse-serialize :
    (scopes : List Scope)
    → parse_scope_list (serialize_scope_list scopes) ≡ parsed (held scopes supported)
unfolding parse_scope_list serialize_scope_list
parse-serialize scopes =
    rw (words_serialize scopes supported []) (parse_words-names (held scopes supported) [])

keep-parsed :
    (x : Parsed Scope) (ws : List (List ℕ)) (out ss : List Scope)
    → ((out' ss' : List Scope) → parse_words out' ws ≡ parsed ss' → out' ++ keep_known ws ≡ ss')
    → and_then x (λ s. parse_words (out ++ s ∷ []) ws) ≡ parsed ss
    → out ++ keep x (keep_known ws) ≡ ss
keep-parsed (parsed s) ws out ss ih h =
    cc (ih (out ++ s ∷ []) ss h, append_assoc out (s ∷ []) (keep_known ws))
keep-parsed (unknown w) ws out ss ih h = ground arith

keep_known-parsed :
    (ws : List (List ℕ)) (out ss : List Scope)
    → parse_words out ws ≡ parsed ss
    → out ++ keep_known ws ≡ ss
unfolding parse_words keep_known
keep_known-parsed [] out ss h = cc (append-nil out, h)
keep_known-parsed (w ∷ ws) out ss h =
    keep-parsed (from_str w) ws out ss (λ out'. keep_known-parsed ws out') h

-- Where the strict parser accepts a list, the permissive one reads the same scopes.
parse_scope_list-lossy :
    (s : List ℕ) (ss : List Scope) → parse_scope_list s ≡ parsed ss → parse_scope_list_lossy s ≡ ss
unfolding parse_scope_list parse_scope_list_lossy
parse_scope_list-lossy s ss h = keep_known-parsed (split_ascii_whitespace s) [] ss h
