-- ===== src/Text/Splitting.antt =====
-- `split` and the searches: what they find, as positions in the text.
use aver.Prelude.{◌↔◌, ℕ, Bool, true, false, ◌≡◌, refl, List, [], ◌∷◌, ◌++◌, arith}
use mathlib.Core.List.{append-nil}
use aver.Text.{split, any, starts_with, contains, ends_with, text_beq, glue}

module _ (p : ℕ → Bool) where
  -- No character of the text is a boundary.
  abbrev pub Plain : List ℕ → Type 0
  Plain [] = Unit
  Plain (c ∷ cs) = (p c ≡ false) × Plain cs

  -- A search for boundaries that finds none.
  pub Plain-any : (tok : List ℕ) → any p tok ≡ false → Plain tok
  unfolding any
  Plain-any [] h = tt
  Plain-any (c ∷ cs) h = (ground arith, Plain-any cs (ground arith))

  pub split-Plain : (tok : List ℕ) → Plain tok → split p tok ≡ tok ∷ []
  unfolding split
  split-Plain [] h = refl
  split-Plain (c ∷ cs) h = ground (arith, split-Plain cs h.1)

  pub split_token :
      (tok post : List ℕ) (b : ℕ)
      → Plain tok
      → p b ≡ true
      → split p (tok ++ b ∷ post) ≡ tok ∷ split p post
  unfolding split
  split_token [] post b h hb = ground arith
  split_token (c ∷ cs) post b h hb = ground (arith, split_token cs post b h.1)

  -- `left` is empty or ends at a boundary.
  abbrev pub IsOpen : List ℕ → Type 0
  IsOpen [] = Unit
  IsOpen (c ∷ []) = p c ≡ true
  IsOpen (c ∷ d ∷ cs) = IsOpen (d ∷ cs)

  -- `right` is empty or starts at a boundary.
  abbrev pub IsClose : List ℕ → Type 0
  IsClose [] = Unit
  IsClose (c ∷ cs) = p c ≡ true

  module _ (q : List ℕ → Bool) where
    abbrev any_later : List (List ℕ) → Bool
    any_later [] = false
    any_later (w ∷ ws) = any q ws

    any_of_later : (ws : List (List ℕ)) → any_later ws ≡ true → any q ws ≡ true
    unfolding any
    any_of_later [] h = cc
    any_of_later (w ∷ ws) h = ground arith

    any_later-glue :
        (c : ℕ) (ws : List (List ℕ)) → any_later ws ≡ true → any_later (glue c ws) ≡ true
    any_later-glue c [] h = cc
    any_later-glue c (w ∷ ws) h = h

    any_later-split :
        (c : ℕ) (left s : List ℕ)
        → IsOpen (c ∷ left)
        → any q (split p s) ≡ true
        → any_later (split p ((c ∷ left) ++ s)) ≡ true
    unfolding split
    any_later-split c [] s o h = ground arith
    any_later-split c (d ∷ left) s o h = ground (
      arith,
      any_later-split d left s o h,
      any_of_later (split p ((d ∷ left) ++ s)),
      any_later-glue c (split p ((d ∷ left) ++ s)),
    )

    any-first :
        (tok right : List ℕ)
        → Plain tok
        → IsClose right
        → q tok ≡ true
        → any q (split p (tok ++ right)) ≡ true
    unfolding any
    any-first tok [] h k hq = rw (append-nil, split-Plain tok h) (ground arith)
    any-first tok (b ∷ right) h k hq = rw (split_token tok right b h k) (ground arith)

    -- A token between boundaries is one of the pieces that are searched.
    pub any-token :
        (left tok right : List ℕ)
        → IsOpen left
        → Plain tok
        → IsClose right
        → q tok ≡ true
        → any q (split p (left ++ (tok ++ right))) ≡ true
    any-token [] tok right o h k hq = any-first tok right h k hq
    any-token (c ∷ left) tok right o h k hq =
        any_of_later _ (any_later-split c left (tok ++ right) o (any-first tok right h k hq))

pub starts_with-append : (p s : List ℕ) → starts_with p (p ++ s) ≡ true
unfolding starts_with
starts_with-append [] s = refl
starts_with-append (c ∷ p) s = ground (arith, starts_with-append p s)

contains_of_starts_with : (p s : List ℕ) → starts_with p s ≡ true → contains p s ≡ true
unfolding contains
contains_of_starts_with p [] h = h
contains_of_starts_with p (c ∷ s) h = ground arith

-- A text that holds `p` somewhere is found to contain it.
pub contains-append : (left p right : List ℕ) → contains p (left ++ (p ++ right)) ≡ true
unfolding contains
contains-append [] p right = contains_of_starts_with p (p ++ right) (starts_with-append p right)
contains-append (c ∷ left) p right = ground (arith, contains-append left p right)

text_beq_refl : (s : List ℕ) → text_beq s s ≡ true
unfolding text_beq
text_beq_refl [] = refl
text_beq_refl (c ∷ s) = ground (arith, text_beq_refl s)

pub text_beq_iff : (s t : List ℕ) → (text_beq s t ≡ true) ↔ (s ≡ t)
unfolding text_beq
text_beq_iff [] [] = ground arith
text_beq_iff [] (d ∷ t) = ground arith
text_beq_iff (c ∷ s) [] = ground arith
text_beq_iff (c ∷ s) (d ∷ t) = ground (arith, text_beq_iff s t)

ends_with_self : (p : List ℕ) → ends_with p p ≡ true
unfolding ends_with
ends_with_self [] = refl
ends_with_self (c ∷ p) = ground (arith, text_beq_refl (c ∷ p))

pub ends_with-append : (left p : List ℕ) → ends_with p (left ++ p) ≡ true
unfolding ends_with
ends_with-append [] p = ends_with_self p
ends_with-append (c ∷ left) p = ground (arith, ends_with-append left p)
