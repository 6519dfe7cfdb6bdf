-- ===== src/Prelude/Tables.antt =====
-- A table with a primary key, as an association list. The rows carry no order: an insert goes in
-- front, and every query of the program names the key or reads all rows.
use aver.Prelude.Tests.{Bool-cases, if◌then◌else◌}
use mathlib.Core.Logic.{inl, inr}
use mathlib.Core.Path.{subst, ◌≡◌, refl, sym, ◌∙◌}
use Prim.Native.Nat.{ℕ, suc}
use mathlib.Core.Option
use mathlib.Core.Bool.{Bool}
use mathlib.Core.Option.{Option, none, some}
use mathlib.Core.List.{List, [], ◌∷◌}
use native.Mathlib.Omega.{arith}
use aver.Prelude.Equality.{PartialEq, ◌==◌}

abbrev pub Table {ℓ κ} : Type ℓ → Type κ → Type (ℓ ⊔ κ)
Table K V = List (K × V)

abbrev pub length {ℓ} : {A : Type ℓ} → List A → ℕ
length [] = 0
length (x ∷ xs) = suc (length xs)

-- A row of an updated table is the image of one.
pub mapped-some {κ} :
    {V : Type κ} (g : V → V) (o : Option V) (v : V)
    → Option.map g o ≡ some v
    → (w : V) × (o ≡ some w) × (g w ≡ v)
mapped-some g none v h = cc h
mapped-some g (some w) v h = (w, refl, ground (arith, h))

-- What holds of the image of a row.
rows-mapped {κ μ} :
    {V : Type κ} (P : V → Type μ) (g : V → V) (o : Option V)
    → ((w : V) → o ≡ some w → P (g w))
    → (v : V) → Option.map g o ≡ some v
    → P v
rows-mapped P g none all v h = cc h
rows-mapped P g (some w) all v h = let p : g w ≡ v = ground (arith, h) in subst P p (all w refl)

module _ {ℓ κ} {K : Type ℓ} {V : Type κ} ⦃e : PartialEq K⦄ where
  -- SELECT … WHERE key = ?
  unfoldable pub find : K → Table K V → Option V
  find k [] = none
  find k ((j, v) ∷ t) = if j == k then some v else find k t

  -- INSERT, where `find` has shown that the key is free.
  unfoldable pub insert : K → V → Table K V → Table K V
  insert k v t = (k, v) ∷ t

  -- UPDATE … WHERE key = ?
  unfoldable pub modify : K → (V → V) → Table K V → Table K V
  modify k f [] = []
  modify k f ((j, v) ∷ t) = (j, (if j == k then f v else v)) ∷ modify k f t

  -- DELETE … WHERE key = ?
  unfoldable pub remove : K → Table K V → Table K V
  remove k [] = []
  remove k ((j, v) ∷ t) = let rest = remove k t in if j == k then rest else (j, v) ∷ rest

  -- INSERT OR REPLACE
  unfoldable pub replace : K → V → Table K V → Table K V
  unfolding remove insert
  replace k v t = insert k v (remove k t)

  -- UPDATE … WHERE, for a condition on the row.
  unfoldable pub update_where : (V → Bool) → (V → V) → Table K V → Table K V
  update_where p f [] = []
  update_where p f ((j, v) ∷ t) = (j, (if p v then f v else v)) ∷ update_where p f t

  pub find-remove :
      (k j : K) (t : Table K V) → find j (remove k t) ≡ (if k == j then none else find j t)
  unfolding find remove
  find-remove k j [] = ground arith
  find-remove k j ((i, v) ∷ t) =
      ground (arith, find-remove k j t, e.agrees i j, e.agrees k j, e.agrees i k)

  pub find-replace :
      (k j : K) (v : V) (t : Table K V)
      → find j (replace k v t) ≡ (if k == j then some v else find j t)
  unfolding find replace insert
  find-replace k j v t = ground (arith, find-remove k j t)

  pub find-update_where :
      (p : V → Bool) (f : V → V) (j : K) (t : Table K V)
      → find j (update_where p f t) ≡ Option.map (λ v. if p v then f v else v) (find j t)
  unfolding find update_where
  find-update_where p f j [] = refl
  find-update_where p f j ((i, v) ∷ t) = ground (arith, find-update_where p f j t)

  pub find-insert :
      (k j : K) (v : V) (t : Table K V)
      → find j (insert k v t) ≡ (if k == j then some v else find j t)
  unfolding find insert
  find-insert k j v t = refl

  pub find-modify :
      (k j : K) (f : V → V) (t : Table K V)
      → find j (modify k f t) ≡ (if k == j then Option.map f (find j t) else find j t)
  unfolding find modify
  find-modify k j f [] = ground arith
  find-modify k j f ((i, v) ∷ t) =
      ground (arith, find-modify k j f t, e.agrees i j, e.agrees k j, e.agrees i k)

  pub find-modify_hit :
      (k : K) (f : V → V) (t : Table K V) → find k (modify k f t) ≡ Option.map f (find k t)
  find-modify_hit k f t = ground (arith, find-modify k k f t, (e.agrees k k).1 refl)

  pub find-modify_self :
      (k : K) (v : V) (t : Table K V) {w : V}
      → find k t ≡ some w
      → find k (modify k (λ _. v) t) ≡ some v
  find-modify_self k v t h = ground (arith, find-modify k k (λ (_ : V). v) t, (e.agrees k k).1 refl)

  -- What holds of every row of a table, after a write.
  module _ {μ} (P : V → Type μ) where
    pub rows-insert :
        (k : K) (row : V) (t : Table K V)
        → ((i : K) (v : V) → find i t ≡ some v → P v)
        → P row
        → (i : K) (v : V) → find i (insert k row t) ≡ some v
        → P v
    rows-insert k row t all here i v h = elim (Bool-cases (k == i)) [
      | inl hit ↦ let p : row ≡ v = ground (arith, find-insert k i row t) in subst P p here
      | inr miss ↦ all i v (ground (arith, find-insert k i row t))
    ]

    pub rows-modify :
        (k : K) (row : V) (t : Table K V)
        → ((i : K) (v : V) → find i t ≡ some v → P v)
        → P row
        → (i : K) (v : V) → find i (modify k (λ _. row) t) ≡ some v
        → P v
    rows-modify k row t all here i v h = elim (Bool-cases (k == i)) [
      | inl hit ↦
          let p : row ≡ v = ground (arith, find-modify k i (λ (_ : V). row) t) in subst P p here
      | inr miss ↦ all i v (ground (arith, find-modify k i (λ (_ : V). row) t))
    ]

    pub rows-replace :
        (k : K) (row : V) (t : Table K V)
        → ((i : K) (v : V) → find i t ≡ some v → P v)
        → P row
        → (i : K) (v : V) → find i (replace k row t) ≡ some v
        → P v
    rows-replace k row t all here i v h = elim (Bool-cases (k == i)) [
      | inl hit ↦ let p : row ≡ v = ground (arith, find-replace k i row t) in subst P p here
      | inr miss ↦ all i v (ground (arith, find-replace k i row t))
    ]

    pub rows-update_where :
        (p : V → Bool) (f : V → V) (t : Table K V) (i : K)
        → ((w : V) → find i t ≡ some w → P (if p w then f w else w))
        → (v : V) → find i (update_where p f t) ≡ some v
        → P v
    rows-update_where p f t i all v h =
        rows-mapped P (λ v. if p v then f v else v) (find i t) all v
          (sym (find-update_where p f i t) ∙ h)

    pub rows-modify_with :
        (k : K) (f : V → V) (t : Table K V) (i : K)
        → ((w : V) → find i t ≡ some w → P w)
        → ((w : V) → find k t ≡ some w → P (f w))
        → (v : V) → find i (modify k f t) ≡ some v
        → P v
    rows-modify_with k f t i all new v h = elim (Bool-cases (k == i)) [
      | inl hit ↦
          rows-mapped P f (find i t) (λ w q. new w (rw ((e.agrees k i).0 hit) q)) v
            (ground (arith, find-modify k i f t))
      | inr miss ↦ all v (ground (arith, find-modify k i f t))
    ]
