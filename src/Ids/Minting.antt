-- ===== src/Ids/Minting.antt =====
-- The ids that the threads of a process are given.
use Prim.Native.Nat.{◌*◌, ◌%◌, ◌^◌, max}
use aver.Prelude.{
  ℕ, List, [], ◌∷◌, ◌++◌, ◌+◌, ◌<◌, ◌≤◌, ◌≡◌, refl, arith, length, leb, Bool-cases, inl, inr, ◌⊎◌,
}
use aver.Ids.{
  IdGen, Minter, Step, loads, misses, exchanges, Steps, start, more, next_id, seeded, elapsed_at,
  signed_order, i64_max,
}

-- The newest id, or the seed where none was given out.
abbrev pub newest : ℕ → List ℕ → ℕ
newest seed [] = seed
newest seed (id ∷ older) = id

-- Each id is above the one before, and the first above the seed.
abbrev pub Rising : ℕ → List ℕ → Type 0
Rising seed [] = Unit
Rising seed (id ∷ older) = (newest seed older < id) × Rising seed older

abbrev pub Ordered : ℕ → IdGen → Type 0
Ordered seed s = (s.last ≡ newest seed s.minted) × Rising seed s.minted

-- No id that `n` mints can reach is above i64::MAX.
abbrev pub FitsI64 : (until seed n : ℕ) → Type 0
FitsI64 until seed n = (until * 4096 + n < 2 ^ 63) × (seed + n < 2 ^ 63)

-- Below 2^63 the order of the patterns is that of the numbers.
i64_max-fits :
    (a b : ℕ)
    → a < 2 ^ 63
    → b < 2 ^ 63
    → (a ≤ i64_max a b) × (b ≤ i64_max a b) × ((i64_max a b ≡ a) ⊎ (i64_max a b ≡ b))
i64_max-fits a b ha hb = elim (Bool-cases (leb (signed_order a) (signed_order b))) [
  | inl le ↦ rw le (ground (arith, le, ha, hb), ground arith, inr refl)
  | inr gt ↦ rw gt (ground arith, ground (arith, gt, ha, hb), inl refl)
]

next_id-fits :
    (hash_one : ℕ → ℕ) (until elapsed current top : ℕ)
    → elapsed < until
    → until * 4096 ≤ top
    → current ≤ top
    → top + 1 < 2 ^ 63
    → (current < next_id hash_one elapsed current) × (next_id hash_one elapsed current ≤ top + 1)
unfolding next_id
next_id-fits hash_one until elapsed current top early clock low fits =
    let a = elapsed * 4096 % 2 ^ 64 + hash_one current % 4096 in
    let b = (current + 1) % 2 ^ 64 in
    let a_fits : a ≤ top = omega arith in
    let b_is : b ≡ current + 1 = omega arith in
    let (le_a, le_b, one) = i64_max-fits a b (omega arith) (omega arith) in
    (omega arith, elim one [ inl e ↦ omega arith | inr e ↦ omega arith ])

module _ (hash_one : ℕ → ℕ) (until : ℕ) where
  abbrev AllEarly : List Minter → Type 0
  AllEarly [] = Unit
  AllEarly (m ∷ ms) = (m.elapsed < until) × AllEarly ms

  AllEarly-split :
      (before after : List Minter) (m : Minter)
      → AllEarly (before ++ m ∷ after)
      → AllEarly before × (m.elapsed < until) × AllEarly after
  AllEarly-split [] after m (e, es) = (tt, e, es)
  AllEarly-split (b ∷ before) after m (e, es) =
      let (l, x, r) = AllEarly-split before after m es in ((e, l), x, r)

  AllEarly-join :
      (before after : List Minter) → AllEarly before → AllEarly after → AllEarly (before ++ after)
  AllEarly-join [] after l r = r
  AllEarly-join (b ∷ before) after (e, es) r = (e, AllEarly-join before after es r)

  -- Every call has read a clock below `until`, and the counter is at most `top` and one more for each id.
  abbrev InRange : ℕ → IdGen → Type 0
  InRange top s = AllEarly s.minters × (s.last ≤ top + length s.minted)

  elapsed-until : (now_ms : ℕ) → now_ms < until → elapsed_at now_ms < until
  unfolding elapsed_at
  elapsed-until now_ms soon = omega arith

  Step-Ordered :
      (seed top : ℕ) (s t : IdGen)
      → Step hash_one until s t
      → until * 4096 ≤ top
      → top + length t.minted < 2 ^ 63
      → Ordered seed s × InRange top s
      → Ordered seed t × InRange top t
  Step-Ordered seed top s t (loads now_ms observed soon e) clock fits (o, (early, low)) =
      rw e (o, ((elapsed-until now_ms soon, early), low))
  Step-Ordered seed top s t (misses before after m observed here e) clock fits (o, (early, low)) =
      let (l, x, r) = AllEarly-split before after m (rw here at early) in
      rw e (o, (AllEarly-join before (_ ∷ after) l (x, r), low))
  Step-Ordered seed top s t (exchanges before after m here held e) clock fits
        ((last, rising), (early, low)) =
      let (l, x, r) = AllEarly-split before after m (rw here at early) in
      let room = rw e at fits in
      let (above, under) =
        next_id-fits hash_one until m.elapsed m.current (top + length s.minted) x (omega arith)
          (omega arith) (omega arith) in
      rw e ((refl, (omega arith, rising)), (AllEarly-join before after l r, omega arith))

  minted-grows : (s t : IdGen) → Step hash_one until s t → length s.minted ≤ length t.minted
  minted-grows s t (loads now_ms observed soon e) = rw e (omega arith)
  minted-grows s t (misses before after m observed here e) = rw e (omega arith)
  minted-grows s t (exchanges before after m here held e) = rw e (omega arith)

  run-Ordered :
      (seed top : ℕ) (s : IdGen)
      → Steps hash_one until (seeded seed) s
      → until * 4096 ≤ top
      → seed ≤ top
      → top + length s.minted < 2 ^ 63
      → Ordered seed s × InRange top s
  unfolding seeded
  run-Ordered seed top s start clock low fits = ((refl, tt), (tt, omega arith))
  run-Ordered seed top s (more {t = t} before last) clock low fits =
      let fits' = minted-grows t s last in
      Step-Ordered seed top t s last clock fits
        (run-Ordered seed top t before clock low (omega arith))

-- However the threads of a process interleave, whatever the hash gives them, and even where exchanges
-- fail without cause, the ids that were given out rise strictly in the order in which they were
-- given, from the seed on, and the counter holds the newest, as long as neither the seed nor an id
-- of the newest clock can reach i64::MAX by adding the number of ids given out.
pub mint-Ordered :
    (hash_one : ℕ → ℕ) (until seed : ℕ) (s : IdGen)
    → Steps hash_one until (seeded seed) s
    → FitsI64 until seed (length s.minted)
    → Ordered seed s
mint-Ordered hash_one until seed s steps (clock, low) =
    (run-Ordered hash_one until seed (max (until * 4096) seed) s steps (omega arith) (omega arith)
      (omega arith)).0
