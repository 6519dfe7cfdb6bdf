-- ===== src/Graph/Bounds.antt =====
-- The loop of `graph_path` ends within its fuel.
use Prim.Native.Nat.{◌*◌}
use aver.Prelude.{
  ℕ, zero, suc, String, Option, some, List, [], ◌∷◌, ◌++◌, ◌+◌, ◌-◌, ◌≤◌, ◌<◌, ◌≡◌, refl, ap, ◌==◌,
  string_eq, nat_eq, length, arith, Bool-cases, inl, inr,
}
use aver.Graph.{
  EdgeCandidate, Floats, Trail, Search, contains, extend, arrive, offer, offer_all, is_behind,
  round, walk, rounds, begin, best_trail,
}

-- The rounds that the trails of a queue can lead to.
pub weight : (width max_hops : ℕ) → List Trail → ℕ
weight width max_hops [] = 0
weight width max_hops (t ∷ ts) = rounds width (max_hops - length t.steps) + weight width max_hops ts

weight-snoc :
    (width max_hops : ℕ) (ts : List Trail) (t : Trail)
    → weight width max_hops (ts ++ t ∷ [])
      ≡ weight width max_hops ts + rounds width (max_hops - length t.steps)
unfolding weight
weight-snoc width max_hops [] t = omega arith
weight-snoc width max_hops (u ∷ ts) t = omega (arith, weight-snoc width max_hops ts t)

abbrev pub All : {A : Type 0} → (A → Type 0) → List A → Type 0
All P [] = Unit
All P (x ∷ xs) = P x × All P xs

pub All-snoc :
    {A : Type 0} (P : A → Type 0) (xs : List A) (x : A) → All P xs → P x → All P (xs ++ x ∷ [])
All-snoc P [] x h p = (p, tt)
All-snoc P (y ∷ xs) x h p = (h.0, All-snoc P xs x (h.1) p)

pub length-snoc : {A : Type 0} (xs : List A) (x : A) → length (xs ++ x ∷ []) ≡ suc (length xs)
length-snoc [] x = refl
length-snoc (y ∷ xs) x = ap suc (length-snoc xs x)

-- No trail is longer than the limit.
abbrev pub InLimit : ℕ → Trail → Type 0
InLimit max_hops t = length t.steps ≤ max_hops

module _ (f : Floats) (target : String) (max_hops width : ℕ) where
  -- An offer adds one trail at most, which is one step longer.
  offer-weight :
      (t : Trail) (c : EdgeCandidate) (s : Search)
      → length t.steps < max_hops
      → All (InLimit max_hops) s.queue
      → All (InLimit max_hops) (offer f target t c s).queue
        × (weight width max_hops (offer f target t c s).queue
            ≤ weight width max_hops s.queue + rounds width (max_hops - suc (length t.steps)))
  unfolding offer arrive
  offer-weight t c s short all = elim (Bool-cases (c.traverse_from == t.entity)) [
    | inr elsewhere ↦ rw elsewhere (all, omega arith)
    | inl here ↦ elim (Bool-cases (contains t.entity_path c.traverse_to)) [
      | inl seen ↦ rw (here, seen) (all, omega arith)
      | inr fresh ↦ elim (Bool-cases (c.traverse_to == target)) [
        | inl found ↦ rw (here, fresh, found) (all, omega arith)
        | inr on ↦
            let longer = length-snoc t.steps c.step in
            rw (here, fresh, on)
              (
                All-snoc (InLimit max_hops) s.queue (extend f t c) all (omega (arith, longer)),
                (let e = weight-snoc width max_hops s.queue (extend f t c) in
                    rw (e, longer) (omega arith)),
              )
      ]
    ]
  ]

  offer_all-weight :
      (t : Trail) (cs : List EdgeCandidate) (s : Search)
      → length t.steps < max_hops
      → All (InLimit max_hops) s.queue
      → All (InLimit max_hops) (offer_all f target t cs s).queue
        × (weight width max_hops (offer_all f target t cs s).queue
            ≤ weight width max_hops s.queue
              + length cs * rounds width (max_hops - suc (length t.steps)))
  unfolding offer_all
  offer_all-weight t [] s short all = (all, omega arith)
  offer_all-weight t (c ∷ cs) s short all =
      let (all', first) = offer-weight t c s short all in
      let (all'', later) = offer_all-weight t cs (offer f target t c s) short all' in
      (all'', grind arith)

rounds-suc :
    (width max_hops len : ℕ)
    → len < max_hops
    → rounds width (max_hops - len) ≡ 1 + width * rounds width (max_hops - suc len)
unfolding rounds
rounds-suc width max_hops len h =
    let e : max_hops - len ≡ suc (max_hops - suc len) = omega arith in rw e refl

rounds_pos : (width hops : ℕ) → 1 ≤ rounds width hops
unfolding rounds
rounds_pos width zero = omega arith
rounds_pos width (suc hops) = omega arith

module _ (f : Floats) (cs : List EdgeCandidate) (target : String) (max_hops : ℕ) where
  -- A round leaves less to do.
  pub round-weight :
      (t : Trail) (s : Search)
      → InLimit max_hops t
      → All (InLimit max_hops) s.queue
      → All (InLimit max_hops) (round f cs target max_hops t s).queue
        × (weight (length cs) max_hops (round f cs target max_hops t s).queue
            < rounds (length cs) (max_hops - length t.steps) + weight (length cs) max_hops s.queue)
  unfolding round
  round-weight t s short all =
      let some_round = rounds_pos (length cs) (max_hops - length t.steps) in
      elim (Bool-cases (is_behind s.shortest_depth (length t.steps))) [
        | inl behind ↦ rw behind (all, omega arith)
        | inr ahead ↦ elim (Bool-cases (length t.steps == max_hops)) [
          | inl full ↦ rw (ahead, full) (all, omega arith)
          | inr room ↦
              let below : length t.steps < max_hops = ground (arith, room) in
              let (all', w) = offer_all-weight f target max_hops (length cs) t cs s below all in
              let e = rounds-suc (length cs) max_hops (length t.steps) below in
              rw (ahead, room) (all', omega (arith, w, e))
        ]
      ]

  walk_total :
      (fuel : ℕ) (queue : List Trail) (s : Search)
      → All (InLimit max_hops) queue
      → weight (length cs) max_hops queue ≤ fuel
      → (best : Option Trail) × (walk fuel f cs target max_hops queue s ≡ some best)
  unfolding walk weight
  walk_total fuel [] s all h = (s.best, refl)
  walk_total zero (t ∷ queue) s all h =
      absurd (omega (arith, rounds_pos (length cs) (max_hops - length t.steps)))
  walk_total (suc fuel) (t ∷ queue) s all h =
      let s' : Search = record s { queue = queue } in
      let (all', w) = round-weight t s' (all.0) (all.1) in
      let next = round f cs target max_hops t s' in
      walk_total fuel next.queue next all' (omega (arith, w))

-- The search ends for any edges, with a path or with none.
pub best_trail_total :
    (f : Floats) (cs : List EdgeCandidate) (source target : String) (max_hops : ℕ)
    → (best : Option Trail) × (best_trail f cs source target max_hops ≡ some best)
unfolding best_trail weight
best_trail_total f cs source target max_hops =
    walk_total f cs target max_hops (rounds (length cs) max_hops) (begin source ∷ []) _
      (omega arith, tt)
      (let e : rounds (length cs) (max_hops - 0) ≡ rounds (length cs) max_hops =
          ap (rounds (length cs)) (omega arith) in
        omega (arith, e))
