-- ===== src/Graph/Sound.antt =====
-- What the path found by `graph_path` is: a path over the edges, from the source to the target.
use mathlib.Core.List.{Memᴰ}
use aver.Prelude.{
  ℕ, zero, suc, String, Bool, true, false, Option, none, some, List, [], ◌∷◌, ◌≤◌, ◌<◌, ◌≡◌, refl,
  ◌==◌, string_eq, nat_eq, length, arith, Bool-cases, inl, inr, if◌then◌else◌,
}
use aver.Graph.{
  EdgeCandidate, Floats, Trail, Search, contains, extend, arrive, offer, offer_all, is_behind,
  replaces, round, walk, rounds, begin, best_trail,
}
use mathlib.Core.Path.{subst}
use aver.Graph.Bounds.{All, All-snoc, InLimit, length-snoc, round-weight}

-- The trails over the edges: each step goes from where the trail stands to an entity that it has not
-- visited, and the confidence is the product over the steps.
pub data IsTrail (f : Floats) (cs : List EdgeCandidate) (source : String) : Trail → Type 0 where
  start : IsTrail f cs source (begin source)
  further :
      {t : Trail} (c : EdgeCandidate)
      → IsTrail f cs source t
      → Memᴰ c cs
      → (c.traverse_from == t.entity) ≡ true
      → contains t.entity_path c.traverse_to ≡ false
      → IsTrail f cs source (extend f t c)

abbrev pub Holds : {A : Type 0} → (A → Type 0) → Option A → Type 0
Holds P none = Unit
Holds P (some a) = P a

-- A trail from the source to the target within the limit.
abbrev pub IsAnswer : Floats → List EdgeCandidate → (source target : String) → ℕ → Trail → Type 0
IsAnswer f cs source target max_hops t =
    IsTrail f cs source t × (t.entity ≡ target) × (length t.steps ≤ max_hops)

Holds-if :
    {A : Type 0} (P : A → Type 0) (b : Bool) (x : A) (o : Option A)
    → P x
    → Holds P o
    → Holds P (if b then some x else o)
Holds-if P true x o p h = p
Holds-if P false x o p h = h

module _ (f : Floats) (edges : List EdgeCandidate) (source target : String) (max_hops : ℕ) where
  abbrev Sound : Search → Type 0
  Sound s =
      All (IsTrail f edges source) s.queue × Holds (IsAnswer f edges source target max_hops) s.best

  offer-Sound :
      (t : Trail) (c : EdgeCandidate) (s : Search)
      → IsTrail f edges source t
      → Memᴰ c edges
      → length t.steps < max_hops
      → Sound s
      → Sound (offer f target t c s)
  unfolding offer arrive
  offer-Sound t c s walked mem room h = elim (Bool-cases (c.traverse_from == t.entity)) [
    | inr elsewhere ↦ rw elsewhere h
    | inl here ↦ elim (Bool-cases (contains t.entity_path c.traverse_to)) [
      | inl seen ↦ rw (here, seen) h
      | inr fresh ↦
          let next = further c walked mem here fresh in
          elim (Bool-cases (c.traverse_to == target)) [
            | inl found ↦
                let arrived : c.traverse_to ≡ target =
                  (string_eq.agrees c.traverse_to target).0 found in
                let longer = length-snoc t.steps c.step in
                rw (here, fresh, found)
                  (
                    h.0,
                    Holds-if _ (replaces f (extend f t c) s.best) (extend f t c) s.best
                        (next, arrived, omega (arith, longer)) (h.1),
                  )
            | inr on ↦ rw (here, fresh, on) (All-snoc _ s.queue (extend f t c) (h.0) next, h.1)
          ]
    ]
  ]

  offer_all-Sound :
      (t : Trail) (cs : List EdgeCandidate) (s : Search)
      → IsTrail f edges source t
      → ((c : EdgeCandidate) → Memᴰ c cs → Memᴰ c edges)
      → length t.steps < max_hops
      → Sound s
      → Sound (offer_all f target t cs s)
  unfolding offer_all
  offer_all-Sound t [] s walked sub room h = h
  offer_all-Sound t (c ∷ cs) s walked sub room h =
      offer_all-Sound t cs (offer f target t c s) walked (λ d m. sub d (Memᴰ.tail m)) room
        (offer-Sound t c s walked (sub c (Memᴰ.head refl)) room h)

  round-Sound :
      (t : Trail) (s : Search)
      → IsTrail f edges source t
      → length t.steps ≤ max_hops
      → Sound s
      → Sound (round f edges target max_hops t s)
  unfolding round
  round-Sound t s walked limit h = elim (Bool-cases (is_behind s.shortest_depth (length t.steps))) [
    | inl behind ↦ rw behind h
    | inr ahead ↦ elim (Bool-cases (length t.steps == max_hops)) [
      | inl full ↦ rw (ahead, full) h
      | inr room ↦
          rw (ahead, room) (offer_all-Sound t edges s walked (λ c m. m) (ground (arith, room)) h)
    ]
  ]

  walk-Sound :
      (fuel : ℕ) (queue : List Trail) (s : Search) (best : Option Trail)
      → All (IsTrail f edges source) queue
      → All (InLimit max_hops) queue
      → Holds (IsAnswer f edges source target max_hops) s.best
      → walk fuel f edges target max_hops queue s ≡ some best
      → Holds (IsAnswer f edges source target max_hops) best
  unfolding walk
  walk-Sound fuel [] s best walked limits h e =
      let same : s.best ≡ best = ground (arith, e) in
      subst (Holds (IsAnswer f edges source target max_hops)) same h
  walk-Sound zero (t ∷ queue) s best walked limits h e = cc e
  walk-Sound (suc fuel) (t ∷ queue) s best walked limits h e =
      let s' : Search = record s { queue = queue } in
      let (walked', h') = round-Sound t s' (walked.0) (limits.0) (walked.1, h) in
      let (limits', less) = round-weight f edges target max_hops t s' (limits.0) (limits.1) in
      let next = round f edges target max_hops t s' in
      walk-Sound fuel next.queue next best walked' limits' h' e

  -- A path that is found runs from the source to the target over the edges, step by step and with no
  -- entity twice, within the limit.
  pub best_trail-IsAnswer :
      (t : Trail)
      → best_trail f edges source target max_hops ≡ some (some t)
      → IsAnswer f edges source target max_hops t
  unfolding best_trail
  best_trail-IsAnswer t e =
      walk-Sound (rounds (length edges) max_hops) (begin source ∷ [])
        (record { queue = begin source ∷ []; best = none; shortest_depth = none }) (some t)
        (start, tt) (omega arith, tt) tt e
