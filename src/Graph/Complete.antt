-- ===== src/Graph/Complete.antt =====
-- A path is found where there is one, and it is a shortest one.
use aver.Prelude.{
  ℕ, zero, suc, String, true, false, Option, none, some, List, [], ◌∷◌, ◌≤◌, ◌<◌, ◌≡◌, ◌≢◌, refl,
  sym, ◌∙◌, ap, ◌==◌, string_eq, nat_eq, length, arith, Bool-cases, inl, inr, ◌⊎◌,
}
use aver.Graph.{
  EdgeCandidate, Floats, Trail, Search, extend, is_behind, round, walk, rounds, begin, best_trail,
}
use aver.Graph.Bounds.{All, length-snoc, best_trail_total}
use aver.Graph.Sound.{IsTrail, Holds, IsAnswer, best_trail-IsAnswer}
use aver.Graph.Shortest.{IsSettled, IsFound, Near, depth}
use aver.Graph.Ahead.{
  Leads, Leads-length, IsTrail-Leads, Goes, first_step, Ahead, offer_all-Ahead, IsLoop,
}

Near-next :
    (t next : Trail) (queue : List Trail)
    → length t.steps ≤ length next.steps
    → All (λ u. length next.steps ≤ length u.steps) queue
    → Near t queue
    → Near next queue
Near-next t next [] le all near = tt
Near-next t next (u ∷ queue) le all near =
    ((all.0, omega (arith, near.0.1)), Near-next t next queue le (all.1) (near.1))

bound_next :
    (t next : Trail) (best : Option Trail)
    → length t.steps ≤ length next.steps
    → Holds (λ b. length b.steps ≤ suc (length t.steps)) best
    → Holds (λ b. length b.steps ≤ suc (length next.steps)) best
bound_next t next none le h = tt
bound_next t next (some b) le h = omega arith

IsSettled-IsLoop :
    (target : String) (t : Trail) (queue : List Trail) (s : Search)
    → IsSettled target t (record s { queue = queue })
    → IsLoop target queue s
IsSettled-IsLoop target t [] s h = tt
IsSettled-IsLoop target t (next ∷ queue) s h = (
  record {
    ordered = h.ordered.1;
    near = Near-next t next queue (h.near.0.0) (h.ordered.0) (h.near.1);
    bound = bound_next t next s.best (h.near.0.0) h.bound;
    shortest = h.shortest;
    elsewhere = h.elsewhere.1;
  },
  h.elsewhere.0,
)

-- A search that is behind has found something that is no longer.
behind-best :
    (o : Option Trail) (len : ℕ)
    → is_behind (depth o) len ≡ true
    → (b : Trail) × (o ≡ some b) × (length b.steps ≤ len)
behind-best none len h = cc h
behind-best (some b) len h = (b, refl, ground (arith, h))

IsFound-ahead :
    (t : Trail) (o : Option Trail)
    → is_behind (depth o) (length t.steps) ≡ false
    → Holds (λ b. length b.steps ≤ suc (length t.steps)) o
    → IsFound t o
IsFound-ahead t none h bound = tt
IsFound-ahead t (some b) h bound = ground (arith, h, bound)

module _ (f : Floats) (edges : List EdgeCandidate) (target : String) (max_hops : ℕ)
    (u : Trail) where
  abbrev NextAhead : Trail → Search → Type 0
  NextAhead t s = IsSettled target t s × Ahead f edges u s.queue s.best

  Leads-step :
      (t : Trail)
      → (t.entity == target) ≡ false
      → u.entity ≡ target
      → Leads f edges t u
      → (c : EdgeCandidate) × Goes f edges t c × Leads f edges (extend f t c) u
  Leads-step t elsewhere there leads = elim (first_step f edges leads) [
    | inr step ↦ step
    | inl same ↦
        let reached : (t.entity == target) ≡ true =
          (string_eq.agrees t.entity target).1 (ap (λ v. v.entity) same ∙ there) in
        cc (reached, elsewhere)
  ]

  round-Ahead :
      (t : Trail) (s : Search)
      → IsSettled target t s
      → (t.entity == target) ≡ false
      → u.entity ≡ target
      → length u.steps ≤ max_hops
      → Leads f edges t u ⊎ Ahead f edges u s.queue s.best
      → NextAhead t (round f edges target max_hops t s)
  unfolding round
  round-Ahead t s settled elsewhere there limit h =
      let room_for : Leads f edges t u → length t.steps < max_hops = λ leads.
        let (c, goes, later) = Leads-step t elsewhere there leads in
        omega (arith, Leads-length f edges later, length-snoc t.steps c.step) in
      elim (Bool-cases (is_behind s.shortest_depth (length t.steps))) [
        | inl behind ↦ rw behind (
          settled,
          elim h [
            | inr ahead ↦ ahead
            | inl leads ↦
                let (b, e, le) =
                  behind-best s.best (length t.steps) (rw settled.shortest at behind) in
                inr (b, e, omega (arith, le, Leads-length f edges leads))
          ],
        )
        | inr open' ↦ elim (Bool-cases (length t.steps == max_hops)) [
          | inl full ↦
              rw (open', full)
                (
                  settled,
                  elim h [
                    | inr ahead ↦ ahead
                    | inl leads ↦ absurd (ground (arith, full, room_for leads))
                  ],
                )
          | inr room ↦
              let found = IsFound-ahead t s.best (rw settled.shortest at open') settled.bound in
              rw (open', room)
                (offer_all-Ahead f edges target t u edges s settled found (elim h [
                  | inr ahead ↦ inl ahead
                  | inl leads ↦
                      let (c, (m, here, fresh), later) = Leads-step t elsewhere there leads in
                      inr (c, m, here, fresh, later)
                ]))
        ]
      ]

  walk-Ahead :
      (fuel : ℕ) (queue : List Trail) (s : Search) (best : Option Trail)
      → IsLoop target queue s
      → u.entity ≡ target
      → length u.steps ≤ max_hops
      → Ahead f edges u queue s.best
      → walk fuel f edges target max_hops queue s ≡ some best
      → (b : Trail) × (best ≡ some b) × (length b.steps ≤ length u.steps)
  unfolding walk
  walk-Ahead fuel [] s best loop there limit (inl e) w = elim e [ ]
  walk-Ahead fuel [] s best loop there limit (inr (b, e, le)) w =
      let same : s.best ≡ best = ground (arith, w) in (b, sym same ∙ e, le)
  walk-Ahead zero (t ∷ queue) s best loop there limit h w = cc w
  walk-Ahead (suc fuel) (t ∷ queue) s best loop there limit h w =
      let s' : Search = record s { queue = queue } in
      let (settled, ahead) = round-Ahead t s' (loop.0) (loop.1) there limit (elim h [
        | inl (inl leads) ↦ inl leads
        | inl (inr ex) ↦ inr (inl ex)
        | inr b ↦ inr (inr b)
      ]) in
      let next = round f edges target max_hops t s' in
      walk-Ahead fuel next.queue next best (IsSettled-IsLoop target t next.queue next settled) there
        limit ahead w

walked_ahead :
    (f : Floats) (edges : List EdgeCandidate) (source target : String) (max_hops : ℕ) (u : Trail)
    (best : Option Trail)
    → source ≢ target
    → IsTrail f edges source u
    → u.entity ≡ target
    → length u.steps ≤ max_hops
    → best_trail f edges source target max_hops ≡ some best
    → (b : Trail) × (best ≡ some b) × (length b.steps ≤ length u.steps)
unfolding best_trail
walked_ahead f edges source target max_hops u best apart walked there limit ends =
    let elsewhere : (source == target) ≡ false = elim (Bool-cases (source == target)) [
      | inl same ↦ absurd (apart ((string_eq.agrees source target).0 same))
      | inr differs ↦ differs
    ] in
    let first : Search = record { queue = begin source ∷ []; best = none; shortest_depth = none } in
    walk-Ahead f edges target max_hops u (rounds (length edges) max_hops) (begin source ∷ []) first
      best
      (record { ordered = tt; near = tt; bound = tt; shortest = refl; elsewhere = tt }, elsewhere)
      there limit (inl (inl (IsTrail-Leads f edges source walked))) ends

-- Where some path from the source to another entity lies over the edges and within the limit, the search
-- finds such a path, and one that has no more steps.
pub best_trail-shortest :
    (f : Floats) (edges : List EdgeCandidate) (source target : String) (max_hops : ℕ) (u : Trail)
    → source ≢ target
    → IsAnswer f edges source target max_hops u
    → (t : Trail) × (best_trail f edges source target max_hops ≡ some (some t))
      × IsAnswer f edges source target max_hops t
      × (length t.steps ≤ length u.steps)
best_trail-shortest f edges source target max_hops u apart (walked, there, limit) =
    let (best, ends) = best_trail_total f edges source target max_hops in
    let (t, e, le) =
      walked_ahead f edges source target max_hops u best apart walked there limit ends in
    let found = ends ∙ ap some e in
    (t, found, best_trail-IsAnswer f edges source target max_hops t found, le)
