-- ===== src/Graph/Ahead.antt =====
-- A trail ahead of the search: one that goes on from a trail in the queue stays within its reach.
use mathlib.Core.List.{Memᴰ}
use mathlib.Core.Path.{subst}
use aver.Prelude.{
  suc, String, true, false, Option, some, List, [], ◌∷◌, ◌++◌, ◌≤◌, ◌≡◌, refl, sym, ◌==◌, string_eq,
  nat_eq, length, arith, Bool-cases, inl, inr, ◌⊎◌,
}
use aver.Graph.{
  EdgeCandidate, Floats, Trail, Search, contains, extend, arrive, offer, offer_all, begin,
}
use aver.Graph.Bounds.{length-snoc}
use aver.Graph.Sound.{IsTrail, start, further}
use aver.Graph.Shortest.{IsSettled, IsFound, arrived, offer-IsSettled}

-- Trail `u` goes on from trail `t`.
pub data Leads (f : Floats) (edges : List EdgeCandidate) (t : Trail) : Trail → Type 0 where
  stay : Leads f edges t t
  on :
      {u : Trail} (c : EdgeCandidate)
      → Leads f edges t u
      → Memᴰ c edges
      → (c.traverse_from == u.entity) ≡ true
      → contains u.entity_path c.traverse_to ≡ false
      → Leads f edges t (extend f u c)

abbrev Exists : {A : Type 0} → (A → Type 0) → List A → Type 0
Exists P [] = ⊥
Exists P (x ∷ xs) = P x ⊎ Exists P xs

Exists-snoc :
    {A : Type 0} (P : A → Type 0) (xs : List A) (x : A)
    → Exists P xs ⊎ P x
    → Exists P (xs ++ x ∷ [])
Exists-snoc P [] x (inl e) = elim e [ ]
Exists-snoc P [] x (inr p) = inl p
Exists-snoc P (y ∷ xs) x (inl (inl p)) = inl p
Exists-snoc P (y ∷ xs) x (inl (inr e)) = inr (Exists-snoc P xs x (inl e))
Exists-snoc P (y ∷ xs) x (inr p) = inr (Exists-snoc P xs x (inr p))

module _ (f : Floats) (edges : List EdgeCandidate) where
  pub Leads-length : {t u : Trail} → Leads f edges t u → length t.steps ≤ length u.steps
  Leads-length stay = omega arith
  Leads-length (on {u} c l m here fresh) = omega (arith, Leads-length l, length-snoc u.steps c.step)

  pub IsTrail-Leads :
      (source : String) {u : Trail} → IsTrail f edges source u → Leads f edges (begin source) u
  IsTrail-Leads source start = stay
  IsTrail-Leads source (further c walked m here fresh) =
      on c (IsTrail-Leads source walked) m here fresh

  -- An edge by which a trail can go on.
  abbrev pub Goes : Trail → EdgeCandidate → Type 0
  Goes t c =
      Memᴰ c edges
      × ((c.traverse_from == t.entity) ≡ true)
      × (contains t.entity_path c.traverse_to ≡ false)

  -- A trail that goes on takes a first step.
  pub first_step :
      {t u : Trail}
      → Leads f edges t u
      → (t ≡ u) ⊎ ((c : EdgeCandidate) × Goes t c × Leads f edges (extend f t c) u)
  first_step stay = inl refl
  first_step {t} (on {u} c l m here fresh) = elim (first_step l) [
    | inl same ↦ inr (
      c,
      (m, rw same here, rw same fresh),
      subst (λ v. Leads f edges (extend f v c) (extend f u c)) (sym same) stay,
    )
    | inr (d, goes, l') ↦ inr (d, goes, on c l' m here fresh)
  ]

  -- A trail of the queue leads to `u`, or what is found is no longer than `u`.
  abbrev pub Ahead : Trail → List Trail → Option Trail → Type 0
  Ahead u queue best =
      Exists (λ t. Leads f edges t u) queue
      ⊎ ((b : Trail) × (best ≡ some b) × (length b.steps ≤ length u.steps))

  module _ (target : String) (t u : Trail) where
    offer-Ahead :
        (c : EdgeCandidate) (s : Search)
        → IsFound t s.best
        → Ahead u s.queue s.best
        → Ahead u (offer f target t c s).queue (offer f target t c s).best
    unfolding offer arrive
    offer-Ahead c s found h = elim (Bool-cases (c.traverse_from == t.entity)) [
      | inr elsewhere ↦ rw elsewhere h
      | inl here ↦ elim (Bool-cases (contains t.entity_path c.traverse_to)) [
        | inl seen ↦ rw (here, seen) h
        | inr fresh ↦ elim (Bool-cases (c.traverse_to == target)) [
          | inr on' ↦
              rw (here, fresh, on')
                (elim h [
                  | inl ex ↦ inl (Exists-snoc _ s.queue (extend f t c) (inl ex))
                  | inr b ↦ inr b
                ])
          | inl reached ↦
              let (b', e', len) =
                arrived f (extend f t c) s.best (suc (length t.steps)) (length-snoc t.steps c.step)
                  found in
              rw (here, fresh, reached)
                (elim h [
                  | inl ex ↦ inl ex
                  | inr (b, e, le) ↦
                      let len' : IsFound t (some b) = rw e at found in
                      inr (b', e', omega (arith, len, len', le))
                ])
        ]
      ]
    ]

    -- An edge by which `u` goes on is not lost.
    offer-first :
        (c : EdgeCandidate) (s : Search)
        → IsFound t s.best
        → (c.traverse_from == t.entity) ≡ true
        → contains t.entity_path c.traverse_to ≡ false
        → Leads f edges (extend f t c) u
        → Ahead u (offer f target t c s).queue (offer f target t c s).best
    unfolding offer arrive
    offer-first c s found here fresh leads = elim (Bool-cases (c.traverse_to == target)) [
      | inr on' ↦ rw (here, fresh, on') (inl (Exists-snoc _ s.queue (extend f t c) (inr leads)))
      | inl reached ↦
          let longer = length-snoc t.steps c.step in
          let (b', e', len) = arrived f (extend f t c) s.best (suc (length t.steps)) longer found in
          rw (here, fresh, reached) (inr (b', e', omega (arith, len, longer, Leads-length leads)))
    ]

    -- What is offered next: an edge of the list by which `u` goes on.
    abbrev Offered : List EdgeCandidate → Type 0
    Offered cs =
        (c : EdgeCandidate) × Memᴰ c cs
        × ((c.traverse_from == t.entity) ≡ true)
        × (contains t.entity_path c.traverse_to ≡ false)
        × Leads f edges (extend f t c) u

    pub offer_all-Ahead :
        (cs : List EdgeCandidate) (s : Search)
        → IsSettled target t s
        → IsFound t s.best
        → Ahead u s.queue s.best ⊎ Offered cs
        → IsSettled target t (offer_all f target t cs s)
          × Ahead u (offer_all f target t cs s).queue (offer_all f target t cs s).best
    unfolding offer_all
    offer_all-Ahead [] s settled found (inl h) = (settled, h)
    offer_all-Ahead [] s settled found (inr (c, m, here, fresh, leads)) = elim m [ ]
    offer_all-Ahead (d ∷ cs) s settled found (inl h) =
        let (settled', found') = offer-IsSettled f target t d s settled found in
        offer_all-Ahead cs (offer f target t d s) settled' found' (inl (offer-Ahead d s found h))
    offer_all-Ahead (d ∷ cs) s settled found (inr (c, Memᴰ.head e, here, fresh, leads)) =
        let (settled', found') = offer-IsSettled f target t d s settled found in
        let here' = subst (λ v. (v.traverse_from == t.entity) ≡ true) e here in
        let fresh' = subst (λ v. contains t.entity_path v.traverse_to ≡ false) e fresh in
        let leads' = subst (λ v. Leads f edges (extend f t v) u) e leads in
        offer_all-Ahead cs (offer f target t d s) settled' found'
          (inl (offer-first d s found here' fresh' leads'))
    offer_all-Ahead (d ∷ cs) s settled found (inr (c, Memᴰ.tail m, here, fresh, leads)) =
        let (settled', found') = offer-IsSettled f target t d s settled found in
        offer_all-Ahead cs (offer f target t d s) settled' found' (inr (c, m, here, fresh, leads))

-- Before the round for the first trail of the queue.
abbrev pub IsLoop : String → List Trail → Search → Type 0
IsLoop target [] s = Unit
IsLoop target (t ∷ queue) s =
    IsSettled target t (record s { queue = queue }) × ((t.entity == target) ≡ false)
