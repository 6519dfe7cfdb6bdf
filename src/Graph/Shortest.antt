-- ===== src/Graph/Shortest.antt =====
-- The path found by `graph_path` is a shortest one, and one is found where there is one.
use aver.Prelude.{
  ℕ, suc, String, false, Option, none, some, List, [], ◌∷◌, ◌++◌, ◌≤◌, ◌≡◌, refl, sym, ◌∙◌, ap,
  ◌==◌, string_eq, nat_eq, length, arith, Bool-cases, inl, inr, if◌then◌else◌,
}
use aver.Graph.{EdgeCandidate, Floats, Trail, Search, contains, extend, arrive, offer, replaces}
use aver.Graph.Bounds.{All, All-snoc, length-snoc}
use aver.Graph.Sound.{Holds}

abbrev pub depth : Option Trail → Option ℕ
depth none = none
depth (some t) = some (length t.steps)

-- The first trail is a shortest, and the longest is one step longer at most.
abbrev pub Ordered : List Trail → Type 0
Ordered [] = Unit
Ordered (t ∷ ts) = All (λ u. length t.steps ≤ length u.steps) ts × Ordered ts

abbrev pub Near : Trail → List Trail → Type 0
Near t ts =
    All (λ u. (length t.steps ≤ length u.steps) × (length u.steps ≤ suc (length t.steps))) ts

-- Between two rounds, after trail `t`.
pub record IsSettled (target : String) (t : Trail) (s : Search) : Type 0 where
  pub ordered : Ordered s.queue
  pub near : Near t s.queue
  pub bound : Holds (λ b. length b.steps ≤ suc (length t.steps)) s.best
  pub shortest : s.shortest_depth ≡ depth s.best
  pub elsewhere : All (λ u. (u.entity == target) ≡ false) s.queue

-- While trail `t` is extended: what is found is one step longer than it.
abbrev pub IsFound : Trail → Option Trail → Type 0
IsFound t = Holds (λ b. length b.steps ≡ suc (length t.steps))

pub All-map :
    {A : Type 0} (P Q : A → Type 0) (xs : List A) → ((x : A) → P x → Q x) → All P xs → All Q xs
All-map P Q [] f h = tt
All-map P Q (x ∷ xs) f h = (f x (h.0), All-map P Q xs f (h.1))

Ordered-snoc :
    (ts : List Trail) (t : Trail)
    → Ordered ts
    → All (λ u. length u.steps ≤ length t.steps) ts
    → Ordered (ts ++ t ∷ [])
Ordered-snoc [] t h all = (tt, tt)
Ordered-snoc (u ∷ ts) t h all = (
  All-snoc (λ v. length u.steps ≤ length v.steps) ts t (h.0) (all.0),
  Ordered-snoc ts t (h.1) (all.1),
)

pub arrived :
    (f : Floats) (x : Trail) (o : Option Trail) (n : ℕ)
    → length x.steps ≡ n
    → Holds (λ b. length b.steps ≡ n) o
    → (b : Trail) × ((if replaces f x o then some x else o) ≡ some b) × (length b.steps ≡ n)
arrived f x none n e h = (x, refl, e)
arrived f x (some y) n e h = elim (Bool-cases (replaces f x (some y))) [
  | inl better ↦ (x, rw better refl, e)
  | inr worse ↦ (y, rw worse refl, h)
]

bound_of_found :
    (t : Trail) (o : Option Trail)
    → IsFound t o
    → Holds (λ b. length b.steps ≤ suc (length t.steps)) o
bound_of_found t none h = tt
bound_of_found t (some b) h = omega arith

module _ (f : Floats) (target : String) (t : Trail) where
  pub offer-IsSettled :
      (c : EdgeCandidate) (s : Search)
      → IsSettled target t s
      → IsFound t s.best
      → IsSettled target t (offer f target t c s) × IsFound t (offer f target t c s).best
  unfolding offer arrive
  offer-IsSettled c s h found = elim (Bool-cases (c.traverse_from == t.entity)) [
    | inr elsewhere ↦ rw elsewhere (h, found)
    | inl here ↦ elim (Bool-cases (contains t.entity_path c.traverse_to)) [
      | inl seen ↦ rw (here, seen) (h, found)
      | inr fresh ↦
          let longer = length-snoc t.steps c.step in
          elim (Bool-cases (c.traverse_to == target)) [
            | inl reached ↦
                let (b, e, len) =
                  arrived f (extend f t c) s.best (suc (length t.steps)) longer found in
                let found' : IsFound t
                    (if replaces f (extend f t c) s.best then some (extend f t c) else s.best) =
                  rw e len in
                rw (here, fresh, reached)
                  (
                    record {
                      ordered = h.ordered;
                      near = h.near;
                      bound = bound_of_found t _ found';
                      shortest = rw e (ap some (longer ∙ sym len));
                      elsewhere = h.elsewhere;
                    },
                    found',
                  )
            | inr on ↦
                rw (here, fresh, on)
                  (
                    record {
                      ordered =
                          Ordered-snoc s.queue (extend f t c) h.ordered
                            (All-map _ _ s.queue (λ u p. omega (arith, p.1, longer)) h.near);
                      near =
                          All-snoc _ s.queue (extend f t c) h.near
                            (omega (arith, longer), omega (arith, longer));
                      bound = h.bound;
                      shortest = h.shortest;
                      elsewhere = All-snoc _ s.queue (extend f t c) h.elsewhere on;
                    },
                    found,
                  )
          ]
    ]
  ]
