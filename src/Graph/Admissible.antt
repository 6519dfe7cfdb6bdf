-- ===== src/Graph/Admissible.antt =====
-- Every step of a path is by a claim or a hyperedge that the query admits.
use mathlib.Core.List.{Memᴰ}
use mathlib.Core.Path.{subst}
use aver.Prelude.{
  ℕ, String, Bool, true, Option, none, some, List, [], ◌∷◌, ◌++◌, ◌≡◌, ◌≢◌, refl, sym, ◌∙◌, ap,
  ◌==◌, ◌||◌, nat_eq, string_eq, arith, Bool-cases, Option-cases, inl, inr, ◌⊎◌, Table, leb,
}
use aver.Text.{codes}
use aver.Log.{Participant}
use aver.Db.{Db, ClaimRow, HyperedgeRow}
use aver.Apply.Hyperedges.{participants_of}
use aver.Store.Consolidation.{by_id, insert_by_id, rows_where}
use aver.Graph.{EdgeCandidate, GraphPathStep, Floats, Trail}
use aver.Graph.Bounds.{All, All-snoc, best_trail_total}
use aver.Graph.Sound.{IsTrail, start, further, IsAnswer, best_trail-IsAnswer}
use aver.Graph.Scopes.{hyperedges_in_scope}
use aver.Graph.Candidates.{
  GraphPathMode, directed, bidirectional, GraphPathQuery, takes_claim, claim_step, claim_candidates,
  claim_edges, takes_hyperedge, hyperedge_edge, enumerate, edges_from, edges_between,
  hyperedge_candidates, graph_path_candidates, insert_sorted, sort, sorts_before, GraphPath, found,
  endless, path_of, ended, searched,
}

module _ {A : Type 0} (P : A → Type 0) where
  All-append : (xs ys : List A) → All P xs → All P ys → All P (xs ++ ys)
  All-append [] ys h k = k
  All-append (x ∷ xs) ys h k = (h.0, All-append xs ys (h.1) k)

  All-Mem : (xs : List A) (x : A) → All P xs → Memᴰ x xs → P x
  All-Mem [] x h m = elim m [ ]
  All-Mem (y ∷ xs) x h (Memᴰ.head e) = subst P (sym e) (h.0)
  All-Mem (y ∷ xs) x h (Memᴰ.tail m) = All-Mem xs x (h.1) m

module _ {V : Type 0} where
  -- The rows that a condition selects are rows, and it holds of them.
  rows_where-All :
      (p : ℕ → V → Bool) (base rows : Table ℕ V)
      → ((r : ℕ × V) → Memᴰ r rows → Memᴰ r base)
      → All (λ r. Memᴰ r base × (p r.0 r.1 ≡ true)) (rows_where p rows)
  unfolding rows_where
  rows_where-All p base [] sub = tt
  rows_where-All p base ((id, v) ∷ rows) sub =
      let later = rows_where-All p base rows (λ r m. sub r (Memᴰ.tail m)) in
      elim (Bool-cases (p id v)) [
        | inl yea ↦ rw yea ((sub (id, v) (Memᴰ.head refl), yea), later)
        | inr nay ↦ rw nay later
      ]

  insert_by_id-All :
      (P : ℕ × V → Type 0) (r : ℕ × V) (rows : Table ℕ V)
      → P r
      → All P rows
      → All P (insert_by_id r rows)
  unfolding insert_by_id
  insert_by_id-All P r [] p h = (p, tt)
  insert_by_id-All P r (q ∷ rows) p h = elim (Bool-cases (leb r.0 q.0)) [
    | inl first ↦ rw first (p, h)
    | inr later ↦ rw later (h.0, insert_by_id-All P r rows p (h.1))
  ]

  by_id-All : (P : ℕ × V → Type 0) (rows : Table ℕ V) → All P rows → All P (by_id rows)
  unfolding by_id
  by_id-All P [] h = tt
  by_id-All P (r ∷ rows) h = insert_by_id-All P r (by_id rows) (h.0) (by_id-All P rows (h.1))

insert_sorted-All :
    (P : EdgeCandidate → Type 0) (c : EdgeCandidate) (cs : List EdgeCandidate)
    → P c
    → All P cs
    → All P (insert_sorted c cs)
unfolding insert_sorted
insert_sorted-All P c [] p h = (p, tt)
insert_sorted-All P c (d ∷ cs) p h = elim (Bool-cases (sorts_before c d)) [
  | inl first ↦ rw first (p, h)
  | inr later ↦ rw later (h.0, insert_sorted-All P c cs p (h.1))
]

sort-All : (P : EdgeCandidate → Type 0) (cs : List EdgeCandidate) → All P cs → All P (sort cs)
unfolding sort
sort-All P [] h = tt
sort-All P (c ∷ cs) h = insert_sorted-All P c (sort cs) (h.0) (sort-All P cs (h.1))

module _ (f : Floats) (db : Db) (q : GraphPathQuery) (allowed : Option (List String)) where
  -- A step by a claim that the query takes, or by a hyperedge that it takes in a scope that sees it.
  abbrev pub IsAdmissible : GraphPathStep → Type 0
  IsAdmissible step =
      ((id : ℕ) × (c : ClaimRow) × Memᴰ (id, c) db.claims
        × (takes_claim f q allowed c ≡ true)
        × (step ≡ claim_step id c))
      ⊎ ((id : ℕ) × (h : HyperedgeRow) × (left : String) × (right : String) × Memᴰ (id, h)
            db.hyperedges
          × (takes_hyperedge f q allowed h ≡ true)
          × (hyperedges_in_scope (codes q.scope) q.scope_walk ≡ true)
          × (step ≡ (hyperedge_edge id h left right).step))

  abbrev EdgeIsAdmissible : EdgeCandidate → Type 0
  EdgeIsAdmissible c = IsAdmissible c.step

  claim_edges-All :
      (mode : GraphPathMode) (id : ℕ) (c : ClaimRow)
      → IsAdmissible (claim_step id c)
      → All EdgeIsAdmissible (claim_edges mode id c)
  claim_edges-All directed id c h = (h, tt)
  claim_edges-All bidirectional id c h = (h, (h, tt))

  claim_candidates-All :
      (mode : GraphPathMode) (rows : Table ℕ ClaimRow)
      → All (λ r. Memᴰ r db.claims × (takes_claim f q allowed r.1 ≡ true)) rows
      → All EdgeIsAdmissible (claim_candidates mode rows)
  unfolding claim_candidates
  claim_candidates-All mode [] h = tt
  claim_candidates-All mode ((id, c) ∷ rows) h =
      All-append EdgeIsAdmissible _ _ (claim_edges-All mode id c (inl (id, c, h.0.0, h.0.1, refl)))
        (claim_candidates-All mode rows (h.1))

  module _ (id : ℕ) (h : HyperedgeRow)
      (taken : (left right : String) → IsAdmissible (hyperedge_edge id h left right).step) where
    edges_from-All :
        (i : ℕ) (left : String) (rights : List (ℕ × Participant))
        → All EdgeIsAdmissible (edges_from id h i left rights)
    unfolding edges_from
    edges_from-All i left [] = tt
    edges_from-All i left ((j, right) ∷ rights) =
        elim (Bool-cases (i == j || left == right.entity)) [
          | inl same ↦ rw same (edges_from-All i left rights)
          | inr apart ↦ rw apart (taken left right.entity, edges_from-All i left rights)
        ]

    edges_between-All :
        (rights lefts : List (ℕ × Participant))
        → All EdgeIsAdmissible (edges_between id h rights lefts)
    unfolding edges_between
    edges_between-All rights [] = tt
    edges_between-All rights ((i, left) ∷ lefts) =
        All-append EdgeIsAdmissible _ _ (edges_from-All i left.entity rights)
          (edges_between-All rights lefts)

  hyperedge_candidates-All :
      (rows : Table ℕ HyperedgeRow)
      → hyperedges_in_scope (codes q.scope) q.scope_walk ≡ true
      → All (λ r. Memᴰ r db.hyperedges × (takes_hyperedge f q allowed r.1 ≡ true)) rows
      → All EdgeIsAdmissible (hyperedge_candidates db rows)
  unfolding hyperedge_candidates
  hyperedge_candidates-All [] seen h = tt
  hyperedge_candidates-All ((id, e) ∷ rows) seen h =
      let ps = enumerate 0 (participants_of id db.hyperedge_participants) in
      All-append EdgeIsAdmissible _ _
        (edges_between-All id e (λ left right. inr (id, e, left, right, h.0.0, h.0.1, seen, refl))
          ps ps)
        (hyperedge_candidates-All rows seen (h.1))

  candidates-All : All EdgeIsAdmissible (graph_path_candidates f db q allowed)
  unfolding graph_path_candidates
  candidates-All =
      let claims = claim_candidates-All q.mode _ (
        by_id-All _ _
          (rows_where-All (λ id c. takes_claim f q allowed c) db.claims db.claims (λ r m. m))) in
      elim (Bool-cases (hyperedges_in_scope (codes q.scope) q.scope_walk)) [
        | inr hidden ↦ rw hidden claims
        | inl seen ↦ rw seen (
            All-append EdgeIsAdmissible _ _ claims (
              hyperedge_candidates-All _ seen (
                by_id-All _ _ (
                  rows_where-All (λ id h. takes_hyperedge f q allowed h) db.hyperedges db.hyperedges
                    (λ r m. m)))))
      ]

  -- The edges that are searched.
  abbrev pub edges : List EdgeCandidate
  edges = sort (graph_path_candidates f db q allowed)

  IsTrail-All : {t : Trail} → IsTrail f edges q.source t → All IsAdmissible t.steps
  IsTrail-All start = tt
  IsTrail-All (further {t} c walked m here fresh) =
      All-snoc IsAdmissible t.steps c.step (IsTrail-All walked)
        (All-Mem EdgeIsAdmissible edges c (sort-All EdgeIsAdmissible _ candidates-All) m)

  -- The trail behind a path that was searched for.
  abbrev pub IsFoundPath : GraphPath → Type 0
  IsFoundPath p =
      (t : Trail) × (p ≡ path_of q t)
      × IsAnswer f edges q.source q.target q.max_hops t
      × All IsAdmissible p.steps

  ended-found :
      (best : Option Trail) (p : GraphPath)
      → ended q (some best) ≡ found (some p)
      → (t : Trail) × (best ≡ some t) × (path_of q t ≡ p)
  ended-found none p h = cc h
  ended-found (some t) p h = (t, refl, cc h)

  pub searched-found : (p : GraphPath) → searched f db q allowed ≡ found (some p) → IsFoundPath p
  searched-found p h =
      let (best, ends) = best_trail_total f edges q.source q.target q.max_hops in
      let (t, e, same) = ended-found best p (rw ends at h) in
      let answer = best_trail-IsAnswer f edges q.source q.target q.max_hops t (ends ∙ ap some e) in
      (t, sym same, answer, rw (← same) (IsTrail-All (answer.0)))

  pub searched_total : searched f db q allowed ≢ endless
  searched_total h =
      let (best, ends) = best_trail_total f edges q.source q.target q.max_hops in
      elim (Option-cases best) [
        | inl e ↦ absurd (ground (arith, rw (ends, e) at h))
        | inr (t, e) ↦ absurd (ground (arith, rw (ends, e) at h))
      ]
