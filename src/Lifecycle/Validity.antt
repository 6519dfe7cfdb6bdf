-- ===== src/Lifecycle/Validity.antt =====
-- The invariant of the projection, and that every record keeps it.
use aver.Prelude.{
  rows-insert, rows-modify, ℕ, String, ◌≡◌, ◌≢◌, refl, Option, none, some, List, [], ◌∷◌, ◌++◌,
  arith, find, find-insert, Table, nat_eq, nat_beq_iff,
}
use aver.Types.{CandidateStatus, pending, promoted, rejected}
use aver.Log.{LogRecord, Participant}
use aver.Db.{Db, Host, CandidateRow, ClaimRow}
use aver.Apply.{apply}
use aver.Apply.Hyperedges.{participants_of}
use aver.Apply.Steps.{
  Step, Steps, hyperedge_added, participant_added, candidate_proposed, candidate_promoted,
  candidate_rejected, ontology_changed, here, next,
}
use aver.Apply.Covers.{apply-Steps}
use aver.Lifecycle.ClaimHistory.{Kept, Step-Kept}

-- A pending candidate has no outcome, a promoted one names a claim that is stored, a rejected one
-- has a reason.
abbrev pub Lawful : Table ℕ ClaimRow → CandidateStatus → Option ℕ → Option String → Type 0
Lawful t pending none none = Unit
Lawful t promoted (some claim) none = find claim t ≢ none
Lawful t rejected none (some reason) = Unit
Lawful _ _ _ _ = ⊥

abbrev pub IsLawful : Table ℕ ClaimRow → CandidateRow → Type 0
IsLawful t c = Lawful t c.status c.promoted_claim_id c.rejection_reason

pub record IsValid (db : Db) : Type 0 where
  pub candidates :
      (id : ℕ) (c : CandidateRow) → find id db.candidate_claims ≡ some c → IsLawful db.claims c
  -- no participant without its hyperedge
  pub participants :
      (id : ℕ) → find id db.hyperedges ≡ none → participants_of id db.hyperedge_participants ≡ []

Lawful-Kept :
    (s t : Table ℕ ClaimRow) (st : CandidateStatus) (k : Option ℕ) (why : Option String)
    → Kept s t
    → Lawful s st k why
    → Lawful t st k why
Lawful-Kept s t pending none none kept l = tt
Lawful-Kept s t rejected none (some r) kept l = tt
Lawful-Kept s t promoted (some claim) none kept l = λ gone. l (absent (find claim s) refl gone)
  where
    absent : (o : Option ClaimRow) → find claim s ≡ o → find claim t ≡ none → find claim s ≡ none
    absent none e gone = e
    absent (some c) e gone = let (c', there, same) = kept claim c e in cc
Lawful-Kept s t pending (some k) why kept l = l
Lawful-Kept s t pending none (some r) kept l = l
Lawful-Kept s t promoted none why kept l = l
Lawful-Kept s t promoted (some k) (some r) kept l = l
Lawful-Kept s t rejected (some k) why kept l = l
Lawful-Kept s t rejected none none kept l = l

pub participants_of-append :
    (id : ℕ) (ps qs : List (ℕ × Participant))
    → participants_of id (ps ++ qs) ≡ participants_of id ps ++ participants_of id qs
unfolding participants_of
participants_of-append id [] qs = refl
participants_of-append id ((j, p) ∷ ps) qs = ground (arith, participants_of-append id ps qs)

Lawful-promoted :
    (t : Table ℕ ClaimRow) (st : CandidateStatus) (k : Option ℕ) (why : Option String) (claim : ℕ)
    → st ≡ pending
    → Lawful t st k why
    → find claim t ≢ none
    → Lawful t promoted (some claim) why
Lawful-promoted t pending none none claim p l there = there
Lawful-promoted t pending none (some r) claim p l there = l
Lawful-promoted t pending (some k) why claim p l there = absurd l
Lawful-promoted t promoted k why claim p l there = cc
Lawful-promoted t rejected k why claim p l there = cc

Lawful-rejected :
    (t : Table ℕ ClaimRow) (st : CandidateStatus) (k : Option ℕ) (why : Option String) (r : String)
    → st ≡ pending
    → Lawful t st k why
    → Lawful t rejected k (some r)
Lawful-rejected t pending none none r p l = tt
Lawful-rejected t pending none (some q) r p l = absurd l
Lawful-rejected t pending (some k) why r p l = l
Lawful-rejected t promoted k why r p l = cc
Lawful-rejected t rejected k why r p l = cc

-- What a step does to the candidates of a valid database.
Step-candidates :
    {s t : Db}
    → Step s t
    → IsValid s
    → (id : ℕ) (c : CandidateRow) → find id t.candidate_claims ≡ some c
    → IsLawful s.claims c
Step-candidates {s} (candidate_proposed r free) v =
    rows-insert (IsLawful s.claims) r.candidate_id _ s.candidate_claims v.candidates tt
Step-candidates {s} (candidate_promoted k claim_id d claim found p there) v =
    rows-modify (IsLawful s.claims) k _ s.candidate_claims v.candidates (
      Lawful-promoted s.claims d.status d.promoted_claim_id d.rejection_reason claim_id p
        (v.candidates k d found) (λ gone. cc))
Step-candidates {s} (candidate_rejected k reason d found p) v =
    rows-modify (IsLawful s.claims) k _ s.candidate_claims v.candidates (
      Lawful-rejected s.claims d.status d.promoted_claim_id d.rejection_reason reason p
        (v.candidates k d found))
Step-candidates {s} (ontology_changed o) v = v.candidates
Step-candidates {s} _ v = v.candidates

Step-participants :
    {s t : Db}
    → Step s t
    → IsValid s
    → (id : ℕ) → find id t.hyperedges ≡ none
    → participants_of id t.hyperedge_participants ≡ []
Step-participants {s} (hyperedge_added k row free) v id e =
    v.participants id (ground (arith, find-insert k id row s.hyperedges))
Step-participants {s} (participant_added k p e found) v id gone =
    unfold participants_of in
    ground (
      arith,
      participants_of-append id s.hyperedge_participants ((k, p) ∷ []),
      v.participants id,
      nat_beq_iff k id,
    )
Step-participants {s} (ontology_changed o) v id gone = v.participants id gone
Step-participants {s} _ v id gone = v.participants id gone

Step-IsValid : {s t : Db} → Step s t → IsValid s → IsValid t
Step-IsValid {s} {t} st v = record {
  candidates = λ id c e.
      Lawful-Kept s.claims t.claims c.status c.promoted_claim_id c.rejection_reason (Step-Kept st)
        (Step-candidates st v id c e);
  participants = Step-participants st v;
}

pub Steps-IsValid : {s t : Db} → Steps s t → IsValid s → IsValid t
Steps-IsValid here v = v
Steps-IsValid (next p st) v = Step-IsValid st (Steps-IsValid p v)

-- From a valid database every record, applied, refused or a duplicate, leaves a valid one: each
-- promoted candidate names a stored claim, pending and rejected ones name none, exactly the
-- rejected ones have a reason, and no participant is without its hyperedge.
pub apply-IsValid : (h : Host) (r : LogRecord) (db : Db) → IsValid db → IsValid (apply h r db).1
apply-IsValid h r db = Steps-IsValid (apply-Steps h r db)
