-- ===== src/Store/Final.antt =====
-- A promotion is final over every later history of the store.
use aver.Prelude.{ℕ, String, Option, none, some, List, [], ◌∷◌, ◌≡◌, nat_eq}
use aver.Exec
use aver.Types.{AgentKind, CandidateStatus, pending, promoted, rejected, Provenance}
use aver.Log.{LogRecord, Decision}
use aver.Db.{Db, Host, CandidateRow}
use aver.Apply.{apply}
use aver.Lifecycle.Validity.{IsValid}
use aver.Lifecycle.CandidateHistory.{apply-Decided}
use aver.Store.{
  privacy_filter_recording, privacy_filter_path_recording, validate_ontology, StoreError, Store,
  Env, done,
}
use aver.Store.Candidates.{
  CandidateWrite, propose, promote, promote_fresh, promotion, reject, reject_row,
  get_candidate_claim, get_event, found_or, parsed,
}
use aver.Store.Keeps.{Keeps, keeps_rules, Keeps-return, Keeps-fail}
use aver.Store.Steady.{
  perform-Steady, append_event-Steady, append_jsonl-Steady, project-Steady, transaction-Steady,
  gate-Steady,
}
use aver.Store.Operations.{Operation, calls, proposes, promotes, rejects, carry_out, proceed}
use aver.Store.Decided.{IsPromoted, promote-Promotes, promoted-again}

module _ (env : Env) (Q : Db → Type 0)
    (kept : (r : LogRecord) (db : Db) → Q db → Q (apply env.host r db).1) where
  found_or-Steady :
      {V : Type 0} (o : Option V) (e : StoreError) → Keeps (λ s. Q s.db) (found_or o e)
  unfolding found_or
  found_or-Steady none e = Keeps-fail e
  found_or-Steady (some v) e = Keeps-return v

  parsed-Steady : (x : Exec.Result AgentKind) → Keeps (λ s. Q s.db) (parsed x)
  unfolding parsed
  parsed-Steady (Exec.ok kind) = Keeps-return kind
  parsed-Steady (Exec.err e) = Keeps-fail _

  get_candidate_claim-Steady : (id : ℕ) → Keeps (λ s. Q s.db) (get_candidate_claim id)
  unfolding get_candidate_claim
  get_candidate_claim-Steady id = search (keeps_rules, found_or-Steady)

  propose-Steady : (now id : ℕ) (w : CandidateWrite) → Keeps (λ s. Q s.db) (propose env now id w)
  unfolding propose privacy_filter_recording privacy_filter_path_recording
  propose-Steady now id w =
      search
        (
          keeps_rules,
          transaction-Steady env Q kept,
          gate-Steady env Q kept,
          append_event-Steady env Q kept,
          project-Steady env Q kept,
        )
        depth 40

  promotion-Steady :
      (claim_id : ℕ) (claim marker : LogRecord)
      → Keeps (λ s. Q s.db) (promotion env claim_id claim marker)
  unfolding promotion
  promotion-Steady claim_id claim marker =
      search
        (
          keeps_rules,
          transaction-Steady env Q kept,
          append_jsonl-Steady env Q kept,
          append_event-Steady env Q kept,
          project-Steady env Q kept,
        )
        depth 20

  promote_fresh-Steady :
      (now claim_id id : ℕ) (attribution : Option (Provenance × ℕ)) (d : Option Decision)
      (c : CandidateRow) (o : Option ℕ)
      → Keeps (λ s. Q s.db) (promote_fresh env now claim_id id attribution d c o)
  unfolding promote_fresh get_event validate_ontology
  promote_fresh-Steady now claim_id id attribution d c (some k) = Keeps-return k
  promote_fresh-Steady now claim_id id attribution d c none =
      search (keeps_rules, found_or-Steady, parsed-Steady, promotion-Steady) depth 20

  promote-Steady :
      (now claim_id id : ℕ) (attribution : Option (Provenance × ℕ)) (d : Option Decision)
      → Keeps (λ s. Q s.db) (promote env now claim_id id attribution d)
  unfolding promote
  promote-Steady now claim_id id attribution d =
      search (keeps_rules, get_candidate_claim-Steady, promote_fresh-Steady) depth 14

  reject_row-Steady :
      (now id : ℕ) (reason : String) (d : Option Decision) (c : CandidateRow)
      (status : CandidateStatus)
      → Keeps (λ s. Q s.db) (reject_row env now id reason d c status)
  unfolding reject_row
  reject_row-Steady now id reason d c rejected = search keeps_rules
  reject_row-Steady now id reason d c promoted = Keeps-fail _
  reject_row-Steady now id reason d c pending =
      search (keeps_rules, append_event-Steady env Q kept, project-Steady env Q kept) depth 14

  reject-Steady :
      (now id : ℕ) (reason : String) (d : Option Decision)
      → Keeps (λ s. Q s.db) (reject env now id reason d)
  unfolding reject privacy_filter_recording
  reject-Steady now id reason d =
      search
        (
          keeps_rules,
          transaction-Steady env Q kept,
          gate-Steady env Q kept,
          get_candidate_claim-Steady,
          reject_row-Steady,
        )
        depth 24

  carry_out-Steady : (o : Operation) → Keeps (λ s. Q s.db) (carry_out env o)
  unfolding carry_out
  carry_out-Steady (calls c) = perform-Steady env Q kept c
  carry_out-Steady (proposes now id w) = search (keeps_rules, propose-Steady)
  carry_out-Steady (promotes now claim_id id attribution d) = search (keeps_rules, promote-Steady)
  carry_out-Steady (rejects now id reason d) = reject-Steady now id reason d

  -- What every record keeps of the rows holds after every history, if it held before.
  proceed-Steady :
      (operations : List Operation) (s : Store) → Q s.db → Q (proceed env operations s).db
  unfolding proceed
  proceed-Steady [] s h = h
  proceed-Steady (o ∷ operations) s h =
      proceed-Steady operations (carry_out env o s).1 ((carry_out-Steady o).at s h)

apply-IsPromoted :
    (h : Host) (candidate_id claim_id : ℕ) (r : LogRecord) (db : Db)
    → IsPromoted candidate_id claim_id db
    → IsPromoted candidate_id claim_id (apply h r db).1
apply-IsPromoted h candidate_id claim_id r db (c, found, st, p) =
    (c, apply-Decided h r db candidate_id c found (λ e. cc (e, st)), st, p)

-- Once a promotion of a candidate has returned a claim, on valid rows, then after any further calls of
-- the writers of claims, hyperedges, chunks and candidates, each promotion of the candidate, whatever
-- its attribution and decision, returns the same claim and changes neither rows nor logs.
pub promote_again :
    (env : Env) (candidate_id now claim_id : ℕ) (attribution : Option (Provenance × ℕ))
    (d : Option Decision) (s : Store) (id : ℕ) (operations : List Operation) (now' claim_id' : ℕ)
    (attribution' : Option (Provenance × ℕ)) (d' : Option Decision)
    → IsValid s.db
    → (promote env now claim_id candidate_id attribution d s).0 ≡ done id
    → promote env now' claim_id' candidate_id attribution' d'
        (proceed env operations (promote env now claim_id candidate_id attribution d s).1)
      ≡ (done id, proceed env operations (promote env now claim_id candidate_id attribution d s).1)
promote_again env candidate_id now claim_id attribution d s id operations now' claim_id'
      attribution' d' valid e =
    promoted-again env now' claim_id' candidate_id attribution' d' _ id (
      proceed-Steady env (IsPromoted candidate_id id) (apply-IsPromoted env.host candidate_id id)
        operations _ (promote-Promotes env now claim_id candidate_id attribution d s id valid e))
