-- ===== src/Store/Admitted.antt =====
-- Which claims enter the store, `insert_claim` of crates/aver-core/src/claims.rs.
use aver.Prelude.{ℕ, Bool, true, false, ◌≡◌, refl, ◌↔◌}
use aver.Text.{codes}
use aver.Exec
use aver.Db.{Db, Applied}
use aver.Ontology.{Ontology}
use aver.Apply.{apply}
use aver.Validation.{
  Check, accepted, rejected, validate_claim_field, validate_scope, validate_agent_id,
}
use aver.Privacy.Paths.{Verdict, pass, refuse, privacy_filter_path}
use aver.Privacy.Content.{privacy_filter}
use aver.Log.{LogRecord}
use aver.Store.{
  not_begun, unsynced, torn, Store, Env, Answer, Action, StoreError, done, failed, continue, return,
  fail, ◌>>=◌, ◌>>◌, checked, ensure, gate, transaction, settle, write, append_jsonl, project,
  projected, record_privacy_rejection, privacy_filter_recording, privacy_filter_path_recording,
  validate_ontology, is_allowed, Append, took, put, whole,
}
use aver.Store.Claims.{ClaimWrite, validate_claim_write, gated_text, insert_claim, claim_record}

-- What a claim needs to enter, beside the log file and the schema.
pub record IsAdmitted (env : Env) (o : Ontology) (w : ClaimWrite) : Type 0 where
  pub subject : validate_claim_field (codes w.subject) ≡ accepted
  pub predicate : validate_claim_field (codes w.predicate) ≡ accepted
  pub object : validate_claim_field (codes w.object) ≡ accepted
  pub source : validate_claim_field (codes w.source) ≡ accepted
  pub scope : validate_scope (codes w.scope) ≡ accepted
  pub confidence : env.in_unit w.confidence ≡ true
  pub agent_id : validate_agent_id (codes w.agent_id) ≡ accepted
  pub content : privacy_filter env.entropic (gated_text w) ≡ pass
  pub subject_path : privacy_filter_path (codes w.subject) ≡ pass
  pub object_path : privacy_filter_path (codes w.object) ≡ pass
  pub source_path : privacy_filter_path (codes w.source) ≡ pass
  pub known : is_allowed o w.predicate w.provenance ≡ true

module _ {A : Type 0} where
  checked-done :
      (c : Check) (k : Action A) (s : Store) (a : A)
      → ((checked c >> k) s).0 ≡ done a
      → (c ≡ accepted) × ((k s).0 ≡ done a)
  unfolding checked ◌>>=◌
  checked-done accepted k s a h = (refl, h)
  checked-done (rejected e) k s a h = cc h

  ensure-done :
      (b : Bool) (e : StoreError) (k : Action A) (s : Store) (a : A)
      → ((ensure b e >> k) s).0 ≡ done a
      → (b ≡ true) × ((k s).0 ≡ done a)
  unfolding ◌>>=◌
  ensure-done true e k s a h = (refl, h)
  ensure-done false e k s a h = cc h

  gate-done :
      (v : Verdict) (k : Action A) (s : Store) (a : A)
      → ((gate v >> k) s).0 ≡ done a
      → (v ≡ pass) × ((k s).0 ≡ done a)
  unfolding gate record_privacy_rejection ◌>>=◌
  gate-done pass k s a h = (refl, h)
  gate-done (refuse r) k s a h = cc h

-- The checks of a claim, each of which stops the block.
checks-done :
    (c1 c2 c3 c4 c5 : Check) (b : Bool) (e : StoreError) (c6 : Check) (v1 v2 v3 v4 : Verdict)
    (last : Action Unit) (s : Store)
    → ((do
      checked c1
      checked c2
      checked c3
      checked c4
      checked c5
      ensure b e
      checked c6
      gate v1
      gate v2
      gate v3
      gate v4
      last)
        s).0
      ≡ done tt
    → (c1 ≡ accepted)
      × (c2 ≡ accepted)
      × (c3 ≡ accepted)
      × (c4 ≡ accepted)
      × (c5 ≡ accepted)
      × (b ≡ true)
      × (c6 ≡ accepted)
      × (v1 ≡ pass)
      × (v2 ≡ pass)
      × (v3 ≡ pass)
      × (v4 ≡ pass)
      × ((last s).0 ≡ done tt)
checks-done c1 c2 c3 c4 c5 b e c6 v1 v2 v3 v4 last s h =
    let (p1, h1) = checked-done c1 _ s tt h in
    let (p2, h2) = checked-done c2 _ s tt h1 in
    let (p3, h3) = checked-done c3 _ s tt h2 in
    let (p4, h4) = checked-done c4 _ s tt h3 in
    let (p5, h5) = checked-done c5 _ s tt h4 in
    let (p6, h6) = ensure-done b e _ s tt h5 in
    let (p7, h7) = checked-done c6 _ s tt h6 in
    let (q1, g1) = gate-done v1 _ s tt h7 in
    let (q2, g2) = gate-done v2 _ s tt g1 in
    let (q3, g3) = gate-done v3 _ s tt g2 in
    let (q4, g4) = gate-done v4 _ s tt g3 in (p1, p2, p3, p4, p5, p6, p7, q1, q2, q3, q4, g4)

ensure_last : (b : Bool) (e : StoreError) (s : Store) → (ensure b e s).0 ≡ done tt → b ≡ true
unfolding return fail
ensure_last true e s h = refl
ensure_last false e s h = cc h

-- The checks let a claim pass only if it is admitted.
validate-IsAdmitted :
    (env : Env) (w : ClaimWrite) (s : Store)
    → (validate_claim_write env w s).0 ≡ done tt
    → IsAdmitted env s.db.ontology w
unfolding validate_claim_write privacy_filter_recording privacy_filter_path_recording
    validate_ontology
validate-IsAdmitted env w s h =
    let p =
      checks-done (validate_claim_field (codes w.subject))
        (validate_claim_field (codes w.predicate)) (validate_claim_field (codes w.object))
        (validate_claim_field (codes w.source)) (validate_scope (codes w.scope))
        (env.in_unit w.confidence) _ (validate_agent_id (codes w.agent_id))
        (privacy_filter env.entropic (gated_text w)) (privacy_filter_path (codes w.subject))
        (privacy_filter_path (codes w.object)) (privacy_filter_path (codes w.source))
        (validate_ontology w.predicate w.provenance) s h in
    record {
      subject = p.0;
      predicate = p.1;
      object = p.2;
      source = p.3;
      scope = p.4;
      confidence = p.5;
      agent_id = p.6;
      content = p.7;
      subject_path = p.8;
      object_path = p.9;
      source_path = p.10;
      known = ensure_last _ _ s p.11;
    }

-- An admitted claim passes the checks, which change nothing.
IsAdmitted-validate :
    (env : Env) (w : ClaimWrite) (s : Store)
    → IsAdmitted env s.db.ontology w
    → validate_claim_write env w s ≡ (done tt, s)
unfolding validate_claim_write privacy_filter_recording privacy_filter_path_recording
    validate_ontology
IsAdmitted-validate env w s h =
    rw
      (
        h.subject, h.predicate, h.object, h.source, h.scope, h.confidence, h.agent_id, h.content,
        h.subject_path, h.object_path, h.source_path, h.known,
      )
      refl

continue-done :
    {A B : Type 0} (x : Answer A) (f : A → Action B) (s : Store) (b : B)
    → (continue x f s).0 ≡ done b
    → (a : A) × (x ≡ done a)
continue-done (done a) f s b h = (a, refl)
continue-done (failed e) f s b h = cc h

-- The store after a record was logged and applied.
abbrev pub stored : Env → LogRecord → Store → Store
stored env r s = record s { log = put s.log (whole r); db = (apply env.host r s.db).1 }

-- The log file takes the record, and the projection too.
abbrev pub Accepts : Env → LogRecord → Store → Type 0
Accepts env r s =
    (env.appends s.log r ≡ took) × ((a : Applied) × ((apply env.host r s.db).0 ≡ Exec.ok a))

projected-done :
    {A : Type 0} (x : Exec.Result Applied) (before : Db) (s : Store) (a b : A)
    → (settle
        (continue (projected x s).0 (λ _. return a) (projected x s).1).0
        before
        (continue (projected x s).0 (λ _. return a) (projected x s).1).1).0
      ≡ done b
    → (c : Applied) × (x ≡ Exec.ok c)
unfolding return
projected-done (Exec.ok c) before s a b h = (c, refl)
projected-done (Exec.err e) before s a b h = cc h

taken-Accepts :
    {A : Type 0} (env : Env) (r : LogRecord) (s : Store) (a b : A) (x : Append)
    → env.appends s.log r ≡ x
    → (transaction (write env r >> return a) s).0 ≡ done b
    → Accepts env r s
unfolding transaction write append_jsonl project ◌>>=◌
taken-Accepts env r s a b took e h =
    let h' = rw e at h in (e, projected-done (apply env.host r s.db).0 s.db (stored env r s) a b h')
taken-Accepts env r s a b not_begun e h = cc (rw e at h)
taken-Accepts env r s a b unsynced e h = cc (rw e at h)
taken-Accepts env r s a b torn e h = cc (rw e at h)

write-Accepts :
    {A : Type 0} (env : Env) (r : LogRecord) (s : Store) (a b : A)
    → (transaction (write env r >> return a) s).0 ≡ done b
    → Accepts env r s
write-Accepts env r s a b h = taken-Accepts env r s a b (env.appends s.log r) refl h

Accepts-write :
    {A : Type 0} (env : Env) (r : LogRecord) (s : Store) (a : A)
    → Accepts env r s
    → transaction (write env r >> return a) s ≡ (done a, stored env r s)
unfolding transaction write append_jsonl project return ◌>>=◌
Accepts-write env r s a (appended, (c, e)) = rw (appended, e) refl

insert_claim-IsAdmitted :
    (env : Env) (now claim_id : ℕ) (w : ClaimWrite) (s : Store)
    → (insert_claim env now claim_id w s).0 ≡ done claim_id
    → IsAdmitted env s.db.ontology w
unfolding insert_claim
insert_claim-IsAdmitted env now claim_id w s h =
    let (t, e) = continue-done (validate_claim_write env w s).0 _ _ claim_id h in
    validate-IsAdmitted env w s e

insert_claim-write :
    (env : Env) (now claim_id : ℕ) (w : ClaimWrite) (s : Store)
    → IsAdmitted env s.db.ontology w
    → insert_claim env now claim_id w s
      ≡ transaction (write env (claim_record now claim_id w) >> return claim_id) s
unfolding insert_claim
insert_claim-write env now claim_id w s h = rw (IsAdmitted-validate env w s h) refl

-- `insert_claim` answers with the id exactly when the claim is admitted and the log file and the
-- projection take its record, and then that record, applied, is all that has changed.
pub insert_claim_iff :
    (env : Env) (now claim_id : ℕ) (w : ClaimWrite) (s : Store)
    → ((insert_claim env now claim_id w s).0 ≡ done claim_id
        ↔ (IsAdmitted env s.db.ontology w × Accepts env (claim_record now claim_id w) s))
      × ((insert_claim env now claim_id w s).0 ≡ done claim_id
          → (insert_claim env now claim_id w s).1 ≡ stored env (claim_record now claim_id w) s)
insert_claim_iff env now claim_id w s =
    let r = claim_record now claim_id w in
    let accepts : (insert_claim env now claim_id w s).0 ≡ done claim_id → Accepts env r s = λ h.
      let e =
        insert_claim-write env now claim_id w s (insert_claim-IsAdmitted env now claim_id w s h) in
      write-Accepts env r s claim_id claim_id (rw e at h) in
    (
      (
        λ h. (insert_claim-IsAdmitted env now claim_id w s h, accepts h),
        λ (admitted, takes).
            rw
              (
                insert_claim-write env now claim_id w s admitted,
                Accepts-write env r s claim_id takes,
              )
              refl,
      ),
      λ h.
          rw
            (
              insert_claim-write env now claim_id w s
                  (insert_claim-IsAdmitted env now claim_id w s h),
              Accepts-write env r s claim_id (accepts h),
            )
            refl,
    )
