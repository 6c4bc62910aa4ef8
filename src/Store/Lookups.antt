-- ===== src/Store/Lookups.antt =====
-- The two searches that make triggers idempotent and approvals resumable, after an append.
use rain_engine.Prelude.{
  ◌≡◌, ◌≢◌, refl, String, Option, none, some, List, [], ◌∷◌, ◌++◌, rfind_map-append, str_eq, eq_iff,
  eq_refl, if◌then◌else◌, Bool, true, not, all, ◌&&◌, ◌∙◌, arith, Bool-cases, inl, inr,
}
use rain_engine.Host.{Host}
use rain_engine.Types.Records.{
  SessionRecord, StoredSessionRecord, OutcomeRecord, PendingApprovalRecord,
  ApprovalResolutionRecord,
}
use rain_engine.Types.Requests.{from_record}
use rain_engine.Ledger.Record.{new_record}
use rain_engine.Store.{
  InMemoryMemoryStore, session, stored_as, append_record, note_pending, pending_from,
  find_outcome_by_idempotency_key, find_pending_approval_by_resume_token,
}
use rain_engine.Store.Sessions.{session-append_record, append_all}

module _ {h : Host} where
  -- The store after a record is appended to a session.
  abbrev pub put : InMemoryMemoryStore h → String → SessionRecord h → InMemoryMemoryStore h
  put s to r = (append_record s (new_record to r)).0

  -- An outcome with a key is what a search for the key then returns, whatever was there before; the
  -- outcomes found in other sessions, or for other keys, stay what they were.
  pub find_outcome-append :
      (s : InMemoryMemoryStore h) (to : String) (o : OutcomeRecord) (key : String)
      → o.idempotency_key ≡ some key
      → (id k : String)
      → find_outcome_by_idempotency_key (put s to (SessionRecord.outcome o)) id k ≡ (
          if str_eq to id
          then (if str_eq key k
              then some (from_record o)
              else find_outcome_by_idempotency_key s id k)
          else find_outcome_by_idempotency_key s id k)
  unfolding find_outcome_by_idempotency_key stored_as new_record
  find_outcome-append s to o key e id k = elim (Bool-cases (str_eq to id)) [
    | inl same ↦ rw (session-append_record, same, rfind_map-append) (ground arith)
    | inr other ↦ rw (session-append_record, other)
  ]

  -- Not an outcome of this session under this key.
  abbrev pub is_elsewhere : String → String → String × SessionRecord h → Bool
  is_elsewhere id key (to, SessionRecord.outcome o) = elim o.idempotency_key [
    | some k ↦ not (str_eq to id && str_eq k key)
    | none ↦ true
  ]
  is_elsewhere id key (to, r) = true

  find_outcome-append_other :
      (s : InMemoryMemoryStore h) (id key : String) (entry : String × SessionRecord h)
      → is_elsewhere id key entry ≡ true
      → find_outcome_by_idempotency_key (put s entry.0 entry.1) id key
        ≡ find_outcome_by_idempotency_key s id key
  unfolding find_outcome_by_idempotency_key stored_as new_record
  find_outcome-append_other s id key (to, r) other = elim (Bool-cases (str_eq to id)) [
    | inl same ↦ rw (session-append_record, same, rfind_map-append) (ground arith)
    | inr different ↦ rw (session-append_record, different)
  ]

  find_outcome-append_all :
      (s : InMemoryMemoryStore h) (id key : String) (log : List (String × SessionRecord h))
      → all (is_elsewhere id key) log ≡ true
      → find_outcome_by_idempotency_key (append_all s log) id key
        ≡ find_outcome_by_idempotency_key s id key
  unfolding append_all
  find_outcome-append_all s id key [] others = refl
  find_outcome-append_all s id key ((to, r) ∷ log) others =
      find_outcome-append_all (put s to r) id key log (ground arith)
      ∙ find_outcome-append_other s id key (to, r) (ground arith)

  -- The outcome of a key is found as long as no later one of that key is appended to the session.
  pub find_outcome_later :
      (s : InMemoryMemoryStore h) (id key : String) (o : OutcomeRecord)
      (log : List (String × SessionRecord h))
      → o.idempotency_key ≡ some key
      → all (is_elsewhere id key) log ≡ true
      → find_outcome_by_idempotency_key (append_all (put s id (SessionRecord.outcome o)) log) id key
        ≡ some (from_record o)
  find_outcome_later s id key o log e others =
      find_outcome-append_all (put s id (SessionRecord.outcome o)) id key log others
      ∙ find_outcome-append s id o key e id key
      ∙ rw (eq_refl id, eq_refl key) refl

  pending_from-append :
      (token : String) (p : Option (PendingApprovalRecord h)) (rs : List (StoredSessionRecord h))
      (r : StoredSessionRecord h)
      → pending_from token p (rs ++ r ∷ []) ≡ note_pending token (pending_from token p rs) r.entry
  unfolding pending_from
  pending_from-append token p [] r = refl
  pending_from-append token p (x ∷ rs) r =
      pending_from-append token (note_pending token p x.entry) rs r

  find_pending-append :
      (s : InMemoryMemoryStore h) (to : String) (r : SessionRecord h) (id token : String)
      → find_pending_approval_by_resume_token (put s to r) id token ≡ (
          if str_eq to id
          then note_pending token (find_pending_approval_by_resume_token s id token) r
          else find_pending_approval_by_resume_token s id token)
  unfolding find_pending_approval_by_resume_token stored_as new_record
  find_pending-append s to r id token = elim (Bool-cases (str_eq to id)) [
    | inl same ↦ rw (session-append_record, same) (pending_from-append token none (session s id) _)
    | inr other ↦ rw (session-append_record, other)
  ]

  -- A pending approval is found by its token, in its session, until a resolution of that token is
  -- appended; from then on nothing is found. Neither append changes what another token finds.
  pub approval_lifecycle :
      (s : InMemoryMemoryStore h) (id : String) (p : PendingApprovalRecord h)
      (res : ApprovalResolutionRecord h)
      → res.resume_token ≡ p.resume_token
      → let waiting = put s id (SessionRecord.pending_approval p) in
        let done = put waiting id (SessionRecord.approval_resolution res) in
        let find = λ (t : InMemoryMemoryStore h). find_pending_approval_by_resume_token t id in
        (find waiting p.resume_token.text ≡ some p)
        × (find done p.resume_token.text ≡ none)
        × ((token : String) → token ≢ p.resume_token.text → find done token ≡ find s token)
  unfolding note_pending
  approval_lifecycle s id p res e = (
    simp (find_pending-append, eq_refl),
    simp (find_pending-append, eq_refl, e),
    λ token other.
        simp (find_pending-append, eq_refl, e) (ground (arith, eq_iff p.resume_token.text token)),
  )
