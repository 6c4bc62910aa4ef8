-- ===== src/Store.antt =====
-- rain-engine-core/src/memory.rs: `InMemoryMemoryStore`. What is done under one lock is a function from
-- the store to the store. `append_record` takes two locks, one after the other: here nothing comes
-- between them, and Concurrent has the appends that run at the same time. No operation returns an
-- error.
pub mod Appends
pub mod Concurrent
pub mod Sessions
pub mod Lookups
pub mod Pages
use rain_engine.Prelude.{
  ℕ, ◌+◌, String, Bool, true, ◌&&◌, Option, none, some, List, [], ◌∷◌, ◌++◌, length, take, drop,
  map, last, retain, rfind_map, filter_map, str_eq, ltb, if◌then◌else◌,
}
use rain_engine.Prelude.Int.{ℤ, leb_ℤ}
use rain_engine.Prelude.Assoc
use rain_engine.Prelude.Assoc.{Assoc}
use rain_engine.Prelude.Sort.{sort_by}
use Prim.Native.String.{compare}
use text.Mathlib.Text.{is_le}
use rain_engine.Host.{Host}
use rain_engine.Types.Records.{
  SessionRecord, StoredSessionRecord, NewSessionRecord, SessionSnapshot, OutcomeRecord,
  PendingApprovalRecord,
}
use rain_engine.Types.Requests.{
  EngineOutcome, from_record, RecordPage, RecordPageQuery, SessionSummary, SessionListQuery,
}

pub record InMemoryMemoryStore (h : Host) : Type 0 where
  pub inner : Assoc (List (StoredSessionRecord h))
  pub next_sequence_no : ℕ

unfoldable pub new : (h : Host) → InMemoryMemoryStore h
new h = record { inner = []; next_sequence_no = 0 }

-- `unwrap_or_default()` on a list
abbrev pub or_empty {ℓ} : {A : Type ℓ} → Option (List A) → List A
or_empty none = []
or_empty (some xs) = xs

-- `since_ms.is_none_or(|since| at >= since)`
abbrev pub since_ok : Option ℤ → ℤ → Bool
since_ok none at = true
since_ok (some since) at = leb_ℤ since at

-- `until_ms.is_none_or(|until| at <= until)`
abbrev pub until_ok : Option ℤ → ℤ → Bool
until_ok none at = true
until_ok (some until) at = leb_ℤ at until

-- `left.session_id.cmp(&right.session_id)` is not `Greater`
abbrev pub by_session_id : SessionSummary → SessionSummary → Bool
by_session_id a b = is_le (compare a.session_id b.session_id)

module _ {h : Host} where
  -- The session's stored records, oldest first.
  abbrev pub session : InMemoryMemoryStore h → String → List (StoredSessionRecord h)
  session s id = or_empty (Assoc.get id s.inner)

  unfoldable pub stored_as : ℕ → NewSessionRecord h → StoredSessionRecord h
  stored_as n r = record {
    session_id = r.session_id;
    sequence_no = n;
    occurred_at_ms = r.occurred_at_ms;
    record_kind = r.record_kind;
    trigger_id = r.trigger_id;
    idempotency_key = r.idempotency_key;
    entry = r.entry;
  }

  -- What `append_record` does under the lock of the counter: the next number.
  unfoldable pub take_number : InMemoryMemoryStore h → InMemoryMemoryStore h × ℕ
  take_number s = (record s { next_sequence_no = s.next_sequence_no + 1 }, s.next_sequence_no + 1)

  -- What it does under the lock of the map, after it has released the counter.
  unfoldable pub push_record : InMemoryMemoryStore h → StoredSessionRecord h → InMemoryMemoryStore h
  push_record s stored = record s {
    inner = Assoc.insert stored.session_id (session s stored.session_id ++ stored ∷ []) s.inner;
  }

  -- The two one after the other, with no other append in between.
  unfoldable pub append_record :
      InMemoryMemoryStore h → NewSessionRecord h → InMemoryMemoryStore h × StoredSessionRecord h
  unfolding stored_as take_number push_record
  append_record s r =
      let (s', n) = take_number s in let stored = stored_as n r in (push_record s' stored, stored)

  abbrev pub as_outcome : StoredSessionRecord h → Option OutcomeRecord
  as_outcome r = elim r.entry [ SessionRecord.outcome o ↦ some o | _ ↦ none ]

  unfoldable pub load_session : InMemoryMemoryStore h → String → SessionSnapshot h
  load_session s id = record {
    session_id = id;
    records = map (λ (r : StoredSessionRecord h). r.entry) (session s id);
    last_sequence_no = elim (last (session s id)) [ some r ↦ some r.sequence_no | none ↦ none ];
    latest_outcome = rfind_map as_outcome (session s id);
  }

  abbrev pub in_range : Option ℤ → Option ℤ → StoredSessionRecord h → Bool
  in_range since until r = since_ok since r.occurred_at_ms && until_ok until r.occurred_at_ms

  summary_of : String → List (StoredSessionRecord h) → Option SessionSummary
  summary_of id [] = none
  summary_of id (first ∷ rest) = some (record {
    session_id = id;
    first_recorded_at_ms = first.occurred_at_ms;
    last_recorded_at_ms = elim (last (first ∷ rest)) [
      | some r ↦ r.occurred_at_ms
      | none ↦ first.occurred_at_ms
    ];
    record_count = length (first ∷ rest);
  })

  summarize : SessionListQuery → String × List (StoredSessionRecord h) → Option SessionSummary
  unfolding summary_of
  summarize q (id, records) = summary_of id (retain (in_range q.since_ms q.until_ms) records)

  unfoldable pub list_sessions : InMemoryMemoryStore h → SessionListQuery → List SessionSummary
  unfolding summarize
  list_sessions s q =
      take q.limit (drop q.offset (sort_by by_session_id (filter_map (summarize q) s.inner)))

  unfoldable pub list_records : InMemoryMemoryStore h → RecordPageQuery → RecordPage h
  list_records s q =
      let filtered = retain (in_range q.since_ms q.until_ms) (session s q.session_id) in
      let records = take q.limit (drop q.offset filtered) in
      record {
        session_id = q.session_id;
        records = records;
        next_offset =
            if ltb (q.offset + length records) (length filtered)
            then some (q.offset + length records)
            else none;
      }

  abbrev pub outcome_with_key : String → StoredSessionRecord h → Option EngineOutcome
  outcome_with_key key r = elim r.entry [
    | SessionRecord.outcome o ↦ elim o.idempotency_key [
      | some k ↦ if str_eq k key then some (from_record o) else none
      | none ↦ none
    ]
    | _ ↦ none
  ]

  unfoldable pub find_outcome_by_idempotency_key :
      InMemoryMemoryStore h → String → String → Option EngineOutcome
  find_outcome_by_idempotency_key s id key = rfind_map (outcome_with_key key) (session s id)

  -- One round of the loop: the pending approval so far, after one more record.
  unfoldable pub note_pending :
      String → Option (PendingApprovalRecord h) → SessionRecord h → Option (PendingApprovalRecord h)
  note_pending token pending (SessionRecord.pending_approval p) =
      if str_eq p.resume_token.text token then some p else pending
  note_pending token pending (SessionRecord.approval_resolution r) =
      if str_eq r.resume_token.text token then none else pending
  note_pending token pending _ = pending

  unfoldable pub pending_from :
      String
      → Option (PendingApprovalRecord h)
      → List (StoredSessionRecord h)
      → Option (PendingApprovalRecord h)
  unfolding note_pending
  pending_from token pending [] = pending
  pending_from token pending (r ∷ rs) = pending_from token (note_pending token pending r.entry) rs

  unfoldable pub find_pending_approval_by_resume_token :
      InMemoryMemoryStore h → String → String → Option (PendingApprovalRecord h)
  unfolding pending_from
  find_pending_approval_by_resume_token s id token = pending_from token none (session s id)
