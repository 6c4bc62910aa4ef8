-- ===== src/Examples/StoreRuns.antt =====
-- The store's theorems at concrete appends.
use rain_engine.Prelude.{◌≡◌, ◌≢◌, refl, String, none, some, List, [], ◌∷◌}
use rain_engine.Prelude.Int.{pos}
use rain_engine.Ledger.Record.{new_record}
use rain_engine.Types.Actions.{SuspendReason, ApprovalDecision}
use rain_engine.Types.Records.{SessionRecord, PendingApprovalRecord, ApprovalResolutionRecord}
use rain_engine.Types.Requests.{from_record, RecordPageQuery}
use rain_engine.Store.{
  new, take_number, push_record, stored_as, load_session, find_outcome_by_idempotency_key,
  find_pending_approval_by_resume_token,
}
use rain_engine.Store.Sessions.{append_all, store_refines_log}
use rain_engine.Store.Concurrent.{
  Concurrent, Step, Reach, IsNumbered, nothing_appended, reached_store-IsNumbered,
}
use rain_engine.Types.Records.{NewSessionRecord}
use rain_engine.Store.Lookups.{put, find_outcome-append, approval_lifecycle}
use rain_engine.Examples.Sample.{sample, hello, done_outcome, ping_call, token_a}

abbrev log : List (String × SessionRecord sample)
log =
    ("s", SessionRecord.trigger hello)
    ∷ (("other", SessionRecord.trigger hello) ∷ (("s", SessionRecord.outcome done_outcome) ∷ []))

store_refines_log_example :
    (load_session (append_all (new sample) log) "s").records
    ≡ SessionRecord.trigger hello ∷ SessionRecord.outcome done_outcome ∷ []
store_refines_log_example = store_refines_log log "s"

-- Two appends to one session: the second stores its record before the first does.
abbrev greeted : NewSessionRecord sample
greeted = new_record "s" (SessionRecord.trigger hello)

abbrev overtaken : Concurrent sample
overtaken = record {
  store =
      push_record
        (push_record (take_number (take_number (new sample)).0).0
          (stored_as (take_number (take_number (new sample)).0).1 greeted))
        (stored_as (take_number (new sample)).1 greeted);
  pending = [];
}

overtaking : Reach (nothing_appended sample) overtaken
overtaking =
    Reach.next
      (Reach.next
        (Reach.next (Reach.next Reach.here (Step.numbers (new sample) [] greeted)) (
          Step.numbers (take_number (new sample)).0
            (stored_as (take_number (new sample)).1 greeted ∷ []) greeted))
        (Step.stores (take_number (take_number (new sample)).0).0 []
          (stored_as (take_number (new sample)).1 greeted ∷ [])
          (stored_as (take_number (take_number (new sample)).0).1 greeted)))
      (Step.stores
        (push_record (take_number (take_number (new sample)).0).0
          (stored_as (take_number (take_number (new sample)).0).1 greeted))
        [] [] (stored_as (take_number (new sample)).1 greeted))

reached_store_example : IsNumbered overtaken
reached_store_example = reached_store-IsNumbered overtaking

find_outcome_example :
    find_outcome_by_idempotency_key
      (put (append_all (new sample) log) "s" (SessionRecord.outcome done_outcome))
      "s"
      "k1"
    ≡ some (from_record done_outcome)
find_outcome_example =
    find_outcome-append (append_all (new sample) log) "s" done_outcome "k1" refl "s" "k1"

abbrev waiting : PendingApprovalRecord sample
waiting = record {
  resume_token = token_a;
  created_at = 4;
  trigger_id = "t1";
  step = 0;
  reason = SuspendReason.human_approval_required ("ping" ∷ []);
  pending_calls = ping_call ∷ [];
}

abbrev approval : ApprovalResolutionRecord sample
approval = record {
  resume_token = token_a;
  resolved_at = 6;
  decision = ApprovalDecision.approved;
  metadata = "{}";
}

approval_lifecycle_example :
    let s = new sample in
    let held = put s "s" (SessionRecord.pending_approval waiting) in
    let done = put held "s" (SessionRecord.approval_resolution approval) in
    (find_pending_approval_by_resume_token held "s" "a" ≡ some waiting)
    × (find_pending_approval_by_resume_token done "s" "a" ≡ none)
    × ((token : String)
        → token ≢ "a"
        → find_pending_approval_by_resume_token done "s" token
          ≡ find_pending_approval_by_resume_token s "s" token)
approval_lifecycle_example = approval_lifecycle (new sample) "s" waiting approval refl

abbrev one_by_one : RecordPageQuery
one_by_one = record {
  session_id = "s";
  offset = 0;
  limit = 1;
  since_ms = some (pos 0);
  until_ms = none;
}
