-- ===== src/Engine/Advance/Replay.antt =====
-- rain-engine-core/src/engine.rs: a request that is answered from its session's ledger, and requests to
-- a store that is down.
use rain_engine.Prelude.{
  ℕ, suc, ◌+◌, ◌≡◌, ◌∙◌, refl, true, false, all, ap, arith, String, none, some, List, [], inl, inr,
  Option-cases,
}
use rain_engine.Host.{Host}
use rain_engine.Types.Tools.{ok}
use rain_engine.Types.Records.{SessionRecord, OutcomeRecord, StopReason}
use rain_engine.Types.Requests.{AdvanceRequest, ProcessRequest, from_record}
use rain_engine.Store.{InMemoryMemoryStore, find_outcome_by_idempotency_key}
use rain_engine.Store.Appends.{append_trigger}
use rain_engine.Store.Sessions.{append_all}
use rain_engine.Store.Lookups.{put, is_elsewhere, find_outcome_later}
use rain_engine.Kernel.{no_delta, storage_failure_outcome}
use rain_engine.World.{World, Outside}
use rain_engine.World.Exec.{pure, ask, caught, on_memory, append, read_memory, now, new_uuid, ◌>>=◌}
use rain_engine.Engine.Context.{AgentEngine}
use rain_engine.Engine.Actions.{storage_failure}
use rain_engine.Engine.Advance.{advance, advance_trigger}
use rain_engine.Engine.Continue.{advance_continue}

module _ {h : Host} (outside : Outside h) (engine : AgentEngine h) where
  -- After an outcome is appended to a session under an idempotency key, and whatever is appended then
  -- that is not an outcome of that session under that key, a request of the session with the key gets
  -- the trigger, the reason, the response, the detail, the steps and the token of that outcome back,
  -- marked as a replay and without events, where the store can be read. Nothing is written, and no call
  -- but the clock, the identifier and that read is made.
  pub advance_trigger_replays :
      (request : ProcessRequest h) (key : String) (s : InMemoryMemoryStore h) (o : OutcomeRecord)
      (log : List (String × SessionRecord h)) (w : World h)
      → request.idempotency_key ≡ some key
      → o.idempotency_key ≡ some key
      → all (is_elsewhere request.session_id key) log ≡ true
      → w.memory ≡ append_all (put s request.session_id (SessionRecord.outcome o)) log
      → outside.memory_fails (suc (suc w.calls)) ≡ none
      → ((advance_trigger outside engine request w).0
          ≡ ok (record {
            outcome = some (record {
              trigger_id = o.trigger_id;
              stop_reason = o.stop_reason;
              response = o.response;
              detail = o.detail;
              steps_executed = o.steps_executed;
              idempotent_replay = true;
              resume_token = o.resume_token;
            });
            emitted_events = [];
            state_delta = no_delta;
            wake_request = none;
          }))
        × ((advance_trigger outside engine request w).1.memory ≡ w.memory)
        × ((advance_trigger outside engine request w).1.calls ≡ w.calls + 3)
  unfolding advance_trigger now new_uuid ask caught read_memory on_memory pure ◌>>=◌ from_record
  advance_trigger_replays request key s o log w k ok' others built reads =
      let found : find_outcome_by_idempotency_key w.memory request.session_id key
          ≡ some (from_record o) =
        ap (λ m. find_outcome_by_idempotency_key m request.session_id key) built
        ∙ find_outcome_later s request.session_id key o log ok' others in
      (rw (k, reads, found) refl, rw (k, reads, found) refl, rw (k, reads, found) (omega arith))

  -- The trigger that the outcome names: a new one, or the session where there is none to go on with.
  abbrev pub failed_trigger : World h → AdvanceRequest h → String
  failed_trigger w (AdvanceRequest.trigger request) = outside.uuid (suc w.calls)
  failed_trigger w (AdvanceRequest.continue request) = request.session_id

  -- Where every call of the store fails with a message, an advance returns: it ends with the reason
  -- of a storage failure, with that message, at no step, without events and not as a replay, whether it
  -- has a trigger or goes on with one and with or without an idempotency key, and the memory is as it
  -- was.
  pub advance_unstored :
      (request : AdvanceRequest h) (message : String) (w : World h)
      → ((call : ℕ) → outside.memory_fails call ≡ some message)
      → ((advance outside engine request w).0
          ≡ ok (record {
            outcome = some (record {
              trigger_id = failed_trigger w request;
              stop_reason = StopReason.storage_failure;
              response = none;
              detail = some message;
              steps_executed = 0;
              idempotent_replay = false;
              resume_token = none;
            });
            emitted_events = [];
            state_delta = no_delta;
            wake_request = none;
          }))
        × ((advance outside engine request w).1.memory ≡ w.memory)
  unfolding advance advance_trigger advance_continue now new_uuid ask caught append append_trigger
      read_memory on_memory pure ◌>>=◌ storage_failure storage_failure_outcome
  advance_unstored (AdvanceRequest.trigger request) message w down =
      elim (Option-cases request.idempotency_key) [
        | inl e ↦ (rw (e, down) refl, rw (e, down) refl)
        | inr (key, e) ↦ (rw (e, down, down) refl, rw (e, down, down) refl)
      ]
  advance_unstored (AdvanceRequest.continue request) message w down =
      (rw (down) refl, rw (down) refl)
