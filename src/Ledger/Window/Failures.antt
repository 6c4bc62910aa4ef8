-- ===== src/Ledger/Window/Failures.antt =====
-- `current_consecutive_tool_failure_steps`: how a step with its results moves the count.
use mathlib.Core.List.{append-nil, append_assoc}
use rain_engine.Prelude.{
  suc, ◌+◌, ◌≤◌, ◌<◌, ◌≡◌, refl, ap, ◌∙◌, sym, false, none, some, List, [], ◌∷◌, ◌++◌, length,
  retain, if◌then◌else◌, Bool, true, not, ◌||◌, all, Option, filter_map, arith, length-append,
}
use rain_engine.Host.{Host}
use rain_engine.Types.Actions.{AgentAction, ModelDecisionRecord, PlannedSkillCall}
use rain_engine.Types.Tools.{ToolResultRecord}
use rain_engine.Types.Records.{SessionRecord, OutcomeRecord}
use rain_engine.Ledger.Window.{
  window, is_step, is_outcome, current_step_count, FailureScan, scan_record, scan, close_scan,
  failed_window, trailing_failures, current_consecutive_tool_failure_steps,
}
use rain_engine.Ledger.Window.Steps.{window-append}

-- The loop's start.
abbrev no_scan : (h : Host) → FailureScan h
no_scan h = record { windows = []; current_action = none; current_results = [] }

module _ {h : Host} where
  -- The scan of a session's records.
  abbrev scanned : List (SessionRecord h) → FailureScan h
  scanned rs = scan (no_scan h) (window rs)

  scan-append :
      (s : FailureScan h) (xs ys : List (SessionRecord h)) → scan s (xs ++ ys) ≡ scan (scan s xs) ys
  unfolding scan
  scan-append s [] ys = refl
  scan-append s (x ∷ xs) ys = scan-append (scan_record s x) xs ys

  -- Records between two steps: neither a decision, nor a deliberation, nor an outcome. Graphs,
  -- checkpoints, calls, results, triggers, intents and resolutions are such records.
  abbrev pub is_between : SessionRecord h → Bool
  is_between r = not (is_step r || is_outcome r)

  abbrev as_result : SessionRecord h → Option (ToolResultRecord h)
  as_result (SessionRecord.tool_result r) = some r
  as_result _ = none

  abbrev pub results_among : List (SessionRecord h) → List (ToolResultRecord h)
  results_among = filter_map as_result

  scan-between :
      (s : FailureScan h) (rs : List (SessionRecord h))
      → all is_between rs ≡ true
      → scan s rs ≡ record s { current_results = s.current_results ++ results_among rs }
  unfolding scan scan_record
  scan-between s [] b = rw append-nil
  scan-between s (SessionRecord.tool_result r ∷ rs) b =
      scan-between (record s { current_results = s.current_results ++ r ∷ [] }) rs b
      ∙ ap (λ l. record s { current_results = l })
          (append_assoc s.current_results (r ∷ []) (results_among rs))
  scan-between s (SessionRecord.model_decision d ∷ rs) b = absurd (ground arith)
  scan-between s (SessionRecord.deliberation d ∷ rs) b = absurd (ground arith)
  scan-between s (_ ∷ rs) b = scan-between s rs (ground arith)

  window-between :
      (rs later : List (SessionRecord h))
      → all is_between later ≡ true
      → window (rs ++ later) ≡ window rs ++ later
  window-between rs [] b = rw (append-nil rs, append-nil (window rs))
  window-between rs (r ∷ later) b =
      let inside : is_outcome r ≡ false = ground arith in
      ap window (sym (append_assoc rs (r ∷ []) later))
      ∙ window-between (rs ++ r ∷ []) later (ground arith)
      ∙ ap (λ l. l ++ later) (window-append rs r ∙ rw inside refl)
      ∙ append_assoc (window rs) (r ∷ []) later

  -- The records of a step: the model's decision, and what comes in until the next one.
  abbrev step_of : ModelDecisionRecord h → List (SessionRecord h) → List (SessionRecord h)
  step_of d later = SessionRecord.model_decision d ∷ later

  scanned-step :
      (rs : List (SessionRecord h)) (d : ModelDecisionRecord h) (later : List (SessionRecord h))
      → all is_between later ≡ true
      → let after = scan_record (scanned rs) (SessionRecord.model_decision d) in
        scanned (rs ++ step_of d later)
        ≡ record after { current_results = after.current_results ++ results_among later }
  unfolding scan
  scanned-step rs d later b =
      ap scanned (sym (append_assoc rs (SessionRecord.model_decision d ∷ []) later))
      ∙ ap (scan (no_scan h)) (
          window-between (rs ++ SessionRecord.model_decision d ∷ []) later b
          ∙ ap (λ l. l ++ later) (window-append rs (SessionRecord.model_decision d)))
      ∙ scan-append (no_scan h) (window rs ++ SessionRecord.model_decision d ∷ []) later
      ∙ ap (λ s. scan s later)
          (scan-append (no_scan h) (window rs) (SessionRecord.model_decision d ∷ []))
      ∙ scan-between _ later b

  -- Results that no open window has taken: they came in before the first decision.
  abbrev strays : FailureScan h → List (ToolResultRecord h)
  strays s = elim s.current_action [ some action ↦ [] | none ↦ s.current_results ]

  close_scan-step :
      (s : FailureScan h) (d : ModelDecisionRecord h) (results : List (ToolResultRecord h))
      → let after = scan_record s (SessionRecord.model_decision d) in
        close_scan (record after { current_results = after.current_results ++ results })
        ≡ (d.action, strays s ++ results) ∷ close_scan s
  unfolding scan_record
  close_scan-step s d results = ground arith

  pub failures-step :
      (rs : List (SessionRecord h)) (d : ModelDecisionRecord h) (later : List (SessionRecord h))
      → all is_between later ≡ true
      → current_consecutive_tool_failure_steps (rs ++ step_of d later) ≡ (
          if failed_window d.action (strays (scanned rs) ++ results_among later)
          then suc (current_consecutive_tool_failure_steps rs)
          else 0)
  unfolding current_consecutive_tool_failure_steps
  failures-step rs d later b =
      ap (λ s. trailing_failures (close_scan s)) (scanned-step rs d later b)
      ∙ ap trailing_failures (close_scan-step (scanned rs) d (results_among later))

  trailing_failures-le :
      (ws : List (AgentAction h × List (ToolResultRecord h))) → trailing_failures ws ≤ length ws
  unfolding trailing_failures
  trailing_failures-le [] = omega arith
  trailing_failures-le ((action, results) ∷ ws) = ground (arith, trailing_failures-le ws)

  scan_record-windows :
      (s : FailureScan h) (r : SessionRecord h)
      → length (close_scan (scan_record s r)) ≤ (if is_step r then 1 else 0) + length (close_scan s)
  unfolding scan_record
  scan_record-windows s r = ground arith

  scan-windows :
      (s : FailureScan h) (rs : List (SessionRecord h))
      → length (close_scan (scan s rs)) ≤ length (retain is_step rs) + length (close_scan s)
  unfolding scan
  scan-windows s [] = omega arith
  scan-windows s (r ∷ rs) =
      ground (arith, scan_record-windows s r, scan-windows (scan_record s r) rs)

  -- The failure count never passes the step count.
  pub failures-le-steps :
      (rs : List (SessionRecord h))
      → current_consecutive_tool_failure_steps rs ≤ current_step_count rs
  unfolding current_consecutive_tool_failure_steps current_step_count
  failures-le-steps rs =
      omega (
        arith,
        trailing_failures-le (close_scan (scanned rs)),
        scan-windows (no_scan h) (window rs),
      )

  -- Behind an outcome, records that are no decision, deliberation or outcome, as the trigger of an
  -- approval with its intent, its resolution and the results of the calls that were waiting.
  abbrev resumed :
      List (SessionRecord h) → OutcomeRecord → List (SessionRecord h) → List (SessionRecord h)
  resumed rs o late = (rs ++ SessionRecord.outcome o ∷ []) ++ late

  scanned-resumed :
      (rs : List (SessionRecord h)) (o : OutcomeRecord) (late : List (SessionRecord h))
      → all is_between late ≡ true
      → scanned (resumed rs o late) ≡ record (no_scan h) { current_results = results_among late }
  unfolding scan scan_record
  scanned-resumed rs o late b =
      ap (scan (no_scan h)) (
        window-between (rs ++ SessionRecord.outcome o ∷ []) late b
        ∙ ap (λ l. l ++ late) (window-append rs (SessionRecord.outcome o)))
      ∙ scan-between (no_scan h) late b

  failed_window-long :
      (action : AgentAction h) (calls : List (PlannedSkillCall h))
      (late results : List (ToolResultRecord h))
      → action ≡ AgentAction.call_skills calls
      → 0 < length late
      → length results ≡ length calls
      → failed_window action (late ++ results) ≡ false
  failed_window-long action calls late results e l n = ground (arith, length-append late results)

  -- The first step after an outcome: where results came in between the outcome and the decision, as
  -- they do for a resumed approval, and the step has one result for each of its calls, the failure count
  -- is 0, also if every one of its results is a failure. Any records that are no decision, deliberation
  -- or outcome may stand before the decision and behind it.
  pub resumed_failure_not_counted :
      (rs : List (SessionRecord h)) (o : OutcomeRecord) (late : List (SessionRecord h))
      (d : ModelDecisionRecord h) (calls : List (PlannedSkillCall h))
      (later : List (SessionRecord h))
      → all is_between late ≡ true
      → all is_between later ≡ true
      → 0 < length (results_among late)
      → d.action ≡ AgentAction.call_skills calls
      → length (results_among later) ≡ length calls
      → current_consecutive_tool_failure_steps (resumed rs o late ++ step_of d later) ≡ 0
  resumed_failure_not_counted rs o late d calls later b b' l e n =
      failures-step (resumed rs o late) d later b'
      ∙ rw (
        scanned-resumed rs o late b,
        failed_window-long d.action calls (results_among late) (results_among later) e l n,
      )
