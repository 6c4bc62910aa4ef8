-- ===== src/Tools/Performance/Counts.antt =====
-- rain-engine-core/src/engine.rs: what `summarize_tool_performance` counts.
use rain_engine.Prelude.{
  ℕ, suc, ◌+◌, ◌≡◌, ◌∙◌, arith, inl, inr, String, Bool, true, ◌&&◌, not, List, [], ◌∷◌, Bool-cases,
  str_eq, eq_iff, if◌then◌else◌,
}
use rain_engine.Prelude.Assoc
use rain_engine.Prelude.Assoc.{Assoc, get-insert}
use rain_engine.Host.{Host}
use rain_engine.Types.Tools.{SkillBackendKind, ToolResultRecord, is_ok}
use rain_engine.Types.Records.{SessionRecord}
use rain_engine.Tools.Performance.{
  Tally, first_tally, note_result, grouped_from, grouped_results, backends_from,
}

abbrev pub tally_at : String → Assoc Tally → Tally
tally_at skill grouped = first_tally "unknown" (Assoc.get skill grouped)

-- The tally after some more results.
abbrev Counts : Tally → ℕ → ℕ → ℕ → Tally → Type 0
Counts before calls successes failures after =
    (after.calls ≡ before.calls + calls)
    × (after.successes ≡ before.successes + successes)
    × (after.failures ≡ before.failures + failures)

-- One result more, for its skill.
abbrev Bump : Bool → Bool → Tally → Tally → Type 0
Bump here succeeded before after =
    (after.calls ≡ before.calls + (if here then 1 else 0))
    × (after.successes ≡ before.successes + (if here && succeeded then 1 else 0))
    × (after.failures ≡ before.failures + (if here && not succeeded then 1 else 0))

module _ {h : Host} where
  -- How many results of a skill, of one kind, the records have.
  abbrev pub results_of : (Bool → Bool) → String → List (SessionRecord h) → ℕ
  results_of kind skill [] = 0
  results_of kind skill (SessionRecord.tool_result r ∷ rs) =
      let rest = results_of kind skill rs in
      if str_eq r.skill_name skill && kind (is_ok r.output) then suc rest else rest
  results_of kind skill (_ ∷ rs) = results_of kind skill rs

  Bump-note_result :
      (backends : Assoc SkillBackendKind) (grouped : Assoc Tally) (r : ToolResultRecord h)
      (skill : String)
      → Bump
          (str_eq r.skill_name skill)
          (is_ok r.output)
          (tally_at skill grouped)
          (tally_at skill (note_result backends grouped (SessionRecord.tool_result r)))
  unfolding note_result
  Bump-note_result backends grouped r skill = elim (Bool-cases (str_eq r.skill_name skill)) [
    | inl e ↦
        rw (get-insert, e, (eq_iff r.skill_name skill).0 e)
          (ground arith, ground arith, ground arith)
    | inr e ↦ rw (get-insert, e) (omega arith, omega arith, omega arith)
  ]

  grouped_from-Counts :
      (backends : Assoc SkillBackendKind) (grouped : Assoc Tally) (rs : List (SessionRecord h))
      (skill : String)
      → Counts
          (tally_at skill grouped)
          (results_of (λ b. true) skill rs)
          (results_of (λ b. b) skill rs)
          (results_of not skill rs)
          (tally_at skill (grouped_from backends grouped rs))
  unfolding grouped_from note_result
  grouped_from-Counts backends grouped [] skill = (omega arith, omega arith, omega arith)
  grouped_from-Counts backends grouped (SessionRecord.tool_result r ∷ rs) skill =
      let later =
        grouped_from-Counts backends (note_result backends grouped (SessionRecord.tool_result r)) rs
          skill in
      let first = Bump-note_result backends grouped r skill in
      (
        ground (arith, later.0, first.0),
        ground (arith, later.1, first.1),
        ground (arith, later.2, first.2),
      )
  grouped_from-Counts backends grouped (_ ∷ rs) skill =
      grouped_from-Counts backends grouped rs skill

  -- For every skill, the summary counts as many calls as the records have results of it, as many
  -- successes as they have successful ones and as many failures as they have failed ones.
  pub grouped_results_count :
      (rs : List (SessionRecord h)) (skill : String)
      → ((tally_at skill (grouped_results rs)).calls ≡ results_of (λ b. true) skill rs)
        × ((tally_at skill (grouped_results rs)).successes ≡ results_of (λ b. b) skill rs)
        × ((tally_at skill (grouped_results rs)).failures ≡ results_of not skill rs)
  unfolding grouped_results Assoc.get
  grouped_results_count rs skill =
      let c = grouped_from-Counts (backends_from [] rs) [] rs skill in
      (c.0 ∙ omega arith, c.1 ∙ omega arith, c.2 ∙ omega arith)
