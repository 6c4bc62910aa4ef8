-- ===== src/Examples/ContentsRuns.antt =====
-- Runs of what a model reads.
use rain_engine.Prelude.{ℕ, zero, suc, ◌≡◌, ◌≤◌, refl, arith, none, List, [], ◌∷◌, ◌++◌, length}
use rain_engine.Types.Events.{AgentTrigger}
use rain_engine.Types.Records.{SessionRecord}
use rain_engine.Engine.Contents.{note_intent, intents_from, notice, build_provider_contents}
use rain_engine.Engine.Contents.Paging.{
  length-build_provider_contents, build_provider_contents-append,
}
use rain_engine.Examples.Sample.{sample, hello, failed_ping}
use rain_engine.Examples.EngineRuns.{calm}

abbrev results : ℕ → List (SessionRecord sample)
results zero = []
results (suc n) = SessionRecord.tool_result failed_ping ∷ results n

abbrev greeted : AgentTrigger sample
greeted = AgentTrigger.message "u" "hi" []

length-build_provider_contents_example :
    length (build_provider_contents calm greeted (SessionRecord.trigger hello ∷ results 40) none)
    ≤ 35
length-build_provider_contents_example =
    length-build_provider_contents calm greeted none (SessionRecord.trigger hello ∷ results 40)

build_provider_contents-append_example :
    build_provider_contents calm greeted
      (results 2 ++ (SessionRecord.trigger hello ∷ results 31))
      none
    ≡ notice ∷ build_provider_contents calm greeted (SessionRecord.trigger hello ∷ results 31) none
unfolding intents_from note_intent
build_provider_contents-append_example =
    build_provider_contents-append calm greeted none (results 2)
      (SessionRecord.trigger hello ∷ results 31) refl (omega arith) refl
