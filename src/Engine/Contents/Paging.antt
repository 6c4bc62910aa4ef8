-- ===== src/Engine/Contents/Paging.antt =====
-- rain-engine-core/src/engine.rs: how `build_provider_contents` pages a long history out.
use rain_engine.Prelude.{
  ℕ, String, Option, none, some, List, [], ◌∷◌, ◌++◌, ◌-◌, ◌≤◌, ◌<◌, zero, suc, filter_map, length,
  length-append, drop, length-drop, Option-cases, ◌≡◌, refl, inl, inr, arith,
}
use rain_engine.Prelude.Assoc.{Assoc}
use rain_engine.Host.{Host}
use rain_engine.Types.Actions.{ExecutionPlanRecord}
use rain_engine.Types.Events.{AgentTrigger}
use rain_engine.Types.Records.{SessionRecord}
use rain_engine.World.{Outside}
use rain_engine.Engine.Contents.{
  note_intent, intents_from, truncated_history, notice, notices, plan_messages, message_of,
  build_provider_contents,
}

module _ {ℓ} {A : Type ℓ} where
  drop_front : (xs ys : List A) (n : ℕ) → n ≡ length xs → drop n (xs ++ ys) ≡ ys
  drop_front [] ys zero e = refl
  drop_front [] ys (suc n) e = ground arith
  drop_front (x ∷ xs) ys zero e = ground arith
  drop_front (x ∷ xs) ys (suc n) e = drop_front xs ys n (omega arith)

  length-filter_map {κ} :
      {B : Type κ} (f : A → Option B) (xs : List A) → length (filter_map f xs) ≤ length xs
  length-filter_map f [] = omega arith
  length-filter_map f (x ∷ xs) = elim (Option-cases (f x)) [
    | inl e ↦ ground (arith, length-filter_map f xs)
    | inr (b, e) ↦ ground (arith, length-filter_map f xs)
  ]

  length-joined :
      (xs ys zs : List A)
      → length xs ≤ 1
      → length ys ≤ 32
      → length zs ≤ 2
      → length (xs ++ ys ++ zs) ≤ 35
  length-joined xs ys zs a b c = omega (arith, length-append (xs ++ ys) zs, length-append xs ys)

module _ {h : Host} where
  intents_from-append :
      (m : Assoc String) (older recent : List (SessionRecord h))
      → intents_from m (older ++ recent) ≡ intents_from (intents_from m older) recent
  unfolding intents_from
  intents_from-append m [] recent = refl
  intents_from-append m (r ∷ older) recent = intents_from-append (note_intent m r) older recent

  length-truncated_history : (rs : List (SessionRecord h)) → length (truncated_history rs) ≤ 32
  unfolding truncated_history
  length-truncated_history rs = ground (arith, length-drop (length rs - 32) rs)

  truncated_history-append :
      (older recent : List (SessionRecord h))
      → length recent ≡ 32
      → truncated_history (older ++ recent) ≡ recent
  unfolding truncated_history
  truncated_history-append [] recent full = ground arith
  truncated_history-append (r ∷ older) recent full = ground (
    arith,
    length-append older recent,
    drop_front (r ∷ older) recent (length (r ∷ older ++ recent) - 32)
        (omega (arith, length-append older recent)),
  )

  length-notices : (rs : List (SessionRecord h)) → length (notices rs) ≤ 1
  length-notices rs = ground arith

  notices_full : (rs : List (SessionRecord h)) → length rs ≡ 32 → notices rs ≡ []
  notices_full rs full = ground arith

  notices_longer : (rs : List (SessionRecord h)) → 32 < length rs → notices rs ≡ notice ∷ []
  notices_longer rs longer = ground arith

  length-plan_messages : (plan : Option (ExecutionPlanRecord h)) → length (plan_messages plan) ≤ 1
  length-plan_messages none = omega arith
  length-plan_messages (some plan) = omega arith

module _ {h : Host} (outside : Outside h) (trigger : AgentTrigger h)
    (plan : Option (ExecutionPlanRecord h)) where
  -- However long the history is, the model reads at most 35 messages.
  pub length-build_provider_contents :
      (history : List (SessionRecord h))
      → length (build_provider_contents outside trigger history plan) ≤ 35
  unfolding build_provider_contents
  length-build_provider_contents history =
      length-joined (notices history)
        (filter_map (message_of outside (intents_from [] history)) (truncated_history history)) _
        (length-notices history)
        (omega (
          arith,
          length-filter_map (message_of outside (intents_from [] history))
              (truncated_history history),
          length-truncated_history history,
        ))
        (omega (arith, length-plan_messages plan))

  -- A history of 32 records behind at least one that is older, where the older ones say nothing of
  -- the intent of a trigger, reads as the notice that there are older ones, followed by what the 32
  -- alone read as.
  pub build_provider_contents-append :
      (older recent : List (SessionRecord h))
      → length recent ≡ 32
      → 0 < length older
      → intents_from [] older ≡ []
      → build_provider_contents outside trigger (older ++ recent) plan
        ≡ notice ∷ build_provider_contents outside trigger recent plan
  unfolding build_provider_contents
  build_provider_contents-append older recent full some_older no_intents = rw (
    intents_from-append [] older recent,
    no_intents,
    truncated_history-append older recent full,
    truncated_history-append [] recent full,
    notices_full recent full,
    notices_longer (older ++ recent) (omega (arith, length-append older recent)),
  )
