-- ===== src/Examples/CoordinationRuns.antt =====
-- Runs of the coordination store.
use rain_engine.Prelude.{ℕ, ◌≡◌, refl, none, [], ◌∷◌, List, not, any, arith}
use rain_engine.Coordination.{
  InMemoryCoordinationStore, Clock, claim_trigger, is_some, prune_expired,
}
use rain_engine.Coordination.Exclusion.{
  Request, perform_all, claim_excludes, claim_trigger_granted, claimed,
}
use rain_engine.Prelude.Assoc.{get}
use rain_engine.Examples.Sample.{sample}

abbrev no_claims : InMemoryCoordinationStore sample
no_claims = record { claims = []; scratchpad = [] }

abbrev clock_at : ℕ → Clock
clock_at t = record { pruned_at = t; set_at = t; wall = t }

abbrev held : InMemoryCoordinationStore sample
held = record {
  claims = ("job", record { claim_id = "u1"; expires_at = 15 }) ∷ [];
  scratchpad = [];
}

claim_trigger_granted_example :
    is_some (claim_trigger (clock_at 9) "u2" held "job" 10).1
    ≡ not (any (claimed "job" 9) held.claims)
claim_trigger_granted_example = claim_trigger_granted (clock_at 9) "u2" held "job" 10

abbrev requests : List (Clock × Request sample)
requests =
    (clock_at 6, Request.claim "u2" "other" 10)
    ∷ (clock_at 7, Request.release "u2")
    ∷ (clock_at 8, Request.set_value "ns" "k" "v" 3)
    ∷ []

claim_excludes_example :
    (claim_trigger
      (clock_at 14)
      "u3"
      (perform_all (claim_trigger (clock_at 5) "u1" no_claims "job" 10).0 requests)
      "job"
      10).1
    ≡ none
unfolding claim_trigger prune_expired get
claim_excludes_example =
    claim_excludes (clock_at 5) "u1" no_claims "job" 10 refl requests refl (clock_at 14)
      (omega arith) "u3" 10
