-- ===== src/Coordination.antt =====
-- rain-engine-core/src/coordination.rs: `InMemoryCoordinationStore`. An `Instant` is a number of
-- nanoseconds. An operation reads the monotonic clock once to prune, and again when it sets an
-- expiry; the clock on the wall and the fresh identifier are arguments as well.
pub mod Held
pub mod Exclusion
use rain_engine.Prelude.{
  ℕ, ◌+◌, String, Bool, true, false, ◌&&◌, Option, none, some, List, [], ◌∷◌, retain, str_eq, ltb,
  if◌then◌else◌,
}
use rain_engine.Prelude.Assoc
use rain_engine.Prelude.Assoc.{Assoc}
use rain_engine.Host.{Host}
use rain_engine.Types.Ids.{SystemTime}

pub record CoordinationClaim : Type 0 where
  pub claim_id : String
  pub trigger_key : String
  pub expires_at : SystemTime

pub record InMemoryClaim : Type 0 where
  pub claim_id : String
  pub expires_at : ℕ

pub record InMemoryScratchpadValue (h : Host) : Type 0 where
  pub value : h.Value
  pub expires_at : ℕ

pub record InMemoryCoordinationStore (h : Host) : Type 0 where
  pub claims : Assoc InMemoryClaim
  pub scratchpad : List ((String × String) × InMemoryScratchpadValue h)

-- The readings of the clocks in one operation: when it prunes, when it sets an expiry, and the
-- time on the wall.
pub record Clock : Type 0 where
  pub pruned_at : ℕ
  pub set_at : ℕ
  pub wall : SystemTime

-- `contains_key`
abbrev pub is_some {ℓ} : {A : Type ℓ} → Option A → Bool
is_some none = false
is_some (some a) = true

-- `claim.expires_at > now`
unfoldable pub live : ℕ → String × InMemoryClaim → Bool
live now (key, claim) = ltb now claim.expires_at

unfoldable pub live_value : {h : Host} → ℕ → (String × String) × InMemoryScratchpadValue h → Bool
live_value now (key, entry) = ltb now entry.expires_at

abbrev pub same_place : String × String → String × String → Bool
same_place a b = str_eq a.0 b.0 && str_eq a.1 b.1

-- What was found in the claims behind this one.
abbrev pub behind :
    String × InMemoryClaim
    → Option (String × Assoc InMemoryClaim)
    → Option (String × Assoc InMemoryClaim)
behind entry none = none
behind entry (some found) = some (found.0, entry ∷ found.1)

-- The first claim of this identifier with another expiry, and the key it stands under.
unfoldable pub renew_in : String → ℕ → Assoc InMemoryClaim → Option (String × Assoc InMemoryClaim)
renew_in id expires_at [] = none
renew_in id expires_at ((key, claim) ∷ claims) =
    let rest = renew_in id expires_at claims in
    if str_eq claim.claim_id id
    then some (key, (key, record claim { expires_at = expires_at }) ∷ claims)
    else behind (key, claim) rest

-- The key under which the first claim of this identifier stands.
unfoldable pub key_of_claim : String → Assoc InMemoryClaim → Option String
key_of_claim id [] = none
key_of_claim id ((key, claim) ∷ claims) =
    let rest = key_of_claim id claims in if str_eq claim.claim_id id then some key else rest

module _ {h : Host} where
  unfoldable pub prune_expired : ℕ → InMemoryCoordinationStore h → InMemoryCoordinationStore h
  unfolding live live_value
  prune_expired now s = record {
    claims = retain (live now) s.claims;
    scratchpad = retain (live_value now) s.scratchpad;
  }

  -- `claim_id` is the fresh identifier.
  unfoldable pub claim_trigger :
      Clock
      → String
      → InMemoryCoordinationStore h
      → String
      → ℕ
      → InMemoryCoordinationStore h × Option CoordinationClaim
  unfolding prune_expired
  claim_trigger clock claim_id s trigger_key ttl =
      let pruned = prune_expired clock.pruned_at s in
      if is_some (Assoc.get trigger_key pruned.claims) then (pruned, none) else (
        record pruned {
          claims =
              Assoc.insert trigger_key
                (record { claim_id = claim_id; expires_at = clock.set_at + ttl }) pruned.claims;
        },
        some (record {
          claim_id = claim_id;
          trigger_key = trigger_key;
          expires_at = clock.wall + ttl;
        }),
      )

  abbrev pub renewal :
      Clock
      → String
      → ℕ
      → InMemoryCoordinationStore h
      → Option (String × Assoc InMemoryClaim)
      → InMemoryCoordinationStore h × Option CoordinationClaim
  renewal clock claim_id ttl pruned none = (pruned, none)
  renewal clock claim_id ttl pruned (some found) = (
    record pruned { claims = found.1 },
    some (record { claim_id = claim_id; trigger_key = found.0; expires_at = clock.wall + ttl }),
  )

  unfoldable pub renew_claim :
      Clock
      → InMemoryCoordinationStore h
      → String
      → ℕ
      → InMemoryCoordinationStore h × Option CoordinationClaim
  unfolding prune_expired renew_in
  renew_claim clock s claim_id ttl =
      let pruned = prune_expired clock.pruned_at s in
      renewal clock claim_id ttl pruned (renew_in claim_id (clock.set_at + ttl) pruned.claims)

  abbrev pub without_claim :
      InMemoryCoordinationStore h → Option String → InMemoryCoordinationStore h
  without_claim s none = s
  without_claim s (some key) = record s { claims = Assoc.remove key s.claims }

  unfoldable pub release_claim :
      Clock → InMemoryCoordinationStore h → String → InMemoryCoordinationStore h
  unfolding prune_expired key_of_claim
  release_claim clock s claim_id =
      let pruned = prune_expired clock.pruned_at s in
      without_claim pruned (key_of_claim claim_id pruned.claims)

  unfoldable pub value_at :
      String × String → List ((String × String) × InMemoryScratchpadValue h) → Option h.Value
  value_at place [] = none
  value_at place ((at, entry) ∷ entries) =
      let rest = value_at place entries in if same_place at place then some entry.value else rest

  unfoldable pub put_at :
      String × String
      → InMemoryScratchpadValue h
      → List ((String × String) × InMemoryScratchpadValue h)
      → List ((String × String) × InMemoryScratchpadValue h)
  put_at place entry [] = (place, entry) ∷ []
  put_at place entry ((at, old) ∷ entries) =
      let rest = put_at place entry entries in
      if same_place at place then (place, entry) ∷ entries else (at, old) ∷ rest

  unfoldable pub scratchpad_get :
      Clock
      → InMemoryCoordinationStore h
      → String
      → String
      → InMemoryCoordinationStore h × Option h.Value
  unfolding prune_expired value_at
  scratchpad_get clock s namespace key =
      let pruned = prune_expired clock.pruned_at s in
      (pruned, value_at (namespace, key) pruned.scratchpad)

  unfoldable pub scratchpad_set :
      Clock
      → InMemoryCoordinationStore h
      → String
      → String
      → h.Value
      → ℕ
      → InMemoryCoordinationStore h
  unfolding prune_expired put_at
  scratchpad_set clock s namespace key value ttl =
      let pruned = prune_expired clock.pruned_at s in
      record pruned {
        scratchpad =
            put_at (namespace, key) (record { value = value; expires_at = clock.set_at + ttl })
              pruned.scratchpad;
      }
