-- ===== src/Coordination/Exclusion.antt =====
-- A claim of a trigger excludes every other claim of it until it expires.
use rain_engine.Prelude.{
  ℕ, ◌+◌, ◌≡◌, ◌<◌, ◌∙◌, refl, sym, inl, inr, String, Bool, true, false, ◌&&◌, not, none, List, [],
  ◌∷◌, all, any, retain, str_eq, eq_refl, ltb, arith, Bool-cases,
}
use rain_engine.Prelude.Assoc
use rain_engine.Prelude.Assoc.{Assoc, get-insert, get}
use rain_engine.Host.{Host}
use rain_engine.Coordination.{
  InMemoryCoordinationStore, InMemoryClaim, Clock, claim_trigger, renew_claim, release_claim,
  scratchpad_get, scratchpad_set, prune_expired, renew_in, key_of_claim, live, is_some,
}
use rain_engine.Coordination.Held.{
  Held, Held-retain, Held-insert, other_key, all-insert, all_unclaimed, all-renewed, get-renewed,
  key_of_other, Held-renewal, Held-without,
}

-- What clients ask of the store.
pub data Request (h : Host) : Type 0 where
  -- the fresh identifier, the trigger's key and the time to live
  claim : String → String → ℕ → Request h
  -- the claim and the time to live
  renew : String → ℕ → Request h
  release : String → Request h
  -- the namespace and the key
  get_value : String → String → Request h
  set_value : String → String → h.Value → ℕ → Request h

-- The request renews or releases this claim.
abbrev pub names_claim : {h : Host} → String → Request h → Bool
names_claim id (Request.renew other ttl) = str_eq id other
names_claim id (Request.release other) = str_eq id other
names_claim id _ = false

-- The request comes before `e`, and neither renews nor releases this claim.
abbrev pub spares : {h : Host} → String → ℕ → Clock × Request h → Bool
spares id e (clock, request) = ltb clock.pruned_at e && not (names_claim id request)

module _ {h : Host} where
  unfoldable pub perform :
      InMemoryCoordinationStore h → Clock × Request h → InMemoryCoordinationStore h
  perform s (clock, Request.claim id key ttl) = (claim_trigger clock id s key ttl).0
  perform s (clock, Request.renew id ttl) = (renew_claim clock s id ttl).0
  perform s (clock, Request.release id) = release_claim clock s id
  perform s (clock, Request.get_value namespace key) = (scratchpad_get clock s namespace key).0
  perform s (clock, Request.set_value namespace key value ttl) =
      scratchpad_set clock s namespace key value ttl

  unfoldable pub perform_all :
      InMemoryCoordinationStore h → List (Clock × Request h) → InMemoryCoordinationStore h
  perform_all s [] = s
  perform_all s (r ∷ rs) = perform_all (perform s r) rs

  Held-claim :
      (k id : String) (e : ℕ) (s : InMemoryCoordinationStore h) (clock : Clock) (other key : String)
      (ttl : ℕ)
      → clock.pruned_at < e
      → Held k id e s.claims
      → Held k id e (claim_trigger clock other s key ttl).0.claims
  unfolding claim_trigger prune_expired
  Held-claim k id e s clock other key ttl b d =
      let pruned = Held-retain k id e clock.pruned_at s.claims b d in
      elim (Bool-cases (is_some (Assoc.get key (retain (live clock.pruned_at) s.claims)))) [
        | inl x ↦ rw (x) pruned
        | inr x ↦ rw (x) (Held-insert k id e key _ _ (other_key k key _ x pruned.held) pruned)
      ]

  Held-renew :
      (k id : String) (e : ℕ) (s : InMemoryCoordinationStore h) (clock : Clock) (other : String)
      (ttl : ℕ)
      → clock.pruned_at < e
      → str_eq id other ≡ false
      → Held k id e s.claims
      → Held k id e (renew_claim clock s other ttl).0.claims
  unfolding renew_claim prune_expired
  Held-renew k id e s clock other ttl b n d =
      let pruned = Held-retain k id e clock.pruned_at s.claims b d in
      Held-renewal k id e clock other ttl (prune_expired clock.pruned_at s)
        (renew_in other (clock.set_at + ttl) (retain (live clock.pruned_at) s.claims))
        (record {
          only = all-renewed k id e other (clock.set_at + ttl) _ n pruned.only;
          held = get-renewed k other (clock.set_at + ttl) _ ∙ pruned.held;
        })

  Held-release :
      (k id : String) (e : ℕ) (s : InMemoryCoordinationStore h) (clock : Clock) (other : String)
      → clock.pruned_at < e
      → str_eq id other ≡ false
      → Held k id e s.claims
      → Held k id e (release_claim clock s other).claims
  unfolding release_claim prune_expired
  Held-release k id e s clock other b n d =
      let pruned = Held-retain k id e clock.pruned_at s.claims b d in
      Held-without k id e (prune_expired clock.pruned_at s)
        (key_of_claim other (retain (live clock.pruned_at) s.claims)) pruned
        (λ key q. key_of_other k id e other _ key n pruned.only q)

  Held-perform :
      (k id : String) (e : ℕ) (s : InMemoryCoordinationStore h) (r : Clock × Request h)
      → spares id e r ≡ true
      → Held k id e s.claims
      → Held k id e (perform s r).claims
  unfolding perform scratchpad_get scratchpad_set prune_expired
  Held-perform k id e s (clock, Request.claim other key ttl) p d =
      Held-claim k id e s clock other key ttl (ground arith) d
  Held-perform k id e s (clock, Request.renew other ttl) p d =
      Held-renew k id e s clock other ttl (ground arith) (ground arith) d
  Held-perform k id e s (clock, Request.release other) p d =
      Held-release k id e s clock other (ground arith) (ground arith) d
  Held-perform k id e s (clock, Request.get_value namespace key) p d =
      Held-retain k id e clock.pruned_at s.claims (ground arith) d
  Held-perform k id e s (clock, Request.set_value namespace key value ttl) p d =
      Held-retain k id e clock.pruned_at s.claims (ground arith) d

  Held-perform_all :
      (k id : String) (e : ℕ) (s : InMemoryCoordinationStore h) (rs : List (Clock × Request h))
      → all (spares id e) rs ≡ true
      → Held k id e s.claims
      → Held k id e (perform_all s rs).claims
  unfolding perform_all
  Held-perform_all k id e s [] p d = d
  Held-perform_all k id e s (r ∷ rs) p d =
      Held-perform_all k id e (perform s r) rs (ground arith)
        (Held-perform k id e s r (ground arith) d)

-- Some live claim of the key.
abbrev pub claimed : String → ℕ → String × InMemoryClaim → Bool
claimed k now (j, c) = str_eq j k && ltb now c.expires_at

get-live :
    (k : String) (now : ℕ) (m : Assoc InMemoryClaim)
    → is_some (Assoc.get k (retain (live now) m)) ≡ any (claimed k now) m
unfolding get live
get-live k now [] = refl
get-live k now ((j, c) ∷ m) = ground (arith, get-live k now m)

module _ {h : Host} where
  -- A claim of a trigger is granted exactly when no claim of it is live.
  pub claim_trigger_granted :
      (clock : Clock) (id : String) (s : InMemoryCoordinationStore h) (k : String) (ttl : ℕ)
      → is_some (claim_trigger clock id s k ttl).1 ≡ not (any (claimed k clock.pruned_at) s.claims)
  unfolding claim_trigger prune_expired
  claim_trigger_granted clock id s k ttl =
      rw (sym (get-live k clock.pruned_at s.claims))
        (elim (Bool-cases (is_some (Assoc.get k (retain (live clock.pruned_at) s.claims)))) [
          | inl x ↦ rw (x) refl
          | inr x ↦ rw (x) refl
        ])

  Held-granted :
      (clock : Clock) (id : String) (s : InMemoryCoordinationStore h) (k : String) (ttl : ℕ)
      → is_some (claim_trigger clock id s k ttl).1 ≡ true
      → Held k id (clock.set_at + ttl) (claim_trigger clock id s k ttl).0.claims
  unfolding claim_trigger prune_expired
  Held-granted clock id s k ttl g =
      elim (Bool-cases (is_some (Assoc.get k (retain (live clock.pruned_at) s.claims)))) [
        | inl x ↦ absurd (ground (arith, g, x))
        | inr x ↦ rw (x) (record {
          only =
              all-insert k id (clock.set_at + ttl) k _ _ (rw (eq_refl k, eq_refl id) (ground arith))
                (all_unclaimed k id _ _ x);
          held = rw (get-insert k k _ _, eq_refl k) refl;
        })
      ]

  Held-refuses :
      (clock : Clock) (other : String) (s : InMemoryCoordinationStore h) (k : String) (ttl : ℕ)
      (id : String) (e : ℕ)
      → clock.pruned_at < e
      → Held k id e s.claims
      → (claim_trigger clock other s k ttl).1 ≡ none
  unfolding claim_trigger prune_expired
  Held-refuses clock other s k ttl id e b d =
      let pruned = Held-retain k id e clock.pruned_at s.claims b d in rw (pruned.held) refl

  -- After a claim of a trigger is granted, every other claim of it is refused before the granted one
  -- expires, whatever requests come in between, as long as they come before then and none of them
  -- renews or releases the granted claim.
  pub claim_excludes :
      (clock : Clock) (id : String) (s : InMemoryCoordinationStore h) (k : String) (ttl : ℕ)
      → is_some (claim_trigger clock id s k ttl).1 ≡ true
      → (between : List (Clock × Request h)) → all (spares id (clock.set_at + ttl)) between ≡ true
      → (later : Clock) → later.pruned_at < clock.set_at + ttl
      → (other : String) (ttl' : ℕ)
      → (claim_trigger later other
          (perform_all (claim_trigger clock id s k ttl).0 between)
          k
          ttl').1
        ≡ none
  claim_excludes clock id s k ttl g between p later b other ttl' =
      Held-refuses later other _ k ttl' id (clock.set_at + ttl) b
        (Held-perform_all k id (clock.set_at + ttl) _ between p (Held-granted clock id s k ttl g))
