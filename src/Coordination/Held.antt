-- ===== src/Coordination/Held.antt =====
-- The entry of a trigger's key in the claims, through each change the store makes to them.
use rain_engine.Prelude.{
  ℕ, ◌≡◌, ◌<◌, refl, inl, inr, String, Bool, true, false, ◌&&◌, ◌||◌, not, Option, none, some, List,
  [], ◌∷◌, all, retain, str_eq, eq_iff, leb, arith, Bool-cases, if◌then◌else◌,
}
use rain_engine.Prelude.Assoc
use rain_engine.Prelude.Assoc.{Assoc, get-insert, get-remove, get, insert, remove}
use rain_engine.Host.{Host}
use rain_engine.Coordination.{
  InMemoryCoordinationStore, InMemoryClaim, Clock, renew_in, key_of_claim, live, is_some, behind,
  renewal, without_claim,
}

-- An entry of another key, or one with this identifier that does not expire before `e`.
abbrev pub theirs : String → String → ℕ → String × InMemoryClaim → Bool
theirs k id e (j, c) = not (str_eq j k) || (str_eq c.claim_id id && leb e c.expires_at)

-- The key is held by the claim of this identifier until `e`.
pub record Held (k id : String) (e : ℕ) (m : Assoc InMemoryClaim) : Type 0 where
  pub only : all (theirs k id e) m ≡ true
  pub held : is_some (Assoc.get k m) ≡ true

all-retain {ℓ} :
    {A : Type ℓ} (t p : A → Bool) (xs : List A) → all t xs ≡ true → all t (retain p xs) ≡ true
all-retain t p [] a = refl
all-retain t p (x ∷ xs) a = ground (arith, all-retain t p xs)

get-retain :
    (k id : String) (e now : ℕ) (m : Assoc InMemoryClaim)
    → now < e
    → all (theirs k id e) m ≡ true
    → is_some (Assoc.get k m) ≡ true
    → is_some (Assoc.get k (retain (live now) m)) ≡ true
unfolding get live
get-retain k id e now [] b a g = g
get-retain k id e now ((j, c) ∷ m) b a g = ground (arith, get-retain k id e now m b)

pub Held-retain :
    (k id : String) (e now : ℕ) (m : Assoc InMemoryClaim)
    → now < e
    → Held k id e m
    → Held k id e (retain (live now) m)
Held-retain k id e now m b d = record {
  only = all-retain (theirs k id e) (live now) m d.only;
  held = get-retain k id e now m b d.only d.held;
}

pub all-insert :
    (k id : String) (e : ℕ) (j : String) (c : InMemoryClaim) (m : Assoc InMemoryClaim)
    → theirs k id e (j, c) ≡ true
    → all (theirs k id e) m ≡ true
    → all (theirs k id e) (Assoc.insert j c m) ≡ true
unfolding insert
all-insert k id e j c [] t a = ground arith
all-insert k id e j c ((i, d) ∷ m) t a = ground (arith, all-insert k id e j c m)

-- Where a key is not claimed, every entry is of another key.
pub all_unclaimed :
    (k id : String) (e : ℕ) (m : Assoc InMemoryClaim)
    → is_some (Assoc.get k m) ≡ false
    → all (theirs k id e) m ≡ true
unfolding get
all_unclaimed k id e [] n = refl
all_unclaimed k id e ((j, c) ∷ m) n = ground (arith, all_unclaimed k id e m)

all-remove {ℓ} :
    {V : Type ℓ} (t : String × V → Bool) (k : String) (m : Assoc V)
    → all t m ≡ true
    → all t (Assoc.remove k m) ≡ true
unfolding remove
all-remove t k [] a = refl
all-remove t k ((j, v) ∷ m) a = ground (arith, all-remove t k m)

-- The claims after a renewal.
abbrev pub renewed :
    Option (String × Assoc InMemoryClaim) → Assoc InMemoryClaim → Assoc InMemoryClaim
renewed none m = m
renewed (some found) m = found.1

renewed-behind :
    (entry : String × InMemoryClaim) (m : Assoc InMemoryClaim)
    (found : Option (String × Assoc InMemoryClaim))
    → renewed (behind entry found) (entry ∷ m) ≡ entry ∷ renewed found m
renewed-behind entry m none = refl
renewed-behind entry m (some found) = refl

renewed-cons :
    (other : String) (at : ℕ) (j : String) (c : InMemoryClaim) (m : Assoc InMemoryClaim)
    → renewed (renew_in other at ((j, c) ∷ m)) ((j, c) ∷ m) ≡ (
        if str_eq c.claim_id other
        then (j, record c { expires_at = at }) ∷ m
        else (j, c) ∷ renewed (renew_in other at m) m)
unfolding renew_in
renewed-cons other at j c m = elim (Bool-cases (str_eq c.claim_id other)) [
  | inl e ↦ rw (e) refl
  | inr e ↦ rw (e) (renewed-behind (j, c) m (renew_in other at m))
]

-- A renewal of another claim.
pub all-renewed :
    (k id : String) (e : ℕ) (other : String) (at : ℕ) (m : Assoc InMemoryClaim)
    → str_eq id other ≡ false
    → all (theirs k id e) m ≡ true
    → all (theirs k id e) (renewed (renew_in other at m) m) ≡ true
unfolding renew_in
all-renewed k id e other at [] n a = refl
all-renewed k id e other at ((j, c) ∷ m) n a =
    rw (renewed-cons other at j c m) (
      ground
        (arith, eq_iff c.claim_id id, eq_iff c.claim_id other, all-renewed k id e other at m n))

pub get-renewed :
    (k other : String) (at : ℕ) (m : Assoc InMemoryClaim)
    → is_some (Assoc.get k (renewed (renew_in other at m) m)) ≡ is_some (Assoc.get k m)
unfolding renew_in get
get-renewed k other at [] = refl
get-renewed k other at ((j, c) ∷ m) =
    rw (renewed-cons other at j c m) (ground (arith, get-renewed k other at m))

-- The key under which another claim stands is not the key that is held.
pub key_of_other :
    (k id : String) (e : ℕ) (other : String) (m : Assoc InMemoryClaim) (key : String)
    → str_eq id other ≡ false
    → all (theirs k id e) m ≡ true
    → key_of_claim other m ≡ some key
    → str_eq key k ≡ false
unfolding key_of_claim
key_of_other k id e other [] key n a q = ground arith
key_of_other k id e other ((j, c) ∷ m) key n a q =
    ground (arith, eq_iff c.claim_id id, eq_iff c.claim_id other, key_of_other k id e other m key n)

pub other_key :
    (k key : String) (m : Assoc InMemoryClaim)
    → is_some (Assoc.get key m) ≡ false
    → is_some (Assoc.get k m) ≡ true
    → str_eq key k ≡ false
other_key k key m x y = ground (arith, eq_iff key k)

pub Held-insert :
    (k id : String) (e : ℕ) (key : String) (c : InMemoryClaim) (m : Assoc InMemoryClaim)
    → str_eq key k ≡ false
    → Held k id e m
    → Held k id e (Assoc.insert key c m)
Held-insert k id e key c m n d = record {
  only = all-insert k id e key c m (rw (n) refl) d.only;
  held = rw (get-insert key k c m, n) d.held;
}

module _ {h : Host} where
  pub Held-renewal :
      (k id : String) (e : ℕ) (clock : Clock) (other : String) (ttl : ℕ)
      (s : InMemoryCoordinationStore h) (found : Option (String × Assoc InMemoryClaim))
      → Held k id e (renewed found s.claims)
      → Held k id e (renewal clock other ttl s found).0.claims
  Held-renewal k id e clock other ttl s none d = d
  Held-renewal k id e clock other ttl s (some found) d = d

  pub Held-without :
      (k id : String) (e : ℕ) (s : InMemoryCoordinationStore h) (found : Option String)
      → Held k id e s.claims
      → ((key : String) → found ≡ some key → str_eq key k ≡ false)
      → Held k id e (without_claim s found).claims
  Held-without k id e s none d n = d
  Held-without k id e s (some key) d n =
      let other = n key refl in
      record {
        only = all-remove (theirs k id e) key s.claims d.only;
        held = rw (get-remove key k s.claims, other) d.held;
      }
