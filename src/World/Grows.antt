-- ===== src/World/Grows.antt =====
-- What code keeps of the memory store, one rule for each way to build code; and that it only appends
-- to one session.
use mathlib.Core.List.{append-nil, append_assoc}
use rain_engine.Prelude.{
  ℕ, ◌≡◌, ◌∙◌, refl, sym, inl, inr, String, Bool, true, false, Option, none, some, List, [], ◌∷◌,
  ◌++◌, str_eq, eq_refl, if◌then◌else◌, any, ◌⊎◌,
}
use rain_engine.Host.{Host}
use rain_engine.Types.Tools.{ToolResultRecord, Result, ok, err}
use rain_engine.World.Returns.{Returns, Returns-ask}
use rain_engine.Types.Records.{SessionRecord}
use rain_engine.Ledger.Record.{new_record}
use rain_engine.Store.{InMemoryMemoryStore, append_record, load_session}
use rain_engine.Store.Sessions.{load-append}
use rain_engine.World.{World, Outside, EngineError}
use rain_engine.World.Exec.{
  Exec, pure, caught, ignored, ask, asks_world, ◌>>=◌, each, on_memory, append, read_memory, now,
  instant_now, new_uuid, resume, on_memory_from, when, when_some,
}

-- Every task that is spawned is joined: a result with some property is among those that are joined.
pub record JoinsAll {h : Host} (outside : Outside h) : Type 0 where
  pub joins :
      (n : ℕ) (results : List (ToolResultRecord h)) (test : ToolResultRecord h → Bool)
      → any test results ≡ true
      → any test (outside.joined n results) ≡ true

-- The error is one that the memory store failed with.
pub record IsStoreError {h : Host} (outside : Outside h) (e : EngineError) : Type 0 where
  pub call : ℕ
  pub message : String
  pub failed : outside.memory_fails call ≡ some message
  pub same : e ≡ EngineError.memory message

-- Where every spawned task is joined, code fails with an error of the store only.
abbrev pub Fails : {h : Host} → Outside h → EngineError → Type 0
Fails outside e = JoinsAll outside → IsStoreError outside e

-- `m` keeps `Q` of the memory store, whether it returns or fails, and fails only with `F`.
pub record Keeps {h : Host} {A : Type 0} (Q : InMemoryMemoryStore h → Type 0)
    (F : EngineError → Type 0) (m : Exec h A) : Type 0 where
  pub at : (w : World h) → Q w.memory → Q (m w).1.memory
  pub fails : (w : World h) (e : EngineError) → (m w).0 ≡ err e → F e

module _ {h : Host} {A : Type 0} {Q : InMemoryMemoryStore h → Type 0}
    {F : EngineError → Type 0} where
  pub Keeps-pure : (a : A) → Keeps Q F (pure a)
  unfolding pure
  Keeps-pure a = record { at = λ w q. q; fails = λ w e x. cc }

  pub Keeps-ask : (answer : ℕ → A) → Keeps Q F (ask answer)
  unfolding ask
  Keeps-ask answer = record { at = λ w q. q; fails = λ w e x. cc }

  pub Keeps-asks_world : (f : World h → A) → Keeps Q F (asks_world f)
  unfolding asks_world
  Keeps-asks_world f = record { at = λ w q. q; fails = λ w e x. cc }

  pub Keeps-caught : (m : Exec h A) → Keeps Q F m → Keeps Q F (caught m)
  unfolding caught
  Keeps-caught m k = record { at = λ w q. k.at w q; fails = λ w e x. cc }

  pub Keeps-ignored : (m : Exec h A) → Keeps Q F m → Keeps Q F (ignored m)
  unfolding ignored
  Keeps-ignored m k = record { at = λ w q. k.at w q; fails = λ w e x. cc }

  pub Keeps-if :
      (b : Bool) (m n : Exec h A) → Keeps Q F m → Keeps Q F n → Keeps Q F (if b then m else n)
  Keeps-if true m n km kn = km
  Keeps-if false m n km kn = kn

module _ {h : Host} {Q : InMemoryMemoryStore h → Type 0} {F : EngineError → Type 0} where
  pub Keeps-when : (b : Bool) (m : Exec h Unit) → Keeps Q F m → Keeps Q F (when b m)
  Keeps-when true m k = k
  Keeps-when false m k = Keeps-pure tt

module _ {h : Host} {A : Type 0} {Q : InMemoryMemoryStore h → Type 0}
    {F : EngineError → Type 0} where
  pub Keeps-when_some :
      (a : Option A) (body : A → Exec h Unit)
      → ((x : A) → Keeps Q F (body x))
      → Keeps Q F (when_some a body)
  Keeps-when_some none body k = Keeps-pure tt
  Keeps-when_some (some a) body k = k a

module _ {h : Host} {A B : Type 0} {Q : InMemoryMemoryStore h → Type 0}
    {F : EngineError → Type 0} where
  pub Keeps-elim :
      (r : Result A EngineError) (m : A → Exec h B) (n : EngineError → Exec h B)
      → ((a : A) → Keeps Q F (m a))
      → ((e : EngineError) → Keeps Q F (n e))
      → Keeps Q F (elim r [ ok a ↦ m a | err e ↦ n e ])
  Keeps-elim (ok a) m n km kn = km a
  Keeps-elim (err e) m n km kn = kn e

  Keeps-resume :
      (r : Result A EngineError) (f : A → Exec h B) (w : World h)
      → ((a : A) → r ≡ ok a → Keeps Q F (f a))
      → Q w.memory
      → Q (resume r f w).1.memory
  Keeps-resume (ok a) f w kf q = (kf a refl).at w q
  Keeps-resume (err e) f w kf q = q

  fails-resume :
      (r : Result A EngineError) (f : A → Exec h B) (w : World h)
      → ((a : A) → r ≡ ok a → Keeps Q F (f a))
      → ((e : EngineError) → r ≡ err e → F e)
      → (e : EngineError) → (resume r f w).0 ≡ err e
      → F e
  fails-resume (ok a) f w kf k e x = (kf a refl).fails w e x
  fails-resume (err d) f w kf k e x = let same : d ≡ e = cc in rw same at (k d refl)

  -- The rest of the block may use what holds of what `m` returns.
  pub Keeps-bind_returned :
      {P : A → Type 0} (m : Exec h A) (f : A → Exec h B)
      → Keeps Q F m
      → Returns P m
      → ((a : A) → P a → Keeps Q F (f a))
      → Keeps Q F (m >>= f)
  unfolding ◌>>=◌
  Keeps-bind_returned m f km returned kf = record {
    at = λ w q. Keeps-resume (m w).0 f (m w).1 (λ a x. kf a (returned.at w a x)) (km.at w q);
    fails =
        λ w e x. fails-resume (m w).0 f (m w).1 (λ a y. kf a (returned.at w a y)) (km.fails w) e x;
  }

  pub Keeps-bind :
      (m : Exec h A) (f : A → Exec h B)
      → Keeps Q F m
      → ((a : A) → Keeps Q F (f a))
      → Keeps Q F (m >>= f)
  Keeps-bind m f km kf =
      Keeps-bind_returned {P = λ a. Unit} m f km (record { at = λ w a x. tt }) (λ a u. kf a)

module _ {h : Host} {A : Type 0} {Q : InMemoryMemoryStore h → Type 0}
    {F : EngineError → Type 0} where
  pub Keeps-each :
      (body : A → Exec h Unit) (xs : List A)
      → ((x : A) → Keeps Q F (body x))
      → Keeps Q F (each body xs)
  unfolding each
  Keeps-each body [] k = Keeps-pure tt
  Keeps-each body (x ∷ xs) k = Keeps-bind (body x) _ (k x) (λ u. Keeps-each body xs k)

module _ {h : Host} {A : Type 0} {Q : InMemoryMemoryStore h → Type 0} (outside : Outside h) where
  Keeps-on_memory_from :
      (call : ℕ) (failed : Option String) (f : InMemoryMemoryStore h → InMemoryMemoryStore h × A)
      → outside.memory_fails call ≡ failed
      → ((s : InMemoryMemoryStore h) → Q s → Q (f s).0)
      → Keeps Q (Fails outside) (on_memory_from outside failed f)
  Keeps-on_memory_from call none f t k = record { at = λ w q. k w.memory q; fails = λ w e x. cc }
  Keeps-on_memory_from call (some message) f t k = record {
    at = λ w q. q;
    fails = λ w e x all. record { call = call; message = message; failed = t; same = cc };
  }

  pub Keeps-on_memory :
      (f : InMemoryMemoryStore h → InMemoryMemoryStore h × A)
      → ((s : InMemoryMemoryStore h) → Q s → Q (f s).0)
      → Keeps Q (Fails outside) (on_memory outside f)
  unfolding on_memory
  Keeps-on_memory f k =
      Keeps-bind_returned {P = λ failed. (call : ℕ) × (outside.memory_fails call ≡ failed)}
        (ask outside.memory_fails) _ (Keeps-ask outside.memory_fails)
        (Returns-ask outside.memory_fails (λ n. (n, refl)))
        (λ failed p. Keeps-on_memory_from p.0 failed f p.1 k)

  pub Keeps-read_memory :
      (f : InMemoryMemoryStore h → A) → Keeps Q (Fails outside) (read_memory outside f)
  unfolding read_memory
  Keeps-read_memory f = Keeps-on_memory (λ s. (s, f s)) (λ s q. q)

module _ {h : Host} {Q : InMemoryMemoryStore h → Type 0} {F : EngineError → Type 0}
    (outside : Outside h) where
  pub Keeps-now : Keeps Q F (now outside)
  unfolding now
  Keeps-now = Keeps-ask outside.now

  pub Keeps-instant_now : Keeps Q F (instant_now outside)
  unfolding instant_now
  Keeps-instant_now = Keeps-ask outside.instant

  pub Keeps-new_uuid : Keeps Q F (new_uuid outside)
  unfolding new_uuid
  Keeps-new_uuid = Keeps-ask outside.uuid

-- Every spawned task is joined, and no call of the store fails.
pub record IsHealthy {h : Host} (outside : Outside h) : Type 0 where
  pub all_joined : JoinsAll outside
  pub works : (call : ℕ) → outside.memory_fails call ≡ none

Result-cases : {A E : Type 0} → (r : Result A E) → ((a : A) × (r ≡ ok a)) ⊎ ((e : E) × (r ≡ err e))
Result-cases (ok a) = inl (a, refl)
Result-cases (err e) = inr (e, refl)

module _ {h : Host} {A : Type 0} {Q : InMemoryMemoryStore h → Type 0} where
  -- In a healthy outside it returns.
  pub Keeps-IsHealthy :
      (outside : Outside h) (m : Exec h A)
      → Keeps Q (Fails outside) m
      → IsHealthy outside
      → (w : World h) → (a : A) × ((m w).0 ≡ ok a)
  Keeps-IsHealthy outside m k healthy w = elim (Result-cases (m w).0) [
    | inl r ↦ r
    | inr (x, e) ↦
        let failed : IsStoreError outside x = k.fails w x e healthy.all_joined in
        let never : outside.memory_fails failed.call ≡ none = healthy.works failed.call in
        cc (failed.failed)
  ]

-- The store is the older one with records appended to one session; the other sessions are as they
-- were.
pub record Extends {h : Host} (id : String) (s0 s : InMemoryMemoryStore h) : Type 0 where
  pub added : List (SessionRecord h)
  pub grown : (load_session s id).records ≡ (load_session s0 id).records ++ added
  pub others :
      (other : String)
      → str_eq id other ≡ false
      → (load_session s other).records ≡ (load_session s0 other).records

module _ {h : Host} where
  pub Extends-refl : (id : String) (s : InMemoryMemoryStore h) → Extends id s s
  Extends-refl id s = record { added = []; grown = sym (append-nil _); others = λ other n. refl }

  Extends-append_record :
      (id : String) (s0 s : InMemoryMemoryStore h) (r : SessionRecord h)
      → Extends id s0 s
      → Extends id s0 (append_record s (new_record id r)).0
  Extends-append_record id s0 s r e = record {
    added = e.added ++ r ∷ [];
    grown =
        load-append s id r id
        ∙ rw (eq_refl id, e.grown) (append_assoc (load_session s0 id).records e.added (r ∷ []));
    others = λ other n. load-append s id r other ∙ rw (n) (e.others other n);
  }

  pub Keeps-append :
      (outside : Outside h) (id : String) (s0 : InMemoryMemoryStore h) (r : SessionRecord h)
      → Keeps (Extends id s0) (Fails outside) (append outside (new_record id r))
  unfolding append
  Keeps-append outside id s0 r =
      Keeps-on_memory outside _ (λ s e. Extends-append_record id s0 s r e)

pub ruleset keeps_rules = (
  Keeps-pure, Keeps-ask, Keeps-asks_world, Keeps-caught, Keeps-ignored, Keeps-if, Keeps-bind,
  Keeps-each, Keeps-when, Keeps-when_some, Keeps-read_memory, Keeps-now, Keeps-instant_now,
  Keeps-new_uuid, Keeps-append,
)
