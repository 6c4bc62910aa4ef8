-- ===== src/World/Exec.antt =====
-- Code that reads the outside, changes the world and may fail with an `EngineError`. What was written
-- before a failure stays written. A call of the memory store either fails and changes nothing or does
-- what the in-memory store does.
use rain_engine.Prelude.{ℕ, suc, String, Bool, true, false, Option, none, some, List, [], ◌∷◌}
use rain_engine.Host.{Host}
use rain_engine.Types.Ids.{SystemTime, Instant}
use rain_engine.Types.Tools.{Result, ok, err}
use rain_engine.Types.Records.{NewSessionRecord}
use rain_engine.Store.{InMemoryMemoryStore, append_record}
use rain_engine.World.{World, Outside, EngineError}

module _ (h : Host) where
  abbrev pub Exec : Type 0 → Type 0
  Exec A = World h → Result A EngineError × World h

module _ {h : Host} {A : Type 0} where
  unfoldable pub pure : A → Exec h A
  pure a w = (ok a, w)

  unfoldable pub raise : EngineError → Exec h A
  raise e w = (err e, w)

  -- The error as a value.
  unfoldable pub caught : Exec h A → Exec h (Result A EngineError)
  caught m w = let (r, w') = m w in (ok r, w')

  -- `let _ = m`
  unfoldable pub ignored : Exec h A → Exec h Unit
  ignored m w = let (r, w') = m w in (ok tt, w')

  -- The answer to a call to the outside.
  unfoldable pub ask : (ℕ → A) → Exec h A
  ask answer w = (ok (answer w.calls), record w { calls = suc w.calls })

  unfoldable pub asks_world : (World h → A) → Exec h A
  asks_world f w = (ok (f w), w)

module _ {h : Host} {A B : Type 0} where
  abbrev pub resume : Result A EngineError → (A → Exec h B) → Exec h B
  resume (ok a) f w = f a w
  resume (err e) f w = (err e, w)

  infixl 10 ◌>>=◌ ◌>>◌
  unfoldable pub ◌>>=◌ : Exec h A → (A → Exec h B) → Exec h B
  ◌>>=◌ m f w = let (r, w') = m w in resume r f w'

  abbrev pub ◌>>◌ : Exec h A → Exec h B → Exec h B
  m >> n = m >>= λ _. n

module _ {h : Host} {A : Type 0} where
  -- `for x in xs { body }`
  unfoldable pub each : (A → Exec h Unit) → List A → Exec h Unit
  unfolding pure ◌>>=◌
  each body [] = pure tt
  each body (x ∷ xs) = body x >> each body xs

  abbrev pub when_some : Option A → (A → Exec h Unit) → Exec h Unit
  when_some none body = pure tt
  when_some (some a) body = body a

abbrev pub when : {h : Host} → Bool → Exec h Unit → Exec h Unit
when true m = m
when false m = pure tt

module _ {h : Host} (outside : Outside h) where
  unfoldable pub now : Exec h SystemTime
  unfolding ask
  now = ask outside.now

  unfoldable pub instant_now : Exec h Instant
  unfolding ask
  instant_now = ask outside.instant

  unfoldable pub new_uuid : Exec h String
  unfolding ask
  new_uuid = ask outside.uuid

  -- A call of the memory store.
  abbrev pub on_memory_from :
      {A : Type 0} → Option String → (InMemoryMemoryStore h → InMemoryMemoryStore h × A) → Exec h A
  on_memory_from (some message) f w = (err (EngineError.memory message), w)
  on_memory_from none f w = let (s, a) = f w.memory in (ok a, record w { memory = s })

  unfoldable pub on_memory :
      {A : Type 0} → (InMemoryMemoryStore h → InMemoryMemoryStore h × A) → Exec h A
  unfolding ask ◌>>=◌
  on_memory f = do fails ← ask outside.memory_fails; on_memory_from fails f

  -- `append_record`
  unfoldable pub append : NewSessionRecord h → Exec h Unit
  unfolding on_memory append_record
  append r = on_memory λ s. ((append_record s r).0, tt)

  -- A read of the memory store.
  unfoldable pub read_memory : {A : Type 0} → (InMemoryMemoryStore h → A) → Exec h A
  unfolding on_memory
  read_memory f = on_memory λ s. (s, f s)
