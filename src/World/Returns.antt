-- ===== src/World/Returns.antt =====
-- What code returns where it does not fail, one rule for each way to build code.
use rain_engine.Prelude.{ℕ, ◌≡◌, refl, Bool, true, false, if◌then◌else◌}
use rain_engine.Host.{Host}
use rain_engine.Types.Tools.{Result, ok, err}
use rain_engine.World.{World, EngineError}
use rain_engine.World.Exec.{Exec, pure, raise, ask, ◌>>=◌, resume}

-- Whatever world `m` starts in, `P` holds of what it returns.
pub record Returns {h : Host} {A : Type 0} (P : A → Type 0) (m : Exec h A) : Type 0 where
  pub at : (w : World h) (a : A) → (m w).0 ≡ ok a → P a

module _ {A : Type 0} where
  held : (P : A → Type 0) (r : Result A EngineError) (a b : A) → P a → r ≡ ok a → r ≡ ok b → P b
  held P r a b p e e' = let same : a ≡ b = cc in rw same at p

module _ {h : Host} {A : Type 0} {P : A → Type 0} where
  pub Returns-pure : (a : A) → P a → Returns {h = h} P (pure a)
  unfolding pure
  Returns-pure a p = record { at = λ w b e. held P _ a b p refl e }

  pub Returns-raise : (e : EngineError) → Returns {h = h} P (raise e)
  unfolding raise
  Returns-raise e = record { at = λ w b failed. cc }

  pub Returns-ask : (answer : ℕ → A) → ((n : ℕ) → P (answer n)) → Returns {h = h} P (ask answer)
  unfolding ask
  Returns-ask answer k = record { at = λ w b e. held P _ (answer w.calls) b (k w.calls) refl e }

  pub Returns-imp :
      {Q : A → Type 0} (m : Exec h A) → Returns Q m → ((a : A) → Q a → P a) → Returns P m
  Returns-imp m k imp = record { at = λ w a e. imp a (k.at w a e) }

  pub Returns-if :
      (b : Bool) (m n : Exec h A)
      → (b ≡ true → Returns P m)
      → (b ≡ false → Returns P n)
      → Returns P (if b then m else n)
  Returns-if true m n km kn = km refl
  Returns-if false m n km kn = kn refl

module _ {h : Host} {A B : Type 0} {P : A → Type 0} {Q : B → Type 0} where
  Returns-resume :
      (r : Result A EngineError) (f : A → Exec h B) (w : World h)
      → ((a : A) → r ≡ ok a → P a)
      → ((a : A) → P a → Returns Q (f a))
      → (b : B) → (resume r f w).0 ≡ ok b
      → Q b
  Returns-resume (ok a) f w p kf b e = (kf a (p a refl)).at w b e
  Returns-resume (err x) f w p kf b e = cc

  pub Returns-bind :
      (m : Exec h A) (f : A → Exec h B)
      → Returns P m
      → ((a : A) → P a → Returns Q (f a))
      → Returns Q (m >>= f)
  unfolding ◌>>=◌
  Returns-bind m f km kf = record {
    at = λ w b e. Returns-resume (m w).0 f (m w).1 (km.at w) kf b e;
  }

module _ {h : Host} {A B : Type 0} {Q : B → Type 0} where
  -- What the first part returns is not known.
  pub Returns-after :
      (m : Exec h A) (f : A → Exec h B) → ((a : A) → Returns Q (f a)) → Returns Q (m >>= f)
  Returns-after m f kf =
      Returns-bind {P = λ a. Unit} m f (record { at = λ w a e. tt }) (λ a u. kf a)
