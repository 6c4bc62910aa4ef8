-- ===== src/Ledger/Window/Steps.antt =====
-- How one appended record moves the window behind the last outcome, the active trigger and the
-- step count.
use rain_engine.Prelude.{
  ℕ, zero, suc, ◌+◌, ◌≤◌, ◌<◌, ◌≡◌, refl, Bool, true, false, Option, none, some, List, [], ◌∷◌,
  ◌++◌, length, drop, find_map-append, retain, or_else, if◌then◌else◌, arith, inl, inr, Bool-cases,
}
use rain_engine.Host.{Host}
use rain_engine.Types.Records.{SessionRecord}
use rain_engine.Ledger.Window.{
  rposition, slice_from, is_outcome, window, as_trigger, active_trigger, is_step,
  current_step_count,
}

-- An index, if there is one, lies below a bound.
abbrev Below : Option ℕ → ℕ → Type 0
Below none n = Unit
Below (some i) n = i < n

module _ {ℓ} {A : Type ℓ} where
  rposition-Below : (p : A → Bool) (xs : List A) → Below (rposition p xs) (length xs)
  rposition-Below p [] = tt
  rposition-Below p (x ∷ xs) = step (rposition p xs) (p x) (rposition-Below p xs)
    where
      step :
          (o : Option ℕ) (b : Bool)
          → Below o (length xs)
          → Below
              (elim o [ some i ↦ some (suc i) | none ↦ if b then some 0 else none ])
              (suc (length xs))
      step none true h = omega arith
      step none false h = tt
      step (some i) b h = omega arith

  rposition-append :
      (p : A → Bool) (xs : List A) (x : A)
      → rposition p (xs ++ x ∷ []) ≡ (if p x then some (length xs) else rposition p xs)
  rposition-append p [] x = refl
  rposition-append p (y ∷ xs) x = ground (arith, rposition-append p xs x)

  drop-append : (n : ℕ) (xs ys : List A) → n ≤ length xs → drop n (xs ++ ys) ≡ drop n xs ++ ys
  drop-append zero xs ys h = refl
  drop-append (suc n) [] ys h = absurd (omega arith)
  drop-append (suc n) (x ∷ xs) ys h = drop-append n xs ys (omega arith)

  drop-length : (xs : List A) (x : A) → drop (suc (length xs)) (xs ++ x ∷ []) ≡ []
  drop-length [] x = refl
  drop-length (y ∷ xs) x = drop-length xs x

module _ {h : Host} where
  slice_from-append :
      (o : Option ℕ) (rs : List (SessionRecord h)) (r : SessionRecord h)
      → Below o (length rs)
      → slice_from o (rs ++ r ∷ []) ≡ slice_from o rs ++ r ∷ []
  slice_from-append none rs r b = refl
  slice_from-append (some i) rs r b = drop-append (suc i) rs (r ∷ []) b

  -- One more record: an outcome empties the window, any other record joins it.
  pub window-append :
      (rs : List (SessionRecord h)) (r : SessionRecord h)
      → window (rs ++ r ∷ []) ≡ (if is_outcome r then [] else window rs ++ r ∷ [])
  unfolding window
  window-append rs r = elim (Bool-cases (is_outcome r)) [
    | inl e ↦ rw (rposition-append, e) (drop-length rs r)
    | inr e ↦
        rw (rposition-append, e)
          (slice_from-append (rposition is_outcome rs) rs r (rposition-Below is_outcome rs))
  ]

  retain-append :
      (p : SessionRecord h → Bool) (xs : List (SessionRecord h)) (r : SessionRecord h)
      → length (retain p (xs ++ r ∷ [])) ≡ (if p r then 1 else 0) + length (retain p xs)
  retain-append p [] r = ground arith
  retain-append p (x ∷ xs) r = ground (arith, retain-append p xs r)

  -- The step count after one more record: an outcome resets it, a model decision or a deliberation
  -- raises it by one, and any other record leaves it.
  pub current_step_count-append :
      (rs : List (SessionRecord h)) (r : SessionRecord h)
      → current_step_count (rs ++ r ∷ []) ≡ (
          if is_outcome r
          then 0
          else if is_step r
          then suc (current_step_count rs)
          else current_step_count rs)
  unfolding current_step_count
  current_step_count-append rs r = elim (Bool-cases (is_outcome r)) [
    | inl e ↦ rw (window-append, e)
    | inr e ↦ rw (window-append, e) (ground (arith, retain-append is_step (window rs) r))
  ]

  -- The active trigger after one more record: an outcome ends it; otherwise the trigger that was
  -- active stays, and a trigger becomes active only where none was.
  pub active_trigger-append :
      (rs : List (SessionRecord h)) (r : SessionRecord h)
      → active_trigger (rs ++ r ∷ [])
        ≡ (if is_outcome r then none else or_else (active_trigger rs) (as_trigger r))
  unfolding active_trigger
  active_trigger-append rs r = elim (Bool-cases (is_outcome r)) [
    | inl e ↦ rw (window-append, e)
    | inr e ↦ rw (window-append, e) (find_map-append as_trigger (window rs) r)
  ]
