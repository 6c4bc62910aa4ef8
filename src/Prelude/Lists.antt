-- ===== src/Prelude/Lists.antt =====
-- Lists measured by native numbers, and the iterator adaptors that the program uses.
use Prim.Native.Nat.{ℕ, zero, suc, ◌+◌, ◌-◌}
use mathlib.Core.Path.{◌≡◌, refl, ap}
use mathlib.Core.Bool.{Bool, true, false, ◌&&◌, ◌||◌}
use mathlib.Core.List.{List, [], ◌∷◌, ◌++◌}
use mathlib.Core.Option.{Option, none, some}
use native.Mathlib.Omega.{arith}
use mathlib.Core.Logic.{inl, inr}
use rain_engine.Prelude.Tests.{if◌then◌else◌, Option-cases}

module _ {ℓ} {A : Type ℓ} where
  abbrev pub length : List A → ℕ
  length [] = 0
  length (x ∷ xs) = suc (length xs)

  abbrev pub take : ℕ → List A → List A
  take zero xs = []
  take (suc n) [] = []
  take (suc n) (x ∷ xs) = x ∷ take n xs

  abbrev pub drop : ℕ → List A → List A
  drop zero xs = xs
  drop (suc n) [] = []
  drop (suc n) (x ∷ xs) = drop n xs

  abbrev pub get_elem? : List A → ℕ → Option A
  get_elem? [] i = none
  get_elem? (x ∷ xs) zero = some x
  get_elem? (x ∷ xs) (suc i) = get_elem? xs i

  pub length-append : (xs ys : List A) → length (xs ++ ys) ≡ length xs + length ys
  length-append [] ys = omega arith
  length-append (x ∷ xs) ys = omega (arith, length-append xs ys)

  pub length-drop : (n : ℕ) (xs : List A) → length (drop n xs) ≡ length xs - n
  length-drop zero xs = omega arith
  length-drop (suc n) [] = omega arith
  length-drop (suc n) (x ∷ xs) = omega (arith, length-drop n xs)

  pub take-append-drop : (n : ℕ) (xs : List A) → take n xs ++ drop n xs ≡ xs
  take-append-drop zero xs = refl
  take-append-drop (suc n) [] = refl
  take-append-drop (suc n) (x ∷ xs) = ap (λ l. x ∷ l) (take-append-drop n xs)

-- Rust's iterator tests and searches.
module _ {ℓ} {A : Type ℓ} where
  -- `iter().filter(p)`, `retain`
  abbrev pub retain : (A → Bool) → List A → List A
  retain p [] = []
  retain p (x ∷ xs) = let rest = retain p xs in if p x then x ∷ rest else rest

  -- `iter().any(p)`
  abbrev pub any : (A → Bool) → List A → Bool
  any p [] = false
  any p (x ∷ xs) = p x || any p xs

  -- `iter().all(p)`
  abbrev pub all : (A → Bool) → List A → Bool
  all p [] = true
  all p (x ∷ xs) = p x && all p xs

  -- `iter().find(p)`
  abbrev pub find : (A → Bool) → List A → Option A
  find p [] = none
  find p (x ∷ xs) = let rest = find p xs in if p x then some x else rest

  -- `iter().last()`
  abbrev pub last : List A → Option A
  last [] = none
  last (x ∷ []) = some x
  last (x ∷ (y ∷ ys)) = last (y ∷ ys)

-- What holds of every element.
abbrev pub All {ℓ κ} : {A : Type ℓ} → (A → Type κ) → List A → Type κ
All P [] = Unit
All P (x ∷ xs) = P x × All P xs

-- `Option::or`
abbrev pub or_else {ℓ} : {B : Type ℓ} → Option B → Option B → Option B
or_else none b = b
or_else (some x) b = some x

module _ {ℓ κ} {A : Type ℓ} {B : Type κ} where
  -- `iter().find_map(f)`
  abbrev pub find_map : (A → Option B) → List A → Option B
  find_map f [] = none
  find_map f (x ∷ xs) = or_else (f x) (find_map f xs)

  -- `iter().rev().find_map(f)`: the last element that `f` takes
  abbrev pub rfind_map : (A → Option B) → List A → Option B
  rfind_map f [] = none
  rfind_map f (x ∷ xs) = or_else (rfind_map f xs) (f x)

  abbrev pub filter_map : (A → Option B) → List A → List B
  filter_map f [] = []
  filter_map f (x ∷ xs) =
      let rest = filter_map f xs in elim (f x) [ none ↦ rest | some b ↦ b ∷ rest ]

  -- What `f` says of all that it returns holds of what a search returns.
  pub rfind_map-sound {μ} :
      {P : B → Type μ} (f : A → Option B) (sound : (x : A) (b : B) → f x ≡ some b → P b)
      (xs : List A) (b : B)
      → rfind_map f xs ≡ some b
      → P b
  rfind_map-sound f sound [] b e = cc
  rfind_map-sound f sound (x ∷ xs) b e = elim (Option-cases (rfind_map f xs)) [
    | inl none_later ↦ sound x b (ground arith)
    | inr (c, later) ↦ rfind_map-sound f sound xs b (ground arith)
  ]

  pub find_map_sound {μ} :
      {P : B → Type μ} (f : A → Option B) (sound : (x : A) (b : B) → f x ≡ some b → P b)
      (xs : List A) (b : B)
      → find_map f xs ≡ some b
      → P b
  find_map_sound f sound [] b e = cc
  find_map_sound f sound (x ∷ xs) b e = elim (Option-cases (f x)) [
    | inl not_here ↦ find_map_sound f sound xs b (ground arith)
    | inr (c, here) ↦ sound x b (ground arith)
  ]

  pub rfind_map-append :
      (f : A → Option B) (xs : List A) (x : A)
      → rfind_map f (xs ++ x ∷ []) ≡ or_else (f x) (rfind_map f xs)
  rfind_map-append f [] x = ground arith
  rfind_map-append f (y ∷ xs) x = ground (arith, rfind_map-append f xs x)

  pub find_map-append :
      (f : A → Option B) (xs : List A) (x : A)
      → find_map f (xs ++ x ∷ []) ≡ or_else (find_map f xs) (f x)
  find_map-append f [] x = ground arith
  find_map-append f (y ∷ xs) x = ground (arith, find_map-append f xs x)

  pub filter_map-append :
      (f : A → Option B) (xs ys : List A)
      → filter_map f (xs ++ ys) ≡ filter_map f xs ++ filter_map f ys
  filter_map-append f [] ys = refl
  filter_map-append f (x ∷ xs) ys = elim (Option-cases (f x)) [
    | inl e ↦ rw (e, filter_map) (filter_map-append f xs ys)
    | inr (b, e) ↦ rw (e, filter_map) (ap (λ l. b ∷ l) (filter_map-append f xs ys))
  ]
