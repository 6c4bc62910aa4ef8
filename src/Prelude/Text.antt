-- ===== src/Prelude/Text.antt =====
-- `format!`, `join` and the decimal text of a number.
use Prim.Native.Nat.{ℕ, zero, suc, ◌+◌, ◌/◌, ◌%◌}
use Prim.Native.String.{String, slice, len, find}
use Prim.Native.String
use mathlib.Core.Bool.{Bool}
use mathlib.Core.List.{List, [], ◌∷◌}
use rain_engine.Prelude.Tests.{ltb, leb, if◌then◌else◌}

-- `str::contains`
abbrev pub contains : String → String → Bool
contains s t = leb (find s t) (len s)

-- The parts of a `format!`, one after the other.
abbrev pub concat : List String → String
concat [] = ""
concat (s ∷ rest) = String.◌++◌ s (concat rest)

-- `errors.join(separator)`
abbrev pub join : String → List String → String
join separator [] = ""
join separator (s ∷ []) = s
join separator (s ∷ (t ∷ rest)) = String.◌++◌ s (String.◌++◌ separator (join separator (t ∷ rest)))

digit : ℕ → String
digit d = slice "0123456789" d (d + 1)

show_from : ℕ → ℕ → String
unfolding digit
show_from zero n = ""
show_from (suc fuel) n =
    let rest = String.◌++◌ (show_from fuel (n / 10)) (digit (n % 10)) in
    if ltb n 10 then digit n else rest

-- `Display` of an unsigned number: `n + 1` is more rounds than `n` has digits.
unfoldable pub show : ℕ → String
unfolding show_from
show n = show_from (n + 1) n
