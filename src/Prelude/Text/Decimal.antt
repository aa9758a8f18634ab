-- ===== src/Prelude/Text/Decimal.antt =====
-- Python's `str(n)` of a natural number, by counting up to it.
use Prim.Native.String.{String}
use Prim.Native.Nat.{ℕ, zero, suc}
use mathlib.Core.List.{List, [], ◌∷◌}
use goat_ai.Prelude.Tests.{◌==◌, if◌then◌else◌}
use goat_ai.Prelude.Text.{append_text}

-- The digits, the last first.
abbrev pub count_up : List ℕ → List ℕ
count_up [] = 1 ∷ []
count_up (d ∷ ds) = let rest = count_up ds in if d == 9 then 0 ∷ rest else suc d ∷ ds

abbrev pub digits_of : ℕ → List ℕ
digits_of zero = 0 ∷ []
digits_of (suc n) = count_up (digits_of n)

abbrev pub digit_text : ℕ → String
digit_text d =
    if d == 0
    then "0"
    else if d == 1
    then "1"
    else if d == 2
    then "2"
    else if d == 3
    then "3"
    else if d == 4
    then "4"
    else if d == 5
    then "5"
    else if d == 6
    then "6"
    else if d == 7
    then "7"
    else if d == 8
    then "8"
    else "9"

abbrev pub digits_text : List ℕ → String
digits_text [] = ""
digits_text (d ∷ ds) = append_text (digits_text ds) (digit_text d)

unfoldable pub decimal : ℕ → String
decimal n = digits_text (digits_of n)
