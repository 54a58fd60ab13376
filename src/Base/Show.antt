-- ===== src/Base/Show.antt =====
-- The verb `%d` on 64-bit numbers, which have at most 20 digits.
use Prim.Native.Nat.{ℕ, zero, suc, ◌/◌, ◌%◌}
use Prim.Native.String.{String, ◌++◌ as append}
use mathlib.Core.Bool.{true, false}
use mathlib.Core.Path.{◌≡◌, refl}
use kairos_agent.Base.Tests.{ltb, ◌==◌, if◌then◌else◌}
use kairos_agent.Base.Int.{ℤ, pos, negsuc}

digit : ℕ → String
digit n =
    if n == 0
    then "0"
    else if n == 1
    then "1"
    else if n == 2
    then "2"
    else if n == 3
    then "3"
    else if n == 4
    then "4"
    else if n == 5
    then "5"
    else if n == 6
    then "6"
    else if n == 7
    then "7"
    else if n == 8
    then "8"
    else "9"

-- At most so many digits.
unfoldable digits : ℕ → ℕ → String
unfolding digit
digits zero n = ""
digits (suc k) n = elim (ltb n 10) [
  | true ↦ digit n
  | false ↦ append (digits k (n / 10)) (digit (n % 10))
]

unfoldable pub show_ℤ : ℤ → String
unfolding digits
show_ℤ (pos n) = digits 20 n
show_ℤ (negsuc n) = append "-" (digits 20 (suc n))

shows : show_ℤ (negsuc 1_234_567_889) ≡ "-1234567890"
unfolding show_ℤ
shows = refl
