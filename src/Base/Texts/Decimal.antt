-- ===== src/Base/Texts/Decimal.antt =====
-- `strconv.ParseInt(s, 10, 64)`, and `%d` of an int64.
pub mod Laws
use mathlib.Core.Path.{◌≡◌, refl}
use mathlib.Core.Bool.{Bool, true, false, ◌&&◌}
use mathlib.Core.List.{[], ◌∷◌, ◌++◌}
use mathlib.Core.Option.{Option, none, some}
use Prim.Native.Nat.{ℕ, zero, suc, ◌+◌, ◌-◌, ◌*◌, ◌/◌, ◌%◌, ◌^◌, ◌<◌, ◌≤◌}
use native.Mathlib.Omega.{arith}
use yggdrasil_sdk_go.Base.Tests.{ltb, leb, ◌==◌, if◌then◌else◌}
use yggdrasil_sdk_go.Base.Int.{ℤ, pos, negsuc, IsInt64}
use yggdrasil_sdk_go.Base.Texts.Defs.{Text, codes}

digits_from : ℕ → Text → Option ℕ
digits_from n [] = some n
digits_from n (c ∷ s) = elim (leb 48 c && leb c 57) [
  | true ↦ digits_from (n * 10 + (c - 48)) s
  | false ↦ none
]

digits : Text → Option ℕ
unfolding digits_from
digits [] = none
digits (c ∷ s) = digits_from 0 (c ∷ s)

in_range : Bool → Option ℕ → Option ℤ
in_range negative none = none
in_range false (some n) = if ltb n (2 ^ 63) then some (pos n) else none
in_range true (some zero) = some (pos 0)
in_range true (some (suc n)) = if ltb n (2 ^ 63) then some (negsuc n) else none

-- `none` is either error, of syntax or of range.
unfoldable pub parse_int : Text → Option ℤ
unfolding digits in_range
parse_int [] = none
parse_int (c ∷ s) =
    if c == b'-'
    then in_range true (digits s)
    else if c == b'+'
    then in_range false (digits s)
    else in_range false (digits (c ∷ s))

-- The digits of a number in front of a text. The first argument is fuel, and a number above its
-- count of digits is enough.
unfoldable pub show_onto : ℕ → ℕ → Text → Text
show_onto zero n acc = acc
show_onto (suc f) n acc =
    let rest = show_onto f (n / 10) ((n % 10 + 48) ∷ acc) in
    if ltb n 10 then (n + 48) ∷ acc else rest

unfoldable pub show_nat : ℕ → Text
unfolding show_onto
show_nat n = show_onto (suc n) n []

unfoldable pub show_int : ℤ → Text
show_int (pos n) = show_nat n
show_int (negsuc n) = b'-' ∷ show_nat (suc n)

parsed : parse_int (codes "-9223372036854775808") ≡ some (negsuc 9223372036854775807)
unfolding parse_int
parsed = refl

too_large : parse_int (codes "9223372036854775808") ≡ none
unfolding parse_int
too_large = refl

shown : show_int (pos 1729012345) ≡ codes "1729012345"
unfolding show_int show_nat
shown = refl
