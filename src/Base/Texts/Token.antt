-- ===== src/Base/Texts/Token.antt =====
-- Texts of bytes from '-' to '~': what decimals, hexadecimals and the names in a header consist of.
use mathlib.Core.List.{[], ◌∷◌}
use Prim.Native.Nat.{ℕ, zero, suc, ◌+◌, ◌/◌, ◌%◌, ◌≤◌, ◌<◌}
use native.Mathlib.Omega.{arith}
use yggdrasil_sdk_go.Base.Lists.{All}
use yggdrasil_sdk_go.Base.Int.{ℤ, pos, negsuc}
use yggdrasil_sdk_go.Base.Texts.Defs.{Text}
use yggdrasil_sdk_go.Base.Texts.Trim.Laws.{IsVisible}
use yggdrasil_sdk_go.Base.Texts.Split.{Lacks}
use yggdrasil_sdk_go.Base.Texts.Hex.{IsBytes, hex_encode, hex_digit}
use yggdrasil_sdk_go.Base.Texts.Decimal.{show_onto, show_nat, show_int}

abbrev pub IsToken : ℕ → Type 0
IsToken b = (45 ≤ b) × (b ≤ 126)

pub IsToken-IsVisible : (s : Text) → All IsToken s → All IsVisible s
IsToken-IsVisible [] h = h
IsToken-IsVisible (b ∷ s) (t, h) = (omega arith, IsToken-IsVisible s h)

pub Lacks-comma : (s : Text) → All IsToken s → Lacks b',' s
Lacks-comma [] h = h
Lacks-comma (b ∷ s) (t, h) = (ground arith, Lacks-comma s h)

show_onto-IsToken : (f n : ℕ) (acc : Text) → All IsToken acc → All IsToken (show_onto f n acc)
unfolding show_onto
show_onto-IsToken zero n acc h = h
show_onto-IsToken (suc f) n acc h =
    ground
      (arith, show_onto-IsToken f (n / 10) ((n % 10 + 48) ∷ acc) ((omega arith, omega arith), h))

pub show_int-IsToken : (t : ℤ) → All IsToken (show_int t)
unfolding show_int show_nat
show_int-IsToken (pos n) = show_onto-IsToken (suc n) n [] tt
show_int-IsToken (negsuc n) = (omega arith, show_onto-IsToken (suc (suc n)) (suc n) [] tt)

hex_digit-IsToken : (n : ℕ) → n < 16 → IsToken (hex_digit n)
unfolding hex_digit
hex_digit-IsToken n h = ground arith

pub hex_encode-IsToken : (s : Text) → IsBytes s → All IsToken (hex_encode s)
unfolding hex_encode
hex_encode-IsToken [] h = h
hex_encode-IsToken (b ∷ s) (lt, h) = (
  hex_digit-IsToken (b / 16) (omega arith),
  (hex_digit-IsToken (b % 16) (omega arith), hex_encode-IsToken s h),
)
