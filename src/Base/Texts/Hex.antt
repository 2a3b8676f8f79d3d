-- ===== src/Base/Texts/Hex.antt =====
-- `hex.DecodeString` and `hex.EncodeToString`.
use mathlib.Core.Path.{◌≡◌, refl}
use mathlib.Core.Bool.{◌&&◌}
use mathlib.Core.List.{[], ◌∷◌}
use mathlib.Core.Option.{Option, none, some}
use Prim.Native.Nat.{ℕ, ◌+◌, ◌-◌, ◌*◌, ◌/◌, ◌%◌, ◌<◌}
use native.Mathlib.Omega.{arith}
use yggdrasil_sdk_go.Base.Tests.{ltb, leb, if◌then◌else◌}
use yggdrasil_sdk_go.Base.Lists.{All, length}
use yggdrasil_sdk_go.Base.Texts.Defs.{Text, codes}

nibble : ℕ → Option ℕ
nibble c =
    if leb 48 c && leb c 57
    then some (c - 48)
    else if leb 97 c && leb c 102
    then some (c - 87)
    else if leb 65 c && leb c 70
    then some (c - 55)
    else none

hex_byte : Option ℕ → Option ℕ → Option Text → Option Text
hex_byte (some hi) (some lo) (some rest) = some ((hi * 16 + lo) ∷ rest)
hex_byte none _ _ = none
hex_byte (some _) none _ = none
hex_byte (some _) (some _) none = none

-- `none` is the error, for an odd length as for a byte that is no digit.
unfoldable pub hex_decode : Text → Option Text
unfolding nibble hex_byte
hex_decode [] = some []
hex_decode (a ∷ []) = none
hex_decode (a ∷ b ∷ s) = hex_byte (nibble a) (nibble b) (hex_decode s)

unfoldable pub hex_digit : ℕ → ℕ
hex_digit n = if ltb n 10 then n + 48 else n + 87

unfoldable pub hex_encode : Text → Text
unfolding hex_digit
hex_encode [] = []
hex_encode (b ∷ s) = hex_digit (b / 16) ∷ hex_digit (b % 16) ∷ hex_encode s

abbrev pub IsBytes : Text → Type 0
IsBytes s = All (λ b. b < 256) s

nibble-hex_digit : (n : ℕ) → n < 16 → nibble (hex_digit n) ≡ some n
unfolding nibble hex_digit
nibble-hex_digit n h = ground arith

hex_byte-some :
    (hi lo : ℕ) (rest : Text)
    → hex_byte (some hi) (some lo) (some rest) ≡ some ((hi * 16 + lo) ∷ rest)
unfolding hex_byte
hex_byte-some hi lo rest = refl

pub hex_decode-hex_encode : (s : Text) → IsBytes s → hex_decode (hex_encode s) ≡ some s
unfolding hex_decode hex_encode
hex_decode-hex_encode [] h = refl
hex_decode-hex_encode (b ∷ s) (lt, h) = ground (
  arith,
  nibble-hex_digit (b / 16) (omega arith),
  nibble-hex_digit (b % 16) (omega arith),
  hex_decode-hex_encode s h,
)

pub length-hex_encode : (s : Text) → length (hex_encode s) ≡ length s * 2
unfolding hex_encode
length-hex_encode [] = omega arith
length-hex_encode (b ∷ s) = omega (arith, length-hex_encode s)

decoded : hex_decode (codes "0aFf") ≡ some (10 ∷ 255 ∷ [])
unfolding hex_decode
decoded = refl

odd_length : hex_decode (codes "0af") ≡ none
unfolding hex_decode
odd_length = refl
