-- ===== src/Base/Texts/Trim.antt =====
-- `strings.TrimSpace`, `strings.TrimRight`, `strings.ToLower` on the bytes of a string. White space
-- is Unicode's, in its UTF-8 encodings of one, two and three bytes.
pub mod Laws
use mathlib.Core.List.{reverse}
use mathlib.Core.Path.{◌≡◌, refl}
use mathlib.Core.Bool.{Bool, true, false, ◌&&◌, ◌||◌}
use mathlib.Core.List.{[], ◌∷◌, map}
use Prim.Native.Nat.{ℕ, zero, suc, ◌+◌}
use yggdrasil_sdk_go.Base.Tests.{leb, ◌==◌, if◌then◌else◌}
use yggdrasil_sdk_go.Base.Texts.Defs.{Text, codes}

-- '\t' to '\r', and ' '
is_space1 : ℕ → Bool
is_space1 a = leb 9 a && leb a 13 || a == 32

-- U+0085, U+00A0
is_space2 : ℕ → ℕ → Bool
is_space2 a b = a == 0xc2 && (b == 0x85 || b == 0xa0)

-- U+2000 to U+200A, U+2028, U+2029, U+202F
is_space_20 : ℕ → Bool
is_space_20 c = leb 0x80 c && leb c 0x8a || c == 0xa8 || c == 0xa9 || c == 0xaf

-- U+1680, U+2000 to U+202F as above, U+205F, U+3000
is_space3 : ℕ → ℕ → ℕ → Bool
unfolding is_space_20
is_space3 a b c =
    a == 0xe1 && b == 0x9a && c == 0x80
    || a == 0xe2 && b == 0x80 && is_space_20 c
    || a == 0xe2 && b == 0x81 && c == 0x9f
    || a == 0xe3 && b == 0x80 && c == 0x80

-- How many bytes the white space takes with which a text begins; 0 if it begins with none.
space_width : Text → ℕ
unfolding is_space1 is_space2 is_space3
space_width [] = 0
space_width (a ∷ []) = if is_space1 a then 1 else 0
space_width (a ∷ b ∷ []) = if is_space1 a then 1 else if is_space2 a b then 2 else 0
space_width (a ∷ b ∷ c ∷ _) =
    if is_space1 a then 1 else if is_space2 a b then 2 else if is_space3 a b c then 3 else 0

-- The same at the end of a text that is given backwards.
space_width_back : Text → ℕ
unfolding is_space1 is_space2 is_space3
space_width_back [] = 0
space_width_back (a ∷ []) = if is_space1 a then 1 else 0
space_width_back (a ∷ b ∷ []) = if is_space1 a then 1 else if is_space2 b a then 2 else 0
space_width_back (a ∷ b ∷ c ∷ _) =
    if is_space1 a then 1 else if is_space2 b a then 2 else if is_space3 c b a then 3 else 0

-- Drops white space from the front; the number counts the bytes of the last one that are left.
drop_spaces : (Text → ℕ) → ℕ → Text → Text
drop_spaces width k [] = []
drop_spaces width (suc k) (a ∷ s) = drop_spaces width k s
drop_spaces width zero (a ∷ s) = elim (width (a ∷ s)) [
  | zero ↦ a ∷ s
  | suc w ↦ drop_spaces width w s
]

unfoldable pub trim_space : Text → Text
unfolding drop_spaces space_width space_width_back
trim_space s = reverse (drop_spaces space_width_back 0 (reverse (drop_spaces space_width 0 s)))

drop_while : (ℕ → Bool) → Text → Text
drop_while p [] = []
drop_while p (a ∷ s) = elim (p a) [ true ↦ drop_while p s | false ↦ a ∷ s ]

-- `strings.TrimRight(s, c)` for one byte `c`
unfoldable pub trim_right : ℕ → Text → Text
unfolding drop_while
trim_right c s = reverse (drop_while (λ a. a == c) (reverse s))

is_ascii : Text → Bool
is_ascii [] = true
is_ascii (a ∷ s) = leb a 127 && is_ascii s

lower_byte : ℕ → ℕ
lower_byte a = if leb 65 a && leb a 90 then a + 32 else a

-- `strings.ToLower`. Go has the same two cases; the first argument is its case table, which serves
-- the texts that are not ASCII.
unfoldable pub to_lower : (Text → Text) → Text → Text
unfolding is_ascii lower_byte
to_lower unicode s = if is_ascii s then map lower_byte s else unicode s

padded : trim_space (codes "  a b\n") ≡ codes "a b"
unfolding trim_space
padded = refl

-- U+00A0 in front and U+3000 behind
wide_spaces : trim_space (0xc2 ∷ 0xa0 ∷ 65 ∷ 0xe3 ∷ 0x80 ∷ 0x80 ∷ []) ≡ codes "A"
unfolding trim_space
wide_spaces = refl

slashes : trim_right b'/' (codes "http://h//") ≡ codes "http://h"
unfolding trim_right
slashes = refl

lowered : to_lower (λ s. s) (codes "Ensure_X9") ≡ codes "ensure_x9"
unfolding to_lower
lowered = refl
