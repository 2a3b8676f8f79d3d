-- ===== src/Base/Texts/Trim/Laws.antt =====
-- Texts that `TrimSpace` leaves as they are.
use mathlib.Core.List.{[], ◌∷◌, reverse, reverse-cons, reverse-reverse}
use mathlib.Core.Path.{◌≡◌, refl, ap, ◌∙◌}
use Prim.Native.Nat.{ℕ, ◌≤◌}
use native.Mathlib.Omega.{arith}
use yggdrasil_sdk_go.Base.Lists.{All, All-append}
use yggdrasil_sdk_go.Base.Texts.Defs.{Text}
use yggdrasil_sdk_go.Base.Texts.Trim.{space_width, space_width_back, drop_spaces, trim_space}

-- A printable ASCII byte other than the space.
abbrev pub IsVisible : ℕ → Type 0
IsVisible b = (33 ≤ b) × (b ≤ 126)

space_width_visible : (b : ℕ) (s : Text) → IsVisible b → space_width (b ∷ s) ≡ 0
unfolding space_width
space_width_visible b [] h = ground arith
space_width_visible b (c ∷ []) h = ground arith
space_width_visible b (c ∷ d ∷ s) h = ground arith

space_width_back_visible : (b : ℕ) (s : Text) → IsVisible b → space_width_back (b ∷ s) ≡ 0
unfolding space_width_back
space_width_back_visible b [] h = ground arith
space_width_back_visible b (c ∷ []) h = ground arith
space_width_back_visible b (c ∷ d ∷ s) h = ground arith

drop_spaces_visible : (s : Text) → All IsVisible s → drop_spaces space_width 0 s ≡ s
unfolding drop_spaces
drop_spaces_visible [] h = refl
drop_spaces_visible (b ∷ s) (v, h) = rw (space_width_visible b s v, drop_spaces)

drop_spaces_back_visible : (s : Text) → All IsVisible s → drop_spaces space_width_back 0 s ≡ s
unfolding drop_spaces
drop_spaces_back_visible [] h = refl
drop_spaces_back_visible (b ∷ s) (v, h) = rw (space_width_back_visible b s v, drop_spaces)

All-reverse : (s : Text) → All IsVisible s → All IsVisible (reverse s)
All-reverse [] h = h
All-reverse (b ∷ s) (v, h) =
    rw reverse-cons (All-append IsVisible (reverse s) (b ∷ []) (All-reverse s h) (v, tt))

pub trim_space_visible : (s : Text) → All IsVisible s → trim_space s ≡ s
unfolding trim_space
trim_space_visible s h =
    ap (λ t. reverse (drop_spaces space_width_back 0 (reverse t))) (drop_spaces_visible s h)
    ∙ ap reverse (drop_spaces_back_visible (reverse s) (All-reverse s h))
    ∙ reverse-reverse s
