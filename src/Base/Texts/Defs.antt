-- ===== src/Base/Texts/Defs.antt =====
-- Go strings and byte slices as lists of bytes, with the functions of Go's `strings` package that the
-- program calls.
use Prim.Native.Nat.{ℕ}
use Prim.Native.Char.{code}
use Prim.Native.String.{String}
use mathlib.Core.Path.{◌≡◌, refl}
use mathlib.Core.Logic.{◌↔◌}
use mathlib.Core.Bool.{Bool, true, false, ◌&&◌}
use mathlib.Core.List.{List, [], ◌∷◌, ◌++◌}
use mathlib.Core.Option.{Option, none, some}
use native.Mathlib.Omega.{arith}
use yggdrasil_sdk_go.Base.Tests.{◌==◌, if◌then◌else◌}

abbrev pub Text : Type 0
Text = List ℕ

-- The bytes of a literal, which is ASCII wherever the program has one.
abbrev pub codes : String → Text
codes String.[] = []
codes (String.◌∷◌ c s) = code c ∷ codes s

unfoldable pub text_eq : Text → Text → Bool
text_eq [] [] = true
text_eq [] (_ ∷ _) = false
text_eq (_ ∷ _) [] = false
text_eq (a ∷ s) (b ∷ t) = (a == b) && text_eq s t

pub text_eq_refl : (s : Text) → text_eq s s ≡ true
unfolding text_eq
text_eq_refl [] = refl
text_eq_refl (a ∷ s) = ground (arith, text_eq_refl s)

text_eq_sound : (s t : Text) → text_eq s t ≡ true → s ≡ t
unfolding text_eq
text_eq_sound [] [] h = refl
text_eq_sound [] (_ ∷ _) h = cc
text_eq_sound (_ ∷ _) [] h = cc
text_eq_sound (a ∷ s) (b ∷ t) h = ground (arith, text_eq_sound s t)

pub text_eq_iff : (s t : Text) → (text_eq s t ≡ true) ↔ (s ≡ t)
text_eq_iff s t = (text_eq_sound s t, λ e. rw e (text_eq_refl t))

-- `s == ""`
abbrev pub is_empty : Text → Bool
is_empty [] = true
is_empty (_ ∷ _) = false

-- `strings.HasPrefix(s, prefix)`, arguments as in Go.
unfoldable pub has_prefix : Text → Text → Bool
has_prefix s [] = true
has_prefix [] (_ ∷ _) = false
has_prefix (a ∷ s) (b ∷ p) = (a == b) && has_prefix s p

-- `s[len(prefix):]` where `s` has the prefix.
unfoldable pub without_prefix : Text → Text → Option Text
without_prefix s [] = some s
without_prefix [] (_ ∷ _) = none
without_prefix (a ∷ s) (b ∷ p) = if a == b then without_prefix s p else none

pub without_prefix_iff : (s p r : Text) → (without_prefix s p ≡ some r) ↔ (s ≡ p ++ r)
unfolding without_prefix
without_prefix_iff s [] r = (λ e. cc, λ e. cc)
without_prefix_iff [] (b ∷ p) r = (λ e. cc, λ e. cc)
without_prefix_iff (a ∷ s) (b ∷ p) r =
    let (to, from) = without_prefix_iff s p r in
    (λ e. ground (arith, to), λ e. ground (arith, from))
