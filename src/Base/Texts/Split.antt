-- ===== src/Base/Texts/Split.antt =====
-- `strings.Split`, `strings.SplitN(s, sep, 2)` and `strings.Contains` for a separator of one byte.
use mathlib.Core.Path.{◌≡◌, refl}
use mathlib.Core.Bool.{false}
use mathlib.Core.List.{List, [], ◌∷◌, ◌++◌}
use mathlib.Core.Option.{Option, none, some}
use Prim.Native.Nat.{ℕ}
use native.Mathlib.Omega.{arith}
use yggdrasil_sdk_go.Base.Tests.{◌==◌, if◌then◌else◌}
use yggdrasil_sdk_go.Base.Texts.Defs.{Text, codes}

push_head : ℕ → List Text → List Text
push_head a [] = (a ∷ []) ∷ []
push_head a (p ∷ ps) = (a ∷ p) ∷ ps

unfoldable pub split_on : ℕ → Text → List Text
unfolding push_head
split_on sep [] = [] ∷ []
split_on sep (a ∷ s) = let rest = split_on sep s in if a == sep then [] ∷ rest else push_head a rest

cons_before : ℕ → Option (Text × Text) → Option (Text × Text)
cons_before a none = none
cons_before a (some (before, after)) = some (a ∷ before, after)

-- The two parts of `SplitN(s, sep, 2)`; `none` where it returns one part.
unfoldable pub cut : ℕ → Text → Option (Text × Text)
unfolding cons_before
cut sep [] = none
cut sep (a ∷ s) = let rest = cut sep s in if a == sep then some ([], s) else cons_before a rest

-- The text does not hold the byte.
abbrev pub Lacks : ℕ → Text → Type 0
Lacks c [] = Unit
Lacks c (a ∷ s) = ((a == c) ≡ false) × Lacks c s

push_head-append : (a : ℕ) (p : Text) (ps : List Text) → push_head a (p ∷ ps) ≡ (a ∷ p) ∷ ps
unfolding push_head
push_head-append a p ps = refl

pub split_on-append :
    (sep : ℕ) (p s : Text) → Lacks sep p → split_on sep (p ++ sep ∷ s) ≡ p ∷ split_on sep s
unfolding split_on
split_on-append sep [] s h = ground arith
split_on-append sep (a ∷ p) s (ne, h) = rw (ne, split_on-append sep p s h) refl

pub split_on_of_Lacks : (sep : ℕ) (p : Text) → Lacks sep p → split_on sep p ≡ p ∷ []
unfolding split_on
split_on_of_Lacks sep [] h = refl
split_on_of_Lacks sep (a ∷ p) (ne, h) = rw (ne, split_on_of_Lacks sep p h) refl

pub cut-append : (sep : ℕ) (p s : Text) → Lacks sep p → cut sep (p ++ sep ∷ s) ≡ some (p, s)
unfolding cut
cut-append sep [] s h = ground arith
cut-append sep (a ∷ p) s (ne, h) = rw (ne, cut-append sep p s h) refl

header_parts : split_on b',' (codes "t=1,v1=ab") ≡ codes "t=1" ∷ codes "v1=ab" ∷ []
unfolding split_on
header_parts = refl

second_equals : cut b'=' (codes "a=b=c") ≡ some (codes "a", codes "b=c")
unfolding cut
second_equals = refl
