-- ===== src/Base/Texts/Decimal/Laws.antt =====
-- `%d` and `ParseInt` are inverse on int64.
use mathlib.Core.Path.{◌≡◌, refl, sym, ◌∙◌, ap}
use mathlib.Core.Bool.{true, false}
use mathlib.Core.Logic.{inl, inr}
use mathlib.Core.List.{[], ◌∷◌}
use mathlib.Core.Option.{some}
use Prim.Native.Nat.{ℕ, zero, suc, ◌+◌, ◌-◌, ◌*◌, ◌/◌, ◌%◌, ◌<◌, ◌≤◌}
use native.Mathlib.Omega.{arith}
use yggdrasil_sdk_go.Base.Tests.{ltb, ltb→lt, Bool-cases}
use yggdrasil_sdk_go.Base.Int.{ℤ, pos, negsuc, IsInt64}
use yggdrasil_sdk_go.Base.Texts.Defs.{Text}
use yggdrasil_sdk_go.Base.Texts.Decimal.{
  digits_from, digits, in_range, parse_int, show_onto, show_nat, show_int,
}

digits_from_cons :
    (m c : ℕ) (s : Text)
    → 48 ≤ c
    → c ≤ 57
    → digits_from m (c ∷ s) ≡ digits_from (m * 10 + (c - 48)) s
unfolding digits_from
digits_from_cons m c s lo hi = ground arith

-- Reading what was written takes the number up and goes on behind it.
digits_from-show_onto :
    (f n : ℕ) (acc : Text) → n < f → digits_from 0 (show_onto f n acc) ≡ digits_from n acc
unfolding show_onto
digits_from-show_onto zero n acc h = elim h [ ]
digits_from-show_onto (suc f) n acc h = elim (Bool-cases (ltb n 10)) [
  | inl small ↦ rw small (
      digits_from_cons 0 (n + 48) acc (omega arith) (omega (arith, ltb→lt n 10 small))
      ∙ ap (λ k. digits_from k acc) (omega arith))
  | inr big ↦ rw big (
      digits_from-show_onto f (n / 10) ((n % 10 + 48) ∷ acc) (ground arith)
      ∙ digits_from_cons (n / 10) (n % 10 + 48) acc (omega arith) (omega arith)
      ∙ ap (λ k. digits_from k acc) (omega arith))
]

-- A number is written with a digit in front.
show_onto_head :
    (f n : ℕ) (acc : Text) → n < f → (c : ℕ) × (s : Text) × (show_onto f n acc ≡ c ∷ s) × (48 ≤ c)
unfolding show_onto
show_onto_head zero n acc h = elim h [ ]
show_onto_head (suc f) n acc h = elim (Bool-cases (ltb n 10)) [
  | inl small ↦ (n + 48, acc, rw small, omega arith)
  | inr big ↦ rw big (show_onto_head f (n / 10) ((n % 10 + 48) ∷ acc) (ground arith))
]

digits-show_nat : (n : ℕ) → digits (show_nat n) ≡ some n
unfolding show_nat digits
digits-show_nat n =
    let (c, s, e, h) = show_onto_head (suc n) n [] (omega arith) in
    let read = digits_from-show_onto (suc n) n [] (omega arith) in
    rw e (rw e at read ∙ unfold digits_from in refl)

show_nat_head : (n : ℕ) → (c : ℕ) × (s : Text) × (show_nat n ≡ c ∷ s) × (48 ≤ c)
unfolding show_nat
show_nat_head n = show_onto_head (suc n) n [] (omega arith)

parse_int-digits : (c : ℕ) (s : Text) → 48 ≤ c → parse_int (c ∷ s) ≡ in_range false (digits (c ∷ s))
unfolding parse_int
parse_int-digits c s h = ground arith

parse_int_minus : (s : Text) → parse_int (b'-' ∷ s) ≡ in_range true (digits s)
unfolding parse_int
parse_int_minus s = refl

parse_int-show_nat : (n : ℕ) → parse_int (show_nat n) ≡ in_range false (some n)
parse_int-show_nat n =
    let (c, s, e, lo) = show_nat_head n in
    ap parse_int e
    ∙ parse_int-digits c s lo
    ∙ ap (λ t. in_range false (digits t)) (sym e)
    ∙ ap (in_range false) (digits-show_nat n)

-- Parsing the text of an int64 gives the int64.
pub parse_int-show_int : (t : ℤ) → IsInt64 t → parse_int (show_int t) ≡ some t
unfolding show_int in_range
parse_int-show_int (pos n) h = rw parse_int-show_nat (ground arith)
parse_int-show_int (negsuc n) h =
    rw (parse_int_minus (show_nat (suc n)), digits-show_nat (suc n)) (ground arith)
