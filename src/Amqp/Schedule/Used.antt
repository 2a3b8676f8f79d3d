-- ===== src/Amqp/Schedule/Used.antt =====
-- No goroutine of rpc/amqp/amqp.go gets a nil connection, whatever the schedule.
use yggdrasil_sdk_go.Base.{
  refl, ℕ, Bool, true, false, Option, none, some, List, ◌≡◌, ◌≢◌, inr, arith,
}
use yggdrasil_sdk_go.Rpc.{Error}
use yggdrasil_sdk_go.Amqp.Connection.{live}
use yggdrasil_sdk_go.Amqp.Schedule.{
  Shared, Phase, testing, checking, opening, closing_pub, closing_conn, answered, crashed, advance,
  System, Turn, turn, dropped, channel_dropped, step, run, Call, entry, start,
}
use yggdrasil_sdk_go.Amqp.Schedule.Mutexes.{
  Keeps, moved-Keeps, others_keep, Any, All-any, run-Keeps, phase_of-each, kept,
}

-- What a goroutine holds is no nil connection, unless the transport was closed and it has still to see
-- that; and the later part of Close comes behind the closing.
abbrev pub safe : Bool → Phase → Bool
safe over (testing w none) = over
safe over (checking w none) = over
safe over closing_pub = over
safe over closing_conn = over
safe over (opening (inr none)) = false
safe over (answered (inr none)) = false
safe over crashed = false
safe over p = true

abbrev pub IsSafe : System → Type 0
IsSafe s =
    (s.shared.conn ≡ none → s.shared.is_closed ≡ true)
    × ((j : ℕ) → safe s.shared.is_closed (s.phases j) ≡ true)

safe_later : (p : Phase) → safe false p ≡ true → safe true p ≡ true
safe_later p h = ground arith

abbrev IsGuarded : Shared → Type 0
IsGuarded m = m.conn ≡ none → m.is_closed ≡ true

module _ (failure : Option Error) (i : ℕ) (m m' : Shared) (guarded : IsGuarded m) where
  advance-safe :
      (p p' : Phase)
      → advance failure i p m ≡ some (m', p')
      → safe m.is_closed p ≡ true
      → safe m'.is_closed p' ≡ true
  unfolding advance live
  advance-safe p p' e h = ground (arith, guarded)

  advance-IsGuarded :
      (p p' : Phase)
      → advance failure i p m ≡ some (m', p')
      → safe m.is_closed p ≡ true
      → IsGuarded m'
  unfolding advance
  advance-IsGuarded p p' e h none_left = ground (arith, guarded)

  advance_closed :
      (p p' : Phase) (q : Phase)
      → advance failure i p m ≡ some (m', p')
      → safe m.is_closed q ≡ true
      → safe m'.is_closed q ≡ true
  unfolding advance
  advance_closed p p' q e h = ground (arith, safe_later q)

step-IsSafe : (t : Turn) (s : System) → Any t → IsSafe s → Keeps IsSafe (step t s)
unfolding step
step-IsSafe (turn i failure) s _ (g, h) =
    moved-Keeps IsSafe s i (advance failure i (s.phases i) s.shared) (λ m p e. (
      advance-IsGuarded failure i s.shared m g (s.phases i) p e (h i),
      others_keep (λ q. safe m.is_closed q ≡ true) s.phases i p
          (advance-safe failure i s.shared m g (s.phases i) p e (h i))
          (λ j. advance_closed failure i s.shared m g (s.phases i) p (s.phases j) e (h j)),
    ))
step-IsSafe (dropped c) s _ h = h
step-IsSafe channel_dropped s _ h = h

entry-safe : (c : Call) → safe false (entry c) ≡ true
unfolding entry
entry-safe c = ground arith

safe_results :
    (over : Bool) (p : Phase) → safe over p ≡ true → (p ≢ crashed) × (p ≢ answered (inr none))
safe_results over p h = (λ e. ground arith, λ e. ground arith)

-- Whatever the schedule, also while a Close takes the connection away, no goroutine that asks for a
-- connection gets nil, and no publish opens its channel on nil.
pub never_nil :
    (dialable : Bool) (calls : List Call) (ts : List Turn) {s : System} (i : ℕ)
    → run ts (start dialable calls) ≡ some s
    → (s.phases i ≢ crashed) × (s.phases i ≢ answered (inr none))
unfolding start
never_nil dialable calls ts {s} i reached =
    safe_results s.shared.is_closed (s.phases i) (all_safe.1 i)
  where
    all_safe : IsSafe s
    all_safe = kept IsSafe reached (
        run-Keeps IsSafe Any step-IsSafe ts (All-any ts) (start dialable calls)
          (λ e. cc, phase_of-each (λ p. safe false p ≡ true) refl entry-safe calls))
