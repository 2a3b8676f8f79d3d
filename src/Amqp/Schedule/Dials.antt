-- ===== src/Amqp/Schedule/Dials.antt =====
-- How often rpc/amqp/amqp.go dials where many goroutines find the connection dead at once.
use yggdrasil_sdk_go.Base.{
  ℕ, suc, ◌+◌, ◌≤◌, Bool, true, false, Option, none, some, List, ◌≡◌, ◌≢◌, inl, inr, refl, sym,
  subst, arith, All, ap, ◌∙◌,
}
use yggdrasil_sdk_go.Rpc.{Error}
use yggdrasil_sdk_go.Amqp.Connection.{elem, live}
use yggdrasil_sdk_go.Amqp.Schedule.{
  Shared, Caller, Phase, installing, advance, System, update, Turn, turn, dropped, channel_dropped,
  shut_channel, step, run, Call, start,
}
use yggdrasil_sdk_go.Amqp.Schedule.Mutexes.{
  dials, owns, IsExclusive, run-IsExclusive, start-IsExclusive, Keeps, moved-Keeps,
  moved-IsExclusive, step-IsExclusive, after, update_self, update_other, ℕ-cases, others_keep,
  run-Keeps, kept,
}
use yggdrasil_sdk_go.Amqp.Schedule.Deadlock.{owns-some, owns_other}
use yggdrasil_sdk_go.Amqp.Schedule.Numbers.{Below, run-IsNumbered}
use yggdrasil_sdk_go.Amqp.Schedule.Redials.{
  shuts, redials, installs, elem-close_conn_other, advance_unshut, advance-Same, advance_installed,
  advance_installs, advance_dead,
}

-- Nothing is dialed, connection `n` is dialed, or it is installed.
data Stage (n : ℕ) (s : System) : Type 0 where
  dead :
      s.shared.next ≡ n
      → owns s.shared.conn n ≡ false
      → live s.shared.conn s.shared.alive ≡ none
      → ((j : ℕ) → installs (s.phases j) ≡ false)
      → Stage n s
  dialed :
      (j : ℕ) (w : Caller)
      → s.shared.next ≡ suc n
      → owns s.shared.conn n ≡ false
      → elem n s.shared.alive ≡ true
      → s.phases j ≡ installing w n
      → Stage n s
  installed :
      s.shared.next ≡ suc n
      → elem n s.shared.alive ≡ true
      → s.shared.conn ≡ some n
      → ((j : ℕ) → redials (s.phases j) ≡ false)
      → Stage n s

record IsStorm (n : ℕ) (s : System) : Type 0 where
  exclusive : IsExclusive s
  unshut : (j : ℕ) → shuts (s.phases j) ≡ false
  stage : Stage n s

abbrev IsUp : Turn → Type 0
IsUp (turn i failure) = Unit
IsUp (dropped c) = ⊥
IsUp channel_dropped = Unit

redials-dials : (p : Phase) → dials p ≡ false → redials p ≡ false
redials-dials p h = ground arith

module _ (n : ℕ) (s : System) (storm : IsStorm n s) (failure : Option Error) (i : ℕ) (m : Shared)
    (p : Phase) (e : advance failure i (s.phases i) s.shared ≡ some (m, p)) where
  open storm use {exclusive, unshut, stage}

  -- Only the goroutine with dialMu is under it.
  alone : (j : ℕ) → dials (s.phases j) ≡ true → (k : ℕ) → j ≢ k → dials (s.phases k) ≡ false
  alone j h k other =
      exclusive.dial_held k
      ∙ ap (λ o. owns o k) (owns-some s.shared.dial_by j (sym (exclusive.dial_held j) ∙ h))
      ∙ owns_other k j (λ e. other (sym e))

  moved_stage : Stage n s → Stage n (after s i m p)
  moved_stage (dead next old lost none_new) =
      elim (advance_dead failure i n s.shared m (s.phases i) p e next (none_new i) (unshut i)) [
        | inl ((a, b, c), q) ↦
            dead (a ∙ next) (rw b old) (rw (b, c) lost)
              (others_keep (λ x. installs x ≡ false) s.phases i p q none_new)
        | inr (w, q, a, b, c) ↦ dialed i w a (rw b old) c (update_self s.phases i p ∙ q)
      ]
  moved_stage (dialed j w next old up there) = elim (ℕ-cases i j) [
    | inl same ↦
        let (a, b, c, q) =
          advance_installs failure i n s.shared m w p (
            subst (λ x. advance failure i x s.shared ≡ some (m, p)) (ap s.phases same ∙ there) e) in
        installed (a ∙ next) (rw c (elem-close_conn_other n s.shared.conn s.shared.alive old up)) b
          (λ k. elim (ℕ-cases i k) [
            | inl here ↦
                subst (λ x. redials (update s.phases i p x) ≡ false) here
                  (rw (update_self s.phases i p, q) refl)
            | inr away ↦
                rw (update_other s.phases i p k away)
                  (redials-dials (s.phases k) (alone j (ap dials there) k (λ h. away (same ∙ h))))
          ])
    | inr other ↦
        let (a, b, c) =
          advance-Same failure i n s.shared m (s.phases i) p e
            (alone j (ap dials there) i (λ h. other (sym h))) (unshut i) in
        dialed j w (a ∙ next) (rw b old) (rw c up) (update_other s.phases i p j other ∙ there)
  ]
  moved_stage (installed next up own none_redials) =
      let ((a, b, c), q) =
        advance_installed failure i n s.shared m (s.phases i) p e own up (none_redials i)
          (unshut i) in
      installed (a ∙ next) (rw c up) (b ∙ own)
        (others_keep (λ x. redials x ≡ false) s.phases i p q none_redials)

step-IsStorm : (n : ℕ) (t : Turn) (s : System) → IsUp t → IsStorm n s → Keeps (IsStorm n) (step t s)
unfolding step
step-IsStorm n (turn i failure) s _ storm =
    moved-Keeps (IsStorm n) s i (advance failure i (s.phases i) s.shared) (λ m p e. record {
      exclusive = moved-IsExclusive s storm.exclusive failure i m p e;
      unshut =
          others_keep (λ x. shuts x ≡ false) s.phases i p
            (advance_unshut failure i n s.shared m (s.phases i) p e (storm.unshut i)) storm.unshut;
      stage = moved_stage n s storm failure i m p e storm.stage;
    })
step-IsStorm n (dropped c) s up storm = absurd up
step-IsStorm n channel_dropped s _ storm = record {
  exclusive = step-IsExclusive channel_dropped s storm.exclusive;
  unshut = storm.unshut;
  stage = again storm.stage;
}
  where
    again :
        Stage n s
        → Stage n (record s { shared = record s.shared { pub_ch = shut_channel s.shared.pub_ch } })
    again (dead a b c d) = dead a b c d
    again (dialed j w a b c d) = dialed j w a b c d
    again (installed a b c d) = installed a b c d

Stage_next : (n : ℕ) (s : System) → Stage n s → s.shared.next ≤ n + 1
Stage_next n s (dead a b c d) = omega arith
Stage_next n s (dialed j w a b c d) = omega arith
Stage_next n s (installed a b c d) = omega arith

Below-owns : (o : Option ℕ) (n : ℕ) → Below n o → owns o n ≡ false
Below-owns none n h = refl
Below-owns (some c) n h = ground arith

-- Where the connection is dead, and no goroutine has a new one or is in Close, whatever the schedule of
-- any number of goroutines, until the broker drops a connection at most one dial succeeds.
pub dials_once :
    (dialable : Bool) (calls : List Call) (before ts : List Turn) {s t : System}
    → run before (start dialable calls) ≡ some s
    → live s.shared.conn s.shared.alive ≡ none
    → ((j : ℕ) → installs (s.phases j) ≡ false)
    → ((j : ℕ) → shuts (s.phases j) ≡ false)
    → All IsUp ts
    → run ts s ≡ some t
    → t.shared.next ≤ s.shared.next + 1
dials_once dialable calls before ts {s} {t} reached lost none_new none_shuts up later =
    Stage_next s.shared.next t
      (kept (IsStorm s.shared.next) later
        (run-Keeps (IsStorm s.shared.next) IsUp (step-IsStorm s.shared.next) ts up s storm)).stage
  where
    storm : IsStorm s.shared.next s
    storm = record {
      exclusive = run-IsExclusive before (start-IsExclusive dialable calls) reached;
      unshut = none_shuts;
      stage =
          dead refl
            (Below-owns s.shared.conn s.shared.next
              (run-IsNumbered dialable calls before reached).0)
            lost none_new;
    }
