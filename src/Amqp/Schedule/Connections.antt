-- ===== src/Amqp/Schedule/Connections.antt =====
-- Which connections rpc/amqp/amqp.go leaves open at the broker, whatever the schedule.
use yggdrasil_sdk_go.Base.{
  ℕ, ◌==◌, Bool, true, false, ◌||◌, Option, none, some, List, [], ◌∷◌, ◌≡◌, ◌⊎◌, inl, inr, refl,
  arith, Bool-cases, ap, ◌∙◌,
}
use yggdrasil_sdk_go.Rpc.{Error}
use yggdrasil_sdk_go.Amqp.Connection.{elem, remove, close_conn}
use yggdrasil_sdk_go.Amqp.Schedule.{
  Shared, Phase, installing, hanging_up, advance, System, Turn, turn, dropped, channel_dropped,
  step, run, Call, start,
}
use yggdrasil_sdk_go.Amqp.Schedule.Mutexes.{
  owns, Keeps, moved-Keeps, after, update_self, update_other, ℕ-cases, Any, All-any, run-Keeps,
  kept,
}

-- The connection that a goroutine has for itself: one that it has dialed and not installed, or one that
-- Close has taken and not closed.
abbrev pub carries : Phase → Option ℕ
carries (installing w c) = some c
carries (hanging_up o) = o
carries p = none

-- Every open connection is the transport's, or some goroutine carries it.
abbrev pub IsCarried : System → Type 0
IsCarried s =
    (c : ℕ)
    → elem c s.shared.alive ≡ true
    → (s.shared.conn ≡ some c) ⊎ ((j : ℕ) × (carries (s.phases j) ≡ some c))

pub elem-remove :
    (c d : ℕ) (cs : List ℕ) → elem c (remove d cs) ≡ true → (elem c cs ≡ true) × ((d == c) ≡ false)
unfolding elem remove
elem-remove c d [] h = cc
elem-remove c d (x ∷ cs) h = ground (arith, elem-remove c d cs)

pub elem-close_conn :
    (c : ℕ) (o : Option ℕ) (cs : List ℕ)
    → elem c (close_conn o cs) ≡ true
    → (elem c cs ≡ true) × (owns o c ≡ false)
unfolding close_conn
elem-close_conn c none cs h = (h, refl)
elem-close_conn c (some d) cs h = elem-remove c d cs h

-- A connection is the transport's, or the mover's.
abbrev here : ℕ → Shared → Phase → Bool
here c m p = owns m.conn c || owns (carries p) c

-- What is open behind a move, and neither the transport's nor the mover's, was so before it.
advance-here :
    (failure : Option Error) (i c : ℕ) (m m' : Shared) (p p' : Phase)
    → advance failure i p m ≡ some (m', p')
    → elem c m'.alive ≡ true
    → here c m' p' ≡ false
    → (elem c m.alive ≡ true) × (here c m p ≡ false)
unfolding advance elem
advance-here failure i c m m' (installing w d) p' e open_still away =
    ground (arith, elem-close_conn c m.conn m.alive)
advance-here failure i c m m' (hanging_up o) p' e open_still away =
    ground (arith, elem-close_conn c o m.alive)
advance-here failure i c m m' p p' e open_still away = ground arith

owns_iff : (o : Option ℕ) (c : ℕ) → owns o c ≡ true → o ≡ some c
owns_iff none c h = cc
owns_iff (some d) c h = ground arith

or-eq-true : (a b : Bool) → (a || b) ≡ true → (a ≡ true) ⊎ (b ≡ true)
or-eq-true a b h = ground arith

owns_of : {o : Option ℕ} (c : ℕ) → o ≡ some c → owns o c ≡ true
owns_of c e = ground arith

module _ (s : System) (all : IsCarried s) (failure : Option Error) (i : ℕ) where
  moved-IsCarried :
      (m : Shared) (p : Phase)
      → advance failure i (s.phases i) s.shared ≡ some (m, p)
      → IsCarried (after s i m p)
  moved-IsCarried m p e c open_still = elim (Bool-cases (here c m p)) [
    | inl at_home ↦ elim (or-eq-true (owns m.conn c) (owns (carries p) c) at_home) [
      | inl h ↦ inl (owns_iff m.conn c h)
      | inr h ↦ inr (i, rw (update_self s.phases i p) (owns_iff (carries p) c h))
    ]
    | inr away ↦
        let (was, away_before) =
          advance-here failure i c s.shared m (s.phases i) p e open_still away in
        elim (all c was) [
          | inl h ↦ absurd (was_away (inl (owns_of c h)) away_before)
          | inr (j, h) ↦ elim (ℕ-cases i j) [
            | inl same ↦
                absurd
                  (was_away (inr (owns_of c (ap (λ k. carries (s.phases k)) same ∙ h))) away_before)
            | inr other ↦ inr (j, rw (update_other s.phases i p j other) h)
          ]
        ]
  ]
    where
      was_away :
          (owns s.shared.conn c ≡ true) ⊎ (owns (carries (s.phases i)) c ≡ true)
          → here c s.shared (s.phases i) ≡ false
          → ⊥
      was_away (inl h) k = ground arith
      was_away (inr h) k = ground arith

step-IsCarried : (t : Turn) (s : System) → Any t → IsCarried s → Keeps IsCarried (step t s)
unfolding step
step-IsCarried (turn i failure) s _ all =
    moved-Keeps IsCarried s i (advance failure i (s.phases i) s.shared)
      (moved-IsCarried s all failure i)
step-IsCarried (dropped c) s _ all = λ d h. all d (elem-remove d c s.shared.alive h).0
step-IsCarried channel_dropped s _ all = all

-- Whatever the schedule and whatever the broker drops, every connection that is open at the broker is the
-- one that the transport has, or a goroutine has just dialed it and not yet installed it, or has taken it
-- in Close and not yet closed it.
pub open_connection :
    (dialable : Bool) (calls : List Call) (ts : List Turn) {s : System} (c : ℕ)
    → run ts (start dialable calls) ≡ some s
    → elem c s.shared.alive ≡ true
    → (s.shared.conn ≡ some c) ⊎ ((j : ℕ) × (carries (s.phases j) ≡ some c))
unfolding start elem
open_connection dialable calls ts c reached =
    kept IsCarried reached
      (run-Keeps IsCarried Any step-IsCarried ts (All-any ts) (start dialable calls)
        (λ d h. inl (ground arith)))
      c
