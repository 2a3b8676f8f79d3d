-- ===== src/Amqp/Schedule/Progress.antt =====
-- No goroutine of rpc/amqp/amqp.go waits for a mutex in vain, but for the deadlock.
use yggdrasil_sdk_go.Base.{
  ℕ, Bool, true, false, Option, none, some, List, ◌≡◌, ◌≢◌, ◌⊎◌, inl, inr, refl, sym, subst, arith,
  Option-cases, Bool-cases, All, [], ◌∷◌, ap, ◌∙◌,
}
use yggdrasil_sdk_go.Rpc.{Error}
use yggdrasil_sdk_go.Amqp.Schedule.{
  Shared, Caller, publisher, Phase, locking_dial, resetting, locking_pub, listening, answered,
  finished, crashed, Advanced, advance, System, Turn, turn, dropped, channel_dropped, moved, step,
  run, Call, publishing, entry, start,
}
use yggdrasil_sdk_go.Amqp.Schedule.Mutexes.{
  dials, publishes, owns, IsExclusive, run-IsExclusive, start-IsExclusive, Leads, Keeps,
  moved-Keeps, others_keep, Any, All-any, run-Keeps, kept, phase_of-all,
}
use yggdrasil_sdk_go.Amqp.Schedule.Deadlock.{blocks, IsDeadlocked, owns-some, publisher_resets}

-- A goroutine that has ended, and a watchdog that waits for its connection to close.
abbrev pub rests : Phase → Bool
rests (answered r) = true
rests finished = true
rests crashed = true
rests (listening c) = true
rests p = false

owns_self : {o : Option ℕ} (i : ℕ) → o ≡ some i → owns o i ≡ true
owns_self i e = ground arith

module _ (i : ℕ) (m : Shared) where
  -- With free mutexes all can move.
  free_moves :
      (p : Phase) → m.dial_by ≡ none → m.pub_by ≡ none → rests p ≡ false → advance none i p m ≢ none
  unfolding advance
  free_moves p d u h = ground arith

  dial_owner_moves :
      (p : Phase)
      → dials p ≡ true
      → (advance none i p m ≢ none)
        ⊎ ((w : Caller) × (c : ℕ) × (k : ℕ) × (p ≡ resetting w c) × (m.pub_by ≡ some k))
  unfolding advance
  dial_owner_moves (resetting w c) h = elim (Option-cases m.pub_by) [
    | inl e ↦ inl (λ k. ground arith)
    | inr (k, e) ↦ inr (w, c, k, refl, e)
  ]
  dial_owner_moves p h = inl (λ k. ground arith)

  pub_owner_moves :
      (p : Phase)
      → publishes p ≡ true
      → (advance none i p m ≢ none)
        ⊎ ((j : ℕ) × (p ≡ locking_dial publisher) × (m.dial_by ≡ some j))
        ⊎ ((c : ℕ) × (p ≡ resetting publisher c))
  unfolding advance
  pub_owner_moves (locking_dial publisher) h = elim (Option-cases m.dial_by) [
    | inl e ↦ inl (λ k. ground arith)
    | inr (j, e) ↦ inr (inl (j, refl, e))
  ]
  pub_owner_moves (resetting publisher c) h = inr (inr (c, refl))
  pub_owner_moves p h = inl (λ k. ground arith)

  -- What waits for no mutex can move.
  unblocked_moves : (p : Phase) → rests p ≡ false → blocks p ≡ false → advance none i p m ≢ none
  unfolding advance
  unblocked_moves p h k = ground arith

abbrev pub CanMove : System → ℕ → Type 0
CanMove s i = step (turn i none) s ≢ none

-- A goroutine that holds dialMu or pubMu can move.
abbrev pub HolderMoves : System → Type 0
HolderMoves s = (j : ℕ) × ((s.shared.dial_by ≡ some j) ⊎ (s.shared.pub_by ≡ some j)) × CanMove s j

moved-ne-none : (s : System) (i : ℕ) (o : Advanced) → o ≢ none → moved s i o ≢ none
unfolding moved
moved-ne-none s i none h = absurd (h refl)
moved-ne-none s i (some (m, p)) h = λ e. cc

module _ (s : System) (ex : IsExclusive s) where
  moves : (i : ℕ) → advance none i (s.phases i) s.shared ≢ none → CanMove s i
  unfolding step
  moves i h = moved-ne-none s i (advance none i (s.phases i) s.shared) h

  abbrev Stands : Type 0
  Stands = HolderMoves s ⊎ ((j : ℕ) × (k : ℕ) × IsDeadlocked j k s)

  dial_by_of : (i : ℕ) → dials (s.phases i) ≡ true → s.shared.dial_by ≡ some i
  dial_by_of i h = owns-some s.shared.dial_by i (sym (ex.dial_held i) ∙ h)

  -- With dialMu free the goroutine with pubMu moves.
  pub_held_stands : (k : ℕ) → s.shared.pub_by ≡ some k → s.shared.dial_by ≡ none → Stands
  pub_held_stands k u d =
      elim (pub_owner_moves k s.shared (s.phases k) (ex.pub_held k ∙ owns_self k u)) [
        | inl go ↦ inl (k, inr u, moves k go)
        | inr (inl (j, _, e)) ↦ cc
        | inr (inr (c, e)) ↦ cc (dial_by_of k (ap dials e))
      ]

  -- With dialMu held, the one that holds it moves, or the one with pubMu, for which it waits.
  dial_held_stands : (j : ℕ) → s.shared.dial_by ≡ some j → Stands
  dial_held_stands j d =
      elim (dial_owner_moves j s.shared (s.phases j) (ex.dial_held j ∙ owns_self j d)) [
        | inl go ↦ inl (j, inl d, moves j go)
        | inr (w, c, k, e, u) ↦
            elim (pub_owner_moves k s.shared (s.phases k) (ex.pub_held k ∙ owns_self k u)) [
              | inl go ↦ inl (k, inr u, moves k go)
              | inr (inl (j', e', _)) ↦ inr (
                j,
                k,
                record { dial_owner = d; pub_owner = u; resets = (w, c, e); locks = inr e' },
              )
              | inr (inr (c', e')) ↦ inr (k, k, publisher_resets s ex k e')
            ]
      ]

  exclusive_stands :
      (i : ℕ)
      → rests (s.phases i) ≡ false
      → CanMove s i
        ⊎ ((blocks (s.phases i) ≡ true) × HolderMoves s)
        ⊎ ((j : ℕ) × (k : ℕ) × IsDeadlocked j k s)
  exclusive_stands i busy = elim (Bool-cases (blocks (s.phases i))) [
    | inr free ↦ inl (moves i (unblocked_moves i s.shared (s.phases i) busy free))
    | inl waits ↦ elim (Option-cases s.shared.dial_by) [
      | inr (j, d) ↦ inr (waiting waits (dial_held_stands j d))
      | inl d ↦ elim (Option-cases s.shared.pub_by) [
        | inr (k, u) ↦ inr (waiting waits (pub_held_stands k u d))
        | inl u ↦ inl (moves i (free_moves i s.shared (s.phases i) d u busy))
      ]
    ]
  ]
    where
      waiting :
          blocks (s.phases i) ≡ true
          → Stands
          → ((blocks (s.phases i) ≡ true) × HolderMoves s)
            ⊎ ((j : ℕ) × (k : ℕ) × IsDeadlocked j k s)
      waiting w (inl go) = inl (w, go)
      waiting w (inr dead) = inr dead

-- Whatever the schedule, a goroutine that has not ended, and is not a watchdog that waits for its
-- connection to close, can move, or it waits for dialMu or pubMu while a goroutine that holds one of the
-- two can move, unless the transport is in the deadlock of dialMu and pubMu.
pub progress :
    (dialable : Bool) (calls : List Call) (ts : List Turn) {s : System} (i : ℕ)
    → run ts (start dialable calls) ≡ some s
    → rests (s.phases i) ≡ false
    → CanMove s i
      ⊎ ((blocks (s.phases i) ≡ true) × HolderMoves s)
      ⊎ ((j : ℕ) × (k : ℕ) × IsDeadlocked j k s)
progress dialable calls ts {s} i reached busy =
    exclusive_stands s (run-IsExclusive ts (start-IsExclusive dialable calls) reached) i busy

-- A goroutine in publishChannel.
abbrev pub may_publish : Phase → Bool
may_publish locking_pub = true
may_publish p = publishes p

advance_quiet :
    (failure : Option Error) (i : ℕ) (m : Shared) (p : Phase)
    → may_publish p ≡ false
    → Leads (λ m' p'. may_publish p' ≡ false) (advance failure i p m)
unfolding advance
advance_quiet failure i m p h = ground arith

abbrev IsQuiet : System → Type 0
IsQuiet s = (j : ℕ) → may_publish (s.phases j) ≡ false

step-IsQuiet : (t : Turn) (s : System) → Any t → IsQuiet s → Keeps IsQuiet (step t s)
unfolding step
step-IsQuiet (turn i failure) s _ q =
    moved-Keeps IsQuiet s i (advance failure i (s.phases i) s.shared) (λ m p e.
      others_keep (λ x. may_publish x ≡ false) s.phases i p
        (subst (Leads (λ m' p'. may_publish p' ≡ false)) e
          (advance_quiet failure i s.shared (s.phases i) (q i)))
        q)
step-IsQuiet (dropped c) s _ q = q
step-IsQuiet channel_dropped s _ q = q

quiet_entry : (c : Call) → c ≢ publishing → may_publish (entry c) ≡ false
unfolding entry
quiet_entry c h = ground arith

quiet_entries :
    (cs : List Call) → All (λ c. c ≢ publishing) cs → All (λ c. may_publish (entry c) ≡ false) cs
quiet_entries [] a = tt
quiet_entries (c ∷ cs) (h, a) = (quiet_entry c h, quiet_entries cs a)

quiet_publishes : (p : Phase) → may_publish p ≡ false → publishes p ≡ false
quiet_publishes p h = ground arith

-- On a transport on which no goroutine publishes, whatever the schedule, a goroutine that has not
-- ended, and is not a watchdog that waits for its connection to close, can move, or it waits for dialMu
-- or pubMu while a goroutine that holds one of the two can move.
pub quiet_progress :
    (dialable : Bool) (calls : List Call) (ts : List Turn) {s : System} (i : ℕ)
    → All (λ c. c ≢ publishing) calls
    → run ts (start dialable calls) ≡ some s
    → rests (s.phases i) ≡ false
    → CanMove s i ⊎ ((blocks (s.phases i) ≡ true) × HolderMoves s)
unfolding start
quiet_progress dialable calls ts {s} i quiet reached busy =
    elim (progress dialable calls ts i reached busy) [
      | inl go ↦ inl go
      | inr (inl waits) ↦ inr waits
      | inr (inr (j, k, dead)) ↦ absurd (none_holds j k dead)
    ]
  where
    none_publishes : IsQuiet s
    none_publishes = kept IsQuiet reached (
        run-Keeps IsQuiet Any step-IsQuiet ts (All-any ts) (start dialable calls)
          (phase_of-all (λ p. may_publish p ≡ false) refl calls (quiet_entries calls quiet)))

    ex : IsExclusive s
    ex = run-IsExclusive ts (start-IsExclusive dialable calls) reached

    none_holds : (j k : ℕ) → IsDeadlocked j k s → ⊥
    none_holds j k dead =
        cc (
          owns_self k dead.pub_owner,
          ex.pub_held k,
          quiet_publishes (s.phases k) (none_publishes k),
        )
