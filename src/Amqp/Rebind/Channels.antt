-- ===== src/Amqp/Rebind/Channels.antt =====
-- How many channels a subscription of rpc/amqp/amqp.go has open, whatever the interleaving.
use yggdrasil_sdk_go.Base.{
  ℕ, ◌≤◌, ◌==◌, Bool, true, false, Option, none, some, List, [], ◌∷◌, ◌≡◌, refl, arith, inl, inr,
  subst, if◌then◌else◌, Bool-cases,
}
use yggdrasil_sdk_go.Amqp.Connection.{elem, remove, next_backoff}
use yggdrasil_sdk_go.Amqp.Rebind.{
  Phase, delivering, waiting, binding, ended, bound, Closer, idle, holding, shut, finished,
  Subscription, started, Move, dropped, canceled, noticed, stopped, fired, bind_ok, bind_failed,
  swapped, close_reads, close_shuts, close_ends, is_done, notice, leave_wait, bind, swap,
  close_read, close_shut, close_end, step, then_steps, steps,
}

-- The channel that the loop consumes from.
abbrev pub consumed : Phase → ℕ → Option ℕ
consumed delivering ch = some ch
consumed waiting ch = none
consumed binding ch = none
consumed ended ch = none
consumed (bound c) ch = some c

-- No channel has a consumer but that one.
abbrev pub Only : Option ℕ → List ℕ → Type 0
Only o [] = Unit
Only o (c ∷ []) = o ≡ some c
Only o (_ ∷ _ ∷ _) = ⊥

-- Of a backoff, in seconds.
abbrev pub InRange : ℕ → Type 0
InRange b = (1 ≤ b) × (b ≤ 30)

abbrev pub IsSound : Subscription → Type 0
IsSound s = InRange s.backoff × Only (consumed s.phase s.ch) s.consuming

Only-remove : (c : ℕ) (o : Option ℕ) (cs : List ℕ) → Only o cs → Only o (remove c cs)
unfolding remove
Only-remove c o [] h = tt
Only-remove c o (d ∷ []) h = elim (Bool-cases (d == c)) [ inl e ↦ rw e tt | inr e ↦ rw e h ]
Only-remove c o (_ ∷ _ ∷ _) h = absurd h

Only-none : (o : Option ℕ) (cs : List ℕ) → Only none cs → Only o cs
Only-none o [] h = tt
Only-none o (c ∷ []) h = cc
Only-none o (_ ∷ _ ∷ _) h = absurd h

-- What has none is not that one.
Only-dead : (c : ℕ) (cs : List ℕ) → Only (some c) cs → elem c cs ≡ false → Only none cs
unfolding elem
Only-dead c [] h dead = tt
Only-dead c (d ∷ []) h dead = absurd (ground arith)
Only-dead c (_ ∷ _ ∷ _) h dead = absurd h

Only-new : (c : ℕ) (cs : List ℕ) → Only none cs → Only (some c) (c ∷ cs)
Only-new c [] h = refl
Only-new c (d ∷ []) h = cc
Only-new c (_ ∷ _ ∷ _) h = absurd h

next_backoff_range : (b : ℕ) → 1 ≤ b → b ≤ 30 → (1 ≤ next_backoff b) × (next_backoff b ≤ 30)
unfolding next_backoff
next_backoff_range b low high = ground arith

SoundAt : Option Subscription → Type 0
SoundAt none = Unit
SoundAt (some s) = IsSound s

-- Each move, from a phase in which its channels are right.
module _ (s : Subscription) (r : InRange s.backoff) where
  notice-IsSound : (p : Phase) → Only (consumed p s.ch) s.consuming → SoundAt (notice p s)
  unfolding notice SoundAt
  notice-IsSound delivering h = elim (Bool-cases (elem s.ch s.consuming)) [
    | inl up ↦ rw up tt
    | inr dead ↦ elim (Bool-cases (is_done s.closer)) [
      | inl over ↦ rw (dead, over) (r, Only-dead s.ch s.consuming h dead)
      | inr on ↦ rw (dead, on) (r, Only-dead s.ch s.consuming h dead)
    ]
  ]
  notice-IsSound waiting h = tt
  notice-IsSound binding h = tt
  notice-IsSound ended h = tt
  notice-IsSound (bound c) h = tt

  leave_wait-IsSound :
      (to p : Phase) → Only (consumed p s.ch) s.consuming → SoundAt (leave_wait p to s)
  unfolding leave_wait SoundAt
  leave_wait-IsSound to waiting h = (r, Only-none (consumed to s.ch) s.consuming h)
  leave_wait-IsSound to delivering h = tt
  leave_wait-IsSound to binding h = tt
  leave_wait-IsSound to ended h = tt
  leave_wait-IsSound to (bound c) h = tt

  bind-IsSound :
      (well : Bool) (p : Phase) → Only (consumed p s.ch) s.consuming → SoundAt (bind well p s)
  unfolding bind SoundAt
  bind-IsSound true binding h = (r, Only-new s.next s.consuming h)
  bind-IsSound false binding h = (next_backoff_range s.backoff r.0 r.1, h)
  bind-IsSound well delivering h = tt
  bind-IsSound well waiting h = tt
  bind-IsSound well ended h = tt
  bind-IsSound well (bound c) h = tt

  swap-IsSound : (p : Phase) → Only (consumed p s.ch) s.consuming → SoundAt (swap p s)
  unfolding swap SoundAt
  swap-IsSound (bound c) h = ((omega arith, omega arith), h)
  swap-IsSound delivering h = tt
  swap-IsSound waiting h = tt
  swap-IsSound binding h = tt
  swap-IsSound ended h = tt

  module _ (h : Only (consumed s.phase s.ch) s.consuming) where
    close_read-IsSound : (c : Closer) → SoundAt (close_read c s)
    unfolding close_read SoundAt
    close_read-IsSound idle = (r, h)
    close_read-IsSound (holding c) = tt
    close_read-IsSound shut = tt
    close_read-IsSound finished = tt

    close_shut-IsSound : (c : Closer) → SoundAt (close_shut c s)
    unfolding close_shut SoundAt
    close_shut-IsSound (holding c) = (r, Only-remove c _ s.consuming h)
    close_shut-IsSound idle = tt
    close_shut-IsSound shut = tt
    close_shut-IsSound finished = tt

    close_end-IsSound : (c : Closer) → SoundAt (close_end c s)
    unfolding close_end SoundAt
    close_end-IsSound shut = (r, h)
    close_end-IsSound idle = tt
    close_end-IsSound (holding c) = tt
    close_end-IsSound finished = tt

    stopped-IsSound : (b : Bool) → SoundAt (if b then leave_wait s.phase ended s else none)
    unfolding SoundAt
    stopped-IsSound true = leave_wait-IsSound ended s.phase h
    stopped-IsSound false = tt

some_inj : {s t : Subscription} → Path (Option Subscription) (some s) (some t) → s ≡ t
some_inj e = cc

step-IsSound : (m : Move) (s : Subscription) → IsSound s → SoundAt (step m s)
unfolding step SoundAt
step-IsSound (dropped c) s (r, h) = (r, Only-remove c _ s.consuming h)
step-IsSound (canceled c) s (r, h) = (r, Only-remove c _ s.consuming h)
step-IsSound noticed s (r, h) = notice-IsSound s r s.phase h
step-IsSound stopped s (r, h) = stopped-IsSound s r h (is_done s.closer)
step-IsSound fired s (r, h) = leave_wait-IsSound s r binding s.phase h
step-IsSound bind_ok s (r, h) = bind-IsSound s r true s.phase h
step-IsSound bind_failed s (r, h) = bind-IsSound s r false s.phase h
step-IsSound swapped s (r, h) = swap-IsSound s r s.phase h
step-IsSound close_reads s (r, h) = close_read-IsSound s r h s.closer
step-IsSound close_shuts s (r, h) = close_shut-IsSound s r h s.closer
step-IsSound close_ends s (r, h) = close_end-IsSound s r h s.closer

pub then_steps-some :
    (f : Subscription → Option Subscription) (o : Option Subscription) {t : Subscription}
    → then_steps f o ≡ some t
    → (s : Subscription) × (o ≡ some s) × (f s ≡ some t)
unfolding then_steps
then_steps-some f none h = cc
then_steps-some f (some s) h = (s, refl, h)

pub steps-IsSound :
    (ms : List Move) (s t : Subscription) → steps ms s ≡ some t → IsSound s → IsSound t
unfolding steps SoundAt
steps-IsSound [] s t e h = subst IsSound (some_inj e) h
steps-IsSound (m ∷ ms) s t e h =
    let (s', one, more) = then_steps-some (steps ms) (step m s) e in
    steps-IsSound ms s' t more (subst SoundAt one (step-IsSound m s h))

-- However the broker's drops of channels and its cancels of consumers, the rebinds and a Close of a
-- subscription interleave, at most one of its channels has a consumer: the one that its loop consumes
-- from, and none while the loop waits or has ended. Its backoff stays between 1 and 30 seconds.
pub started-IsSound : (ms : List Move) (s : Subscription) → steps ms started ≡ some s → IsSound s
started-IsSound ms s e = steps-IsSound ms started s e ((omega arith, omega arith), refl)
