-- ===== src/Amqp/Rebind/Open.antt =====
-- Which channels a subscription of rpc/amqp/amqp.go leaves open.
use yggdrasil_sdk_go.Base.{
  if◌then◌else◌, ℕ, ◌==◌, Bool, true, false, Option, some, List, [], ◌∷◌, ◌≡◌, arith, All,
}
use yggdrasil_sdk_go.Amqp.Connection.{elem, remove}
use yggdrasil_sdk_go.Amqp.Rebind.{
  Closer, idle, holding, shut, finished, Subscription, started, Move, dropped, canceled,
  close_shuts, close_shut, step, steps,
}
use yggdrasil_sdk_go.Amqp.Rebind.Channels.{Only, consumed, then_steps-some, started-IsSound}

-- The broker cancels the consumer of that channel.
abbrev pub cancels : ℕ → Move → Bool
cancels c (canceled d) = d == c
cancels c m = false

-- The channel is open only with its consumer.
abbrev IsTied : ℕ → Subscription → Type 0
IsTied c s = elem c s.alive ≡ true → elem c s.consuming ≡ true

elem-remove_if :
    (c d : ℕ) (cs : List ℕ) → elem c (remove d cs) ≡ (if d == c then false else elem c cs)
unfolding elem remove
elem-remove_if c d [] = ground arith
elem-remove_if c d (x ∷ cs) = ground (arith, elem-remove_if c d cs)

step-IsTied :
    (c : ℕ) (m : Move) (s s' : Subscription)
    → cancels c m ≡ false
    → step m s ≡ some s'
    → IsTied c s
    → IsTied c s'
unfolding step elem
step-IsTied c (dropped d) s s' n e h =
    λ o. ground (arith, h, elem-remove_if c d s.alive, elem-remove_if c d s.consuming)
step-IsTied c (canceled d) s s' n e h = λ o. ground (arith, h, elem-remove_if c d s.consuming)
step-IsTied c close_shuts s s' n e h = go s.closer e
  where
    go : (p : Closer) → close_shut p s ≡ some s' → IsTied c s'
    go (holding d) e =
        λ o. ground (arith, h, elem-remove_if c d s.alive, elem-remove_if c d s.consuming)
    go idle e = cc
    go shut e = cc
    go finished e = cc
step-IsTied c m s s' n e h = λ o. ground (arith, h)

steps-IsTied :
    (c : ℕ) (ms : List Move) (s s' : Subscription)
    → All (λ m. cancels c m ≡ false) ms
    → steps ms s ≡ some s'
    → IsTied c s
    → IsTied c s'
unfolding steps
steps-IsTied c [] s s' a e h = λ o. ground (arith, h)
steps-IsTied c (m ∷ ms) s s' (n, a) e h =
    let (t, one, more) = then_steps-some (steps ms) (step m s) e in
    steps-IsTied c ms t s' a more (step-IsTied c m s t n one h)

elem-Only : (c : ℕ) (o : Option ℕ) (cs : List ℕ) → Only o cs → elem c cs ≡ true → o ≡ some c
unfolding elem
elem-Only c o [] h e = cc
elem-Only c o (d ∷ []) h e = ground arith
elem-Only c o (_ ∷ _ ∷ _) h e = absurd h

-- However the moves interleave, a channel whose consumer the broker has not canceled is open at most while
-- the loop consumes from it.
pub open_channel :
    (c : ℕ) (ms : List Move) (s : Subscription)
    → All (λ m. cancels c m ≡ false) ms
    → steps ms started ≡ some s
    → elem c s.alive ≡ true
    → consumed s.phase s.ch ≡ some c
open_channel c ms s a e up =
    elem-Only c (consumed s.phase s.ch) s.consuming (started-IsSound ms s e).1
      (steps-IsTied c ms started s a e (λ o. o) up)
