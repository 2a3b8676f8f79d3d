-- ===== src/Amqp/Rebind/Late.antt =====
-- What is left of a subscription of rpc/amqp/amqp.go that is closed: while it delivers, and while it
-- rebinds.
use yggdrasil_sdk_go.Base.{ℕ, suc, Bool, true, false, none, some, List, [], ◌∷◌, ◌≡◌, refl, arith}
use yggdrasil_sdk_go.Amqp.Connection.{elem, remove}
use yggdrasil_sdk_go.Amqp.Rebind.{
  delivering, binding, ended, idle, finished, Subscription, started, Move, dropped, canceled,
  noticed, stopped, fired, bind_ok, bind_failed, swapped, close_reads, close_shuts, close_ends,
  is_done, notice, leave_wait, bind, swap, close_read, close_shut, close_end, step, then_steps,
  steps,
}
use yggdrasil_sdk_go.Amqp.Rebind.Channels.{Only, started-IsSound}

-- The moves of the broker.
abbrev pub is_drop : Move → Bool
is_drop (dropped c) = true
is_drop (canceled c) = true
is_drop noticed = false
is_drop stopped = false
is_drop fired = false
is_drop bind_ok = false
is_drop bind_failed = false
is_drop swapped = false
is_drop close_reads = false
is_drop close_shuts = false
is_drop close_ends = false

-- Behind a successful rebind.
abbrev pub rebound : Subscription → Subscription
rebound s = record {
  phase = delivering;
  ch = s.next;
  alive = s.next ∷ s.alive;
  consuming = s.next ∷ s.consuming;
  next = suc s.next;
  backoff = 1;
  closer = s.closer;
}

module _ (s : Subscription) (m : Move) (closed : s.closer ≡ finished) where
  rebound_stuck : is_drop m ≡ false → step m (rebound s) ≡ none
  unfolding step notice leave_wait bind swap close_read close_shut close_end elem
  rebound_stuck h = go m h
    where
      go : (n : Move) → is_drop n ≡ false → step n (rebound s) ≡ none
      go (dropped c) h = cc
      go (canceled c) h = cc
      go noticed h = ground arith
      go stopped h = rw closed
      go fired h = refl
      go bind_ok h = refl
      go bind_failed h = refl
      go swapped h = refl
      go close_reads h = rw closed
      go close_shuts h = rw closed
      go close_ends h = rw closed

-- A rebind that succeeds behind a Close leaves an open channel with a consumer on the closed
-- subscription; from there no move is possible but that the broker drops a channel or cancels a consumer.
pub late_bind_leaks :
    (s : Subscription) (m : Move)
    → s.phase ≡ binding
    → s.closer ≡ finished
    → is_drop m ≡ false
    → (steps (bind_ok ∷ swapped ∷ []) s ≡ some (rebound s)) × (step m (rebound s) ≡ none)
unfolding steps step then_steps bind swap
late_bind_leaks s m busy closed stays = (rw busy, rebound_stuck s m closed stays)

remove-Only : (c : ℕ) (cs : List ℕ) → Only (some c) cs → remove c cs ≡ []
unfolding remove
remove-Only c [] h = refl
remove-Only c (d ∷ []) h = ground arith
remove-Only c (_ ∷ _ ∷ _) h = absurd h

-- The subscription, closed and at its end, with no consumer.
abbrev pub over : Subscription → Subscription
over s = record s { phase = ended; alive = remove s.ch s.alive; consuming = []; closer = finished }

-- A Close that finds the loop delivering ends it, closes its channel and leaves no consumer, whatever was
-- dropped, canceled and rebound before.
pub close_steps :
    (ms : List Move) (s : Subscription)
    → steps ms started ≡ some s
    → s.phase ≡ delivering
    → s.closer ≡ idle
    → steps (close_reads ∷ close_shuts ∷ close_ends ∷ noticed ∷ []) s ≡ some (over s)
unfolding steps step then_steps close_read close_shut close_end notice is_done elem
close_steps ms s reached busy open_still =
    let (_, only) = started-IsSound ms s reached in
    let none_left : remove s.ch s.consuming ≡ [] = remove-Only s.ch s.consuming (rw busy at only) in
    simp (open_still, busy, none_left) refl
