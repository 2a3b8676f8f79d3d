-- ===== src/Amqp/Rebind.antt =====
-- rpc/amqp/amqp.go: the loop of a subscription that rebinds its consumer, and the Close of the
-- subscription, as moves that interleave. Channels are numbered as they are opened.
pub mod Channels
pub mod Late
pub mod Open
use yggdrasil_sdk_go.Base.{
  ℕ, suc, Bool, true, false, Option, none, some, List, [], ◌∷◌, if◌then◌else◌,
}
use yggdrasil_sdk_go.Amqp.Connection.{elem, remove, next_backoff}

-- Where the loop stands: in deliverLoop, in the wait before a rebind, in setupConsumer, between it and
-- swapChannel, or behind its return.
pub data Phase : Type 0 where
  delivering waiting binding ended : Phase
  bound : ℕ → Phase

-- Where Close stands: not called, behind currentChannel, behind the close of that channel, or behind
-- the close of `done`.
pub data Closer : Type 0 where
  idle shut finished : Closer
  holding : ℕ → Closer

-- `subscription`, with the variables of its loop; `alive` are its channels that are open, and
-- `consuming` those whose deliveries go on: the Go channel of the deliveries is closed with its AMQP
-- channel, and also where the broker cancels the consumer and leaves the AMQP channel open.
pub record Subscription : Type 0 where
  pub phase : Phase
  pub ch : ℕ
  pub alive : List ℕ
  pub consuming : List ℕ
  pub next : ℕ
  pub backoff : ℕ
  pub closer : Closer

-- What Consume makes.
abbrev pub started : Subscription
started = record {
  phase = delivering;
  ch = 0;
  alive = 0 ∷ [];
  consuming = 0 ∷ [];
  next = 1;
  backoff = 1;
  closer = idle;
}

pub data Move : Type 0 where
  -- the broker closes a channel, or cancels its consumer
  dropped canceled : ℕ → Move
  -- deliverLoop returns, the wait sees `done`, the timer fires, setupConsumer ends, swapChannel
  noticed stopped fired bind_ok bind_failed swapped : Move
  -- the three parts of Close
  close_reads close_shuts close_ends : Move

-- `s.done` is closed.
is_done : Closer → Bool
is_done idle = false
is_done (holding c) = false
is_done shut = false
is_done finished = true

notice : Phase → Subscription → Option Subscription
unfolding is_done
notice delivering s =
    if elem s.ch s.consuming
    then none
    else some (record s { phase = if is_done s.closer then ended else waiting })
notice waiting s = none
notice binding s = none
notice ended s = none
notice (bound c) s = none

-- The moves out of the wait, with the phase behind.
leave_wait : Phase → Phase → Subscription → Option Subscription
leave_wait waiting to s = some (record s { phase = to })
leave_wait delivering to s = none
leave_wait binding to s = none
leave_wait ended to s = none
leave_wait (bound c) to s = none

bind : Bool → Phase → Subscription → Option Subscription
bind true binding s = some (record s {
  phase = bound s.next;
  alive = s.next ∷ s.alive;
  consuming = s.next ∷ s.consuming;
  next = suc s.next;
})
bind false binding s = some (record s { phase = waiting; backoff = next_backoff s.backoff })
bind well delivering s = none
bind well waiting s = none
bind well ended s = none
bind well (bound c) s = none

swap : Phase → Subscription → Option Subscription
swap (bound c) s = some (record s { phase = delivering; ch = c; backoff = 1 })
swap delivering s = none
swap waiting s = none
swap binding s = none
swap ended s = none

close_read : Closer → Subscription → Option Subscription
close_read idle s = some (record s { closer = holding s.ch })
close_read (holding c) s = none
close_read shut s = none
close_read finished s = none

close_shut : Closer → Subscription → Option Subscription
close_shut (holding c) s =
    some (record s { alive = remove c s.alive; consuming = remove c s.consuming; closer = shut })
close_shut idle s = none
close_shut shut s = none
close_shut finished s = none

close_end : Closer → Subscription → Option Subscription
close_end shut s = some (record s { closer = finished })
close_end idle s = none
close_end (holding c) s = none
close_end finished s = none

-- The state behind a move, where the move can be made.
unfoldable pub step : Move → Subscription → Option Subscription
unfolding notice leave_wait bind swap close_read close_shut close_end is_done
step (dropped c) s = some (record s { alive = remove c s.alive; consuming = remove c s.consuming })
step (canceled c) s = some (record s { consuming = remove c s.consuming })
step noticed s = notice s.phase s
step stopped s = if is_done s.closer then leave_wait s.phase ended s else none
step fired s = leave_wait s.phase binding s
step bind_ok s = bind true s.phase s
step bind_failed s = bind false s.phase s
step swapped s = swap s.phase s
step close_reads s = close_read s.closer s
step close_shuts s = close_shut s.closer s
step close_ends s = close_end s.closer s

pub then_steps : (Subscription → Option Subscription) → Option Subscription → Option Subscription
then_steps more none = none
then_steps more (some s) = more s

-- A sequence of moves.
unfoldable pub steps : List Move → Subscription → Option Subscription
unfolding step then_steps
steps [] s = some s
steps (m ∷ ms) s = then_steps (steps ms) (step m s)
