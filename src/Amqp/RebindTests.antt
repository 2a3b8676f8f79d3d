-- ===== src/Amqp/RebindTests.antt =====
-- The theorems on the rebinds and the reconnects of rpc/amqp/amqp.go at work.
use yggdrasil_sdk_go.Base.{none, some, List, [], ◌∷◌, ◌≡◌, refl}
use yggdrasil_sdk_go.Amqp.Connection.{elem, remove, next_backoff}
use yggdrasil_sdk_go.Amqp.Rebind.{
  delivering, binding, Subscription, started, Move, dropped, noticed, fired, bind_ok, bind_failed,
  swapped, close_reads, close_shuts, close_ends, idle, finished, step, steps,
}
use yggdrasil_sdk_go.Amqp.Rebind.Channels.{IsSound, started-IsSound}
use yggdrasil_sdk_go.Amqp.Rebind.Late.{rebound, late_bind_leaks}

-- The broker drops the channel, the loop is about to rebind, and the subscription is closed.
abbrev closed_while_binding : List Move
closed_while_binding = dropped 0 ∷ noticed ∷ fired ∷ close_reads ∷ close_shuts ∷ close_ends ∷ []

abbrev late : Subscription
late = record {
  phase = binding;
  ch = 0;
  alive = [];
  consuming = [];
  next = 1;
  backoff = 1;
  closer = finished;
}

reaches_late : steps closed_while_binding started ≡ some late
unfolding steps elem remove
reaches_late = refl

started-IsSound_example : IsSound late
started-IsSound_example = started-IsSound closed_while_binding late reaches_late

late_bind_leaks_example :
    (steps (bind_ok ∷ swapped ∷ []) late ≡ some (rebound late))
    × (step close_reads (rebound late) ≡ none)
late_bind_leaks_example = late_bind_leaks late close_reads refl refl refl

-- Behind one failed rebind and one that succeeds.
abbrev back : Subscription
back = record {
  phase = delivering;
  ch = 1;
  alive = 1 ∷ [];
  consuming = 1 ∷ [];
  next = 2;
  backoff = 1;
  closer = idle;
}

abbrev outage : List Move
outage = dropped 0 ∷ noticed ∷ fired ∷ bind_failed ∷ fired ∷ bind_ok ∷ swapped ∷ []

reaches_back : steps outage started ≡ some back
unfolding steps elem remove next_backoff
reaches_back = refl
