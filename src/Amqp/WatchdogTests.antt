-- ===== src/Amqp/WatchdogTests.antt =====
-- The watchdog of rpc/amqp/amqp.go at work.
use yggdrasil_sdk_go.Base.{true, none, some, [], ◌∷◌, ◌++◌, map, ◌≡◌, inr, refl}
use yggdrasil_sdk_go.Base.Texts.{codes}
use yggdrasil_sdk_go.Rpc.{Error, message}
use yggdrasil_sdk_go.Amqp.Connection.{returned, live}
use yggdrasil_sdk_go.Amqp.Connection.Storm.{redialed}
use yggdrasil_sdk_go.Amqp.Watchdog.{
  new, new_with_dial, set_dial_func, ended, watching, watchdog_loop,
}
use yggdrasil_sdk_go.Amqp.Watchdog.Recovery.{open_transport, doubling, watchdog_loop-open_transport}

abbrev refused : Error
refused = message (codes "connection refused")

watchdog_loop-open_transport_example :
    watchdog_loop
      (map some (refused ∷ refused ∷ []) ++ none ∷ none ∷ [])
      (open_transport (some 0) [] 1 none)
      1
    ≡ returned (redialed (open_transport (some 0) [] 1 none)) (doubling 0 2, watching)
unfolding live
watchdog_loop-open_transport_example =
    watchdog_loop-open_transport (some 0) [] 1 none (refused ∷ refused ∷ []) none refl

-- A transport of `New` that gets its function behind its construction.
late_function : new_with_dial (some none) ≡ inr (set_dial_func true new)
unfolding new_with_dial set_dial_func
late_function = refl

-- Without a function the loop returns.
nothing_to_watch : watchdog_loop (none ∷ []) new 1 ≡ returned new ([], ended)
unfolding watchdog_loop new
nothing_to_watch = refl
