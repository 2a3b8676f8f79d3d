-- ===== src/Amqp/Watchdog.antt =====
-- rpc/amqp/amqp.go: New, NewWithDial, SetDialFunc, and the watchdogLoop that they start, round by
-- round.
pub mod Recovery
use yggdrasil_sdk_go.Base.{
  ℕ, Bool, true, false, Option, none, some, List, [], ◌∷◌, ◌⊎◌, inl, inr, if◌then◌else◌,
}
use yggdrasil_sdk_go.Base.Texts.{codes}
use yggdrasil_sdk_go.Rpc.{Error, message, wrapped}
use yggdrasil_sdk_go.Amqp.Connection.{
  Transport, Outcome, returned, stuck, live, reconnect, next_backoff,
}

-- `New`, of the first connection.
unfoldable pub new : Transport
new = record {
  conn = some 0;
  alive = 0 ∷ [];
  next = 1;
  dialable = false;
  pub_ch = none;
  is_closed = false;
  dial_held = false;
  pub_held = false;
}

first_dialed : Option Error → Error ⊎ Transport
unfolding new
first_dialed (some err) = inl (wrapped (codes "amqp: initial dial: ") err)
first_dialed none = inr (record new { dialable = true })

-- `NewWithDial`, of a nil function or of the error of its first dial.
unfoldable pub new_with_dial : Option (Option Error) → Error ⊎ Transport
unfolding first_dialed
new_with_dial none = inl (message (codes "amqp: NewWithDial requires a non-nil DialFunc"))
new_with_dial (some dial) = first_dialed dial

-- `SetDialFunc`, of a function that may be nil.
unfoldable pub set_dial_func : Bool → Transport → Transport
set_dial_func false t = t
set_dial_func true t = record t { dialable = true }

-- How a round ends: the loop returns, it sleeps some seconds and goes on, it goes on at once, or it
-- waits for its connection to close.
pub data Round : Type 0 where
  ended again watching : Round
  asleep : ℕ → Round

dialed : ℕ → Outcome (Error ⊎ Option ℕ) → Outcome Round
dialed backoff stuck = stuck
dialed backoff (returned t (inl err)) = returned t (asleep backoff)
dialed backoff (returned t (inr c)) = returned t again

watch_conn : Option Error → Transport → ℕ → Option ℕ → Outcome Round
unfolding dialed
watch_conn dial t backoff (some c) = returned t watching
watch_conn dial t backoff none = dialed backoff (reconnect dial t)

-- A round of the loop, with its backoff; `dial` is the error of the dial that it may make.
unfoldable pub watch_once : Option Error → Transport → ℕ → Outcome Round
unfolding watch_conn
watch_once dial t backoff =
    if t.is_closed
    then returned t ended
    else if t.dialable
    then watch_conn dial t backoff (live t.conn t.alive)
    else returned t ended

-- The seconds that were slept, and how the last round has ended.
abbrev pub Watched : Type 0
Watched = List ℕ × Round

slept_first : ℕ → Outcome Watched → Outcome Watched
slept_first n stuck = stuck
slept_first n (returned t (slept, last)) = returned t (n ∷ slept, last)

go_on : (Transport → ℕ → Outcome Watched) → ℕ → Outcome Round → Outcome Watched
unfolding slept_first
go_on loop backoff stuck = stuck
go_on loop backoff (returned t ended) = returned t ([], ended)
go_on loop backoff (returned t watching) = returned t ([], watching)
go_on loop backoff (returned t again) = loop t 1
go_on loop backoff (returned t (asleep n)) = slept_first n (loop t (next_backoff backoff))

-- `watchdogLoop` over the dials of its rounds, one for each, until it waits or returns.
unfoldable pub watchdog_loop : List (Option Error) → Transport → ℕ → Outcome Watched
unfolding watch_once go_on
watchdog_loop [] t backoff = returned t ([], again)
watchdog_loop (dial ∷ dials) t backoff =
    go_on (watchdog_loop dials) backoff (watch_once dial t backoff)
