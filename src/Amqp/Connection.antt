-- ===== src/Amqp/Connection.antt =====
-- rpc/amqp/amqp.go: the transport's connection: connectionForUse, reconnect, publishChannel, Close, and
-- the backoff of the loops that rebind. One goroutine runs at a time, and a call that waits for a
-- mutex that its own goroutine holds is stuck. Connections are numbered as they are dialed; `dial` is
-- the error of a dial, if it fails.
pub mod Locks
pub mod Storm
pub mod Ownership
use yggdrasil_sdk_go.Base.{
  ℕ, zero, suc, ◌*◌, ◌==◌, Bool, true, false, Option, none, some, List, [], ◌∷◌, ltb, ◌⊎◌, inl, inr,
  if◌then◌else◌,
}
use yggdrasil_sdk_go.Base.Texts.{codes}
use yggdrasil_sdk_go.Rpc.{Error, closed, wrapped}

-- A channel: its connection, and whether it was closed by itself.
pub record Channel : Type 0 where
  pub on : ℕ
  pub shut : Bool

-- `Transport`, without its subscriptions: `alive` are the connections that are open at the broker,
-- `dialable` is whether there is a `dialFn`, and the last two are whether the mutexes are held.
pub record Transport : Type 0 where
  pub conn : Option ℕ
  pub alive : List ℕ
  pub next : ℕ
  pub dialable : Bool
  pub pub_ch : Option Channel
  pub is_closed : Bool
  pub dial_held : Bool
  pub pub_held : Bool

unfoldable pub elem : ℕ → List ℕ → Bool
elem c [] = false
elem c (d ∷ ds) = if d == c then true else elem c ds

unfoldable pub remove : ℕ → List ℕ → List ℕ
remove c [] = []
remove c (d ∷ ds) = let rest = remove c ds in if d == c then rest else d ∷ rest

-- How a call ends: with a result, or never.
pub data Outcome (A : Type 0) : Type 0 where
  returned : Transport → A → Outcome A
  stuck : Outcome A

-- `conn != nil && !conn.IsClosed()`
unfoldable pub live : Option ℕ → List ℕ → Option ℕ
unfolding elem
live none alive = none
live (some c) alive = if elem c alive then some c else none

-- `t.conn.Close()`, if there is a connection; closing a dead one changes nothing.
unfoldable pub close_conn : Option ℕ → List ℕ → List ℕ
unfolding remove
close_conn none alive = alive
close_conn (some c) alive = remove c alive

-- `reconnect` behind a dial that has given the next connection: it is installed, and the publish channel
-- is dropped.
unfoldable pub install : Transport → Outcome (Error ⊎ Option ℕ)
unfolding close_conn
install t =
    if t.pub_held
    then stuck
    else returned
        (record t {
          conn = some t.next;
          alive = t.next ∷ close_conn t.conn t.alive;
          next = suc t.next;
          pub_ch = none;
          dial_held = false;
        })
        (inr (some t.next))

-- The dial, with `dialMu` held.
dial_next : Option Error → Transport → Outcome (Error ⊎ Option ℕ)
unfolding install
dial_next (some err) t = returned (record t { dial_held = false }) (inl err)
dial_next none t = install t

reconnect_checked : Option Error → Transport → Option ℕ → Outcome (Error ⊎ Option ℕ)
unfolding dial_next
reconnect_checked dial t (some c) = returned (record t { dial_held = false }) (inr (some c))
reconnect_checked dial t none =
    if t.is_closed then returned (record t { dial_held = false }) (inl closed) else dial_next dial t

unfoldable pub reconnect : Option Error → Transport → Outcome (Error ⊎ Option ℕ)
unfolding reconnect_checked live
reconnect dial t =
    if t.dial_held
    then stuck
    else reconnect_checked dial (record t { dial_held = true }) (live t.conn t.alive)

use_checked : Option Error → Transport → Option ℕ → Outcome (Error ⊎ Option ℕ)
unfolding reconnect
use_checked dial t (some c) = returned t (inr (some c))
use_checked dial t none =
    if t.is_closed
    then returned t (inl closed)
    else if t.dialable
    then reconnect dial t
    else returned t (inr t.conn)

-- `connectionForUse`; the result of the legacy mode is the connection as it is.
unfoldable pub connection_for_use : Option Error → Transport → Outcome (Error ⊎ Option ℕ)
unfolding use_checked live
connection_for_use dial t = use_checked dial t (live t.conn t.alive)

-- `t.pubCh != nil && !t.pubCh.IsClosed()`
unfoldable pub usable : Option Channel → List ℕ → Option Channel
unfolding elem
usable none alive = none
usable (some ch) alive = if ch.shut then none else if elem ch.on alive then some ch else none

-- The result of `conn.Channel()`.
open_with : Transport → Error ⊎ Channel → Outcome (Error ⊎ Channel)
open_with t (inl err) =
    returned (record t { pub_held = false })
      (inl (wrapped (codes "amqp: open publish channel: ") err))
open_with t (inr ch) = returned (record t { pub_held = false; pub_ch = some ch }) (inr ch)

-- The part of `publishChannel` behind `connectionForUse`; `channel` is `conn.Channel()`.
open_channel : (Option ℕ → Error ⊎ Channel) → Outcome (Error ⊎ Option ℕ) → Outcome (Error ⊎ Channel)
unfolding open_with
open_channel channel stuck = stuck
open_channel channel (returned t (inl err)) =
    returned (record t { pub_held = false })
      (inl (wrapped (codes "amqp: get connection for publish: ") err))
open_channel channel (returned t (inr c)) = open_with t (channel c)

publish_checked :
    Option Error
    → (Option ℕ → Error ⊎ Channel)
    → Transport
    → Option Channel
    → Outcome (Error ⊎ Channel)
unfolding open_channel
publish_checked dial channel t (some ch) = returned (record t { pub_held = false }) (inr ch)
publish_checked dial channel t none = open_channel channel (connection_for_use dial t)

unfoldable pub publish_channel :
    Option Error → (Option ℕ → Error ⊎ Channel) → Transport → Outcome (Error ⊎ Channel)
unfolding publish_checked usable
publish_channel dial channel t =
    if t.pub_held
    then stuck
    else publish_checked dial channel (record t { pub_held = true }) (usable t.pub_ch t.alive)

-- `Close`, the first time; the subscriptions close their channels.
close_open : Transport → Outcome Bool
unfolding close_conn
close_open t =
    if t.pub_held
    then stuck
    else returned
        (record t {
          conn = none;
          alive = close_conn t.conn t.alive;
          pub_ch = none;
          is_closed = true;
        })
        true

-- The result is whether this call has closed the transport.
unfoldable pub close : Transport → Outcome Bool
unfolding close_open
close t = if t.is_closed then returned t false else close_open t

-- The next backoff of a failing loop, in seconds: doubled, and 30 at most.
unfoldable pub next_backoff : ℕ → ℕ
next_backoff b = if ltb b 30 then (if ltb 30 (b * 2) then 30 else b * 2) else b

-- The backoff behind a number of failures.
unfoldable pub backoff_after : ℕ → ℕ
unfolding next_backoff
backoff_after zero = 1
backoff_after (suc n) = next_backoff (backoff_after n)
