-- ===== src/Amqp/Schedule.antt =====
-- rpc/amqp/amqp.go: connectionForUse, reconnect, publishChannel, Close and watchdogLoop on as many
-- goroutines as there are, which interleave at the mutexes and at every read and write of what they
-- share. A move of a goroutine is what it does under connMu or closeMu, which no one holds across a
-- wait, or what it does between two such sections; dialMu and pubMu have the goroutine that holds them.
-- The subscriptions that Close closes are those of Amqp.Rebind.
pub mod Mutexes
pub mod Deadlock
pub mod Progress
pub mod Connections
pub mod Used
pub mod Numbers
pub mod Redials
pub mod Dials
pub mod Late
pub mod Alone
use yggdrasil_sdk_go.Base.{
  ℕ, zero, suc, ◌==◌, Bool, true, false, Option, none, some, List, [], ◌∷◌, ◌⊎◌, inl, inr,
  if◌then◌else◌,
}
use yggdrasil_sdk_go.Rpc.{Error, closed}
use yggdrasil_sdk_go.Amqp.Connection.{Channel, elem, remove, live, usable, close_conn}

-- `Transport`, without its subscriptions: `alive` are the connections that are open at the broker,
-- `dialable` is whether there is a `dialFn`, and the last two are who holds dialMu and pubMu.
pub record Shared : Type 0 where
  pub conn : Option ℕ
  pub alive : List ℕ
  pub next : ℕ
  pub dialable : Bool
  pub pub_ch : Option Channel
  pub is_closed : Bool
  pub dial_by : Option ℕ
  pub pub_by : Option ℕ

-- Who has called connectionForUse, or reconnect: setupConsumer or Request, publishChannel, or the
-- watchdog.
pub data Caller : Type 0 where
  user publisher watchdog : Caller

-- Where a goroutine stands.
pub data Phase : Type 0 where
  -- in connectionForUse: before the read of the connection, with it, and before the read of `closed`
  reading : Caller → Phase
  testing checking : Caller → Option ℕ → Phase
  -- in reconnect: before dialMu, then with it: before the two checks, before the dial, with a new
  -- connection, and with that one installed
  locking_dial rechecking checking_closed dialing : Caller → Phase
  installing resetting : Caller → ℕ → Phase
  -- in publishChannel: before pubMu, then with it: before the test of the channel, and with what
  -- connectionForUse has returned
  locking_pub examining : Phase
  opening : Error ⊎ Option ℕ → Phase
  -- in Close: at its start, before pubMu, before the read of the connection, and with it
  closing closing_pub closing_conn : Phase
  hanging_up : Option ℕ → Phase
  -- in watchdogLoop: at the head of the loop, before the read of the connection, with it, and in the wait
  -- for its close
  watching peeking : Phase
  looking : Option ℕ → Phase
  listening : ℕ → Phase
  -- behind a return, and behind a use of a nil connection
  answered : Error ⊎ Option ℕ → Phase
  finished crashed : Phase

-- Where a caller goes on. The pause of the watchdog behind a failed dial stands in Amqp.Watchdog: here
-- a goroutine may rest before any move.
unfoldable pub back : Caller → Error ⊎ Option ℕ → Phase
back user r = answered r
back publisher r = opening r
back watchdog r = watching

-- What a goroutine does to what is shared, and where it stands then; `none` where it waits.
abbrev pub Advanced : Type 0
Advanced = Option (Shared × Phase)

-- `!conn.IsClosed()`, of the connection that was read.
tested : Caller → Option ℕ → Option ℕ → Phase
unfolding back
tested w o (some c) = back w (inr (some c))
tested w o none = checking w o

lock_dial : ℕ → Caller → Shared → Option ℕ → Advanced
lock_dial i w m none = some (record m { dial_by = some i }, rechecking w)
lock_dial i w m (some j) = none

recheck : Caller → Shared → Option ℕ → Advanced
unfolding back
recheck w m (some c) = some (record m { dial_by = none }, back w (inr (some c)))
recheck w m none = some (m, checking_closed w)

-- The end of `dialFn`.
dial : Option Error → Caller → Shared → Advanced
unfolding back
dial (some err) w m = some (record m { dial_by = none }, back w (inl err))
dial none w m = some (record m { alive = m.next ∷ m.alive; next = suc m.next }, installing w m.next)

-- The publish channel is dropped under pubMu, and dialMu is given back.
reset : Caller → ℕ → Shared → Option ℕ → Advanced
unfolding back
reset w c m none = some (record m { pub_ch = none; dial_by = none }, back w (inr (some c)))
reset w c m (some j) = none

lock_pub : ℕ → Shared → Option ℕ → Advanced
lock_pub i m none = some (record m { pub_by = some i }, examining)
lock_pub i m (some j) = none

examine : Shared → Option Channel → Advanced
examine m (some ch) = some (record m { pub_by = none }, finished)
examine m none = some (m, reading publisher)

-- The rest of publishChannel, with the error of `conn.Channel()`.
open_on : Option Error → Shared → Error ⊎ Option ℕ → Advanced
open_on failure m (inl err) = some (record m { pub_by = none }, finished)
open_on failure m (inr none) = some (record m { pub_by = none }, crashed)
open_on (some err) m (inr (some c)) = some (record m { pub_by = none }, finished)
open_on none m (inr (some c)) =
    some (record m { pub_by = none; pub_ch = some (record { on = c; shut = false }) }, finished)

close_pub : Shared → Option ℕ → Advanced
close_pub m none = some (record m { pub_ch = none }, closing_conn)
close_pub m (some j) = none

look : Option ℕ → Phase
look (some c) = listening c
look none = locking_dial watchdog

-- A move of goroutine `i`; `failure` is the error of the dial or of the new channel, if it makes one.
unfoldable pub advance : (failure : Option Error) (i : ℕ) → Phase → Shared → Advanced
unfolding back tested lock_dial recheck dial reset lock_pub examine open_on close_pub look live
    usable close_conn elem
advance failure i (reading w) m = some (m, testing w m.conn)
advance failure i (testing w o) m = some (m, tested w o (live o m.alive))
advance failure i (checking w o) m = some (
  m,
  if m.is_closed
      then back w (inl closed)
      else if m.dialable
      then locking_dial w
      else back w (inr o),
)
advance failure i (locking_dial w) m = lock_dial i w m m.dial_by
advance failure i (rechecking w) m = recheck w m (live m.conn m.alive)
advance failure i (checking_closed w) m =
    if m.is_closed
    then some (record m { dial_by = none }, back w (inl closed))
    else some (m, dialing w)
advance failure i (dialing w) m = dial failure w m
advance failure i (installing w c) m =
    some (record m { alive = close_conn m.conn m.alive; conn = some c }, resetting w c)
advance failure i (resetting w c) m = reset w c m m.pub_by
advance failure i locking_pub m = lock_pub i m m.pub_by
advance failure i examining m = examine m (usable m.pub_ch m.alive)
advance failure i (opening r) m = open_on failure m r
advance failure i closing m =
    if m.is_closed then some (m, finished) else some (record m { is_closed = true }, closing_pub)
advance failure i closing_pub m = close_pub m m.pub_by
advance failure i closing_conn m = some (record m { conn = none }, hanging_up m.conn)
advance failure i (hanging_up o) m = some (record m { alive = close_conn o m.alive }, finished)
advance failure i watching m = some (m, if m.is_closed then finished else peeking)
advance failure i peeking m = some (m, if m.dialable then looking m.conn else finished)
advance failure i (looking o) m = some (m, look (live o m.alive))
advance failure i (listening c) m =
    if m.is_closed then some (m, finished) else if elem c m.alive then none else some (m, watching)
advance failure i (answered r) m = none
advance failure i finished m = none
advance failure i crashed m = none

-- The transport with its goroutines.
pub record System : Type 0 where
  pub shared : Shared
  pub phases : ℕ → Phase

unfoldable pub update : (ℕ → Phase) → ℕ → Phase → ℕ → Phase
update phases i p j = if i == j then p else phases j

-- A goroutine moves, or the broker closes a connection or the publish channel.
pub data Turn : Type 0 where
  turn : ℕ → Option Error → Turn
  dropped : ℕ → Turn
  channel_dropped : Turn

pub moved : System → ℕ → Advanced → Option System
moved s i none = none
moved s i (some (m, p)) = some (record { shared = m; phases = update s.phases i p })

shut_channel : Option Channel → Option Channel
shut_channel none = none
shut_channel (some ch) = some (record ch { shut = true })

unfoldable pub step : Turn → System → Option System
unfolding advance moved shut_channel remove
step (turn i failure) s = moved s i (advance failure i (s.phases i) s.shared)
step (dropped c) s =
    some (record s { shared = record s.shared { alive = remove c s.shared.alive } })
step channel_dropped s =
    some (record s { shared = record s.shared { pub_ch = shut_channel s.shared.pub_ch } })

then_run : (System → Option System) → Option System → Option System
then_run more none = none
then_run more (some s) = more s

unfoldable pub run : List Turn → System → Option System
unfolding step then_run
run [] s = some s
run (t ∷ ts) s = then_run (run ts) (step t s)

-- What a goroutine was started for.
pub data Call : Type 0 where
  using publishing shutting guarding : Call

unfoldable pub entry : Call → Phase
entry using = reading user
entry publishing = locking_pub
entry shutting = closing
entry guarding = watching

-- The goroutines are numbered in their order; there is none behind the last.
unfoldable pub phase_of : List Call → ℕ → Phase
unfolding entry
phase_of [] i = finished
phase_of (c ∷ cs) zero = entry c
phase_of (c ∷ cs) (suc i) = phase_of cs i

-- A new transport with the goroutines that will call it.
unfoldable pub start : Bool → List Call → System
unfolding phase_of
start dialable calls = record {
  shared = record {
    conn = some 0;
    alive = 0 ∷ [];
    next = 1;
    dialable = dialable;
    pub_ch = none;
    is_closed = false;
    dial_by = none;
    pub_by = none;
  };
  phases = phase_of calls;
}
