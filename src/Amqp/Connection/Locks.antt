-- ===== src/Amqp/Connection/Locks.antt =====
-- Which calls of rpc/amqp/amqp.go wait for a mutex of their own goroutine.
use yggdrasil_sdk_go.Base.{
  ℕ, zero, suc, ◌^◌, min, true, false, Option, none, some, List, ◌∷◌, ◌≡◌, ◌≢◌, ◌⊎◌, inl, inr, refl,
  ap, arith, Bool-cases, Option-cases,
}
use yggdrasil_sdk_go.Rpc.{Error}
use yggdrasil_sdk_go.Amqp.Connection.{
  Channel, Transport, Outcome, returned, stuck, live, install, dial_next, reconnect_checked,
  reconnect, use_checked, connection_for_use, usable, open_channel, publish_checked,
  publish_channel, next_backoff, backoff_after,
}

-- Under the mutex of the publish channel a call that has to dial never returns.
stuck_use :
    (t : Transport)
    → t.pub_held ≡ true
    → t.dial_held ≡ false
    → live t.conn t.alive ≡ none
    → t.is_closed ≡ false
    → t.dialable ≡ true
    → use_checked none t (live t.conn t.alive) ≡ stuck
unfolding use_checked reconnect reconnect_checked dial_next install live
stuck_use t held idle lost still can = simp (held, idle, lost, still, can) refl

-- A publish that finds its connection dead, on an open transport that can dial and whose mutexes are
-- free, never returns if the dial succeeds: it dials with the mutex of the publish channel held, and
-- the new connection is installed behind that same mutex.
pub publish_channel_stuck :
    (channel : Option ℕ → Error ⊎ Channel) (t : Transport)
    → t.pub_held ≡ false
    → t.dial_held ≡ false
    → usable t.pub_ch t.alive ≡ none
    → live t.conn t.alive ≡ none
    → t.is_closed ≡ false
    → t.dialable ≡ true
    → publish_channel none channel t ≡ stuck
unfolding publish_channel publish_checked connection_for_use
publish_channel_stuck channel t free idle dead lost still can =
    simp (free, dead)
      (ap (open_channel channel)
        (stuck_use (record t { pub_held = true }) refl idle lost still can))

-- The backoff of a failing loop is the power of two of its failures, in seconds, up to 30.
pub backoff_after_lem : (n : ℕ) → backoff_after n ≡ min (2 ^ n) 30
unfolding backoff_after next_backoff
backoff_after_lem zero = ground arith
backoff_after_lem (suc n) = ground (arith, backoff_after_lem n)

-- No mutex is held.
abbrev pub IsFree : Transport → Type 0
IsFree t = (t.pub_held ≡ false) × (t.dial_held ≡ false)

-- How a use of the connection ends: with free mutexes, in an error, or with the connection that the
-- transport then has, and that one is open.
abbrev pub Settles : Outcome (Error ⊎ Option ℕ) → Type 0
Settles stuck = ⊥
Settles (returned t (inl err)) = IsFree t
Settles (returned t (inr c)) = IsFree t × (t.conn ≡ c) × (live c t.alive ≡ c) × (c ≢ none)

live_head : (c : ℕ) (ds : List ℕ) → live (some c) (c ∷ ds) ≡ some c
unfolding live
live_head c ds = ground arith

live_conn : {c : ℕ} (o : Option ℕ) (alive : List ℕ) → live o alive ≡ some c → o ≡ some c
unfolding live
live_conn none alive h = cc
live_conn (some d) alive h = ground arith

live_again :
    {c : ℕ} (o : Option ℕ) (alive : List ℕ) → live o alive ≡ some c → live (some c) alive ≡ some c
live_again o alive h = rw (live_conn o alive h) at h

-- A use of the connection by a call that holds no mutex always ends: on a transport that can dial, with
-- an error or with an open connection, which the transport then has.
pub connection_for_use-Settles :
    (dial : Option Error) (t : Transport)
    → IsFree t
    → t.dialable ≡ true
    → Settles (connection_for_use dial t)
unfolding connection_for_use use_checked reconnect reconnect_checked dial_next install
connection_for_use-Settles dial t (free, idle) can = elim (Option-cases (live t.conn t.alive)) [
  | inl lost ↦ elim (Bool-cases t.is_closed) [
    | inl over ↦ simp (lost, over) (free, idle)
    | inr still ↦ elim (Option-cases dial) [
      | inl good ↦
          simp (lost, still, can, idle, good, free)
            ((refl, refl), refl, live_head t.next _, λ e. cc)
      | inr (err, bad) ↦ simp (lost, still, can, idle, bad) (free, refl)
    ]
  ]
  | inr (c, there) ↦
      simp there
        ((free, idle), live_conn t.conn t.alive there, live_again t.conn t.alive there, λ e. cc)
]
