-- ===== src/Amqp/Schedule/Alone.antt =====
-- A goroutine of rpc/amqp/amqp.go that runs alone does what Amqp.Connection says of its call.
use yggdrasil_sdk_go.Base.{
  ℕ, zero, suc, Bool, true, false, Option, none, some, List, ◌∷◌, ◌≡◌, ◌⊎◌, inl, inr, refl, arith,
  Bool-cases, Option-cases,
}
use yggdrasil_sdk_go.Rpc.{Error, closed}
use yggdrasil_sdk_go.Amqp.Connection.{
  Channel, Transport, Outcome, returned, stuck, remove, live, usable, close_conn, install,
  reconnect, connection_for_use, publish_channel, close,
}
use yggdrasil_sdk_go.Amqp.Schedule.{
  Shared, user, publisher, Phase, reading, resetting, locking_pub, closing, answered, finished,
  Advanced, advance,
}
use yggdrasil_sdk_go.Amqp.Schedule.Numbers.{Below}

-- The moves of a goroutine, until it waits or returns.
proceed : (Shared → Phase → Shared × Phase) → Shared × Phase → Advanced → Shared × Phase
proceed more stays none = stays
proceed more stays (some (m, p)) = more m p

pub finish : ℕ → Option Error → ℕ → Shared → Phase → Shared × Phase
unfolding proceed
finish zero failure i m p = (m, p)
finish (suc n) failure i m p = proceed (finish n failure i) (m, p) (advance failure i p m)

-- A transport whose mutexes are free.
abbrev pub shared_of : Transport → Shared
shared_of t = record {
  conn = t.conn;
  alive = t.alive;
  next = t.next;
  dialable = t.dialable;
  pub_ch = t.pub_ch;
  is_closed = t.is_closed;
  dial_by = none;
  pub_by = none;
}

abbrev pub Agrees : Shared × Phase → Outcome (Error ⊎ Option ℕ) → Type 0
Agrees r stuck = ⊥
Agrees r (returned t a) = r ≡ (shared_of t, answered a)

close_conn-cons :
    (n : ℕ) (o : Option ℕ) (cs : List ℕ) → Below n o → close_conn o (n ∷ cs) ≡ n ∷ close_conn o cs
unfolding close_conn remove
close_conn-cons n none cs h = refl
close_conn-cons n (some c) cs h = ground arith

-- A use of the connection that runs without other goroutines, on a transport whose mutexes are free and
-- whose connection is older than the next one, ends within nine moves, with the result and the transport
-- that `connectionForUse` has as one uninterrupted call.
pub connection_for_use-finish :
    (failure : Option Error) (i : ℕ) (t : Transport)
    → t.dial_held ≡ false
    → t.pub_held ≡ false
    → Below t.next t.conn
    → Agrees (finish 9 failure i (shared_of t) (reading user)) (connection_for_use failure t)
unfolding finish connection_for_use reconnect install advance
connection_for_use-finish failure i t idle free older = elim (Option-cases (live t.conn t.alive)) [
  | inl lost ↦ elim (Bool-cases t.is_closed) [
    | inl over ↦ simp (lost, over) refl
    | inr still ↦ elim (Bool-cases t.dialable) [
      | inl can ↦ elim (Option-cases failure) [
        | inl good ↦
            simp (lost, still, can, idle, good, free, close_conn-cons t.next t.conn t.alive older)
              refl
        | inr (err, bad) ↦ simp (lost, still, can, idle, bad) refl
      ]
      | inr cannot ↦ simp (lost, still, cannot) refl
    ]
  ]
  | inr (c, there) ↦ simp there refl
]

abbrev pub Closes : Shared × Phase → Outcome Bool → Type 0
Closes r stuck = ⊥
Closes r (returned t b) = r ≡ (shared_of t, finished)

-- A Close that runs without other goroutines ends within four moves, as one uninterrupted call does.
pub close-finish :
    (failure : Option Error) (i : ℕ) (t : Transport)
    → t.pub_held ≡ false
    → Closes (finish 4 failure i (shared_of t) closing) (close t)
unfolding finish close advance
close-finish failure i t free = elim (Bool-cases t.is_closed) [
  | inl over ↦ simp over refl
  | inr still ↦ simp (still, free) refl
]

-- `conn.Channel()`, as a move makes it; a nil connection has none.
abbrev pub channel_of : Option Error → Option ℕ → Error ⊎ Channel
channel_of (some err) o = inl err
channel_of none none = inl closed
channel_of none (some c) = inr (record { on = c; shut = false })

-- A call that never returns has stopped with both mutexes.
abbrev pub Publishes : ℕ → Shared × Phase → Outcome (Error ⊎ Channel) → Type 0
Publishes i r stuck =
    (c : ℕ) × (r.1 ≡ resetting publisher c) × (r.0.dial_by ≡ some i) × (r.0.pub_by ≡ some i)
Publishes i r (returned t a) = r ≡ (shared_of t, finished)

-- A publish that runs without other goroutines, on a transport whose mutexes are free and that has a
-- connection unless it was closed, ends within twelve moves as one uninterrupted call does, and where that
-- call never returns it stops in the reset of the publish channel, with both mutexes.
pub publish_channel-finish :
    (failure : Option Error) (i : ℕ) (t : Transport)
    → t.dial_held ≡ false
    → t.pub_held ≡ false
    → (t.conn ≡ none → t.is_closed ≡ true)
    → Publishes i
        (finish 12 failure i (shared_of t) locking_pub)
        (publish_channel failure (channel_of failure) t)
unfolding finish publish_channel connection_for_use reconnect install advance
publish_channel-finish failure i t idle free guarded =
    elim (Option-cases (usable t.pub_ch t.alive)) [
      | inr (ch, there) ↦ simp (free, there) refl
      | inl useless ↦ elim (Option-cases (live t.conn t.alive)) [
        | inl lost ↦ elim (Bool-cases t.is_closed) [
          | inl over ↦ simp (free, useless, lost, over) refl
          | inr still ↦ elim (Bool-cases t.dialable) [
            | inl can ↦ elim (Option-cases failure) [
              | inl good ↦
                  simp (free, useless, lost, still, can, idle, good) (t.next, refl, refl, refl)
              | inr (err, bad) ↦ simp (free, useless, lost, still, can, idle, bad) refl
            ]
            | inr cannot ↦ elim (Option-cases t.conn) [
              | inl nil ↦ cc (guarded nil)
              | inr (c, own) ↦
                  let dead : live (some c) t.alive ≡ none = rw own at lost in
                  elim (Option-cases failure) [
                    | inl good ↦ simp (free, useless, own, dead, still, cannot, good) refl
                    | inr (err, bad) ↦ simp (free, useless, own, dead, still, cannot, bad) refl
                  ]
            ]
          ]
        ]
        | inr (c, there) ↦ elim (Option-cases failure) [
          | inl good ↦ simp (free, useless, there, good) refl
          | inr (err, bad) ↦ simp (free, useless, there, bad) refl
        ]
      ]
    ]
