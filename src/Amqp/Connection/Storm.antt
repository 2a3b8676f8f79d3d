-- ===== src/Amqp/Connection/Storm.antt =====
-- Many calls of rpc/amqp/amqp.go that have found the connection dead, one behind the other at the dial.
use yggdrasil_sdk_go.Base.{
  ap, ℕ, zero, suc, false, Option, none, some, List, [], ◌∷◌, ◌≡◌, ◌⊎◌, inr, refl, arith,
}
use yggdrasil_sdk_go.Rpc.{Error}
use yggdrasil_sdk_go.Amqp.Connection.{
  Transport, Outcome, returned, stuck, live, install, close_conn, dial_next, reconnect_checked,
  reconnect,
}

-- Every call that has seen the dead connection goes through `reconnect`; the results in their order.
also : Error ⊎ Option ℕ → Outcome (List (Error ⊎ Option ℕ)) → Outcome (List (Error ⊎ Option ℕ))
also r stuck = stuck
also r (returned t rs) = returned t (r ∷ rs)

then_all :
    (Transport → Outcome (List (Error ⊎ Option ℕ)))
    → Outcome (Error ⊎ Option ℕ)
    → Outcome (List (Error ⊎ Option ℕ))
unfolding also
then_all more stuck = stuck
then_all more (returned t r) = also r (more t)

unfoldable pub reconnects : ℕ → Transport → Outcome (List (Error ⊎ Option ℕ))
unfolding then_all
reconnects zero t = returned t []
reconnects (suc n) t = then_all (reconnects n) (reconnect none t)

abbrev pub copies : ℕ → Error ⊎ Option ℕ → List (Error ⊎ Option ℕ)
copies zero r = []
copies (suc n) r = r ∷ copies n r

-- With the connection that the next dial gives.
abbrev pub redialed : Transport → Transport
redialed t = record {
  conn = some t.next;
  alive = t.next ∷ close_conn t.conn t.alive;
  next = suc t.next;
  dialable = t.dialable;
  pub_ch = none;
  is_closed = t.is_closed;
  dial_held = false;
  pub_held = t.pub_held;
}

pub live_head : (c : ℕ) (ds : List ℕ) → live (some c) (c ∷ ds) ≡ some c
unfolding live
live_head c ds = ground arith

-- A transport whose connection is open is left as it is.
reconnects_live :
    (n : ℕ) (t : Transport)
    → reconnects n (redialed t) ≡ returned (redialed t) (copies n (inr (some t.next)))
unfolding reconnects reconnect reconnect_checked
reconnects_live zero t = refl
reconnects_live (suc n) t = simp (live_head, reconnects_live n t) refl

-- On an open transport that holds no mutex and whose connection is dead, any number of calls at once
-- make one dial: all get the connection of the first one's.
pub reconnects_once :
    (n : ℕ) (t : Transport)
    → t.dial_held ≡ false
    → t.pub_held ≡ false
    → t.is_closed ≡ false
    → live t.conn t.alive ≡ none
    → reconnects (suc n) t ≡ returned (redialed t) (copies (suc n) (inr (some t.next)))
unfolding reconnects reconnect reconnect_checked dial_next install
reconnects_once n t idle free still lost =
    simp (idle, lost, still, free)
      (ap (also (inr (some t.next)))
        (reconnects_live n (record t { is_closed = false; pub_held = false })))
