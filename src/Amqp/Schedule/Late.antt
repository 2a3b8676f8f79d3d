-- ===== src/Amqp/Schedule/Late.antt =====
-- A dial of rpc/amqp/amqp.go that comes back behind a Close.
use yggdrasil_sdk_go.Base.{
  ℕ, suc, true, Option, none, some, List, [], ◌∷◌, ◌≡◌, ◌≢◌, inr, refl, arith,
}
use yggdrasil_sdk_go.Rpc.{Error}
use yggdrasil_sdk_go.Amqp.Connection.{elem}
use yggdrasil_sdk_go.Amqp.Schedule.{
  user, dialing, installing, resetting, closing, answered, finished, System, update, turn, step,
  run,
}
use yggdrasil_sdk_go.Amqp.Schedule.Mutexes.{after, update_self, update_other}

elem_head : (c : ℕ) (cs : List ℕ) → elem c (c ∷ cs) ≡ true
unfolding elem
elem_head c cs = ground arith

-- Where Close has taken the connection while a goroutine dials, the dial that then succeeds puts an open
-- connection into the closed transport, which the goroutine gets with no error, and a later Close
-- returns at once and leaves it open.
pub late_dial_leaks :
    (s : System) (i j : ℕ) (f g h : Option Error)
    → s.phases i ≡ dialing user
    → s.shared.is_closed ≡ true
    → s.shared.conn ≡ none
    → s.shared.pub_by ≡ none
    → i ≢ j
    → s.phases j ≡ closing
    → (s' : System) × (run (turn i none ∷ turn i f ∷ turn i g ∷ []) s ≡ some s')
      × (elem s.shared.next s'.shared.alive ≡ true)
      × (s'.phases i ≡ answered (inr (some s.shared.next)))
      × (step (turn j h) s' ≡ some (after s' j s'.shared finished))
unfolding run
late_dial_leaks s i j f g h e over none_left free other at_close = (
  record {
    shared = record s.shared {
      conn = some s.shared.next;
      alive = s.shared.next ∷ s.shared.alive;
      next = suc s.shared.next;
      pub_ch = none;
      dial_by = none;
    };
    phases =
        update
          (update (update s.phases i (installing user s.shared.next)) i
            (resetting user s.shared.next))
          i (answered (inr (some s.shared.next)));
  },
  simp (e, update_self, none_left, free) refl,
  elem_head s.shared.next s.shared.alive,
  update_self _ i _,
  rw
      (
        update_other _ i (answered (inr (some s.shared.next))) j other,
        update_other _ i (resetting user s.shared.next) j other,
        update_other _ i (installing user s.shared.next) j other,
        at_close,
        over,
      )
      refl,
)
