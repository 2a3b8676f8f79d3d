-- ===== src/Amqp/ScheduleTests.antt =====
-- Schedules of the calls of rpc/amqp/amqp.go.
use yggdrasil_sdk_go.Base.{
  ℕ, zero, suc, ◌+◌, ◌≤◌, true, false, Option, none, some, List, [], ◌∷◌, ◌++◌, ◌≡◌, ◌≢◌, ◌⊎◌, inr,
  refl, arith,
}
use yggdrasil_sdk_go.Amqp.Connection.{Transport, elem, live, connection_for_use}
use yggdrasil_sdk_go.Amqp.Schedule.{
  user, reading, answered, crashed, System, Turn, turn, dropped, update, step, run, Call, entry,
  phase_of, using, publishing, shutting, start, finished,
}
use yggdrasil_sdk_go.Amqp.Schedule.Mutexes.{after, phase_of-all, phase_of-each}
use yggdrasil_sdk_go.Amqp.Schedule.Deadlock.{
  blocks, IsDeadlocked, deadlock_lasts, redialed, publish_deadlocks,
}
use yggdrasil_sdk_go.Amqp.Schedule.Progress.{CanMove, HolderMoves, progress, quiet_progress}
use yggdrasil_sdk_go.Amqp.Schedule.Connections.{carries, open_connection}
use yggdrasil_sdk_go.Amqp.Schedule.Used.{never_nil}
use yggdrasil_sdk_go.Amqp.Schedule.Dials.{dials_once}
use yggdrasil_sdk_go.Amqp.Schedule.Redials.{installs, shuts}
use yggdrasil_sdk_go.Amqp.Schedule.Late.{late_dial_leaks}
use yggdrasil_sdk_go.Amqp.Schedule.Alone.{Agrees, shared_of, finish, connection_for_use-finish}

-- A publish, a use of the connection, and Closes.
abbrev mixed : List Call
mixed = publishing ∷ using ∷ shutting ∷ shutting ∷ []

abbrev users : List Call
users = using ∷ using ∷ using ∷ using ∷ []

abbrev times : ℕ → ℕ → List Turn
times zero i = []
times (suc n) i = turn i none ∷ times n i

abbrev reached : Option System → System
reached none = start true mixed
reached (some s) = s

abbrev state : List Turn → System
state ts = reached (run ts (start true mixed))

-- The publish finds its connection dead, and is at the dial.
abbrev at_dial : List Turn
at_dial = dropped 0 ∷ times 8 0

publish_deadlocks_example :
    (run (turn 0 none ∷ turn 0 none ∷ []) (state at_dial) ≡ some (redialed (state at_dial) 0))
    × IsDeadlocked 0 0 (redialed (state at_dial) 0)
unfolding run start update
publish_deadlocks_example = publish_deadlocks true mixed at_dial 0 none refl refl

-- The publish waits for dialMu with pubMu, and the other goroutine has dialed.
abbrev inverted : List Turn
inverted = dropped 0 ∷ times 5 0 ++ times 8 1 ++ times 1 2

inverted_dead : IsDeadlocked 1 0 (state inverted)
unfolding run start update
inverted_dead = record {
  dial_owner = refl;
  pub_owner = refl;
  resets = (user, 1, refl);
  locks = inr refl;
}

-- A second Close returns, and the broker drops the new connection.
abbrev behind : List Turn
behind = turn 3 none ∷ dropped 1 ∷ []

abbrev still_dead : System
still_dead = state (inverted ++ behind)

deadlock_lasts_example :
    IsDeadlocked 1 0 still_dead × (still_dead.phases 2 ≡ (state inverted).phases 2)
unfolding run start update
deadlock_lasts_example =
    deadlock_lasts true mixed inverted behind 1 0 2 refl inverted_dead refl refl

progress_example :
    CanMove (state inverted) 2
    ⊎ ((blocks ((state inverted).phases 2) ≡ true) × HolderMoves (state inverted))
    ⊎ ((j : ℕ) × (k : ℕ) × IsDeadlocked j k (state inverted))
unfolding run start update
progress_example = progress true mixed inverted 2 refl refl

abbrev using_state : List Turn → System
using_state ts = reached (run ts (start true users))

-- One goroutine has dialMu, and two wait for it.
abbrev crowd : List Turn
crowd = dropped 0 ∷ times 6 1 ++ times 3 2 ++ times 3 3

quiet_progress_example :
    CanMove (using_state crowd) 2
    ⊎ ((blocks ((using_state crowd).phases 2) ≡ true) × HolderMoves (using_state crowd))
unfolding run start update
quiet_progress_example =
    quiet_progress true users crowd 2 (λ e. cc, (λ e. cc, (λ e. cc, (λ e. cc, tt)))) refl refl

open_connection_example :
    ((state inverted).shared.conn ≡ some 1)
    ⊎ ((j : ℕ) × (carries ((state inverted).phases j) ≡ some 1))
unfolding run start update elem
open_connection_example = open_connection true mixed inverted 1 refl refl

-- A Close takes the connection while goroutine 1 is about to read it.
abbrev taken : List Turn
taken = times 3 2 ++ times 3 1

never_nil_example :
    ((state taken).phases 1 ≢ crashed) × ((state taken).phases 1 ≢ answered (inr none))
unfolding run start update
never_nil_example = never_nil true mixed taken 1 refl

abbrev lost : List Turn
lost = dropped 0 ∷ []

-- Three goroutines see the dead connection, and all of them return.
abbrev storm : List Turn
storm = times 3 1 ++ times 3 2 ++ times 3 3 ++ times 6 1 ++ times 2 3 ++ times 2 2

fresh_installs : (c : Call) → installs (entry c) ≡ false
unfolding entry
fresh_installs c = ground arith

users_shut : (j : ℕ) → shuts (phase_of users j) ≡ false
unfolding phase_of entry
users_shut j = phase_of-all (λ p. shuts p ≡ false) refl users (refl, (refl, (refl, (refl, tt)))) j

dials_once_example : (using_state (lost ++ storm)).shared.next ≤ (using_state lost).shared.next + 1
unfolding run start update live elem
dials_once_example =
    dials_once true users lost storm refl refl
      (phase_of-each (λ p. installs p ≡ false) refl fresh_installs users) users_shut (omega arith)
      refl

-- A Close has come while goroutine 1 dials.
abbrev closed_dial : List Turn
closed_dial = dropped 0 ∷ times 6 1 ++ times 3 2

late_dial_leaks_example :
    (s' : System) × (run (turn 1 none ∷ turn 1 none ∷ turn 1 none ∷ []) (state closed_dial)
      ≡ some s')
    × (elem (state closed_dial).shared.next s'.shared.alive ≡ true)
    × (s'.phases 1 ≡ answered (inr (some (state closed_dial).shared.next)))
    × (step (turn 3 none) s' ≡ some (after s' 3 s'.shared finished))
unfolding run start update
late_dial_leaks_example =
    late_dial_leaks (state closed_dial) 1 3 none none none refl refl refl refl (λ e. omega arith)
      refl

-- The transport with its connection dropped.
abbrev dropped_transport : Transport
dropped_transport = record {
  conn = some 0;
  alive = [];
  next = 1;
  dialable = true;
  pub_ch = none;
  is_closed = false;
  dial_held = false;
  pub_held = false;
}

connection_for_use-finish_example :
    Agrees
      (finish 9 none 5 (shared_of dropped_transport) (reading user))
      (connection_for_use none dropped_transport)
connection_for_use-finish_example =
    connection_for_use-finish none 5 dropped_transport refl refl (omega arith)
