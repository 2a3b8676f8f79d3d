-- ===== src/Amqp/Schedule/Numbers.antt =====
-- The numbers of the connections of rpc/amqp/amqp.go: a dial gives one that no one has yet.
use yggdrasil_sdk_go.Base.{ℕ, ◌<◌, Bool, Option, none, some, List, ◌≡◌, arith}
use yggdrasil_sdk_go.Rpc.{Error}
use yggdrasil_sdk_go.Amqp.Schedule.{
  Shared, Phase, advance, System, Turn, turn, dropped, channel_dropped, step, run, Call, entry,
  start,
}
use yggdrasil_sdk_go.Amqp.Schedule.Mutexes.{
  Keeps, moved-Keeps, others_keep, Any, All-any, run-Keeps, phase_of-each, kept,
}
use yggdrasil_sdk_go.Amqp.Schedule.Connections.{carries}

-- Connections are numbered in their order.
abbrev pub Below : ℕ → Option ℕ → Type 0
Below n none = Unit {0}
Below n (some c) = c < n

abbrev pub IsNumbered : System → Type 0
IsNumbered s =
    Below s.shared.next s.shared.conn × ((j : ℕ) → Below s.shared.next (carries (s.phases j)))

module _ (failure : Option Error) (i : ℕ) (m m' : Shared) (p p' : Phase)
    (e : advance failure i p m ≡ some (m', p')) (own : Below m.next m.conn)
    (held : Below m.next (carries p)) where
  advance_numbered : Below m'.next m'.conn × Below m'.next (carries p')
  unfolding advance
  advance_numbered = go p e held
    where
      go :
          (q : Phase)
          → advance failure i q m ≡ some (m', p')
          → Below m.next (carries q)
          → Below m'.next m'.conn × Below m'.next (carries p')
      go q e h = ground arith

  advance_next : (o : Option ℕ) → Below m.next o → Below m'.next o
  unfolding advance
  advance_next none h = tt
  advance_next (some c) h = go p e
    where
      go : (q : Phase) → advance failure i q m ≡ some (m', p') → c < m'.next
      go q e = ground arith

step-IsNumbered : (t : Turn) (s : System) → Any t → IsNumbered s → Keeps IsNumbered (step t s)
unfolding step
step-IsNumbered (turn i failure) s _ (own, held) =
    moved-Keeps IsNumbered s i (advance failure i (s.phases i) s.shared) (λ m p e.
      let (own', held') = advance_numbered failure i s.shared m (s.phases i) p e own (held i) in
      (
        own',
        others_keep (λ q. Below m.next (carries q)) s.phases i p held'
            (λ j.
              advance_next failure i s.shared m (s.phases i) p e own (held i) (carries (s.phases j))
                (held j)),
      ))
step-IsNumbered (dropped c) s _ h = h
step-IsNumbered channel_dropped s _ h = h

entry_numbered : (c : Call) → Below 1 (carries (entry c))
unfolding entry
entry_numbered c = ground arith

pub run-IsNumbered :
    (dialable : Bool) (calls : List Call) (ts : List Turn) {s : System}
    → run ts (start dialable calls) ≡ some s
    → IsNumbered s
unfolding start
run-IsNumbered dialable calls ts reached = kept IsNumbered reached (
    run-Keeps IsNumbered Any step-IsNumbered ts (All-any ts) (start dialable calls)
      (omega arith, phase_of-each (λ p. Below 1 (carries p)) tt entry_numbered calls))
