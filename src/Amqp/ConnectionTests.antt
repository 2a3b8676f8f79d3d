-- ===== src/Amqp/ConnectionTests.antt =====
-- The theorems on the connection of rpc/amqp/amqp.go and on Consume at work.
use yggdrasil_sdk_go.Base.{ℕ, true, false, Option, none, some, [], ◌⊎◌, inr, refl}
use yggdrasil_sdk_go.Base.Int.{pos}
use yggdrasil_sdk_go.Base.Texts.{codes}
use yggdrasil_sdk_go.Rpc.{Error, ConsumerConfig, Handler, done, message}
use yggdrasil_sdk_go.Amqp.Connection.{Channel, Transport, remove, close_conn, close}
use yggdrasil_sdk_go.Amqp.Connection.Ownership.{fresh, Reached, made, ended}
use yggdrasil_sdk_go.Amqp.Consume.{Broker, consume}
use yggdrasil_sdk_go.Amqp.Consume.Channels.{Leaves, consume-Leaves}

-- A transport whose first connection the broker has dropped.
abbrev lost : Transport
lost = record (fresh true) { alive = [] }

abbrev first_channel : Option ℕ → Error ⊎ Channel
first_channel c = inr (record { on = 1; shut = false })

abbrev over : Transport
over = record (fresh true) { conn = none; alive = []; is_closed = true }

closed_over : Reached over
unfolding close close_conn remove
closed_over = ended {r = true} (made true) refl

abbrev willing : Broker
willing = record {
  connection = none;
  open_channel = none;
  declare_queue = λ q. none;
  set_qos = λ n. some (message (codes "qos refused"));
  start_consumer = λ q. none;
  quote = λ t. t;
}

abbrev quiet : Handler
quiet m = done none

abbrev describe : ConsumerConfig
describe = record {
  endpoint = codes "describe";
  handler = some quiet;
  timeout = pos 0;
  concurrency = pos 0;
}

consume-Leaves_example :
    Leaves
      (codes "yggdrasil.adapter.github.")
      describe
      (consume willing (codes "yggdrasil.adapter.github.") describe)
consume-Leaves_example = consume-Leaves willing (codes "yggdrasil.adapter.github.") describe
