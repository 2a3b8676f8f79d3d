-- ===== src/Amqp/Tests.antt =====
-- The theorems on rpc/amqp/amqp.go at work.
use yggdrasil_sdk_go.Base.{true, Option, none, [], ◌∷◌, ◌≡◌, ◌≤◌, count_of}
use yggdrasil_sdk_go.Base.Texts.{codes}
use yggdrasil_sdk_go.Rpc.{Error, Handler, done, ack, reply}
use yggdrasil_sdk_go.Adapter.{answered, wrap}
use yggdrasil_sdk_go.Amqp.Delivery.{Raw, Action, nacked, deliver}
use yggdrasil_sdk_go.Amqp.Delivery.Once.{is_settlement, is_reply, deliver_once}
use yggdrasil_sdk_go.Amqp.Delivery.Answers.{deliver-wrap}

abbrev all_well : Action → Option Error
all_well act = none

abbrev ping : Raw
ping = record {
  body = codes "ping";
  content_type = codes "text/plain";
  headers = [];
  correlation_id = codes "c1";
  reply_to = codes "replies";
}

-- It replies twice and acknowledges twice.
abbrev eager : Handler
eager m = reply m.body [] λ r. reply m.body [] λ r'. ack λ a. ack λ b. done none

deliver_once_example :
    (count_of is_settlement (deliver all_well true (codes "echo") ping eager).log ≡ 1)
    × (count_of is_reply (deliver all_well true (codes "echo") ping eager).log ≤ 1)
deliver_once_example = deliver_once all_well true (codes "echo") ping eager

-- A request that nobody waits for, and that is answered well, is put back on its queue.
deliver-wrap_example :
    (deliver all_well true
      (codes "echo")
      (record ping { reply_to = [] })
      (wrap (λ m. done (answered m.body [])))).log
    ≡ nacked true ∷ []
deliver-wrap_example =
    deliver-wrap all_well (codes "echo") (record ping { reply_to = [] }) (λ m. answered m.body [])
