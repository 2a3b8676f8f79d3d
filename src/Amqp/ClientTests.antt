-- ===== src/Amqp/ClientTests.antt =====
-- The theorems on Publish and Request of rpc/amqp/amqp.go at work.
use yggdrasil_sdk_go.Base.{true, Option, none, some, List, [], ◌∷◌, ◌++◌, ◌≡◌, ◌↔◌, inl, inr, refl}
use yggdrasil_sdk_go.Base.Int.{pos}
use yggdrasil_sdk_go.Base.Texts.{Text, codes, text_eq}
use yggdrasil_sdk_go.Base.Dict.{get}
use yggdrasil_sdk_go.Rpc.{Error, Message, Request, done, timeout, message}
use yggdrasil_sdk_go.Adapter.{Outcome, answered, wrap}
use yggdrasil_sdk_go.Amqp.Delivery.{Raw, Action, deliver}
use yggdrasil_sdk_go.Amqp.Client.{
  Broker, Arrival, deadline, delivered, reply_of, await_reply, id_of, request_publishing, request,
}
use yggdrasil_sdk_go.Amqp.Client.Waiting.{IsSent, FirstMatch, request_iff}
use yggdrasil_sdk_go.Amqp.Client.Loopback.{
  raw_of, arrivals_of, request_message, outcome_reply, request-deliver,
}

abbrev pub willing : Broker
willing = record {
  connection = none;
  open_channel = none;
  declare_reply_queue = inr (codes "amq.gen-1");
  consume = λ q. none;
  publish = λ p. none;
}

abbrev ping : Request
ping = record {
  endpoint = codes "execute";
  body = codes "ping";
  content_type = [];
  headers = (codes "trace", codes "t1") ∷ [];
  correlation_id = codes "c1";
  timeout = pos 0;
}

abbrev pub pong : Text → Raw
pong id = record {
  body = codes "pong";
  content_type = [];
  headers = [];
  correlation_id = id;
  reply_to = [];
}

-- A delivery with no correlation id, then the reply.
abbrev arriving : List Arrival
arriving = delivered (pong []) ∷ delivered (pong (codes "c1")) ∷ []

request_iff_example :
    ((request willing (codes "u") arriving ping).0 ≡ some (inr (reply_of (pong (codes "c1"))))) ↔ (
      IsSent willing (codes "u") ping
      × FirstMatch (id_of (codes "u") ping) arriving (reply_of (pong (codes "c1"))))
request_iff_example = request_iff willing (codes "u") arriving ping (reply_of (pong (codes "c1")))

skips_stale :
    (request willing (codes "u") arriving ping).0 ≡ some (inr (reply_of (pong (codes "c1"))))
unfolding request await_reply id_of text_eq
skips_stale = refl

-- An expired wait closes its channel.
expires : (request willing (codes "u") (deadline ∷ []) ping).0 ≡ some (inl timeout)
unfolding request await_reply
expires = refl

-- A broker that grants no channel.
abbrev full : Broker
full = record willing { open_channel = some (message (codes "channel max")) }

abbrev pub takes_all : Action → Option Error
takes_all act = none

abbrev shout : Message → Outcome
shout m = answered (m.body ++ codes "!") []

request-deliver_example :
    (request willing
      (codes "u")
      (delivered (pong []) ∷ []
        ++ arrivals_of takes_all
            (codes "amq.gen-1")
            (deliver takes_all true
              (codes "execute")
              (raw_of (request_publishing (codes "u") (codes "amq.gen-1") ping))
              (wrap (λ m. done (shout m)))).log)
      ping).0
    ≡ some (
        inr (
          outcome_reply
            (id_of (codes "u") ping)
            (shout (request_message (codes "u") (codes "amq.gen-1") ping))))
unfolding id_of get
request-deliver_example =
    request-deliver willing takes_all (codes "u") (codes "amq.gen-1") ping shout
      (delivered (pong []) ∷ []) (λ r. refl) (refl, tt) (λ e. cc) refl refl refl refl refl refl
      ((λ e. cc), tt)
