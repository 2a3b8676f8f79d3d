-- ===== src/Reconcile/RemoteTests.antt =====
-- A registered reconciler behind AMQP at work.
use yggdrasil_sdk_go.Base.{true, some, List, [], ◌∷◌, ◌++◌, ◌≡◌, inr, refl}
use yggdrasil_sdk_go.Base.Int.{pos}
use yggdrasil_sdk_go.Base.Texts.{Text, codes}
use yggdrasil_sdk_go.Rpc.{Request, done}
use yggdrasil_sdk_go.Adapter.{wrap}
use yggdrasil_sdk_go.Amqp.Delivery.{deliver}
use yggdrasil_sdk_go.Amqp.Client.{Arrival, delivered, id_of, request_publishing, request}
use yggdrasil_sdk_go.Amqp.Client.Loopback.{raw_of, arrivals_of, outcome_reply}
use yggdrasil_sdk_go.Amqp.ClientTests.{willing, takes_all, pong}
use yggdrasil_sdk_go.Reconcile.Registry.{no_options, fresh_site, register_named}
use yggdrasil_sdk_go.Reconcile.Tests.{as_is, codec, repos, clock, parse, ensure_repo, ensure_asked}
use yggdrasil_sdk_go.Reconcile.Remote.{
  outcome_of, execute, operation_response, request-register_named,
}

abbrev ask : Request
ask = record {
  endpoint = codes "yggdrasil.adapter.github.execute";
  body = codes "1";
  content_type = [];
  headers = [];
  correlation_id = codes "c1";
  timeout = pos 0;
}

abbrev reply_queue : Text
reply_queue = codes "amq.gen-1"

-- A delivery with no correlation id.
abbrev stray : List Arrival
stray = delivered (pong []) ∷ []

request-register_named_example :
    (request willing
      (codes "u")
      (stray
        ++ arrivals_of takes_all reply_queue
            (deliver takes_all true ask.endpoint
              (raw_of (request_publishing (codes "u") reply_queue ask))
              (wrap (λ m. done (
                execute as_is parse
                  (register_named codec clock repos as_is
                    (codes "repo")
                    (codes "repo")
                    no_options
                    fresh_site).0
                  m)))).log)
      ask).0
    ≡ some (
        inr (
          outcome_reply (id_of (codes "u") ask) (
            outcome_of (
              operation_response codec clock repos as_is
                (codes "repo")
                (codes "repo")
                no_options
                fresh_site
                ensure_repo
                (codes "ensure_repo")))))
unfolding id_of
request-register_named_example =
    request-register_named codec clock repos as_is as_is parse (codes "repo") (codes "repo")
      no_options fresh_site willing takes_all (codes "u") reply_queue ask stray ensure_asked tt
      (λ r. refl) tt (λ e. cc) refl refl refl refl refl refl ((λ e. cc), tt)
