-- ===== src/Reconcile/Remote.antt =====
-- An adapter with a registered reconciler as its clients over AMQP see it: sdk/reconcile behind
-- adapter/adapter.go and rpc/amqp/amqp.go.
use yggdrasil_sdk_go.Base.{
  true, false, Option, none, some, List, [], ◌++◌, ◌≡◌, ◌≢◌, ◌⊎◌, inl, inr, ap, ◌∙◌, All,
  if◌then◌else◌,
}
use yggdrasil_sdk_go.Base.Texts.{Text, codes, is_empty, text_eq}
use yggdrasil_sdk_go.Base.Dict.{get, IsMap}
use yggdrasil_sdk_go.Rpc.{Error, Message, Request, done}
use yggdrasil_sdk_go.Adapter.{Outcome, answered, failed, wrap}
use yggdrasil_sdk_go.Amqp.Delivery.{Reply as RawReply, Action, published, deliver}
use yggdrasil_sdk_go.Amqp.Client.{Broker, Arrival, id_of, request_publishing, request}
use yggdrasil_sdk_go.Amqp.Client.Waiting.{IsStale}
use yggdrasil_sdk_go.Amqp.Client.Loopback.{raw_of, arrivals_of, outcome_reply, request-deliver}
use yggdrasil_sdk_go.Reconcile.Emission.{ExecuteRequest, Clock}
use yggdrasil_sdk_go.Reconcile.Operations.{
  Reconciler, Codec, make_ensure_fn, make_observe_fn, make_destroy_fn,
}
use yggdrasil_sdk_go.Reconcile.Registry.{
  Options, Site, entries, context_of, Response, typed, call_entry, register_named, dispatch,
}
use yggdrasil_sdk_go.Reconcile.Registry.Lookup.{NoneIs}
use yggdrasil_sdk_go.Reconcile.Registry.Dispatch.{Asks, dispatch-register_named}

-- The results of an `adapter.Handler`.
abbrev pub outcome_of : Response → Outcome
outcome_of (inl err) = failed err
outcome_of (inr (body, content_type)) = answered body content_type

-- The adapter's `execute` handler, which dispatches the body of its delivery.
abbrev pub execute : (Text → Text) → (Text → Error ⊎ ExecuteRequest) → Site → Message → Outcome
execute quote parse s m = outcome_of (dispatch quote parse s m.body).0

module _ {D O F : Type 0} (codec : Codec D O F) (clock : Clock) (r : Reconciler D O)
    (quote : Text → Text) (resource resource_type : Text) (cfg : Options) (s : Site) where
  -- The answer to a request over AMQP: what the operation with the request's name makes of it.
  abbrev pub operation_response : (env : ExecuteRequest) (name : Text) → Response
  operation_response env name =
      (if text_eq (codes "destroy_" ++ resource) name
        then typed (make_destroy_fn codec clock r (context_of codec clock r resource cfg) env)
        else if text_eq (codes "observe_" ++ resource_type) name
        then typed (make_observe_fn codec clock r env)
        else if text_eq (codes "ensure_" ++ resource) name
        then typed (make_ensure_fn codec clock r (context_of codec clock r resource cfg) env)
        else call_entry quote name (get name (entries s)) env).0

module _ {D O F : Type 0} (codec : Codec D O F) (clock : Clock) (r : Reconciler D O)
    (unicode quote : Text → Text) (parse : Text → Error ⊎ ExecuteRequest)
    (resource resource_type : Text) (cfg : Options) (s : Site) (client : Broker)
    (consumer : Action → Option Error) (fresh queue : Text) (req : Request) where
  -- A client whose message reaches an adapter with a registered reconciler, and whose body asks for an
  -- operation that is no legacy name, gets what the reconciler's destroy, observe or ensure answers
  -- where the operation is the canonical name of that one, and elsewhere what the table had under it or
  -- a refusal: with its content type, or as an error in an envelope, under the correlation id of the
  -- request; replies of other calls that arrive before change nothing.
  pub request-register_named :
      {env : ExecuteRequest} {name : Text} (stale : List Arrival)
      → Asks parse req.body env name
      → NoneIs unicode name cfg.legacy_names
      → ((reply : RawReply) → consumer (published reply) ≡ none)
      → IsMap req.headers
      → req.endpoint ≢ []
      → client.connection ≡ none
      → client.open_channel ≡ none
      → client.declare_reply_queue ≡ inr queue
      → client.consume queue ≡ none
      → client.publish (request_publishing fresh queue req) ≡ none
      → is_empty queue ≡ false
      → All (IsStale (id_of fresh req)) stale
      → (request client fresh
          (stale
            ++ arrivals_of consumer queue
                (deliver consumer true req.endpoint (raw_of (request_publishing fresh queue req)) (
                  wrap (λ m. done (
                    execute quote parse
                      (register_named codec clock r unicode resource resource_type cfg s).0
                      m)))).log)
          req).0
        ≡ some (
            inr (
              outcome_reply (id_of fresh req) (
                outcome_of
                  (operation_response codec clock r quote resource resource_type cfg s env name))))
  request-register_named {env} {name} stale asks none_is takes headers ends conn chan decl cons publ
        named stales =
      request-deliver client consumer fresh queue req
        (execute quote parse (register_named codec clock r unicode resource resource_type cfg s).0)
        stale takes headers ends conn chan decl cons publ named stales
      ∙ ap (λ p. some (inr (outcome_reply (id_of fresh req) (outcome_of p.0))))
          (dispatch-register_named quote parse codec clock r unicode resource resource_type cfg s
            asks none_is)
