-- ===== src/Amqp/Client.antt =====
-- rpc/amqp/amqp.go: Publish and Request. The broker's answers are a parameter, and so is what the
-- wait for the reply gets, one by one.
pub mod Waiting
pub mod Loopback
use yggdrasil_sdk_go.Base.{Option, none, some, List, [], ◌∷◌, ◌⊎◌, inl, inr, if◌then◌else◌}
use yggdrasil_sdk_go.Base.Texts.{Text, codes, is_empty, text_eq}
use yggdrasil_sdk_go.Base.Dict.{Dict}
use yggdrasil_sdk_go.Rpc.{Error, timeout, message, wrapped, Request, Reply}
use yggdrasil_sdk_go.Amqp.Delivery.{
  HeaderValue, Raw, string_headers_to_table, table_to_string_headers,
}

-- `amqp091.Publishing`, with its routing key; the exchange is the default one.
pub record Publishing : Type 0 where
  pub routing_key : Text
  pub content_type : Text
  pub correlation_id : Text
  pub reply_to : Text
  pub headers : Dict HeaderValue
  pub body : Text

-- `connection` is the error of `connectionForUse`, and the queue that is declared gets its name from
-- the broker.
pub record Broker : Type 0 where
  pub connection : Option Error
  pub open_channel : Option Error
  pub declare_reply_queue : Error ⊎ Text
  pub consume : Text → Option Error
  pub publish : Publishing → Option Error

-- What a call does at the broker, in order.
pub data Step : Type 0 where
  channel_opened channel_closed : Step
  queue_declared : Text → Step
  consumer_started : Text → Step
  published : Publishing → Step

-- What the select gets: the end of the context, by its deadline or by a cancellation, the end of the
-- deliveries, or a delivery.
pub data Arrival : Type 0 where
  deadline : Arrival
  canceled : Error → Arrival
  deliveries_closed : Arrival
  delivered : Raw → Arrival

or_json : Text → Text
or_json content_type = if is_empty content_type then codes "application/json" else content_type

-- `Publish`, with the result of `publishChannel`.
publishing_of : Request → Publishing
unfolding or_json
publishing_of req = record {
  routing_key = req.endpoint;
  content_type = or_json req.content_type;
  correlation_id = [];
  reply_to = [];
  headers = string_headers_to_table req.headers;
  body = req.body;
}

publish_on : Broker → Request → Option Error → Option Error × List Step
publish_on broker req (some err) = (some err, [])
publish_on broker req none =
    (broker.publish (publishing_of req), published (publishing_of req) ∷ [])

unfoldable pub publish : Broker → Option Error → Request → Option Error × List Step
unfolding publish_on publishing_of
publish broker channel req =
    if is_empty req.endpoint
    then (some (message (codes "amqp publish: endpoint is required")), [])
    else publish_on broker req channel

-- The reply that a delivery brings.
abbrev pub reply_of : Raw → Reply
reply_of raw = record {
  body = raw.body;
  content_type = raw.content_type;
  headers = table_to_string_headers raw.headers;
  correlation_id = raw.correlation_id;
}

-- The loop that waits; none is a wait that has not ended.
unfoldable pub await_reply : Text → List Arrival → Option (Error ⊎ Reply)
await_reply id [] = none
await_reply id (deadline ∷ more) = some (inl timeout)
await_reply id (canceled err ∷ more) = some (inl err)
await_reply id (deliveries_closed ∷ more) =
    some (inl (message (codes "amqp request: reply channel closed")))
await_reply id (delivered raw ∷ more) =
    if text_eq raw.correlation_id id then some (inr (reply_of raw)) else await_reply id more

-- The channel is closed once the call returns.
closing : Option (Error ⊎ Reply) → List Step
closing none = []
closing (some r) = channel_closed ∷ []

failing : Text → Error → Option (Error ⊎ Reply) × List Step
failing text err = (some (inl (wrapped text err)), channel_closed ∷ [])

abbrev and_then : Step → Option (Error ⊎ Reply) × List Step → Option (Error ⊎ Reply) × List Step
and_then step (result, steps) = (result, step ∷ steps)

-- The correlation id of the request, or else the one that is made up.
unfoldable pub id_of : (fresh : Text) → Request → Text
id_of fresh req = if is_empty req.correlation_id then fresh else req.correlation_id

unfoldable pub request_publishing : (fresh queue : Text) → Request → Publishing
unfolding id_of or_json
request_publishing fresh queue req = record {
  routing_key = req.endpoint;
  content_type = or_json req.content_type;
  correlation_id = id_of fresh req;
  reply_to = queue;
  headers = string_headers_to_table req.headers;
  body = req.body;
}

module _ (broker : Broker) (fresh : Text) (arrivals : List Arrival) (req : Request) where
  sent : Option Error → Option (Error ⊎ Reply) × List Step
  unfolding closing failing
  sent (some err) = failing (codes "amqp request: publish: ") err
  sent none = let result = await_reply (id_of fresh req) arrivals in (result, closing result)

  consumed : Text → Option Error → Option (Error ⊎ Reply) × List Step
  unfolding sent failing
  consumed queue (some err) = failing (codes "amqp request: consume reply queue: ") err
  consumed queue none =
      let p = request_publishing fresh queue req in
      and_then (consumer_started queue) (and_then (published p) (sent (broker.publish p)))

  declared : Error ⊎ Text → Option (Error ⊎ Reply) × List Step
  unfolding consumed failing
  declared (inl err) = failing (codes "amqp request: declare reply queue: ") err
  declared (inr queue) = and_then (queue_declared queue) (consumed queue (broker.consume queue))

  opened : Option Error → Option (Error ⊎ Reply) × List Step
  unfolding declared
  opened (some err) = (some (inl (wrapped (codes "amqp request: open channel: ") err)), [])
  opened none = and_then channel_opened (declared broker.declare_reply_queue)

  connected : Option Error → Option (Error ⊎ Reply) × List Step
  unfolding opened
  connected (some err) = (some (inl (wrapped (codes "amqp request: get connection: ") err)), [])
  connected none = opened broker.open_channel

  -- `Request`, up to where its wait has come.
  unfoldable pub request : Option (Error ⊎ Reply) × List Step
  unfolding connected
  request =
      if is_empty req.endpoint
      then (some (inl (message (codes "amqp request: endpoint is required"))), [])
      else connected broker.connection
