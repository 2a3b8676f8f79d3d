-- ===== src/Amqp/Client/Waiting.antt =====
-- Which reply Request of rpc/amqp/amqp.go returns, and what it leaves open.
use yggdrasil_sdk_go.Base.{
  ap, ◌∙◌, ◌+◌, ℕ, Bool, true, false, Option, none, some, List, [], ◌∷◌, ◌++◌, ◌≡◌, ◌≢◌, ◌↔◌, ◌⊎◌,
  inl, inr, refl, arith, All, count_of, Bool-cases,
}
use yggdrasil_sdk_go.Base.Texts.{Text, text_eq, text_eq_iff}
use yggdrasil_sdk_go.Rpc.{Error, Request, Reply}
use yggdrasil_sdk_go.Amqp.Delivery.{Raw}
use yggdrasil_sdk_go.Amqp.Client.{
  Broker, Step, channel_opened, channel_closed, queue_declared, consumer_started, published,
  Arrival, deadline, canceled, deliveries_closed, delivered, reply_of, await_reply, closing,
  failing, id_of, request_publishing, sent, consumed, declared, opened, connected, request,
}

-- A delivery under another correlation id.
abbrev pub IsStale : Text → Arrival → Type 0
IsStale id deadline = ⊥
IsStale id (canceled err) = ⊥
IsStale id deliveries_closed = ⊥
IsStale id (delivered raw) = raw.correlation_id ≢ id

-- Behind deliveries of other calls, one of this call arrives.
abbrev pub FirstMatch : Text → List Arrival → Reply → Type 0
FirstMatch id arrivals r =
    (stale : List Arrival) × (raw : Raw) × (rest : List Arrival) × (arrivals
      ≡ stale ++ delivered raw ∷ rest)
    × All (IsStale id) stale
    × (raw.correlation_id ≡ id)
    × (r ≡ reply_of raw)

await_reply-stale :
    (id : Text) (stale more : List Arrival)
    → All (IsStale id) stale
    → await_reply id (stale ++ more) ≡ await_reply id more
unfolding await_reply
await_reply-stale id [] more h = refl
await_reply-stale id (deadline ∷ stale) more h = absurd (h.0)
await_reply-stale id (canceled err ∷ stale) more h = absurd (h.0)
await_reply-stale id (deliveries_closed ∷ stale) more h = absurd (h.0)
await_reply-stale id (delivered raw ∷ stale) more (other, h) =
    ground (arith, text_eq_iff raw.correlation_id id, await_reply-stale id stale more h)

await_reply_to :
    (id : Text) (arrivals : List Arrival) (r : Reply)
    → await_reply id arrivals ≡ some (inr r)
    → FirstMatch id arrivals r
unfolding await_reply
await_reply_to id [] r h = cc
await_reply_to id (deadline ∷ more) r h = cc
await_reply_to id (canceled err ∷ more) r h = cc
await_reply_to id (deliveries_closed ∷ more) r h = cc
await_reply_to id (delivered raw ∷ more) r h = elim (Bool-cases (text_eq raw.correlation_id id)) [
  | inl mine ↦ ([], raw, more, refl, tt, (text_eq_iff raw.correlation_id id).0 mine, ground arith)
  | inr other ↦
      let (stale, raw', rest, split, stales, mine, is) = await_reply_to id more r (ground arith) in
      (
        delivered raw ∷ stale,
        raw',
        rest,
        ap (λ t. delivered raw ∷ t) split,
        (λ e. cc ((text_eq_iff raw.correlation_id id).1 e), stales),
        mine,
        is,
      )
]

await_reply_iff :
    (id : Text) (arrivals : List Arrival) (r : Reply)
    → (await_reply id arrivals ≡ some (inr r)) ↔ FirstMatch id arrivals r
unfolding await_reply
await_reply_iff id arrivals r = (
  await_reply_to id arrivals r,
  λ (stale, raw, rest, split, stales, mine, is). rw split (
      await_reply-stale id stale (delivered raw ∷ rest) stales
      ∙ ground (arith, text_eq_iff raw.correlation_id id)),
)

-- Every step up to the publish goes well.
abbrev pub IsSent : Broker → Text → Request → Type 0
IsSent broker fresh req =
    (req.endpoint ≢ [])
    × (broker.connection ≡ none)
    × (broker.open_channel ≡ none)
    × ((queue : Text) × (broker.declare_reply_queue ≡ inr queue)
        × (broker.consume queue ≡ none)
        × (broker.publish (request_publishing fresh queue req) ≡ none))

abbrev pub is_opened : Step → Bool
is_opened channel_opened = true
is_opened channel_closed = false
is_opened (queue_declared _) = false
is_opened (consumer_started _) = false
is_opened (published _) = false

abbrev pub is_closed : Step → Bool
is_closed channel_opened = false
is_closed channel_closed = true
is_closed (queue_declared _) = false
is_closed (consumer_started _) = false
is_closed (published _) = false

-- How many channels a call holds: one while it waits.
abbrev pub held : Option (Error ⊎ Reply) → ℕ
held none = 1
held (some r) = 0

module _ (broker : Broker) (fresh : Text) (arrivals : List Arrival) (req : Request) where
  -- A call holds one channel while it waits for its reply, and none once it has returned, however it
  -- ends.
  pub request_balanced :
      count_of is_opened (request broker fresh arrivals req).1
      ≡ count_of is_closed (request broker fresh arrivals req).1
        + held (request broker fresh arrivals req).0
  unfolding request connected opened declared consumed sent failing closing
  request_balanced = ground arith

  declared_iff :
      (d : Error ⊎ Text) (r : Reply)
      → ((declared broker fresh arrivals req d).0 ≡ some (inr r)) ↔ (
          ((queue : Text) × (d ≡ inr queue)
            × (broker.consume queue ≡ none)
            × (broker.publish (request_publishing fresh queue req) ≡ none))
          × (await_reply (id_of fresh req) arrivals ≡ some (inr r)))
  unfolding declared consumed sent failing
  declared_iff (inl err) r = (λ e. cc, λ h. cc (h.0.1))
  declared_iff (inr queue) r = (
    λ e. ((queue, refl, ground arith, ground arith), ground arith),
    λ ((queue', same, consumes, sends), got). ground (arith, same, consumes, sends, got),
  )

  request-IsSent_iff :
      (r : Reply)
      → ((request broker fresh arrivals req).0 ≡ some (inr r))
        ↔ (IsSent broker fresh req × (await_reply (id_of fresh req) arrivals ≡ some (inr r)))
  unfolding request connected opened
  request-IsSent_iff r = ground (arith, declared_iff broker.declare_reply_queue r)

-- A request returns a reply exactly when it has an endpoint, every step up to its publish goes well,
-- and what arrives first, behind deliveries under other correlation ids alone, is a delivery under
-- its own id; the reply is that delivery's.
pub request_iff :
    (broker : Broker) (fresh : Text) (arrivals : List Arrival) (req : Request) (r : Reply)
    → ((request broker fresh arrivals req).0 ≡ some (inr r))
      ↔ (IsSent broker fresh req × FirstMatch (id_of fresh req) arrivals r)
request_iff broker fresh arrivals req r =
    let (to, from) = request-IsSent_iff broker fresh arrivals req r in
    let (first, back) = await_reply_iff (id_of fresh req) arrivals r in
    (λ e. ((to e).0, first (to e).1), λ (sends, match). from (sends, back match))
