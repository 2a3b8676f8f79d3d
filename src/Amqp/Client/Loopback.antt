-- ===== src/Amqp/Client/Loopback.antt =====
-- A Request of rpc/amqp/amqp.go against a consumer of the same file, with an adapter's handler.
use yggdrasil_sdk_go.Base.{
  true, false, Option, none, some, List, [], ◌∷◌, ◌++◌, ◌≡◌, ◌≢◌, inr, refl, ap, ◌∙◌, sym, All,
  if◌then◌else◌,
}
use yggdrasil_sdk_go.Base.Texts.{Text, codes, is_empty, text_eq, text_eq_iff}
use yggdrasil_sdk_go.Base.Dict.{IsMap}
use yggdrasil_sdk_go.Rpc.{Error, Message, done, Request, Reply}
use yggdrasil_sdk_go.Adapter.{Outcome, answered, failed, error_envelope, wrap}
use yggdrasil_sdk_go.Amqp.Delivery.{
  Raw, Reply as RawReply, Action, acked, nacked, published, deliver, rpc_message,
  table_to_string_headers,
}
use yggdrasil_sdk_go.Amqp.Delivery.Answers.{deliver-wrap, settlement, or_json, reply_to}
use yggdrasil_sdk_go.Amqp.Delivery.Headers.{headers_round_trip}
use yggdrasil_sdk_go.Amqp.Client.{
  Publishing, Broker, Arrival, delivered, reply_of, id_of, request_publishing, request,
}
use yggdrasil_sdk_go.Amqp.Client.Waiting.{IsStale, request_iff}

-- A publishing as it is delivered from the queue that it is routed to.
abbrev pub raw_of : Publishing → Raw
raw_of p = record {
  body = p.body;
  content_type = p.content_type;
  headers = p.headers;
  correlation_id = p.correlation_id;
  reply_to = p.reply_to;
}

abbrev pub raw_of_reply : RawReply → Raw
raw_of_reply r = record {
  body = r.body;
  content_type = r.content_type;
  headers = [];
  correlation_id = r.correlation_id;
  reply_to = [];
}

arrival_of : Text → RawReply → Option Error → List Arrival
arrival_of queue r (some err) = []
arrival_of queue r none = if text_eq r.queue queue then delivered (raw_of_reply r) ∷ [] else []

-- What a consumer's actions bring to a queue: the replies to it that the broker took.
unfoldable pub arrivals_of : (Action → Option Error) → Text → List Action → List Arrival
unfolding arrival_of
arrivals_of broker queue [] = []
arrivals_of broker queue (acked ∷ acts) = arrivals_of broker queue acts
arrivals_of broker queue (nacked _ ∷ acts) = arrivals_of broker queue acts
arrivals_of broker queue (published r ∷ acts) =
    arrival_of queue r (broker (published r)) ++ arrivals_of broker queue acts

-- The message that the handler gets.
abbrev pub request_message : Text → Text → Request → Message
request_message fresh queue req = record {
  endpoint = req.endpoint;
  body = req.body;
  content_type = or_json req.content_type;
  headers = req.headers;
  correlation_id = id_of fresh req;
  reply_to = queue;
}

abbrev pub outcome_reply : Text → Outcome → Reply
outcome_reply id (answered body content_type) = record {
  body = body;
  content_type = or_json content_type;
  headers = [];
  correlation_id = id;
}
outcome_reply id (failed err) = record {
  body = error_envelope err;
  content_type = codes "application/json";
  headers = [];
  correlation_id = id;
}

is_empty-false : (s : Text) → s ≢ [] → is_empty s ≡ false
is_empty-false [] h = absurd (h refl)
is_empty-false (c ∷ s) h = refl

-- Exactly the reply arrives.
module _ (broker : Action → Option Error) (takes : (r : RawReply) → broker (published r) ≡ none)
    (raw : Raw) (named : is_empty raw.reply_to ≡ false) where
  abbrev the_reply : Text → Text → Raw
  the_reply body content_type = raw_of_reply (record {
    queue = raw.reply_to;
    content_type = content_type;
    correlation_id = raw.correlation_id;
    body = body;
  })

  reply_arrives :
      (body content_type : Text) (acts : List Action)
      → arrivals_of broker raw.reply_to acts ≡ []
      → arrivals_of broker raw.reply_to (reply_to raw body content_type ∷ acts)
        ≡ delivered (the_reply body content_type) ∷ []
  unfolding arrivals_of arrival_of
  reply_arrives body content_type acts quiet =
      simp (takes _, (text_eq_iff raw.reply_to raw.reply_to).1 refl, quiet) refl

  arrivals_of-settlement :
      (o : Outcome)
      → (r : Raw) × (arrivals_of broker raw.reply_to (settlement broker raw o) ≡ delivered r ∷ [])
        × (r.correlation_id ≡ raw.correlation_id)
        × (reply_of r ≡ outcome_reply raw.correlation_id o)
  unfolding arrivals_of arrival_of table_to_string_headers
  arrivals_of-settlement (failed err) = (
    the_reply (error_envelope err) (codes "application/json"),
    rw named
        (reply_arrives (error_envelope err) (codes "application/json") (nacked false ∷ []) refl),
    refl,
    refl,
  )
  arrivals_of-settlement (answered body content_type) = (
    the_reply body (or_json content_type),
    simp (named, takes, (text_eq_iff raw.reply_to raw.reply_to).1 refl) refl,
    refl,
    refl,
  )

-- A request whose steps up to its publish go well, and which a consumer of its endpoint takes, gets the
-- reply of the adapter's handler: its body and content type, or the error envelope of its error, under
-- the correlation id of the request. The handler has got the body, headers and correlation id that were
-- sent. Replies of other calls that arrive before change nothing.
pub request-deliver :
    (client : Broker) (consumer : Action → Option Error) (fresh queue : Text) (req : Request)
    (f : Message → Outcome) (stale : List Arrival)
    → ((r : RawReply) → consumer (published r) ≡ none)
    → IsMap req.headers
    → req.endpoint ≢ []
    → client.connection ≡ none
    → client.open_channel ≡ none
    → client.declare_reply_queue ≡ inr queue
    → client.consume queue ≡ none
    → client.publish (request_publishing fresh queue req) ≡ none
    → is_empty queue ≡ false
    → All (IsStale (id_of fresh req)) stale
    → (request client fresh
        (stale
          ++ arrivals_of consumer queue
              (deliver consumer true req.endpoint
                (raw_of (request_publishing fresh queue req))
                (wrap (λ m. done (f m)))).log)
        req).0
      ≡ some (inr (outcome_reply (id_of fresh req) (f (request_message fresh queue req))))
unfolding request_publishing
request-deliver client consumer fresh queue req f stale takes headers ends conn chan decl cons publ
      named stales =
    let raw = raw_of (request_publishing fresh queue req) in
    let (r, arrives, mine, is) =
      arrivals_of-settlement consumer takes raw named (f (rpc_message req.endpoint raw)) in
    (request_iff client fresh _ req _).1 (
      (ends, conn, chan, (queue, decl, cons, publ)),
      (
        stale,
        r,
        [],
        ap (λ l. stale ++ l)
            (ap (arrivals_of consumer queue) (deliver-wrap consumer req.endpoint raw f) ∙ arrives),
        stales,
        mine,
        ap
              (λ h.
                outcome_reply (id_of fresh req)
                  (f (record (request_message fresh queue req) { headers = h })))
              (sym (headers_round_trip req.headers headers))
            ∙ sym is,
      ),
    )
