-- ===== src/Amqp/Delivery/Answers.antt =====
-- What `deliverLoop` sends for an adapter's handler that leaves its delivery alone: adapter/adapter.go
-- over rpc/amqp/amqp.go.
use yggdrasil_sdk_go.Base.{
  true, false, Option, none, some, List, [], ◌∷◌, ◌≡◌, arith, if◌then◌else◌,
}
use yggdrasil_sdk_go.Base.Texts.{Text, codes, is_empty}
use yggdrasil_sdk_go.Rpc.{Error, Message, done, run}
use yggdrasil_sdk_go.Adapter.{Outcome, answered, failed, error_envelope, settle, wrap}
use yggdrasil_sdk_go.Amqp.Delivery.{
  Raw, Action, acked, nacked, published, settle_once, reply_once, deliver, delivery, start,
  fallback, rpc_message,
}

-- The content type that `Delivery.Reply` fills in.
abbrev pub or_json : Text → Text
or_json content_type = if is_empty content_type then codes "application/json" else content_type

abbrev pub reply_to : Raw → Text → Text → Action
reply_to raw body content_type = published (record {
  queue = raw.reply_to;
  content_type = content_type;
  correlation_id = raw.correlation_id;
  body = body;
})

-- The actions that reach the broker.
abbrev pub settlement : (Action → Option Error) → Raw → Outcome → List Action
settlement broker raw (failed err) =
    if is_empty raw.reply_to
    then nacked false ∷ []
    else reply_to raw (error_envelope err) (codes "application/json") ∷ nacked false ∷ []
settlement broker raw (answered body content_type) =
    if is_empty raw.reply_to
    then nacked true ∷ []
    else let sent = reply_to raw body (or_json content_type) in
      sent ∷ elim (broker sent) [ none ↦ acked | some _ ↦ nacked true ] ∷ []

-- The rest of `deliver` behind the handler's own code.
settled_log : (Action → Option Error) → Raw → Outcome → List Action
settled_log broker raw o =
    let (err, s) = run (delivery broker true raw) (settle o) start in
    (settle_once broker (fallback err) s).1.log

module _ (broker : Action → Option Error) (raw : Raw) where
  settled_log-failed :
      (err : Error) → settled_log broker raw (failed err) ≡ settlement broker raw (failed err)
  unfolding settled_log settle run settle_once reply_once fallback
  settled_log-failed err = ground arith

  settled_log-answered :
      (body content_type : Text)
      → settled_log broker raw (answered body content_type)
        ≡ settlement broker raw (answered body content_type)
  unfolding settled_log settle run settle_once reply_once fallback
  settled_log-answered body content_type = ground arith

-- For a handler that leaves its delivery alone: an error is replied as an envelope, to the request's
-- queue under its correlation id, and the delivery is dropped. An answer is replied and acknowledged;
-- where the reply fails the delivery is put back. A delivery that names no queue is not replied to:
-- it is dropped on an error, and put back on an answer.
pub deliver-wrap :
    (broker : Action → Option Error) (endpoint : Text) (raw : Raw) (f : Message → Outcome)
    → (deliver broker true endpoint raw (wrap (λ m. done (f m)))).log
      ≡ settlement broker raw (f (rpc_message endpoint raw))
unfolding deliver wrap settle_once settled_log
deliver-wrap broker endpoint raw f = go (f (rpc_message endpoint raw))
  where
    go : (o : Outcome) → settled_log broker raw o ≡ settlement broker raw o
    go (failed err) = settled_log-failed broker raw err
    go (answered body content_type) = settled_log-answered broker raw body content_type
