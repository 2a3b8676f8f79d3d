-- ===== src/Http/Serve.antt =====
-- rpc/http/http.go: `serveHTTP` of a subscription. `codec` is `encoding/json`, `write` the error of a
-- write to the response, `admitted` whether the semaphore was got before the request was canceled,
-- and `read` the body, or none where reading it failed with the error.
pub mod Single
pub mod Answers
use yggdrasil_sdk_go.Base.{
  ℕ, Bool, true, false, Option, none, some, List, [], ◌∷◌, ◌++◌, ◌&&◌, ◌⊎◌, inl, inr, if◌then◌else◌,
}
use yggdrasil_sdk_go.Base.Texts.{Text, codes, is_empty}
use yggdrasil_sdk_go.Base.Dict.{Dict}
use yggdrasil_sdk_go.Rpc.{
  Error, message, error_text, Envelope, Codec, Message, Handler, Delivery, run,
}

-- One answer on the response writer: a status with a text, a bare `WriteHeader`, or a `Write` of
-- JSON, which goes out with status 200.
pub data Response : Type 0 where
  plain : ℕ → Text → Response
  status_only : ℕ → Response
  json : Text → Response

pub record State : Type 0 where
  pub replied : Bool
  pub log : List Response

abbrev pub start : State
start = record { replied = false; log = [] }

-- `http.Error`
abbrev pub http_error : ℕ → Text → Response
http_error status msg = plain status (msg ++ codes "\n")

abbrev pub body_only : Text → Envelope
body_only raw = record {
  correlation_id = [];
  reply_to = [];
  headers = [];
  content_type = [];
  body = raw;
}

abbrev pub no_headers : Dict Text → Bool
no_headers [] = true
no_headers (_ ∷ _) = false

-- Every field that marks an envelope is empty.
abbrev pub is_unframed : Envelope → Bool
is_unframed e =
    is_empty e.body && is_empty e.correlation_id && no_headers e.headers && is_empty e.reply_to

unframed : Text → Option Envelope → Envelope
unframed raw none = body_only raw
unframed raw (some e) = if is_unframed e then body_only raw else e

unfoldable pub decode : Codec → Text → Envelope
unfolding unframed
decode codec raw = if is_empty raw then body_only [] else unframed raw (codec.unmarshal raw)

module _ (codec : Codec) (write : Text → Option Error) (correlation_id : Text) where
  reply_envelope : Text → Text → Envelope
  reply_envelope body content_type = record {
    correlation_id = correlation_id;
    reply_to = [];
    headers = [];
    content_type = content_type;
    body = body;
  }

  write_json : Option Text → State → Option Error × State
  write_json none s = (some (message (codes "encode reply envelope")), record s { replied = true })
  write_json (some out) s = (write out, record { replied = true; log = s.log ++ json out ∷ [] })

  unfoldable pub reply_fn : Text → Text → State → Option Error × State
  unfolding write_json reply_envelope
  reply_fn body content_type s =
      if s.replied
      then (none, s)
      else write_json (codec.marshal (reply_envelope body content_type)) s

  unfoldable pub nack_fn : Bool → State → Option Error × State
  nack_fn requeue s = if s.replied then (none, s) else (
    none,
    record { replied = true; log = s.log ++ status_only (if requeue then 503 else 500) ∷ [] },
  )

  abbrev pub delivery : Delivery State
  delivery = record {
    ack_fn = some (λ s. (none, s));
    nack_fn = some nack_fn;
    reply_fn = some reply_fn;
  }

  or_empty : Option Text → Text
  or_empty none = []
  or_empty (some out) = out

  -- The answer of last resort, behind a handler that gave none.
  unfoldable pub conclude : Option Error → State → List Response
  unfolding or_empty reply_envelope
  conclude (some err) s =
      if s.replied
      then s.log
      else s.log ++ plain 500 (codes "handler error: " ++ error_text err) ∷ []
  conclude none s =
      if s.replied
      then s.log
      else s.log ++ json (or_empty (codec.marshal (reply_envelope [] []))) ∷ []

abbrev pub rpc_message : Text → Envelope → Message
rpc_message endpoint e = record {
  endpoint = endpoint;
  body = e.body;
  content_type = e.content_type;
  headers = e.headers;
  correlation_id = e.correlation_id;
  reply_to = codes "http-response";
}

-- A subscription, as a request meets it.
pub record Subscription : Type 0 where
  pub endpoint : Text
  pub handler : Handler
  pub closed : Bool

-- The part of `serveHTTP` behind the body.
unfoldable pub handle : Codec → (Text → Option Error) → Subscription → Envelope → List Response
handle codec write sub e =
    let (err, s) =
      run (delivery codec write e.correlation_id) (sub.handler (rpc_message sub.endpoint e))
        start in
    conclude codec write e.correlation_id err s

unfoldable pub serve_http :
    Codec
    → (Text → Option Error)
    → (admitted : Bool) (read : Error ⊎ Text) → Subscription
    → List Response
serve_http codec write admitted read sub =
    if sub.closed
    then http_error 503 (codes "subscription closed") ∷ []
    else if admitted
    then elim read [
      | inl err ↦ http_error 400 (codes "read body: " ++ error_text err) ∷ []
      | inr raw ↦ handle codec write sub (decode codec raw)
    ]
    else http_error 503 (codes "request canceled") ∷ []
