-- ===== src/Http/Client/Loopback.antt =====
-- A client of rpc/http/http.go against the server of the same file.
use yggdrasil_sdk_go.Base.{true, false, Option, List, [], ◌∷◌, ◌≡◌, ◌≢◌, ◌⊎◌, ap, inl, inr, ◌∙◌}
use yggdrasil_sdk_go.Base.Texts.{Text, codes, is_empty}
use yggdrasil_sdk_go.Rpc.{Error, Codec, Frames, Message, done, Request, Reply}
use yggdrasil_sdk_go.Adapter.{Outcome, answered, failed, wrap}
use yggdrasil_sdk_go.Http.Serve.{
  Response, plain, status_only, json, decode, Subscription, handle, serve_http,
}
use yggdrasil_sdk_go.Http.Serve.Answers.{
  IsBlank, unwrapped, answer_envelope, decode-marshal, handle-wrap,
}
use yggdrasil_sdk_go.Http.Client.{
  Target, Post, PostResult, responded, request_envelope, read_response, request,
}

-- The response that a client reads: of what a server wrote, the first answer.
abbrev pub first_response : List Response → PostResult
first_response [] = responded 200 [] []
first_response (plain status body ∷ _) = responded status (codes "text/plain; charset=utf-8") body
first_response (status_only status ∷ _) = responded status [] []
first_response (json out ∷ _) = responded 200 (codes "application/json") out

-- A network that brings each POST to the subscription, and its answer back.
abbrev pub loopback : Codec → (Text → Option Error) → Subscription → Post
loopback codec write sub url headers body timeout =
    first_response (serve_http codec write true (inr body) sub)

abbrev pub serving : Text → (Message → Outcome) → Subscription
serving endpoint f = record {
  endpoint = endpoint;
  handler = wrap (λ m. done (f m));
  closed = false;
}

-- What the handler is to get of a request.
abbrev pub request_message : Text → Request → Message
request_message endpoint req = record {
  endpoint = endpoint;
  body = req.body;
  content_type = req.content_type;
  headers = req.headers;
  correlation_id = req.correlation_id;
  reply_to = codes "http-response";
}

-- A request with a body, a correlation id or headers.
abbrev pub Carries : Request → Type 0
Carries req = (req.body ≢ []) ⊎ (req.correlation_id ≢ []) ⊎ (req.headers ≢ [])

abbrev pub outcome_reply : Text → Outcome → Reply
outcome_reply id o =
    let e = answer_envelope id o in
    record { body = e.body; content_type = e.content_type; headers = []; correlation_id = id }

module _ (codec : Codec) (write : Text → Option Error) (req : Request) (f : Message → Outcome) where
  served :
      (raw out : Text)
      → Frames codec (request_envelope req) raw
      → Frames codec (answer_envelope req.correlation_id (f (request_message req.endpoint req))) out
      → Carries req
      → serve_http codec write true (inr raw) (serving req.endpoint f) ≡ json out ∷ []
  unfolding serve_http
  served raw out sent back framed =
      ap (handle codec write (serving req.endpoint f))
        (not_blank (decode-marshal codec (request_envelope req) raw sent))
      ∙ handle-wrap codec write req.endpoint f (request_envelope req) out back.written
    where
      full : Carries req → ¬ IsBlank (request_envelope req)
      full (inl h) (a, b, c, d) = h a
      full (inr (inl h)) (a, b, c, d) = h b
      full (inr (inr h)) (a, b, c, d) = h c

      not_blank :
          (IsBlank (request_envelope req) × (decode codec raw ≡ unwrapped raw))
            ⊎ ((¬ IsBlank (request_envelope req)) × (decode codec raw ≡ request_envelope req))
          → decode codec raw ≡ request_envelope req
      not_blank (inl (blank, same)) = absurd (full framed blank)
      not_blank (inr (h, e)) = e

read_back :
    (codec : Codec) (req : Request) (o : Outcome) (out : Text)
    → Frames codec (answer_envelope req.correlation_id o) out
    → read_response codec req (responded 200 (codes "application/json") out)
      ≡ inr (outcome_reply req.correlation_id o)
unfolding read_response
read_back codec req (answered body content_type) out back = simp back.read_back
read_back codec req (failed err) out back = simp back.read_back

-- Where the client has a base URL and the envelopes of the request and of the answer are read back
-- from their JSON, a request to a named endpoint that carries a body, a correlation id or headers
-- reaches the adapter's handler with all of these, and its reply brings back the handler's body and
-- content type, or the error envelope of its error, under the correlation id of the request.
pub request-serve :
    (codec : Codec) (write : Text → Option Error) (t : Target) (req : Request)
    (f : Message → Outcome) (raw out : Text)
    → Frames codec (request_envelope req) raw
    → Frames codec (answer_envelope req.correlation_id (f (request_message req.endpoint req))) out
    → is_empty req.endpoint ≡ false
    → is_empty t.base_url ≡ false
    → Carries req
    → request codec (loopback codec write (serving req.endpoint f)) t req
      ≡ inr (outcome_reply req.correlation_id (f (request_message req.endpoint req)))
unfolding request
request-serve codec write t req f raw out sent back ends based framed =
    simp (ends, based, sent.written)
      (ap (read_response codec req)
          (ap first_response (served codec write req f raw out sent back framed))
        ∙ read_back codec req (f (request_message req.endpoint req)) out back)
