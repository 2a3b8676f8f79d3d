-- ===== src/Http/Serve/Answers.antt =====
-- What the HTTP transport reads from a request's body, and what an adapter's handler makes of it:
-- adapter/adapter.go over rpc/http/http.go.
use yggdrasil_sdk_go.Base.{
  true, false, Option, some, List, [], ◌∷◌, ◌≡◌, ◌≢◌, ◌⊎◌, inl, inr, ◌∙◌, refl, arith,
  if◌then◌else◌,
}
use yggdrasil_sdk_go.Base.Dict.{Dict}
use yggdrasil_sdk_go.Base.Texts.{Text, codes, is_empty}
use yggdrasil_sdk_go.Rpc.{Error, Envelope, Codec, Frames, Message, done, run}
use yggdrasil_sdk_go.Adapter.{Outcome, answered, failed, error_envelope, settle, wrap}
use yggdrasil_sdk_go.Http.Serve.{
  Response, json, start, body_only, no_headers, is_unframed, decode, reply_fn, nack_fn, delivery,
  conclude, rpc_message, handle,
}

-- An envelope with no body, correlation id, headers and reply-to.
abbrev pub IsBlank : Envelope → Type 0
IsBlank e = (e.body ≡ []) × (e.correlation_id ≡ []) × (e.headers ≡ []) × (e.reply_to ≡ [])

-- A body with no envelope.
abbrev pub unwrapped : Text → Envelope
unwrapped raw = record {
  correlation_id = [];
  reply_to = [];
  headers = [];
  content_type = [];
  body = raw;
}

is_empty-cases : (t : Text) → ((t ≡ []) × (is_empty t ≡ true)) ⊎ ((t ≢ []) × (is_empty t ≡ false))
is_empty-cases [] = inl (refl, refl)
is_empty-cases (c ∷ t) = inr ((λ e. cc), refl)

no_headers-cases :
    (h : Dict Text) → ((h ≡ []) × (no_headers h ≡ true)) ⊎ ((h ≢ []) × (no_headers h ≡ false))
no_headers-cases [] = inl (refl, refl)
no_headers-cases (c ∷ t) = inr ((λ e. cc), refl)

is_unframed-cases :
    (e : Envelope)
    → ((is_unframed e ≡ true) × IsBlank e) ⊎ ((is_unframed e ≡ false) × (IsBlank e → ⊥))
is_unframed-cases e = elim (is_empty-cases e.body) [
  | inr (h, k) ↦ inr (rw k refl, λ blank. h blank.0)
  | inl (a, ka) ↦ elim (is_empty-cases e.correlation_id) [
    | inr (h, k) ↦ inr (rw (ka, k) refl, λ blank. h blank.1)
    | inl (b, kb) ↦ elim (no_headers-cases e.headers) [
      | inr (h, k) ↦ inr (rw (ka, kb, k) refl, λ blank. h blank.2)
      | inl (c, kc) ↦ elim (is_empty-cases e.reply_to) [
        | inr (h, k) ↦ inr (rw (ka, kb, kc, k) refl, λ blank. h blank.3)
        | inl (d, kd) ↦ inl (rw (ka, kb, kc, kd) refl, (a, b, c, d))
      ]
    ]
  ]
]

decode-read_back :
    (codec : Codec) (e : Envelope) (raw : Text)
    → Frames codec e raw
    → decode codec raw ≡ (if is_unframed e then body_only raw else e)
unfolding decode
decode-read_back codec e [] framed = absurd (framed.nonempty refl)
decode-read_back codec e (c ∷ raw) framed = rw framed.read_back refl

-- Of a body that is the JSON of an envelope, an envelope with a body, a correlation id, headers or a
-- reply-to is read back field by field; one with none of these is taken for a bare body instead, so that
-- its JSON is the body.
pub decode-marshal :
    (codec : Codec) (e : Envelope) (raw : Text)
    → Frames codec e raw
    → (IsBlank e × (decode codec raw ≡ unwrapped raw)) ⊎ ((¬ IsBlank e) × (decode codec raw ≡ e))
decode-marshal codec e raw framed = elim (is_unframed-cases e) [
  | inl (k, blank) ↦ inl (blank, decode-read_back codec e raw framed ∙ (rw k))
  | inr (k, full) ↦ inr (full, decode-read_back codec e raw framed ∙ (rw k))
]

-- The envelope of the reply: `wrap` answers errors with JSON.
abbrev pub answer_envelope : Text → Outcome → Envelope
answer_envelope id (answered body content_type) = record {
  correlation_id = id;
  reply_to = [];
  headers = [];
  content_type = if is_empty content_type then codes "application/json" else content_type;
  body = body;
}
answer_envelope id (failed err) = record {
  correlation_id = id;
  reply_to = [];
  headers = [];
  content_type = codes "application/json";
  body = error_envelope err;
}

-- The rest of `handle` behind the handler's own code.
settled : Codec → (Text → Option Error) → Text → Outcome → List Response
settled codec write id o =
    let (err, s) = run (delivery codec write id) (settle o) start in conclude codec write id err s

module _ (codec : Codec) (write : Text → Option Error) (id out : Text) where
  settled_json :
      (o : Outcome)
      → codec.marshal (answer_envelope id o) ≡ some out
      → settled codec write id o ≡ json out ∷ []
  unfolding settled settle run reply_fn nack_fn conclude
  settled_json (answered body content_type) h = ground (arith, h)
  settled_json (failed err) h = ground (arith, h)

-- A handler that leaves its delivery alone is answered for by one JSON envelope under the request's
-- correlation id, which goes out with status 200: the handler's body and content type, or the error
-- envelope for an error.
pub handle-wrap :
    (codec : Codec) (write : Text → Option Error) (endpoint : Text) (f : Message → Outcome)
    (e : Envelope) (out : Text)
    → codec.marshal (answer_envelope e.correlation_id (f (rpc_message endpoint e))) ≡ some out
    → handle codec write
        (record { endpoint = endpoint; handler = wrap (λ m. done (f m)); closed = false })
        e
      ≡ json out ∷ []
unfolding handle wrap settled
handle-wrap codec write endpoint f e out h =
    settled_json codec write e.correlation_id out (f (rpc_message endpoint e)) h
