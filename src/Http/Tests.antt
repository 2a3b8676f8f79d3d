-- ===== src/Http/Tests.antt =====
-- The theorems on rpc/http/http.go at work.
use yggdrasil_sdk_go.Base.{
  true, false, Option, none, some, [], ◌∷◌, ◌≡◌, refl, inl, inr, ◌⊎◌, length, if◌then◌else◌,
}
use yggdrasil_sdk_go.Base.Int.{pos}
use yggdrasil_sdk_go.Base.Texts.{Text, codes, text_eq}
use yggdrasil_sdk_go.Rpc.{Error, Codec, Frames, Message, Request, done}
use yggdrasil_sdk_go.Adapter.{Outcome, answered, wrap}
use yggdrasil_sdk_go.Http.Serve.{json, decode, handle, serve_http}
use yggdrasil_sdk_go.Http.Serve.Single.{serve_http_single}
use yggdrasil_sdk_go.Http.Serve.Answers.{
  IsBlank, unwrapped, answer_envelope, decode-marshal, handle-wrap,
}
use yggdrasil_sdk_go.Http.Client.{Target, request_envelope, request}
use yggdrasil_sdk_go.Http.Client.Loopback.{loopback, serving, outcome_reply, request-serve}

abbrev ping : Request
ping = record {
  endpoint = codes "echo";
  body = codes "ping";
  content_type = codes "text/plain";
  headers = [];
  correlation_id = codes "c1";
  timeout = pos 0;
}

-- Without a body, a correlation id and headers.
abbrev bare : Request
bare = record ping { body = []; correlation_id = [] }

abbrev pong : Message → Outcome
pong m = answered (codes "pong") []

-- It knows three envelopes by their bodies.
abbrev pub codec : Codec
codec = record {
  marshal = λ e. some (b'J' ∷ e.body);
  unmarshal = λ t.
      if text_eq t (codes "Jping")
      then some (request_envelope ping)
      else if text_eq t (codes "Jpong")
      then some (
          answer_envelope (codes "c1") (
            pong (record {
              endpoint = [];
              body = [];
              content_type = [];
              headers = [];
              correlation_id = [];
              reply_to = [];
            })))
      else if text_eq t (codes "J")
      then some (request_envelope bare)
      else none;
}

abbrev pub all_written : Text → Option Error
all_written t = none

ping-Frames : Frames codec (request_envelope ping) (codes "Jping")
unfolding text_eq
ping-Frames = record { written = refl; nonempty = λ e. cc; read_back = refl }

bare-Frames : Frames codec (request_envelope bare) (codes "J")
unfolding text_eq
bare-Frames = record { written = refl; nonempty = λ e. cc; read_back = refl }

pong-Frames :
    Frames codec (answer_envelope (codes "c1") (answered (codes "pong") [])) (codes "Jpong")
unfolding text_eq
pong-Frames = record { written = refl; nonempty = λ e. cc; read_back = refl }

abbrev here : Target
here = record { base_url = codes "http://adapter"; path_prefix = codes "/rpc/" }

request-serve_example :
    request codec (loopback codec all_written (serving (codes "echo") pong)) here ping
    ≡ inr (outcome_reply (codes "c1") (answered (codes "pong") []))
request-serve_example =
    request-serve codec all_written here ping pong (codes "Jping") (codes "Jpong") ping-Frames
      pong-Frames refl refl (inl (λ e. cc))

serve_http_single_example :
    length (serve_http codec all_written true (inr (codes "Jping")) (serving (codes "echo") pong))
    ≡ 1
serve_http_single_example =
    serve_http_single codec all_written true (inr (codes "Jping")) (serving (codes "echo") pong)
      (λ e. (b'J' ∷ e.body, refl))

-- The handler gets "J" as its body, not the empty body that was sent.
decode-marshal_example :
    (IsBlank (request_envelope bare) × (decode codec (codes "J") ≡ unwrapped (codes "J")))
    ⊎ ((¬ IsBlank (request_envelope bare)) × (decode codec (codes "J") ≡ request_envelope bare))
decode-marshal_example = decode-marshal codec (request_envelope bare) (codes "J") bare-Frames

handle-wrap_example :
    handle codec all_written
      (record { endpoint = codes "echo"; handler = wrap (λ m. done (pong m)); closed = false })
      (request_envelope ping)
    ≡ json (codes "Jpong") ∷ []
handle-wrap_example =
    handle-wrap codec all_written (codes "echo") pong (request_envelope ping) (codes "Jpong") refl
