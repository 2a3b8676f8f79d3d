-- ===== src/Webhook/Server.antt =====
-- webhookhttp/server.go: the registration of routes, and the answer to a request. `net/http` reads the
-- body, matches a registered path and writes the response.
pub mod Routing
pub mod Pipeline
pub mod Refinement
use yggdrasil_sdk_go.Base.{
  ℕ, Bool, true, false, Option, none, some, List, [], ◌∷◌, ◌++◌, map, ◌*◌, ◌==◌, leb, if◌then◌else◌,
}
use yggdrasil_sdk_go.Base.Int.{ℤ, pos, negsuc, ltb_ℤ}
use yggdrasil_sdk_go.Base.Texts.{Text, codes, is_empty}
use yggdrasil_sdk_go.Base.Dict.{Dict, get, put}

-- Durations count nanoseconds.
abbrev second : ℕ
second = 1_000_000_000

-- `DefaultMaxBodyBytes`
abbrev pub default_max_body_bytes : ℤ
default_max_body_bytes = pos 65536

-- `Config`; of the TLS configuration, whether there is one.
pub record Config : Type 0 where
  pub addr : Text
  pub tls : Bool
  pub max_body_bytes : ℤ
  pub read_timeout : ℤ
  pub write_timeout : ℤ
  pub idle_timeout : ℤ

pub record Delivery : Type 0 where
  pub body : Text
  pub headers : Dict (List Text)
  pub idempotency_key : Text

-- A handler's error: `ErrDuplicate`, a `*TerminalError` with its cause, one that has none or is nil,
-- another, and one that wraps an error behind a text.
pub data HandlerError : Type 0 where
  duplicate : HandlerError
  terminal : HandlerError → HandlerError
  terminal_causeless : HandlerError
  plain : Text → HandlerError
  wrapping : Text → HandlerError → HandlerError

-- `err.Error()`
unfoldable pub error_text : HandlerError → Text
error_text duplicate = codes "webhookhttp: duplicate delivery"
error_text (terminal cause) = error_text cause
error_text terminal_causeless = codes "webhookhttp: terminal error"
error_text (plain text) = text
error_text (wrapping text err) = text ++ error_text err

-- `errors.Is(err, ErrDuplicate)`
unfoldable pub is_duplicate : HandlerError → Bool
is_duplicate duplicate = true
is_duplicate (terminal cause) = is_duplicate cause
is_duplicate terminal_causeless = false
is_duplicate (plain text) = false
is_duplicate (wrapping text err) = is_duplicate err

-- `errors.As(err, &te)`, with the text of what it finds.
unfoldable pub as_terminal : HandlerError → Option Text
unfolding error_text
as_terminal duplicate = none
as_terminal (terminal cause) = some (error_text (terminal cause))
as_terminal terminal_causeless = some (error_text terminal_causeless)
as_terminal (plain text) = none
as_terminal (wrapping text err) = as_terminal err

-- A request, its body as `io.ReadAll` of an `http.MaxBytesReader` reads it under a limit.
pub record WebhookRequest : Type 0 where
  pub method : Text
  pub headers : Dict (List Text)
  pub read : ℤ → Option Text

abbrev pub Handler : Type 0
Handler = Delivery → Option HandlerError

-- `handlerConfig`; `verify` says whether the request passes.
pub record HandlerConfig : Type 0 where
  pub verify : Option (WebhookRequest → Text → Bool)
  pub idempotency_fn : Option (WebhookRequest → Text → Text)
  pub max_body_bytes : ℤ

pub record Route : Type 0 where
  pub handler : Handler
  pub opts : HandlerConfig

pub record Server : Type 0 where
  pub cfg : Config
  pub routes : Dict (Dict Route)

abbrev pub HandlerOption : Type 0
HandlerOption = HandlerConfig → HandlerConfig

unfoldable pub with_verify_func : Option (WebhookRequest → Text → Bool) → HandlerOption
with_verify_func fn c = record c { verify = fn }

unfoldable pub with_idempotency_key : Option (WebhookRequest → Text → Text) → HandlerOption
with_idempotency_key fn c = record c { idempotency_fn = fn }

unfoldable pub with_max_body_bytes : ℤ → HandlerOption
with_max_body_bytes n c = record c { max_body_bytes = n }

unfoldable pub positive_or : ℤ → ℤ → ℤ
positive_or default n = if ltb_ℤ (pos 0) n then n else default

unfoldable pub nonzero_or : ℤ → ℤ → ℤ
nonzero_or default (pos n) = if n == 0 then default else pos n
nonzero_or default (negsuc n) = negsuc n

unfoldable pub new : Config → Server
unfolding positive_or nonzero_or
new cfg = record {
  cfg = record {
    addr = cfg.addr;
    tls = cfg.tls;
    max_body_bytes = positive_or default_max_body_bytes cfg.max_body_bytes;
    read_timeout = nonzero_or (pos (10 * second)) cfg.read_timeout;
    write_timeout = nonzero_or (pos (10 * second)) cfg.write_timeout;
    idle_timeout = nonzero_or (pos (30 * second)) cfg.idle_timeout;
  };
  routes = [];
}

unfoldable pub apply_options : List HandlerOption → HandlerConfig → HandlerConfig
apply_options [] c = c
apply_options (opt ∷ opts) c = apply_options opts (opt c)

unfoldable pub with_limit : ℤ → HandlerConfig → HandlerConfig
unfolding positive_or
with_limit default c = record c { max_body_bytes = positive_or default c.max_body_bytes }

-- The configuration of a route of the server.
unfoldable pub config_of : Server → List HandlerOption → HandlerConfig
unfolding with_limit
config_of s opts = with_limit s.cfg.max_body_bytes (
    apply_options opts
      (record { verify = none; idempotency_fn = none; max_body_bytes = s.cfg.max_body_bytes }))

abbrev pub table_of {ℓ} : {V : Type ℓ} → Option (Dict V) → Dict V
table_of none = []
table_of (some m) = m

unfoldable pub handle : (method path : Text) → Handler → List HandlerOption → Server → Server
unfolding config_of
handle method path h opts s = record s {
  routes =
      put method
        (put path (record { handler = h; opts = config_of s opts })
          (table_of (get method s.routes)))
        s.routes;
}

-- The loops of `ListenAndServe` that group the routes by path.
unfoldable pub group_method : Text → Dict Route → Dict (Dict Route) → Dict (Dict Route)
group_method method [] paths = paths
group_method method ((path, r) ∷ by_path) paths =
    group_method method by_path (put path (put method r (table_of (get path paths))) paths)

unfoldable pub group_routes : Dict (Dict Route) → Dict (Dict Route) → Dict (Dict Route)
group_routes [] paths = paths
group_routes ((method, by_path) ∷ routes) paths =
    group_routes routes (group_method method by_path paths)

-- What goes out: the status, and the text that `http.Error` writes or none.
pub record Response : Type 0 where
  pub status : ℕ
  pub allow : List Text
  pub text : Option Text

abbrev pub http_error : ℕ → Text → Response
http_error status msg = record { status = status; allow = []; text = some (msg ++ codes "\n") }

abbrev pub status_only : ℕ → Response
status_only status = record { status = status; allow = []; text = none }

-- The status of a handler's result.
unfoldable pub answer_of : Option HandlerError → Response
unfolding is_duplicate as_terminal
answer_of none = status_only 202
answer_of (some err) = if is_duplicate err then status_only 200 else elim (as_terminal err) [
  | some text ↦ http_error 400 text
  | none ↦ http_error 500 (codes "internal")
]

unfoldable pub verified : Option (WebhookRequest → Text → Bool) → WebhookRequest → Text → Bool
verified none req body = true
verified (some f) req body = f req body

unfoldable pub key_of : Option (WebhookRequest → Text → Text) → WebhookRequest → Text → Text
key_of none req body = []
key_of (some f) req body = f req body

unfoldable pub delivery_of : HandlerConfig → WebhookRequest → Text → Delivery
unfolding key_of
delivery_of c req body = record {
  body = body;
  headers = req.headers;
  idempotency_key = key_of c.idempotency_fn req body;
}

serve_read : WebhookRequest → Route → Option Text → Response × List Delivery
unfolding verified delivery_of answer_of
serve_read req r none = (http_error 413 (codes "body too large or unreadable"), [])
serve_read req r (some body) =
    if verified r.opts.verify req body
    then (answer_of (r.handler (delivery_of r.opts req body)), delivery_of r.opts req body ∷ [])
    else (http_error 401 (codes "signature verification failed"), [])

-- `serveRoute`: the response, and the deliveries that the handler has been called with.
unfoldable pub serve_route : WebhookRequest → Route → Response × List Delivery
unfolding serve_read
serve_route req r = serve_read req r (req.read r.opts.max_body_bytes)

-- The names of `Allow`, which Go joins with ", " in the order of its map.
serve_method : WebhookRequest → Dict Route → Option Route → Response × List Delivery
unfolding serve_route
serve_method req by_method (some r) = serve_route req r
serve_method req by_method none = (
  record {
    status = 405;
    allow = map (λ e. e.0) by_method;
    text = some (codes "method not allowed\n");
  },
  [],
)

-- The handler that `ListenAndServe` has at a path of the mux.
unfoldable pub serve_path : Server → (path : Text) → WebhookRequest → Response × List Delivery
unfolding serve_method
serve_path s path req =
    let by_method = table_of (get path (group_routes s.routes [])) in
    serve_method req by_method (get req.method by_method)
