-- ===== src/Webhook/Tests.antt =====
-- The theorems on webhookhttp/server.go at work.
use yggdrasil_sdk_go.Base.{true, none, some, List, [], ◌∷◌, ◌≡◌, ◌↔◌, refl, length, if◌then◌else◌}
use yggdrasil_sdk_go.Base.Int.{pos, ltb_ℤ}
use yggdrasil_sdk_go.Base.Texts.{codes, text_eq}
use yggdrasil_sdk_go.Webhook.Server.{
  Config, Delivery, Handler, HandlerOption, WebhookRequest, Route, Server, new, handle, serve_path,
  with_verify_func,
}
use yggdrasil_sdk_go.Webhook.Server.Refinement.{
  HandleCall, handles, last_call, Implements, serve_path-Implements,
}
use yggdrasil_sdk_go.Webhook.Server.Pipeline.{HandsOn, serve_path_calls_iff}

abbrev config : Config
config = record {
  addr = codes ":8082";
  tls = true;
  max_body_bytes = pos 0;
  read_timeout = pos 0;
  write_timeout = pos 0;
  idle_timeout = pos 0;
}

abbrev fine : Handler
fine d = none

abbrev signed : List HandlerOption
signed = with_verify_func (some (λ req body. text_eq body (codes "paid"))) ∷ []

abbrev server : Server
server = handle (codes "POST") (codes "/hook") fine signed (new config)

abbrev paid : WebhookRequest
paid = record {
  method = codes "POST";
  headers = [];
  read = λ limit. if ltb_ℤ limit (pos (length (codes "paid"))) then none else some (codes "paid");
}

abbrev delivered : Delivery
delivered = record { body = codes "paid"; headers = []; idempotency_key = [] }

serve_path_calls_iff_example :
    ((serve_path server (codes "/hook") paid).1 ≡ delivered ∷ [])
    ↔ ((r : Route) × HandsOn server (codes "/hook") paid (codes "paid") r delivered)
serve_path_calls_iff_example =
    serve_path_calls_iff server (codes "/hook") paid (codes "paid") (λ limit. refl) delivered

-- Two calls for one method and path, and one for another method.
abbrev three_calls : List HandleCall
three_calls =
    record { method = codes "POST"; path = codes "/hook"; handler = fine; opts = [] }
    ∷ record { method = codes "PUT"; path = codes "/hook"; handler = fine; opts = [] }
    ∷ record { method = codes "POST"; path = codes "/hook"; handler = fine; opts = signed }
    ∷ []

serve_path-Implements_example :
    Implements
      (last_call (new config) (codes "POST") (codes "/hook") three_calls)
      paid
      (serve_path (handles three_calls (new config)) (codes "/hook") paid)
serve_path-Implements_example = serve_path-Implements config three_calls (codes "/hook") paid
