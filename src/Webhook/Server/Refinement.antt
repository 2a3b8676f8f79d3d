-- ===== src/Webhook/Server/Refinement.antt =====
-- A server of webhookhttp/server.go against what its calls of `Handle` promise: a map from methods
-- and paths to routes, in which the last call wins.
use yggdrasil_sdk_go.Base.{
  Bool, true, false, ◌&&◌, Option, none, some, List, [], ◌∷◌, ◌≡◌, refl, ap, subst, ◌∙◌,
  if◌then◌else◌,
}
use yggdrasil_sdk_go.Base.Texts.{Text, text_eq}
use yggdrasil_sdk_go.Base.Dict.{Dict, get}
use yggdrasil_sdk_go.Webhook.Server.{
  Config, Delivery, Handler, HandlerOption, WebhookRequest, Response, Route, Server, new, handle,
  config_of, table_of, group_routes, serve_route, serve_method, serve_path,
}
use yggdrasil_sdk_go.Webhook.Server.Routing.{
  or_get, or_get-none, route_at, find_route, Built, made, with_route, find_route-handle,
}

-- A call of `Handle`.
pub record HandleCall : Type 0 where
  pub method : Text
  pub path : Text
  pub handler : Handler
  pub opts : List HandlerOption

abbrev pub handles : List HandleCall → Server → Server
handles [] s = s
handles (c ∷ cs) s = handles cs (handle c.method c.path c.handler c.opts s)

-- The specification: the route of the last call for just that method and path.
abbrev pub last_call : Server → (method path : Text) → List HandleCall → Option Route
last_call s m p [] = none
last_call s m p (c ∷ cs) = or_get (last_call s m p cs) (
    if text_eq c.method m && text_eq c.path p
    then some (record { handler = c.handler; opts = config_of s c.opts })
    else none)

-- What the specification says of an answer and of the deliveries to handlers.
abbrev pub Implements : Option Route → WebhookRequest → Response × List Delivery → Type 0
Implements (some r) req answer = answer ≡ serve_route req r
Implements none req answer = (answer.0.status ≡ 405) × (answer.1 ≡ [])

or_get-if :
    (a : Option Route) (r : Route) (test : Bool) (o : Option Route)
    → or_get a (if test then some r else o) ≡ or_get (or_get a (if test then some r else none)) o
or_get-if (some q) r test o = refl
or_get-if none r true o = refl
or_get-if none r false o = refl

-- Calls of `Handle` do not change what options come to.
last_call-handle :
    (s : Server) (c : HandleCall) (m p : Text) (cs : List HandleCall)
    → last_call (handle c.method c.path c.handler c.opts s) m p cs ≡ last_call s m p cs
unfolding handle config_of
last_call-handle s c m p [] = refl
last_call-handle s c m p (d ∷ cs) =
    ap
      (λ o. or_get o (
        if text_eq d.method m && text_eq d.path p
        then some (record { handler = d.handler; opts = config_of s d.opts })
        else none))
      (last_call-handle s c m p cs)

find_route-handles :
    (cs : List HandleCall) (s : Server) (m p : Text)
    → Built s
    → find_route m p (handles cs s) ≡ or_get (last_call s m p cs) (find_route m p s)
find_route-handles [] s m p b = refl
find_route-handles (c ∷ cs) s m p b =
    find_route-handles cs (handle c.method c.path c.handler c.opts s) m p
      (with_route c.method c.path c.handler c.opts b)
    ∙ ap (λ o. or_get o (find_route m p (handle c.method c.path c.handler c.opts s)))
        (last_call-handle s c m p cs)
    ∙ ap (or_get (last_call s m p cs)) (find_route-handle c.method c.path m p c.handler c.opts b)
    ∙ or_get-if (last_call s m p cs) _ (text_eq c.method m && text_eq c.path p) (find_route m p s)

find_route-new : (cfg : Config) (m p : Text) → find_route m p (new cfg) ≡ none
unfolding find_route route_at new group_routes get
find_route-new cfg m p = refl

serve_method-Implements :
    (req : WebhookRequest) (by_method : Dict Route) (o : Option Route)
    → Implements o req (serve_method req by_method o)
unfolding serve_method
serve_method-Implements req by_method (some r) = refl
serve_method-Implements req by_method none = (refl, refl)

-- A server with any calls of `Handle` refines the map of its last calls: at each path, a request is
-- served by the route of the last call for its method and that path, and where there is none it gets
-- 405 and reaches no handler.
pub serve_path-Implements :
    (cfg : Config) (cs : List HandleCall) (path : Text) (req : WebhookRequest)
    → Implements
        (last_call (new cfg) req.method path cs)
        req
        (serve_path (handles cs (new cfg)) path req)
unfolding serve_path find_route route_at
serve_path-Implements cfg cs path req =
    let by_method = table_of (get path (group_routes (handles cs (new cfg)).routes [])) in
    subst (λ o. Implements o req (serve_method req by_method (get req.method by_method)))
      (find_route-handles cs (new cfg) req.method path (made cfg)
        ∙ ap (or_get _) (find_route-new cfg req.method path)
        ∙ or_get-none _)
      (serve_method-Implements req by_method (get req.method by_method))
