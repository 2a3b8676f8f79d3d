-- ===== src/Webhook/Server/Routing.antt =====
-- Which route answers a request: `Handle` and `ListenAndServe` of webhookhttp/server.go.
use yggdrasil_sdk_go.Base.{
  true, false, ◌&&◌, Option, none, some, List, [], ◌∷◌, ◌≡◌, refl, ap, ◌∙◌, sym, inl, inr, arith,
  if◌then◌else◌, Bool-cases,
}
use yggdrasil_sdk_go.Base.Texts.{Text, text_eq, text_eq_iff}
use yggdrasil_sdk_go.Base.Dict.{Dict, get, put, get-put, IsMap, put-IsMap, is_absent}
use yggdrasil_sdk_go.Webhook.Server.{
  Config, Handler, HandlerOption, Route, Server, new, handle, config_of, table_of, group_method,
  group_routes,
}

-- The first of two that is there.
abbrev pub or_get : Option Route → Option Route → Option Route
or_get none o = o
or_get (some r) o = some r

-- The route of a method at a path, from routes that are grouped by path.
unfoldable pub route_at : (method path : Text) → Dict (Dict Route) → Option Route
route_at method path paths = get method (table_of (get path paths))

-- The route that `ListenAndServe` has for a method at a path.
unfoldable pub find_route : (method path : Text) → Server → Option Route
unfolding route_at
find_route method path s = route_at method path (group_routes s.routes [])

-- The same from the routes as `Handle` keeps them.
abbrev pub registered : (method path : Text) → Dict (Dict Route) → Option Route
registered method path routes = get path (table_of (get method routes))

-- No method stands twice, and no path under a method.
abbrev pub IsRoutes : Dict (Dict Route) → Type 0
IsRoutes [] = Unit
IsRoutes ((method, by_path) ∷ routes) =
    (is_absent (get method routes) ≡ true) × IsMap by_path × IsRoutes routes

no_route {ℓ} : {A : Type ℓ} (o : Option A) → is_absent o ≡ true → o ≡ none
no_route none h = refl
no_route (some a) h = cc

route_at-put :
    (method path m p : Text) (r : Route) (paths : Dict (Dict Route))
    → route_at m p (put path (put method r (table_of (get path paths))) paths) ≡ (
        if text_eq path p
        then (if text_eq method m then some r else route_at m p paths)
        else route_at m p paths)
unfolding route_at
route_at-put method path m p r paths = elim (Bool-cases (text_eq path p)) [
  | inl same ↦
      rw (get-put, same)
        (get-put m method r (table_of (get path paths)) ∙ (rw ((text_eq_iff path p).0 same) refl))
  | inr other ↦ rw (get-put, other) refl
]

route_at-group_method :
    (method m p : Text) (by_path : Dict Route) (paths : Dict (Dict Route))
    → IsMap by_path
    → route_at m p (group_method method by_path paths) ≡ (
        if text_eq method m
        then or_get (get p by_path) (route_at m p paths)
        else route_at m p paths)
unfolding group_method get
route_at-group_method method m p [] paths h = ground arith
route_at-group_method method m p ((path, r) ∷ by_path) paths (absent, h) =
    route_at-group_method method m p by_path
      (put path (put method r (table_of (get path paths))) paths) h
    ∙ elim (Bool-cases (text_eq method m)) [
      | inl asked ↦
          rw (asked, route_at-put, asked)
            (elim (Bool-cases (text_eq path p)) [
              | inl same ↦
                  rw (same, no_route (get p by_path) (rw ((text_eq_iff path p).0 same) at absent))
                    refl
              | inr other ↦ rw other refl
            ])
      | inr unasked ↦ rw (unasked, route_at-put, unasked) (ground arith)
    ]

route_at-group_routes :
    (m p : Text) (routes paths : Dict (Dict Route))
    → IsRoutes routes
    → route_at m p (group_routes routes paths) ≡ or_get (registered m p routes) (route_at m p paths)
unfolding group_routes get
route_at-group_routes m p [] paths h = refl
route_at-group_routes m p ((method, by_path) ∷ routes) paths (absent, h, more) =
    route_at-group_routes m p routes (group_method method by_path paths) more
    ∙ ap (or_get (registered m p routes)) (route_at-group_method method m p by_path paths h)
    ∙ elim (Bool-cases (text_eq method m)) [
      | inl asked ↦
          rw (asked, no_route (get m routes) (rw ((text_eq_iff method m).0 asked) at absent)) refl
      | inr other ↦ rw other refl
    ]

text_eq_sym : (s t : Text) → text_eq s t ≡ false → text_eq t s ≡ false
text_eq_sym s t h = ground (arith, text_eq_iff s t, text_eq_iff t s)

module _ (method : Text) (by_path : Dict Route) (fits : IsMap by_path) where
  put-IsRoutes :
      (routes : Dict (Dict Route)) → IsRoutes routes → IsRoutes (put method by_path routes)
  unfolding get put
  put-IsRoutes [] h = (refl, fits, tt)
  put-IsRoutes ((j, m) ∷ routes) (absent, first, more) = elim (Bool-cases (text_eq j method)) [
    | inl same ↦ rw same (rw ((text_eq_iff j method).0 same) at absent, fits, more)
    | inr other ↦
        rw other (rw (get-put, text_eq_sym j method other) absent, first, put-IsRoutes routes more)
  ]

routes_at-IsMap :
    (method : Text) (routes : Dict (Dict Route))
    → IsRoutes routes
    → IsMap (table_of (get method routes))
unfolding get
routes_at-IsMap method [] h = tt
routes_at-IsMap method ((j, m) ∷ routes) (absent, first, more) =
    elim (Bool-cases (text_eq j method)) [
      | inl same ↦ rw same first
      | inr other ↦ rw other (routes_at-IsMap method routes more)
    ]

-- A server that is made by `New` and has got its routes by calls of `Handle`.
pub data Built : Server → Type 0 where
  made : (cfg : Config) → Built (new cfg)
  with_route :
      {s : Server} (method path : Text) (h : Handler) (opts : List HandlerOption)
      → Built s
      → Built (handle method path h opts s)

Built-IsRoutes : {s : Server} → Built s → IsRoutes s.routes
unfolding new handle
Built-IsRoutes (made cfg) = tt
Built-IsRoutes (with_route {s} method path h opts b) =
    put-IsRoutes method _ (put-IsMap path _ _ (routes_at-IsMap method s.routes (Built-IsRoutes b)))
      s.routes (Built-IsRoutes b)

pub or_get-none : (o : Option Route) → or_get o none ≡ o
or_get-none none = refl
or_get-none (some r) = refl

find_route-registered :
    (s : Server) (m p : Text) → IsRoutes s.routes → find_route m p s ≡ registered m p s.routes
unfolding find_route route_at get
find_route-registered s m p h = route_at-group_routes m p s.routes [] h ∙ or_get-none _

registered-put :
    (method path m p : Text) (r : Route) (routes : Dict (Dict Route))
    → registered m p (put method (put path r (table_of (get method routes))) routes)
      ≡ (if text_eq method m && text_eq path p then some r else registered m p routes)
registered-put method path m p r routes = elim (Bool-cases (text_eq method m)) [
  | inl same ↦
      rw (get-put, same)
        (get-put p path r (table_of (get method routes))
          ∙ (rw ((text_eq_iff method m).0 same) refl))
  | inr other ↦ rw (get-put, other) refl
]

-- The route that a served path has for a method is the one of the last `Handle` of just that method
-- and path, with the options of that call; other calls of `Handle` change nothing about it.
pub find_route-handle :
    {s : Server} (method path m p : Text) (h : Handler) (opts : List HandlerOption)
    → Built s
    → find_route m p (handle method path h opts s) ≡ (
        if text_eq method m && text_eq path p
        then some (record { handler = h; opts = config_of s opts })
        else find_route m p s)
unfolding handle
find_route-handle {s} method path m p h opts b =
    find_route-registered (handle method path h opts s) m p
      (Built-IsRoutes (with_route method path h opts b))
    ∙ registered-put method path m p _ s.routes
    ∙ ap
        (λ o.
          if text_eq method m && text_eq path p
          then some (record { handler = h; opts = config_of s opts })
          else o)
        (sym (find_route-registered s m p (Built-IsRoutes b)))
