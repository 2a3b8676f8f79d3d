-- ===== src/Webhook/Server/Pipeline.antt =====
-- The stages that a request passes before a handler sees it: `serveRoute` of webhookhttp/server.go.
use yggdrasil_sdk_go.Base.{
  Bool, List, ap, true, false, Option, none, some, [], ◌∷◌, ◌≡◌, ◌↔◌, refl, subst, inl, inr, arith,
  length, if◌then◌else◌, Bool-cases,
}
use yggdrasil_sdk_go.Base.Int.{ℤ, pos, ltb_ℤ}
use yggdrasil_sdk_go.Base.Texts.{Text}
use yggdrasil_sdk_go.Base.Dict.{Dict, get}
use yggdrasil_sdk_go.Webhook.Server.{
  HandlerError, Delivery, HandlerConfig, key_of, WebhookRequest, Route, Server, table_of,
  group_routes, answer_of, verified, delivery_of, serve_read, serve_route, serve_method, serve_path,
}
use yggdrasil_sdk_go.Webhook.Server.Routing.{find_route, route_at}

-- What `io.ReadAll` of an `http.MaxBytesReader` promises of a body that arrives whole: it is read
-- where it is within the limit.
abbrev pub Arrives : WebhookRequest → Text → Type 0
Arrives req body =
    (limit : ℤ) → req.read limit ≡ (if ltb_ℤ limit (pos (length body)) then none else some body)

-- A route of the path takes the request: the body is within its limit and passes its verifier.
abbrev pub IsTaken : Server → Text → WebhookRequest → Text → Route → Type 0
IsTaken s path req body r =
    (find_route req.method path s ≡ some r)
    × (ltb_ℤ r.opts.max_body_bytes (pos (length body)) ≡ false)
    × (verified r.opts.verify req body ≡ true)

-- The route's part of it.
abbrev IsFit : WebhookRequest → Text → Route → Type 0
IsFit req body r =
    (ltb_ℤ r.opts.max_body_bytes (pos (length body)) ≡ false)
    × (verified r.opts.verify req body ≡ true)

-- The verifier of a route, if it has one, passes the request.
abbrev pub Passes : Option (WebhookRequest → Text → Bool) → WebhookRequest → Text → Type 0
Passes none req body = Unit {0}
Passes (some f) req body = f req body ≡ true

-- The key is what the route finds, or empty where it looks for none.
abbrev pub KeyIs : Option (WebhookRequest → Text → Text) → WebhookRequest → Text → Text → Type 0
KeyIs none req body key = key ≡ []
KeyIs (some f) req body key = key ≡ f req body

-- The path's route for the method takes the request, and hands it on as the delivery.
abbrev pub HandsOn : Server → Text → WebhookRequest → Text → Route → Delivery → Type 0
HandsOn s path req body r d =
    (find_route req.method path s ≡ some r)
    × (ltb_ℤ r.opts.max_body_bytes (pos (length body)) ≡ false)
    × Passes r.opts.verify req body
    × (d.body ≡ body)
    × (d.headers ≡ req.headers)
    × KeyIs r.opts.idempotency_fn req body d.idempotency_key

verified_iff :
    (o : Option (WebhookRequest → Text → Bool)) (req : WebhookRequest) (body : Text)
    → (verified o req body ≡ true) ↔ Passes o req body
unfolding verified
verified_iff none req body = (λ e. tt, λ h. refl)
verified_iff (some f) req body = (λ e. e, λ h. h)

key_of_iff :
    (o : Option (WebhookRequest → Text → Text)) (req : WebhookRequest) (body key : Text)
    → (key ≡ key_of o req body) ↔ KeyIs o req body key
unfolding key_of
key_of_iff none req body key = (λ e. e, λ h. h)
key_of_iff (some f) req body key = (λ e. e, λ h. h)

delivery_of_iff :
    (c : HandlerConfig) (req : WebhookRequest) (body : Text) (d : Delivery)
    → (d ≡ delivery_of c req body) ↔ (
        (d.body ≡ body)
        × (d.headers ≡ req.headers)
        × KeyIs c.idempotency_fn req body d.idempotency_key)
unfolding delivery_of
delivery_of_iff c req body d =
    let (to, from) = key_of_iff c.idempotency_fn req body d.idempotency_key in
    (
      λ e. (ap (λ x. x.body) e, ap (λ x. x.headers) e, to (ap (λ x. x.idempotency_key) e)),
      λ (b, h, k). same b h (from k),
    )
  where
    same :
        {b k : Text} {h : Dict (List Text)}
        → d.body ≡ b
        → d.headers ≡ h
        → d.idempotency_key ≡ k
        → d ≡ record { body = b; headers = h; idempotency_key = k }
    same e f g = λ i. record { body = e i; headers = f i; idempotency_key = g i }

answer_of_202 : (e : Option HandlerError) → ((answer_of e).status ≡ 202) ↔ (e ≡ none)
unfolding answer_of
answer_of_202 none = (λ h. refl, λ h. refl)
answer_of_202 (some err) = ground arith

module _ (s : Server) (path : Text) (req : WebhookRequest) (body : Text)
    (arrives : Arrives req body) where
  serve_route_calls :
      (r : Route) (d : Delivery)
      → ((serve_route req r).1 ≡ d ∷ []) ↔ (IsFit req body r × (d ≡ delivery_of r.opts req body))
  unfolding serve_route serve_read
  serve_route_calls r d = elim (Bool-cases (ltb_ℤ r.opts.max_body_bytes (pos (length body)))) [
    | inl large ↦ rw (arrives, large) (λ e. cc, λ e. cc)
    | inr fits ↦
        rw (arrives, fits)
          (elim (Bool-cases (verified r.opts.verify req body)) [
            | inl passed ↦ rw passed (λ e. ((refl, refl), cc), λ e. cc)
            | inr failed ↦ rw failed (λ e. cc, λ e. cc)
          ])
  ]

  serve_route_accepts :
      (r : Route)
      → ((serve_route req r).0.status ≡ 202)
        ↔ (IsFit req body r × (r.handler (delivery_of r.opts req body) ≡ none))
  unfolding serve_route serve_read
  serve_route_accepts r = elim (Bool-cases (ltb_ℤ r.opts.max_body_bytes (pos (length body)))) [
    | inl large ↦ rw (arrives, large) (λ e. absurd (omega arith), λ e. cc)
    | inr fits ↦
        rw (arrives, fits)
          (elim (Bool-cases (verified r.opts.verify req body)) [
            | inl passed ↦
                let (to, from) = answer_of_202 (r.handler (delivery_of r.opts req body)) in
                rw passed (λ e. ((refl, refl), to e), λ e. from e.1)
            | inr failed ↦ rw failed (λ e. absurd (omega arith), λ e. cc)
          ])
  ]

  same_route : {o : Option Route} {r q : Route} → o ≡ some r → o ≡ some q → q ≡ r
  same_route e f = cc

  -- What holds exactly of a fitting route with a property, where that is the route of the path.
  of_route :
      {X : Type 0} {P : Route → Type 0} (r : Route)
      → find_route req.method path s ≡ some r
      → X ↔ (IsFit req body r × P r)
      → X ↔ ((q : Route) × IsTaken s path req body q × P q)
  of_route {X} {P} r e (to, from) = (
    λ x. let ((fits, passed), p) = to x in (r, (e, fits, passed), p),
    λ (q, (f, fits, passed), p).
        from (subst (λ x. IsFit req body x × P x) (same_route e f) ((fits, passed), p)),
  )

  of_no_route :
      {X : Type 0} {P : Route → Type 0}
      → find_route req.method path s ≡ none
      → (X → ⊥)
      → X ↔ ((q : Route) × IsTaken s path req body q × P q)
  of_no_route e never = (λ x. absurd (never x), λ (q, (f, fits, passed), p). cc)

  calls-IsTaken :
      (d : Delivery)
      → ((serve_path s path req).1 ≡ d ∷ [])
        ↔ ((r : Route) × IsTaken s path req body r × (d ≡ delivery_of r.opts req body))
  unfolding serve_path serve_method find_route route_at
  calls-IsTaken d = go (find_route req.method path s) refl
    where
      go :
          (o : Option Route)
          → find_route req.method path s ≡ o
          → ((serve_method req (table_of (get path (group_routes s.routes []))) o).1 ≡ d ∷ [])
            ↔ ((r : Route) × IsTaken s path req body r × (d ≡ delivery_of r.opts req body))
      go none e = of_no_route e (λ h. cc)
      go (some r) e = of_route r e (serve_route_calls r d)

  -- A handler is called exactly when the route that the path has for the request's method takes the
  -- request: the body is within the route's limit and passes its verifier, if it has one. It is then
  -- called once, with the body, the headers and the key that the route finds in them.
  pub serve_path_calls_iff :
      (d : Delivery)
      → ((serve_path s path req).1 ≡ d ∷ []) ↔ ((r : Route) × HandsOn s path req body r d)
  serve_path_calls_iff d =
      let (to, from) = calls-IsTaken d in
      (
        λ e.
            let (r, (found, fits, passed), same) = to e in
            let (b, h, k) = (delivery_of_iff r.opts req body d).0 same in
            (r, (found, fits, (verified_iff r.opts.verify req body).0 passed, b, h, k)),
        λ (r, (found, fits, passes, b, h, k)). from (
          r,
          (found, fits, (verified_iff r.opts.verify req body).1 passes),
          (delivery_of_iff r.opts req body d).1 (b, h, k),
        ),
      )

  -- The response is 202 exactly when the route that the path has for the request's method takes the
  -- request and its handler returns no error; so a request that is unknown, too large, unverified, a
  -- duplicate or failed is never answered so.
  pub serve_path_accepted_iff :
      ((serve_path s path req).0.status ≡ 202)
      ↔ ((r : Route) × IsTaken s path req body r × (r.handler (delivery_of r.opts req body) ≡ none))
  unfolding serve_path serve_method find_route route_at
  serve_path_accepted_iff = go (find_route req.method path s) refl
    where
      go :
          (o : Option Route)
          → find_route req.method path s ≡ o
          → ((serve_method req (table_of (get path (group_routes s.routes []))) o).0.status ≡ 202)
            ↔ ((r : Route) × IsTaken s path req body r
                × (r.handler (delivery_of r.opts req body) ≡ none))
      go none e = of_no_route e (λ h. absurd (omega arith))
      go (some r) e = of_route r e (serve_route_accepts r)
