-- ===== src/Adapter/Listen/Serving.antt =====
-- `Run` of an adapter that listens by adapter/transport.go.
use yggdrasil_sdk_go.Base.{
  arith, sym, subst, ℕ, true, Option, none, some, List, [], ◌∷◌, ◌++◌, ◌≡◌, ◌≢◌, ◌↔◌, ◌⊎◌, inl, inr,
  refl, All, if◌then◌else◌,
}
use yggdrasil_sdk_go.Base.Texts.{Text, codes, is_empty}
use yggdrasil_sdk_go.Base.Dict.{Dict}
use yggdrasil_sdk_go.Rpc.{Error, ConsumerConfig}
use yggdrasil_sdk_go.Amqp.Consume.{Subscription, consume}
use yggdrasil_sdk_go.Amqp.Consume.Channels.{consume-Leaves, Leaves}
use yggdrasil_sdk_go.Adapter.{
  Config, Handler, Adapter, Wiring, consumer_config, run, run_handlers, run_setup, run_prepared,
  prepare,
}
use yggdrasil_sdk_go.Http.Transport as Http
use yggdrasil_sdk_go.Adapter.Lifecycle.{consume_each_ok_iff}
use yggdrasil_sdk_go.Adapter.Listen.{
  Connection, dial_amqp_with_retry, owned_by, queue_prefix, amqp_transport, connected, listen_amqp,
  error_of, http_transport, refusal, bound, listen_http,
}

-- "yggdrasil.adapter." with the integration type and a dot, or else with the provider and a dot, or
-- nothing where both are empty.
abbrev pub namespace : (integration_type provider : Text) → Text
namespace [] [] = []
namespace [] (c ∷ cs) = codes "yggdrasil.adapter." ++ ((c ∷ cs) ++ codes ".")
namespace (c ∷ cs) provider = codes "yggdrasil.adapter." ++ ((c ∷ cs) ++ codes ".")

-- The connection lets an endpoint be consumed, on the queue of the adapter's namespace.
abbrev pub IsServed : Connection → Config → Text → Handler → Type 0
IsServed conn cfg capability handler =
    (sub : Subscription) × ((consume (conn capability) (namespace cfg.integration_type cfg.provider)
        (consumer_config cfg capability handler)).0
      ≡ inr sub)
    × (sub.endpoint ≡ namespace cfg.integration_type cfg.provider ++ capability)

owned_by-namespace : (t p : Text) → owned_by (if is_empty t then p else t) ≡ namespace t p
unfolding owned_by
owned_by-namespace [] [] = refl
owned_by-namespace [] (c ∷ cs) = refl
owned_by-namespace (c ∷ cs) p = refl

queue_prefix-namespace :
    (cfg : Config) → queue_prefix cfg ≡ namespace cfg.integration_type cfg.provider
unfolding queue_prefix
queue_prefix-namespace cfg = owned_by-namespace cfg.integration_type cfg.provider

All-iff {ℓ κ μ} :
    {A : Type ℓ} (P : A → Type κ) (Q : A → Type μ)
    → ((a : A) → P a ↔ Q a)
    → (xs : List A) → All P xs ↔ All Q xs
All-iff P Q h [] = (λ p. tt, λ q. tt)
All-iff P Q h (x ∷ xs) =
    let (to, from) = h x in
    let (tos, froms) = All-iff P Q h xs in (λ p. (to p.0, tos p.1), λ q. (from q.0, froms q.1))

error_of-none :
    (prefix : Text) (cfg : ConsumerConfig) (r : (Error ⊎ Subscription) × List _)
    → Leaves prefix cfg r
    → (error_of r.0 ≡ none)
      ↔ ((sub : Subscription) × (r.0 ≡ inr sub) × (sub.endpoint ≡ prefix ++ cfg.endpoint))
unfolding error_of
error_of-none prefix cfg (inl err, steps) l = (λ e. cc, λ (sub, e, _). cc)
error_of-none prefix cfg (inr sub, steps) l = (λ e. (sub, refl, l.0), λ h. refl)

IsServed-iff :
    (conn : Connection) (cfg : Config) (capability : Text) (handler : Handler)
    → ((amqp_transport conn (queue_prefix cfg)).consume (consumer_config cfg capability handler)
        ≡ none)
      ↔ IsServed conn cfg capability handler
unfolding amqp_transport
IsServed-iff conn cfg capability handler =
    let c = consumer_config cfg capability handler in
    let p = namespace cfg.integration_type cfg.provider in
    rw (queue_prefix-namespace cfg)
      (error_of-none p c (consume (conn capability) p c) (consume-Leaves (conn capability) p c))

connected_iff :
    (quote : Text → Text) (cfg : Config) (hs : Dict Handler) (w : Wiring) (r : Error ⊎ Connection)
    → ((run_prepared quote cfg hs (connected cfg r w)).0 ≡ none)
      ↔ ((conn : Connection) × (r ≡ inr conn) × All (λ h. IsServed conn cfg h.0 h.1) hs)
unfolding run_prepared prepare connected
connected_iff quote cfg hs w (inl err) = (λ e. cc, λ (conn, e, _). cc)
connected_iff quote cfg hs w (inr conn) =
    let t = amqp_transport conn (queue_prefix cfg) in
    let (to, from) = consume_each_ok_iff quote t cfg true hs [] [] in
    (
      λ e. (conn, refl, (all_served conn).0 (to e)),
      λ (conn', same, all). from (
          (all_served conn).1
            (subst (λ c. All (λ h. IsServed c cfg h.0 h.1) hs) (sym (inr_inj same)) all)),
    )
  where
    all_served :
        (c : Connection)
        → All
            (λ h.
              (amqp_transport c (queue_prefix cfg)).consume (consumer_config cfg h.0 h.1) ≡ none)
            hs
          ↔ All (λ h. IsServed c cfg h.0 h.1) hs
    all_served c = All-iff _ _ (λ h. IsServed-iff c cfg h.0 h.1) hs

    inr_inj : {c d : Connection} → Path (Error ⊎ Connection) (inr c) (inr d) → c ≡ d
    inr_inj e = cc

-- An adapter with handlers that listens on a broker returns with no error exactly when the dial gives
-- a connection and every handler is consumed there, from the queue whose name is "yggdrasil.adapter."
-- with the integration type, or else the provider, a dot and its capability, or the capability alone
-- where both of these are empty.
pub run-listen_amqp :
    (quote : Text → Text) (url : Text) (dial : ℕ → Error ⊎ Connection) (canceled : ℕ → Option Error)
    (a : Adapter)
    → a.handlers ≢ []
    → ((run quote (listen_amqp quote url dial canceled a)).0 ≡ none) ↔ (
        (conn : Connection) × ((dial_amqp_with_retry quote url dial canceled).0 ≡ inr conn)
        × All (λ h. IsServed conn a.config h.0 h.1) a.handlers)
unfolding run listen_amqp run_handlers run_setup
run-listen_amqp quote url dial canceled a some_handlers = go a.handlers some_handlers
  where
    go :
        (hs : Dict Handler)
        → hs ≢ []
        → ((run_handlers quote (listen_amqp quote url dial canceled a) hs).0 ≡ none) ↔ (
            (conn : Connection) × ((dial_amqp_with_retry quote url dial canceled).0 ≡ inr conn)
            × All (λ h. IsServed conn a.config h.0 h.1) hs)
    go [] ne = absurd (ne refl)
    go (h ∷ hs) ne =
        connected_iff quote a.config (h ∷ hs) a.wiring
          (dial_amqp_with_retry quote url dial canceled).0

-- What `Consume` refuses does not depend on what the transport has consumed before.
http_transport-consume :
    (cfg : ConsumerConfig) (t : Http.Transport)
    → t.has_mux ≡ true
    → refusal (Http.consume (λ ps p. true) cfg t).0 ≡ http_transport.consume cfg
unfolding http_transport refusal Http.consume Http.new
http_transport-consume cfg t served = ground (arith, served)

IsNamed_iff :
    (cfg : Config) (capability : Text) (handler : Handler)
    → (http_transport.consume (consumer_config cfg capability handler) ≡ none) ↔ (capability ≢ [])
unfolding http_transport refusal Http.consume Http.new
IsNamed_iff cfg [] handler = (λ e. cc, λ h. absurd (h refl))
IsNamed_iff cfg (c ∷ cs) handler = (λ e h. cc, λ h. refl)

bound_iff :
    (quote : Text → Text) (addr : Text) (failure : Option Error) (cfg : Config) (hs : Dict Handler)
    → ((run_prepared quote cfg hs (
          bound quote addr failure
            (record { transport = some http_transport; after_run = true }))).0
        ≡ none)
      ↔ ((failure ≡ none) × All (λ h. h.0 ≢ []) hs)
unfolding run_prepared prepare bound
bound_iff quote addr (some err) cfg hs = (λ e. cc, λ h. cc (h.0))
bound_iff quote addr none cfg hs =
    let (to, from) = consume_each_ok_iff quote http_transport cfg true hs [] [] in
    let (names, named) = All-iff _ _ (λ h. IsNamed_iff cfg h.0 h.1) hs in
    (λ e. (refl, names (to e)), λ h. from (named h.1))

-- An adapter with handlers that listens over HTTP, on a mux that takes their patterns, returns with no
-- error exactly when its address can be listened on and none of its capabilities is empty.
pub run-listen_http :
    (quote : Text → Text) (addr : Text) (failure : Option Error) (a : Adapter)
    → a.handlers ≢ []
    → ((run quote (listen_http quote addr failure a)).0 ≡ none)
      ↔ ((failure ≡ none) × All (λ h. h.0 ≢ []) a.handlers)
unfolding run listen_http run_handlers run_setup
run-listen_http quote addr failure a some_handlers = go a.handlers some_handlers
  where
    go :
        (hs : Dict Handler)
        → hs ≢ []
        → ((run_handlers quote (listen_http quote addr failure a) hs).0 ≡ none)
          ↔ ((failure ≡ none) × All (λ h. h.0 ≢ []) hs)
    go [] ne = absurd (ne refl)
    go (h ∷ hs) ne = bound_iff quote addr failure a.config (h ∷ hs)
