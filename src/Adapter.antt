-- ===== src/Adapter.antt =====
-- adapter/adapter.go: the builder, the bridge from adapter handlers to transport handlers, and `Run`.
-- `unicode` is the case table of `strings.ToLower`, `quote` is `%q`.
mod Tests
mod ListenTests
pub mod Envelope
pub mod Lifecycle
pub mod Listen
use yggdrasil_sdk_go.Base.{
  ℕ, Bool, true, false, Option, none, some, List, [], ◌∷◌, ◌++◌, map, ◌*◌, ◌^◌, ◌==◌, leb,
  if◌then◌else◌,
}
use yggdrasil_sdk_go.Base.Int.{ℤ, pos, negsuc}
use yggdrasil_sdk_go.Base.Texts.{Text, codes, trim_space, to_lower}
use yggdrasil_sdk_go.Base.Dict.{Dict, put}
use yggdrasil_sdk_go.Rpc.{
  Error, message, wrapped, error_text, Message, Program, done, ack, nack, reply, ◌>>=◌,
  Handler as RpcHandler, ConsumerConfig,
}

-- Durations count nanoseconds.
abbrev pub second : ℕ
second = 1_000_000_000

pub record Config : Type 0 where
  pub provider : Text
  pub integration_type : Text
  pub version : Text
  pub default_timeout : ℤ
  pub concurrency : ℤ

-- What an adapter's handler returns: a body with its content type, or an error.
pub data Outcome : Type 0 where
  answered : Text → Text → Outcome
  failed : Error → Outcome

abbrev pub Handler : Type 0
Handler = Message → Program Outcome

-- A transport, as far as `Run` uses it: the error of each `Consume`, if any.
pub record Transport : Type 0 where
  pub consume : ConsumerConfig → Option Error

-- The fields that `beforeRun` may set: the transport, and whether there is an `afterRun`.
pub record Wiring : Type 0 where
  pub transport : Option Transport
  pub after_run : Bool

pub record Adapter : Type 0 where
  pub config : Config
  pub handlers : Dict Handler
  pub wiring : Wiring
  pub before_run : Option (Wiring → Option Error × Wiring)

is_zero : ℤ → Bool
is_zero (pos n) = n == 0
is_zero (negsuc n) = false

is_positive : ℤ → Bool
is_positive (pos n) = leb 1 n
is_positive (negsuc n) = false

unfoldable pub new : Config → Adapter
unfolding is_zero is_positive
new cfg = record {
  config = record cfg {
    default_timeout =
        if is_zero cfg.default_timeout then pos (30 * second) else cfg.default_timeout;
    concurrency = if is_positive cfg.concurrency then cfg.concurrency else pos 1;
  };
  handlers = [];
  wiring = record { transport = none; after_run = false };
  before_run = none;
}

-- The key under which a capability is registered.
unfoldable pub capability_key : (Text → Text) → Text → Text
capability_key unicode capability = to_lower unicode (trim_space capability)

unfoldable pub register : (Text → Text) → Text → Handler → Adapter → Adapter
unfolding capability_key
register unicode capability handler a = record a {
  handlers = put (capability_key unicode capability) handler a.handlers;
}

unfoldable pub set_transport : Transport → Adapter → Adapter
set_transport t a = record a { wiring = record a.wiring { transport = some t } }

-- `strings.ReplaceAll(s, "\"", "\\\"")`
unfoldable pub escape_quotes : Text → Text
escape_quotes [] = []
escape_quotes (c ∷ s) =
    let rest = escape_quotes s in if c == b'"' then b'\\' ∷ c ∷ rest else c ∷ rest

unfoldable pub error_envelope : Error → Text
unfolding escape_quotes
error_envelope err = codes "{\"error\":\"" ++ (escape_quotes (error_text err) ++ codes "\"}")

-- What `wrap` does with the handler's result.
unfoldable pub settle : Outcome → Program (Option Error)
settle (failed err) =
    reply (error_envelope err) (codes "application/json") (λ _. nack false (λ r. done r))
settle (answered body content_type) =
    reply body content_type
      λ reply_err. elim reply_err [ some _ ↦ nack true (λ r. done r) | none ↦ ack (λ r. done r) ]

unfoldable pub wrap : Handler → RpcHandler
unfolding settle ◌>>=◌
wrap handler m = handler m >>= settle

-- What `Run` does, in order.
pub data Event : Type 0 where
  consumed : Text → Event
  refused : Text → Event
  waited : Event
  sub_closed : Text → Event
  after_ran : Event

abbrev pub consumer_config : Config → Text → Handler → ConsumerConfig
consumer_config cfg capability handler = record {
  endpoint = capability;
  handler = some (wrap handler);
  timeout = cfg.default_timeout;
  concurrency = cfg.concurrency;
}

-- The deferred calls of `Run`, behind whatever ended it: each subscription, then `afterRun`.
abbrev deferred : Bool → List Text → List Event
deferred after_run subs = map sub_closed subs ++ (if after_run then after_ran ∷ [] else [])

module _ (quote : Text → Text) (t : Transport) (cfg : Config) (after_run : Bool) where
  -- The loop over the handlers, with the subscriptions that are open and the events so far.
  pub consume_each : Dict Handler → List Text → List Event → Option Error × List Event
  consume_each [] subs log = (none, log ++ (waited ∷ deferred after_run subs))
  consume_each ((capability, handler) ∷ more) subs log =
      elim (t.consume (consumer_config cfg capability handler)) [
        | some err ↦ (
          some (wrapped (codes "adapter: consume " ++ (quote capability ++ codes ": ")) err),
          log ++ (refused capability ∷ deferred after_run subs),
        )
        | none ↦ consume_each more (subs ++ capability ∷ []) (log ++ consumed capability ∷ [])
      ]

-- U+2014 in UTF-8
abbrev em_dash : Text
em_dash = 0xe2 ∷ 0x80 ∷ 0x94 ∷ []

abbrev pub no_handlers : Error
no_handlers =
    message
      (codes "adapter: no handlers registered " ++ (em_dash ++ codes " call Register before Run"))

abbrev pub no_transport : Error
no_transport = message (
    codes "adapter: no transport configured "
    ++ (em_dash ++ codes " call ListenHTTP, ListenAMQP, or Transport before Run"))

prepare :
    (Text → Text) → Config → Dict Handler → Bool → Option Transport → Option Error × List Event
unfolding consume_each
prepare quote cfg handlers after_run none = (some no_transport, [])
prepare quote cfg handlers after_run (some t) = consume_each quote t cfg after_run handlers [] []

-- `Run` behind `beforeRun`.
run_prepared :
    (Text → Text) → Config → Dict Handler → Option Error × Wiring → Option Error × List Event
unfolding prepare
run_prepared quote cfg handlers (some err, w) = (some err, [])
run_prepared quote cfg handlers (none, w) = prepare quote cfg handlers w.after_run w.transport

run_setup : Option (Wiring → Option Error × Wiring) → Wiring → Option Error × Wiring
run_setup none w = (none, w)
run_setup (some f) w = f w

run_handlers : (Text → Text) → Adapter → Dict Handler → Option Error × List Event
unfolding run_setup run_prepared
run_handlers quote a [] = (some no_handlers, [])
run_handlers quote a (h ∷ hs) =
    run_prepared quote a.config (h ∷ hs) (run_setup a.before_run a.wiring)

-- `Run` up to its return, which is behind the end of its context where it gets that far. Go's map
-- order is the order of the handlers.
unfoldable pub run : (Text → Text) → Adapter → Option Error × List Event
unfolding run_handlers
run quote a = run_handlers quote a a.handlers
