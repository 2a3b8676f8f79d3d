-- ===== src/Amqp/Consume.antt =====
-- rpc/amqp/amqp.go: Consume and setupConsumer. The broker's answers are a parameter: the connection, and
-- the error of each step on a channel.
pub mod Channels
use yggdrasil_sdk_go.Base.{
  ℕ, ◌*◌, Bool, true, false, Option, none, some, List, [], ◌∷◌, ◌++◌, ◌⊎◌, inl, inr, if◌then◌else◌,
}
use yggdrasil_sdk_go.Base.Int.{ℤ, pos, ltb_ℤ}
use yggdrasil_sdk_go.Base.Texts.{Text, codes, is_empty}
use yggdrasil_sdk_go.Rpc.{Error, message, wrapped, Handler, ConsumerConfig}

-- What setupConsumer does at the broker, in order.
pub data Step : Type 0 where
  channel_opened channel_closed : Step
  queue_declared : Text → Step
  qos_set : ℤ → Step
  consumer_started : Text → Step

-- `connection` is the error of `connectionForUse`.
pub record Broker : Type 0 where
  pub connection : Option Error
  pub open_channel : Option Error
  pub declare_queue : Text → Option Error
  pub set_qos : ℤ → Option Error
  pub start_consumer : Text → Option Error
  pub quote : Text → Text

module _ (broker : Broker) (queue : Text) (concurrency : ℤ) where
  started : Option Error → Option Error × List Step
  started (some err) = (
    some
        (wrapped (codes "amqp consume: start consumer " ++ (broker.quote queue ++ codes ": ")) err),
    channel_closed ∷ [],
  )
  started none = (none, consumer_started queue ∷ [])

  limited : Option Error → Option Error × List Step
  unfolding started
  limited (some err) = (some (wrapped (codes "amqp consume: set qos: ") err), channel_closed ∷ [])
  limited none =
      let (err, steps) = started (broker.start_consumer queue) in (err, qos_set concurrency ∷ steps)

  declared : Option Error → Option Error × List Step
  unfolding limited
  declared (some err) = (
    some (wrapped (codes "amqp consume: declare queue " ++ (broker.quote queue ++ codes ": ")) err),
    channel_closed ∷ [],
  )
  declared none =
      let (err, steps) = limited (broker.set_qos concurrency) in (err, queue_declared queue ∷ steps)

  opened : Option Error → Option Error × List Step
  unfolding declared
  opened (some err) = (some (wrapped (codes "amqp consume: open channel: ") err), [])
  opened none =
      let (err, steps) = declared (broker.declare_queue queue) in (err, channel_opened ∷ steps)

  connected : Option Error → Option Error × List Step
  unfolding opened
  connected (some err) = (some (wrapped (codes "amqp consume: get connection: ") err), [])
  connected none = opened broker.open_channel

  unfoldable pub setup_consumer : Option Error × List Step
  unfolding connected
  setup_consumer = connected broker.connection

-- What `cfg.Concurrency <= 0` and `cfg.Timeout <= 0` leave.
unfoldable pub or_default : ℤ → ℤ → ℤ
or_default default n = if ltb_ℤ (pos 0) n then n else default

abbrev second : ℕ
second = 1_000_000_000

-- The configuration that a subscription runs with.
unfoldable pub completed : ConsumerConfig → ConsumerConfig
unfolding or_default
completed cfg = record cfg {
  timeout = or_default (pos (30 * second)) cfg.timeout;
  concurrency = or_default (pos 1) cfg.concurrency;
}

-- What a subscription consumes, and with what.
pub record Subscription : Type 0 where
  pub endpoint : Text
  pub config : ConsumerConfig

subscribed : Text → ConsumerConfig → Option Error × List Step → (Error ⊎ Subscription) × List Step
subscribed queue cfg (some err, steps) = (inl err, steps)
subscribed queue cfg (none, steps) = (inr (record { endpoint = queue; config = cfg }), steps)

consume_with :
    Broker → (prefix : Text) → ConsumerConfig → Option Handler → (Error ⊎ Subscription) × List Step
unfolding subscribed completed
consume_with broker prefix cfg none =
    (inl (message (codes "amqp consume: handler is required")), [])
consume_with broker prefix cfg (some h) =
    subscribed (prefix ++ cfg.endpoint) (completed cfg)
      (setup_consumer broker (prefix ++ cfg.endpoint) (completed cfg).concurrency)

-- `Consume` of a transport with an endpoint prefix.
unfoldable pub consume :
    Broker → (prefix : Text) → ConsumerConfig → (Error ⊎ Subscription) × List Step
unfolding consume_with
consume broker prefix cfg =
    if is_empty cfg.endpoint
    then (inl (message (codes "amqp consume: endpoint is required")), [])
    else consume_with broker prefix cfg cfg.handler
