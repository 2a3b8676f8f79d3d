-- ===== src/Amqp/Consume/Channels.antt =====
-- The channels and the consumers that Consume of rpc/amqp/amqp.go leaves behind.
use yggdrasil_sdk_go.Base.{
  Bool, true, false, Option, none, some, List, [], ◌∷◌, ◌++◌, ◌≡◌, ◌⊎◌, inl, inr, refl, arith,
  count_of, Bool-cases,
}
use yggdrasil_sdk_go.Base.Int.{ℤ, pos, ◌≤ℤ◌}
use yggdrasil_sdk_go.Base.Texts.{Text, is_empty}
use yggdrasil_sdk_go.Rpc.{Error, Handler, ConsumerConfig}
use yggdrasil_sdk_go.Amqp.Consume.{
  Step, channel_opened, channel_closed, queue_declared, qos_set, consumer_started, Broker, started,
  limited, declared, opened, connected, setup_consumer, or_default, completed, Subscription,
  subscribed, consume_with, consume,
}

abbrev pub is_opened : Step → Bool
is_opened channel_opened = true
is_opened channel_closed = false
is_opened (queue_declared _) = false
is_opened (qos_set _) = false
is_opened (consumer_started _) = false

abbrev pub is_closed : Step → Bool
is_closed channel_opened = false
is_closed channel_closed = true
is_closed (queue_declared _) = false
is_closed (qos_set _) = false
is_closed (consumer_started _) = false

-- What a result says of the steps: every channel that was opened is closed, or one channel has a
-- consumer.
abbrev pub Leaves : (prefix : Text) → ConsumerConfig → (Error ⊎ Subscription) × List Step → Type 0
Leaves prefix cfg (inl err, steps) = count_of is_opened steps ≡ count_of is_closed steps
Leaves prefix cfg (inr sub, steps) =
    (sub.endpoint ≡ prefix ++ cfg.endpoint)
    × (steps
        ≡ channel_opened
          ∷ queue_declared (prefix ++ cfg.endpoint)
          ∷ qos_set sub.config.concurrency
          ∷ consumer_started (prefix ++ cfg.endpoint)
          ∷ [])
    × (pos 1 ≤ℤ sub.config.concurrency)
    × (pos 1 ≤ℤ sub.config.timeout)

or_default_positive : (d n : ℤ) → pos 1 ≤ℤ d → pos 1 ≤ℤ or_default d n
unfolding or_default
or_default_positive d n h = ground arith

-- The part of it that setupConsumer answers for.
abbrev SetsUp : Text → ℤ → Option Error × List Step → Type 0
SetsUp queue n (some err, steps) = count_of is_opened steps ≡ count_of is_closed steps
SetsUp queue n (none, steps) =
    steps ≡ channel_opened ∷ queue_declared queue ∷ qos_set n ∷ consumer_started queue ∷ []

setup_consumer-SetsUp :
    (broker : Broker) (queue : Text) (n : ℤ) → SetsUp queue n (setup_consumer broker queue n)
unfolding setup_consumer connected opened declared limited started
setup_consumer-SetsUp broker queue n =
    go broker.connection broker.open_channel (broker.declare_queue queue) (broker.set_qos n)
      (broker.start_consumer queue) refl refl refl refl
  where
    go :
        (c o d q s : Option Error)
        → broker.open_channel ≡ o
        → broker.declare_queue queue ≡ d
        → broker.set_qos n ≡ q
        → broker.start_consumer queue ≡ s
        → SetsUp queue n (connected broker queue n c)
    go (some err) o d q s eo ed eq es = refl
    go none (some err) d q s eo ed eq es = rw eo refl
    go none none (some err) q s eo ed eq es = rw (eo, ed) refl
    go none none none (some err) s eo ed eq es = rw (eo, ed, eq) refl
    go none none none none (some err) eo ed eq es = rw (eo, ed, eq, es) refl
    go none none none none none eo ed eq es = rw (eo, ed, eq, es) refl

subscribed-Leaves :
    (prefix : Text) (cfg : ConsumerConfig) (r : Option Error × List Step)
    → SetsUp (prefix ++ cfg.endpoint) (completed cfg).concurrency r
    → Leaves prefix cfg (subscribed (prefix ++ cfg.endpoint) (completed cfg) r)
unfolding subscribed completed
subscribed-Leaves prefix cfg (some err, steps) h = h
subscribed-Leaves prefix cfg (none, steps) h = (
  refl,
  h,
  or_default_positive (pos 1) cfg.concurrency (omega arith),
  or_default_positive (pos 30_000_000_000) cfg.timeout (omega arith),
)

consume_with-Leaves :
    (broker : Broker) (prefix : Text) (cfg : ConsumerConfig) (h : Option Handler)
    → Leaves prefix cfg (consume_with broker prefix cfg h)
unfolding consume_with
consume_with-Leaves broker prefix cfg none = refl
consume_with-Leaves broker prefix cfg (some h) =
    subscribed-Leaves prefix cfg _ (setup_consumer-SetsUp broker (prefix ++ cfg.endpoint) _)

-- A consume that fails, at whichever step, leaves no channel open. One that succeeds has opened one
-- channel and on it declared the queue, set the limit and started the consumer, in this order, for the
-- queue of the prefix and the endpoint; the limit and the timeout are at least 1.
pub consume-Leaves :
    (broker : Broker) (prefix : Text) (cfg : ConsumerConfig)
    → Leaves prefix cfg (consume broker prefix cfg)
unfolding consume
consume-Leaves broker prefix cfg = elim (Bool-cases (is_empty cfg.endpoint)) [
  | inl nameless ↦ rw nameless refl
  | inr named ↦ rw named (consume_with-Leaves broker prefix cfg cfg.handler)
]
