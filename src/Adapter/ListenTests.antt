-- ===== src/Adapter/ListenTests.antt =====
-- The theorems on adapter/transport.go at work.
use yggdrasil_sdk_go.Base.{ℕ, ◌==◌, Option, none, ◌≡◌, ◌↔◌, ◌⊎◌, inl, inr, refl, All, if◌then◌else◌}
use yggdrasil_sdk_go.Base.Texts.{Text, codes}
use yggdrasil_sdk_go.Rpc.{Error, message}
use yggdrasil_sdk_go.Adapter.{Adapter, run}
use yggdrasil_sdk_go.Adapter.Tests.{as_is, config, open_transport, ready}
use yggdrasil_sdk_go.Adapter.Listen.{
  Connection, dial_failed, dial_amqp_with_retry, listen_amqp, queue_prefix,
}
use yggdrasil_sdk_go.Adapter.Listen.Budget.{dials, seconds, dial_amqp_with_retry_exhausted}
use yggdrasil_sdk_go.Adapter.Listen.Serving.{IsServed, run-listen_amqp}

abbrev willing : Connection
willing queue = record {
  connection = none;
  open_channel = none;
  declare_queue = λ q. none;
  set_qos = λ n. none;
  start_consumer = λ q. none;
  quote = λ t. t;
}

abbrev refused : Error
refused = message (codes "connection refused")

-- The third attempt gets through.
abbrev third : ℕ → Error ⊎ Connection
third n = if n == 3 then inr willing else inl refused

abbrev not_canceled : ℕ → Option Error
not_canceled n = none

abbrev url : Text
url = codes "amqp://mq"

dialed_third : (dial_amqp_with_retry as_is url third not_canceled).0 ≡ inr willing
unfolding dial_amqp_with_retry
dialed_third = refl

dial_amqp_with_retry_exhausted_example :
    (dials (dial_amqp_with_retry as_is url (λ n. inl refused) not_canceled).1 ≡ 30)
    × (seconds (dial_amqp_with_retry as_is url (λ n. inl refused) not_canceled).1 ≡ 751)
    × ((dial_amqp_with_retry as_is url (λ n. inl refused) not_canceled).0
        ≡ inl (dial_failed url (codes "failed") 30 refused))
dial_amqp_with_retry_exhausted_example =
    dial_amqp_with_retry_exhausted as_is url (λ n. inl refused) not_canceled (λ n. refused)
      (λ n. refl) (λ n. refl)

abbrev echoing : Adapter
echoing = ready open_transport

abbrev no_failure : Option Error
no_failure = none

scm_queues : queue_prefix config ≡ codes "yggdrasil.adapter.scm."
unfolding queue_prefix
scm_queues = refl

run-listen_amqp_example :
    ((run as_is (listen_amqp as_is url third not_canceled echoing)).0 ≡ none) ↔ (
      (conn : Connection) × ((dial_amqp_with_retry as_is url third not_canceled).0 ≡ inr conn)
      × All (λ h. IsServed conn echoing.config h.0 h.1) echoing.handlers)
run-listen_amqp_example = run-listen_amqp as_is url third not_canceled echoing (λ e. cc)
