-- ===== src/Adapter/Listen.antt =====
-- adapter/transport.go: ListenHTTP, ListenAMQP and the dial that retries. `dial` is the result of each
-- attempt, counted from 1, and `canceled` the error of the context where the wait behind an attempt
-- ends by it. A connection is the broker's answers while an endpoint is set up.
pub mod Budget
pub mod Dialing
pub mod Serving
use yggdrasil_sdk_go.Base.{
  ℕ, zero, suc, ◌+◌, Bool, true, false, Option, none, some, List, [], ◌∷◌, ◌++◌, ◌⊎◌, inl, inr,
  if◌then◌else◌,
}
use yggdrasil_sdk_go.Base.Texts.{Text, codes, is_empty, show_nat}
use yggdrasil_sdk_go.Rpc.{Error, wrapped, ConsumerConfig}
use yggdrasil_sdk_go.Http.Transport as Http
use yggdrasil_sdk_go.Amqp.Consume.{Broker, Subscription, consume}
use yggdrasil_sdk_go.Amqp.Connection.{next_backoff}
use yggdrasil_sdk_go.Adapter.{Config, Wiring, Transport, Adapter}

-- What the dial loop does: a dial, or a wait of some seconds.
pub data DialStep : Type 0 where
  dialed : DialStep
  slept : ℕ → DialStep

abbrev pub Connection : Type 0
Connection = Text → Broker

abbrev pub max_attempts : ℕ
max_attempts = 30

-- The error that ends the loop, with the number of attempts.
pub dial_failed : Text → Text → ℕ → Error → Error
dial_failed quoted_url how attempts err =
    wrapped
      (codes "adapter: dial AMQP "
        ++ (quoted_url
            ++ (codes " "
                ++ (how ++ (codes " after " ++ (show_nat attempts ++ codes " attempts: "))))))
      err

module _ (quote : Text → Text) (url : Text) (dial : ℕ → Error ⊎ Connection)
    (canceled : ℕ → Option Error) where
  -- The loop from an attempt on, with a number of attempts left behind it.
  dial_from : ℕ → ℕ → ℕ → (Error ⊎ Connection) × List DialStep
  unfolding dial_failed
  dial_from zero attempt backoff = elim (dial attempt) [
    | inr conn ↦ (inr conn, dialed ∷ [])
    | inl err ↦ (inl (dial_failed (quote url) (codes "failed") max_attempts err), dialed ∷ [])
  ]
  dial_from (suc left) attempt backoff = elim (dial attempt) [
    | inr conn ↦ (inr conn, dialed ∷ [])
    | inl _ ↦ elim (canceled attempt) [
      | some err ↦ (inl (dial_failed (quote url) (codes "cancelled") attempt err), dialed ∷ [])
      | none ↦
          let (result, steps) = dial_from left (suc attempt) (next_backoff backoff) in
          (result, dialed ∷ slept backoff ∷ steps)
    ]
  ]

  -- `dialAMQPWithRetry`
  unfoldable pub dial_amqp_with_retry : (Error ⊎ Connection) × List DialStep
  unfolding dial_from
  dial_amqp_with_retry = dial_from 29 1 1

-- The namespace of the adapter's queues.
owned_by : Text → Text
owned_by owner = if is_empty owner then [] else codes "yggdrasil.adapter." ++ (owner ++ codes ".")

unfoldable pub queue_prefix : Config → Text
unfolding owned_by
queue_prefix cfg =
    owned_by (if is_empty cfg.integration_type then cfg.provider else cfg.integration_type)

error_of : Error ⊎ Subscription → Option Error
error_of (inl err) = some err
error_of (inr _) = none

-- The transport over AMQP, as `Run` uses it.
unfoldable pub amqp_transport : Connection → Text → Transport
unfolding error_of
amqp_transport conn prefix = record {
  consume = λ cfg. error_of (consume (conn cfg.endpoint) prefix cfg).0;
}

connected : Config → Error ⊎ Connection → Wiring → Option Error × Wiring
unfolding amqp_transport
connected cfg (inl err) w = (some err, w)
connected cfg (inr conn) w =
    (none, record { transport = some (amqp_transport conn (queue_prefix cfg)); after_run = true })

-- `ListenAMQP`
unfoldable pub listen_amqp :
    (Text → Text) → Text → (ℕ → Error ⊎ Connection) → (ℕ → Option Error) → Adapter → Adapter
unfolding connected
listen_amqp quote url dial canceled a = record a {
  before_run = some (connected a.config (dial_amqp_with_retry quote url dial canceled).0);
}

refusal : Http.Consumed → Option Error
refusal (Http.refused err) = some err
refusal Http.panicked = none
refusal (Http.subscribed i) = none

-- The transport over HTTP, as `Run` uses it, on a mux that takes every pattern.
unfoldable pub http_transport : Transport
unfolding refusal
http_transport = record {
  consume = λ cfg. refusal (Http.consume (λ ps p. true) cfg (Http.new true [])).0;
}

bound : (Text → Text) → Text → Option Error → Wiring → Option Error × Wiring
bound quote addr none w = (none, w)
bound quote addr (some err) w =
    (some (wrapped (codes "adapter: http listen on " ++ (quote addr ++ codes ": ")) err), w)

-- `ListenHTTP`; `failure` is what `ListenAndServe` fails with inside of 25 ms, if it does.
unfoldable pub listen_http : (Text → Text) → Text → Option Error → Adapter → Adapter
unfolding bound
listen_http quote addr failure a = record a {
  wiring = record { transport = some http_transport; after_run = true };
  before_run = some (bound quote addr failure);
}
