-- ===== src/Rpc/Deliveries.antt =====
-- `rpc.Delivery` over the state `W` of a transport, its three methods, and the run of a program
-- against it.
use yggdrasil_sdk_go.Base.{Bool, Option, none, some, if◌then◌else◌}
use yggdrasil_sdk_go.Base.Texts.{Text, codes, is_empty}
use yggdrasil_sdk_go.Rpc.Errors.{Error, message}
use yggdrasil_sdk_go.Rpc.Handlers.{Program, done, ack, nack, reply}

-- The function fields may be nil.
pub record Delivery (W : Type 0) : Type 0 where
  pub ack_fn : Option (W → Option Error × W)
  pub nack_fn : Option (Bool → W → Option Error × W)
  pub reply_fn : Option (Text → Text → W → Option Error × W)

module _ {W : Type 0} where
  abbrev pub call_ack : Delivery W → W → Option Error × W
  call_ack d w = elim d.ack_fn [ none ↦ (none, w) | some f ↦ f w ]

  abbrev pub call_nack : Delivery W → Bool → W → Option Error × W
  call_nack d requeue w = elim d.nack_fn [ none ↦ (none, w) | some f ↦ f requeue w ]

  abbrev pub call_reply : Delivery W → Text → Text → W → Option Error × W
  call_reply d body content_type w = elim d.reply_fn [
    | none ↦ (
      some (message (codes "rpc: delivery has no reply function (transport did not populate it)")),
      w,
    )
    | some f ↦ f body (if is_empty content_type then codes "application/json" else content_type) w
  ]

  -- Runs a program; the result is its value and the transport's state behind it.
  unfoldable pub run : {A : Type 0} → Delivery W → Program A → W → A × W
  run d (done a) w = (a, w)
  run d (ack k) w = let (r, w') = call_ack d w in run d (k r) w'
  run d (nack requeue k) w = let (r, w') = call_nack d requeue w in run d (k r) w'
  run d (reply body content_type k) w =
      let (r, w') = call_reply d body content_type w in run d (k r) w'
