-- ===== src/Rpc/Invariant.antt =====
-- The rule for invariants of a transport: what the three functions of a delivery keep, every program
-- keeps.
use yggdrasil_sdk_go.Base.{Bool}
use yggdrasil_sdk_go.Base.Texts.{Text}
use yggdrasil_sdk_go.Rpc.Handlers.{Program, done, ack, nack, reply}
use yggdrasil_sdk_go.Rpc.Deliveries.{Delivery, call_ack, call_nack, call_reply, run}

pub record Keeps {W : Type 0} (P : W → Type 0) (d : Delivery W) : Type 0 where
  pub at_ack : (w : W) → P w → P (call_ack d w).1
  pub at_nack : (requeue : Bool) (w : W) → P w → P (call_nack d requeue w).1
  pub at_reply : (body content_type : Text) (w : W) → P w → P (call_reply d body content_type w).1

module _ {W A : Type 0} {P : W → Type 0} {d : Delivery W} (keeps : Keeps P d) where
  pub run-Keeps : (p : Program A) (w : W) → P w → P (run d p w).1
  unfolding run
  run-Keeps (done a) w h = h
  run-Keeps (ack k) w h = run-Keeps (k (call_ack d w).0) (call_ack d w).1 (keeps.at_ack w h)
  run-Keeps (nack requeue k) w h =
      run-Keeps (k (call_nack d requeue w).0) (call_nack d requeue w).1 (keeps.at_nack requeue w h)
  run-Keeps (reply body content_type k) w h =
      run-Keeps (k (call_reply d body content_type w).0) (call_reply d body content_type w).1
        (keeps.at_reply body content_type w h)
