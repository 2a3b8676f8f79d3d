-- ===== src/Reconcile/Operations/Ensures.antt =====
-- What an ensure of sdk/reconcile/register.go returns and emits.
use yggdrasil_sdk_go.Base.{List, [], ◌∷◌, ◌≡◌, inr}
use yggdrasil_sdk_go.Base.Texts.{Text}
use yggdrasil_sdk_go.Events.{ensured}
use yggdrasil_sdk_go.Reconcile.Identify.{reflect_id}
use yggdrasil_sdk_go.Reconcile.Identify.Rungs.{first_nonempty, rungs_of, probe_rungs}
use yggdrasil_sdk_go.Reconcile.Emission.{ExecuteRequest, Effect, ensure_called, EmitContext, Clock}
use yggdrasil_sdk_go.Reconcile.Operations.{Reconciler, Codec, parsed_desired}
use yggdrasil_sdk_go.Reconcile.Operations.Announced.{Announces, calls_of}

module _ {D O F : Type 0} (codec : Codec D O F) (clock : Clock) (r : Reconciler D O)
    (ec : EmitContext) (env : ExecuteRequest) where
  -- The field `ID` or `Id` of a struct, or else the first rung of its JSON that is not empty.
  abbrev pub identity : O → Text → Text
  identity observed body = first_nonempty (
      reflect_id (codec.reflect observed)
      ∷ rungs_of (probe_rungs codec.floats ec.resource) (codec.parse_object body))

  -- The body is that of a state that `Ensure` has returned, and the event has its identity.
  abbrev pub EnsuredWith : List Effect → Text → Type 0
  EnsuredWith effects body =
      (desired : D) × (observed : O) × (parsed_desired codec clock r env.input ≡ inr desired)
      × (r.ensure desired ≡ inr observed)
      × (codec.marshal_observed observed ≡ inr body)
      × (calls_of effects ≡ ensure_called ∷ [])
      × Announces clock ec env ensured (identity observed body) body ec.emitter effects
