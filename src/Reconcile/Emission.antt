-- ===== src/Reconcile/Emission.antt =====
-- sdk/reconcile/register.go: the emission of mutation events. `digest` is SHA-256, `now` the time in
-- nanoseconds, and the emitter is what `Emit` returns for each event.
pub mod Laws
use yggdrasil_sdk_go.Base.{Bool, Option, none, some, List, [], ◌∷◌, ◌++◌, take, if◌then◌else◌}
use yggdrasil_sdk_go.Base.Int.{ℤ}
use yggdrasil_sdk_go.Base.Texts.{Text, codes, is_empty, show_int, hex_encode}
use yggdrasil_sdk_go.Rpc.{Error}
use yggdrasil_sdk_go.Events.{Verb, verb_text, MutationEvent, build_event_type}

-- `executeRequest`
pub record ExecuteRequest : Type 0 where
  pub operation : Text
  pub capability : Text
  pub idempotency : Text
  pub instance_id : Text
  pub input : Text

-- What a call does besides its result: it calls a method of the reconciler, emits an event, or logs.
pub data Effect : Type 0 where
  ensure_called observe_called : Effect
  -- with the reference, through `Destroy` or `DestroyWithDesired`
  destroy_called : Text → Effect
  destroy_with_desired_called : Text → Effect
  emitted : MutationEvent → Effect
  emit_warned : Text → Error → Effect
  legacy_warned : (legacy canonical : Text) → Effect

-- `emitContext`, without its log.
pub record EmitContext : Type 0 where
  pub emitter : Option (MutationEvent → Option Error)
  pub provider : Text
  pub resource : Text
  pub instance_id : Text

pub record Clock : Type 0 where
  pub digest : Text → Text
  pub now : ℤ

abbrev dotted : Text → Text → Text
dotted a b = a ++ (b'.' ∷ b)

abbrev barred : Text → Text → Text
barred a b = a ++ (b'|' ∷ b)

unfoldable pub synthesize_idempotency_key : Clock → Text → Text → Verb → Text → Text
synthesize_idempotency_key clock provider resource verb resource_id =
    let hashed =
      barred provider
        (barred resource (barred (verb_text verb) (barred resource_id (show_int clock.now)))) in
    dotted provider (
      dotted resource
        (dotted (verb_text verb) (dotted resource_id (hex_encode (take 4 (clock.digest hashed))))))

unfoldable pub effective_instance_id : EmitContext → ExecuteRequest → Text
effective_instance_id ec env = if is_empty env.instance_id then ec.instance_id else env.instance_id

unfoldable pub event_of :
    Clock → EmitContext → ExecuteRequest → Verb → (resource_id observed : Text) → MutationEvent
event_of clock ec env verb resource_id observed = record {
  event_type = build_event_type ec.provider ec.resource verb;
  provider = ec.provider;
  resource = ec.resource;
  verb = verb;
  resource_id = resource_id;
  instance_id = effective_instance_id ec env;
  idempotency =
      if is_empty env.idempotency
      then synthesize_idempotency_key clock ec.provider ec.resource verb resource_id
      else env.idempotency;
  observed = observed;
}

unfoldable pub warn_failure : Text → Option Error → List Effect
warn_failure event_type none = []
warn_failure event_type (some err) = emit_warned event_type err ∷ []

unfoldable pub emit_with : Option (MutationEvent → Option Error) → MutationEvent → List Effect
unfolding warn_failure
emit_with none ev = []
emit_with (some emitter) ev = emitted ev ∷ warn_failure ev.event_type (emitter ev)

unfoldable pub emit :
    Clock → EmitContext → ExecuteRequest → Verb → (resource_id observed : Text) → List Effect
unfolding emit_with event_of
emit clock ec env verb resource_id observed =
    emit_with ec.emitter (event_of clock ec env verb resource_id observed)
