-- ===== src/Reconcile/Operations/Announced.antt =====
-- The events that an operation of sdk/reconcile/register.go emits.
use yggdrasil_sdk_go.Base.{
  ◌++◌, if◌then◌else◌, Option, none, some, List, [], ◌∷◌, ◌≡◌, refl, inl, inr, ◌⊎◌, Option-cases,
}
use yggdrasil_sdk_go.Base.Texts.{Text, is_empty}
use yggdrasil_sdk_go.Rpc.{Error}
use yggdrasil_sdk_go.Events.{Verb, verb_text, MutationEvent, build_event_type}
use yggdrasil_sdk_go.Reconcile.Emission.{
  ExecuteRequest, Effect, ensure_called, observe_called, destroy_called,
  destroy_with_desired_called, emitted, emit_warned, legacy_warned, effective_instance_id,
  synthesize_idempotency_key, EmitContext, Clock, event_of, emit, emit_with,
}

-- The events among the effects.
unfoldable pub events_of : List Effect → List MutationEvent
events_of [] = []
events_of (emitted ev ∷ more) = ev ∷ events_of more
events_of (_ ∷ more) = events_of more

-- The event, if there is an emitter to take it.
abbrev pub announced : Option (MutationEvent → Option Error) → MutationEvent → List MutationEvent
announced none ev = []
announced (some _) ev = ev ∷ []

events_of-emit_with :
    (emitter : Option (MutationEvent → Option Error)) (ev : MutationEvent)
    → events_of (emit_with emitter ev) ≡ announced emitter ev
unfolding events_of emit_with
events_of-emit_with none ev = refl
events_of-emit_with (some f) ev = elim (Option-cases (f ev)) [
  | inl fine ↦ rw fine
  | inr (err, bad) ↦ rw bad
]

pub events_of-emit :
    (clock : Clock) (ec : EmitContext) (env : ExecuteRequest) (verb : Verb) (id observed : Text)
    → events_of (emit clock ec env verb id observed)
      ≡ announced ec.emitter (event_of clock ec env verb id observed)
unfolding emit
events_of-emit clock ec env verb id observed =
    events_of-emit_with ec.emitter (event_of clock ec env verb id observed)

-- A text, or another where it is empty.
abbrev pub IsOr : Text → Text → Text → Type 0
IsOr [] fallback t = t ≡ fallback
IsOr (c ∷ cs) fallback t = t ≡ c ∷ cs

-- The event of a change: its type is `<provider>.<resource>.<verb>`, and the request's instance and
-- idempotency key go before those of the context and the synthesized one.
pub record Tells (clock : Clock) (ec : EmitContext) (env : ExecuteRequest) (verb : Verb)
    (id observed : Text) (ev : MutationEvent) : Type 0 where
  pub typed : ev.event_type ≡ ec.provider ++ (b'.' ∷ (ec.resource ++ (b'.' ∷ verb_text verb)))
  pub provided : ev.provider ≡ ec.provider
  pub of_resource : ev.resource ≡ ec.resource
  pub of_verb : ev.verb ≡ verb
  pub identified : ev.resource_id ≡ id
  pub at_instance : IsOr env.instance_id ec.instance_id ev.instance_id
  pub keyed :
      IsOr env.idempotency
        (synthesize_idempotency_key clock ec.provider ec.resource verb id)
        ev.idempotency
  pub seen : ev.observed ≡ observed

-- With an emitter there is one event, which tells of the change, and without one there is none.
abbrev pub Announces :
    Clock
    → EmitContext
    → ExecuteRequest
    → Verb
    → Text
    → Text
    → Option (MutationEvent → Option Error)
    → List Effect
    → Type 0
Announces clock ec env verb id observed none effects = events_of effects ≡ []
Announces clock ec env verb id observed (some f) effects =
    (ev : MutationEvent) × (events_of effects ≡ ev ∷ []) × Tells clock ec env verb id observed ev

IsOr_lem : (t fallback : Text) → IsOr t fallback (if is_empty t then fallback else t)
IsOr_lem [] fallback = refl
IsOr_lem (c ∷ cs) fallback = refl

event_of-Tells :
    (clock : Clock) (ec : EmitContext) (env : ExecuteRequest) (verb : Verb) (id observed : Text)
    → Tells clock ec env verb id observed (event_of clock ec env verb id observed)
unfolding event_of build_event_type effective_instance_id
event_of-Tells clock ec env verb id observed = record {
  typed = refl;
  provided = refl;
  of_resource = refl;
  of_verb = refl;
  identified = refl;
  at_instance = IsOr_lem env.instance_id ec.instance_id;
  keyed =
      IsOr_lem env.idempotency (synthesize_idempotency_key clock ec.provider ec.resource verb id);
  seen = refl;
}

pub Announces-of_announced :
    (clock : Clock) (ec : EmitContext) (env : ExecuteRequest) (verb : Verb) (id observed : Text)
    (emitter : Option (MutationEvent → Option Error)) (effects : List Effect)
    → events_of effects ≡ announced emitter (event_of clock ec env verb id observed)
    → Announces clock ec env verb id observed emitter effects
Announces-of_announced clock ec env verb id observed none effects e = e
Announces-of_announced clock ec env verb id observed (some f) effects e =
    (event_of clock ec env verb id observed, e, event_of-Tells clock ec env verb id observed)

-- The calls of the reconciler among the effects.
unfoldable pub calls_of : List Effect → List Effect
calls_of [] = []
calls_of (ensure_called ∷ more) = ensure_called ∷ calls_of more
calls_of (observe_called ∷ more) = observe_called ∷ calls_of more
calls_of (destroy_called ref ∷ more) = destroy_called ref ∷ calls_of more
calls_of (destroy_with_desired_called ref ∷ more) = destroy_with_desired_called ref ∷ calls_of more
calls_of (emitted ev ∷ more) = calls_of more
calls_of (emit_warned t err ∷ more) = calls_of more
calls_of (legacy_warned l c ∷ more) = calls_of more

calls_of-emit_with :
    (emitter : Option (MutationEvent → Option Error)) (ev : MutationEvent)
    → calls_of (emit_with emitter ev) ≡ []
unfolding calls_of emit_with
calls_of-emit_with none ev = refl
calls_of-emit_with (some f) ev = elim (Option-cases (f ev)) [
  | inl fine ↦ rw fine
  | inr (err, bad) ↦ rw bad
]

pub calls_of-emit :
    (clock : Clock) (ec : EmitContext) (env : ExecuteRequest) (verb : Verb) (id observed : Text)
    → calls_of (emit clock ec env verb id observed) ≡ []
unfolding emit
calls_of-emit clock ec env verb id observed =
    calls_of-emit_with ec.emitter (event_of clock ec env verb id observed)

-- What a failure and a success have emitted; a success emits what the body announces.
abbrev pub Emits : (Error ⊎ Text) × List Effect → (Text → Type 0) → Type 0
Emits (inl err, effects) P = events_of effects ≡ []
Emits (inr body, effects) P = P body
