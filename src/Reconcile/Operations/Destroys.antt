-- ===== src/Reconcile/Operations/Destroys.antt =====
-- What a destroy of sdk/reconcile/register.go returns and emits.
use yggdrasil_sdk_go.Base.{
  ◌++◌, ap, Option, none, some, List, [], ◌∷◌, ◌≡◌, refl, ◌∙◌, inl, inr, ◌⊎◌,
}
use yggdrasil_sdk_go.Base.Texts.{Text, codes}
use yggdrasil_sdk_go.Rpc.{Error}
use yggdrasil_sdk_go.Events.{destroyed}
use yggdrasil_sdk_go.Reconcile.Emission.{
  ExecuteRequest, Effect, destroy_called, destroy_with_desired_called, EmitContext, Clock, event_of,
}
use yggdrasil_sdk_go.Reconcile.Operations.{
  Reconciler, Codec, parsed_desired, destroy_called_with, destroy_desired, destroy_by,
  destroy_parsed, parsed_ref, make_destroy_fn, destroy_ref, deletion,
}
use yggdrasil_sdk_go.Reconcile.Operations.Announced.{
  events_of, announced, events_of-emit, Announces, Announces-of_announced, calls_of, calls_of-emit,
  Emits,
}
use yggdrasil_sdk_go.Reconcile.Identify.Rungs.{
  first_nonempty, rungs_of, ref_rungs, infer_ref_from_input_lem,
}

module _ {D O F : Type 0} (codec : Codec D O F) (clock : Clock) (r : Reconciler D O)
    (ec : EmitContext) (env : ExecuteRequest) where
  -- `DestroyWithDesired` has returned no error where it is implemented, and `Destroy` elsewhere.
  abbrev pub Destroyed : Text → Option (Text → D → Option Error) → Type 0
  Destroyed ref none = r.destroy ref ≡ none
  Destroyed ref (some f) =
      (desired : D) × (parsed_desired codec clock r env.input ≡ inr desired)
      × (f ref desired ≡ none)

  abbrev pub call_of : Text → Option (Text → D → Option Error) → Effect
  call_of ref none = destroy_called ref
  call_of ref (some f) = destroy_with_desired_called ref

  -- The reference of an input whose field `ref` is given: that one, or else the first rung of the input
  -- that is not empty.
  abbrev pub ref_of : (input given : Text) → Text
  ref_of input (c ∷ cs) = c ∷ cs
  ref_of [] [] = []
  ref_of (i ∷ is) [] =
      first_nonempty (rungs_of (ref_rungs ec.resource) (codec.parse_object (i ∷ is)))

  -- What the field `ref` of an input is, where there is an input.
  abbrev pub GivenRef : Text → Text → Type 0
  GivenRef [] given = given ≡ []
  GivenRef (i ∷ is) given = codec.parse_ref (i ∷ is) ≡ inr given

  abbrev pub DestroyedWith : List Effect → Text → Type 0
  DestroyedWith effects body =
      (given : Text) × GivenRef env.input given
      × Destroyed (ref_of env.input given) r.destroy_with_desired
      × (body ≡ codes "{\"deleted\":true}")
      × (calls_of effects ≡ call_of (ref_of env.input given) r.destroy_with_desired ∷ [])
      × Announces clock ec env destroyed (ref_of env.input given)
          (codes "{\"ref\":"
            ++ (codec.quote (ref_of env.input given) ++ codes ",\"deleted\":true}"))
          ec.emitter effects

  destroy_ref_lem :
      (input given : Text) → destroy_ref codec clock r ec input given ≡ ref_of input given
  unfolding destroy_ref
  destroy_ref_lem [] [] = refl
  destroy_ref_lem (i ∷ is) [] = infer_ref_from_input_lem codec.parse_object (i ∷ is) ec.resource
  destroy_ref_lem [] (c ∷ cs) = refl
  destroy_ref_lem (i ∷ is) (c ∷ cs) = refl

  parsed_ref-GivenRef :
      (input given : Text) → parsed_ref codec clock r input ≡ inr given → GivenRef input given
  unfolding parsed_ref
  parsed_ref-GivenRef [] given e = cc
  parsed_ref-GivenRef (i ∷ is) given e = e

  -- What holds of a success, with its call and its event; no event of a failure.
  abbrev EmitsFor : Text → Type 0 → (Error ⊎ Text) × List Effect → Type 0
  EmitsFor ref P (inl err, effects) = events_of effects ≡ []
  EmitsFor ref P (inr body, effects) =
      P
      × (body ≡ codes "{\"deleted\":true}")
      × (calls_of effects ≡ call_of ref r.destroy_with_desired ∷ [])
      × (events_of effects
          ≡ announced ec.emitter (event_of clock ec env destroyed ref (deletion codec clock r ref)))

  EmitsFor-map :
      (ref : Text) {P Q : Type 0} (res : (Error ⊎ Text) × List Effect)
      → (P → Q)
      → EmitsFor ref P res
      → EmitsFor ref Q res
  EmitsFor-map ref (inl err, effects) f h = h
  EmitsFor-map ref (inr body, effects) f (p, b, c, e) = (f p, b, c, e)

  destroy_called_with_emits :
      (ref : Text) (call : Effect) (e : Option Error)
      → ((more : List Effect) → events_of (call ∷ more) ≡ events_of more)
      → ((more : List Effect)
          → calls_of (call ∷ more) ≡ call_of ref r.destroy_with_desired ∷ calls_of more)
      → EmitsFor ref (e ≡ none) (destroy_called_with codec clock r ec env ref call e)
  unfolding destroy_called_with
  destroy_called_with_emits ref call none silent counted = (
    refl,
    refl,
    counted _
        ∙ ap (λ l. call_of ref r.destroy_with_desired ∷ l)
            (calls_of-emit clock ec env destroyed ref _),
    silent _ ∙ events_of-emit clock ec env destroyed ref _,
  )
  destroy_called_with_emits ref call (some err) silent counted =
      silent [] ∙ (unfold events_of in refl)

  destroy_desired_emits :
      (ref : Text) (f : Text → D → Option Error) (d : Error ⊎ D)
      → r.destroy_with_desired ≡ some f
      → parsed_desired codec clock r env.input ≡ d
      → EmitsFor ref (Destroyed ref (some f)) (destroy_desired codec clock r ec env ref f d)
  unfolding destroy_desired events_of calls_of
  destroy_desired_emits ref f (inl err) has p = refl
  destroy_desired_emits ref f (inr desired) has p =
      EmitsFor-map ref
        (destroy_called_with codec clock r ec env ref (destroy_with_desired_called ref)
          (f ref desired))
        (λ e. (desired, p, e))
        (destroy_called_with_emits ref (destroy_with_desired_called ref) (f ref desired)
          (λ more. refl) (λ more. rw has refl))

  destroy_by_emits :
      (ref : Text) (o : Option (Text → D → Option Error))
      → r.destroy_with_desired ≡ o
      → EmitsFor ref (Destroyed ref o) (destroy_by codec clock r ec env ref o)
  unfolding destroy_by events_of calls_of
  destroy_by_emits ref none has =
      destroy_called_with_emits ref (destroy_called ref) (r.destroy ref) (λ more. refl)
        (λ more. rw has refl)
  destroy_by_emits ref (some f) has =
      destroy_desired_emits ref f (parsed_desired codec clock r env.input) has refl

  Emits_of_EmitsFor :
      (given : Text) (res : (Error ⊎ Text) × List Effect)
      → parsed_ref codec clock r env.input ≡ inr given
      → EmitsFor
          (ref_of env.input given)
          (Destroyed (ref_of env.input given) r.destroy_with_desired)
          res
      → Emits res (DestroyedWith res.1)
  unfolding deletion
  Emits_of_EmitsFor given (inl err, effects) p h = h
  Emits_of_EmitsFor given (inr body, effects) p (done, b, c, e) = (
    given,
    parsed_ref-GivenRef env.input given p,
    done,
    b,
    c,
    Announces-of_announced clock ec env destroyed (ref_of env.input given)
        (deletion codec clock r (ref_of env.input given)) ec.emitter effects e,
  )

  destroy_parsed_emits :
      (p : Error ⊎ Text)
      → parsed_ref codec clock r env.input ≡ p
      → Emits
          (destroy_parsed codec clock r ec env p)
          (DestroyedWith (destroy_parsed codec clock r ec env p).1)
  unfolding destroy_parsed events_of
  destroy_parsed_emits (inl err) e = refl
  destroy_parsed_emits (inr given) e =
      let ref = ref_of env.input given in
      rw (destroy_ref_lem env.input given) (
        Emits_of_EmitsFor given (destroy_by codec clock r ec env ref r.destroy_with_desired) e
          (destroy_by_emits ref r.destroy_with_desired refl))

-- A destroy that fails, in parsing or in the reconciler, emits nothing. One that succeeds has called
-- the reconciler once, with no error: `DestroyWithDesired`, with the parsed input, where it implements
-- that, and `Destroy` elsewhere. The reference is the input's `ref` if that is not empty, and else the
-- first text that is not empty of its `<resource>_id`, `id`, `owner/repo` and `<resource>`; with an
-- emitter exactly one event is emitted, `destroyed`, with that reference.
pub make_destroy_fn_emits :
    {D O F : Type 0} (codec : Codec D O F) (clock : Clock) (r : Reconciler D O) (ec : EmitContext)
    (env : ExecuteRequest)
    → Emits
        (make_destroy_fn codec clock r ec env)
        (DestroyedWith codec clock r ec env (make_destroy_fn codec clock r ec env).1)
unfolding make_destroy_fn
make_destroy_fn_emits codec clock r ec env =
    destroy_parsed_emits codec clock r ec env (parsed_ref codec clock r env.input) refl
