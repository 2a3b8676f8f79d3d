-- ===== src/Reconcile/Operations.antt =====
-- sdk/reconcile/register.go: the handlers that `RegisterReconciler` makes of a reconciler. JSON, the
-- reflection of an observed state and Go's `%q` stand in a codec.
pub mod Announced
pub mod Ensures
pub mod Destroys
use yggdrasil_sdk_go.Base.{
  Bool, Option, none, some, List, [], ◌∷◌, ◌++◌, ◌⊎◌, inl, inr, if◌then◌else◌,
}
use yggdrasil_sdk_go.Base.Texts.{Text, codes, is_empty}
use yggdrasil_sdk_go.Base.Dict.{Dict}
use yggdrasil_sdk_go.Rpc.{Error, message}
use yggdrasil_sdk_go.Events.{Verb, ensured, destroyed}
use yggdrasil_sdk_go.Reconcile.Identify.{
  Any, Floats, GoValue, infer_ref_from_input, infer_resource_id,
}
use yggdrasil_sdk_go.Reconcile.Emission.{
  ExecuteRequest, Effect, ensure_called, observe_called, destroy_called,
  destroy_with_desired_called, EmitContext, Clock, emit,
}

-- `Reconciler[D, O]`, and `DestroyWithDesired[D]` where it is implemented. A filter is the text of
-- its JSON, empty where there is none.
pub record Reconciler (D O : Type 0) : Type 0 where
  pub ensure : D → Error ⊎ O
  pub observe : Text → Error ⊎ (List O × Text)
  pub destroy : Text → Option Error
  pub destroy_with_desired : Option (Text → D → Option Error)

-- The errors of parsing are the codec's.
pub record Codec (D O F : Type 0) : Type 0 where
  pub zero_desired : D
  pub parse_desired : Text → Error ⊎ D
  pub parse_ref : Text → Error ⊎ Text
  pub filter_error : Text → Option Error
  pub parse_object : Text → Option (Dict (Any F))
  pub marshal_observed : O → Error ⊎ Text
  pub marshal_page : List O → Text → Error ⊎ Text
  pub reflect : O → GoValue
  pub quote : Text → Text
  pub floats : Floats F

-- An operation of the dispatch table: its result and what it did.
abbrev pub Operation : Type 0
Operation = ExecuteRequest → (Error ⊎ Text) × List Effect

module _ {D O F : Type 0} (codec : Codec D O F) (clock : Clock) (r : Reconciler D O) where
  -- `var desired D`, and the input parsed into it if there is any
  unfoldable pub parsed_desired : Text → Error ⊎ D
  parsed_desired input =
      if is_empty input then inr codec.zero_desired else codec.parse_desired input

  ensure_marshaled : EmitContext → ExecuteRequest → O → Error ⊎ Text → (Error ⊎ Text) × List Effect
  ensure_marshaled ec env observed (inl err) = (inl err, ensure_called ∷ [])
  ensure_marshaled ec env observed (inr body) = (
    inr body,
    ensure_called
        ∷ emit clock ec env ensured
            (infer_resource_id codec.floats codec.parse_object (codec.reflect observed) body
              ec.resource)
            body,
  )

  ensure_observed : EmitContext → ExecuteRequest → Error ⊎ O → (Error ⊎ Text) × List Effect
  unfolding ensure_marshaled
  ensure_observed ec env (inl err) = (inl err, ensure_called ∷ [])
  ensure_observed ec env (inr observed) =
      ensure_marshaled ec env observed (codec.marshal_observed observed)

  ensure_parsed : EmitContext → ExecuteRequest → Error ⊎ D → (Error ⊎ Text) × List Effect
  unfolding ensure_observed
  ensure_parsed ec env (inl err) = (inl err, [])
  ensure_parsed ec env (inr desired) = ensure_observed ec env (r.ensure desired)

  unfoldable pub make_ensure_fn : EmitContext → Operation
  unfolding parsed_desired ensure_parsed
  make_ensure_fn ec env = ensure_parsed ec env (parsed_desired env.input)

  observe_page : Error ⊎ (List O × Text) → Error ⊎ Text
  observe_page (inl err) = inl err
  observe_page (inr (items, cursor)) = codec.marshal_page items cursor

  observe_filtered : Text → Option Error → (Error ⊎ Text) × List Effect
  unfolding observe_page
  observe_filtered input (some err) = (inl err, [])
  observe_filtered input none = (observe_page (r.observe input), observe_called ∷ [])

  unfoldable pub make_observe_fn : Operation
  unfolding observe_filtered
  make_observe_fn env =
      observe_filtered env.input (if is_empty env.input then none else codec.filter_error env.input)

  -- `{"ref":%q,"deleted":true}`
  unfoldable pub deletion : Text → Text
  deletion ref = codes "{\"ref\":" ++ (codec.quote ref ++ codes ",\"deleted\":true}")

  destroy_called_with :
      EmitContext → ExecuteRequest → Text → Effect → Option Error → (Error ⊎ Text) × List Effect
  unfolding deletion
  destroy_called_with ec env ref call (some err) = (inl err, call ∷ [])
  destroy_called_with ec env ref call none =
      (inr (codes "{\"deleted\":true}"), call ∷ emit clock ec env destroyed ref (deletion ref))

  destroy_desired :
      EmitContext
      → ExecuteRequest
      → Text
      → (Text → D → Option Error)
      → Error ⊎ D
      → (Error ⊎ Text) × List Effect
  unfolding destroy_called_with
  destroy_desired ec env ref f (inl err) = (inl err, [])
  destroy_desired ec env ref f (inr desired) =
      destroy_called_with ec env ref (destroy_with_desired_called ref) (f ref desired)

  destroy_by :
      EmitContext
      → ExecuteRequest
      → Text
      → Option (Text → D → Option Error)
      → (Error ⊎ Text) × List Effect
  unfolding destroy_called_with destroy_desired parsed_desired
  destroy_by ec env ref none = destroy_called_with ec env ref (destroy_called ref) (r.destroy ref)
  destroy_by ec env ref (some f) = destroy_desired ec env ref f (parsed_desired env.input)

  -- The reference, looked for in the whole input where `ref` is missing.
  unfoldable pub destroy_ref : EmitContext → Text → Text → Text
  destroy_ref ec input ref =
      if is_empty ref
      then (if is_empty input
          then []
          else infer_ref_from_input codec.parse_object input ec.resource)
      else ref

  destroy_parsed : EmitContext → ExecuteRequest → Error ⊎ Text → (Error ⊎ Text) × List Effect
  unfolding destroy_by destroy_ref
  destroy_parsed ec env (inl err) = (inl err, [])
  destroy_parsed ec env (inr ref) =
      destroy_by ec env (destroy_ref ec env.input ref) r.destroy_with_desired

  unfoldable pub parsed_ref : Text → Error ⊎ Text
  parsed_ref input = if is_empty input then inr [] else codec.parse_ref input

  unfoldable pub make_destroy_fn : EmitContext → Operation
  unfolding parsed_ref destroy_parsed
  make_destroy_fn ec env = destroy_parsed ec env (parsed_ref env.input)
