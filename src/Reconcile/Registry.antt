-- ===== src/Reconcile/Registry.antt =====
-- sdk/reconcile/register.go, options.go and dispatch.go: the registration of reconcilers and the
-- dispatch of requests, for one adapter. Go's tables are keyed by the adapter, so that adapters share
-- nothing. `unicode` is the case table of `strings.ToLower`, `quote` is `%q`.
pub mod Lookup
pub mod Dispatch
pub mod Warnings
use yggdrasil_sdk_go.Base.{
  Bool, true, false, Option, none, some, List, [], ◌∷◌, ◌++◌, ◌||◌, ◌⊎◌, inl, inr, if◌then◌else◌,
}
use yggdrasil_sdk_go.Base.Texts.{Text, codes, is_empty, trim_space, to_lower}
use yggdrasil_sdk_go.Base.Dict.{Dict, get, put}
use yggdrasil_sdk_go.Rpc.{Error, message}
use yggdrasil_sdk_go.Adapter.{capability_key}
use yggdrasil_sdk_go.Events.{MutationEvent}
use yggdrasil_sdk_go.Reconcile.Legacy.{pick_canonical_for_legacy}
use yggdrasil_sdk_go.Reconcile.Emission.{ExecuteRequest, Effect, legacy_warned, EmitContext, Clock}
use yggdrasil_sdk_go.Reconcile.Operations.{
  Reconciler, Codec, Operation, make_ensure_fn, make_observe_fn, make_destroy_fn,
}

-- `options`, without its log.
pub record Options : Type 0 where
  pub legacy_names : List Text
  pub emitter : Option (MutationEvent → Option Error)
  pub provider : Text
  pub instance_id : Text

abbrev pub no_options : Options
no_options = record { legacy_names = []; emitter = none; provider = []; instance_id = [] }

unfoldable pub with_legacy_names : List Text → Options → Options
with_legacy_names names o = record o { legacy_names = o.legacy_names ++ names }

unfoldable pub with_emitter : Option (MutationEvent → Option Error) → Options → Options
with_emitter em o = record o { emitter = em }

unfoldable pub with_provider : Text → Options → Options
with_provider provider o = record o { provider = provider }

unfoldable pub with_instance_id : Text → Options → Options
with_instance_id instance_id o = record o { instance_id = instance_id }

unfoldable pub apply_options : List (Options → Options) → Options → Options
apply_options [] o = o
apply_options (opt ∷ opts) o = apply_options opts (opt o)

-- What an adapter has under a capability: the handler that `tableFor` installs, or one of its own.
pub data Bound : Type 0 where
  sdk_execute : Bound
  own_handler : Bound

-- The adapter's handlers, its dispatch table, and whether it was warned of a missing emitter.
pub record Site : Type 0 where
  pub handlers : Dict Bound
  pub table : Option (Dict Operation)
  pub warned : Bool

abbrev pub fresh_site : Site
fresh_site = record { handlers = []; table = none; warned = false }

abbrev pub entries : Site → Dict Operation
entries s = elim s.table [ none ↦ [] | some t ↦ t ]

install : (Text → Text) → Site → Option (Dict Operation) → Site
install unicode s (some t) = s
install unicode s none = record s {
  handlers = put (capability_key unicode (codes "execute")) sdk_execute s.handlers;
  table = some [];
}

unfoldable pub table_for : (Text → Text) → Site → Site
unfolding install
table_for unicode s = install unicode s s.table

-- The warning of a missing emitter, with the resource that it names.
unfoldable pub warn_missing_emitter_once : Text → Site → Site × List Text
warn_missing_emitter_once resource s =
    if s.warned then (s, []) else (record s { warned = true }, resource ∷ [])

unfoldable pub warn_shim : (legacy canonical : Text) → Operation → Operation
warn_shim legacy canonical canonical_fn env =
    let (r, effects) = canonical_fn env in (r, legacy_warned legacy canonical ∷ effects)

-- The three names of a resource.
pub record Names : Type 0 where
  pub ensure_name : Text
  pub observe_name : Text
  pub destroy_name : Text

abbrev pub names_of : (resource resource_type : Text) → Names
names_of resource resource_type = record {
  ensure_name = codes "ensure_" ++ resource;
  observe_name = codes "observe_" ++ resource_type;
  destroy_name = codes "destroy_" ++ resource;
}

abbrev pub canonical_of : Names → Text → Text
canonical_of names legacy =
    pick_canonical_for_legacy legacy names.ensure_name names.observe_name names.destroy_name

-- The canonical entry is always there: it was put a moment before.
shim_onto : Text → Text → Option Operation → Dict Operation → Dict Operation
shim_onto legacy canonical none t = t
shim_onto legacy canonical (some f) t = put legacy (warn_shim legacy canonical f) t

unfoldable pub add_legacy : Names → Text → Dict Operation → Dict Operation
unfolding shim_onto
add_legacy names legacy t =
    if is_empty legacy
    then t
    else shim_onto legacy (canonical_of names legacy) (get (canonical_of names legacy) t) t

-- A resource name as `RegisterReconciler` keeps it.
unfoldable pub normalize : (Text → Text) → Text → Text
normalize unicode s = to_lower unicode (trim_space s)

unfoldable pub add_legacies : (Text → Text) → Names → List Text → Dict Operation → Dict Operation
unfolding add_legacy
add_legacies unicode names [] t = t
add_legacies unicode names (legacy ∷ more) t =
    add_legacies unicode names more (add_legacy names (normalize unicode legacy) t)

module _ {D O F : Type 0} (codec : Codec D O F) (clock : Clock) (r : Reconciler D O) where
  abbrev pub context_of : Text → Options → EmitContext
  context_of resource cfg = record {
    emitter = cfg.emitter;
    provider = cfg.provider;
    resource = resource;
    instance_id = cfg.instance_id;
  }

  unfoldable pub add_entries : Names → EmitContext → Dict Operation → Dict Operation
  add_entries names ec t = put names.destroy_name (make_destroy_fn codec clock r ec) (
      put names.observe_name (make_observe_fn codec clock r)
        (put names.ensure_name (make_ensure_fn codec clock r ec) t))

  warned_site : Text → Options → Site → Site × List Text
  warned_site resource cfg s = elim cfg.emitter [
    | none ↦ warn_missing_emitter_once resource s
    | some _ ↦ (s, [])
  ]

  unfoldable pub register_named :
      (Text → Text) → (resource resource_type : Text) → Options → Site → Site × List Text
  unfolding warned_site
  register_named unicode resource resource_type cfg s =
      let (s', warnings) = warned_site resource cfg s in
      let t = table_for unicode s' in
      let names = names_of resource resource_type in
      (
        record t {
          table = some (
              add_legacies unicode names cfg.legacy_names
                (add_entries names (context_of resource cfg) (entries t)));
        },
        warnings,
      )

  -- `none` is the panic. The texts are the warnings of a missing emitter that are printed.
  unfoldable pub register_reconciler :
      (Text → Text)
      → (resource resource_type : Text) → List (Options → Options)
      → Site
      → Option (Site × List Text)
  register_reconciler unicode resource resource_type opts s =
      if is_empty (normalize unicode resource) || is_empty (normalize unicode resource_type)
      then none
      else some (
          register_named unicode (normalize unicode resource) (normalize unicode resource_type)
            (apply_options opts no_options) s)

-- `op`, from the operation or else from the capability
unfoldable pub operation_of : ExecuteRequest → Text
operation_of env =
    if is_empty (trim_space env.operation)
    then trim_space env.capability
    else trim_space env.operation

abbrev pub Response : Type 0
Response = Error ⊎ (Text × Text)

unfoldable pub typed : (Error ⊎ Text) × List Effect → Response × List Effect
typed (inl err, effects) = (inl err, effects)
typed (inr body, effects) = (inr (body, codes "application/json"), effects)

unfoldable pub unsupported : (Text → Text) → Text → Error
unsupported quote op = message (codes "reconcile: unsupported operation " ++ quote op)

unfoldable pub call_entry :
    (Text → Text) → Text → Option Operation → ExecuteRequest → Response × List Effect
unfolding typed unsupported
call_entry quote op none env = (inl (unsupported quote op), [])
call_entry quote op (some f) env = typed (f env)

call_operation : (Text → Text) → Dict Operation → ExecuteRequest → Response × List Effect
unfolding call_entry
call_operation quote t env =
    if is_empty (operation_of env)
    then (inl (message (codes "reconcile: execute request missing operation")), [])
    else call_entry quote (operation_of env) (get (operation_of env) t) env

abbrev pub empty_request : ExecuteRequest
empty_request = record {
  operation = [];
  capability = [];
  idempotency = [];
  instance_id = [];
  input = [];
}

execute_parsed : (Text → Text) → Dict Operation → Error ⊎ ExecuteRequest → Response × List Effect
unfolding call_operation
execute_parsed quote t (inl err) = (inl err, [])
execute_parsed quote t (inr env) = call_operation quote t env

-- `buildExecuteHandler`; the error of `parse` is that of a body that is no request.
unfoldable pub execute_handler :
    (Text → Text)
    → (parse : Text → Error ⊎ ExecuteRequest) → Dict Operation
    → Text
    → Response × List Effect
unfolding execute_parsed
execute_handler quote parse t body =
    execute_parsed quote t (if is_empty body then inr empty_request else parse body)

abbrev pub not_registered : Error
not_registered = message (
    codes
      "reconcile: adapter has no registered Reconciler (call reconcile.RegisterReconciler before reconcile.Dispatch)")

dispatch_table :
    (Text → Text)
    → (Text → Error ⊎ ExecuteRequest)
    → Option (Dict Operation)
    → Text
    → Response × List Effect
dispatch_table quote parse none body = (inl not_registered, [])
dispatch_table quote parse (some t) body = execute_handler quote parse t body

-- `Dispatch`
unfoldable pub dispatch :
    (Text → Text) → (Text → Error ⊎ ExecuteRequest) → Site → Text → Response × List Effect
unfolding dispatch_table
dispatch quote parse s body = dispatch_table quote parse s.table body
