-- ===== src/Reconcile/Registry/Dispatch.antt =====
-- Requests to a registered reconciler: sdk/reconcile/register.go and dispatch.go.
use yggdrasil_sdk_go.Base.{
  false, some, List, ◌∷◌, ◌++◌, ◌≡◌, refl, ap, ◌∙◌, inl, inr, ◌⊎◌, arith, if◌then◌else◌,
}
use yggdrasil_sdk_go.Base.Texts.{Text, codes, is_empty, text_eq}
use yggdrasil_sdk_go.Base.Dict.{Dict, get}
use yggdrasil_sdk_go.Rpc.{Error}
use yggdrasil_sdk_go.Reconcile.Emission.{ExecuteRequest, Effect, legacy_warned, Clock}
use yggdrasil_sdk_go.Reconcile.Operations.{
  Reconciler, Codec, Operation, make_ensure_fn, make_observe_fn, make_destroy_fn,
}
use yggdrasil_sdk_go.Reconcile.Registry.{
  Options, Site, entries, names_of, canonical_of, warn_shim, context_of, register_named,
  operation_of, typed, call_entry, call_operation, execute_handler, dispatch, dispatch_table,
}
use yggdrasil_sdk_go.Reconcile.Registry.Lookup.{
  NoneIs, get-register_named, get-register_named_legacy, OneIs, canonical_entry,
}

-- A body that parses to a request for the operation.
pub record Asks (parse : Text → Error ⊎ ExecuteRequest) (body : Text) (env : ExecuteRequest)
    (name : Text) : Type 0 where
  pub body_given : is_empty body ≡ false
  pub parsed : parse body ≡ inr env
  pub named : operation_of env ≡ name
  pub name_given : is_empty name ≡ false

typed_cases :
    (legacy canonical : Text) (p : (Error ⊎ Text) × List Effect)
    → typed (p.0, legacy_warned legacy canonical ∷ p.1)
      ≡ ((typed p).0, legacy_warned legacy canonical ∷ (typed p).1)
unfolding typed
typed_cases legacy canonical (inl err, effects) = refl
typed_cases legacy canonical (inr body, effects) = refl

typed-warn_shim :
    (legacy canonical : Text) (f : Operation) (env : ExecuteRequest)
    → typed (warn_shim legacy canonical f env)
      ≡ ((typed (f env)).0, legacy_warned legacy canonical ∷ (typed (f env)).1)
unfolding warn_shim typed
typed-warn_shim legacy canonical f env = typed_cases legacy canonical (f env)

module _ (quote : Text → Text) (parse : Text → Error ⊎ ExecuteRequest) where
  execute_handler-Asks :
      {body : Text} {env : ExecuteRequest} {name : Text} (t : Dict Operation)
      → Asks parse body env name
      → execute_handler quote parse t body ≡ call_entry quote name (get name t) env
  unfolding execute_handler call_operation
  execute_handler-Asks t asks = simp (asks.body_given, asks.parsed, asks.named, asks.name_given)

  dispatch_table-Asks :
      {body : Text} {env : ExecuteRequest} {name : Text} (s : Site) (t : Dict Operation)
      → s.table ≡ some t
      → Asks parse body env name
      → dispatch quote parse s body ≡ call_entry quote name (get name t) env
  unfolding dispatch
  dispatch_table-Asks {body} s t e asks =
      ap (λ o. dispatch_table quote parse o body) e ∙ execute_handler-Asks t asks

  module _ {D O F : Type 0} (codec : Codec D O F) (clock : Clock) (r : Reconciler D O)
      (unicode : Text → Text) (resource resource_type : Text) (cfg : Options) (s : Site) where
    abbrev registered : Site
    registered = (register_named codec clock r unicode resource resource_type cfg s).0

    dispatch-entries :
        {body : Text} {env : ExecuteRequest} {name : Text}
        → Asks parse body env name
        → dispatch quote parse registered body
          ≡ call_entry quote name (get name (entries registered)) env
    dispatch-entries asks =
        unfold register_named in dispatch_table-Asks registered (entries registered) refl asks

    -- After a registration a request whose operation is none of its legacy names runs the destroy, the
    -- observe or the ensure of the reconciler where the operation is the canonical name of that
    -- resource, whatever stood there before, and elsewhere what the table had, or is refused.
    pub dispatch-register_named :
        {body : Text} {env : ExecuteRequest} {name : Text}
        → Asks parse body env name
        → NoneIs unicode name cfg.legacy_names
        → dispatch quote parse
            (register_named codec clock r unicode resource resource_type cfg s).0
            body
          ≡ (if text_eq (codes "destroy_" ++ resource) name
              then typed (make_destroy_fn codec clock r (context_of codec clock r resource cfg) env)
              else if text_eq (codes "observe_" ++ resource_type) name
              then typed (make_observe_fn codec clock r env)
              else if text_eq (codes "ensure_" ++ resource) name
              then typed (make_ensure_fn codec clock r (context_of codec clock r resource cfg) env)
              else call_entry quote name (get name (entries s)) env)
    dispatch-register_named {body} {env} {name} asks none_is =
        dispatch-entries asks
        ∙ ap (λ o. call_entry quote name o env)
            (get-register_named codec clock r unicode resource resource_type name cfg s none_is)
        ∙ unfold call_entry in ground arith

    -- After a registration a request for a legacy name gives what the operation that the name's prefix
    -- picks gives for it, after one warning that names both, where no legacy name of the registration
    -- is the canonical name of that operation.
    pub dispatch-register_named_legacy :
        {body : Text} {env : ExecuteRequest} {name : Text} (f : Operation)
        → Asks parse body env name
        → OneIs unicode name cfg.legacy_names
        → NoneIs unicode (canonical_of (names_of resource resource_type) name) cfg.legacy_names
        → canonical_entry codec clock r
            (names_of resource resource_type)
            (context_of codec clock r resource cfg)
            (canonical_of (names_of resource resource_type) name)
            (get (canonical_of (names_of resource resource_type) name) (entries s))
          ≡ some f
        → dispatch quote parse
            (register_named codec clock r unicode resource resource_type cfg s).0
            body
          ≡ (
            (typed (f env)).0,
            legacy_warned name (canonical_of (names_of resource resource_type) name)
                ∷ (typed (f env)).1,
          )
    unfolding call_entry
    dispatch-register_named_legacy {body} {env} {name} f asks one others e =
        dispatch-entries asks
        ∙ ap (λ o. call_entry quote name o env)
            (get-register_named_legacy codec clock r unicode resource resource_type name cfg s f
              asks.name_given one others e)
        ∙ typed-warn_shim name (canonical_of (names_of resource resource_type) name) f env
