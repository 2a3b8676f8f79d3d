-- ===== src/Reconcile/Registry/Warnings.antt =====
-- The warnings of registrations without an emitter: sdk/reconcile/register.go and dispatch.go.
use yggdrasil_sdk_go.Base.{
  ℕ, ◌+◌, Bool, true, false, some, List, [], ◌++◌, ◌≡◌, ap, ◌∙◌, sym, arith, length, length-append,
}
use yggdrasil_sdk_go.Base.Texts.{Text}
use yggdrasil_sdk_go.Reconcile.Emission.{Clock}
use yggdrasil_sdk_go.Reconcile.Operations.{Reconciler, Codec}
use yggdrasil_sdk_go.Reconcile.Registry.{
  Options, Site, table_for, warn_missing_emitter_once, warned_site, register_named,
  register_reconciler, normalize, apply_options, no_options,
}

-- The registrations of one adapter, in their order, with the warnings that they print: of reconcilers
-- of any types, none of which panics.
pub data Registered : Site → List Text → Site → Type 1 where
  nothing : {s : Site} → Registered s [] s
  next :
      {D O F : Type 0} (codec : Codec D O F) (clock : Clock) (r : Reconciler D O)
      (unicode : Text → Text) (resource resource_type : Text) (opts : List (Options → Options))
      {s s' s'' : Site} {w ws : List Text}
      → register_reconciler codec clock r unicode resource resource_type opts s ≡ some (s', w)
      → Registered s' ws s''
      → Registered s (w ++ ws) s''

abbrev pub once : Bool → ℕ
once true = 1
once false = 0

warned-table_for : (unicode : Text → Text) (s : Site) → (table_for unicode s).warned ≡ s.warned
unfolding table_for
warned-table_for unicode s = ground arith

module _ {D O F : Type 0} (codec : Codec D O F) (clock : Clock) (r : Reconciler D O)
    (unicode : Text → Text) where
  warned_site_counts :
      (resource : Text) (cfg : Options) (s : Site)
      → length (warned_site codec clock r resource cfg s).1 + once s.warned
        ≡ once (warned_site codec clock r resource cfg s).0.warned
  unfolding warned_site warn_missing_emitter_once
  warned_site_counts resource cfg s = ground arith

  register_named_counts :
      (resource resource_type : Text) (cfg : Options) (s : Site)
      → length (register_named codec clock r unicode resource resource_type cfg s).1 + once s.warned
        ≡ once (register_named codec clock r unicode resource resource_type cfg s).0.warned
  unfolding register_named
  register_named_counts resource resource_type cfg s =
      warned_site_counts resource cfg s
      ∙ ap once (sym (warned-table_for unicode (warned_site codec clock r resource cfg s).0))

  register_reconciler_counts :
      (resource resource_type : Text) (opts : List (Options → Options)) {s' : Site} {w : List Text}
      (s : Site)
      → register_reconciler codec clock r unicode resource resource_type opts s ≡ some (s', w)
      → length w + once s.warned ≡ once s'.warned
  unfolding register_reconciler
  register_reconciler_counts resource resource_type opts s h = ground (
    arith,
    register_named_counts (normalize unicode resource) (normalize unicode resource_type)
        (apply_options opts no_options) s,
  )

-- Whatever reconcilers are registered on an adapter, with an emitter or without, the warning of a
-- missing emitter is printed once if the adapter has become warned, and otherwise never.
pub missing_emitter_warned_once :
    {s s' : Site} {ws : List Text} → Registered s ws s' → length ws + once s.warned ≡ once s'.warned
missing_emitter_warned_once nothing = omega arith
missing_emitter_warned_once
      (next codec clock r unicode resource resource_type opts {s} {s'} {s''} {w} {ws} e more) =
    omega (
      arith,
      length-append w ws,
      missing_emitter_warned_once more,
      register_reconciler_counts codec clock r unicode resource resource_type opts s e,
    )
