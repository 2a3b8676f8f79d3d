-- ===== src/Reconcile/Tests.antt =====
-- The theorems on sdk/reconcile at work.
use yggdrasil_sdk_go.Base.{
  ℕ, none, some, List, [], ◌∷◌, ◌++◌, ◌≡◌, ◌==◌, ◌⊎◌, inl, inr, refl, if◌then◌else◌,
}
use yggdrasil_sdk_go.Base.Int.{pos}
use yggdrasil_sdk_go.Base.Texts.{Text, codes, show_nat, text_eq, to_lower, trim_space, has_prefix}
use yggdrasil_sdk_go.Base.Dict.{get}
use yggdrasil_sdk_go.Rpc.{Error}
use yggdrasil_sdk_go.Reconcile.Identify.{Floats, other_kind, str}
use yggdrasil_sdk_go.Reconcile.Emission.{ExecuteRequest, legacy_warned, EmitContext, Clock}
use yggdrasil_sdk_go.Reconcile.Operations.{
  Reconciler, Codec, Operation, make_ensure_fn, make_observe_fn, make_destroy_fn,
}
use yggdrasil_sdk_go.Reconcile.Operations.Announced.{Emits}
use yggdrasil_sdk_go.Reconcile.Operations.Destroys.{DestroyedWith, make_destroy_fn_emits}
use yggdrasil_sdk_go.Reconcile.Registry.{
  Options, no_options, Site, fresh_site, entries, names_of, canonical_of, context_of, operation_of,
  typed, call_entry, register_named, register_reconciler, warn_missing_emitter_once, apply_options,
  normalize, dispatch,
}
use yggdrasil_sdk_go.Reconcile.Legacy.{pick_canonical_for_legacy, starts_with_any}
use yggdrasil_sdk_go.Reconcile.Registry.Lookup.{NoneIs, OneIs, canonical_entry}
use yggdrasil_sdk_go.Reconcile.Registry.Dispatch.{
  Asks, dispatch-register_named, dispatch-register_named_legacy,
}

abbrev pub as_is : Text → Text
as_is t = t

abbrev floats : Floats ℕ
floats = record { is_zero = λ x. x == 0; to_int = λ x. some (pos x); general = show_nat }

abbrev pub codec : Codec Text Text ℕ
codec = record {
  zero_desired = [];
  parse_desired = λ t. inr t;
  parse_ref = λ t. inr (codes "r1");
  filter_error = λ t. none;
  parse_object = λ t. some ((codes "id", str (codes "7")) ∷ []);
  marshal_observed = λ o. inr o;
  marshal_page = λ items cursor. inr cursor;
  reflect = λ o. other_kind;
  quote = as_is;
  floats = floats;
}

abbrev pub repos : Reconciler Text Text
repos = record {
  ensure = λ d. inr d;
  observe = λ filter. inr ([], []);
  destroy = λ ref. none;
  destroy_with_desired = none;
}

abbrev pub clock : Clock
clock = record { digest = as_is; now = pos 1729012345 }

abbrev context : EmitContext
context = record {
  emitter = some (λ ev. none);
  provider = codes "github";
  resource = codes "repo";
  instance_id = [];
}

abbrev pub ensure_repo : ExecuteRequest
ensure_repo = record {
  operation = codes "ensure_repo";
  capability = [];
  idempotency = [];
  instance_id = [];
  input = codes "{\"id\":\"7\"}";
}

abbrev create_repo : ExecuteRequest
create_repo = record ensure_repo { operation = codes "create_repo" }

make_destroy_fn_emits_example : Emits (make_destroy_fn codec clock repos context ensure_repo) (
    DestroyedWith codec clock repos context ensure_repo
      (make_destroy_fn codec clock repos context ensure_repo).1)
make_destroy_fn_emits_example = make_destroy_fn_emits codec clock repos context ensure_repo

-- The parser of the two bodies.
abbrev pub parse : Text → Error ⊎ ExecuteRequest
parse body = inr (if text_eq body (codes "1") then ensure_repo else create_repo)

pub ensure_asked : Asks parse (codes "1") ensure_repo (codes "ensure_repo")
unfolding text_eq operation_of trim_space
ensure_asked = record { body_given = refl; parsed = refl; named = refl; name_given = refl }

create_asked : Asks parse (codes "2") create_repo (codes "create_repo")
unfolding text_eq operation_of trim_space
create_asked = record { body_given = refl; parsed = refl; named = refl; name_given = refl }

abbrev legacy : Options
legacy = record no_options { legacy_names = codes "create_repo" ∷ [] }

dispatch-register_named_example :
    dispatch as_is parse
      (register_named codec clock repos as_is (codes "repo") (codes "repo") no_options fresh_site).0
      (codes "1")
    ≡ (if text_eq (codes "destroy_" ++ codes "repo") (codes "ensure_repo")
        then typed (
            make_destroy_fn codec clock repos
              (context_of codec clock repos (codes "repo") no_options)
              ensure_repo)
        else if text_eq (codes "observe_" ++ codes "repo") (codes "ensure_repo")
        then typed (make_observe_fn codec clock repos ensure_repo)
        else if text_eq (codes "ensure_" ++ codes "repo") (codes "ensure_repo")
        then typed (
            make_ensure_fn codec clock repos
              (context_of codec clock repos (codes "repo") no_options)
              ensure_repo)
        else call_entry as_is
            (codes "ensure_repo")
            (get (codes "ensure_repo") (entries fresh_site))
            ensure_repo)
dispatch-register_named_example =
    dispatch-register_named as_is parse codec clock repos as_is (codes "repo") (codes "repo")
      no_options fresh_site ensure_asked tt

abbrev ensure_fn : Operation
ensure_fn = make_ensure_fn codec clock repos (context_of codec clock repos (codes "repo") legacy)

picked :
    canonical_of (names_of (codes "repo") (codes "repo")) (codes "create_repo")
    ≡ codes "ensure_repo"
unfolding pick_canonical_for_legacy starts_with_any has_prefix
picked = refl

create_listed : OneIs as_is (codes "create_repo") legacy.legacy_names
unfolding normalize to_lower trim_space
create_listed = inl refl

others_free :
    NoneIs as_is
      (canonical_of (names_of (codes "repo") (codes "repo")) (codes "create_repo"))
      legacy.legacy_names
unfolding normalize to_lower trim_space text_eq pick_canonical_for_legacy starts_with_any has_prefix
others_free = (refl, tt)

there :
    canonical_entry codec clock repos
      (names_of (codes "repo") (codes "repo"))
      (context_of codec clock repos (codes "repo") legacy)
      (canonical_of (names_of (codes "repo") (codes "repo")) (codes "create_repo"))
      (get
        (canonical_of (names_of (codes "repo") (codes "repo")) (codes "create_repo"))
        (entries fresh_site))
    ≡ some ensure_fn
unfolding text_eq pick_canonical_for_legacy starts_with_any has_prefix
there = refl

dispatch-register_named_legacy_example :
    dispatch as_is parse
      (register_named codec clock repos as_is (codes "repo") (codes "repo") legacy fresh_site).0
      (codes "2")
    ≡ (
      (typed (ensure_fn create_repo)).0,
      legacy_warned
            (codes "create_repo")
            (canonical_of (names_of (codes "repo") (codes "repo")) (codes "create_repo"))
          ∷ (typed (ensure_fn create_repo)).1,
    )
dispatch-register_named_legacy_example =
    dispatch-register_named_legacy as_is parse codec clock repos as_is (codes "repo") (codes "repo")
      legacy fresh_site ensure_fn create_asked create_listed others_free there

abbrev after_one : Site × List Text
after_one =
    register_named codec clock repos as_is (codes "repo") (codes "repo") no_options fresh_site

registered_once :
    register_reconciler codec clock repos as_is (codes "repo") (codes "repo") [] fresh_site
    ≡ some (after_one.0, after_one.1)
unfolding register_reconciler register_named warn_missing_emitter_once apply_options normalize
    to_lower trim_space
registered_once = refl
