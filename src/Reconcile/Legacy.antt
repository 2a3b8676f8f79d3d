-- ===== src/Reconcile/Legacy.antt =====
-- sdk/reconcile/options.go: the canonical name behind a legacy one.
use yggdrasil_sdk_go.Base.{Bool, false, List, [], ◌∷◌, ◌||◌, if◌then◌else◌}
use yggdrasil_sdk_go.Base.Texts.{Text, codes, has_prefix}

unfoldable pub starts_with_any : Text → List Text → Bool
starts_with_any s [] = false
starts_with_any s (p ∷ prefixes) = has_prefix s p || starts_with_any s prefixes

abbrev pub ensure_prefixes : List Text
ensure_prefixes =
    codes "create_"
    ∷ codes "update_"
    ∷ codes "upsert_"
    ∷ codes "register_"
    ∷ codes "set_"
    ∷ codes "apply_"
    ∷ codes "issue_"
    ∷ []

abbrev pub observe_prefixes : List Text
observe_prefixes =
    codes "get_" ∷ codes "list_" ∷ codes "describe_" ∷ codes "lookup_" ∷ codes "retrieve_" ∷ []

abbrev pub destroy_prefixes : List Text
destroy_prefixes =
    codes "delete_"
    ∷ codes "unregister_"
    ∷ codes "remove_"
    ∷ codes "teardown_"
    ∷ codes "revoke_"
    ∷ codes "cancel_"
    ∷ codes "archive_"
    ∷ []

unfoldable pub pick_canonical_for_legacy :
    (legacy ensure_name observe_name destroy_name : Text) → Text
pick_canonical_for_legacy legacy ensure_name observe_name destroy_name =
    if starts_with_any legacy ensure_prefixes
    then ensure_name
    else if starts_with_any legacy observe_prefixes
    then observe_name
    else if starts_with_any legacy destroy_prefixes
    then destroy_name
    else ensure_name
