-- ===== src/Surface/Tests.antt =====
-- The surface at concrete manifests and requests.
use yggdrasil_sdk_go.Base.{
  ℕ, none, some, List, [], ◌∷◌, ◌≡◌, ◌↔◌, ◌⊎◌, inl, inr, refl, length, take, leb, if◌then◌else◌,
}
use yggdrasil_sdk_go.Base.Int.{pos}
use yggdrasil_sdk_go.Base.Texts.{Text, codes, trim_space, is_empty, text_eq, has_prefix}
use yggdrasil_sdk_go.Base.Dict.{Dict}
use yggdrasil_sdk_go.Rpc.{Error, message}
use yggdrasil_sdk_go.Reconcile.Identify.{Any, opaque_value}
use yggdrasil_sdk_go.Surface.Manifest.{View, Page, Manifest, listed, ◌also◌, validate}
use yggdrasil_sdk_go.Surface.Manifest.Valid.{IsValid, validate_iff}
use yggdrasil_sdk_go.Surface.Handlers.{DataHandler, ActionRequest, Value, serve_action}
use yggdrasil_sdk_go.Surface.Handlers.Limits.{handed_over, too_long, serve_action_limited}

abbrev a_view : Text → View
a_view kind = record { kind = kind; component = []; fields = [] }

abbrev a_form : View
a_form = record {
  kind = codes "form";
  component = [];
  fields =
      record { field = codes "name"; label = codes "Name"; kind = codes "string"; options = [] }
      ∷ [];
}

abbrev a_page : Text → View → Page
a_page id view = record { id = id; path = codes "/p"; title = codes "Page"; view = view }

abbrev a_manifest : List Page → Manifest
a_manifest pages = record {
  surface = codes "s";
  surface_version = codes "1.0.0";
  schema_version = pos 1;
  display_name = codes "S";
  permissions = [];
  pages = pages;
  widgets = [];
}

abbrev two_pages : List Page
two_pages = a_page (codes "a") (a_view (codes "table")) ∷ a_page (codes "b") a_form ∷ []

accepted : validate (λ s. s) (a_manifest two_pages) ≡ none
unfolding validate ◌also◌ listed trim_space text_eq has_prefix
accepted = refl

-- A kind that views.go calls one of widgets passes on a page.
widget_kind_accepted :
    validate (λ s. s) (a_manifest (a_page (codes "a") (a_view (codes "stat-card")) ∷ [])) ≡ none
unfolding validate ◌also◌ listed trim_space text_eq has_prefix
widget_kind_accepted = refl

duplicate_refused :
    validate (λ s. s) (a_manifest (a_page (codes "a") a_form ∷ a_page (codes "a") a_form ∷ []))
    ≡ some (message (codes "manifest: duplicate page id a"))
unfolding validate ◌also◌ listed trim_space text_eq has_prefix
duplicate_refused = refl

two_pages-IsValid : IsValid (a_manifest two_pages)
two_pages-IsValid = (validate_iff (λ s. s) (a_manifest two_pages)).0 accepted

validate_iff_example :
    (validate (λ s. s) (a_manifest two_pages) ≡ none) ↔ IsValid (a_manifest two_pages)
validate_iff_example = validate_iff (λ s. s) (a_manifest two_pages)

abbrev unmarshal : Text → Error ⊎ Manifest
unmarshal raw = if is_empty raw then inl (message raw) else inr (a_manifest two_pages)

abbrev read_file : Text → Error ⊎ Text
read_file path = inr path

abbrev echo : DataHandler Unit Text
echo = record {
  handle_data = λ req. inr (some req.view_id);
  handle_action = λ req. inr (some req.body);
}

abbrev encode : Value Text → Error ⊎ Text
encode v = inr (codes "{}")

abbrev run_action : ActionRequest Unit
run_action = record { action_id = codes "run"; body = codes "[1]"; header = tt }

serve_action_limited_example :
    serve_action encode echo (codes "run") (some (λ n. inr (take n (codes "[1]")))) tt ≡ (
      if leb (length (codes "[1]")) 524288
      then handed_over encode echo run_action
      else too_long encode)
serve_action_limited_example =
    serve_action_limited encode echo (codes "run") (codes "[1]") tt
      (λ n. inr (take n (codes "[1]"))) (λ e. cc) (λ n. refl)

abbrev stamped : Dict (Any ℕ)
stamped = (codes "params", opaque_value) ∷ []
