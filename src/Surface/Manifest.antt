-- ===== src/Surface/Manifest.antt =====
-- surface/types.go, views.go, validate.go and loader.go: the manifest, its validation and its loading.
-- Of the structs, the fields that the validation reads. `quote` is `%q`.
pub mod Valid
use yggdrasil_sdk_go.Base.{
  ℕ, zero, suc, ◌+◌, Bool, true, false, not, ◌&&◌, ◌||◌, Option, none, some, List, [], ◌∷◌, ◌++◌,
  ◌⊎◌, inl, inr, if◌then◌else◌,
}
use yggdrasil_sdk_go.Base.Int.{ℤ, pos, ltb_ℤ}
use yggdrasil_sdk_go.Base.Texts.{
  Text, codes, is_empty, text_eq, has_prefix, trim_space, show_nat, show_int,
}
use yggdrasil_sdk_go.Rpc.{Error, message, wrapped}

-- `Permission`
pub record Permission : Type 0 where
  pub id : Text

-- `FormField`
pub record FormField : Type 0 where
  pub field : Text
  pub label : Text
  pub kind : Text
  pub options : List Text

-- `View`
pub record View : Type 0 where
  pub kind : Text
  pub component : Text
  pub fields : List FormField

-- `Page`
pub record Page : Type 0 where
  pub id : Text
  pub path : Text
  pub title : Text
  pub view : View

-- `Widget`
pub record Widget : Type 0 where
  pub id : Text
  pub target : Text
  pub view : View

-- `Manifest`
pub record Manifest : Type 0 where
  pub surface : Text
  pub surface_version : Text
  pub schema_version : ℤ
  pub display_name : Text
  pub permissions : List Permission
  pub pages : List Page
  pub widgets : List Widget

abbrev pub schema_version_current : ℕ
schema_version_current = 1

abbrev pub view_kind_form : Text
view_kind_form = codes "form"

abbrev pub view_kind_custom : Text
view_kind_custom = codes "custom"

abbrev pub form_field_kind_select : Text
form_field_kind_select = codes "select"

-- The keys of the map, in the order of the source.
abbrev pub supported_view_kinds : List Text
supported_view_kinds =
    codes "table"
    ∷ codes "detail"
    ∷ view_kind_form
    ∷ codes "timeline"
    ∷ codes "status-grid"
    ∷ codes "json-inspector"
    ∷ codes "chart"
    ∷ codes "embed"
    ∷ view_kind_custom
    ∷ codes "stat-card"
    ∷ codes "filter-contribution"
    ∷ []

abbrev pub supported_form_field_kinds : List Text
supported_form_field_kinds =
    codes "string"
    ∷ codes "secret"
    ∷ codes "number"
    ∷ codes "boolean"
    ∷ form_field_kind_select
    ∷ codes "json"
    ∷ []

-- Whether a map of the keys has the key.
unfoldable pub listed : Text → List Text → Bool
listed k [] = false
listed k (j ∷ js) = text_eq j k || listed k js

abbrev pub is_blank : Text → Bool
is_blank s = is_empty (trim_space s)

abbrev pub no_items {ℓ} : {A : Type ℓ} → List A → Bool
no_items [] = true
no_items (_ ∷ _) = false

-- `if bad { return fmt.Errorf(…) }`, before what follows.
unfoldable pub refuse_if : Bool → Text → Option Error → Option Error
refuse_if true text rest = some (message text)
refuse_if false text rest = rest

-- A loop that has ended without a return goes on with what follows.
infixr 5 ◌also◌
unfoldable pub ◌also◌ : Option Error → Option Error → Option Error
some err also rest = some err
none also rest = rest

-- A loop over items with ids: their number, the ids before them, and a check of one item.
validate_each :
    {A : Type 0}
    → (A → Text)
    → (ℕ → List Text → A → Option Error)
    → ℕ
    → List Text
    → List A
    → Option Error
validate_each id check i seen [] = none
validate_each id check i seen (x ∷ xs) =
    check i seen x also validate_each id check (suc i) (id x ∷ seen) xs

module _ (quote : Text → Text) where
  of_page : Text → Text → Text
  of_page id rest = codes "manifest: page " ++ (quote id ++ rest)

  of_field : Text → Text → Text → Text
  unfolding of_page
  of_field id field rest = of_page id (codes " form field " ++ (quote field ++ rest))

  validate_field : Text → ℕ → FormField → Option Error
  unfolding refuse_if of_page of_field
  validate_field id j f =
      refuse_if (is_blank f.field)
        (of_page id (codes " form field[" ++ (show_nat j ++ codes "] field is required")))
        (refuse_if (is_blank f.label) (of_field id f.field (codes " label is required")) (
          refuse_if (not (listed f.kind supported_form_field_kinds))
            (of_field id f.field (codes " has unknown kind " ++ quote f.kind))
            (refuse_if (text_eq f.kind form_field_kind_select && no_items f.options)
              (of_field id f.field (codes " kind=select requires options")) none)))

  validate_fields : Text → ℕ → List FormField → Option Error
  unfolding validate_field
  validate_fields id j [] = none
  validate_fields id j (f ∷ fs) = validate_field id j f also validate_fields id (suc j) fs

  validate_view : Text → View → Option Error
  unfolding refuse_if of_page validate_fields
  validate_view id v =
      refuse_if (not (listed v.kind supported_view_kinds))
        (of_page id (codes " has unknown view kind " ++ quote v.kind))
        (refuse_if (text_eq v.kind view_kind_custom && is_blank v.component)
          (of_page id (codes " kind=custom requires a component name"))
          (if text_eq v.kind view_kind_form
            then refuse_if (no_items v.fields)
                (of_page id (codes " kind=form requires at least one field"))
                (validate_fields id 0 v.fields)
            else none))

  validate_page : ℕ → List Text → Page → Option Error
  unfolding refuse_if of_page validate_view
  validate_page i seen p =
      refuse_if (is_blank p.id)
        (codes "manifest: page[" ++ (show_nat i ++ codes "] id is required"))
        (refuse_if (listed p.id seen) (codes "manifest: duplicate page id " ++ quote p.id) (
          refuse_if (not (has_prefix p.path (codes "/")))
            (of_page p.id (codes " path must start with /"))
            (refuse_if (is_blank p.title) (of_page p.id (codes " title is required"))
              (validate_view p.id p.view))))

  validate_pages : List Page → Option Error
  unfolding validate_each validate_page
  validate_pages = validate_each (λ p. p.id) validate_page 0 []

  validate_widget : ℕ → List Text → Widget → Option Error
  unfolding refuse_if
  validate_widget i seen w =
      refuse_if (is_blank w.id)
        (codes "manifest: widget[" ++ (show_nat i ++ codes "] id is required"))
        (refuse_if (listed w.id seen) (codes "manifest: duplicate widget id " ++ quote w.id) (
          refuse_if (is_blank w.target)
            (codes "manifest: widget " ++ (quote w.id ++ codes " target is required"))
            (refuse_if (not (listed w.view.kind supported_view_kinds))
              (codes "manifest: widget "
                ++ (quote w.id ++ (codes " has unknown view kind " ++ quote w.view.kind)))
              none)))

  validate_widgets : List Widget → Option Error
  unfolding validate_each validate_widget
  validate_widgets = validate_each (λ p. p.id) validate_widget 0 []

  validate_permission : ℕ → List Text → Permission → Option Error
  unfolding refuse_if
  validate_permission i seen p =
      refuse_if (is_blank p.id)
        (codes "manifest: permission[" ++ (show_nat i ++ codes "] id is required"))
        (refuse_if (listed p.id seen) (codes "manifest: duplicate permission id " ++ quote p.id)
          none)

  validate_permissions : List Permission → Option Error
  unfolding validate_each validate_permission
  validate_permissions = validate_each (λ p. p.id) validate_permission 0 []

  -- `Validate`
  unfoldable pub validate : Manifest → Option Error
  unfolding refuse_if validate_pages validate_widgets validate_permissions
  validate m = refuse_if (is_blank m.surface) (codes "manifest: surface field is required") (
      refuse_if (not (ltb_ℤ (pos 0) m.schema_version))
        (codes "manifest: schema_version is required and must be > 0")
        (refuse_if (ltb_ℤ (pos schema_version_current) m.schema_version)
          (codes "manifest: unsupported schema_version "
            ++ (show_int m.schema_version
                ++ (codes " (this SDK supports up to "
                    ++ (show_nat schema_version_current ++ codes ")"))))
          (refuse_if (is_blank m.surface_version) (codes "manifest: surface_version is required") (
            refuse_if (is_blank m.display_name) (codes "manifest: display_name is required") (
              refuse_if (no_items m.pages) (codes "manifest: at least one page is required") (
                validate_pages m.pages
                also validate_widgets m.widgets
                also validate_permissions m.permissions))))))

  checked : Manifest → Option Error → Error ⊎ Manifest
  checked m (some err) = inl err
  checked m none = inr m

  parsed : Error ⊎ Manifest → Error ⊎ Manifest
  unfolding checked
  parsed (inl err) = inl (wrapped (codes "surface: parse manifest: ") err)
  parsed (inr m) = checked m (validate m)

  module _ (unmarshal : Text → Error ⊎ Manifest) where
    -- `LoadManifestFromBytes`; `unmarshal` is that of YAML.
    unfoldable pub load_manifest_from_bytes : Text → Error ⊎ Manifest
    unfolding parsed
    load_manifest_from_bytes raw = parsed (unmarshal raw)

    loaded : Text → Error ⊎ Text → Error ⊎ Manifest
    loaded path (inl err) = inl (wrapped (codes "surface: read " ++ (path ++ codes ": ")) err)
    loaded path (inr raw) = load_manifest_from_bytes raw

    -- `LoadManifestFromFS`; `read_file` is that of the file system.
    unfoldable pub load_manifest_from_fs : (Text → Error ⊎ Text) → Text → Error ⊎ Manifest
    unfolding loaded
    load_manifest_from_fs read_file path = loaded path (read_file path)
