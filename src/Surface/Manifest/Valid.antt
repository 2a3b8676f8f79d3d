-- ===== src/Surface/Manifest/Valid.antt =====
-- What a manifest is that surface/validate.go accepts.
use yggdrasil_sdk_go.Base.{
  ℕ, suc, Bool, true, false, Option, none, some, List, [], ◌∷◌, ◌≡◌, ◌≢◌, ◌↔◌, ◌⊎◌, inl, inr, refl,
  map, arith, All, ap, sym, subst, ◌∙◌,
}
use yggdrasil_sdk_go.Base.Int.{ℤ, pos, negsuc, ltb_ℤ}
use yggdrasil_sdk_go.Base.Texts.{Text, codes, text_eq_iff, has_prefix}
use yggdrasil_sdk_go.Rpc.{Error}
use yggdrasil_sdk_go.Surface.Manifest.{
  Permission, FormField, View, Page, Widget, Manifest, schema_version_current, view_kind_form,
  view_kind_custom, form_field_kind_select, supported_view_kinds, supported_form_field_kinds,
  listed, is_blank, no_items, refuse_if, ◌also◌, validate_each, validate_field, validate_fields,
  validate_view, validate_page, validate_pages, validate_widget, validate_widgets,
  validate_permission, validate_permissions, validate, parsed, checked, load_manifest_from_bytes,
  load_manifest_from_fs, loaded,
}

-- More than white space.
abbrev pub IsFilled : Text → Type 0
IsFilled s = is_blank s ≡ false

abbrev pub IsOneOf : Text → List Text → Type 0
IsOneOf k [] = ⊥
IsOneOf k (j ∷ js) = (j ≡ k) ⊎ IsOneOf k js

abbrev pub AreDistinct : List Text → Type 0
AreDistinct [] = Unit
AreDistinct (k ∷ ks) = All (λ j. k ≢ j) ks × AreDistinct ks

abbrev pub IsValidField : FormField → Type 0
IsValidField f =
    IsFilled f.field
    × IsFilled f.label
    × IsOneOf f.kind supported_form_field_kinds
    × (f.kind ≡ form_field_kind_select → f.options ≢ [])

abbrev pub IsValidView : View → Type 0
IsValidView v =
    IsOneOf v.kind supported_view_kinds
    × (v.kind ≡ view_kind_custom → IsFilled v.component)
    × (v.kind ≡ view_kind_form → (v.fields ≢ []) × All IsValidField v.fields)

abbrev pub IsValidPage : Page → Type 0
IsValidPage p =
    IsFilled p.id × ((rest : Text) × (p.path ≡ b'/' ∷ rest)) × IsFilled p.title × IsValidView p.view

abbrev pub IsValidWidget : Widget → Type 0
IsValidWidget w = IsFilled w.id × IsFilled w.target × IsOneOf w.view.kind supported_view_kinds

abbrev pub IsValid : Manifest → Type 0
IsValid m =
    IsFilled m.surface
    × (m.schema_version ≡ pos schema_version_current)
    × IsFilled m.surface_version
    × IsFilled m.display_name
    × (m.pages ≢ [])
    × (All IsValidPage m.pages × AreDistinct (map (λ p. p.id) m.pages))
    × (All IsValidWidget m.widgets × AreDistinct (map (λ w. w.id) m.widgets))
    × (All (λ p. IsFilled p.id) m.permissions × AreDistinct (map (λ p. p.id) m.permissions))

listed_iff : (k : Text) (js : List Text) → (listed k js ≡ true) ↔ IsOneOf k js
unfolding listed
listed_iff k [] = ground arith
listed_iff k (j ∷ js) = ground (arith, listed_iff k js, text_eq_iff j k)

also-none : (a b : Option Error) → ((a also b) ≡ none) ↔ ((a ≡ none) × (b ≡ none))
unfolding ◌also◌
also-none none b = ground arith
also-none (some err) b = ground arith

refuse_if-none :
    (b : Bool) (t : Text) (rest : Option Error)
    → (refuse_if b t rest ≡ none) ↔ ((b ≡ false) × (rest ≡ none))
unfolding refuse_if
refuse_if-none true t rest = ground arith
refuse_if-none false t rest = ground arith

no_items_iff {ℓ} : {A : Type ℓ} (xs : List A) → (no_items xs ≡ false) ↔ (xs ≢ [])
no_items_iff [] = ground arith
no_items_iff (x ∷ xs) = ground arith

slash_iff : (s : Text) → (has_prefix s (codes "/") ≡ true) ↔ ((rest : Text) × (s ≡ b'/' ∷ rest))
unfolding has_prefix
slash_iff [] = (λ e. cc, λ (rest, e). cc)
slash_iff (c ∷ s) = (λ e. (s, ground arith), λ (rest, e). ground arith)

module _ (quote : Text → Text) where
  validate_field-none :
      (id : Text) (j : ℕ) (f : FormField) → (validate_field quote id j f ≡ none) ↔ IsValidField f
  unfolding validate_field refuse_if
  validate_field-none id j f = ground (
    arith,
    listed_iff f.kind supported_form_field_kinds,
    text_eq_iff f.kind form_field_kind_select,
    no_items_iff f.options,
  )

  validate_fields-none :
      (id : Text) (j : ℕ) (fs : List FormField)
      → (validate_fields quote id j fs ≡ none) ↔ All IsValidField fs
  unfolding validate_fields
  validate_fields-none id j [] = (λ e. tt, λ h. refl)
  validate_fields-none id j (f ∷ fs) =
      let (split, join) =
        also-none (validate_field quote id j f) (validate_fields quote id (suc j) fs) in
      let (to, from) = validate_field-none id j f in
      let (tos, froms) = validate_fields-none id (suc j) fs in
      (λ e. (to (split e).0, tos (split e).1), λ h. join (from h.0, froms h.1))

  validate_view-none : (id : Text) (v : View) → (validate_view quote id v ≡ none) ↔ IsValidView v
  unfolding validate_view refuse_if
  validate_view-none id v = ground (
    arith,
    listed_iff v.kind supported_view_kinds,
    text_eq_iff v.kind view_kind_custom,
    text_eq_iff v.kind view_kind_form,
    no_items_iff v.fields,
    validate_fields-none id 0 v.fields,
  )

  validate_page-none :
      (i : ℕ) (seen : List Text) (p : Page)
      → (validate_page quote i seen p ≡ none) ↔ ((listed p.id seen ≡ false) × IsValidPage p)
  unfolding validate_page refuse_if
  validate_page-none i seen p = ground (arith, slash_iff p.path, validate_view-none p.id p.view)

  validate_widget-none :
      (i : ℕ) (seen : List Text) (w : Widget)
      → (validate_widget quote i seen w ≡ none) ↔ ((listed w.id seen ≡ false) × IsValidWidget w)
  unfolding validate_widget refuse_if
  validate_widget-none i seen w = ground (arith, listed_iff w.view.kind supported_view_kinds)

  validate_permission-none :
      (i : ℕ) (seen : List Text) (p : Permission)
      → (validate_permission quote i seen p ≡ none) ↔ ((listed p.id seen ≡ false) × IsFilled p.id)
  unfolding validate_permission refuse_if
  validate_permission-none i seen p = ground arith

-- None of the ids has been seen.
abbrev AreNew : List Text → List Text → Type 0
AreNew seen ids = All (λ k. listed k seen ≡ false) ids

AreNew-cons :
    (k : Text) (seen ids : List Text)
    → AreNew (k ∷ seen) ids ↔ (All (λ j. k ≢ j) ids × AreNew seen ids)
unfolding listed
AreNew-cons k seen [] = ground arith
AreNew-cons k seen (j ∷ ids) = ground (arith, text_eq_iff k j, AreNew-cons k seen ids)

AreNew-nil : (ids : List Text) → AreNew [] ids
unfolding listed
AreNew-nil [] = tt
AreNew-nil (k ∷ ids) = (refl, AreNew-nil ids)

module _ {A : Type 0} (id : A → Text) (check : ℕ → List Text → A → Option Error) (P : A → Type 0)
    (decides : (i : ℕ) (seen : List Text) (x : A)
      → (check i seen x ≡ none) ↔ ((listed (id x) seen ≡ false) × P x)) where
  validate_each-none :
      (i : ℕ) (seen : List Text) (xs : List A)
      → (validate_each id check i seen xs ≡ none)
        ↔ (AreNew seen (map id xs) × All P xs × AreDistinct (map id xs))
  unfolding validate_each
  validate_each-none i seen [] = (λ e. (tt, tt, tt), λ h. refl)
  validate_each-none i seen (x ∷ xs) =
      let (split, join) =
        also-none (check i seen x) (validate_each id check (suc i) (id x ∷ seen) xs) in
      let (to, from) = decides i seen x in
      let (tos, froms) = validate_each-none (suc i) (id x ∷ seen) xs in
      let (apart, together) = AreNew-cons (id x) seen (map id xs) in
      (
        λ e.
            let (new, fine) = to (split e).0 in
            let (fresh, all, distinct) = tos (split e).1 in
            let (others, olds) = apart fresh in ((new, olds), (fine, all), (others, distinct)),
        λ ((new, olds), (fine, all), (others, distinct)).
            join (from (new, fine), froms (together (others, olds), all, distinct)),
      )

  validate-All-none :
      (xs : List A) → (validate_each id check 0 [] xs ≡ none) ↔ (All P xs × AreDistinct (map id xs))
  validate-All-none xs =
      let (to, from) = validate_each-none 0 [] xs in
      (
        λ e. let (new, all, distinct) = to e in (all, distinct),
        λ (all, distinct). from (AreNew-nil (map id xs), all, distinct),
      )

version_iff :
    (n : ℤ)
    → ((ltb_ℤ (pos 0) n ≡ true) × (ltb_ℤ (pos schema_version_current) n ≡ false))
      ↔ (n ≡ pos schema_version_current)
version_iff (pos n) = ground arith
version_iff (negsuc n) = ground arith

-- A manifest passes exactly when its surface, versions and display name are there and its schema
-- version is the current one, it has a page, its pages, widgets and permissions are valid one by one
-- and no two pages, widgets or permissions share an id. A valid page has an id, a title, a path that
-- starts with a slash and a view of a supported kind, with a component if it is custom and with valid
-- fields, at least one, if it is a form.
pub validate_iff : (quote : Text → Text) (m : Manifest) → (validate quote m ≡ none) ↔ IsValid m
unfolding validate refuse_if validate_pages validate_widgets validate_permissions
validate_iff quote m = ground (
  arith,
  version_iff m.schema_version,
  no_items_iff m.pages,
  also-none (validate_pages quote m.pages)
      (validate_widgets quote m.widgets also validate_permissions quote m.permissions),
  also-none (validate_widgets quote m.widgets) (validate_permissions quote m.permissions),
  validate-All-none (λ p. p.id) (validate_page quote) IsValidPage (validate_page-none quote)
      m.pages,
  validate-All-none (λ w. w.id) (validate_widget quote) IsValidWidget (validate_widget-none quote)
      m.widgets,
  validate-All-none (λ p. p.id) (validate_permission quote) (λ p. IsFilled p.id)
      (validate_permission-none quote) m.permissions,
)

module _ (quote : Text → Text) where
  checked_iff :
      (r : Option Error) (k m : Manifest) → (checked quote k r ≡ inr m) ↔ ((k ≡ m) × (r ≡ none))
  unfolding checked
  checked_iff none k m = ground arith
  checked_iff (some err) k m = ground arith

  parsed_iff :
      (r : Error ⊎ Manifest) (m : Manifest) → (parsed quote r ≡ inr m) ↔ ((r ≡ inr m) × IsValid m)
  unfolding parsed
  parsed_iff (inl err) m = (λ e. cc, λ h. cc (h.0))
  parsed_iff (inr k) m =
      let (to, from) = checked_iff (validate quote k) k m in
      (
        λ e. (ap inr (to e).0, subst IsValid (to e).0 ((validate_iff quote k).0 (to e).1)),
        λ (same, valid).
            let eq : k ≡ m = ground arith in
            from (eq, (validate_iff quote k).1 (subst IsValid (sym eq) valid)),
      )

  loaded_iff :
      (unmarshal : Text → Error ⊎ Manifest) (path : Text) (r : Error ⊎ Text) (m : Manifest)
      → (loaded quote unmarshal path r ≡ inr m)
        ↔ ((raw : Text) × (r ≡ inr raw) × (unmarshal raw ≡ inr m) × IsValid m)
  unfolding loaded load_manifest_from_bytes
  loaded_iff unmarshal path (inl err) m = (λ e. cc, λ h. cc (h.1))
  loaded_iff unmarshal path (inr raw) m = (
    λ e. let (gives, valid) = (parsed_iff (unmarshal raw) m).0 e in (raw, refl, gives, valid),
    λ (raw', same, gives, valid).
        let eq : raw ≡ raw' = ground arith in
        (parsed_iff (unmarshal raw) m).1 (ap unmarshal eq ∙ gives, valid),
  )

-- A file is loaded as a manifest exactly when it can be read, its YAML gives that manifest, and the
-- manifest is valid: no invalid one is ever returned.
pub load_manifest_from_fs_iff :
    (quote : Text → Text) (unmarshal : Text → Error ⊎ Manifest) (read_file : Text → Error ⊎ Text)
    (path : Text) (m : Manifest)
    → (load_manifest_from_fs quote unmarshal read_file path ≡ inr m)
      ↔ ((raw : Text) × (read_file path ≡ inr raw) × (unmarshal raw ≡ inr m) × IsValid m)
unfolding load_manifest_from_fs
load_manifest_from_fs_iff quote unmarshal read_file path m =
    loaded_iff quote unmarshal path (read_file path) m
