-- ===== src/Reconcile/Registry/Lookup.antt =====
-- Which operation stands under a name after a registration: sdk/reconcile/register.go.
use yggdrasil_sdk_go.Base.{
  false, Option, none, some, List, [], ◌∷◌, ◌≡◌, refl, ap, ◌∙◌, inl, inr, ◌⊎◌, arith, All,
  if◌then◌else◌, Bool-cases, Option-cases,
}
use yggdrasil_sdk_go.Base.Texts.{Text, is_empty, text_eq, text_eq_iff, text_eq_refl}
use yggdrasil_sdk_go.Base.Dict.{Dict, get, get-put}
use yggdrasil_sdk_go.Reconcile.Emission.{EmitContext, Clock}
use yggdrasil_sdk_go.Reconcile.Operations.{
  Reconciler, Codec, Operation, make_ensure_fn, make_observe_fn, make_destroy_fn,
}
use yggdrasil_sdk_go.Reconcile.Registry.{
  Options, Site, entries, table_for, warn_missing_emitter_once, warn_shim, Names, names_of,
  canonical_of, add_legacy, normalize, add_legacies, context_of, add_entries, warned_site,
  register_named,
}

-- None of the legacy names is the name.
abbrev pub NoneIs : (Text → Text) → Text → List Text → Type 0
NoneIs unicode name legacies = All (λ l. text_eq (normalize unicode l) name ≡ false) legacies

-- One of them is.
abbrev pub OneIs : (Text → Text) → Text → List Text → Type 0
OneIs unicode name [] = ⊥
OneIs unicode name (l ∷ more) = (normalize unicode l ≡ name) ⊎ OneIs unicode name more

module _ (names : Names) where
  -- A legacy name changes no other entry.
  add_legacy_other :
      (legacy name : Text) (t : Dict Operation)
      → text_eq legacy name ≡ false
      → get name (add_legacy names legacy t) ≡ get name t
  unfolding add_legacy
  add_legacy_other [] name t h = refl
  add_legacy_other (c ∷ s) name t h = elim (Option-cases (get (canonical_of names (c ∷ s)) t)) [
    | inl missing ↦ rw missing refl
    | inr (f, there) ↦ rw there (get-put name (c ∷ s) _ t ∙ (rw h))
  ]

  -- It gets the canonical operation behind a warning.
  add_legacy_self :
      (legacy : Text) (f : Operation) (t : Dict Operation)
      → is_empty legacy ≡ false
      → get (canonical_of names legacy) t ≡ some f
      → get legacy (add_legacy names legacy t)
        ≡ some (warn_shim legacy (canonical_of names legacy) f)
  unfolding add_legacy
  add_legacy_self legacy f t some_name there =
      rw (some_name, there) (get-put legacy legacy _ t ∙ (rw text_eq_refl))

  module _ (unicode : Text → Text) where
    pub add_legacies_other :
        (legacies : List Text) (name : Text) (t : Dict Operation)
        → NoneIs unicode name legacies
        → get name (add_legacies unicode names legacies t) ≡ get name t
    unfolding add_legacies
    add_legacies_other [] name t h = refl
    add_legacies_other (l ∷ more) name t (other, h) =
        add_legacies_other more name (add_legacy names (normalize unicode l) t) h
        ∙ add_legacy_other (normalize unicode l) name t other

    module _ (name : Text) (f : Operation) (some_name : is_empty name ≡ false) where
      abbrev shimmed : Option Operation
      shimmed = some (warn_shim name (canonical_of names name) f)

      add_legacy_again :
          (legacy : Text) (t : Dict Operation)
          → get name t ≡ shimmed
          → get (canonical_of names name) t ≡ some f
          → get name (add_legacy names legacy t) ≡ shimmed
      add_legacy_again legacy t here there = elim (Bool-cases (text_eq legacy name)) [
        | inl same ↦
            rw ((text_eq_iff legacy name).0 same) (add_legacy_self name f t some_name there)
        | inr other ↦ add_legacy_other legacy name t other ∙ here
      ]

      -- A legacy name that has its operation keeps it.
      add_legacies_keep :
          (legacies : List Text) (t : Dict Operation)
          → NoneIs unicode (canonical_of names name) legacies
          → get name t ≡ shimmed
          → get (canonical_of names name) t ≡ some f
          → get name (add_legacies unicode names legacies t) ≡ shimmed
      unfolding add_legacies
      add_legacies_keep [] t h here there = here
      add_legacies_keep (l ∷ more) t (other, h) here there =
          add_legacies_keep more (add_legacy names (normalize unicode l) t) h
            (add_legacy_again (normalize unicode l) t here there)
            (add_legacy_other (normalize unicode l) (canonical_of names name) t other ∙ there)

      pub add_legacies_listed :
          (legacies : List Text) (t : Dict Operation)
          → OneIs unicode name legacies
          → NoneIs unicode (canonical_of names name) legacies
          → get (canonical_of names name) t ≡ some f
          → get name (add_legacies unicode names legacies t) ≡ shimmed
      unfolding add_legacies
      add_legacies_listed [] t one h there = absurd one
      add_legacies_listed (l ∷ more) t (inl same) (other, h) there =
          add_legacies_keep more (add_legacy names (normalize unicode l) t) h
            (rw same (add_legacy_self name f t some_name there))
            (add_legacy_other (normalize unicode l) (canonical_of names name) t other ∙ there)
      add_legacies_listed (l ∷ more) t (inr later) (other, h) there =
          add_legacies_listed more (add_legacy names (normalize unicode l) t) later h
            (add_legacy_other (normalize unicode l) (canonical_of names name) t other ∙ there)

module _ {D O F : Type 0} (codec : Codec D O F) (clock : Clock) (r : Reconciler D O) where
  -- The operation of a name of the resource, and what stood there of any other.
  abbrev pub canonical_entry : Names → EmitContext → Text → Option Operation → Option Operation
  canonical_entry names ec name before =
      if text_eq names.destroy_name name
      then some (make_destroy_fn codec clock r ec)
      else if text_eq names.observe_name name
      then some (make_observe_fn codec clock r)
      else if text_eq names.ensure_name name
      then some (make_ensure_fn codec clock r ec)
      else before

  pub get-add_entries :
      (names : Names) (ec : EmitContext) (name : Text) (t : Dict Operation)
      → get name (add_entries codec clock r names ec t) ≡ canonical_entry names ec name (get name t)
  unfolding add_entries
  get-add_entries names ec name t = simp get-put

entries-table_for : (unicode : Text → Text) (s : Site) → entries (table_for unicode s) ≡ entries s
unfolding table_for
entries-table_for unicode s = ground arith

table-warn : (resource : Text) (s : Site) → (warn_missing_emitter_once resource s).0.table ≡ s.table
unfolding warn_missing_emitter_once
table-warn resource s = ground arith

module _ {D O F : Type 0} (codec : Codec D O F) (clock : Clock) (r : Reconciler D O) where
  table-warned_site :
      (resource : Text) (cfg : Options) (s : Site)
      → (warned_site codec clock r resource cfg s).0.table ≡ s.table
  unfolding warned_site
  table-warned_site resource cfg s = ground (arith, table-warn resource s)

  -- The table behind a registration.
  pub entries-register_named :
      (unicode : Text → Text) (resource resource_type : Text) (cfg : Options) (s : Site)
      → entries (register_named codec clock r unicode resource resource_type cfg s).0
        ≡ add_legacies unicode (names_of resource resource_type) cfg.legacy_names (
            add_entries codec clock r
              (names_of resource resource_type)
              (context_of codec clock r resource cfg)
              (entries s))
  unfolding register_named
  entries-register_named unicode resource resource_type cfg s =
      ap
        (λ t. add_legacies unicode (names_of resource resource_type) cfg.legacy_names (
          add_entries codec clock r (names_of resource resource_type)
            (context_of codec clock r resource cfg) t))
        (entries-table_for unicode (warned_site codec clock r resource cfg s).0
          ∙ ap (λ (o : Option (Dict Operation)). elim o [ none ↦ [] | some t ↦ t ])
              (table-warned_site resource cfg s))

  -- After a registration, a name that is none of its legacy names has the operation of the resource
  -- whose name it is, and that of any other name is as it was.
  pub get-register_named :
      (unicode : Text → Text) (resource resource_type name : Text) (cfg : Options) (s : Site)
      → NoneIs unicode name cfg.legacy_names
      → get name (entries (register_named codec clock r unicode resource resource_type cfg s).0)
        ≡ canonical_entry codec clock r
            (names_of resource resource_type)
            (context_of codec clock r resource cfg)
            name
            (get name (entries s))
  get-register_named unicode resource resource_type name cfg s none_is =
      ap (get name) (entries-register_named unicode resource resource_type cfg s)
      ∙ add_legacies_other (names_of resource resource_type) unicode cfg.legacy_names name _ none_is
      ∙ get-add_entries codec clock r (names_of resource resource_type)
          (context_of codec clock r resource cfg) name (entries s)

  -- After a registration, a legacy name runs the operation that its prefix picks, behind a warning,
  -- where no legacy name of the registration is the canonical name of that operation.
  pub get-register_named_legacy :
      (unicode : Text → Text) (resource resource_type name : Text) (cfg : Options) (s : Site)
      (f : Operation)
      → is_empty name ≡ false
      → OneIs unicode name cfg.legacy_names
      → NoneIs unicode (canonical_of (names_of resource resource_type) name) cfg.legacy_names
      → canonical_entry codec clock r
          (names_of resource resource_type)
          (context_of codec clock r resource cfg)
          (canonical_of (names_of resource resource_type) name)
          (get (canonical_of (names_of resource resource_type) name) (entries s))
        ≡ some f
      → get name (entries (register_named codec clock r unicode resource resource_type cfg s).0)
        ≡ some (warn_shim name (canonical_of (names_of resource resource_type) name) f)
  get-register_named_legacy unicode resource resource_type name cfg s f some_name one others e =
      let names = names_of resource resource_type in
      ap (get name) (entries-register_named unicode resource resource_type cfg s)
      ∙ add_legacies_listed names unicode name f some_name cfg.legacy_names _ one others (
          get-add_entries codec clock r names (context_of codec clock r resource cfg)
            (canonical_of names name) (entries s)
          ∙ e)
