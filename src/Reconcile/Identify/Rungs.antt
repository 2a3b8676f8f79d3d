-- ===== src/Reconcile/Identify/Rungs.antt =====
-- The precedence of the identities of sdk/reconcile/register.go.
use yggdrasil_sdk_go.Base.{
  Option, none, some, List, [], ◌∷◌, ◌++◌, ◌≡◌, if◌then◌else◌, refl, Option-cases, inl, inr,
}
use yggdrasil_sdk_go.Base.Texts.{Text, codes, is_empty}
use yggdrasil_sdk_go.Base.Dict.{Dict}
use yggdrasil_sdk_go.Reconcile.Identify.{
  Any, Floats, string_at, coerced_at, owner_repo_or, or_else, ref_of, infer_ref_from_input,
  probe_id, GoValue, reflect_id, infer_resource_id,
}

-- The first text that is not empty.
pub first_nonempty : List Text → Text
first_nonempty [] = []
first_nonempty ([] ∷ more) = first_nonempty more
first_nonempty ((c ∷ s) ∷ more) = c ∷ s

-- Both parts joined by a slash, or "" where one is missing.
pub joined : Text → Text → Text
joined [] repo = []
joined (c ∷ s) [] = []
joined (c ∷ s) (d ∷ t) = (c ∷ s) ++ (b'/' ∷ d ∷ t)

-- A rung that is skipped where the resource has no name.
pub named : Text → Text → Text
named [] s = []
named (c ∷ r) s = s

module _ (rest : Text) (more : List Text) (h : rest ≡ first_nonempty more) where
  or_else_lem : (s : Text) → or_else s rest ≡ first_nonempty (s ∷ more)
  unfolding or_else first_nonempty
  or_else_lem [] = h
  or_else_lem (c ∷ s) = refl

  owner_repo_lem :
      {F : Type 0} (m : Dict (Any F))
      → owner_repo_or m rest
        ≡ first_nonempty (joined (string_at (codes "owner") m) (string_at (codes "repo") m) ∷ more)
  unfolding owner_repo_or
  owner_repo_lem m = go (string_at (codes "owner") m) (string_at (codes "repo") m)
    where
      go :
          (owner repo : Text)
          → (if is_empty owner
              then rest
              else if is_empty repo
              then rest
              else owner ++ (b'/' ∷ repo))
            ≡ first_nonempty (joined owner repo ∷ more)
      go [] repo = unfold first_nonempty joined in h
      go (c ∷ s) [] = unfold first_nonempty joined in h
      go (c ∷ s) (d ∷ t) = unfold first_nonempty joined in refl

named_last :
    (resource s : Text)
    → (if is_empty resource then [] else s) ≡ first_nonempty (named resource s ∷ [])
unfolding named first_nonempty
named_last [] s = refl
named_last (c ∷ r) [] = refl
named_last (c ∷ r) (d ∷ s) = refl

named_lem : (resource s : Text) → (if is_empty resource then [] else s) ≡ named resource s
unfolding named
named_lem [] s = refl
named_lem (c ∷ r) s = refl

-- The rungs of a destroy's input, in order.
abbrev pub ref_rungs : {F : Type 0} → Text → Dict (Any F) → List Text
ref_rungs resource m =
    string_at (codes "ref") m
    ∷ named resource (string_at (resource ++ codes "_id") m)
    ∷ string_at (codes "id") m
    ∷ joined (string_at (codes "owner") m) (string_at (codes "repo") m)
    ∷ named resource (string_at resource m)
    ∷ []

ref_of_lem :
    {F : Type 0} (resource : Text) (m : Dict (Any F))
    → ref_of resource m ≡ first_nonempty (ref_rungs resource m)
unfolding ref_of
ref_of_lem resource m =
    or_else_lem _ _
      (rw named_lem (
        or_else_lem _ _
          (or_else_lem _ _ (owner_repo_lem _ _ (named_last resource (string_at resource m)) m) _)
          _))
      _

-- The rungs of a parsed object, or none of them.
pub rungs_of : {F : Type 0} → (Dict (Any F) → List Text) → Option (Dict (Any F)) → List Text
rungs_of rungs none = []
rungs_of rungs (some m) = rungs m

-- The identity of a destroy is the first that is not empty of the input's `ref`, `<resource>_id`,
-- `id`, `owner/repo` and `<resource>`, each counted only where it is a text; it is empty where the
-- input is no JSON object.
pub infer_ref_from_input_lem :
    {F : Type 0} (parse : Text → Option (Dict (Any F))) (input resource : Text)
    → infer_ref_from_input parse input resource
      ≡ first_nonempty (rungs_of (ref_rungs resource) (parse input))
unfolding infer_ref_from_input rungs_of
infer_ref_from_input_lem parse input resource = elim (Option-cases (parse input)) [
  | inl bad ↦ rw (bad, infer_ref_from_input) (unfold first_nonempty in refl)
  | inr (m, good) ↦ rw (good, infer_ref_from_input) (ref_of_lem resource m)
]

-- The rungs of an observed state's JSON, in order.
abbrev pub probe_rungs : {F : Type 0} → Floats F → Text → Dict (Any F) → List Text
probe_rungs floats resource m =
    coerced_at floats (codes "id") m
    ∷ coerced_at floats (codes "ID") m
    ∷ coerced_at floats (codes "Id") m
    ∷ named resource (coerced_at floats (resource ++ codes "_id") m)
    ∷ joined (string_at (codes "owner") m) (string_at (codes "repo") m)
    ∷ coerced_at floats (codes "full_name") m
    ∷ named resource (coerced_at floats resource m)
    ∷ []

probe_id_lem :
    {F : Type 0} (floats : Floats F) (resource : Text) (m : Dict (Any F))
    → probe_id floats resource m ≡ first_nonempty (probe_rungs floats resource m)
unfolding probe_id
probe_id_lem floats resource m =
    let last =
      or_else_lem _ _ (named_last resource (coerced_at floats resource m))
        (coerced_at floats (codes "full_name") m) in
    or_else_lem _ _
      (or_else_lem _ _
        (or_else_lem _ _ (rw named_lem (or_else_lem _ _ (owner_repo_lem _ _ last m) _)) _) _)
      _

-- The identity of an observed state is the string field `ID` or `Id` of its struct if that is not
-- empty, and otherwise the first that is not empty of its JSON's `id`, `ID`, `Id`, `<resource>_id`,
-- `owner/repo`, `full_name` and `<resource>`.
pub infer_resource_id_lem :
    {F : Type 0} (floats : Floats F) (parse : Text → Option (Dict (Any F))) (observed : GoValue)
    (body resource : Text)
    → infer_resource_id floats parse observed body resource
      ≡ first_nonempty (reflect_id observed ∷ rungs_of (probe_rungs floats resource) (parse body))
unfolding infer_resource_id rungs_of
infer_resource_id_lem floats parse observed body resource = elim (Option-cases (parse body)) [
  | inl bad ↦ rw bad (or_else_lem [] [] (unfold first_nonempty in refl) (reflect_id observed))
  | inr (m, good) ↦ rw good (
      or_else_lem (probe_id floats resource m) (probe_rungs floats resource m)
        (probe_id_lem floats resource m) (reflect_id observed))
]
