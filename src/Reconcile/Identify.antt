-- ===== src/Reconcile/Identify.antt =====
-- sdk/reconcile/register.go: the identity of a resource, from the input of a destroy and from an
-- observed state. Floating point numbers are a parameter.
pub mod Rungs
use yggdrasil_sdk_go.Base.{Bool, Option, none, some, [], ◌∷◌, ◌++◌, if◌then◌else◌}
use yggdrasil_sdk_go.Base.Int.{ℤ}
use yggdrasil_sdk_go.Base.Texts.{Text, codes, is_empty, show_int}
use yggdrasil_sdk_go.Base.Dict.{Dict, get}

-- What `json.Unmarshal` puts into an `any`: a text, a float64, or a value of a kind that the code
-- does not look into (null, a Boolean, an array, an object).
pub data Any (F : Type 0) : Type 0 where
  str : Text → Any F
  num : F → Any F
  opaque_value : Any F

-- A float64: `x == 0`, the int64 that it equals if there is one, and its `%g`.
pub record Floats (F : Type 0) : Type 0 where
  pub is_zero : F → Bool
  pub to_int : F → Option ℤ
  pub general : F → Text

-- `if s != "" { return s }`, or else what follows.
or_else : Text → Text → Text
or_else s rest = if is_empty s then rest else s

module _ {F : Type 0} where
  -- `v, ok := m[key].(string)`, and "" where that fails
  as_string : Option (Any F) → Text
  as_string none = []
  as_string (some (str s)) = s
  as_string (some (num x)) = []
  as_string (some opaque_value) = []

  unfoldable pub string_at : Text → Dict (Any F) → Text
  unfolding as_string
  string_at key m = as_string (get key m)

  -- `owner + "/" + repo` where both are there, or else what follows.
  owner_repo_or : Dict (Any F) → Text → Text
  owner_repo_or m rest =
      if is_empty (string_at (codes "owner") m)
      then rest
      else if is_empty (string_at (codes "repo") m)
      then rest
      else string_at (codes "owner") m ++ (b'/' ∷ string_at (codes "repo") m)

  ref_of : Text → Dict (Any F) → Text
  unfolding owner_repo_or or_else
  ref_of resource m = or_else (string_at (codes "ref") m) (
      or_else (if is_empty resource then [] else string_at (resource ++ codes "_id") m) (
        or_else (string_at (codes "id") m)
          (owner_repo_or m (if is_empty resource then [] else string_at resource m))))

  -- `parse` is `json.Unmarshal` into a map.
  unfoldable pub infer_ref_from_input : (Text → Option (Dict (Any F))) → Text → Text → Text
  unfolding ref_of
  infer_ref_from_input parse input resource = elim (parse input) [
    | none ↦ []
    | some m ↦ ref_of resource m
  ]

  module _ (floats : Floats F) where
    float_text : F → Text
    float_text x =
        if floats.is_zero x
        then []
        else elim (floats.to_int x) [ some n ↦ show_int n | none ↦ floats.general x ]

    unfoldable pub coerce_to_nonempty_string : Option (Any F) → Text
    unfolding float_text
    coerce_to_nonempty_string none = []
    coerce_to_nonempty_string (some (str s)) = s
    coerce_to_nonempty_string (some (num x)) = float_text x
    coerce_to_nonempty_string (some opaque_value) = []

    unfoldable pub coerced_at : Text → Dict (Any F) → Text
    unfolding coerce_to_nonempty_string
    coerced_at key m = coerce_to_nonempty_string (get key m)

    probe_id : Text → Dict (Any F) → Text
    unfolding owner_repo_or or_else
    probe_id resource m = or_else (coerced_at (codes "id") m) (
        or_else (coerced_at (codes "ID") m) (
          or_else (coerced_at (codes "Id") m) (
            or_else (if is_empty resource then [] else coerced_at (resource ++ codes "_id") m) (
              owner_repo_or m (
                or_else (coerced_at (codes "full_name") m)
                  (if is_empty resource then [] else coerced_at resource m))))))

-- What `reflect` shows of an observed state.
pub data FieldValue : Type 0 where
  string_field : Text → FieldValue
  other_field : FieldValue

pub data GoValue : Type 0 where
  invalid nil_pointer other_kind : GoValue
  pointer : GoValue → GoValue
  struct : Dict FieldValue → GoValue

-- The first of the fields that is a string, empty or not.
string_field_or : Option FieldValue → Text → Text
string_field_or (some (string_field s)) rest = s
string_field_or (some other_field) rest = rest
string_field_or none rest = rest

struct_id : GoValue → Text
unfolding string_field_or
struct_id (struct fields) =
    string_field_or (get (codes "ID") fields) (string_field_or (get (codes "Id") fields) [])
struct_id invalid = []
struct_id nil_pointer = []
struct_id other_kind = []
struct_id (pointer v) = []

unfoldable pub reflect_id : GoValue → Text
unfolding struct_id
reflect_id (pointer v) = struct_id v
reflect_id (struct fields) = struct_id (struct fields)
reflect_id invalid = []
reflect_id nil_pointer = []
reflect_id other_kind = []

unfoldable pub infer_resource_id :
    {F : Type 0}
    → Floats F
    → (Text → Option (Dict (Any F)))
    → GoValue
    → (body resource : Text) → Text
unfolding or_else probe_id
infer_resource_id floats parse observed body resource =
    if is_empty (reflect_id observed)
    then elim (parse body) [ none ↦ [] | some m ↦ probe_id floats resource m ]
    else reflect_id observed
