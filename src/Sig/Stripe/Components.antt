-- ===== src/Sig/Stripe/Components.antt =====
-- What the loop of `VerifyStripe` of sig/hmac/stripe.go collects of a header.
use mathlib.Core.List.{append-nil, append_assoc}
use yggdrasil_sdk_go.Base.{
  false, Option, none, some, List, [], ◌∷◌, ◌++◌, ◌≡◌, inl, inr, refl, ap, ◌∙◌, Bool-cases,
  if◌then◌else◌,
}
use yggdrasil_sdk_go.Base.Texts.{Text, codes, text_eq, text_eq_iff, trim_space, cut}
use yggdrasil_sdk_go.Sig.Stripe.{Parts, add_component, add_parts}

-- The value of a component under a key: its text behind the first "=", where its text before that is the
-- key, with the blanks around the component left out.
value_of : Text → Option (Text × Text) → List Text
value_of key none = []
value_of key (some (k, v)) = if text_eq k key then v ∷ [] else []

-- The values that the components of a header have under a key, in their order.
pub values : Text → List Text → List Text
unfolding value_of
values key [] = []
values key (part ∷ more) = value_of key (cut b'=' (trim_space part)) ++ values key more

-- The last of the values, or another text where there is none.
unfoldable pub last_or : Text → List Text → Text
last_or v [] = v
last_or v (w ∷ ws) = last_or w ws

pub last_or-append : (v w : Text) (ws : List Text) → last_or v (ws ++ w ∷ []) ≡ w
unfolding last_or
last_or-append v w [] = refl
last_or-append v w (x ∷ ws) = last_or-append x w ws

-- Where there is a last value, it ends the list.
pub append-last_or :
    (v : Text) (ws : List Text) → (earlier : List Text) × (v ∷ ws ≡ earlier ++ last_or v ws ∷ [])
unfolding last_or
append-last_or v [] = ([], refl)
append-last_or v (w ∷ ws) =
    let (earlier, e) = append-last_or w ws in (v ∷ earlier, ap (λ l. v ∷ l) e)

keys_apart : text_eq (codes "t") (codes "v1") ≡ false
unfolding text_eq
keys_apart = refl

-- One component, behind those that were collected.
add_component_lem :
    (o : Option (Text × Text)) (p : Parts)
    → add_component o p ≡ record {
      ts_str = last_or p.ts_str (value_of (codes "t") o);
      sigs = p.sigs ++ value_of (codes "v1") o;
    }
unfolding add_component value_of last_or
add_component_lem none p = rw (append-nil p.sigs) refl
add_component_lem (some (k, v)) p = elim (Bool-cases (text_eq k (codes "t"))) [
  | inl t ↦
      let k_is_t : k ≡ codes "t" = (text_eq_iff k (codes "t")).0 t in
      let other : text_eq k (codes "v1") ≡ false = rw k_is_t keys_apart in
      rw (t, other, append-nil p.sigs) refl
  | inr not_t ↦ elim (Bool-cases (text_eq k (codes "v1"))) [
    | inl v1 ↦ rw (not_t, v1) refl
    | inr neither ↦ rw (not_t, neither, append-nil p.sigs) refl
  ]
]

last_or_twice : (v : Text) (vs ws : List Text) → last_or (last_or v vs) ws ≡ last_or v (vs ++ ws)
unfolding last_or
last_or_twice v [] ws = refl
last_or_twice v (w ∷ vs) ws = last_or_twice w vs ws

pub add_parts_lem :
    (parts : List Text) (p : Parts)
    → add_parts parts p ≡ record {
      ts_str = last_or p.ts_str (values (codes "t") parts);
      sigs = p.sigs ++ values (codes "v1") parts;
    }
unfolding add_parts values last_or
add_parts_lem [] p = rw (append-nil p.sigs) refl
add_parts_lem (part ∷ more) p =
    let o = cut b'=' (trim_space part) in
    rw (add_component_lem o p) (
      add_parts_lem more (record {
        ts_str = last_or p.ts_str (value_of (codes "t") o);
        sigs = p.sigs ++ value_of (codes "v1") o;
      })
      ∙ (λ i. record {
        ts_str = last_or_twice p.ts_str (value_of (codes "t") o) (values (codes "t") more) i;
        sigs = append_assoc p.sigs (value_of (codes "v1") o) (values (codes "v1") more) i;
      }))
