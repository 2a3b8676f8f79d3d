-- ===== src/Amqp/Delivery/Headers.antt =====
-- The headers of a message of rpc/amqp/amqp.go, there and back.
use mathlib.Core.List.{append-nil}
use yggdrasil_sdk_go.Base.{
  true, false, List, [], ◌∷◌, ◌++◌, ◌≡◌, inl, inr, refl, arith, sym, ap, ◌∙◌, Bool-cases,
}
use yggdrasil_sdk_go.Base.Texts.{Text, text_eq, text_eq_iff}
use yggdrasil_sdk_go.Base.Dict.{Dict, get, put, is_absent, IsMap}
use yggdrasil_sdk_go.Amqp.Delivery.{
  HeaderValue, str, set_header, headers_onto, table_to_string_headers, table_onto,
  string_headers_to_table,
}

all_str : Dict Text → Dict HeaderValue
all_str [] = []
all_str ((k, v) ∷ m) = (k, str v) ∷ all_str m

module _ {ℓ} {V : Type ℓ} where
  put_new :
      (k : Text) (v : V) (t : Dict V) → is_absent (get k t) ≡ true → put k v t ≡ t ++ (k, v) ∷ []
  unfolding get put
  put_new k v [] h = refl
  put_new k v ((j, w) ∷ t) h = ground (arith, put_new k v t)

  get-snoc :
      (j k : Text) (v : V) (t : Dict V)
      → is_absent (get j t) ≡ true
      → text_eq k j ≡ false
      → is_absent (get j (t ++ (k, v) ∷ [])) ≡ true
  unfolding get
  get-snoc j k v [] h other = ground arith
  get-snoc j k v ((i, w) ∷ t) h other = ground (arith, get-snoc j k v t)

  -- No key of the first stands in the second.
  abbrev AreNew {κ} : {W : Type κ} → Dict W → Dict V → Type 0
  AreNew [] t = Unit
  AreNew ((k, v) ∷ m) t = (is_absent (get k t) ≡ true) × AreNew m t

  AreNew-snoc {κ} :
      {W : Type κ} (m : Dict W) (k : Text) (v : V) (t : Dict V)
      → is_absent (get k m) ≡ true
      → AreNew m t
      → AreNew m (t ++ (k, v) ∷ [])
  unfolding get
  AreNew-snoc [] k v t absent new = tt
  AreNew-snoc ((j, w) ∷ m) k v t absent (here, new) = elim (Bool-cases (text_eq j k)) [
    | inl same ↦ absurd (ground arith)
    | inr differ ↦ (
      get-snoc j k v t here (ground (arith, text_eq_iff j k, text_eq_iff k j)),
      AreNew-snoc m k v t (ground arith) new,
    )
  ]

AreNew-nil {ℓ κ} : (V : Type ℓ) {W : Type κ} (m : Dict W) → AreNew {V = V} m []
unfolding get
AreNew-nil V [] = tt
AreNew-nil V ((k, v) ∷ m) = (refl, AreNew-nil V m)

append_snoc {ℓ} : {A : Type ℓ} (xs ys : List A) (x : A) → (xs ++ x ∷ []) ++ ys ≡ xs ++ (x ∷ ys)
append_snoc [] ys x = refl
append_snoc (z ∷ xs) ys x = ap (λ t. z ∷ t) (append_snoc xs ys x)

table_onto_new :
    (m : Dict Text) (t : Dict HeaderValue) → IsMap m → AreNew m t → table_onto m t ≡ t ++ all_str m
unfolding table_onto all_str
table_onto_new [] t h new = sym (append-nil t)
table_onto_new ((k, v) ∷ m) t (absent, h) (here, new) = rw (put_new k (str v) t here) (
    table_onto_new m (t ++ (k, str v) ∷ []) h (AreNew-snoc m k (str v) t absent new)
    ∙ append_snoc t (all_str m) (k, str v))

headers_onto_new : (m t : Dict Text) → IsMap m → AreNew m t → headers_onto (all_str m) t ≡ t ++ m
unfolding headers_onto set_header all_str
headers_onto_new [] t h new = sym (append-nil t)
headers_onto_new ((k, v) ∷ m) t (absent, h) (here, new) =
    ap (headers_onto (all_str m)) (put_new k v t here)
    ∙ headers_onto_new m (t ++ (k, v) ∷ []) h (AreNew-snoc m k v t absent new)
    ∙ append_snoc t m (k, v)

-- The headers of a message reach the consumer as they were.
pub headers_round_trip :
    (m : Dict Text) → IsMap m → table_to_string_headers (string_headers_to_table m) ≡ m
unfolding table_to_string_headers string_headers_to_table
headers_round_trip m h =
    ap (λ t. headers_onto t []) (table_onto_new m [] h (AreNew-nil HeaderValue m))
    ∙ headers_onto_new m [] h (AreNew-nil Text m)
