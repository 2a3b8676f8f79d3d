-- ===== src/Surface/Handlers/Limits.antt =====
-- The actions of surface/handler.go and the limit on their bodies.
use yggdrasil_sdk_go.Base.{
  ℕ, zero, suc, ◌+◌, ◌≤◌, some, List, [], ◌∷◌, ◌≡◌, ◌≢◌, ◌⊎◌, inl, inr, refl, arith, length, take,
  leb, if◌then◌else◌, Bool-cases, ap,
}
use yggdrasil_sdk_go.Base.Texts.{Text, codes, show_nat}
use yggdrasil_sdk_go.Rpc.{Error, message, error_text}
use yggdrasil_sdk_go.Surface.Handlers.{
  DataHandler, ActionRequest, Value, action_call, error_body, write_json, Served,
  max_action_body_bytes, read_action_body, within_limit, result_answer, bad_request, call_action,
  serve_action,
}

length-take {ℓ} :
    {A : Type ℓ} (n : ℕ) (xs : List A) → leb (length (take (n + 1) xs)) n ≡ leb (length xs) n
length-take zero [] = refl
length-take zero (x ∷ xs) = ground arith
length-take (suc n) [] = ground arith
length-take (suc n) (x ∷ xs) = ground (arith, length-take n xs)

take_all {ℓ} : {A : Type ℓ} (n : ℕ) (xs : List A) → length xs ≤ n → take n xs ≡ xs
take_all zero [] h = refl
take_all zero (x ∷ xs) h = absurd (omega arith)
take_all (suc n) [] h = refl
take_all (suc n) (x ∷ xs) h = ap (λ t. x ∷ t) (take_all n xs (omega arith))

-- What is read behind the limit is enough to tell a long body.
read_limited :
    (content : Text) (read : ℕ → Error ⊎ Text)
    → ((n : ℕ) → read n ≡ inr (take n content))
    → read_action_body (some read) ≡ (
        if leb (length content) max_action_body_bytes
        then inr content
        else inl (message (codes "action body exceeds 524288 bytes")))
unfolding read_action_body show_nat
read_limited content read reads = elim (Bool-cases (leb (length content) max_action_body_bytes)) [
  | inl fits ↦
      rw
        (
          reads (max_action_body_bytes + 1),
          within_limit,
          length-take max_action_body_bytes content,
          fits,
        )
        (ap inr (take_all (max_action_body_bytes + 1) content (ground arith)))
  | inr long ↦ rw (
    reads (max_action_body_bytes + 1),
    within_limit,
    length-take max_action_body_bytes content,
    long,
  )
]

module _ {H V : Type 0} (encode : Value V → Error ⊎ Text) where
  abbrev pub handed_over : DataHandler H V → ActionRequest H → Served H
  handed_over h req = record {
    calls = action_call req ∷ [];
    answer = result_answer encode (h.handle_action req);
  }

  abbrev pub too_long : Served H
  too_long = record {
    calls = [];
    answer = write_json encode 400 (some (error_body (codes "action body exceeds 524288 bytes")));
  }

module _ {H V : Type 0} (encode : Value V → Error ⊎ Text) (h : DataHandler H V) where
  -- An action that is named and whose body can be read is handed to the handler if its body has at
  -- most 524288 bytes, and then once, with the whole body; a longer one, whatever its length, is
  -- answered 400 with the limit's message, and the handler is not called.
  pub serve_action_limited :
      (action_id content : Text) (header : H) (read : ℕ → Error ⊎ Text)
      → action_id ≢ []
      → ((n : ℕ) → read n ≡ inr (take n content))
      → serve_action encode h action_id (some read) header ≡ (
          if leb (length content) 524288
          then handed_over encode h
              (record { action_id = action_id; body = content; header = header })
          else too_long encode)
  unfolding serve_action error_text
  serve_action_limited [] content header read named reads = absurd (named refl)
  serve_action_limited (c ∷ cs) content header read named reads =
      elim (Bool-cases (leb (length content) max_action_body_bytes)) [
        | inl fits ↦ rw (read_limited content read reads, fits, call_action)
        | inr long ↦ rw (read_limited content read reads, long, call_action, bad_request)
      ]
