-- ===== src/Sig/Stripe/Signing.antt =====
-- A header made as Stripe makes it is accepted by sig/hmac/stripe.go.
use yggdrasil_sdk_go.Base.{false, none, [], ◌∷◌, ◌++◌, ◌≡◌, refl, ap, ◌∙◌, inl, arith, All}
use yggdrasil_sdk_go.Base.Int.{ℤ, IsInt64}
use yggdrasil_sdk_go.Base.Texts.{
  Text, text_eq, trim_space, trim_space_visible, IsToken-IsVisible, IsToken, split_on,
  split_on-append, split_on_of_Lacks, Lacks-comma, cut, hex_encode, hex_encode-IsToken,
  hex_decode-hex_encode, IsBytes, show_int, show_int-IsToken, parse_int-show_int,
}
use yggdrasil_sdk_go.Sig.Stripe.{
  Parts, add_component, add_parts, parse_header, is_expired, signed_payload, verify_stripe,
}
use yggdrasil_sdk_go.Sig.Stripe.Accepts.{verify_stripe_parsed_iff}

-- `t=<timestamp>,v1=<signature>`
abbrev pub header_of : Text → Text → Text
header_of t sig = (b't' ∷ b'=' ∷ t) ++ (b',' ∷ b'v' ∷ b'1' ∷ b'=' ∷ sig)

timestamp_component :
    (t : Text) (p : Parts)
    → All IsToken t
    → add_component (cut b'=' (trim_space (b't' ∷ b'=' ∷ t))) p ≡ record p { ts_str = t }
unfolding add_component cut text_eq
timestamp_component t p h =
    rw
      (trim_space_visible (b't' ∷ b'=' ∷ t)
        (IsToken-IsVisible (b't' ∷ b'=' ∷ t) (omega arith, (omega arith, h))))
      refl

signature_component :
    (sig : Text) (p : Parts)
    → All IsToken sig
    → add_component (cut b'=' (trim_space (b'v' ∷ b'1' ∷ b'=' ∷ sig))) p
      ≡ record p { sigs = p.sigs ++ sig ∷ [] }
unfolding add_component cut text_eq
signature_component sig p h =
    rw
      (trim_space_visible (b'v' ∷ b'1' ∷ b'=' ∷ sig) (
        IsToken-IsVisible (b'v' ∷ b'1' ∷ b'=' ∷ sig)
          (omega arith, (omega arith, (omega arith, h)))))
      refl

add_parts_two :
    (a b : Text) (p : Parts)
    → add_parts (a ∷ b ∷ []) p
      ≡ add_component (cut b'=' (trim_space b)) (add_component (cut b'=' (trim_space a)) p)
unfolding add_parts
add_parts_two a b p = refl

header_split :
    (t sig : Text)
    → All IsToken t
    → All IsToken sig
    → split_on b',' (header_of t sig) ≡ (b't' ∷ b'=' ∷ t) ∷ (b'v' ∷ b'1' ∷ b'=' ∷ sig) ∷ []
header_split t sig ht hs =
    split_on-append b',' (b't' ∷ b'=' ∷ t) (b'v' ∷ b'1' ∷ b'=' ∷ sig)
      (refl, (refl, Lacks-comma t ht))
    ∙ ap (λ r. (b't' ∷ b'=' ∷ t) ∷ r)
        (split_on_of_Lacks b',' (b'v' ∷ b'1' ∷ b'=' ∷ sig)
          (refl, (refl, (refl, Lacks-comma sig hs))))

parse_header_of_split :
    (header : Text)
    → parse_header header ≡ add_parts (split_on b',' header) (record { ts_str = []; sigs = [] })
unfolding parse_header
parse_header_of_split header = refl

pub parse_header-header_of :
    (t sig : Text)
    → All IsToken t
    → All IsToken sig
    → parse_header (header_of t sig) ≡ record { ts_str = t; sigs = sig ∷ [] }
parse_header-header_of t sig ht hs =
    parse_header_of_split (header_of t sig)
    ∙ ap (λ l. add_parts l (record { ts_str = []; sigs = [] })) (header_split t sig ht hs)
    ∙ add_parts_two _ _ _
    ∙ ap (add_component (cut b'=' (trim_space (b'v' ∷ b'1' ∷ b'=' ∷ sig))))
        (timestamp_component t (record { ts_str = []; sigs = [] }) ht)
    ∙ signature_component sig (record { ts_str = t; sigs = [] }) hs

-- A header `t=<timestamp>,v1=<MAC in hexadecimal>`, made with the same secret for the same payload,
-- is accepted with its timestamp, for every int64 timestamp inside the window.
pub verify_stripe_signed :
    (mac : Text → Text → Text) (now : ℤ) (payload secret : Text) (tolerance ts : ℤ)
    → IsInt64 ts
    → IsBytes (mac secret (signed_payload ts payload))
    → is_expired now ts tolerance ≡ false
    → verify_stripe mac now payload secret tolerance
        (header_of (show_int ts) (hex_encode (mac secret (signed_payload ts payload))))
      ≡ (ts, none)
verify_stripe_signed mac now payload secret tolerance ts range bytes fresh =
    let sig = hex_encode (mac secret (signed_payload ts payload)) in
    let header = header_of (show_int ts) sig in
    let parsed =
      parse_header-header_of (show_int ts) sig (show_int-IsToken ts) (hex_encode-IsToken _ bytes) in
    (verify_stripe_parsed_iff mac now payload secret tolerance ts header).1 (
      rw parsed (record {
        timestamp = parse_int-show_int ts range;
        fresh = fresh;
        signed = inl (hex_decode-hex_encode _ bytes);
      }))
