-- ===== src/Sig/Hub/Accepts.antt =====
-- When `VerifyHubSignature256` of sig/hmac/github.go accepts, and that webhookhttp/helpers.go reads the
-- same signatures.
use yggdrasil_sdk_go.Base.{
  Option, none, some, ◌++◌, ==_iff, ◌≡◌, ◌↔◌, refl, length, arith, All, All-append,
}
use yggdrasil_sdk_go.Base.Texts.{
  Text, text_eq_iff, trim_space, trim_space_visible, IsToken-IsVisible, IsToken, without_prefix,
  without_prefix_iff, hex_decode, hex_encode, hex_encode-IsToken, length-hex_encode,
  hex_decode-hex_encode, IsBytes,
}
use yggdrasil_sdk_go.Sig.Hub.{
  prefix, sized, compare_digest, compare_hex, verify_hub_signature256, parse_hmac_sha256_signature,
}

module _ (expected : Text) where
  compare_digest_iff : (o : Option Text) → (compare_digest expected o ≡ none) ↔ (o ≡ some expected)
  unfolding compare_digest
  compare_digest_iff none = ground arith
  compare_digest_iff (some got) = ground (arith, text_eq_iff got expected)

  compare_hex_iff :
      (o : Option Text)
      → (compare_hex expected o ≡ none)
        ↔ ((hex : Text) × (o ≡ some hex) × (hex_decode hex ≡ some expected))
  unfolding compare_hex
  compare_hex_iff none = (λ e. cc, λ h. cc (h.1))
  compare_hex_iff (some hex) = (
    λ e. (hex, refl, (compare_digest_iff (hex_decode hex)).0 e),
    λ (x, e, d). (compare_digest_iff (hex_decode hex)).1 (cc (e, d)),
  )

-- A header is accepted exactly when `ParseHMACSHA256Signature` finds a signature in it that is, in
-- hexadecimal, the MAC of the payload under the secret.
pub verify_hub_signature256_iff :
    (mac : Text → Text → Text) (payload header secret : Text)
    → (verify_hub_signature256 mac payload header secret ≡ none) ↔ (
        (hex : Text) × (parse_hmac_sha256_signature header ≡ some hex)
        × (hex_decode hex ≡ some (mac secret payload)))
unfolding verify_hub_signature256 parse_hmac_sha256_signature
verify_hub_signature256_iff mac payload header secret =
    compare_hex_iff (mac secret payload) (sized (without_prefix (trim_space header) prefix))

sized_iff :
    (o : Option Text) (hex : Text) → (sized o ≡ some hex) ↔ ((o ≡ some hex) × (length hex ≡ 64))
unfolding sized
sized_iff none hex = ground arith
sized_iff (some h) hex = ground (arith, ==_iff (length h) 64)

-- A signature is found exactly where the header, trimmed, is the prefix and 64 more bytes.
pub parse_hmac_sha256_signature_iff :
    (header hex : Text)
    → (parse_hmac_sha256_signature header ≡ some hex)
      ↔ ((trim_space header ≡ prefix ++ hex) × (length hex ≡ 64))
unfolding parse_hmac_sha256_signature
parse_hmac_sha256_signature_iff header hex =
    let (to, from) = sized_iff (without_prefix (trim_space header) prefix) hex in
    let (split, join) = without_prefix_iff (trim_space header) prefix hex in
    (λ e. let h = to e in (split h.0, h.1), λ h. from (join h.0, h.1))

prefix_tokens : (s : Text) → All IsToken s → All IsToken (prefix ++ s)
prefix_tokens s h = All-append IsToken prefix s (omega arith) h

-- A header made with the same secret for the same payload, from a MAC of 32 bytes, is accepted.
pub verify_hub_signature256_signed :
    (mac : Text → Text → Text) (payload secret : Text)
    → IsBytes (mac secret payload)
    → length (mac secret payload) ≡ 32
    → verify_hub_signature256 mac payload (prefix ++ hex_encode (mac secret payload)) secret ≡ none
verify_hub_signature256_signed mac payload secret bytes size =
    let hex = hex_encode (mac secret payload) in
    (verify_hub_signature256_iff mac payload (prefix ++ hex) secret).1 (
      hex,
      (parse_hmac_sha256_signature_iff (prefix ++ hex) hex).1 (
        trim_space_visible (prefix ++ hex)
            (IsToken-IsVisible (prefix ++ hex) (prefix_tokens hex (hex_encode-IsToken _ bytes))),
        omega (arith, length-hex_encode (mac secret payload)),
      ),
      hex_decode-hex_encode _ bytes,
    )
