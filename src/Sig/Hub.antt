-- ===== src/Sig/Hub.antt =====
-- sig/hmac/github.go, and the helpers of webhookhttp/helpers.go over it. `mac` is HMAC-SHA256 of a
-- secret and a message.
pub mod Accepts
use yggdrasil_sdk_go.Base.{
  ℕ, Bool, true, false, Option, none, some, List, [], ◌∷◌, ◌==◌, length, if◌then◌else◌,
}
use yggdrasil_sdk_go.Base.Texts.{Text, codes, text_eq, trim_space, without_prefix, hex_decode}

pub data HubError : Type 0 where
  malformed_hub_sig signature_mismatch : HubError

abbrev pub prefix : Text
prefix = codes "sha256="

-- `sha256.Size * 2`
abbrev pub hex_size : ℕ
hex_size = 64

-- The part behind the prefix, if it has the length of a digest in hexadecimal.
sized : Option Text → Option Text
sized none = none
sized (some hex) = if length hex == hex_size then some hex else none

compare_digest : Text → Option Text → Option HubError
compare_digest expected none = some malformed_hub_sig
compare_digest expected (some got) = if text_eq got expected then none else some signature_mismatch

compare_hex : Text → Option Text → Option HubError
unfolding compare_digest
compare_hex expected none = some malformed_hub_sig
compare_hex expected (some hex) = compare_digest expected (hex_decode hex)

unfoldable pub verify_hub_signature256 :
    (Text → Text → Text) → (payload header secret : Text) → Option HubError
unfolding sized compare_hex
verify_hub_signature256 mac payload header secret =
    compare_hex (mac secret payload) (sized (without_prefix (trim_space header) prefix))

-- `none` is the result `("", false)`.
unfoldable pub parse_hmac_sha256_signature : Text → Option Text
unfolding sized
parse_hmac_sha256_signature header = sized (without_prefix (trim_space header) prefix)

unfoldable pub verify_hmac_sha256_header :
    (Text → Text → Text) → (body header secret : Text) → Option HubError
verify_hmac_sha256_header mac body header secret = verify_hub_signature256 mac body header secret
