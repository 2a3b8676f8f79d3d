-- ===== src/Mtls/Tests.antt =====
-- The theorems on mtls/mtls.go at work.
use yggdrasil_sdk_go.Base.{false, some, ◌++◌, ◌≡◌, ◌↔◌, inl, inr, if◌then◌else◌}
use yggdrasil_sdk_go.Base.Texts.{Text, codes, text_eq}
use yggdrasil_sdk_go.Rpc.{message}
use yggdrasil_sdk_go.Mtls.{rsa, TlsConfig, Host, is_off, load_from_env}
use yggdrasil_sdk_go.Mtls.Sources.{IsSource, IsBundle, load_from_env-some_iff}

abbrev host : Host
host = record {
  getenv =
      λ name. if text_eq name (codes "EFI_MTLS_ENABLED") then codes "true" else codes "cert.p12";
  read_file = λ path. inr (codes "bundle");
  decode_base64 = λ t. inl (message (codes "illegal base64 data"));
  pkcs12_decode = λ raw password. inr (rsa (codes "key"), codes "cert");
  quote = λ t. t;
}

abbrev efi : TlsConfig
efi = record { certificate = codes "cert"; private_key = codes "key" }

load_from_env-some_iff_example : (load_from_env host (codes "EFI") ≡ inr (some efi)) ↔ (
    (is_off (host.getenv (codes "EFI" ++ codes "_MTLS_ENABLED")) ≡ false)
    × ((raw : Text) × IsSource host (codes "EFI") raw
        × IsBundle host raw (host.getenv (codes "EFI" ++ codes "_CERTIFICATE_PASSWORD")) efi))
load_from_env-some_iff_example = load_from_env-some_iff host (codes "EFI") efi
