-- ===== src/Mtls.antt =====
-- mtls/mtls.go: the TLS configuration from a PKCS#12 bundle. The environment, the file system, base64
-- and PKCS#12 are a host.
mod Tests
pub mod Sources
use yggdrasil_sdk_go.Base.{
  Bool, true, false, Option, none, some, List, [], ◌∷◌, ◌++◌, ◌||◌, ◌⊎◌, inl, inr, if◌then◌else◌,
}
use yggdrasil_sdk_go.Base.Int.{ℤ}
use yggdrasil_sdk_go.Base.Texts.{Text, codes, is_empty, text_eq, show_int}
use yggdrasil_sdk_go.Rpc.{Error, message, wrapped}

-- `Source`: a value of Go's int that is none of the constants is a number.
pub data Source : Type 0 where
  source_disabled source_file source_base64 : Source
  source_unknown : ℤ → Source

pub record Config : Type 0 where
  pub source : Source
  pub path : Text
  pub base64 : Text
  pub password : Text

-- The private key of a bundle: an RSA key, or one of another Go type.
pub data Key : Type 0 where
  rsa : Text → Key
  other_key : (go_type : Text) → Key

-- `tls.Config`, with its one certificate and its key; its `RootCAs` is empty.
pub record TlsConfig : Type 0 where
  pub certificate : Text
  pub private_key : Text

pub record Host : Type 0 where
  pub getenv : Text → Text
  pub read_file : Text → Error ⊎ Text
  pub decode_base64 : Text → Error ⊎ Text
  pub pkcs12_decode : (raw password : Text) → Error ⊎ (Key × Text)
  pub quote : Text → Text

-- The result (nil, nil) is `inr none`.
abbrev pub Loaded : Type 0
Loaded = Error ⊎ Option TlsConfig

config_of_key : Text → Key → Loaded
config_of_key cert (rsa key) = inr (some (record { certificate = cert; private_key = key }))
config_of_key cert (other_key go_type) = inl (
    message (
      codes "mtls: P12 contained unsupported key type "
      ++ (go_type ++ codes " (want *rsa.PrivateKey)")))

config_of_p12 : Error ⊎ (Key × Text) → Loaded
unfolding config_of_key
config_of_p12 (inl err) = inl (wrapped (codes "mtls: pkcs12 decode: ") err)
config_of_p12 (inr (key, cert)) = config_of_key cert key

unfoldable pub load_from_p12_bytes : Host → (raw password : Text) → Loaded
unfolding config_of_p12
load_from_p12_bytes host raw password =
    if is_empty raw
    then inl (message (codes "mtls: empty P12 payload"))
    else config_of_p12 (host.pkcs12_decode raw password)

-- The bundle that was read, or else the error behind a text.
load_read : Host → Text → (context : Text) → Error ⊎ Text → Loaded
unfolding load_from_p12_bytes
load_read host password context (inl err) = inl (wrapped context err)
load_read host password context (inr raw) = load_from_p12_bytes host raw password

load_source : Host → Config → Source → Loaded
unfolding load_read
load_source host cfg source_disabled = inr none
load_source host cfg source_file =
    load_read host cfg.password (codes "mtls: read " ++ (host.quote cfg.path ++ codes ": "))
      (host.read_file cfg.path)
load_source host cfg source_base64 =
    load_read host cfg.password (codes "mtls: base64 decode: ") (host.decode_base64 cfg.base64)
load_source host cfg (source_unknown n) =
    inl (message (codes "mtls: unknown Source value " ++ show_int n))

unfoldable pub load : Host → Config → Loaded
unfolding load_source
load host cfg = load_source host cfg cfg.source

-- The values of `{PREFIX}_MTLS_ENABLED` that turn it off.
unfoldable pub is_off : Text → Bool
is_off enabled =
    is_empty enabled
    || text_eq enabled (codes "false")
    || text_eq enabled (codes "0")
    || text_eq enabled (codes "False")
    || text_eq enabled (codes "FALSE")

abbrev pub disabled : Config
disabled = record { source = source_disabled; path = []; base64 = []; password = [] }

unfoldable pub load_from_env : Host → (prefix : Text) → Loaded
unfolding is_off
load_from_env host prefix =
    let path = host.getenv (prefix ++ codes "_CERTIFICATE") in
    let b64 = host.getenv (prefix ++ codes "_CERTIFICATE_BASE64") in
    let pwd = host.getenv (prefix ++ codes "_CERTIFICATE_PASSWORD") in
    if is_off (host.getenv (prefix ++ codes "_MTLS_ENABLED"))
    then load host disabled
    else if is_empty path
    then (if is_empty b64
        then inl (
            message (
              codes "mtls: "
              ++ (prefix
                  ++ (codes "_MTLS_ENABLED=true but neither "
                      ++ (prefix
                          ++ (codes "_CERTIFICATE nor "
                              ++ (prefix ++ codes "_CERTIFICATE_BASE64 is set")))))))
        else load host (record { source = source_base64; path = []; base64 = b64; password = pwd }))
    else load host (record { source = source_file; path = path; base64 = []; password = pwd })
