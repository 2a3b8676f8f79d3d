-- ===== src/Mtls/Sources.antt =====
-- Where the TLS configuration of mtls/mtls.go comes from.
use yggdrasil_sdk_go.Base.{
  true, false, none, some, ◌++◌, ◌≡◌, ◌≢◌, ◌↔◌, ◌⊎◌, inl, inr, refl, subst, Bool-cases,
}
use yggdrasil_sdk_go.Base.Texts.{Text, codes, is_empty}
use yggdrasil_sdk_go.Rpc.{Error}
use yggdrasil_sdk_go.Mtls.{
  Key, rsa, other_key, TlsConfig, Host, config_of_key, config_of_p12, load_from_p12_bytes,
  load_read, load_source, load, is_off, load_from_env,
}

-- The bundle holds just this certificate and RSA key under the password.
abbrev pub IsBundle : Host → (raw password : Text) → TlsConfig → Type 0
IsBundle host raw password c =
    (is_empty raw ≡ false)
    × (host.pkcs12_decode raw password ≡ inr (rsa c.private_key, c.certificate))

-- The environment's file, or else its base64 text.
abbrev pub IsSource : Host → (prefix raw : Text) → Type 0
IsSource host prefix raw =
    ((is_empty (host.getenv (prefix ++ codes "_CERTIFICATE")) ≡ false)
      × (host.read_file (host.getenv (prefix ++ codes "_CERTIFICATE")) ≡ inr raw))
    ⊎ ((is_empty (host.getenv (prefix ++ codes "_CERTIFICATE")) ≡ true)
        × (is_empty (host.getenv (prefix ++ codes "_CERTIFICATE_BASE64")) ≡ false)
        × (host.decode_base64 (host.getenv (prefix ++ codes "_CERTIFICATE_BASE64")) ≡ inr raw))

inr_same : {a b : Text} → Path (Error ⊎ Text) (inr a) (inr b) → b ≡ a
inr_same e = cc

p12_iff :
    (p : Error ⊎ (Key × Text)) (c : TlsConfig)
    → (config_of_p12 p ≡ inr (some c)) ↔ (p ≡ inr (rsa c.private_key, c.certificate))
unfolding config_of_p12 config_of_key
p12_iff (inl err) c = (λ e. cc, λ e. cc)
p12_iff (inr (rsa key, cert)) c = (λ e. cc, λ e. cc)
p12_iff (inr (other_key go_type, cert)) c = (λ e. cc, λ e. cc)

module _ (host : Host) (password : Text) where
  load_from_p12_bytes_iff :
      (raw : Text) (c : TlsConfig)
      → (load_from_p12_bytes host raw password ≡ inr (some c)) ↔ IsBundle host raw password c
  unfolding load_from_p12_bytes
  load_from_p12_bytes_iff raw c = elim (Bool-cases (is_empty raw)) [
    | inl nothing ↦ rw nothing (λ e. cc, λ e. cc)
    | inr given ↦
        let (to, from) = p12_iff (host.pkcs12_decode raw password) c in
        rw given (λ e. (refl, to e), λ e. from e.1)
  ]

  load_read_iff :
      (context : Text) (r : Error ⊎ Text) (c : TlsConfig)
      → (load_read host password context r ≡ inr (some c))
        ↔ ((raw : Text) × (r ≡ inr raw) × IsBundle host raw password c)
  unfolding load_read
  load_read_iff context (inl err) c = (λ e. cc, λ (raw, e, b). cc)
  load_read_iff context (inr raw) c =
      let (to, from) = load_from_p12_bytes_iff raw c in
      (
        λ e. (raw, refl, to e),
        λ (given, e, b). from (subst (λ x. IsBundle host x password c) (inr_same e) b),
      )

p12_given : (p : Error ⊎ (Key × Text)) → config_of_p12 p ≢ inr none
unfolding config_of_p12 config_of_key
p12_given (inl err) = λ e. cc
p12_given (inr (rsa key, cert)) = λ e. cc
p12_given (inr (other_key go_type, cert)) = λ e. cc

load_read_given :
    (host : Host) (password context : Text) (r : Error ⊎ Text)
    → load_read host password context r ≢ inr none
unfolding load_read load_from_p12_bytes
load_read_given host password context (inl err) = λ e. cc
load_read_given host password context (inr raw) = elim (Bool-cases (is_empty raw)) [
  | inl nothing ↦ rw nothing (λ e. cc)
  | inr given ↦ rw given (p12_given (host.pkcs12_decode raw password))
]

module _ (host : Host) (prefix : Text) where
  -- `LoadFromEnv` returns no configuration and no error exactly when the environment turns mutual TLS
  -- off: a failure to read, decode or find a bundle never passes for that.
  pub load_from_env-none_iff :
      (load_from_env host prefix ≡ inr none)
      ↔ (is_off (host.getenv (prefix ++ codes "_MTLS_ENABLED")) ≡ true)
  unfolding load_from_env load load_source
  load_from_env-none_iff =
      elim (Bool-cases (is_off (host.getenv (prefix ++ codes "_MTLS_ENABLED")))) [
        | inl off ↦ rw off (λ e. refl, λ e. refl)
        | inr on ↦
            rw on (elim (Bool-cases (is_empty (host.getenv (prefix ++ codes "_CERTIFICATE")))) [
              | inl no_file ↦
                  rw no_file
                    (elim (Bool-cases
                      (is_empty (host.getenv (prefix ++ codes "_CERTIFICATE_BASE64")))) [
                        | inl no_text ↦ rw no_text (λ e. cc, λ e. cc)
                        | inr text ↦ rw text (λ e. absurd (load_read_given host _ _ _ e), λ e. cc)
                      ])
              | inr file ↦ rw file (λ e. absurd (load_read_given host _ _ _ e), λ e. cc)
            ])
      ]

  -- It returns a configuration exactly when the environment does not turn mutual TLS off and its file,
  -- or its base64 text where it names no file, is a bundle under its password, with that certificate
  -- and an RSA key.
  pub load_from_env-some_iff :
      (c : TlsConfig)
      → (load_from_env host prefix ≡ inr (some c)) ↔ (
          (is_off (host.getenv (prefix ++ codes "_MTLS_ENABLED")) ≡ false)
          × ((raw : Text) × IsSource host prefix raw
              × IsBundle host raw (host.getenv (prefix ++ codes "_CERTIFICATE_PASSWORD")) c))
  unfolding load_from_env load load_source
  load_from_env-some_iff c =
      elim (Bool-cases (is_off (host.getenv (prefix ++ codes "_MTLS_ENABLED")))) [
        | inl off ↦ rw off (λ e. cc, λ (e, r). cc)
        | inr on ↦
            rw on (elim (Bool-cases (is_empty (host.getenv (prefix ++ codes "_CERTIFICATE")))) [
              | inl no_file ↦
                  rw no_file
                    (elim (Bool-cases
                      (is_empty (host.getenv (prefix ++ codes "_CERTIFICATE_BASE64")))) [
                        | inl no_text ↦ rw no_text (
                          λ e. cc,
                          λ (e, (raw, src, b)). elim src [
                            | inl (no_path, r) ↦ cc
                            | inr (p, no_b64, r) ↦ cc
                          ],
                        )
                        | inr text ↦ rw text (
                            let (to, from) = load_read_iff host _ _ _ c in
                            (
                              λ e. let (raw, r, b) = to e in (refl, (raw, inr (refl, refl, r), b)),
                              λ (e, (raw, src, b)). elim src [
                                | inl (no_path, r) ↦ cc
                                | inr (p, q, r) ↦ from (raw, r, b)
                              ],
                            ))
                      ])
              | inr file ↦ rw file (
                  let (to, from) = load_read_iff host _ _ _ c in
                  (
                    λ e. let (raw, r, b) = to e in (refl, (raw, inl (refl, r), b)),
                    λ (e, (raw, src, b)). elim src [
                      | inl (_, r) ↦ from (raw, r, b)
                      | inr (no_file, _, r) ↦ cc
                    ],
                  ))
            ])
      ]
