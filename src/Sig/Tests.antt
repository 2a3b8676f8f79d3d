-- ===== src/Sig/Tests.antt =====
-- The theorems on sig/hmac at work.
use yggdrasil_sdk_go.Base.{false, none, some, ◌≡◌, ◌↔◌, ◌⊎◌, ◌^◌, ◌-◌, ◌+◌, refl, arith}
use yggdrasil_sdk_go.Base.Int.{pos, negsuc, wrap64, ◌-ℤ◌}
use yggdrasil_sdk_go.Base.Texts.{Text, codes, hex_decode, IsBytes}
use yggdrasil_sdk_go.Sig.Stripe.{is_expired, verify_stripe, skew_of}
use yggdrasil_sdk_go.Sig.Stripe.Skew.{Within, Wraps, is_expired_iff}
use yggdrasil_sdk_go.Sig.Stripe.Accepts.{IsSigned, verify_stripe_iff}
use yggdrasil_sdk_go.Sig.Hub.{verify_hub_signature256, parse_hmac_sha256_signature}
use yggdrasil_sdk_go.Sig.Hub.Accepts.{verify_hub_signature256_iff}

-- A digest of 32 bytes, whatever is signed.
abbrev mac : Text → Text → Text
mac secret msg = codes "0123456789abcdefghijklmnopqrstuv"

verify_stripe_iff_example :
    (verify_stripe mac (pos 100) (codes "paid") (codes "key") (pos 300) (codes "t=90,v1=0ab1")
      ≡ (pos 90, none))
    ↔ IsSigned mac (pos 100) (codes "paid") (codes "key") (pos 300) (pos 90) (codes "t=90,v1=0ab1")
verify_stripe_iff_example =
    verify_stripe_iff mac (pos 100) (codes "paid") (codes "key") (pos 300) (pos 90)
      (codes "t=90,v1=0ab1")

-- 2 ^ 63 seconds before the clock.
is_expired_iff_example :
    (is_expired (pos 100) (negsuc (2 ^ 63 - 101)) (pos (299 + 1)) ≡ false)
    ↔ (Within (299 + 1) 100 (negsuc (2 ^ 63 - 101)) ⊎ Wraps 100 (negsuc (2 ^ 63 - 101)))
is_expired_iff_example =
    is_expired_iff 100 (negsuc (2 ^ 63 - 101)) 299 (omega arith) (omega arith, omega arith)
      (omega arith)

fresh : is_expired (pos 100) (pos 90) (pos 300) ≡ false
unfolding is_expired skew_of wrap64 ◌-ℤ◌
fresh = refl

mac-IsBytes : IsBytes (codes "0123456789abcdefghijklmnopqrstuv")
mac-IsBytes = ground arith

verify_hub_signature256_iff_example :
    (verify_hub_signature256 mac (codes "push") (codes "sha256=00") (codes "key") ≡ none) ↔ (
      (hex : Text) × (parse_hmac_sha256_signature (codes "sha256=00") ≡ some hex)
      × (hex_decode hex ≡ some (mac (codes "key") (codes "push"))))
verify_hub_signature256_iff_example =
    verify_hub_signature256_iff mac (codes "push") (codes "sha256=00") (codes "key")
