-- ===== src/Sig/Stripe/Skew.antt =====
-- The tolerance window of sig/hmac/stripe.go.
use yggdrasil_sdk_go.Base.{◌+◌, ◌^◌, ◌≤◌, ◌<◌, ◌≡◌, ◌↔◌, ◌⊎◌, false, arith, ℕ}
use yggdrasil_sdk_go.Base.Int.{ℤ, pos, negsuc, pos_part, neg_part, ◌-ℤ◌, IsInt64, wrap64}
use yggdrasil_sdk_go.Sig.Stripe.{skew_of, is_expired}

-- The two times are at most so many seconds apart.
abbrev pub Within : ℕ → ℕ → ℤ → Type 0
Within tolerance now (pos t) = (now ≤ t + tolerance) × (t ≤ now + tolerance)
Within tolerance now (negsuc t) = now + (t + 1) ≤ tolerance

-- The timestamp whose distance from the clock is 2 ^ 63, which no int64 holds.
abbrev pub Wraps : ℕ → ℤ → Type 0
Wraps now ts = now + neg_part ts ≡ 2 ^ 63 + pos_part ts

-- For a clock from 1970 on and a positive tolerance, both below 2 ^ 62 seconds, an int64 timestamp
-- passes the window exactly when it is at most the tolerance away, or is 2 ^ 63 seconds before the
-- clock.
pub is_expired_iff :
    (now : ℕ) (ts : ℤ) (tolerance : ℕ)
    → now < 2 ^ 62
    → IsInt64 ts
    → tolerance + 1 < 2 ^ 62
    → (is_expired (pos now) ts (pos (tolerance + 1)) ≡ false)
      ↔ (Within (tolerance + 1) now ts ⊎ Wraps now ts)
unfolding is_expired skew_of wrap64 ◌-ℤ◌
is_expired_iff now (pos t) tolerance hn ht hk = (λ e. ground arith, λ e. ground arith)
is_expired_iff now (negsuc t) tolerance hn ht hk = (λ e. ground arith, λ e. ground arith)
