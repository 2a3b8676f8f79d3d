-- ===== src/Sig/Stripe.antt =====
-- sig/hmac/stripe.go: `VerifyStripe`. `mac` is HMAC-SHA256 of a secret and a message, `now` the Unix
-- time of `nowFn`.
pub mod Skew
pub mod Components
pub mod Accepts
pub mod Signing
use yggdrasil_sdk_go.Base.{
  Bool, true, false, Option, none, some, List, [], ◌∷◌, ◌++◌, ◌||◌, if◌then◌else◌,
}
use yggdrasil_sdk_go.Base.Int.{ℤ, pos, ◌-ℤ◌, ltb_ℤ, wrap64}
use yggdrasil_sdk_go.Base.Texts.{
  Text, codes, text_eq, is_empty, trim_space, split_on, cut, hex_decode, parse_int, show_int,
}

pub data SigError : Type 0 where
  timestamp_expired signature_mismatch missing_timestamp missing_v1 malformed_header : SigError

-- The components that the loop collects.
pub record Parts : Type 0 where
  pub ts_str : Text
  pub sigs : List Text

add_component : Option (Text × Text) → Parts → Parts
add_component none p = p
add_component (some (key, value)) p =
    if text_eq key (codes "t")
    then record p { ts_str = value }
    else if text_eq key (codes "v1")
    then record p { sigs = p.sigs ++ value ∷ [] }
    else p

pub add_parts : List Text → Parts → Parts
unfolding add_component
add_parts [] p = p
add_parts (part ∷ more) p = add_parts more (add_component (cut b'=' (trim_space part)) p)

unfoldable pub parse_header : Text → Parts
unfolding add_parts
parse_header header = add_parts (split_on b',' header) (record { ts_str = []; sigs = [] })

-- int64 `skew := now - ts`, and its sign dropped; both wrap around.
unfoldable pub skew_of : ℤ → ℤ → ℤ
skew_of now ts =
    let skew = wrap64 (now -ℤ ts) in if ltb_ℤ skew (pos 0) then wrap64 (pos 0 -ℤ skew) else skew

unfoldable pub is_expired : ℤ → ℤ → ℤ → Bool
is_expired now ts tolerance =
    if ltb_ℤ (pos 0) tolerance then ltb_ℤ tolerance (skew_of now ts) else false

-- `fmt.Sprintf("%d.%s", ts, payload)`
unfoldable pub signed_payload : ℤ → Text → Text
signed_payload ts payload = show_int ts ++ (b'.' ∷ payload)

-- `subtle.ConstantTimeCompare(got, expected) == 1` of what a signature decodes to.
signature_is : Text → Option Text → Bool
signature_is expected none = false
signature_is expected (some got) = text_eq got expected

unfoldable pub any_matches : Text → List Text → Bool
unfolding signature_is
any_matches expected [] = false
any_matches expected (sig ∷ sigs) =
    signature_is expected (hex_decode sig) || any_matches expected sigs

module _ (mac : Text → Text → Text) (now : ℤ) (payload secret : Text) (tolerance : ℤ) where
  verify_at : ℤ → List Text → ℤ × Option SigError
  verify_at ts sigs =
      if is_expired now ts tolerance
      then (ts, some timestamp_expired)
      else if any_matches (mac secret (signed_payload ts payload)) sigs
      then (ts, none)
      else (ts, some signature_mismatch)

  verify_parsed : Option ℤ → List Text → ℤ × Option SigError
  verify_parsed none sigs = (pos 0, some malformed_header)
  verify_parsed (some ts) sigs = verify_at ts sigs

  verify_parts : Parts → ℤ × Option SigError
  verify_parts p = if is_empty p.ts_str then (pos 0, some missing_timestamp) else elim p.sigs [
    | [] ↦ (pos 0, some missing_v1)
    | _ ∷ _ ↦ verify_parsed (parse_int p.ts_str) p.sigs
  ]

  unfoldable pub verify_stripe : Text → ℤ × Option SigError
  unfolding verify_parts verify_parsed verify_at
  verify_stripe header =
      if is_empty header then (pos 0, some malformed_header) else verify_parts (parse_header header)
