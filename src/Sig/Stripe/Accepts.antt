-- ===== src/Sig/Stripe/Accepts.antt =====
-- When `VerifyStripe` of sig/hmac/stripe.go accepts.
use yggdrasil_sdk_go.Base.{
  suc, sym, true, false, Option, none, some, List, [], ◌∷◌, ◌++◌, ◌≡◌, ◌↔◌, ◌⊎◌, inl, inr, refl,
  arith, ap, ◌∙◌, Bool-cases, if◌then◌else◌,
}
use yggdrasil_sdk_go.Base.Int.{ℤ, pos, negsuc, ◌-ℤ◌, ◌≤ℤ◌, ltb_ℤ, wrap64}
use yggdrasil_sdk_go.Base.Texts.{
  Text, codes, text_eq_iff, trim_space, split_on, cut, hex_decode, parse_int, show_int,
}
use yggdrasil_sdk_go.Sig.Stripe.{
  Parts, skew_of, parse_header, is_expired, signed_payload, signature_is, any_matches, verify_at,
  verify_parsed, verify_parts, verify_stripe,
}
use yggdrasil_sdk_go.Sig.Stripe.Components.{
  values, last_or, last_or-append, append-last_or, add_parts_lem,
}

-- One of the signatures decodes to the expected bytes.
abbrev pub Matches : Text → List Text → Type 0
Matches expected [] = ⊥
Matches expected (sig ∷ sigs) = (hex_decode sig ≡ some expected) ⊎ Matches expected sigs

signature_is_iff :
    (expected : Text) (o : Option Text) → (signature_is expected o ≡ true) ↔ (o ≡ some expected)
unfolding signature_is
signature_is_iff expected none = ground arith
signature_is_iff expected (some got) = ground (arith, text_eq_iff got expected)

any_matches_iff :
    (expected : Text) (sigs : List Text)
    → (any_matches expected sigs ≡ true) ↔ Matches expected sigs
unfolding any_matches
any_matches_iff expected [] = ground arith
any_matches_iff expected (sig ∷ sigs) =
    ground (arith, signature_is_iff expected (hex_decode sig), any_matches_iff expected sigs)

module _ (mac : Text → Text → Text) (now : ℤ) (payload secret : Text) (tolerance ts : ℤ) where
  -- The header's timestamp parses, it is inside the window, and a `v1` component is the MAC of that
  -- timestamp with the payload.
  pub record Accepts (p : Parts) : Type 0 where
    pub timestamp : parse_int p.ts_str ≡ some ts
    pub fresh : is_expired now ts tolerance ≡ false
    pub signed : Matches (mac secret (signed_payload ts payload)) p.sigs

  verify_at_iff :
      (t : ℤ) (sigs : List Text)
      → (verify_at mac now payload secret tolerance t sigs ≡ (ts, none)) ↔ (
          (t ≡ ts)
          × (is_expired now ts tolerance ≡ false)
          × Matches (mac secret (signed_payload ts payload)) sigs)
  unfolding verify_at
  verify_at_iff t sigs = (
    λ e.
        let same : t ≡ ts = ground arith in
        (
          same,
          rw (← same) (ground arith),
          rw (← same)
              ((any_matches_iff (mac secret (signed_payload t payload)) sigs).0 (ground arith)),
        ),
    λ h. rw (h.0, h.1, (any_matches_iff (mac secret (signed_payload ts payload)) sigs).1 h.2) refl,
  )

  verify_parsed_iff :
      (o : Option ℤ) (sigs : List Text)
      → (verify_parsed mac now payload secret tolerance o sigs ≡ (ts, none)) ↔ (
          (o ≡ some ts)
          × (is_expired now ts tolerance ≡ false)
          × Matches (mac secret (signed_payload ts payload)) sigs)
  unfolding verify_parsed
  verify_parsed_iff none sigs = (λ e. cc, λ h. cc (h.0))
  verify_parsed_iff (some t) sigs = (
    λ e. let h = (verify_at_iff t sigs).0 e in (ap some h.0, h.1, h.2),
    λ h. (verify_at_iff t sigs).1 (cc (h.0), h.1, h.2),
  )

  verify_parts_iff :
      (ts_str : Text) (sigs : List Text)
      → (verify_parts mac now payload secret tolerance (record { ts_str = ts_str; sigs = sigs })
          ≡ (ts, none))
        ↔ ((parse_int ts_str ≡ some ts)
            × (is_expired now ts tolerance ≡ false)
            × Matches (mac secret (signed_payload ts payload)) sigs)
  unfolding verify_parts parse_int
  verify_parts_iff [] sigs = (λ e. cc, λ h. cc (h.0))
  verify_parts_iff (c ∷ s) [] = (λ e. cc, λ h. absurd h.2)
  verify_parts_iff (c ∷ s) (sig ∷ sigs) = verify_parsed_iff (parse_int (c ∷ s)) (sig ∷ sigs)

parse_header-nil : parse_header [] ≡ record { ts_str = []; sigs = [] }
unfolding parse_header split_on trim_space cut
parse_header-nil = refl

pub verify_stripe_parsed_iff :
    (mac : Text → Text → Text) (now : ℤ) (payload secret : Text) (tolerance ts : ℤ) (header : Text)
    → (verify_stripe mac now payload secret tolerance header ≡ (ts, none))
      ↔ Accepts mac now payload secret tolerance ts (parse_header header)
unfolding verify_stripe
verify_stripe_parsed_iff mac now payload secret tolerance ts [] =
    (λ e. cc, λ a. absurd (rw parse_header-nil at (a.signed)))
verify_stripe_parsed_iff mac now payload secret tolerance ts (c ∷ s) =
    let p = parse_header (c ∷ s) in
    let (to, from) = verify_parts_iff mac now payload secret tolerance ts p.ts_str p.sigs in
    (
      λ e. let h = to e in record { timestamp = h.0; fresh = h.1; signed = h.2 },
      λ a. from (a.timestamp, a.fresh, a.signed),
    )

-- A distance of so many seconds, of either sign, is at most the tolerance; the sign is dropped in int64.
abbrev pub IsNear : ℤ → ℤ → Type 0
IsNear tolerance (pos d) = pos d ≤ℤ tolerance
IsNear tolerance (negsuc d) = wrap64 (pos (suc d)) ≤ℤ tolerance

-- There is no window, or the int64 distance between the clock and the timestamp is inside of it.
abbrev pub InWindow : (now ts tolerance : ℤ) → Type 0
InWindow now ts tolerance = (tolerance ≤ℤ pos 0) ⊎ IsNear tolerance (wrap64 (now -ℤ ts))

is_near :
    (tolerance skew : ℤ)
    → (ltb_ℤ tolerance (if ltb_ℤ skew (pos 0) then wrap64 (pos 0 -ℤ skew) else skew) ≡ false)
      ↔ IsNear tolerance skew
unfolding ◌-ℤ◌
is_near tolerance (pos d) = (λ e. ground arith, λ h. ground arith)
is_near tolerance (negsuc d) = (λ e. ground arith, λ h. ground arith)

is_expired-InWindow :
    (now ts tolerance : ℤ) → (is_expired now ts tolerance ≡ false) ↔ InWindow now ts tolerance
unfolding is_expired skew_of
is_expired-InWindow now ts tolerance =
    let (to, from) = is_near tolerance (wrap64 (now -ℤ ts)) in
    elim (Bool-cases (ltb_ℤ (pos 0) tolerance)) [
      | inl open_window ↦ rw open_window (
        λ e. inr (to e),
        λ h. elim h [ inl shut ↦ absurd (ground (arith, open_window)) | inr near ↦ from near ],
      )
      | inr none_set ↦ rw none_set (λ e. inl (ground (arith, none_set)), λ h. refl)
    ]

-- The components of a header.
abbrev pub components : Text → List Text
components header = split_on b',' header

-- The last of the header's `t` values is the timestamp, which is in the window, and one of its `v1`
-- values is, in hexadecimal, the MAC of the timestamp and the payload.
abbrev pub IsSigned :
    (Text → Text → Text)
    → (now : ℤ) (payload secret : Text) (tolerance ts : ℤ) (header : Text) → Type 0
IsSigned mac now payload secret tolerance ts header =
    ((earlier : List Text) × (last : Text) × (values (codes "t") (components header)
        ≡ earlier ++ last ∷ [])
      × (parse_int last ≡ some ts))
    × InWindow now ts tolerance
    × Matches (mac secret (show_int ts ++ (b'.' ∷ payload)))
        (values (codes "v1") (components header))

parse_header_lem :
    (header : Text)
    → parse_header header ≡ record {
      ts_str = last_or [] (values (codes "t") (components header));
      sigs = values (codes "v1") (components header);
    }
unfolding parse_header
parse_header_lem header = add_parts_lem (components header) (record { ts_str = []; sigs = [] })

timestamp_iff :
    (vs : List Text) (ts : ℤ)
    → (parse_int (last_or [] vs) ≡ some ts) ↔ (
        (earlier : List Text) × (last : Text) × (vs ≡ earlier ++ last ∷ [])
        × (parse_int last ≡ some ts))
unfolding last_or parse_int
timestamp_iff [] ts = (
  λ e. cc,
  λ (earlier, last, e, p). cc (sym (last_or-append [] last earlier), ap (last_or []) e, p),
)
timestamp_iff (v ∷ vs) ts = (
  λ e. let (earlier, same) = append-last_or v vs in (earlier, last_or v vs, same, e),
  λ (earlier, last, e, p).
      ap (λ l. parse_int (last_or [] l)) e ∙ ap parse_int (last_or-append [] last earlier) ∙ p,
)

-- `VerifyStripe` returns a timestamp with no error exactly when the last value that the header's
-- components have under `t` is that timestamp, the tolerance is not positive or the int64 distance of
-- the timestamp from the clock is at most the tolerance, and one of the values under `v1` is, in
-- hexadecimal, the MAC of the timestamp, a dot and the payload under the secret.
pub verify_stripe_iff :
    (mac : Text → Text → Text) (now : ℤ) (payload secret : Text) (tolerance ts : ℤ) (header : Text)
    → (verify_stripe mac now payload secret tolerance header ≡ (ts, none))
      ↔ IsSigned mac now payload secret tolerance ts header
unfolding signed_payload
verify_stripe_iff mac now payload secret tolerance ts header =
    let (to, from) = verify_stripe_parsed_iff mac now payload secret tolerance ts header in
    let (near, fresh) = is_expired-InWindow now ts tolerance in
    let (split, joined) = timestamp_iff (values (codes "t") (components header)) ts in
    (
      λ e.
          let a = rw (parse_header_lem header) at (to e) in
          (split a.timestamp, near a.fresh, a.signed),
      λ (t, w, m). from (
          rw (parse_header_lem header)
            (record { timestamp = joined t; fresh = fresh w; signed = m })),
    )
