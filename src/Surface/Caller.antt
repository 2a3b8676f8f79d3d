-- ===== src/Surface/Caller.antt =====
-- surface/caller.go: the caller's identity, from the input of a surface query.
use yggdrasil_sdk_go.Base.{◌≡◌, ◌≢◌, refl, inl, inr, Bool-cases}
use yggdrasil_sdk_go.Base.Texts.{Text, codes, text_eq, text_eq_iff, trim_space}
use yggdrasil_sdk_go.Base.Dict.{Dict, put, get-put}
use yggdrasil_sdk_go.Reconcile.Identify.{Any, str, string_at}

-- `InputVerifiedCallerID`
abbrev pub input_verified_caller_id : Text
input_verified_caller_id = codes "verified_caller_id"

-- `VerifiedCallerID`; a nil map has no keys.
unfoldable pub verified_caller_id : {F : Type 0} → Dict (Any F) → Text
unfolding string_at
verified_caller_id input = trim_space (string_at input_verified_caller_id input)

module _ {F : Type 0} (input : Dict (Any F)) where
  -- What the core stamps under the top-level key is what is read, trimmed, whatever stood there; and
  -- no value under another key, such as one nested under params, changes what is read.
  pub verified_caller_id-put :
      (id key : Text) (v : Any F)
      → key ≢ input_verified_caller_id
      → (verified_caller_id (put input_verified_caller_id (str id) input) ≡ trim_space id)
        × (verified_caller_id (put key v input) ≡ verified_caller_id input)
  unfolding verified_caller_id
  verified_caller_id-put id key v other = (
    rw (get-put input_verified_caller_id input_verified_caller_id (str id) input)
        (rw ((text_eq_iff input_verified_caller_id input_verified_caller_id).1 refl)),
    rw (get-put input_verified_caller_id key v input)
        (elim (Bool-cases (text_eq key input_verified_caller_id)) [
          | inl same ↦ absurd (other ((text_eq_iff key input_verified_caller_id).0 same))
          | inr differ ↦ rw differ
        ]),
  )
