-- ===== src/Http/Serve/Single.antt =====
-- A request to the HTTP transport is answered once, whatever its handler does.
use yggdrasil_sdk_go.Base.{
  Bool, true, false, Option, none, some, [], ◌∷◌, ◌++◌, ◌≡◌, ◌⊎◌, inl, inr, refl, length,
  length-append, arith, if◌then◌else◌, Bool-cases,
}
use yggdrasil_sdk_go.Base.Texts.{Text, codes}
use yggdrasil_sdk_go.Rpc.{Error, error_text, Envelope, Codec, Program, Keeps, run, run-Keeps}
use yggdrasil_sdk_go.Http.Serve.{
  Response, http_error, status_only, json, State, start, decode, reply_envelope, reply_fn, nack_fn,
  delivery, conclude, Subscription, handle, serve_http,
}

-- Every envelope has a JSON.
abbrev pub IsTotal : Codec → Type 0
IsTotal codec = (e : Envelope) → (s : Text) × (codec.marshal e ≡ some s)

-- The flag says whether an answer was written.
abbrev IsSingle : State → Type 0
IsSingle s = length s.log ≡ (if s.replied then 1 else 0)

-- One more answer, where there was none.
single_more :
    (s : State) (x : Response) → s.replied ≡ false → IsSingle s → length (s.log ++ x ∷ []) ≡ 1
single_more s x e h = ground (arith, length-append s.log (x ∷ []))

module _ (codec : Codec) (total : IsTotal codec) (write : Text → Option Error) (id : Text) where
  reply_fn-IsSingle :
      (body content_type : Text) (s : State)
      → IsSingle s
      → IsSingle (reply_fn codec write id body content_type s).1
  unfolding reply_fn
  reply_fn-IsSingle body content_type s h =
      let (out, e) = total (reply_envelope codec write id body content_type) in
      ground (arith, e, length-append s.log (json out ∷ []))

  nack_fn-IsSingle :
      (requeue : Bool) (s : State) → IsSingle s → IsSingle (nack_fn codec write id requeue s).1
  unfolding nack_fn
  nack_fn-IsSingle true s h = ground (arith, length-append s.log (status_only 503 ∷ []))
  nack_fn-IsSingle false s h = ground (arith, length-append s.log (status_only 500 ∷ []))

  delivery-Keeps : Keeps IsSingle (delivery codec write id)
  delivery-Keeps = record {
    at_ack = λ s h. h;
    at_nack = λ requeue s h. nack_fn-IsSingle requeue s h;
    at_reply = λ body content_type s h. reply_fn-IsSingle body _ s h;
  }

  conclude_single :
      (err : Option Error) (s : State) → IsSingle s → length (conclude codec write id err s) ≡ 1
  unfolding conclude
  conclude_single (some err) s h = elim (Bool-cases s.replied) [
    | inl before ↦ simp before (ground arith)
    | inr silent ↦ simp silent (single_more s _ silent h)
  ]
  conclude_single none s h = elim (Bool-cases s.replied) [
    | inl before ↦ simp before (ground arith)
    | inr silent ↦ simp silent (single_more s _ silent h)
  ]

  run_single :
      (p : Program (Option Error))
      → length (
          conclude codec write id
            (run (delivery codec write id) p start).0
            (run (delivery codec write id) p start).1)
        ≡ 1
  run_single p = conclude_single _ _ (run-Keeps delivery-Keeps p start refl)

-- Where `encoding/json` has a text for every envelope, each request gets exactly one answer, whatever
-- the handler does with its delivery and whichever writes fail: also a request to a closed
-- subscription, a canceled one and one whose body cannot be read.
pub serve_http_single :
    (codec : Codec) (write : Text → Option Error) (admitted : Bool) (read : Error ⊎ Text)
    (sub : Subscription)
    → IsTotal codec
    → length (serve_http codec write admitted read sub) ≡ 1
unfolding serve_http handle
serve_http_single codec write admitted read sub total = elim (Bool-cases sub.closed) [
  | inl stopped ↦ simp stopped
  | inr live ↦ elim (Bool-cases admitted) [
    | inl got ↦ simp (live, got) (answered read)
    | inr canceled ↦ simp (live, canceled)
  ]
]
  where
    answered :
        (r : Error ⊎ Text)
        → length (elim r [
          | inl err ↦ http_error 400 (codes "read body: " ++ error_text err) ∷ []
          | inr raw ↦ handle codec write sub (decode codec raw)
        ])
          ≡ 1
    answered (inl err) = refl
    answered (inr raw) = run_single codec total write _ _
