-- ===== src/Events/Emit/Budget.antt =====
-- What an emission of sdk/events/http.go posts, and how the emitter that it uses is made.
use yggdrasil_sdk_go.Base.{
  ℕ, zero, suc, ◌≤◌, Option, none, some, List, [], ◌∷◌, ◌++◌, ◌≡◌, inl, inr, refl, arith,
  if◌then◌else◌, Option-cases, Bool-cases, length, All,
}
use yggdrasil_sdk_go.Base.Int.{ℤ, pos_part}
use yggdrasil_sdk_go.Base.Texts.{Text, trim_right}
use yggdrasil_sdk_go.Events.{MutationEvent}
use yggdrasil_sdk_go.Rpc.{Error}
use yggdrasil_sdk_go.Events.Emit.{
  HttpEmitter, HttpOption, Answer, failed, answered, Network, Effect, waited, posted, Post, post_of,
  Emission, after_answer, make_request, before, backoff, attempts, emit_marshaled, emit,
  positive_or, with_defaults, new_http_emitter, within,
}

-- The requests among the effects.
unfoldable pub posts_of : List Effect → List Post
posts_of [] = []
posts_of (posted p ∷ more) = p ∷ posts_of more
posts_of (waited d ∷ more) = posts_of more

-- At most `n` requests, each of them `p`.
abbrev pub PostsOnly : Post → ℕ → List Effect → Type 0
PostsOnly p n effects = (length (posts_of effects) ≤ n) × All (λ q. q ≡ p) (posts_of effects)

status_posts :
    (p : Post) (n status : ℕ) (ok terminal again : Emission)
    → PostsOnly p n ok.1
    → PostsOnly p n terminal.1
    → PostsOnly p n again.1
    → PostsOnly p n
        (if within 200 300 status then ok else if within 400 500 status then terminal else again).1
status_posts p n status ok terminal again h t e = elim (Bool-cases (within 200 300 status)) [
  | inl yes_ok ↦ rw yes_ok h
  | inr no_ok ↦ rw no_ok (elim (Bool-cases (within 400 500 status)) [
    | inl yes_end ↦ rw yes_end t
    | inr no_end ↦ rw no_end e
  ])
]

module _ (net : Network) (h : HttpEmitter) (url body : Text) where
  after_answer_posts :
      (n : ℕ) (c : Option Error) (ans : Answer) (again : Error → Emission)
      → ((err : Error) → PostsOnly (post_of h url body) n (again err).1)
      → PostsOnly (post_of h url body) n (after_answer url c ans again).1
  unfolding after_answer posts_of
  after_answer_posts n none (failed err) again h = h _
  after_answer_posts n (some e) (failed err) again h = (omega arith, tt)
  after_answer_posts n none (answered status response) again h =
      status_posts _ n status _ _ _ (omega arith, tt) (omega arith, tt) (h _)
  after_answer_posts n (some e) (answered status response) again h =
      status_posts _ n status _ _ _ (omega arith, tt) (omega arith, tt) (h _)

  before_posts :
      (n a : ℕ) (d : ℤ) (go : Emission)
      → PostsOnly (post_of h url body) n go.1
      → PostsOnly (post_of h url body) n (before net d a go).1
  unfolding before backoff posts_of
  before_posts n zero d go ok = ok
  before_posts n (suc a) d go ok = elim (Option-cases (net.cancelled_in_backoff (suc a))) [
    | inl on ↦ rw on ok
    | inr (err, stop) ↦ rw stop (omega arith, tt)
  ]

  make_request_posts :
      (n a : ℕ) (e : Option Error) (again : Error → Emission)
      → ((err : Error) → PostsOnly (post_of h url body) n (again err).1)
      → PostsOnly (post_of h url body) (suc n) (make_request net h url body a e again).1
  unfolding make_request posts_of
  make_request_posts n a (some err) again ok = (omega arith, tt)
  make_request_posts n a none again ok =
      let (bound, same) = after_answer_posts n (net.cancelled_after a) (net.answers a) again ok in
      (omega arith, (refl, same))

  attempts_posts :
      (left a : ℕ) (last : Option Error)
      → PostsOnly (post_of h url body) left (attempts net h url body left a last).1
  unfolding attempts posts_of
  attempts_posts zero a last = (omega arith, tt)
  attempts_posts (suc left) a last = before_posts (suc left) a h.retry_backoff _ (
      make_request_posts left a (net.build_error url) _
        (λ err. attempts_posts left (suc a) (some err)))

-- An emission, whatever its outcome, posts at most `max_retries` times, and always the same request:
-- the JSON of the event to the URL of the emitter, with its token.
pub emit_posts_bounded :
    (net : Network) (h : HttpEmitter) (e : MutationEvent) (body : Text)
    → net.marshal e ≡ inr body
    → PostsOnly
        (post_of h (trim_right b'/' h.core_url ++ h.events_path) body)
        (pos_part h.max_retries)
        (emit net h e).1
unfolding emit emit_marshaled
emit_posts_bounded net h e body m = rw m (
    attempts_posts net h (trim_right b'/' h.core_url ++ h.events_path) body (pos_part h.max_retries)
      0 none)

some_attempts :
    (env_core_url env_token : Text) (opts : List HttpOption)
    → 1 ≤ pos_part (new_http_emitter env_core_url env_token opts).max_retries
unfolding new_http_emitter with_defaults positive_or
some_attempts env_core_url env_token opts = ground arith

first_attempt_posts :
    (net : Network) (h : HttpEmitter) (url body : Text) (n : ℕ)
    → 1 ≤ n
    → net.build_error url ≡ none
    → 1 ≤ length (posts_of (attempts net h url body n 0 none).1)
unfolding attempts make_request before posts_of
first_attempt_posts net h url body zero some_left built = absurd (omega arith)
first_attempt_posts net h url body (suc left) some_left built = rw built (omega arith)

-- An emitter that `NewHTTPEmitter` makes, whatever its options and the environment, posts at least
-- once for an event that has a JSON text, if its URL makes a request.
pub new_http_emitter_posts :
    (net : Network) (env_core_url env_token : Text) (opts : List HttpOption) (e : MutationEvent)
    (body : Text)
    → net.marshal e ≡ inr body
    → net.build_error (
        trim_right b'/' (new_http_emitter env_core_url env_token opts).core_url
        ++ (new_http_emitter env_core_url env_token opts).events_path)
      ≡ none
    → 1 ≤ length (posts_of (emit net (new_http_emitter env_core_url env_token opts) e).1)
unfolding emit emit_marshaled
new_http_emitter_posts net env_core_url env_token opts e body m built = rw m (
    first_attempt_posts net (new_http_emitter env_core_url env_token opts) _ body _
      (some_attempts env_core_url env_token opts) built)
