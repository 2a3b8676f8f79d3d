-- ===== src/Events/Emit.antt =====
-- sdk/events/http.go: the emitter that posts an event. JSON, the client and the context are a network:
-- what the attempts of one emission, counted from 0, get of them.
pub mod Budget
pub mod Outcomes
use yggdrasil_sdk_go.Base.{
  ℕ, zero, suc, ◌-◌, ◌+◌, Bool, true, false, Option, none, some, List, [], ◌∷◌, ◌++◌, ◌&&◌, ltb,
  leb, ◌==◌, ◌⊎◌, inl, inr, length, take, if◌then◌else◌,
}
use yggdrasil_sdk_go.Base.Int.{ℤ, pos, pos_part, ltb_ℤ}
use yggdrasil_sdk_go.Base.Texts.{Text, codes, is_empty, show_nat, trim_right}
use yggdrasil_sdk_go.Events.{MutationEvent}
use yggdrasil_sdk_go.Rpc.{Error, message, wrapped}

-- `httpEmitter`; of the client, whether one is set.
pub record HttpEmitter : Type 0 where
  pub core_url : Text
  pub events_path : Text
  pub token : Text
  pub has_client : Bool
  pub max_retries : ℤ
  pub retry_backoff : ℤ

abbrev pub HttpOption : Type 0
HttpOption = HttpEmitter → HttpEmitter

unfoldable pub with_core_url : Text → HttpOption
with_core_url url e = record e { core_url = url }

unfoldable pub with_token : Text → HttpOption
with_token token e = record e { token = token }

unfoldable pub with_http_client : Bool → HttpOption
with_http_client given e = record e { has_client = given }

unfoldable pub with_max_retries : ℤ → HttpOption
with_max_retries n e = record e { max_retries = n }

unfoldable pub with_retry_backoff : ℤ → HttpOption
with_retry_backoff d e = record e { retry_backoff = d }

unfoldable pub with_events_path : Text → HttpOption
with_events_path path e = record e { events_path = path }

-- `DefaultEventsPath`, `DefaultMaxRetries` and `DefaultRetryBackoff`, in nanoseconds.
abbrev pub default_events_path : Text
default_events_path = codes "/api/v1/events"

abbrev pub default_max_retries : ℤ
default_max_retries = pos 3

abbrev pub default_retry_backoff : ℤ
default_retry_backoff = pos 250000000

unfoldable pub apply_options : List HttpOption → HttpOption
apply_options [] e = e
apply_options (opt ∷ opts) e = apply_options opts (opt e)

unfoldable pub positive_or : ℤ → ℤ → ℤ
positive_or default n = if ltb_ℤ (pos 0) n then n else default

-- The defaults that are put where an option has left none.
unfoldable pub with_defaults : HttpOption
unfolding positive_or
with_defaults e = record {
  core_url = e.core_url;
  events_path = if is_empty e.events_path then default_events_path else e.events_path;
  token = e.token;
  has_client = true;
  max_retries = positive_or default_max_retries e.max_retries;
  retry_backoff = positive_or default_retry_backoff e.retry_backoff;
}

-- `NewHTTPEmitter`, with the values of the two environment variables.
unfoldable pub new_http_emitter : (env_core_url env_token : Text) → List HttpOption → HttpEmitter
new_http_emitter env_core_url env_token opts = with_defaults (
    apply_options opts (record {
      core_url = env_core_url;
      events_path = default_events_path;
      token = env_token;
      has_client = false;
      max_retries = default_max_retries;
      retry_backoff = default_retry_backoff;
    }))

-- The request's URL, its `Authorization` if it has one, and its body.
pub record Post : Type 0 where
  pub url : Text
  pub authorization : Option Text
  pub body : Text

-- What `client.Do` returns.
pub data Answer : Type 0 where
  failed : Error → Answer
  answered : (status : ℕ) → Text → Answer

-- What an emission does.
pub data Effect : Type 0 where
  waited : ℤ → Effect
  posted : Post → Effect

-- `json.Marshal` of the event with its time, `http.NewRequestWithContext`, the client, and the
-- context's error as the backoff before a request and the failure of a request find it.
pub record Network : Type 0 where
  pub marshal : MutationEvent → Error ⊎ Text
  pub build_error : Text → Option Error
  pub answers : ℕ → Answer
  pub cancelled_in_backoff : ℕ → Option Error
  pub cancelled_after : ℕ → Option Error

unfoldable pub truncate : Text → ℕ → Text
truncate s n = if leb (length s) n then s else take n s ++ codes "..."

abbrev pub Emission : Type 0
Emission = Option Error × List Effect

abbrev pub and_then : Effect → Emission → Emission
and_then x r = (r.0, x ∷ r.1)

unfoldable pub status_error : Text → Text → ℕ → Text → Error
unfolding truncate
status_error url kind status response = message (
    codes "events: POST "
    ++ (url
        ++ (codes ": "
            ++ (kind
                ++ (codes " status "
                    ++ (show_nat status ++ (codes ": " ++ truncate response 256)))))))

unfoldable pub within : ℕ → ℕ → ℕ → Bool
within low high n = leb low n && ltb n high

unfoldable pub post_of : HttpEmitter → Text → Text → Post
post_of h url body = record {
  url = url;
  authorization = if is_empty h.token then none else some (codes "Bearer " ++ h.token);
  body = body;
}

-- The end of an attempt, which `again` goes on from with its error.
unfoldable pub after_answer : Text → Option Error → Answer → (Error → Emission) → Emission
unfolding within status_error
after_answer url none (failed err) again =
    again (wrapped (codes "events: POST " ++ (url ++ codes ": ")) err)
after_answer url (some _) (failed err) again =
    (some (wrapped (codes "events: POST " ++ (url ++ codes ": ")) err), [])
after_answer url _ (answered status response) again =
    if within 200 300 status
    then (none, [])
    else if within 400 500 status
    then (some (status_error url (codes "terminal") status response), [])
    else again (status_error url (codes "transient") status response)

unfoldable pub make_request :
    Network → HttpEmitter → (url body : Text) → ℕ → Option Error → (Error → Emission) → Emission
unfolding after_answer post_of
make_request net h url body attempt (some err) again =
    (some (wrapped (codes "events: build request: ") err), [])
make_request net h url body attempt none again =
    and_then (posted (post_of h url body))
      (after_answer url (net.cancelled_after attempt) (net.answers attempt) again)

backoff : ℤ → Option Error → Emission → Emission
backoff d (some err) go =
    (some (wrapped (codes "events: context cancelled during retry backoff: ") err), [])
backoff d none go = and_then (waited d) go

-- Before the first attempt there is no wait.
before : Network → ℤ → ℕ → Emission → Emission
unfolding backoff
before net d zero go = go
before net d (suc a) go = backoff d (net.cancelled_in_backoff (suc a)) go

last_error : Text → Option Error → Error
last_error url (some err) = err
last_error url none =
    message (codes "events: POST " ++ (url ++ codes ": exhausted retries with no error captured"))

-- `left` attempts from the given one on.
unfoldable pub attempts :
    Network → HttpEmitter → (url body : Text) → (left attempt : ℕ) → Option Error → Emission
unfolding make_request before last_error
attempts net h url body zero attempt last = (some (last_error url last), [])
attempts net h url body (suc left) attempt last = before net h.retry_backoff attempt (
    make_request net h url body attempt (net.build_error url)
      (λ err. attempts net h url body left (suc attempt) (some err)))

emit_marshaled : Network → HttpEmitter → Error ⊎ Text → Emission
unfolding attempts
emit_marshaled net h (inl err) = (some (wrapped (codes "events: marshal mutation event: ") err), [])
emit_marshaled net h (inr body) =
    attempts net h (trim_right b'/' h.core_url ++ h.events_path) body (pos_part h.max_retries) 0
      none

unfoldable pub emit : Network → HttpEmitter → MutationEvent → Emission
unfolding emit_marshaled
emit net h e = emit_marshaled net h (net.marshal e)
