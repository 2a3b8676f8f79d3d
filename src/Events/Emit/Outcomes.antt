-- ===== src/Events/Emit/Outcomes.antt =====
-- When an emission of sdk/events/http.go succeeds.
use yggdrasil_sdk_go.Base.{
  ℕ, zero, suc, ◌+◌, ◌<◌, ◌≤◌, Option, none, some, ◌++◌, ◌≡◌, ◌≢◌, ◌↔◌, sym, subst, ◌⊎◌, inl, inr,
  refl, arith, if◌then◌else◌, Option-cases,
}
use yggdrasil_sdk_go.Base.Int.{pos_part}
use yggdrasil_sdk_go.Base.Texts.{Text, trim_right}
use yggdrasil_sdk_go.Events.{MutationEvent}
use yggdrasil_sdk_go.Rpc.{Error}
use yggdrasil_sdk_go.Events.Emit.{
  HttpEmitter, Answer, failed, answered, Network, Emission, after_answer, make_request, before,
  backoff, attempts, within, emit_marshaled, emit,
}

abbrev pub IsSuccess : Answer → Type 0
IsSuccess (failed err) = ⊥
IsSuccess (answered status response) = (200 ≤ status) × (status < 300)

-- The attempt is followed by another: a status that is no success and no 4xx, or a failure while the
-- context is not done.
abbrev pub IsTransient : Option Error → Answer → Type 0
IsTransient cancelled (failed err) = cancelled ≡ none
IsTransient cancelled (answered status response) =
    (status < 200) ⊎ ((300 ≤ status) × (status < 400)) ⊎ (500 ≤ status)

-- The wait before the attempt is not cut short.
abbrev pub Ready : Network → ℕ → Type 0
Ready net zero = Unit
Ready net (suc a) = net.cancelled_in_backoff (suc a) ≡ none

-- From an attempt on, one of the next `left` is made and succeeds.
abbrev pub Reaches : Network → (left attempt : ℕ) → Type 0
Reaches net zero a = ⊥
Reaches net (suc left) a =
    Ready net a
    × (IsSuccess (net.answers a)
        ⊎ (IsTransient (net.cancelled_after a) (net.answers a) × Reaches net left (suc a)))

status_goes_on :
    {P : Type 0} (status : ℕ) (ok terminal again : Emission)
    → (ok.0 ≡ none)
    → (terminal.0 ≢ none)
    → ((again.0 ≡ none) ↔ P)
    → ((if within 200 300 status then ok else if within 400 500 status then terminal else again).0
        ≡ none)
      ↔ (((200 ≤ status) × (status < 300))
          ⊎ (((status < 200) ⊎ ((300 ≤ status) × (status < 400)) ⊎ (500 ≤ status)) × P))
unfolding within
status_goes_on status ok terminal again h t e = ground arith

after_answer-none :
    {P : Type 0} (url : Text) (cancelled : Option Error) (ans : Answer) (again : Error → Emission)
    → ((err : Error) → ((again err).0 ≡ none) ↔ P)
    → ((after_answer url cancelled ans again).0 ≡ none)
      ↔ (IsSuccess ans ⊎ (IsTransient cancelled ans × P))
unfolding after_answer
after_answer-none url none (failed err) again h = (
  (λ e. inr (refl, (h _).0 e)),
  λ g. elim g [ inl none_here ↦ absurd none_here | inr (_, p) ↦ (h _).1 p ],
)
after_answer-none url (some c) (failed err) again h =
    ((λ e. cc), λ g. elim g [ inl none_here ↦ absurd none_here | inr (e, p) ↦ cc ])
after_answer-none url none (answered status response) again h =
    status_goes_on status _ _ _ refl (λ e. cc) (h _)
after_answer-none url (some c) (answered status response) again h =
    status_goes_on status _ _ _ refl (λ e. cc) (h _)

module _ (net : Network) (h : HttpEmitter) (url body : Text)
    (built : net.build_error url ≡ none) where
  attempts-none :
      (left a : ℕ) (last : Option Error)
      → ((attempts net h url body left a last).0 ≡ none) ↔ Reaches net left a
  unfolding attempts make_request before backoff
  attempts-none zero a last = ((λ e. cc), λ no. absurd no)
  attempts-none (suc left) zero last =
      let (to, from) =
        after_answer-none url (net.cancelled_after 0) (net.answers 0)
          (λ err. attempts net h url body left 1 (some err))
          (λ err. attempts-none left 1 (some err)) in
      rw built (λ e. (tt, to e), λ g. from g.1)
  attempts-none (suc left) (suc a) last =
      let (to, from) =
        after_answer-none url (net.cancelled_after (suc a)) (net.answers (suc a))
          (λ err. attempts net h url body left (suc (suc a)) (some err))
          (λ err. attempts-none left (suc (suc a)) (some err)) in
      elim (Option-cases (net.cancelled_in_backoff (suc a))) [
        | inl go ↦ rw (built, go) (λ e. (refl, to e), λ g. from g.1)
        | inr (err, stop) ↦ rw stop (λ e. cc, λ g. cc)
      ]

-- An attempt among those from `a` up to `b`, `b` left out, succeeds; every earlier one is followed by
-- another, and no wait up to it is cut short.
abbrev pub DeliversIn : Network → (a b : ℕ) → Type 0
DeliversIn net a b =
    (k : ℕ) × (a ≤ k)
    × (k < b)
    × IsSuccess (net.answers k)
    × ((j : ℕ) → a ≤ j → j < k → IsTransient (net.cancelled_after j) (net.answers j))
    × ((j : ℕ) → a ≤ j → j ≤ k → Ready net j)

from_first : {a j : ℕ} → a ≤ j → (a ≡ j) ⊎ (suc a ≤ j)
from_first h = ground arith

module _ (net : Network) where
  delivers_first :
      (left a : ℕ) → Ready net a → IsSuccess (net.answers a) → DeliversIn net a (a + suc left)
  delivers_first left a ready ok = (
    a,
    omega arith,
    omega arith,
    ok,
    λ j low high. absurd (omega arith),
    λ j low high. subst (Ready net) (omega arith) ready,
  )

  delivers_later :
      (left a : ℕ)
      → Ready net a
      → IsTransient (net.cancelled_after a) (net.answers a)
      → DeliversIn net (suc a) (suc a + left)
      → DeliversIn net a (a + suc left)
  delivers_later left a ready t (k, low, high, ok, earlier, waits) = (
    k,
    omega arith,
    omega arith,
    ok,
    λ j l m. elim (from_first l) [
      | inl e ↦ subst (λ i. IsTransient (net.cancelled_after i) (net.answers i)) e t
      | inr later ↦ earlier j later m
    ],
    λ j l m. elim (from_first l) [
      | inl e ↦ subst (Ready net) e ready
      | inr later ↦ waits j later m
    ],
  )

  Reaches-DeliversIn : (left a : ℕ) → Reaches net left a ↔ DeliversIn net a (a + left)
  Reaches-DeliversIn zero a =
      (λ h. absurd h, λ (k, low, high, ok, earlier, waits). absurd (omega arith))
  Reaches-DeliversIn (suc left) a =
      let (to, from) = Reaches-DeliversIn left (suc a) in
      (
        λ (ready, next). elim next [
          | inl ok ↦ delivers_first left a ready ok
          | inr (t, later) ↦ delivers_later left a ready t (to later)
        ],
        λ (k, low, high, ok, earlier, waits). (
          waits a (omega arith) low,
          elim (from_first low) [
            | inl e ↦ inl (subst (λ i. IsSuccess (net.answers i)) (sym e) ok)
            | inr later ↦ inr (
              earlier a (omega arith) later,
              from (
                k,
                later,
                omega arith,
                ok,
                λ j l m. earlier j (omega arith) m,
                λ j l m. waits j (omega arith) m,
              ),
            )
          ],
        ),
      )

Reaches-DeliversIn_from_start : (net : Network) (n : ℕ) → Reaches net n 0 ↔ DeliversIn net 0 n
Reaches-DeliversIn_from_start net n =
    subst (λ m. Reaches net n 0 ↔ DeliversIn net 0 m) (omega arith) (Reaches-DeliversIn net n 0)

attempts_unbuilt :
    (net : Network) (h : HttpEmitter) (url body : Text) (left : ℕ) (err : Error)
    → net.build_error url ≡ some err
    → (attempts net h url body left 0 none).0 ≢ none
unfolding attempts make_request before
attempts_unbuilt net h url body zero err e = λ bad. cc
attempts_unbuilt net h url body (suc left) err e = rw e (λ bad. cc)

emit_marshaled_iff :
    (net : Network) (h : HttpEmitter) (m : Error ⊎ Text)
    → ((emit_marshaled net h m).0 ≡ none) ↔ (
        ((body : Text) × (m ≡ inr body))
        × (net.build_error (trim_right b'/' h.core_url ++ h.events_path) ≡ none)
        × DeliversIn net 0 (pos_part h.max_retries))
unfolding emit_marshaled
emit_marshaled_iff net h (inl err) = (λ e. cc, λ ((body, e), b, d). cc)
emit_marshaled_iff net h (inr body) =
    let url = trim_right b'/' h.core_url ++ h.events_path in
    let tries = pos_part h.max_retries in
    elim (Option-cases (net.build_error url)) [
      | inl built ↦
          let (to, from) = attempts-none net h url body built tries 0 none in
          let (reach, back) = Reaches-DeliversIn_from_start net tries in
          (λ e. ((body, refl), built, reach (to e)), λ (_, _, d). from (back d))
      | inr (err, broken) ↦
          (λ e. absurd (attempts_unbuilt net h url body tries err broken e), λ (_, b, d). cc)
    ]

-- An emission succeeds exactly when the event has a JSON text, the URL makes a request, and one of
-- the first `max_retries` attempts gets a 2xx status, where every attempt before it got a status that
-- is neither 2xx nor 4xx, or failed while the context was not done, and no wait before it or them was
-- cut short.
pub emit_succeeds_iff :
    (net : Network) (h : HttpEmitter) (e : MutationEvent)
    → ((emit net h e).0 ≡ none) ↔ (
        ((body : Text) × (net.marshal e ≡ inr body))
        × (net.build_error (trim_right b'/' h.core_url ++ h.events_path) ≡ none)
        × DeliversIn net 0 (pos_part h.max_retries))
unfolding emit
emit_succeeds_iff net h e = emit_marshaled_iff net h (net.marshal e)
