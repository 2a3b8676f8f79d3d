-- ===== src/Reconcile/Emission/Laws.antt =====
-- The events of sdk/reconcile/register.go.
use yggdrasil_sdk_go.Base.{ℕ, [], ◌∷◌, ◌++◌, ◌≡◌, ◌≢◌, refl, if◌then◌else◌}
use yggdrasil_sdk_go.Base.Texts.{Text, is_empty}
use yggdrasil_sdk_go.Events.{Verb}
use yggdrasil_sdk_go.Reconcile.Emission.{
  ExecuteRequest, EmitContext, Clock, synthesize_idempotency_key, event_of,
}

append-cons-ne-nil : (a : Text) (c : ℕ) (b : Text) → a ++ (c ∷ b) ≢ []
append-cons-ne-nil [] c b e = cc
append-cons-ne-nil (x ∷ a) c b e = cc

synthesize_idempotency_key-ne-nil :
    (clock : Clock) (provider resource : Text) (verb : Verb) (id : Text)
    → synthesize_idempotency_key clock provider resource verb id ≢ []
unfolding synthesize_idempotency_key
synthesize_idempotency_key-ne-nil clock provider resource verb id =
    append-cons-ne-nil provider b'.' _

given_or :
    (given key : Text)
    → key ≢ []
    → ((if is_empty given then key else given) ≢ [])
      × (given ≢ [] → (if is_empty given then key else given) ≡ given)
given_or [] key h = (h, λ ne. absurd (ne refl))
given_or (c ∷ s) key h = (λ e. cc, λ ne. refl)

-- The idempotency key of an event is never empty: it is the request's where that has one, and a
-- synthesized one elsewhere.
pub idempotency-event_of :
    (clock : Clock) (ec : EmitContext) (env : ExecuteRequest) (verb : Verb) (id observed : Text)
    → ((event_of clock ec env verb id observed).idempotency ≢ [])
      × (env.idempotency ≢ []
          → (event_of clock ec env verb id observed).idempotency ≡ env.idempotency)
unfolding event_of
idempotency-event_of clock ec env verb id observed =
    given_or env.idempotency _
      (synthesize_idempotency_key-ne-nil clock ec.provider ec.resource verb id)
