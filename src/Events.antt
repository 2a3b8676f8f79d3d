-- ===== src/Events.antt =====
-- sdk/events: the mutation event and the emitters.
mod Tests
pub mod Emit
pub mod Noop
use yggdrasil_sdk_go.Base.{◌++◌, ◌∷◌}
use yggdrasil_sdk_go.Base.Texts.{Text, codes}

-- `Verb`
pub data Verb : Type 0 where
  ensured destroyed created : Verb

unfoldable pub verb_text : Verb → Text
verb_text ensured = codes "ensured"
verb_text destroyed = codes "destroyed"
verb_text created = codes "created"

-- `MutationEvent`, without the time that an emitter stamps on it.
pub record MutationEvent : Type 0 where
  pub event_type : Text
  pub provider : Text
  pub resource : Text
  pub verb : Verb
  pub resource_id : Text
  pub instance_id : Text
  pub idempotency : Text
  pub observed : Text

unfoldable pub build_event_type : Text → Text → Verb → Text
unfolding verb_text
build_event_type provider resource verb = provider ++ (b'.' ∷ (resource ++ (b'.' ∷ verb_text verb)))
