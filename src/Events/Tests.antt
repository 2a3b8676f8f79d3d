-- ===== src/Events/Tests.antt =====
-- The theorems on sdk/events/http.go at work.
use yggdrasil_sdk_go.Base.{none, ◌++◌, [], ◌≡◌, ◌↔◌, ◌==◌, inr, if◌then◌else◌}
use yggdrasil_sdk_go.Base.Int.{pos_part}
use yggdrasil_sdk_go.Base.Texts.{Text, codes, trim_right}
use yggdrasil_sdk_go.Events.{ensured, MutationEvent}
use yggdrasil_sdk_go.Events.Emit.{HttpEmitter, answered, Network, new_http_emitter, emit}
use yggdrasil_sdk_go.Events.Emit.Outcomes.{DeliversIn, emit_succeeds_iff}

abbrev event : MutationEvent
event = record {
  event_type = codes "github.repo.ensured";
  provider = codes "github";
  resource = codes "repo";
  verb = ensured;
  resource_id = codes "7";
  instance_id = [];
  idempotency = codes "k";
  observed = codes "{}";
}

-- It is busy at first.
abbrev net : Network
net = record {
  marshal = λ e. inr e.observed;
  build_error = λ url. none;
  answers = λ i. if i == 0 then answered 503 (codes "busy") else answered 202 [];
  cancelled_in_backoff = λ i. none;
  cancelled_after = λ i. none;
}

abbrev emitter : HttpEmitter
emitter = new_http_emitter (codes "http://core/") (codes "secret") []

emit_succeeds_iff_example : ((emit net emitter event).0 ≡ none) ↔ (
    ((body : Text) × (net.marshal event ≡ inr body))
    × (net.build_error (trim_right b'/' emitter.core_url ++ emitter.events_path) ≡ none)
    × DeliversIn net 0 (pos_part emitter.max_retries))
emit_succeeds_iff_example = emit_succeeds_iff net emitter event
