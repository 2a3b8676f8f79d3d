-- ===== src/Events/Noop.antt =====
-- sdk/events/types.go: the emitter that only logs. `quote` is `%q`.
use yggdrasil_sdk_go.Base.{Bool, Option, none, List, [], ◌∷◌, ◌++◌, if◌then◌else◌}
use yggdrasil_sdk_go.Base.Texts.{Text, codes}
use yggdrasil_sdk_go.Rpc.{Error}
use yggdrasil_sdk_go.Events.{MutationEvent}

suppressed : (Text → Text) → MutationEvent → Text
suppressed quote e =
    codes "events: noop emitter suppressed mutation event "
    ++ (quote e.event_type
        ++ (codes " (resource_id="
            ++ (quote e.resource_id
                ++ (codes " instance_id=" ++ (quote e.instance_id ++ codes ")")))))

-- `NoopEmitter.Emit`, with whether it has a logger: its error and what it logs, by that logger or by
-- `log.Printf`.
unfoldable pub noop_emit : (Text → Text) → Bool → MutationEvent → Option Error × List Text
unfolding suppressed
noop_emit quote has_logger e =
    (none, (if has_logger then suppressed quote e else codes "WARN " ++ suppressed quote e) ∷ [])
