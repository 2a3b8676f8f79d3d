-- ===== src/Webhook/Stop.antt =====
-- webhookhttp/server.go: how `ListenAndServe` ends, on the HTTP server that it makes.
use yggdrasil_sdk_go.Base.{Option, none, some, List, [], ◌∷◌}
use yggdrasil_sdk_go.Base.Texts.{codes}
use yggdrasil_sdk_go.Rpc.{Error, wrapped}

-- What the select gets: the end of the context, or what the server returns, which is
-- `http.ErrServerClosed` or another error.
pub data Stop : Type 0 where
  canceled server_closed : Stop
  failed : Error → Stop

-- Behind the end of the context the server is shut down and waited for.
pub data Event : Type 0 where
  shut_down drained : Event

unfoldable pub listen_and_serve : Stop → Option Error × List Event
listen_and_serve canceled = (none, shut_down ∷ drained ∷ [])
listen_and_serve server_closed = (none, [])
listen_and_serve (failed err) = (some (wrapped (codes "webhookhttp: serve: ") err), [])
