-- ===== src/Rpc/Errors.antt =====
-- Go's error values as the program makes them, and the three sentinels of rpc/transport.go.
use yggdrasil_sdk_go.Base.{◌++◌}
use yggdrasil_sdk_go.Base.Texts.{Text, codes}

pub data Error : Type 0 where
  closed : Error
  timeout : Error
  endpoint_unknown : Error
  -- `errors.New(text)`, and `fmt.Errorf` that wraps nothing
  message : Text → Error
  -- `fmt.Errorf(text + "%w", err)`
  wrapped : Text → Error → Error

-- `err.Error()`
unfoldable pub error_text : Error → Text
error_text closed = codes "rpc: transport closed"
error_text timeout = codes "rpc: request timed out"
error_text endpoint_unknown = codes "rpc: endpoint unknown"
error_text (message text) = text
error_text (wrapped text err) = text ++ error_text err
