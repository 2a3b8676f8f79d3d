-- ===== src/Rpc/Envelopes.antt =====
-- The JSON framing of rpc/transport.go, and the requests and replies of a client. `encoding/json`
-- stands behind a codec.
use yggdrasil_sdk_go.Base.{Option, some, [], ◌≡◌, ◌≢◌}
use yggdrasil_sdk_go.Base.Int.{ℤ}
use yggdrasil_sdk_go.Base.Texts.{Text}
use yggdrasil_sdk_go.Base.Dict.{Dict}

pub record Envelope : Type 0 where
  pub correlation_id : Text
  pub reply_to : Text
  pub headers : Dict Text
  pub content_type : Text
  pub body : Text

-- `json.Marshal` and `json.Unmarshal` at `Envelope`.
pub record Codec : Type 0 where
  pub marshal : Envelope → Option Text
  pub unmarshal : Text → Option Envelope

-- What `encoding/json` promises of an envelope of valid UTF-8: a JSON that is not empty and reads back.
pub record Frames (c : Codec) (e : Envelope) (json : Text) : Type 0 where
  pub written : c.marshal e ≡ some json
  pub nonempty : json ≢ []
  pub read_back : c.unmarshal json ≡ some e

-- `rpc.Request`; the timeout counts nanoseconds.
pub record Request : Type 0 where
  pub endpoint : Text
  pub body : Text
  pub content_type : Text
  pub headers : Dict Text
  pub correlation_id : Text
  pub timeout : ℤ

-- `rpc.Reply`
pub record Reply : Type 0 where
  pub body : Text
  pub content_type : Text
  pub headers : Dict Text
  pub correlation_id : Text
