-- ===== src/Surface/Handlers.antt =====
-- surface/handler.go and handler_helpers.go: the three endpoints of a surface. `encode` is the JSON
-- encoder, `H` the headers of a request; the request's path is matched by `net/http`.
pub mod Limits
use yggdrasil_sdk_go.Base.{
  ℕ, ◌+◌, ◌*◌, Option, none, some, List, [], ◌∷◌, ◌++◌, ◌⊎◌, inl, inr, length, leb, if◌then◌else◌,
}
use yggdrasil_sdk_go.Base.Texts.{Text, codes, is_empty, show_nat}
use yggdrasil_sdk_go.Rpc.{Error, message, wrapped, error_text}
use yggdrasil_sdk_go.Surface.Manifest.{Manifest}

-- `DataRequest`
pub record DataRequest (H : Type 0) : Type 0 where
  pub view_id : Text
  pub raw_query : Text
  pub header : H

-- `ActionRequest`
pub record ActionRequest (H : Type 0) : Type 0 where
  pub action_id : Text
  pub body : Text
  pub header : H

-- `DataHandler`; a nil result is `none`.
pub record DataHandler (H V : Type 0) : Type 0 where
  pub handle_data : DataRequest H → Error ⊎ Option V
  pub handle_action : ActionRequest H → Error ⊎ Option V

-- What is written as JSON: the manifest, `errorBody` of a text, or a result of the handler.
pub data Value (V : Type 0) : Type 0 where
  the_manifest : Manifest → Value V
  error_body : Text → Value V
  given : V → Value V

pub record Answer : Type 0 where
  pub status : ℕ
  pub body : Text

-- The calls of the handler, in order.
pub data Call (H : Type 0) : Type 0 where
  data_call : DataRequest H → Call H
  action_call : ActionRequest H → Call H

pub record Served (H : Type 0) : Type 0 where
  pub calls : List (Call H)
  pub answer : Answer

abbrev pub max_action_body_bytes : ℕ
max_action_body_bytes = 512 * 1024

-- A request's body, if it has one: what `io.ReadAll` of it gives under an `io.LimitReader`.
abbrev pub Body : Type 0
Body = Option (ℕ → Error ⊎ Text)

within_limit : Error ⊎ Text → Error ⊎ Text
within_limit (inl err) = inl (wrapped (codes "read action body: ") err)
within_limit (inr raw) =
    if leb (length raw) max_action_body_bytes
    then inr raw
    else inl (
        message
          (codes "action body exceeds " ++ (show_nat max_action_body_bytes ++ codes " bytes")))

-- `ReadActionBody`
unfoldable pub read_action_body : Body → Error ⊎ Text
unfolding within_limit
read_action_body none = inr []
read_action_body (some read) = within_limit (read (max_action_body_bytes + 1))

module _ {V : Type 0} (encode : Value V → Error ⊎ Text) where
  encoded : Error ⊎ Text → Text
  encoded (inr json) = json
  encoded (inl err) = codes "{\"error\":\"encode failed: " ++ (error_text err ++ codes "\"}")

  -- `WriteJSON`, to a connection that takes what is written.
  unfoldable pub write_json : ℕ → Option (Value V) → Answer
  unfolding encoded
  write_json status none = record { status = status; body = codes "null" }
  write_json status (some v) = record { status = status; body = encoded (encode v) }

  as_value : Option V → Option (Value V)
  as_value none = none
  as_value (some v) = some (given v)

  -- The answer behind a call of the handler.
  pub result_answer : Error ⊎ Option V → Answer
  unfolding write_json as_value
  result_answer (inl err) = write_json 500 (some (error_body (error_text err)))
  result_answer (inr out) = write_json 200 (as_value out)

  module _ {H : Type 0} where
    bad_request : Text → Served H
    unfolding write_json
    bad_request text = record { calls = []; answer = write_json 400 (some (error_body text)) }

    -- GET /surface/manifest
    unfoldable pub serve_manifest : Manifest → Served H
    unfolding write_json
    serve_manifest m = record { calls = []; answer = write_json 200 (some (the_manifest m)) }

    module _ (h : DataHandler H V) where
      call_data : DataRequest H → Served H
      unfolding result_answer
      call_data req = record {
        calls = data_call req ∷ [];
        answer = result_answer (h.handle_data req);
      }

      -- GET /surface/data/{viewId}
      unfoldable pub serve_data : Text → Text → H → Served H
      unfolding bad_request call_data
      serve_data view_id raw_query header =
          if is_empty view_id
          then bad_request (codes "viewId is required")
          else call_data (record { view_id = view_id; raw_query = raw_query; header = header })

      call_action : Text → H → Error ⊎ Text → Served H
      unfolding bad_request result_answer
      call_action action_id header (inl err) = bad_request (error_text err)
      call_action action_id header (inr body) =
          let req : ActionRequest H = record {
            action_id = action_id;
            body = body;
            header = header;
          } in
          record { calls = action_call req ∷ []; answer = result_answer (h.handle_action req) }

      -- POST /surface/action/{actionId}
      unfoldable pub serve_action : Text → Body → H → Served H
      unfolding bad_request call_action read_action_body
      serve_action action_id body header =
          if is_empty action_id
          then bad_request (codes "actionId is required")
          else call_action action_id header (read_action_body body)
