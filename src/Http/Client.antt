-- ===== src/Http/Client.antt =====
-- rpc/http/http.go: `Request`, `Publish` and `New` of the client side. `post` stands for `net/http`: the
-- result of a POST of a body to a URL with the given `Header.Set` calls.
pub mod Loopback
use yggdrasil_sdk_go.Base.{
  ℕ, Bool, Option, none, some, List, [], ◌∷◌, ◌++◌, ◌⊎◌, inl, inr, ◌==◌, leb, if◌then◌else◌,
}
use yggdrasil_sdk_go.Base.Int.{ℤ, pos}
use yggdrasil_sdk_go.Base.Texts.{Text, codes, is_empty, trim_right, show_int}
use yggdrasil_sdk_go.Base.Dict.{Dict}
use yggdrasil_sdk_go.Rpc.{
  Error, timeout, endpoint_unknown, message, wrapped, Envelope, Codec, Request, Reply,
}

-- The configuration fields that `Request` reads.
pub record Target : Type 0 where
  pub base_url : Text
  pub path_prefix : Text

abbrev pub default_path_prefix : Text
default_path_prefix = codes "/rpc/"

-- `New`, as far as these fields go.
unfoldable pub new : Target → Target
new t = record t {
  path_prefix = if is_empty t.path_prefix then default_path_prefix else t.path_prefix;
}

-- How a POST ends: the request cannot be built, no response came, in time or at all, its body cannot
-- be read, or a response came with a status, a Content-Type and a body.
pub data PostResult : Type 0 where
  unbuilt : Error → PostResult
  deadline_exceeded : PostResult
  undelivered : Error → PostResult
  unreadable : Error → PostResult
  responded : ℕ → Text → Text → PostResult

abbrev pub Post : Type 0
Post = (url : Text) → (headers : Dict Text) → (body : Text) → ℤ → PostResult

abbrev pub request_envelope : Request → Envelope
request_envelope req = record {
  correlation_id = req.correlation_id;
  reply_to = [];
  headers = req.headers;
  content_type = req.content_type;
  body = req.body;
}

reply_of : Request → Text → Text → Option Envelope → Reply
reply_of req content_type body none = record {
  body = body;
  content_type = content_type;
  headers = [];
  correlation_id = req.correlation_id;
}
reply_of req content_type body (some e) = record {
  body = e.body;
  content_type = e.content_type;
  headers = e.headers;
  correlation_id = e.correlation_id;
}

read_response : Codec → Request → PostResult → Error ⊎ Reply
unfolding reply_of
read_response codec req (unbuilt err) = inl (wrapped (codes "http request: build: ") err)
read_response codec req deadline_exceeded = inl timeout
read_response codec req (undelivered err) = inl (wrapped (codes "http request: do: ") err)
read_response codec req (unreadable err) = inl (wrapped (codes "http request: read response: ") err)
read_response codec req (responded status content_type body) =
    if status == 404
    then inl endpoint_unknown
    else if leb 400 status
    then inl (
        message (
          codes "http request: remote returned HTTP "
          ++ (show_int (pos status) ++ (codes ": " ++ body))))
    else inr (reply_of req content_type body (codec.unmarshal body))

abbrev pub url_of : Target → Request → Text
url_of t req = trim_right b'/' t.base_url ++ (t.path_prefix ++ req.endpoint)

send : Codec → Post → Target → Request → Option Text → Error ⊎ Reply
unfolding read_response
send codec post t req none = inl (message (codes "http request: encode envelope"))
send codec post t req (some body) = read_response codec req (
    post (url_of t req) ((codes "Content-Type", codes "application/json") ∷ req.headers) body
      req.timeout)

unfoldable pub request : Codec → Post → Target → Request → Error ⊎ Reply
unfolding send
request codec post t req =
    if is_empty req.endpoint
    then inl (message (codes "http request: endpoint is required"))
    else if is_empty t.base_url
    then inl (message (codes "http request: BaseURL is required"))
    else send codec post t req (codec.marshal (request_envelope req))

error_of : Error ⊎ Reply → Option Error
error_of (inl err) = some err
error_of (inr _) = none

unfoldable pub publish : Codec → Post → Target → Request → Option Error
unfolding error_of
publish codec post t req = error_of (request codec post t req)
