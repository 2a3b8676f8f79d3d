-- ===== src/Amqp/Delivery.antt =====
-- rpc/amqp/amqp.go: what `deliverLoop` does with one delivery. The broker's answers are a parameter,
-- and so is whether the subscription has a channel.
pub mod Once
pub mod Answers
pub mod Headers
use yggdrasil_sdk_go.Base.{
  Bool, true, false, Option, none, some, List, [], ◌∷◌, ◌++◌, if◌then◌else◌,
}
use yggdrasil_sdk_go.Base.Texts.{Text, codes, is_empty}
use yggdrasil_sdk_go.Base.Dict.{Dict, put}
use yggdrasil_sdk_go.Rpc.{Error, message, Message, Handler, Delivery, run}

-- A value of an `amqp091.Table`: one of another type comes with its JSON, if it has one.
pub data HeaderValue : Type 0 where
  str : Text → HeaderValue
  bytes : Text → HeaderValue
  other : Option Text → HeaderValue

set_header : Text → HeaderValue → Dict Text → Dict Text
set_header k (str v) m = put k v m
set_header k (bytes v) m = put k v m
set_header k (other none) m = m
set_header k (other (some v)) m = put k v m

headers_onto : Dict HeaderValue → Dict Text → Dict Text
headers_onto [] m = m
headers_onto ((k, v) ∷ t) m = headers_onto t (set_header k v m)

-- A nil map and an empty one read alike.
unfoldable pub table_to_string_headers : Dict HeaderValue → Dict Text
unfolding headers_onto set_header
table_to_string_headers t = headers_onto t []

table_onto : Dict Text → Dict HeaderValue → Dict HeaderValue
table_onto [] t = t
table_onto ((k, v) ∷ m) t = table_onto m (put k (str v) t)

unfoldable pub string_headers_to_table : Dict Text → Dict HeaderValue
unfolding table_onto
string_headers_to_table m = table_onto m []

-- The delivery as the broker sends it.
pub record Raw : Type 0 where
  pub body : Text
  pub content_type : Text
  pub headers : Dict HeaderValue
  pub correlation_id : Text
  pub reply_to : Text

pub record Reply : Type 0 where
  pub queue : Text
  pub content_type : Text
  pub correlation_id : Text
  pub body : Text

-- What reaches the broker.
pub data Action : Type 0 where
  acked : Action
  nacked : Bool → Action
  published : Reply → Action

-- The two `sync.Once` of a delivery, and what it has sent.
pub record State : Type 0 where
  pub settled : Bool
  pub replied : Bool
  pub log : List Action

abbrev pub start : State
start = record { settled = false; replied = false; log = [] }

module _ (broker : Action → Option Error) where
  -- `settleOnce.Do`
  unfoldable pub settle_once : Action → State → Option Error × State
  settle_once act s =
      if s.settled
      then (none, s)
      else (broker act, record s { settled = true; log = s.log ++ act ∷ [] })

module _ (broker : Action → Option Error) (active : Bool) (raw : Raw) where
  -- `replyOnce.Do`
  publish_reply : Text → Text → State → Option Error × State
  publish_reply body content_type s =
      let act = published (record {
        queue = raw.reply_to;
        content_type = content_type;
        correlation_id = raw.correlation_id;
        body = body;
      }) in
      if active then (broker act, record s { replied = true; log = s.log ++ act ∷ [] }) else (
        some (message (codes "amqp delivery: subscription has no active channel")),
        record s { replied = true },
      )

  unfoldable pub reply_once : Text → Text → State → Option Error × State
  unfolding publish_reply
  reply_once body content_type s =
      if is_empty raw.reply_to
      then (some (message (codes "amqp delivery: no reply_to set")), s)
      else if s.replied
      then (none, s)
      else publish_reply body
          (if is_empty content_type then codes "application/json" else content_type) s

  abbrev pub delivery : Delivery State
  delivery = record {
    ack_fn = some (settle_once broker acked);
    nack_fn = some (λ requeue. settle_once broker (nacked requeue));
    reply_fn = some reply_once;
  }

abbrev pub rpc_message : Text → Raw → Message
rpc_message endpoint raw = record {
  endpoint = endpoint;
  body = raw.body;
  content_type = raw.content_type;
  headers = table_to_string_headers raw.headers;
  correlation_id = raw.correlation_id;
  reply_to = raw.reply_to;
}

-- The settlement when the handler has returned, for a handler that made none.
fallback : Option Error → Action
fallback none = acked
fallback (some _) = nacked false

unfoldable pub deliver : (Action → Option Error) → Bool → Text → Raw → Handler → State
unfolding fallback
deliver broker active endpoint raw handler =
    let (err, s) = run (delivery broker active raw) (handler (rpc_message endpoint raw)) start in
    (settle_once broker (fallback err) s).1
