-- ===== src/Rpc/Handlers.antt =====
-- What a handler does, as far as a transport can see it: it calls `Ack`, `Nack` and `Reply` of its
-- delivery in some order, each time with the error that the call gave back, and returns.
use yggdrasil_sdk_go.Base.{Bool, Option}
use yggdrasil_sdk_go.Base.Texts.{Text}
use yggdrasil_sdk_go.Base.Dict.{Dict}
use yggdrasil_sdk_go.Base.Int.{ℤ}
use yggdrasil_sdk_go.Rpc.Errors.{Error}

-- The data of a `rpc.Delivery`.
pub record Message : Type 0 where
  pub endpoint : Text
  pub body : Text
  pub content_type : Text
  pub headers : Dict Text
  pub correlation_id : Text
  pub reply_to : Text

pub data Program (A : Type 0) : Type 0 where
  done : A → Program A
  ack : (Option Error → Program A) → Program A
  nack : Bool → (Option Error → Program A) → Program A
  reply : Text → Text → (Option Error → Program A) → Program A

infixl 5 ◌>>=◌
unfoldable pub ◌>>=◌ : {A B : Type 0} → Program A → (A → Program B) → Program B
done a >>= f = f a
ack k >>= f = ack (λ r. k r >>= f)
nack requeue k >>= f = nack requeue (λ r. k r >>= f)
reply body content_type k >>= f = reply body content_type (λ r. k r >>= f)

-- `rpc.Handler`: the result is its error.
abbrev pub Handler : Type 0
Handler = Message → Program (Option Error)

-- `rpc.ConsumerConfig`; a nil handler is `none`, and the timeout counts nanoseconds.
pub record ConsumerConfig : Type 0 where
  pub endpoint : Text
  pub handler : Option Handler
  pub timeout : ℤ
  pub concurrency : ℤ
