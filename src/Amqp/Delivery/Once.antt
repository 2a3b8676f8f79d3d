-- ===== src/Amqp/Delivery/Once.antt =====
-- One delivery settles once and replies at most once, whatever its handler does.
use yggdrasil_sdk_go.Base.{
  ℕ, Bool, true, false, Option, [], ◌∷◌, ◌++◌, ◌≤◌, ◌≡◌, refl, inl, inr, Bool-cases, count_of,
  count_of-append, arith, if◌then◌else◌,
}
use yggdrasil_sdk_go.Base.Texts.{Text, is_empty}
use yggdrasil_sdk_go.Rpc.{Error, Handler, Keeps, run, run-Keeps}
use yggdrasil_sdk_go.Amqp.Delivery.{
  Raw, Reply, Action, acked, nacked, published, State, start, settle_once, reply_once,
  publish_reply, delivery, rpc_message, fallback, deliver,
}

abbrev pub is_settlement : Action → Bool
is_settlement acked = true
is_settlement (nacked _) = true
is_settlement (published _) = false

abbrev pub is_reply : Action → Bool
is_reply acked = false
is_reply (nacked _) = false
is_reply (published _) = true

abbrev bit : Bool → ℕ
bit b = if b then 1 else 0

-- The flags of the state count what the log holds.
record IsOnce (s : State) : Type 0 where
  settlements : count_of is_settlement s.log ≡ bit s.settled
  replies : count_of is_reply s.log ≤ bit s.replied

module _ (broker : Action → Option Error) where
  settle_once-IsOnce :
      (act : Action) (s : State)
      → is_settlement act ≡ true
      → IsOnce s
      → IsOnce (settle_once broker act s).1
  unfolding settle_once
  settle_once-IsOnce acked s e h = ground (
    arith,
    count_of-append is_settlement s.log (acked ∷ []),
    count_of-append is_reply s.log (acked ∷ []),
  )
  settle_once-IsOnce (nacked r) s e h = ground (
    arith,
    count_of-append is_settlement s.log (nacked r ∷ []),
    count_of-append is_reply s.log (nacked r ∷ []),
  )
  settle_once-IsOnce (published p) s e h = cc

  settle_once_settled : (act : Action) (s : State) → (settle_once broker act s).1.settled ≡ true
  unfolding settle_once
  settle_once_settled act s = ground arith

log_reply-IsOnce :
    (p : Reply) (s : State)
    → s.replied ≡ false
    → IsOnce s
    → IsOnce (record s { replied = true; log = s.log ++ published p ∷ [] })
log_reply-IsOnce p s e h = ground (
  arith,
  count_of-append is_settlement s.log (published p ∷ []),
  count_of-append is_reply s.log (published p ∷ []),
)

fallback_settles : (err : Option Error) → is_settlement (fallback err) ≡ true
unfolding fallback
fallback_settles err = ground arith

module _ (broker : Action → Option Error) (active : Bool) (raw : Raw) where
  publish_reply-IsOnce :
      (body content_type : Text) (s : State)
      → s.replied ≡ false
      → IsOnce s
      → IsOnce (publish_reply broker active raw body content_type s).1
  unfolding publish_reply
  publish_reply-IsOnce body content_type s e h = elim (Bool-cases active) [
    | inl on ↦ rw on (log_reply-IsOnce _ s e h)
    | inr off ↦ rw off (ground arith)
  ]

  reply_once-IsOnce :
      (body content_type : Text) (s : State)
      → IsOnce s
      → IsOnce (reply_once broker active raw body content_type s).1
  unfolding reply_once
  reply_once-IsOnce body content_type s h = elim (Bool-cases (is_empty raw.reply_to)) [
    | inl nowhere ↦ simp nowhere h
    | inr somewhere ↦ elim (Bool-cases s.replied) [
      | inl before ↦ simp (somewhere, before) h
      | inr first ↦ simp (somewhere, first) (publish_reply-IsOnce body _ s first h)
    ]
  ]

  delivery-Keeps : Keeps IsOnce (delivery broker active raw)
  delivery-Keeps = record {
    at_ack = λ s. settle_once-IsOnce broker acked s refl;
    at_nack = λ requeue s. settle_once-IsOnce broker (nacked requeue) s refl;
    at_reply = λ body content_type s. reply_once-IsOnce body _ s;
  }

-- Whatever a handler does with its delivery, and whatever the broker answers, exactly one Ack or
-- Nack is sent to the broker and at most one reply is published.
pub deliver_once :
    (broker : Action → Option Error) (active : Bool) (endpoint : Text) (raw : Raw) (h : Handler)
    → (count_of is_settlement (deliver broker active endpoint raw h).log ≡ 1)
      × (count_of is_reply (deliver broker active endpoint raw h).log ≤ 1)
unfolding deliver
deliver_once broker active endpoint raw h =
    let p = h (rpc_message endpoint raw) in
    let (err, s) = run (delivery broker active raw) p start in
    let before : IsOnce s = run-Keeps (delivery-Keeps broker active raw) p start (omega arith) in
    let after = settle_once-IsOnce broker (fallback err) s (fallback_settles err) before in
    let settled = settle_once_settled broker (fallback err) s in (ground arith, ground arith)
