-- ===== src/Http/Transport/Steps.antt =====
-- Sequences of calls of the transport of rpc/http/http.go, and what one `Consume` does.
use yggdrasil_sdk_go.Base.{
  ℕ, Bool, true, false, Option, none, some, List, [], ◌∷◌, ◌≡◌, ◌≢◌, ◌⊎◌, inl, inr, refl, length,
  if◌then◌else◌,
}
use yggdrasil_sdk_go.Base.Texts.{Text, is_empty}
use yggdrasil_sdk_go.Rpc.{Handler, ConsumerConfig}
use yggdrasil_sdk_go.Http.Transport.{
  Transport, Consumed, subscribed, consume, consume_with, mount, mount_of, close_sub, close,
}

-- A call of the transport or of one of its subscriptions.
pub data Op : Type 0 where
  consuming : ConsumerConfig → Op
  closing_sub : ℕ → Op
  closing : Op

module _ (takes : List Text → Text → Bool) where
  unfoldable pub apply : Op → Transport → Transport
  apply (consuming cfg) t = (consume takes cfg t).1
  apply (closing_sub i) t = close_sub i t
  apply closing t = close t

  unfoldable pub applies : List Op → Transport → Transport
  unfolding apply
  applies [] t = t
  applies (op ∷ ops) t = applies ops (apply op t)

-- No call closes the transport.
abbrev pub has_no_close : List Op → Bool
has_no_close [] = true
has_no_close (consuming cfg ∷ ops) = has_no_close ops
has_no_close (closing_sub i ∷ ops) = has_no_close ops
has_no_close (closing ∷ ops) = false

-- A `Consume` subscribes the handler that it is given, or fails and changes nothing.
module _ (takes : List Text → Text → Bool) (cfg : ConsumerConfig) (t : Transport) where
  abbrev pub Outcome : Option Handler → Consumed × Transport → Type 0
  Outcome h p =
      (((i : ℕ) → p.0 ≢ subscribed i) × (p.1 ≡ t))
      ⊎ ((handler : Handler) × (h ≡ some handler)
          × (p ≡ (subscribed (length t.mounted), mount (mount_of t.path_prefix cfg handler) t)))

  Outcome-if :
      (b : Bool) (h : Option Handler) (p q : Consumed × Transport)
      → Outcome h p
      → Outcome h q
      → Outcome h (if b then p else q)
  Outcome-if true h p q x y = x
  Outcome-if false h p q x y = y

  consume_with-Outcome : (h : Option Handler) → Outcome h (consume_with takes cfg h t)
  unfolding consume_with
  consume_with-Outcome none = inl (λ i e. cc, refl)
  consume_with-Outcome (some handler) =
      Outcome-if t.has_mux (some handler) _ _
        (Outcome-if (takes _ _) (some handler) _ _ (inr (handler, refl, refl))
          (inl (λ i e. cc, refl)))
        (inl (λ i e. cc, refl))

  pub consume-Outcome : Outcome cfg.handler (consume takes cfg t)
  unfolding consume
  consume-Outcome =
      Outcome-if (is_empty cfg.endpoint) cfg.handler _ _ (inl (λ i e. cc, refl))
        (consume_with-Outcome cfg.handler)
