-- ===== src/Adapter/Listen/Budget.antt =====
-- How many attempts and how long a wait the dial takes, in adapter/transport.go.
use yggdrasil_sdk_go.Base.{
  ◌∙◌, ℕ, zero, suc, ◌+◌, ◌≤◌, Option, none, List, [], ◌∷◌, ◌≡◌, ◌⊎◌, inl, refl, arith,
}
use yggdrasil_sdk_go.Base.Texts.{Text, codes}
use yggdrasil_sdk_go.Rpc.{Error}
use yggdrasil_sdk_go.Amqp.Connection.{next_backoff}
use yggdrasil_sdk_go.Adapter.Listen.{
  DialStep, dialed, slept, Connection, max_attempts, dial_failed, dial_from, dial_amqp_with_retry,
}

abbrev pub dials : List DialStep → ℕ
dials [] = 0
dials (dialed ∷ steps) = suc (dials steps)
dials (slept n ∷ steps) = dials steps

-- The seconds that are slept.
abbrev pub seconds : List DialStep → ℕ
seconds [] = 0
seconds (dialed ∷ steps) = seconds steps
seconds (slept n ∷ steps) = n + seconds steps

-- What the waits add up to if none is left out.
waits : ℕ → ℕ → ℕ
unfolding next_backoff
waits zero backoff = 0
waits (suc left) backoff = backoff + waits left (next_backoff backoff)

waits_total : waits 29 1 ≡ 751
unfolding waits next_backoff
waits_total = refl

module _ (quote : Text → Text) (url : Text) (dial : ℕ → Error ⊎ Connection)
    (canceled : ℕ → Option Error) where
  dial_from_budget :
      (left attempt backoff : ℕ)
      → (dials (dial_from quote url dial canceled left attempt backoff).1 ≤ suc left)
        × (seconds (dial_from quote url dial canceled left attempt backoff).1 ≤ waits left backoff)
  unfolding dial_from waits
  dial_from_budget zero attempt backoff = ground arith
  dial_from_budget (suc left) attempt backoff =
      ground (arith, dial_from_budget left (suc attempt) (next_backoff backoff))

  dial_from_exhausted :
      (fail : ℕ → Error) (left attempt backoff : ℕ)
      → ((n : ℕ) → dial n ≡ inl (fail n))
      → ((n : ℕ) → canceled n ≡ none)
      → (dials (dial_from quote url dial canceled left attempt backoff).1 ≡ suc left)
        × (seconds (dial_from quote url dial canceled left attempt backoff).1 ≡ waits left backoff)
        × ((dial_from quote url dial canceled left attempt backoff).0
            ≡ inl (dial_failed (quote url) (codes "failed") max_attempts (fail (left + attempt))))
  unfolding dial_from waits
  dial_from_exhausted fail zero attempt backoff fails on = ground (arith, fails attempt)
  dial_from_exhausted fail (suc left) attempt backoff fails on = ground (
    arith,
    fails attempt,
    on attempt,
    dial_from_exhausted fail left (suc attempt) (next_backoff backoff) fails on,
  )

-- The dial tries 30 times and waits 751 seconds at most, whatever the broker answers.
pub dial_amqp_with_retry_budget :
    (quote : Text → Text) (url : Text) (dial : ℕ → Error ⊎ Connection) (canceled : ℕ → Option Error)
    → (dials (dial_amqp_with_retry quote url dial canceled).1 ≤ 30)
      × (seconds (dial_amqp_with_retry quote url dial canceled).1 ≤ 751)
unfolding dial_amqp_with_retry
dial_amqp_with_retry_budget quote url dial canceled =
    let (few, short) = dial_from_budget quote url dial canceled 29 1 1 in
    (omega (arith, few), omega (arith, short, waits_total))

-- A broker that refuses every attempt of a dial that is not canceled is tried 30 times, over 751
-- seconds of waiting, and the error of the last attempt is returned.
pub dial_amqp_with_retry_exhausted :
    (quote : Text → Text) (url : Text) (dial : ℕ → Error ⊎ Connection) (canceled : ℕ → Option Error)
    (fail : ℕ → Error)
    → ((n : ℕ) → dial n ≡ inl (fail n))
    → ((n : ℕ) → canceled n ≡ none)
    → (dials (dial_amqp_with_retry quote url dial canceled).1 ≡ 30)
      × (seconds (dial_amqp_with_retry quote url dial canceled).1 ≡ 751)
      × ((dial_amqp_with_retry quote url dial canceled).0
          ≡ inl (dial_failed (quote url) (codes "failed") 30 (fail 30)))
unfolding dial_amqp_with_retry
dial_amqp_with_retry_exhausted quote url dial canceled fail fails on =
    let (many, long, last) = dial_from_exhausted quote url dial canceled fail 29 1 1 fails on in
    (many, long ∙ waits_total, last)
