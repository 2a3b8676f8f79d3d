-- ===== src/Amqp/Watchdog/Recovery.antt =====
-- How the watchdog of rpc/amqp/amqp.go brings a connection back.
use yggdrasil_sdk_go.Base.{
  ℕ, zero, suc, ◌^◌, min, true, false, Option, none, some, List, [], ◌∷◌, ◌++◌, map, length, ◌≡◌,
  refl, ap, ◌∙◌,
}
use yggdrasil_sdk_go.Rpc.{Error}
use yggdrasil_sdk_go.Amqp.Connection.{
  Channel, Transport, returned, live, backoff_after, reconnect, install,
}
use yggdrasil_sdk_go.Amqp.Connection.Locks.{backoff_after_lem}
use yggdrasil_sdk_go.Amqp.Connection.Storm.{redialed, live_head}
use yggdrasil_sdk_go.Amqp.Watchdog.{
  again, watching, asleep, watch_once, go_on, slept_first, watchdog_loop,
}

-- The first powers of two, from one on, up to 30.
abbrev pub doubling : ℕ → ℕ → List ℕ
doubling i zero = []
doubling i (suc k) = min (2 ^ i) 30 ∷ doubling (suc i) k

-- An open transport that can dial, with free mutexes.
abbrev pub open_transport : Option ℕ → List ℕ → ℕ → Option Channel → Transport
open_transport conn alive next pub_ch = record {
  conn = conn;
  alive = alive;
  next = next;
  dialable = true;
  pub_ch = pub_ch;
  is_closed = false;
  dial_held = false;
  pub_held = false;
}

module _ (conn : Option ℕ) (alive : List ℕ) (next : ℕ) (pub_ch : Option Channel)
    (lost : live conn alive ≡ none) where
  watch_once-failed :
      (err : Error) (backoff : ℕ)
      → watch_once (some err) (open_transport conn alive next pub_ch) backoff
        ≡ returned (open_transport conn alive next pub_ch) (asleep backoff)
  unfolding watch_once reconnect
  watch_once-failed err backoff = simp lost refl

  watch_once_dialed :
      (backoff : ℕ)
      → watch_once none (open_transport conn alive next pub_ch) backoff
        ≡ returned (redialed (open_transport conn alive next pub_ch)) again
  unfolding watch_once reconnect install
  watch_once_dialed backoff = simp lost refl

  watch_once-live :
      (dial : Option Error) (backoff : ℕ)
      → watch_once dial (redialed (open_transport conn alive next pub_ch)) backoff
        ≡ returned (redialed (open_transport conn alive next pub_ch)) watching
  unfolding watch_once
  watch_once-live dial backoff = simp live_head refl

  -- With the backoff of the failures so far.
  watchdog_loop-failing :
      (errs : List Error) (i : ℕ) (later : Option Error)
      → watchdog_loop
          (map some errs ++ none ∷ later ∷ [])
          (open_transport conn alive next pub_ch)
          (backoff_after i)
        ≡ returned
            (redialed (open_transport conn alive next pub_ch))
            (doubling i (length errs), watching)
  unfolding watchdog_loop go_on backoff_after
  watchdog_loop-failing [] i later =
      ap (go_on (watchdog_loop (later ∷ [])) (backoff_after i))
        (watch_once_dialed (backoff_after i))
      ∙ ap (go_on (watchdog_loop []) 1) (watch_once-live later 1)
  watchdog_loop-failing (err ∷ errs) i later =
      ap (go_on (watchdog_loop (map some errs ++ none ∷ later ∷ [])) (backoff_after i))
        (watch_once-failed err (backoff_after i))
      ∙ ap (slept_first (backoff_after i)) (watchdog_loop-failing errs (suc i) later)
      ∙ ap
          (λ n.
            returned (redialed (open_transport conn alive next pub_ch))
              (n ∷ doubling (suc i) (length errs), watching))
          (backoff_after_lem i)

-- An open transport that can dial, holds no mutex and has lost its connection gets one from its
-- watchdog at the first dial that succeeds, after any number of dials that fail; behind the failures
-- the watchdog sleeps 1, 2, 4, 8 and 16 seconds and then 30 each time, and it goes on to watch the new
-- connection.
pub watchdog_loop-open_transport :
    (conn : Option ℕ) (alive : List ℕ) (next : ℕ) (pub_ch : Option Channel) (errs : List Error)
    (later : Option Error)
    → live conn alive ≡ none
    → watchdog_loop (map some errs ++ none ∷ later ∷ []) (open_transport conn alive next pub_ch) 1
      ≡ returned
          (redialed (open_transport conn alive next pub_ch))
          (doubling 0 (length errs), watching)
unfolding backoff_after
watchdog_loop-open_transport conn alive next pub_ch errs later lost =
    watchdog_loop-failing conn alive next pub_ch lost errs 0 later
