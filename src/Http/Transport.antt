-- ===== src/Http/Transport.antt =====
-- rpc/http/http.go: `New`, `Consume` and the two `Close` of the transport. The subscriptions that are
-- mounted on the mux stand in the order of their registration; the transport's own list holds their
-- positions, as Go's holds pointers to them.
pub mod Steps
pub mod Shutdown
pub mod Serving
use yggdrasil_sdk_go.Base.{
  ℕ, zero, suc, ◌*◌, Bool, true, false, Option, none, some, List, [], ◌∷◌, ◌++◌, length,
  if◌then◌else◌,
}
use yggdrasil_sdk_go.Base.Int.{ℤ, pos, ltb_ℤ}
use yggdrasil_sdk_go.Base.Texts.{Text, codes, is_empty}
use yggdrasil_sdk_go.Rpc.{Error, message, Handler, ConsumerConfig}
use yggdrasil_sdk_go.Http.Serve.{Subscription}
use yggdrasil_sdk_go.Http.Client.{default_path_prefix}

-- Durations count nanoseconds.
abbrev second : ℕ
second = 1_000_000_000

-- A subscription on the mux, under its pattern, with the limits of `Consume`.
pub record Mounted : Type 0 where
  pub pattern : Text
  pub sub : Subscription
  pub timeout : ℤ
  pub concurrency : ℤ

pub record Transport : Type 0 where
  pub has_mux : Bool
  pub path_prefix : Text
  pub mounted : List Mounted
  pub subs : List ℕ
  pub closed : Bool

-- `New`, of a mux or none and a path prefix.
unfoldable pub new : Bool → Text → Transport
new has_mux path_prefix = record {
  has_mux = has_mux;
  path_prefix = if is_empty path_prefix then default_path_prefix else path_prefix;
  mounted = [];
  subs = [];
  closed = false;
}

-- How `Consume` ends. A mux panics at a pattern that it cannot have beside those that it has.
pub data Consumed : Type 0 where
  refused : Error → Consumed
  panicked : Consumed
  subscribed : ℕ → Consumed

abbrev pub positive_or : ℤ → ℤ → ℤ
positive_or default n = if ltb_ℤ (pos 0) n then n else default

patterns : List Mounted → List Text
patterns [] = []
patterns (m ∷ ms) = m.pattern ∷ patterns ms

abbrev pub mount_of : Text → ConsumerConfig → Handler → Mounted
mount_of path_prefix cfg handler = record {
  pattern = codes "POST " ++ (path_prefix ++ cfg.endpoint);
  sub = record { endpoint = cfg.endpoint; handler = handler; closed = false };
  timeout = positive_or (pos (30 * second)) cfg.timeout;
  concurrency = positive_or (pos 1) cfg.concurrency;
}

abbrev pub mount : Mounted → Transport → Transport
mount m t = record t { mounted = t.mounted ++ m ∷ []; subs = t.subs ++ length t.mounted ∷ [] }

module _ (takes : List Text → Text → Bool) where
  consume_with : ConsumerConfig → Option Handler → Transport → Consumed × Transport
  unfolding patterns
  consume_with cfg none t = (refused (message (codes "http consume: handler is required")), t)
  consume_with cfg (some handler) t =
      let m = mount_of t.path_prefix cfg handler in
      if t.has_mux
      then if takes (patterns t.mounted) m.pattern
        then (subscribed (length t.mounted), mount m t)
        else (panicked, t)
      else (refused (message (codes "http consume: Mux is required")), t)

  -- `Consume`; `takes` says whether a mux that has some patterns takes one more.
  unfoldable pub consume : ConsumerConfig → Transport → Consumed × Transport
  unfolding consume_with
  consume cfg t =
      if is_empty cfg.endpoint
      then (refused (message (codes "http consume: endpoint is required")), t)
      else consume_with cfg cfg.handler t

abbrev pub shut : Mounted → Mounted
shut m = record m { sub = record m.sub { closed = true } }

unfoldable pub close_at : ℕ → List Mounted → List Mounted
close_at i [] = []
close_at zero (m ∷ ms) = shut m ∷ ms
close_at (suc i) (m ∷ ms) = m ∷ close_at i ms

-- `subscription.Close`
unfoldable pub close_sub : ℕ → Transport → Transport
unfolding close_at
close_sub i t = record t { mounted = close_at i t.mounted }

unfoldable pub close_each : List ℕ → List Mounted → List Mounted
unfolding close_at
close_each [] ms = ms
close_each (i ∷ is) ms = close_each is (close_at i ms)

-- `Transport.Close`
unfoldable pub close : Transport → Transport
unfolding close_each
close t =
    if t.closed
    then t
    else record t { mounted = close_each t.subs t.mounted; subs = []; closed = true }
