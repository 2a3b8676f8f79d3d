-- ===== src/Adapter/Lifecycle.antt =====
-- The builder and `Run` of adapter/adapter.go.
use yggdrasil_sdk_go.Base.{
  Bool, true, false, Option, none, some, List, [], ◌∷◌, ◌++◌, ◌≡◌, ◌≢◌, ◌↔◌, refl, arith, All,
  count_of, count_of-append, if◌then◌else◌, Option-cases, inl, inr,
}
use yggdrasil_sdk_go.Base.Int.{pos, ◌≤ℤ◌}
use yggdrasil_sdk_go.Base.Texts.{Text, text_eq}
use yggdrasil_sdk_go.Base.Dict.{Dict, get, get-put}
use yggdrasil_sdk_go.Rpc.{Error}
use yggdrasil_sdk_go.Adapter.{
  Config, Handler, Transport, Adapter, Event, consumed, refused, waited, sub_closed, after_ran, new,
  capability_key, register, consumer_config, deferred, consume_each, run_prepared, run_setup,
  run_handlers, run,
}

-- The last registration of a capability wins, under its trimmed and lowered name; the handlers of
-- other names stay.
pub get-register :
    (unicode : Text → Text) (capability name : Text) (h : Handler) (a : Adapter)
    → get name (register unicode capability h a).handlers
      ≡ (if text_eq (capability_key unicode capability) name then some h else get name a.handlers)
unfolding register
get-register unicode capability name h a =
    get-put name (capability_key unicode capability) h a.handlers

-- Whatever its configuration, a new adapter serves at least one request at a time, has a timeout,
-- and keeps a positive concurrency and a timeout that are given.
pub new_config :
    (cfg : Config)
    → (pos 1 ≤ℤ (new cfg).config.concurrency)
      × ((new cfg).config.default_timeout ≢ pos 0)
      × (pos 1 ≤ℤ cfg.concurrency → (new cfg).config.concurrency ≡ cfg.concurrency)
      × (cfg.default_timeout ≢ pos 0 → (new cfg).config.default_timeout ≡ cfg.default_timeout)
unfolding new
new_config cfg = (ground arith, ground arith, λ h. ground arith, λ h. ground arith)

abbrev pub is_consumed : Text → Event → Bool
is_consumed c (consumed d) = text_eq d c
is_consumed c (refused _) = false
is_consumed c waited = false
is_consumed c (sub_closed _) = false
is_consumed c after_ran = false

abbrev pub is_closed : Text → Event → Bool
is_closed c (consumed _) = false
is_closed c (refused _) = false
is_closed c waited = false
is_closed c (sub_closed d) = text_eq d c
is_closed c after_ran = false

abbrev pub is_waited : Event → Bool
is_waited (consumed _) = false
is_waited (refused _) = false
is_waited waited = true
is_waited (sub_closed _) = false
is_waited after_ran = false

-- The deferred calls close each subscription and open none.
module _ (c : Text) where
  closed-deferred :
      (after : Bool) (subs : List Text)
      → count_of (is_closed c) (deferred after subs) ≡ count_of (λ d. text_eq d c) subs
  closed-deferred after [] = ground arith
  closed-deferred after (s ∷ subs) = ground (arith, closed-deferred after subs)

  consumed-deferred :
      (after : Bool) (subs : List Text) → count_of (is_consumed c) (deferred after subs) ≡ 0
  consumed-deferred after [] = ground arith
  consumed-deferred after (s ∷ subs) = ground (arith, consumed-deferred after subs)

  -- The log so far has opened the open subscriptions and closed none.
  IsOpen : List Text → List Event → Type 0
  IsOpen subs log =
      (count_of (is_consumed c) log ≡ count_of (λ d. text_eq d c) subs)
      × (count_of (is_closed c) log ≡ 0)

  balanced_end :
      (after : Bool) (subs : List Text) (log : List Event) (x : Event)
      → is_consumed c x ≡ false
      → is_closed c x ≡ false
      → IsOpen subs log
      → count_of (is_consumed c) (log ++ (x ∷ deferred after subs))
        ≡ count_of (is_closed c) (log ++ (x ∷ deferred after subs))
  unfolding IsOpen
  balanced_end after subs log x hx hy h = ground (
    arith,
    count_of-append (is_consumed c) log (x ∷ deferred after subs),
    count_of-append (is_closed c) log (x ∷ deferred after subs),
    closed-deferred after subs,
    consumed-deferred after subs,
  )

  one_more-IsOpen :
      (subs : List Text) (log : List Event) (name : Text)
      → IsOpen subs log
      → IsOpen (subs ++ name ∷ []) (log ++ consumed name ∷ [])
  unfolding IsOpen
  one_more-IsOpen subs log name h = ground (
    arith,
    count_of-append (is_consumed c) log (consumed name ∷ []),
    count_of-append (is_closed c) log (consumed name ∷ []),
    count_of-append (λ d. text_eq d c) subs (name ∷ []),
  )

  consume_each_balanced :
      (quote : Text → Text) (t : Transport) (cfg : Config) (after : Bool) (hs : Dict Handler)
      (subs : List Text) (log : List Event)
      → IsOpen subs log
      → count_of (is_consumed c) (consume_each quote t cfg after hs subs log).1
        ≡ count_of (is_closed c) (consume_each quote t cfg after hs subs log).1
  unfolding consume_each
  consume_each_balanced quote t cfg after [] subs log h =
      balanced_end after subs log waited refl refl h
  consume_each_balanced quote t cfg after ((name, handler) ∷ hs) subs log h =
      elim (Option-cases (t.consume (consumer_config cfg name handler))) [
        | inl fine ↦
            rw (fine, consume_each)
              (consume_each_balanced quote t cfg after hs (subs ++ name ∷ [])
                (log ++ consumed name ∷ []) (one_more-IsOpen subs log name h))
        | inr (err, bad) ↦
            rw (bad, consume_each) (balanced_end after subs log (refused name) refl refl h)
      ]

  run_prepared_balanced :
      (quote : Text → Text) (cfg : Config) (hs : Dict Handler) (err : Option Error) (after : Bool)
      (t : Option Transport)
      → count_of
          (is_consumed c)
          (run_prepared quote cfg hs (err, record { transport = t; after_run = after })).1
        ≡ count_of
            (is_closed c)
            (run_prepared quote cfg hs (err, record { transport = t; after_run = after })).1
  unfolding run_prepared
  run_prepared_balanced quote cfg hs (some err) after t = refl
  run_prepared_balanced quote cfg hs none after none = refl
  run_prepared_balanced quote cfg hs none after (some t) =
      consume_each_balanced quote t cfg after hs [] [] (unfold IsOpen in (refl, refl))

  run_handlers_balanced :
      (quote : Text → Text) (a : Adapter) (hs : Dict Handler)
      → count_of (is_consumed c) (run_handlers quote a hs).1
        ≡ count_of (is_closed c) (run_handlers quote a hs).1
  unfolding run_handlers
  run_handlers_balanced quote a [] = refl
  run_handlers_balanced quote a (h ∷ hs) =
      let (err, w) = run_setup a.before_run a.wiring in
      run_prepared_balanced quote a.config (h ∷ hs) err w.after_run w.transport

-- However `Run` ends, it has closed every endpoint as often as it consumed it, whichever `Consume`
-- fails.
pub run_balanced :
    (quote : Text → Text) (a : Adapter) (c : Text)
    → count_of (is_consumed c) (run quote a).1 ≡ count_of (is_closed c) (run quote a).1
unfolding run
run_balanced quote a c = run_handlers_balanced c quote a a.handlers

module _ (quote : Text → Text) (t : Transport) (cfg : Config) (after : Bool) where
  pub consume_each_ok_iff :
      (hs : Dict Handler) (subs : List Text) (log : List Event)
      → ((consume_each quote t cfg after hs subs log).0 ≡ none)
        ↔ All (λ h. t.consume (consumer_config cfg h.0 h.1) ≡ none) hs
  unfolding consume_each
  consume_each_ok_iff [] subs log = (λ e. tt, λ h. refl)
  consume_each_ok_iff ((name, handler) ∷ hs) subs log =
      elim (Option-cases (t.consume (consumer_config cfg name handler))) [
        | inl fine ↦
            let (to, from) =
              consume_each_ok_iff hs (subs ++ name ∷ []) (log ++ consumed name ∷ []) in
            rw (fine, consume_each) (λ e. (refl, to e), λ h. from h.1)
        | inr (err, bad) ↦ rw (bad, consume_each) (λ e. cc, λ h. cc (h.0))
      ]

-- An adapter with handlers, no `beforeRun` and a transport returns with no error exactly when the
-- transport takes each of its handlers, under its capability and with the adapter's timeout and
-- concurrency.
pub run_ok_iff :
    (quote : Text → Text) (a : Adapter) (t : Transport)
    → a.handlers ≢ []
    → a.before_run ≡ none
    → a.wiring.transport ≡ some t
    → ((run quote a).0 ≡ none)
      ↔ All (λ h. t.consume (consumer_config a.config h.0 h.1) ≡ none) a.handlers
unfolding run
run_ok_iff quote a t some_handlers plain wired = go a.handlers some_handlers
  where
    go :
        (hs : Dict Handler)
        → hs ≢ []
        → ((run_handlers quote a hs).0 ≡ none)
          ↔ All (λ h. t.consume (consumer_config a.config h.0 h.1) ≡ none) hs
    go [] ne = absurd (ne refl)
    go (h ∷ hs) ne =
        rw (plain, wired) (consume_each_ok_iff quote t a.config a.wiring.after_run (h ∷ hs) [] [])
