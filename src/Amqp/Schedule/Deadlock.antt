-- ===== src/Amqp/Schedule/Deadlock.antt =====
-- The deadlock of rpc/amqp/amqp.go: reconnect takes pubMu under dialMu, and publishChannel takes dialMu,
-- by reconnect, under pubMu.
use yggdrasil_sdk_go.Base.{
  ℕ, suc, Bool, true, false, Option, none, some, List, [], ◌∷◌, ◌≡◌, ◌≢◌, ◌⊎◌, inl, inr, refl, sym,
  subst, arith, Bool-cases, ap, ◌∙◌,
}
use yggdrasil_sdk_go.Rpc.{Error}
use yggdrasil_sdk_go.Amqp.Connection.{close_conn}
use yggdrasil_sdk_go.Amqp.Schedule.{
  Shared, Caller, publisher, Phase, locking_dial, dialing, installing, resetting, locking_pub,
  closing_pub, advance, System, update, Turn, turn, dropped, channel_dropped, step, run, Call,
  start,
}
use yggdrasil_sdk_go.Amqp.Schedule.Mutexes.{
  dials, publishes, owns, IsExclusive, Leads, Keeps, after, moved-Keeps, run-Keeps, kept,
  update_self, update_other, moved-IsExclusive, step-IsExclusive, run-IsExclusive,
  start-IsExclusive, Any, All-any,
}

-- The phases that wait for dialMu or pubMu.
abbrev pub blocks : Phase → Bool
blocks (locking_dial w) = true
blocks (resetting w c) = true
blocks locking_pub = true
blocks closing_pub = true
blocks p = false

-- Goroutine `j` has dialed under dialMu and waits for pubMu; `k`, which holds pubMu, is the same one, or
-- waits for dialMu in the reconnect of its publish.
pub record IsDeadlocked (j k : ℕ) (s : System) : Type 0 where
  pub dial_owner : s.shared.dial_by ≡ some j
  pub pub_owner : s.shared.pub_by ≡ some k
  pub resets : (w : Caller) × (c : ℕ) × (s.phases j ≡ resetting w c)
  pub locks : (k ≡ j) ⊎ (s.phases k ≡ locking_dial publisher)

module _ (failure : Option Error) (i j k : ℕ) (m : Shared) (dialed : m.dial_by ≡ some j)
    (published : m.pub_by ≡ some k) where
  advance_blocked : (p : Phase) → blocks p ≡ true → advance failure i p m ≡ none
  unfolding advance
  advance_blocked p h = ground arith

  advance_owners :
      (p : Phase)
      → dials p ≡ false
      → publishes p ≡ false
      → Leads (λ m' p'. (m'.dial_by ≡ some j) × (m'.pub_by ≡ some k)) (advance failure i p m)
  unfolding advance
  advance_owners p h h' = ground arith

pub owns_other : (i j : ℕ) → i ≢ j → owns (some j) i ≡ false
owns_other i j h = ground arith

module _ (s : System) (ex : IsExclusive s) (j k : ℕ) (dead : IsDeadlocked j k s) where
  open dead use {dial_owner, pub_owner, resets, locks}

  blocks_dial : blocks (s.phases j) ≡ true
  blocks_dial = let (w, c, e) = resets in rw e

  blocks_pub : blocks (s.phases k) ≡ true
  blocks_pub = elim locks [ inl same ↦ rw same blocks_dial | inr e ↦ rw e ]

  module _ (failure : Option Error) (i : ℕ) (free : blocks (s.phases i) ≡ false) where
    other : (o : ℕ) → blocks (s.phases o) ≡ true → i ≢ o
    other o h e = cc (ap (λ x. blocks (s.phases x)) e)

    moved-IsDeadlocked :
        (m : Shared) (p : Phase)
        → advance failure i (s.phases i) s.shared ≡ some (m, p)
        → IsDeadlocked j k (after s i m p)
    moved-IsDeadlocked m p e = record {
      dial_owner = owners.0;
      pub_owner = owners.1;
      resets =
          let (w, c, h) = resets in (w, c, update_other s.phases i p j (other j blocks_dial) ∙ h);
      locks = elim locks [
        | inl same ↦ inl same
        | inr h ↦ inr (update_other s.phases i p k (other k blocks_pub) ∙ h)
      ];
    }
      where
        owners : (m.dial_by ≡ some j) × (m.pub_by ≡ some k)
        owners = subst (Leads (λ m' p'. (m'.dial_by ≡ some j) × (m'.pub_by ≡ some k))) e (
            advance_owners failure i j k s.shared dial_owner pub_owner (s.phases i)
              (ex.dial_held i
                ∙ ap (λ o. owns o i) dial_owner
                ∙ owns_other i j (other j blocks_dial))
              (ex.pub_held i ∙ ap (λ o. owns o i) pub_owner ∙ owns_other i k (other k blocks_pub)))

-- With a goroutine `i` that waits in phase `p`.
pub record Waits (j k i : ℕ) (p : Phase) (s : System) : Type 0 where
  pub exclusive : IsExclusive s
  pub dead : IsDeadlocked j k s
  pub there : s.phases i ≡ p

step-Waits :
    (j k i : ℕ) (p : Phase)
    → blocks p ≡ true
    → (t : Turn) (s : System) → Any t
    → Waits j k i p s
    → Keeps (Waits j k i p) (step t s)
unfolding step
step-Waits j k i p waits (turn o failure) s _ w = elim (Bool-cases (blocks (s.phases o))) [
  | inl stuck ↦
      rw
        (advance_blocked failure o j k s.shared w.dead.dial_owner w.dead.pub_owner (s.phases o)
          stuck)
        (moved-Keeps (Waits j k i p) s o none (λ m q e. cc))
  | inr free ↦ moved-Keeps (Waits j k i p) s o (advance failure o (s.phases o) s.shared) (λ m q e.
      record {
        exclusive = moved-IsExclusive s w.exclusive failure o m q e;
        dead = moved-IsDeadlocked s w.exclusive j k w.dead failure o free m q e;
        there =
            update_other s.phases o q i
              (other s w.exclusive j k w.dead failure o free i (ap blocks w.there ∙ waits))
            ∙ w.there;
      })
]
step-Waits j k i p waits (dropped c) s _ w = record {
  exclusive = step-IsExclusive (dropped c) s w.exclusive;
  dead = record {
    dial_owner = w.dead.dial_owner;
    pub_owner = w.dead.pub_owner;
    resets = w.dead.resets;
    locks = w.dead.locks;
  };
  there = w.there;
}
step-Waits j k i p waits channel_dropped s _ w = record {
  exclusive = step-IsExclusive channel_dropped s w.exclusive;
  dead = record {
    dial_owner = w.dead.dial_owner;
    pub_owner = w.dead.pub_owner;
    resets = w.dead.resets;
    locks = w.dead.locks;
  };
  there = w.there;
}

-- Once a goroutine under dialMu waits for pubMu, and the one with pubMu is itself or waits for dialMu, no
-- schedule ends that: both mutexes stay with them, and every goroutine that waits for one of the two, in
-- a use of the connection, a publish, a Close or the watchdog, stays where it is.
pub deadlock_lasts :
    (dialable : Bool) (calls : List Call) (before ts : List Turn) {s t : System} (j k i : ℕ)
    → run before (start dialable calls) ≡ some s
    → IsDeadlocked j k s
    → blocks (s.phases i) ≡ true
    → run ts s ≡ some t
    → IsDeadlocked j k t × (t.phases i ≡ s.phases i)
deadlock_lasts dialable calls before ts {s} {t} j k i reached dead waits later =
    (lasting.dead, lasting.there)
  where
    lasting : Waits j k i (s.phases i) t
    lasting = kept (Waits j k i (s.phases i)) later (
        run-Keeps (Waits j k i (s.phases i)) Any (step-Waits j k i (s.phases i) waits) ts
          (All-any ts) s
          (record {
            exclusive = run-IsExclusive before (start-IsExclusive dialable calls) reached;
            dead = dead;
            there = refl;
          }))

pub owns-some : (o : Option ℕ) (i : ℕ) → owns o i ≡ true → o ≡ some i
owns-some none i h = cc
owns-some (some j) i h = ground arith

-- A reconnect of a publish that waits for pubMu waits for itself.
pub publisher_resets :
    (s : System)
    → IsExclusive s
    → (i : ℕ) {c : ℕ} → s.phases i ≡ resetting publisher c
    → IsDeadlocked i i s
publisher_resets s ex i {c} e = record {
  dial_owner = owns-some s.shared.dial_by i (sym (ex.dial_held i) ∙ ap dials e);
  pub_owner = owns-some s.shared.pub_by i (sym (ex.pub_held i) ∙ ap publishes e);
  resets = (publisher, c, e);
  locks = inl refl;
}

-- The transport behind a dial of goroutine `i`, with the new connection in place.
abbrev pub redialed : System → ℕ → System
redialed s i = record {
  shared = record s.shared {
    conn = some s.shared.next;
    alive = close_conn s.shared.conn (s.shared.next ∷ s.shared.alive);
    next = suc s.shared.next;
  };
  phases =
      update (update s.phases i (installing publisher s.shared.next)) i
        (resetting publisher s.shared.next);
}

-- Whatever the schedule, a publish that dials, and whose dial succeeds, leaves the transport in the
-- deadlock: the goroutine waits with both mutexes for the one that it holds.
pub publish_deadlocks :
    (dialable : Bool) (calls : List Call) (before : List Turn) {s : System} (i : ℕ)
    (failure : Option Error)
    → run before (start dialable calls) ≡ some s
    → s.phases i ≡ dialing publisher
    → (run (turn i none ∷ turn i failure ∷ []) s ≡ some (redialed s i))
      × IsDeadlocked i i (redialed s i)
unfolding run
publish_deadlocks dialable calls before {s} i failure reached e = (
  goes,
  publisher_resets (redialed s i)
      (run-IsExclusive (turn i none ∷ turn i failure ∷ [])
        (run-IsExclusive before (start-IsExclusive dialable calls) reached) goes)
      i
      (update_self (update s.phases i (installing publisher s.shared.next)) i
        (resetting publisher s.shared.next)),
)
  where
    goes : run (turn i none ∷ turn i failure ∷ []) s ≡ some (redialed s i)
    goes = simp (e, update_self) refl
