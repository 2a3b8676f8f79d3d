-- ===== src/Amqp/Schedule/Mutexes.antt =====
-- Who holds dialMu and pubMu of rpc/amqp/amqp.go, whatever the schedule.
use yggdrasil_sdk_go.Base.{
  zero, ℕ, suc, ◌==◌, ==_iff, Bool, true, false, Option, none, some, List, [], ◌∷◌, ◌≡◌, ◌≢◌, ◌⊎◌,
  inl, inr, refl, subst, arith, All, Bool-cases,
}
use yggdrasil_sdk_go.Rpc.{Error}
use yggdrasil_sdk_go.Amqp.Schedule.{
  Shared, Caller, user, publisher, watchdog, Phase, reading, testing, checking, locking_dial,
  rechecking, checking_closed, dialing, installing, resetting, examining, opening, Advanced,
  advance, System, update, Turn, turn, dropped, channel_dropped, moved, step, then_run, run, Call,
  entry, phase_of, start, finished,
}

abbrev pub in_publish : Caller → Bool
in_publish user = false
in_publish publisher = true
in_publish watchdog = false

-- The phases under dialMu.
abbrev pub dials : Phase → Bool
dials (rechecking w) = true
dials (checking_closed w) = true
dials (dialing w) = true
dials (installing w c) = true
dials (resetting w c) = true
dials p = false

-- The phases under pubMu.
abbrev pub publishes : Phase → Bool
publishes (reading w) = in_publish w
publishes (testing w o) = in_publish w
publishes (checking w o) = in_publish w
publishes (locking_dial w) = in_publish w
publishes (rechecking w) = in_publish w
publishes (checking_closed w) = in_publish w
publishes (dialing w) = in_publish w
publishes (installing w c) = in_publish w
publishes (resetting w c) = in_publish w
publishes examining = true
publishes (opening r) = true
publishes p = false

abbrev pub owns : Option ℕ → ℕ → Bool
owns none i = false
owns (some j) i = j == i

-- A mutex is held by the goroutine in a phase under it, and by no other.
abbrev pub IsHeld : (Phase → Bool) → Option ℕ → (ℕ → Phase) → Type 0
IsHeld under o phases = (i : ℕ) → under (phases i) ≡ owns o i

pub record IsExclusive (s : System) : Type 0 where
  pub dial_held : IsHeld dials s.shared.dial_by s.phases
  pub pub_held : IsHeld publishes s.shared.pub_by s.phases

-- What holds of whatever a move leads to.
abbrev pub Leads : (Shared → Phase → Type 0) → Advanced → Type 0
Leads P none = Unit
Leads P (some (m, p)) = P m p

-- Of the mover `i`, and of another goroutine `j`.
abbrev Passes : (Phase → Bool) → (i j : ℕ) (o : Option ℕ) → Bool → Option ℕ → Phase → Type 0
Passes under i j o b o' p' = (under p' ≡ owns o' i) × (b ≡ owns o' j)

module _ (failure : Option Error) (i j : ℕ) (other : i ≢ j) (b : Bool) (m : Shared) where
  abbrev DialPasses : Advanced → Type 0
  DialPasses = Leads (λ m' p'. Passes dials i j m.dial_by b m'.dial_by p')

  abbrev PubPasses : Advanced → Type 0
  PubPasses = Leads (λ m' p'. Passes publishes i j m.pub_by b m'.pub_by p')

  advance-dial :
      (p : Phase)
      → dials p ≡ owns m.dial_by i
      → b ≡ owns m.dial_by j
      → DialPasses (advance failure i p m)
  unfolding advance
  advance-dial (reading w) h k = (h, k)
  advance-dial p h k = ground arith

  advance-pub :
      (p : Phase)
      → publishes p ≡ owns m.pub_by i
      → b ≡ owns m.pub_by j
      → PubPasses (advance failure i p m)
  unfolding advance
  advance-pub (reading w) h k = (h, k)
  advance-pub p h k = ground arith

pub update_self : (phases : ℕ → Phase) (i : ℕ) (p : Phase) → update phases i p i ≡ p
unfolding update
update_self phases i p = ground arith

pub update_other :
    (phases : ℕ → Phase) (i : ℕ) (p : Phase) (j : ℕ) → i ≢ j → update phases i p j ≡ phases j
unfolding update
update_other phases i p j h = ground arith

pub ℕ-cases : (i j : ℕ) → (i ≡ j) ⊎ (i ≢ j)
ℕ-cases i j = elim (Bool-cases (i == j)) [
  | inl e ↦ inl ((==_iff i j).0 e)
  | inr e ↦ inr (ground arith)
]

-- What holds behind a step that can be made.
abbrev pub Keeps : (System → Type 0) → Option System → Type 0
Keeps P none = Unit
Keeps P (some s) = P s

-- Behind a move of `i`, as `advance` makes it.
abbrev pub after : System → ℕ → Shared → Phase → System
after s i m p = record { shared = m; phases = update s.phases i p }

pub moved-Keeps :
    (P : System → Type 0) (s : System) (i : ℕ) (o : Advanced)
    → ((m : Shared) (p : Phase) → o ≡ some (m, p) → P (after s i m p))
    → Keeps P (moved s i o)
unfolding moved
moved-Keeps P s i none h = tt
moved-Keeps P s i (some (m, p)) h = h m p refl

then_run-Keeps :
    (P : System → Type 0) (more : System → Option System)
    → ((s : System) → P s → Keeps P (more s))
    → (o : Option System) → Keeps P o
    → Keeps P (then_run more o)
unfolding then_run
then_run-Keeps P more h none k = tt
then_run-Keeps P more h (some s) k = h s k

-- What every turn of a kind keeps, every schedule of such turns keeps.
pub run-Keeps :
    (P : System → Type 0) (R : Turn → Type 0)
    → ((t : Turn) (s : System) → R t → P s → Keeps P (step t s))
    → (ts : List Turn) → All R ts
    → (s : System) → P s
    → Keeps P (run ts s)
unfolding run
run-Keeps P R h [] a s k = k
run-Keeps P R h (t ∷ ts) (r, a) s k =
    then_run-Keeps P (run ts) (run-Keeps P R h ts a) (step t s) (h t s r k)

pub kept : (P : System → Type 0) {o : Option System} {s : System} → o ≡ some s → Keeps P o → P s
kept P e k = subst (Keeps P) e k

IsHeld-after :
    (under : Phase → Bool) (o o' : Option ℕ) (phases : ℕ → Phase) (i : ℕ) (p : Phase)
    → ((j : ℕ) → i ≢ j → Passes under i j o (under (phases j)) o' p)
    → IsHeld under o' (update phases i p)
IsHeld-after under o o' phases i p h j = elim (ℕ-cases i j) [
  | inl same ↦
      subst (λ k. under (update phases i p k) ≡ owns o' k) same
        (rw (update_self phases i p) (h (suc i) (λ k. omega arith)).0)
  | inr other ↦ rw (update_other phases i p j other) (h j other).1
]

-- What holds of each start, and of a goroutine that is not there, holds of all phases at first.
pub phase_of-all :
    (Q : Phase → Type 0)
    → Q finished
    → (cs : List Call) → All (λ c. Q (entry c)) cs
    → (i : ℕ) → Q (phase_of cs i)
unfolding phase_of
phase_of-all Q q [] a i = q
phase_of-all Q q (c ∷ cs) (h, a) zero = h
phase_of-all Q q (c ∷ cs) (h, a) (suc i) = phase_of-all Q q cs a i

pub All-entry : (Q : Call → Type 0) → ((c : Call) → Q c) → (cs : List Call) → All Q cs
All-entry Q q [] = tt
All-entry Q q (c ∷ cs) = (q c, All-entry Q q cs)

pub phase_of-each :
    (Q : Phase → Type 0)
    → Q finished
    → ((c : Call) → Q (entry c))
    → (cs : List Call) (i : ℕ) → Q (phase_of cs i)
phase_of-each Q q h cs = phase_of-all Q q cs (All-entry (λ c. Q (entry c)) h cs)

entry-dials : (c : Call) → dials (entry c) ≡ false
unfolding entry
entry-dials c = ground arith

entry-publishes : (c : Call) → publishes (entry c) ≡ false
unfolding entry
entry-publishes c = ground arith

module _ (s : System) (ex : IsExclusive s) (failure : Option Error) (i : ℕ) where
  open ex use {dial_held, pub_held}

  pub moved-IsExclusive :
      (m : Shared) (p : Phase)
      → advance failure i (s.phases i) s.shared ≡ some (m, p)
      → IsExclusive (after s i m p)
  moved-IsExclusive m p e = record {
    dial_held = IsHeld-after dials s.shared.dial_by m.dial_by s.phases i p (λ j other.
        subst (DialPasses failure i j other (dials (s.phases j)) s.shared) e (
          advance-dial failure i j other (dials (s.phases j)) s.shared (s.phases i) (dial_held i)
            (dial_held j)));
    pub_held = IsHeld-after publishes s.shared.pub_by m.pub_by s.phases i p (λ j other.
        subst (PubPasses failure i j other (publishes (s.phases j)) s.shared) e (
          advance-pub failure i j other (publishes (s.phases j)) s.shared (s.phases i) (pub_held i)
            (pub_held j)));
  }

pub step-IsExclusive : (t : Turn) (s : System) → IsExclusive s → Keeps IsExclusive (step t s)
unfolding step
step-IsExclusive (turn i failure) s ex =
    moved-Keeps IsExclusive s i (advance failure i (s.phases i) s.shared)
      (moved-IsExclusive s ex failure i)
step-IsExclusive (dropped c) s ex = record { dial_held = ex.dial_held; pub_held = ex.pub_held }
step-IsExclusive channel_dropped s ex = record { dial_held = ex.dial_held; pub_held = ex.pub_held }

-- What a move keeps for the mover, from what all have, all keep.
pub others_keep :
    (Q : Phase → Type 0) (phases : ℕ → Phase) (i : ℕ) (p : Phase)
    → Q p
    → ((j : ℕ) → Q (phases j))
    → (j : ℕ) → Q (update phases i p j)
others_keep Q phases i p q h j = elim (ℕ-cases i j) [
  | inl same ↦ subst (λ k. Q (update phases i p k)) same (rw (update_self phases i p) q)
  | inr other ↦ rw (update_other phases i p j other) (h j)
]

abbrev pub Any : Turn → Type 0
Any t = Unit {0}

pub All-any : (ts : List Turn) → All Any ts
All-any [] = tt
All-any (t ∷ ts) = (tt, All-any ts)

pub run-IsExclusive :
    (ts : List Turn) {s s' : System} → IsExclusive s → run ts s ≡ some s' → IsExclusive s'
run-IsExclusive ts {s} ex e =
    kept IsExclusive e
      (run-Keeps IsExclusive Any (λ t u _. step-IsExclusive t u) ts (All-any ts) s ex)

pub start-IsExclusive : (dialable : Bool) (calls : List Call) → IsExclusive (start dialable calls)
unfolding start
start-IsExclusive dialable calls = record {
  dial_held = phase_of-each (λ p. dials p ≡ false) refl entry-dials calls;
  pub_held = phase_of-each (λ p. publishes p ≡ false) refl entry-publishes calls;
}
