-- ===== src/Amqp/Schedule/Redials.antt =====
-- What the moves of rpc/amqp/amqp.go do to the connections, outside of Close.
use yggdrasil_sdk_go.Base.{
  ℕ, suc, ◌==◌, Bool, true, false, Option, none, some, List, [], ◌∷◌, ◌≡◌, ◌⊎◌, inl, inr, arith,
}
use yggdrasil_sdk_go.Rpc.{Error}
use yggdrasil_sdk_go.Amqp.Connection.{elem, remove, live, close_conn}
use yggdrasil_sdk_go.Amqp.Schedule.{
  Shared, Caller, Phase, checking_closed, dialing, installing, resetting, closing, closing_pub,
  closing_conn, hanging_up, dial, advance,
}
use yggdrasil_sdk_go.Amqp.Schedule.Mutexes.{dials, owns}

-- A goroutine in Close.
abbrev pub shuts : Phase → Bool
shuts closing = true
shuts closing_pub = true
shuts closing_conn = true
shuts (hanging_up o) = true
shuts p = false

-- The phases in which the connection was seen dead under dialMu.
abbrev pub redials : Phase → Bool
redials (checking_closed w) = true
redials (dialing w) = true
redials (installing w c) = true
redials p = false

abbrev pub installs : Phase → Bool
installs (installing w c) = true
installs p = false

elem-remove_other :
    (c d : ℕ) (cs : List ℕ) → (d == c) ≡ false → elem c cs ≡ true → elem c (remove d cs) ≡ true
unfolding elem remove
elem-remove_other c d [] h e = cc
elem-remove_other c d (x ∷ cs) h e = ground (arith, elem-remove_other c d cs h)

pub elem-close_conn_other :
    (c : ℕ) (o : Option ℕ) (cs : List ℕ)
    → owns o c ≡ false
    → elem c cs ≡ true
    → elem c (close_conn o cs) ≡ true
unfolding close_conn
elem-close_conn_other c none cs h e = e
elem-close_conn_other c (some d) cs h e = elem-remove_other c d cs h e

-- The connections are as they were.
abbrev pub Same : Shared → Shared → Type 0
Same m m' = (m'.next ≡ m.next) × (m'.conn ≡ m.conn) × (m'.alive ≡ m.alive)

module _ (failure : Option Error) (i n : ℕ) (m m' : Shared) where
  pub advance_unshut :
      (p p' : Phase) → advance failure i p m ≡ some (m', p') → shuts p ≡ false → shuts p' ≡ false
  unfolding advance
  advance_unshut p p' e h = ground arith

  -- A move outside of dialMu.
  pub advance-Same :
      (p p' : Phase)
      → advance failure i p m ≡ some (m', p')
      → dials p ≡ false
      → shuts p ≡ false
      → Same m m'
  unfolding advance
  advance-Same p p' e h k = ground arith

  -- A move where the connection is open.
  pub advance_installed :
      (p p' : Phase)
      → advance failure i p m ≡ some (m', p')
      → m.conn ≡ some n
      → elem n m.alive ≡ true
      → redials p ≡ false
      → shuts p ≡ false
      → Same m m' × (redials p' ≡ false)
  unfolding advance live
  advance_installed p p' e c a h k = ground arith

  -- The move that installs it.
  pub advance_installs :
      (w : Caller) (p' : Phase)
      → advance failure i (installing w n) m ≡ some (m', p')
      → (m'.next ≡ m.next)
        × (m'.conn ≡ some n)
        × (m'.alive ≡ close_conn m.conn m.alive)
        × (p' ≡ resetting w n)
  unfolding advance
  advance_installs w p' e = ground arith

  -- The connections are as they were, or the next one is dialed.
  abbrev pub Redialed : Phase → Type 0
  Redialed p' =
      (Same m m' × (installs p' ≡ false))
      ⊎ ((w : Caller) × (p' ≡ installing w n)
          × (m'.next ≡ suc n)
          × (m'.conn ≡ m.conn)
          × (elem n m'.alive ≡ true))

  -- A move where it is dead.
  pub advance_dead :
      (p p' : Phase)
      → advance failure i p m ≡ some (m', p')
      → m.next ≡ n
      → installs p ≡ false
      → shuts p ≡ false
      → Redialed p'
  unfolding advance elem
  advance_dead (dialing w) p' e c h k = go failure e
    where
      go : (f : Option Error) → dial f w m ≡ some (m', p') → Redialed p'
      go none e = inr (w, ground arith, ground arith, ground arith, ground arith)
      go (some err) e = inl (ground arith)
  advance_dead p p' e c h k = inl (ground arith)
