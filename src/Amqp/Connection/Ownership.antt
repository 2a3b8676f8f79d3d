-- ===== src/Amqp/Connection/Ownership.antt =====
-- Which connections rpc/amqp/amqp.go leaves open at the broker.
use yggdrasil_sdk_go.Base.{
  ℕ, suc, Bool, true, false, Option, none, some, List, [], ◌∷◌, ◌≡◌, ◌⊎◌, inl, inr, refl, subst,
  arith, All, if◌then◌else◌,
}
use yggdrasil_sdk_go.Rpc.{Error}
use yggdrasil_sdk_go.Amqp.Connection.{
  Channel, Transport, Outcome, returned, stuck, live, remove, install, dial_next, reconnect_checked,
  reconnect, use_checked, connection_for_use, usable, open_channel, open_with, publish_checked,
  publish_channel, close_conn, close_open, close,
}

-- `New` and `NewWithDial`, with their connection.
abbrev pub fresh : Bool → Transport
fresh dialable = record {
  conn = some 0;
  alive = 0 ∷ [];
  next = 1;
  dialable = dialable;
  pub_ch = none;
  is_closed = false;
  dial_held = false;
  pub_held = false;
}

-- What may happen to a transport, one call behind the other: uses of its connection, publishes and
-- closes that return, and connections and channels that the broker drops.
pub data Reached : Transport → Type 0 where
  made : (dialable : Bool) → Reached (fresh dialable)
  used :
      {t t' : Transport} {r : Error ⊎ Option ℕ} (dial : Option Error)
      → Reached t
      → connection_for_use dial t ≡ returned t' r
      → Reached t'
  published :
      {t t' : Transport} {r : Error ⊎ Channel} (dial : Option Error)
      (channel : Option ℕ → Error ⊎ Channel)
      → Reached t
      → publish_channel dial channel t ≡ returned t' r
      → Reached t'
  ended : {t t' : Transport} {r : Bool} → Reached t → close t ≡ returned t' r → Reached t'
  dropped : {t : Transport} (c : ℕ) → Reached t → Reached (record t { alive = remove c t.alive })
  channel_dropped :
      {t : Transport} (ch : Channel) → Reached t → Reached (record t { pub_ch = some ch })

-- Every open connection is the transport's own, and a closed transport has none.
abbrev pub IsOwner : Transport → Type 0
IsOwner t = All (λ d. t.conn ≡ some d) t.alive × (t.is_closed ≡ true → t.conn ≡ none)

abbrev OwnerOf : {A : Type 0} → Outcome A → Type 0
OwnerOf (returned t r) = IsOwner t
OwnerOf stuck = Unit

remove-All : (P : ℕ → Type 0) (c : ℕ) (ds : List ℕ) → All P ds → All P (remove c ds)
unfolding remove
remove-All P c [] h = h
remove-All P c (d ∷ ds) (p, h) = ground (arith, remove-All P c ds h)

close_conn-owned : (o : Option ℕ) (ds : List ℕ) → All (λ d. o ≡ some d) ds → close_conn o ds ≡ []
unfolding close_conn remove
close_conn-owned none [] h = refl
close_conn-owned none (d ∷ ds) (e, h) = cc
close_conn-owned (some c) [] h = refl
close_conn-owned (some c) (d ∷ ds) (e, h) = ground (arith, close_conn-owned (some c) ds h)

OwnerOf-if :
    {A : Type 0} (b : Bool) (x y : Outcome A)
    → (b ≡ true → OwnerOf x)
    → (b ≡ false → OwnerOf y)
    → OwnerOf (if b then x else y)
OwnerOf-if true x y f g = f refl
OwnerOf-if false x y f g = g refl

install-IsOwner : (t : Transport) → IsOwner t → t.is_closed ≡ false → OwnerOf (install t)
unfolding install
install-IsOwner t own still =
    OwnerOf-if t.pub_held _ _ (λ held. tt)
      λ free. rw (close_conn-owned t.conn t.alive own.0) ((refl, tt), λ e. cc)

dial_next-IsOwner :
    (dial : Option Error) (t : Transport)
    → IsOwner t
    → t.is_closed ≡ false
    → OwnerOf (dial_next dial t)
unfolding dial_next
dial_next-IsOwner none t own still = install-IsOwner t own still
dial_next-IsOwner (some err) t own still = own

reconnect_checked-IsOwner :
    (dial : Option Error) (t : Transport) (o : Option ℕ)
    → IsOwner t
    → OwnerOf (reconnect_checked dial t o)
unfolding reconnect_checked
reconnect_checked-IsOwner dial t (some c) own = own
reconnect_checked-IsOwner dial t none own =
    OwnerOf-if t.is_closed _ _ (λ over. own) (λ still. dial_next-IsOwner dial t own still)

use_checked-IsOwner :
    (dial : Option Error) (t : Transport) (o : Option ℕ)
    → IsOwner t
    → OwnerOf (use_checked dial t o)
unfolding use_checked reconnect
use_checked-IsOwner dial t (some c) own = own
use_checked-IsOwner dial t none own =
    OwnerOf-if t.is_closed _ _ (λ over. own)
      λ still.
        OwnerOf-if t.dialable _ _
          (λ can.
            OwnerOf-if t.dial_held _ _ (λ held. tt)
              λ idle.
                reconnect_checked-IsOwner dial (record t { dial_held = true }) (live t.conn t.alive)
                  own)
          (λ cannot. own)

open_channel-IsOwner :
    (channel : Option ℕ → Error ⊎ Channel) (u : Outcome (Error ⊎ Option ℕ))
    → OwnerOf u
    → OwnerOf (open_channel channel u)
unfolding open_channel open_with
open_channel-IsOwner channel stuck own = tt
open_channel-IsOwner channel (returned t (inl err)) own = own
open_channel-IsOwner channel (returned t (inr c)) own = go (channel c)
  where
    go : (e : Error ⊎ Channel) → OwnerOf (open_with t e)
    go (inl err) = own
    go (inr ch) = own

publish_checked-IsOwner :
    (dial : Option Error) (channel : Option ℕ → Error ⊎ Channel) (t : Transport)
    (o : Option Channel)
    → IsOwner t
    → OwnerOf (publish_checked dial channel t o)
unfolding publish_checked connection_for_use
publish_checked-IsOwner dial channel t (some ch) own = own
publish_checked-IsOwner dial channel t none own =
    open_channel-IsOwner channel (connection_for_use dial t)
      (use_checked-IsOwner dial t (live t.conn t.alive) own)

publish_channel-IsOwner :
    (dial : Option Error) (channel : Option ℕ → Error ⊎ Channel) (t : Transport)
    → IsOwner t
    → OwnerOf (publish_channel dial channel t)
unfolding publish_channel
publish_channel-IsOwner dial channel t own =
    OwnerOf-if t.pub_held _ _ (λ held. tt)
      λ free.
        publish_checked-IsOwner dial channel (record t { pub_held = true })
          (usable t.pub_ch t.alive) own

close-IsOwner : (t : Transport) → IsOwner t → OwnerOf (close t)
unfolding close close_open
close-IsOwner t own =
    OwnerOf-if t.is_closed _ _ (λ over. own)
      λ still.
        OwnerOf-if t.pub_held _ _ (λ held. tt)
          λ free. rw (close_conn-owned t.conn t.alive own.0) (tt, λ e. refl)

-- Whatever calls and drops have come one behind the other, every connection that is open at the broker
-- is the one that the transport has, and a transport that was closed has none and leaves none open.
pub Reached-IsOwner : {t : Transport} → Reached t → IsOwner t
unfolding connection_for_use
Reached-IsOwner (made dialable) = ((refl, tt), λ e. cc)
Reached-IsOwner (used {t} dial h e) =
    subst OwnerOf e (use_checked-IsOwner dial t (live t.conn t.alive) (Reached-IsOwner h))
Reached-IsOwner (published {t} dial channel h e) =
    subst OwnerOf e (publish_channel-IsOwner dial channel t (Reached-IsOwner h))
Reached-IsOwner (ended {t} h e) = subst OwnerOf e (close-IsOwner t (Reached-IsOwner h))
Reached-IsOwner (dropped {t} c h) =
    let (own, over) = Reached-IsOwner h in (remove-All (λ d. t.conn ≡ some d) c t.alive own, over)
Reached-IsOwner (channel_dropped ch h) = Reached-IsOwner h

-- A dial that comes back behind a close is installed all the same: the closed transport then has an
-- open connection, which another close does not close.
pub late_install_leaks :
    {t : Transport}
    → Reached t
    → t.is_closed ≡ true
    → t.pub_held ≡ false
    → (t' : Transport) × (install t ≡ returned t' (inr (some t.next)))
      × (t'.alive ≡ t.next ∷ [])
      × (close t' ≡ returned t' false)
unfolding install close
late_install_leaks {t} h over free = (
  record t {
    conn = some t.next;
    alive = t.next ∷ [];
    next = suc t.next;
    pub_ch = none;
    dial_held = false;
  },
  rw (free, close_conn-owned t.conn t.alive (Reached-IsOwner h).0) refl,
  refl,
  rw over refl,
)
