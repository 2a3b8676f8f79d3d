-- ===== src/Http/Transport/Shutdown.antt =====
-- What rpc/http/http.go answers before and after a close.
use yggdrasil_sdk_go.Base.{
  ℕ, zero, suc, ◌<◌, ◌==◌, Bool, true, false, not, ◌||◌, Option, some, List, [], ◌∷◌, ◌++◌, ◌≡◌,
  ◌⊎◌, inl, inr, refl, ap, sym, subst, ◌∙◌, arith, length, length-append, get_elem?, if◌then◌else◌,
  Bool-cases,
}
use yggdrasil_sdk_go.Base.Texts.{Text, codes}
use yggdrasil_sdk_go.Rpc.{Error, Codec, ConsumerConfig}
use yggdrasil_sdk_go.Http.Serve.{Subscription, http_error, serve_http}
use yggdrasil_sdk_go.Http.Transport.{
  Mounted, Transport, new, consume, mount, mount_of, close_at, close_sub, close_each, close,
}
use yggdrasil_sdk_go.Http.Transport.Steps.{
  Op, consuming, closing_sub, closing, applies, has_no_close, consume-Outcome,
}

is_live : ℕ → List Mounted → Bool
is_live i [] = false
is_live zero (m ∷ ms) = not m.sub.closed
is_live (suc i) (m ∷ ms) = is_live i ms

holds : ℕ → List ℕ → Bool
holds j [] = false
holds j (i ∷ is) = i == j || holds j is

-- 0 to n - 1
upto : ℕ → List ℕ
upto zero = []
upto (suc n) = upto n ++ n ∷ []

is_live-close_at :
    (i j : ℕ) (ms : List Mounted)
    → is_live j (close_at i ms) ≡ (if i == j then false else is_live j ms)
unfolding is_live close_at
is_live-close_at i j [] = ground arith
is_live-close_at zero zero (m ∷ ms) = refl
is_live-close_at zero (suc j) (m ∷ ms) = ground arith
is_live-close_at (suc i) zero (m ∷ ms) = ground arith
is_live-close_at (suc i) (suc j) (m ∷ ms) = ground (arith, is_live-close_at i j ms)

is_live-close_each :
    (j : ℕ) (is : List ℕ) (ms : List Mounted)
    → is_live j (close_each is ms) ≡ (if holds j is then false else is_live j ms)
unfolding holds close_each
is_live-close_each j [] ms = refl
is_live-close_each j (i ∷ is) ms =
    ground (arith, is_live-close_each j is (close_at i ms), is_live-close_at i j ms)

holds-append : (j : ℕ) (is ks : List ℕ) → holds j (is ++ ks) ≡ (holds j is || holds j ks)
unfolding holds
holds-append j [] ks = refl
holds-append j (i ∷ is) ks = ground (arith, holds-append j is ks)

holds-upto : (j n : ℕ) → j < n → holds j (upto n) ≡ true
unfolding upto holds
holds-upto j zero h = absurd (omega arith)
holds-upto j (suc n) h = ground (arith, holds-append j (upto n) (n ∷ []), holds-upto j n)

is_live_within : (j : ℕ) (ms : List Mounted) → is_live j ms ≡ true → j < length ms
unfolding is_live
is_live_within j [] h = cc
is_live_within zero (m ∷ ms) h = omega arith
is_live_within (suc j) (m ∷ ms) h = omega (arith, is_live_within j ms h)

length-close_at : (i : ℕ) (ms : List Mounted) → length (close_at i ms) ≡ length ms
unfolding close_at
length-close_at i [] = refl
length-close_at zero (m ∷ ms) = refl
length-close_at (suc i) (m ∷ ms) = omega (arith, length-close_at i ms)

-- A transport that is open has each of its subscriptions in its list.
record IsTracked (t : Transport) : Type 0 where
  is_open : t.closed ≡ false
  tracked : t.subs ≡ upto (length t.mounted)

upto-close : (i : ℕ) (t : Transport) → IsTracked t → IsTracked (close_sub i t)
unfolding close_sub
upto-close i t k = record {
  is_open = k.is_open;
  tracked = k.tracked ∙ ap upto (sym (length-close_at i t.mounted));
}

mount-IsTracked : (m : Mounted) (t : Transport) → IsTracked t → IsTracked (mount m t)
unfolding upto
mount-IsTracked m t k =
    let one_more : length (t.mounted ++ m ∷ []) ≡ suc (length t.mounted) =
      omega (arith, length-append t.mounted (m ∷ [])) in
    record {
      is_open = k.is_open;
      tracked = ap (λ s. s ++ length t.mounted ∷ []) k.tracked ∙ ap upto (sym one_more);
    }

module _ (takes : List Text → Text → Bool) where
  consume-IsTracked :
      (cfg : ConsumerConfig) (t : Transport) → IsTracked t → IsTracked (consume takes cfg t).1
  consume-IsTracked cfg t k = elim (consume-Outcome takes cfg t) [
    | inl (_, same) ↦ rw same k
    | inr (handler, _, done) ↦ rw done (mount-IsTracked (mount_of t.path_prefix cfg handler) t k)
  ]

  applies-IsTracked :
      (ops : List Op) (t : Transport)
      → has_no_close ops ≡ true
      → IsTracked t
      → IsTracked (applies takes ops t)
  unfolding applies
  applies-IsTracked [] t h k = k
  applies-IsTracked (consuming cfg ∷ ops) t h k =
      applies-IsTracked ops (consume takes cfg t).1 h (consume-IsTracked cfg t k)
  applies-IsTracked (closing_sub i ∷ ops) t h k =
      applies-IsTracked ops (close_sub i t) h (upto-close i t k)
  applies-IsTracked (closing ∷ ops) t h k = cc

close_dead : (j : ℕ) (t : Transport) → IsTracked t → is_live j (close t).mounted ≡ false
unfolding close
close_dead j t k =
    rw (k.is_open, k.tracked, is_live-close_each) ground
      (arith, holds-upto j (length t.mounted), is_live_within j t.mounted)

closed-is_live :
    (i : ℕ) (m : Mounted) (ms : List Mounted)
    → get_elem? ms i ≡ some m
    → is_live i ms ≡ false
    → m.sub.closed ≡ true
unfolding is_live
closed-is_live i m [] at dead = cc
closed-is_live zero m (n ∷ ms) at dead =
    let same : n ≡ m = ground arith in subst (λ k. k.sub.closed ≡ true) same (ground arith)
closed-is_live (suc i) m (n ∷ ms) at dead = closed-is_live i m ms at dead

closed_serve :
    (codec : Codec) (write : Text → Option Error) (admitted : Bool) (read : Error ⊎ Text)
    (sub : Subscription)
    → sub.closed ≡ true
    → serve_http codec write admitted read sub ≡ http_error 503 (codes "subscription closed") ∷ []
unfolding serve_http
closed_serve codec write admitted read sub done = rw done

close_twice : (t : Transport) → close (close t) ≡ close t
unfolding close
close_twice t = elim (Bool-cases t.closed) [ inl c ↦ rw c | inr o ↦ rw o ]

new-IsTracked : (has_mux : Bool) (path_prefix : Text) → IsTracked (new has_mux path_prefix)
unfolding new upto
new-IsTracked has_mux path_prefix = record { is_open = refl; tracked = refl }

-- Whatever was consumed and closed before, behind the first close of a transport a request to any
-- endpoint that it has mounted gets 503, and another close changes nothing.
pub close-serve_http :
    (takes : List Text → Text → Bool) (has_mux : Bool) (path_prefix : Text) (ops : List Op) (i : ℕ)
    (m : Mounted) (codec : Codec) (write : Text → Option Error) (admitted : Bool)
    (read : Error ⊎ Text)
    → has_no_close ops ≡ true
    → get_elem? (close (applies takes ops (new has_mux path_prefix))).mounted i ≡ some m
    → (serve_http codec write admitted read m.sub
        ≡ http_error 503 (codes "subscription closed") ∷ [])
      × (close (close (applies takes ops (new has_mux path_prefix)))
          ≡ close (applies takes ops (new has_mux path_prefix)))
close-serve_http takes has_mux path_prefix ops i m codec write admitted read none_closed at =
    let t = applies takes ops (new has_mux path_prefix) in
    let k : IsTracked t =
      applies-IsTracked takes ops _ none_closed (new-IsTracked has_mux path_prefix) in
    (
      closed_serve codec write admitted read m.sub
          (closed-is_live i m (close t).mounted at (close_dead i t k)),
      close_twice t,
    )
