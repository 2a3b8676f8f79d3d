-- ===== src/Http/Transport/Serving.antt =====
-- How long rpc/http/http.go serves an endpoint that was consumed.
use yggdrasil_sdk_go.Base.{
  ℕ, zero, suc, ◌==◌, Bool, true, false, not, ◌&&◌, some, List, [], ◌∷◌, ◌++◌, ◌≡◌, inl, inr, refl,
  ap, sym, subst, ◌∙◌, arith, length, get_elem?, and-eq-true,
}
use yggdrasil_sdk_go.Base.Texts.{Text}
use yggdrasil_sdk_go.Rpc.{Handler, ConsumerConfig}
use yggdrasil_sdk_go.Http.Transport.{
  Mounted, Transport, subscribed, consume, mount, mount_of, close_at, close_sub, close,
}
use yggdrasil_sdk_go.Http.Transport.Steps.{
  Op, consuming, closing_sub, closing, applies, consume-Outcome,
}

close_closed : (t : Transport) → t.closed ≡ true → close t ≡ t
unfolding close
close_closed t was_closed = rw was_closed

-- Nothing closes the subscription: no `Close` of its own, and none of a transport that is open.
abbrev pub spares : ℕ → Bool → List Op → Bool
spares i closed [] = true
spares i closed (consuming cfg ∷ ops) = spares i closed ops
spares i closed (closing_sub j ∷ ops) = not (j == i) && spares i closed ops
spares i closed (closing ∷ ops) = closed && spares i closed ops

get_elem?-append :
    (i : ℕ) (m n : Mounted) (ms : List Mounted)
    → get_elem? ms i ≡ some m
    → get_elem? (ms ++ n ∷ []) i ≡ some m
get_elem?-append i m n [] at = cc
get_elem?-append zero m n (k ∷ ms) at = at
get_elem?-append (suc i) m n (k ∷ ms) at = get_elem?-append i m n ms at

get_elem?-last : (n : Mounted) (ms : List Mounted) → get_elem? (ms ++ n ∷ []) (length ms) ≡ some n
get_elem?-last n [] = refl
get_elem?-last n (k ∷ ms) = get_elem?-last n ms

get_elem?-close_at :
    (i j : ℕ) (ms : List Mounted) → (j == i) ≡ false → get_elem? (close_at j ms) i ≡ get_elem? ms i
unfolding close_at
get_elem?-close_at i j [] h = refl
get_elem?-close_at zero zero (m ∷ ms) h = absurd (ground arith)
get_elem?-close_at zero (suc j) (m ∷ ms) h = refl
get_elem?-close_at (suc i) zero (m ∷ ms) h = refl
get_elem?-close_at (suc i) (suc j) (m ∷ ms) h = get_elem?-close_at i j ms (ground arith)

module _ (takes : List Text → Text → Bool) (i : ℕ) (m : Mounted) where
  consume-get_elem? :
      (cfg : ConsumerConfig) (t : Transport)
      → get_elem? t.mounted i ≡ some m
      → (get_elem? (consume takes cfg t).1.mounted i ≡ some m)
        × ((consume takes cfg t).1.closed ≡ t.closed)
  consume-get_elem? cfg t at = elim (consume-Outcome takes cfg t) [
    | inl (_, same) ↦ rw same (at, refl)
    | inr (handler, _, done) ↦ rw done (get_elem?-append i m _ t.mounted at, refl)
  ]

  applies-spares :
      (ops : List Op) (t : Transport)
      → spares i t.closed ops ≡ true
      → get_elem? t.mounted i ≡ some m
      → get_elem? (applies takes ops t).mounted i ≡ some m
  unfolding applies close_sub
  applies-spares [] t h at = at
  applies-spares (consuming cfg ∷ ops) t h at =
      let (still, same) = consume-get_elem? cfg t at in
      applies-spares ops (consume takes cfg t).1 (rw same h) still
  applies-spares (closing_sub j ∷ ops) t h at =
      let (other, rest) = and-eq-true (not (j == i)) (spares i t.closed ops) h in
      applies-spares ops (close_sub j t) rest (get_elem?-close_at i j t.mounted (ground arith) ∙ at)
  applies-spares (closing ∷ ops) t h at =
      let (was_closed, rest) = and-eq-true t.closed (spares i t.closed ops) h in
      subst (λ s. get_elem? (applies takes ops s).mounted i ≡ some m)
        (sym (close_closed t was_closed)) (applies-spares ops t rest at)

subscribed_inj : {i j : ℕ} → subscribed i ≡ subscribed j → i ≡ j
subscribed_inj e = cc

some_inj : {h k : Handler} → some h ≡ some k → h ≡ k
some_inj e = cc

-- A consumed endpoint is served by its handler from then on, until its own subscription or the open
-- transport is closed, whatever else is consumed and closed. A transport that was closed before
-- takes consumers all the same, and then no further close of it stops them.
pub consume-serves :
    (takes : List Text → Text → Bool) (cfg : ConsumerConfig) (handler : Handler) (t : Transport)
    (i : ℕ) (ops : List Op)
    → cfg.handler ≡ some handler
    → (consume takes cfg t).0 ≡ subscribed i
    → spares i t.closed ops ≡ true
    → get_elem? (applies takes ops (consume takes cfg t).1).mounted i
      ≡ some (mount_of t.path_prefix cfg handler)
consume-serves takes cfg handler t i ops given fine spared = elim (consume-Outcome takes cfg t) [
  | inl (never, _) ↦ absurd (never i fine)
  | inr (h, same, done) ↦
      let at_end : length t.mounted ≡ i = subscribed_inj (sym (ap (λ p. p.0) done) ∙ fine) in
      let one : h ≡ handler = some_inj (sym same ∙ given) in
      let m = mount_of t.path_prefix cfg handler in
      rw (done, one)
        (applies-spares takes i m ops (mount m t) spared (
          subst (λ k. get_elem? (t.mounted ++ m ∷ []) k ≡ some m) at_end
            (get_elem?-last m t.mounted)))
]
