-- ===== src/Adapter/Listen/Dialing.antt =====
-- When the dial succeeds, in adapter/transport.go.
use yggdrasil_sdk_go.Base.{
  subst, ℕ, zero, suc, ◌+◌, ◌≤◌, ◌<◌, Option, none, ◌≡◌, ◌↔◌, ◌⊎◌, inl, inr, refl, arith,
  Option-cases,
}
use yggdrasil_sdk_go.Base.Texts.{Text}
use yggdrasil_sdk_go.Rpc.{Error}
use yggdrasil_sdk_go.Amqp.Connection.{next_backoff}
use yggdrasil_sdk_go.Adapter.Listen.{Connection, dial_from, dial_amqp_with_retry}

-- An attempt fails, and the wait behind it is not canceled.
abbrev pub Retries : (ℕ → Error ⊎ Connection) → (ℕ → Option Error) → ℕ → Type 0
Retries dial canceled n = ((err : Error) × (dial n ≡ inl err)) × (canceled n ≡ none)

Sum-cases {ℓ κ} :
    {A : Type ℓ} {B : Type κ} (s : A ⊎ B) → ((a : A) × (s ≡ inl a)) ⊎ ((b : B) × (s ≡ inr b))
Sum-cases (inl a) = inl (a, refl)
Sum-cases (inr b) = inr (b, refl)

module _ (quote : Text → Text) (url : Text) (dial : ℕ → Error ⊎ Connection)
    (canceled : ℕ → Option Error) (conn : Connection) where
  dial_from-zero :
      (attempt backoff : ℕ)
      → ((dial_from quote url dial canceled 0 attempt backoff).0 ≡ inr conn)
        ↔ (dial attempt ≡ inr conn)
  unfolding dial_from
  dial_from-zero attempt backoff = ground arith

  dial_from-suc :
      (left attempt backoff : ℕ)
      → ((dial_from quote url dial canceled (suc left) attempt backoff).0 ≡ inr conn) ↔ (
          (dial attempt ≡ inr conn)
          ⊎ (Retries dial canceled attempt
              × ((dial_from quote url dial canceled left (suc attempt) (next_backoff backoff)).0
                  ≡ inr conn)))
  unfolding dial_from
  dial_from-suc left attempt backoff = elim (Sum-cases (dial attempt)) [
    | inr (c, e) ↦ (
      λ h. inl (ground arith),
      λ s. elim s [ inl f ↦ ground arith | inr (((err, f), _), _) ↦ cc ],
    )
    | inl (err, e) ↦ elim (Option-cases (canceled attempt)) [
      | inl on ↦ (
        λ h. inr (((err, e), on), ground arith),
        λ s. elim s [ inl f ↦ cc | inr (_, f) ↦ ground arith ],
      )
      | inr (cause, off) ↦
          (λ h. absurd (ground arith), λ s. elim s [ inl f ↦ cc | inr ((_, on), _) ↦ cc ])
    ]
  ]

-- The first attempt that works, among some from one on, before which every attempt retries.
abbrev pub FirstSuccess :
    (ℕ → Error ⊎ Connection) → (ℕ → Option Error) → Connection → ℕ → ℕ → Type 0
FirstSuccess dial canceled conn left attempt =
    (n : ℕ) × (n ≤ left)
    × (dial (n + attempt) ≡ inr conn)
    × ((k : ℕ) → k < n → Retries dial canceled (k + attempt))

module _ (dial : ℕ → Error ⊎ Connection) (canceled : ℕ → Option Error) (conn : Connection) where
  FirstSuccess-zero :
      (attempt : ℕ) → FirstSuccess dial canceled conn 0 attempt ↔ (dial attempt ≡ inr conn)
  FirstSuccess-zero attempt = (
    λ (n, few, gives, _).
        let eq : n + attempt ≡ attempt = omega arith in subst (λ m. dial m ≡ inr conn) eq gives,
    λ e. (
      0,
      omega arith,
      subst (λ m. dial m ≡ inr conn) (omega arith) e,
      λ k few. absurd (omega arith),
    ),
  )

  FirstSuccess-suc :
      (left attempt : ℕ)
      → FirstSuccess dial canceled conn (suc left) attempt ↔ (
          (dial attempt ≡ inr conn)
          ⊎ (Retries dial canceled attempt × FirstSuccess dial canceled conn left (suc attempt)))
  FirstSuccess-suc left attempt = (
    λ (n, few, gives, before). to n few gives before,
    λ s. elim s [
      | inl e ↦ (
        0,
        omega arith,
        subst (λ m. dial m ≡ inr conn) (omega arith) e,
        λ k lt. absurd (omega arith),
      )
      | inr (r, (n, few, gives, before)) ↦ (
        suc n,
        omega arith,
        subst (λ m. dial m ≡ inr conn) (omega arith) gives,
        λ k lt. from r before k lt,
      )
    ],
  )
    where
      to :
          (n : ℕ)
          → n ≤ suc left
          → dial (n + attempt) ≡ inr conn
          → ((k : ℕ) → k < n → Retries dial canceled (k + attempt))
          → (dial attempt ≡ inr conn)
            ⊎ (Retries dial canceled attempt × FirstSuccess dial canceled conn left (suc attempt))
      to zero few gives before = inl (subst (λ m. dial m ≡ inr conn) (omega arith) gives)
      to (suc n) few gives before = inr (
        subst (Retries dial canceled) (omega arith) (before 0 (omega arith)),
        (
          n,
          omega arith,
          subst (λ m. dial m ≡ inr conn) (omega arith) gives,
          λ k lt. subst (Retries dial canceled) (omega arith) (before (suc k) (omega arith)),
        ),
      )

      from :
          {n : ℕ}
          → Retries dial canceled attempt
          → ((k : ℕ) → k < n → Retries dial canceled (k + suc attempt))
          → (k : ℕ) → k < suc n
          → Retries dial canceled (k + attempt)
      from r before zero lt = subst (Retries dial canceled) (omega arith) r
      from r before (suc k) lt =
          subst (Retries dial canceled) (omega arith) (before k (omega arith))

  dial_from_iff :
      (quote : Text → Text) (url : Text) (left attempt backoff : ℕ)
      → ((dial_from quote url dial canceled left attempt backoff).0 ≡ inr conn)
        ↔ FirstSuccess dial canceled conn left attempt
  dial_from_iff quote url zero attempt backoff =
      let (to, from) = dial_from-zero quote url dial canceled conn attempt backoff in
      let (first, back) = FirstSuccess-zero attempt in (λ e. back (to e), λ f. from (first f))
  dial_from_iff quote url (suc left) attempt backoff =
      let (to, from) = dial_from-suc quote url dial canceled conn left attempt backoff in
      let (first, back) = FirstSuccess-suc left attempt in
      let (tos, froms) = dial_from_iff quote url left (suc attempt) (next_backoff backoff) in
      (
        λ e. back (elim (to e) [ inl f ↦ inl f | inr (r, f) ↦ inr (r, tos f) ]),
        λ g. from (elim (first g) [ inl f ↦ inl f | inr (r, f) ↦ inr (r, froms f) ]),
      )

-- A connection comes of the dial exactly when one of the first 30 attempts gives it, each attempt
-- before it has failed, and no wait between them was canceled.
pub dial_amqp_with_retry_iff :
    (quote : Text → Text) (url : Text) (dial : ℕ → Error ⊎ Connection) (canceled : ℕ → Option Error)
    (conn : Connection)
    → ((dial_amqp_with_retry quote url dial canceled).0 ≡ inr conn)
      ↔ FirstSuccess dial canceled conn 29 1
unfolding dial_amqp_with_retry
dial_amqp_with_retry_iff quote url dial canceled conn =
    dial_from_iff dial canceled conn quote url 29 1 1
