-- ===== src/Bridge/Reconnect/Budget.antt =====
-- The bounds of a sleep, and the end of the retries within the budget.
use norves_editor.Common.{
  ℕ, zero, suc, ◌+◌, ◌*◌, ◌/◌, ◌%◌, ◌≤◌, ◌<◌, min, ◌≡◌, refl, inl, inr, Bool, true, false, Option,
  none, some, arith, leb, Bool-cases, ◌==◌, string_eq, nat_eq, option_eq, u64_max, u64_modulus,
  wrapping_add,
}
use native.Mathlib.Nat.{mod-lt, suc-mul}
use norves_editor.Bridge.Reconnect.{
  RetryConfig, next_backoff, extra_of, Dialed, connected, refused, sleep_after, grow, retry,
  connect_with_retry,
}

extra_of-le : (quarter salt : ℕ) → quarter < u64_max → extra_of quarter salt ≤ quarter
extra_of-le quarter salt h = elim (Bool-cases (quarter == 0)) [
  | inl empty ↦ rw empty (omega arith)
  | inr window ↦
      rw window (window_le (wrapping_add ((quarter % u64_modulus * salt) % u64_modulus) salt))
]
  where
    window_le : (x : ℕ) → x % wrapping_add (quarter % u64_modulus) 1 ≤ quarter
    window_le x = omega (arith, mod-lt x {m = wrapping_add (quarter % u64_modulus) 1} (omega arith))

-- A backoff is at least its base, the smaller of the current backoff and the largest one, and at
-- most a quarter above it, with jitter or without, if a quarter of the largest backoff is below
-- the largest `u64`.
pub next_backoff-bounds :
    (current max_backoff : ℕ) (jitter : Bool) (salt : ℕ)
    → max_backoff / 4 < u64_max
    → (min current max_backoff ≤ next_backoff current max_backoff jitter salt)
      × (next_backoff current max_backoff jitter salt
          ≤ min current max_backoff + min current max_backoff / 4)
unfolding next_backoff
next_backoff-bounds current max_backoff false salt h = (omega arith, omega arith)
next_backoff-bounds current max_backoff true salt h =
    let e = extra_of-le (min current max_backoff / 4) salt (omega arith) in
    (omega (arith, e), omega (arith, e))

abbrev pub IsReturned {ℓ} : {A : Type ℓ} → Option A → Type 0
IsReturned none = ⊥
IsReturned (some a) = Unit

module _ {H E : Type 0} (cfg : RetryConfig) (dial : ℕ → Dialed H E) (clock : ℕ → ℕ)
    (deadline : ℕ) where
  -- The base of the sleep after each attempt.
  abbrev pub backoff_after : ℕ → ℕ
  backoff_after zero = cfg.initial_backoff
  backoff_after (suc n) = grow cfg dial clock deadline (backoff_after n)

  -- Between two attempts the clock moves on by the sleep at least.
  abbrev pub Advances : Type 0
  Advances =
      (n : ℕ) → clock n + sleep_after cfg dial clock deadline (backoff_after n) n ≤ clock (suc n)

  backoff_after-le :
      (b n : ℕ)
      → b ≤ min cfg.initial_backoff cfg.max_backoff
      → b ≤ min (backoff_after n) cfg.max_backoff
  backoff_after-le b zero h = h
  backoff_after-le b (suc n) h = omega (arith, backoff_after-le b n h)

  attempt-IsReturned :
      (fuel n : ℕ)
      → (leb deadline (clock n) ≡ false
          → IsReturned (retry cfg dial clock deadline fuel (backoff_after (suc n)) (suc n)))
      → IsReturned (retry cfg dial clock deadline (suc fuel) (backoff_after n) n)
  unfolding retry
  attempt-IsReturned fuel n next = go (dial n) refl (leb deadline (clock n)) refl
    where
      go :
          (x : Dialed H E)
          → dial n ≡ x
          → (o : Bool) → leb deadline (clock n) ≡ o
          → IsReturned (retry cfg dial clock deadline (suc fuel) (backoff_after n) n)
      go (connected x) e o c = rw (e, retry) tt
      go (refused x) e true c = rw (e, c, retry) tt
      go (refused x) e false c = rw (e, c, retry) (next c)

  retry-IsReturned :
      (b fuel n : ℕ)
      → cfg.max_backoff / 4 < u64_max
      → Advances
      → b ≤ min cfg.initial_backoff cfg.max_backoff
      → deadline ≤ clock n + fuel * b
      → IsReturned (retry cfg dial clock deadline (suc fuel) (backoff_after n) n)
  retry-IsReturned b zero n q adv h d = attempt-IsReturned zero n (λ c. absurd (ground arith))
  retry-IsReturned b (suc fuel) n q adv h d = attempt-IsReturned (suc fuel) n (λ c.
      retry-IsReturned b fuel (suc n) q adv h (
        omega (
          arith,
          suc-mul fuel b,
          adv n,
          backoff_after-le b n h,
          (next_backoff-bounds (backoff_after n) cfg.max_backoff cfg.jitter (wrapping_add n 1) q).0,
        )))

-- The loop returns, with a connection or with the timeout, whatever the transport answers, if its
-- fuel is one more than a number of smallest sleeps that makes up the budget. The clock does not
-- start before the call and moves on by every sleep, and a quarter of the largest backoff is below
-- the largest `u64`.
pub connect_with_retry-IsReturned :
    {H E : Type 0} (cfg : RetryConfig) (dial : ℕ → Dialed H E) (clock : ℕ → ℕ) (started fuel : ℕ)
    → cfg.max_backoff / 4 < u64_max
    → started ≤ clock 0
    → Advances cfg dial clock (started + cfg.max_elapsed)
    → cfg.max_elapsed ≤ fuel * min cfg.initial_backoff cfg.max_backoff
    → IsReturned (connect_with_retry cfg dial clock started (suc fuel))
connect_with_retry-IsReturned cfg dial clock started fuel q s adv enough =
    retry-IsReturned cfg dial clock (started + cfg.max_elapsed)
      (min cfg.initial_backoff cfg.max_backoff) fuel 0 q adv (omega arith) (omega arith)
