-- ===== src/Bridge/Reconnect.antt =====
-- The connection with retries of norves-bridge-editor-client/src/reconnect.rs. Durations and
-- instants are numbers of nanoseconds; what the sum of two `Duration`s refuses is far above them.
pub mod Budget
use norves_editor.Common.{
  ℕ, zero, suc, ◌+◌, ◌-◌, ◌*◌, ◌/◌, ◌%◌, ◌≤◌, ◌<◌, min, max, ◌≡◌, ◌≢◌, refl, sym, ap, subst, ◌∙◌,
  ◌⊎◌, inl, inr, ◌↔◌, Bool, true, false, not, ◌&&◌, ◌||◌, String, Option, none, some, List, [], ◌∷◌,
  ◌++◌, map, reverse, arith, length, head?, any, retain, take_while, All, if◌then◌else◌, ltb, leb,
  nat_beq, nat_beq_iff, Bool-cases, Option-cases, ◌==◌, Eq, string_eq, nat_eq, option_eq,
  option_beq, beq_refl, eq_iff, u64_max, u64_modulus, wrapping_add, saturating_add, saturating_sub,
}

pub record RetryConfig : Type 0 where
  pub initial_backoff : ℕ
  pub max_backoff : ℕ
  pub max_elapsed : ℕ
  pub jitter : Bool

-- `RetryConfig::default()`: 50 ms, 1 s and 10 s
abbrev pub default_config : RetryConfig
default_config = record {
  initial_backoff = 50000000;
  max_backoff = 1000000000;
  max_elapsed = 10000000000;
  jitter = true;
}

-- The part of the quarter window that the salt picks. `as u64` keeps the low 64 bits.
abbrev pub extra_of : (quarter salt : ℕ) → ℕ
extra_of quarter salt =
    if quarter == 0
    then 0
    else (let nanos = quarter % u64_modulus in
        wrapping_add ((nanos * salt) % u64_modulus) salt % wrapping_add nanos 1)

unfoldable pub next_backoff : (current max_backoff : ℕ) → (jitter : Bool) → (salt : ℕ) → ℕ
next_backoff current max_backoff jitter salt =
    let base = min current max_backoff in
    if not jitter
    then base
    else min (base + extra_of (base / 4) salt) (max_backoff + max_backoff / 4)

-- What the transport answers to an attempt to connect.
pub data Dialed (H E : Type 0) : Type 0 where
  connected : H → Dialed H E
  refused : E → Dialed H E

pub data Connection (H E : Type 0) : Type 0 where
  dispatching : H → Connection H E
  timeout : (elapsed : ℕ) → (last : E) → Connection H E

-- The transport and the clock: what the attempts, counted from 0, end in, and when.
module _ {H E : Type 0} (cfg : RetryConfig) (dial : ℕ → Dialed H E) (clock : ℕ → ℕ)
    (deadline : ℕ) where
  -- How long the loop sleeps after a failed attempt.
  abbrev pub sleep_after : (backoff attempt : ℕ) → ℕ
  sleep_after backoff attempt =
      min (next_backoff backoff cfg.max_backoff cfg.jitter (wrapping_add attempt 1))
        (deadline - clock attempt)

  -- The base of the next attempt's sleep.
  abbrev pub grow : ℕ → ℕ
  grow backoff = min (backoff * 2) cfg.max_backoff

  -- `connect_with_retry` from an attempt on; `none` where the fuel ends.
  unfoldable pub retry : (fuel backoff attempt : ℕ) → Option (Connection H E)
  retry zero backoff attempt = none
  retry (suc fuel) backoff attempt = elim (dial attempt) [
    | connected h ↦ some (dispatching h)
    | refused last ↦ elim (leb deadline (clock attempt)) [
      | true ↦ some (timeout cfg.max_elapsed last)
      | false ↦ retry fuel (grow backoff) (suc attempt)
    ]
  ]

-- `connect_with_retry`, started at an instant. Its bound on the attempts is `fuel`.
abbrev pub connect_with_retry :
    {H E : Type 0}
    → RetryConfig
    → (ℕ → Dialed H E)
    → (clock : ℕ → ℕ) → (started fuel : ℕ) → Option (Connection H E)
connect_with_retry cfg dial clock started fuel =
    retry cfg dial clock (started + cfg.max_elapsed) fuel cfg.initial_backoff 0
