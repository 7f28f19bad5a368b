-- ===== src/Ledger/Outbox/Backoff.antt =====
-- services/ledger/internal/outbox/worker.go: the delay before an event is published again.
use keyrus.Base.{
  ℕ, zero, suc, ◌+◌, ◌-◌, ◌*◌, ◌/◌, ◌^◌, ◌≤◌, min, ◌≡◌, sym, ◌∙◌, ap, ltb, if◌then◌else◌, arith,
  Bool-cases, inl, inr,
}
use native.Mathlib.Nat.{pow-suc, mul_assoc, mul_comm, mul-le-mul_left, pow-le-pow_right}

-- the loop of `retryDelay`, over the steps that are left
unfoldable pub doubled : ℕ → ℕ → ℕ → ℕ
doubled max zero delay = delay
doubled max (suc steps) delay =
    let rest = doubled max steps (delay * 2) in
    if ltb delay max then (if ltb (max / 2) delay then max else rest) else delay

-- the delay of an attempt before its random factor
unfoldable pub base_delay : ℕ → ℕ → ℕ → ℕ
unfolding doubled
base_delay base max attempt =
    let counted = if ltb attempt 1 then 1 else attempt in doubled max (counted - 1) base

-- `retryDelay`, where `scaled` is the product with the random factor
unfoldable pub retry_delay : (ℕ → ℕ) → ℕ → ℕ → ℕ → ℕ
unfolding base_delay
retry_delay scaled base max attempt =
    let result = scaled (base_delay base max attempt) in if ltb max result then max else result

pow-pos : (n : ℕ) → 1 ≤ 2 ^ n
pow-pos n = pow-le-pow_right {n = 2} (omega arith) {i = 0} {j = n} (omega arith)

pow-double : (n delay : ℕ) → delay * 2 ^ suc n ≡ delay * 2 * 2 ^ n
pow-double n delay =
    ap (λ x. delay * x) (pow-suc 2 n ∙ mul_comm (2 ^ n) 2) ∙ sym (mul_assoc delay 2 (2 ^ n))

grows : (n delay : ℕ) → delay ≤ delay * 2 ^ n
grows n delay = omega (arith, mul-le-mul_left {m = 1} {n = 2 ^ n} delay (pow-pos n))

doubled_lem : (max n delay : ℕ) → delay ≤ max → doubled max n delay ≡ min max (delay * 2 ^ n)
unfolding doubled
doubled_lem max zero delay b = omega (arith, b)
doubled_lem max (suc n) delay b =
    let more = grows n (delay * 2) in
    elim (Bool-cases (ltb delay max)) [
      | inr full ↦ rw (full, pow-double n delay) (ground (arith, full, more, b))
      | inl low ↦ elim (Bool-cases (ltb (max / 2) delay)) [
        | inl last ↦ rw (low, last, pow-double n delay) (ground (arith, last, more))
        | inr room ↦
            rw (low, room, pow-double n delay)
              (doubled_lem max n (delay * 2) (ground (arith, room)))
      ]
    ]

-- The delay of an attempt before its random factor is the base doubled once for each attempt after
-- the first, up to the maximum.
pub base_delay_lem :
    (base max attempt : ℕ)
    → base ≤ max
    → base_delay base max attempt ≡ min max (base * 2 ^ (attempt - 1))
unfolding base_delay
base_delay_lem base max attempt b = elim (Bool-cases (ltb attempt 1)) [
  | inl none_yet ↦
      let zero_steps : attempt - 1 ≡ 0 = ground (arith, none_yet) in
      rw (none_yet, zero_steps) (omega (arith, b))
  | inr counted ↦ rw counted (doubled_lem max (attempt - 1) base b)
]

-- The delay never exceeds the maximum, and where the random factor keeps half of what it is given,
-- rounded down, twice the delay is at least the base less one nanosecond.
retry_delay-bounded :
    (scaled : ℕ → ℕ) (base max attempt : ℕ)
    → base ≤ max
    → ((delay : ℕ) → delay ≤ scaled delay * 2 + 1)
    → (retry_delay scaled base max attempt ≤ max)
      × (base ≤ retry_delay scaled base max attempt * 2 + 1)
unfolding retry_delay
retry_delay-bounded scaled base max attempt b half =
    let delay = base_delay base max attempt in
    let low : base ≤ delay =
      omega (arith, b, base_delay_lem base max attempt b, grows (attempt - 1) base) in
    let kept = half delay in
    elim (Bool-cases (ltb max (scaled delay))) [
      | inl cut ↦ rw cut (omega arith, omega (arith, b))
      | inr free ↦ rw free (ground (arith, free), omega (arith, low, kept))
    ]
