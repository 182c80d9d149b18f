-- ===== src/Selector/Capacity.antt =====
-- The size to which src/selector.c grows its table.
use tpe_socks.Prelude.{
  ℕ, zero, suc, ◌+◌, ◌*◌, ◌/◌, ◌%◌, ◌^◌, ◌≤◌, ◌<◌, ◌≡◌, refl, ap, ◌∙◌, false, ◌⊎◌, inl, inr, ◌==◌,
  arith,
}
use native.Mathlib.Numerals.{unary_clauses}
use tpe_socks.Selector.{bits, next_capacity, items_max_size}

half : (n : ℕ) → (2 * (n / 2) ≤ n) × (n ≤ 2 * (n / 2) + 1)
half n = (omega arith, omega arith)

double : (k : ℕ) → 2 ^ suc k ≡ 2 * 2 ^ k
double k = simp unary_clauses (omega arith)

bits_zero : (fuel : ℕ) → bits fuel 0 ≡ 0
unfolding bits
bits_zero zero = refl
bits_zero (suc fuel) = refl

zero_or : (n : ℕ) → (n ≡ 0) ⊎ ((0 < n) × ((n == 0) ≡ false))
zero_or zero = inl refl
zero_or (suc n) = inr (omega arith, ground arith)

-- `2 ^ bits` is the power of two that follows.
bits_lem : (fuel n : ℕ) → 0 < n → n ≤ fuel → (n < 2 ^ bits fuel n) × (2 ^ bits fuel n ≤ 2 * n)
unfolding bits
bits_lem zero n p h = absurd (omega arith)
bits_lem (suc fuel) n p h = elim (zero_or n) [
  | inl z ↦ absurd (omega arith)
  | inr (_, nz) ↦
      rw (nz, double (bits fuel (n / 2)))
        (elim (zero_or (n / 2)) [
          | inl one ↦
              let e : bits fuel (n / 2) ≡ 0 = ap (λ (m : ℕ). bits fuel m) one ∙ bits_zero fuel in
              rw e (omega (arith, half n, one), omega (arith, half n, one))
          | inr (more, _) ↦
              let r = bits_lem fuel (n / 2) more (omega (arith, half n)) in
              (omega (arith, half n, r.0), omega (arith, half n, r.1))
        ])
]

-- A table that has to hold descriptor `n`, at most 1024, grows to more than `n` items, so that the
-- assertion of `next_capacity` holds, and to at most 1025.
pub next_capacity_bounds :
    (n : ℕ) → n ≤ items_max_size → (n < next_capacity n) × (next_capacity n ≤ items_max_size + 1)
unfolding next_capacity
next_capacity_bounds n h = elim (zero_or n) [
  | inl z ↦ rw z (omega arith, omega arith)
  | inr (p, _) ↦
      let r = bits_lem n n p (omega arith) in
      let fits : 2 ^ bits n n < 2 ^ 64 = omega (arith, r.1) in
      let same : 2 ^ bits n n % 2 ^ 64 ≡ 2 ^ bits n n = omega arith in
      rw same (omega (arith, r.0), omega arith)
]
