-- ===== src/RiscvCore/Extensions/Division.antt =====
-- The divisions of crates/riscv-core/src/extensions.rs.
use native.Mathlib.Nat.{div-le_self, add-mul, mul-add, div-add-mod', mod-lt}
use vpod.Prelude.{
  ℕ, zero, suc, ◌+◌, ◌%◌, ◌^◌, ◌<◌, ◌*◌, ◌-◌, ◌/◌, ap, sym, ◌∙◌, ◌≢◌, ◌&&◌, ltb, ◌≡◌, refl, ◌⊎◌,
  inl, inr, ◌==◌, Bool-cases, arith,
}
use vpod.RiscvCore.Extensions.{divu, remu, mul, div, rem, wrapping_div, wrapping_rem}

unsigned_division :
    (lhs rhs : ℕ)
    → lhs < 2 ^ 64
    → ((mul (divu lhs rhs) rhs + remu lhs rhs) % 2 ^ 64 ≡ lhs) × ((rhs ≡ 0) ⊎ (remu lhs rhs < rhs))
unfolding divu remu mul
unsigned_division lhs rhs h = elim (Bool-cases (rhs == 0)) [
  | inl e ↦ let z : rhs ≡ 0 = ground arith in rw z (omega arith, inl refl)
  | inr e ↦ rw e (omega (arith, div-add-mod' lhs rhs), inr (mod-lt lhs (ground arith)))
]

-- `a * b` and `q * b` add up to `n * b` where `a` and `q` add up to `n`.
complement_left : (a q b n : ℕ) → a + q ≡ n → a * b + q * b ≡ n * b
complement_left a q b n e = sym (add-mul a q b) ∙ ap (λ (t : ℕ). t * b) e

complement_right : (a b c n : ℕ) → b + c ≡ n → a * b + a * c ≡ a * n
complement_right a b c n e = sym (mul-add a b c) ∙ ap (λ (t : ℕ). a * t) e

-- The negation of `q` on 64 bits, times `d`.
negated_mul : (q d : ℕ) → q < 2 ^ 64 → ((2 ^ 64 - q) % 2 ^ 64 * d + q * d ≡ 2 ^ 64 * d) ⊎ (q ≡ 0)
negated_mul q d h = elim (Bool-cases (q == 0)) [
  | inl e ↦ inr (ground arith)
  | inr e ↦ inl (complement_left ((2 ^ 64 - q) % 2 ^ 64) q d (2 ^ 64) (ground arith))
]

-- A dividend below 0 and a divisor above: `l` is `2 ^ 64 - a`.
negative_dividend :
    (q d m a : ℕ)
    → q * d + m ≡ a
    → 0 < a
    → a < 2 ^ 64
    → q < 2 ^ 64
    → ((2 ^ 64 - q) % 2 ^ 64 * d + (2 ^ 64 - m) % 2 ^ 64) % 2 ^ 64 ≡ 2 ^ 64 - a
negative_dividend q d m a split pos ha hq = elim (negated_mul q d hq) [
  | inl sum ↦ omega (arith, sum, split)
  | inr none_ ↦ rw none_ (omega (arith, rw none_ at split))
]

-- A dividend above 0 and a divisor below: `r` is `2 ^ 64 - d`.
negative_divisor :
    (q d m a : ℕ)
    → q * d + m ≡ a
    → a < 2 ^ 64
    → d < 2 ^ 64
    → q < 2 ^ 64
    → ((2 ^ 64 - q) % 2 ^ 64 * (2 ^ 64 - d) + m) % 2 ^ 64 ≡ a
negative_divisor q d m a split ha hd hq = elim (negated_mul q d hq) [
  | inl sum ↦ omega (
    arith,
    sum,
    split,
    complement_right ((2 ^ 64 - q) % 2 ^ 64) (2 ^ 64 - d) d (2 ^ 64) (omega arith),
  )
  | inr none_ ↦ rw none_ (omega (arith, rw none_ at split))
]

-- Both below 0.
negative_both :
    (q d m a : ℕ)
    → q * d + m ≡ a
    → 0 < a
    → a < 2 ^ 64
    → d < 2 ^ 64
    → (q * (2 ^ 64 - d) + (2 ^ 64 - m) % 2 ^ 64) % 2 ^ 64 ≡ 2 ^ 64 - a
negative_both q d m a split pos ha hd =
    omega (arith, split, complement_right q (2 ^ 64 - d) d (2 ^ 64) (omega arith))

wrapping_sum :
    (l r : ℕ)
    → l < 2 ^ 64
    → r < 2 ^ 64
    → r ≢ 0
    → (wrapping_div 64 l r * r + wrapping_rem 64 l r) % 2 ^ 64 ≡ l
wrapping_sum l r hl hr nz = elim (Bool-cases (ltb l (2 ^ 63))) [
  | inl lp ↦ elim (Bool-cases (ltb r (2 ^ 63))) [
    | inl rp ↦ rw (lp, rp) (omega (arith, div-add-mod' l r))
    | inr rn ↦
        let d = 2 ^ 64 - r in
        rw (lp, rn)
          (ap (λ (t : ℕ). ((2 ^ 64 - l / d) % 2 ^ 64 * t + l % d) % 2 ^ 64) (omega arith)
            ∙ negative_divisor (l / d) d (l % d) l (div-add-mod' l d) hl (ground arith)
                (omega (arith, div-le_self l d)))
  ]
  | inr ln ↦ elim (Bool-cases (ltb r (2 ^ 63))) [
    | inl rp ↦
        let a = 2 ^ 64 - l in
        rw (ln, rp)
          (negative_dividend (a / r) r (a % r) a (div-add-mod' a r) (omega arith) (ground arith)
              (ground (arith, div-le_self a r))
            ∙ omega arith)
    | inr rn ↦
        let a = 2 ^ 64 - l in
        let d = 2 ^ 64 - r in
        rw (ln, rn)
          (ap (λ (t : ℕ). (a / d * t + (2 ^ 64 - a % d) % 2 ^ 64) % 2 ^ 64) (omega arith)
            ∙ negative_both (a / d) d (a % d) a (div-add-mod' a d) (omega arith) (ground arith)
                (ground arith)
            ∙ omega arith)
  ]
]

signed_division :
    (lhs rhs : ℕ)
    → lhs < 2 ^ 64
    → rhs < 2 ^ 64
    → (mul (div lhs rhs) rhs + rem lhs rhs) % 2 ^ 64 ≡ lhs
unfolding div rem mul
signed_division lhs rhs hl hr = elim (Bool-cases (rhs == 0)) [
  | inl e ↦ let z : rhs ≡ 0 = ground arith in rw z (omega arith)
  | inr e ↦ elim (Bool-cases (lhs == 2 ^ 63 && rhs == 2 ^ 64 - 1)) [
    | inl edge ↦
        let l : lhs ≡ 2 ^ 63 = ground arith in
        let r : rhs ≡ 2 ^ 64 - 1 = ground arith in rw (l, r) refl
    | inr other ↦
        rw (e, other)
          (mod_sum (wrapping_div 64 lhs rhs * rhs) (wrapping_rem 64 lhs rhs)
            ∙ wrapping_sum lhs rhs hl hr (ground arith))
  ]
]
  where
    mod_sum : (x y : ℕ) → (x % 2 ^ 64 + y) % 2 ^ 64 ≡ (x + y) % 2 ^ 64
    mod_sum x y = omega arith

by_zero : (lhs rhs : ℕ) → (rhs ≢ 0) ⊎ ((div lhs rhs ≡ 2 ^ 64 - 1) × (divu lhs rhs ≡ 2 ^ 64 - 1))
unfolding div divu
by_zero lhs zero = inr (refl, refl)
by_zero lhs (suc rhs) = inl (λ e. absurd (omega arith))

-- For 64-bit operands, the quotient and the remainder of the signed and of the unsigned division give
-- the dividend back on 64 bits, for every divisor, 0 included, and -1 under the least dividend; the
-- unsigned remainder is below a divisor that is not 0, and both quotients by 0 are 2 ^ 64 - 1.
pub div-rem :
    (lhs rhs : ℕ)
    → lhs < 2 ^ 64
    → rhs < 2 ^ 64
    → ((mul (div lhs rhs) rhs + rem lhs rhs) % 2 ^ 64 ≡ lhs)
      × ((mul (divu lhs rhs) rhs + remu lhs rhs) % 2 ^ 64 ≡ lhs)
      × ((rhs ≡ 0) ⊎ (remu lhs rhs < rhs))
      × ((rhs ≢ 0) ⊎ ((div lhs rhs ≡ 2 ^ 64 - 1) × (divu lhs rhs ≡ 2 ^ 64 - 1)))
div-rem lhs rhs hl hr =
    let unsigned = unsigned_division lhs rhs hl in
    (signed_division lhs rhs hl hr, unsigned.0, unsigned.1, by_zero lhs rhs)
