-- ===== src/Bits/Step.antt =====
-- `&` and `|` at the lowest binary digit: the native operations stand for a recursion on digits
-- with fuel, and these equations need none.
use Prim.Native.Nat.{digits, bit_and-bitwise, bit_or-bitwise, bit_xor, bit_xor-bitwise, differ}
use vpod.Prelude.{
  ℕ, zero, suc, ◌+◌, ◌*◌, ◌/◌, ◌%◌, ◌≤◌, min, max, bit_and, bit_or, ◌≡◌, refl, arith,
}

-- Fuel beyond the first operand changes nothing.
module _ (rest : ℕ → ℕ) (op : ℕ → ℕ → ℕ) where
  spare_fuel : (m n a b : ℕ) → n ≤ m → a ≤ n → digits rest op m a b ≡ digits rest op n a b
  spare_fuel zero zero a b p h = refl
  spare_fuel zero (suc n) a b p h = absurd (omega arith)
  spare_fuel (suc m) zero zero b p h = refl
  spare_fuel (suc m) zero (suc a) b p h = absurd (omega arith)
  spare_fuel (suc m) (suc n) zero b p h = refl
  spare_fuel (suc m) (suc n) (suc a) b p h =
      rw (spare_fuel m n (suc a / 2) (b / 2) (omega arith) (omega arith))

  lowest_digit :
      (a b : ℕ)
      → digits rest op (suc a) (suc a) b
        ≡ digits rest op (suc a / 2) (suc a / 2) (b / 2) * 2 + op (suc a % 2) (b % 2)
  lowest_digit a b = rw (spare_fuel a (suc a / 2) (suc a / 2) (b / 2) (omega arith) (omega arith))

pub halve_and : (a b : ℕ) → bit_and a b ≡ bit_and (a / 2) (b / 2) * 2 + min (a % 2) (b % 2)
halve_and zero b = rw (bit_and-bitwise 0 b, bit_and-bitwise 0 (b / 2)) (omega arith)
halve_and (suc a) b =
    rw (bit_and-bitwise (suc a) b, bit_and-bitwise (suc a / 2) (b / 2))
      (lowest_digit (λ y. 0) min a b)

pub halve_or : (a b : ℕ) → bit_or a b ≡ bit_or (a / 2) (b / 2) * 2 + max (a % 2) (b % 2)
halve_or zero b = rw (bit_or-bitwise 0 b, bit_or-bitwise 0 (b / 2)) (omega arith)
halve_or (suc a) b =
    rw (bit_or-bitwise (suc a) b, bit_or-bitwise (suc a / 2) (b / 2))
      (lowest_digit (λ y. y) max a b)

pub halve_xor : (a b : ℕ) → bit_xor a b ≡ bit_xor (a / 2) (b / 2) * 2 + differ (a % 2) (b % 2)
halve_xor zero b = rw (bit_xor-bitwise 0 b, bit_xor-bitwise 0 (b / 2)) (omega arith)
halve_xor (suc a) b =
    rw (bit_xor-bitwise (suc a) b, bit_xor-bitwise (suc a / 2) (b / 2))
      (lowest_digit (λ y. y) differ a b)
