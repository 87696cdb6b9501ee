-- ===== src/Bits/Halves.antt =====
-- A word of 64 bits whose halves are written one at a time.
use vpod.Prelude.{ℕ, ◌+◌, ◌*◌, ◌/◌, ◌%◌, ◌^◌, ◌<◌, bit_and, bit_or, ◌≡◌, ap, ap₂, ◌∙◌, arith}
use vpod.Bits.Masks.{or_comm, or_fields, and_high, and-mask}

-- `(x & !0xffff_ffff) | val`
pub low_half :
    (x val : ℕ)
    → x < 2 ^ 64
    → val < 2 ^ 32
    → bit_or (bit_and x 0xffffffff00000000) val ≡ x / 2 ^ 32 * 2 ^ 32 + val
low_half x val v h =
    ap (λ (t : ℕ). bit_or t val) kept
    ∙ or_fields 64 32 (bit_and (x / 2 ^ 32) 0xffffffff) val (omega (arith, high)) h
    ∙ omega (arith, high)
  where
    high : bit_and (x / 2 ^ 32) 0xffffffff ≡ x / 2 ^ 32
    high = and-mask 64 32 (x / 2 ^ 32) (omega arith) ∙ omega arith

    kept : bit_and x 0xffffffff00000000 ≡ bit_and (x / 2 ^ 32) 0xffffffff * 2 ^ 32
    kept =
        ap (λ (t : ℕ). bit_and t 0xffffffff00000000) (omega arith)
        ∙ and_high 64 32 (x / 2 ^ 32) (x % 2 ^ 32) 0xffffffff (omega arith) (omega arith)

-- `(x & 0xffff_ffff) | val << 32`
pub high_half :
    (x val : ℕ)
    → x < 2 ^ 64
    → val < 2 ^ 32
    → bit_or (bit_and x 0xffffffff) (val * 2 ^ 32 % 2 ^ 64) ≡ val * 2 ^ 32 + x % 2 ^ 32
high_half x val v h =
    ap₂ bit_or (and-mask 64 32 x (omega arith)) (omega arith)
    ∙ or_comm 64 (x % 2 ^ 32) (val * 2 ^ 32) (omega arith) (omega arith)
    ∙ or_fields 64 32 val (x % 2 ^ 32) (omega arith) (omega arith)
