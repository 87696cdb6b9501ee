-- ===== src/RiscvCore/Extensions/Order.antt =====
-- The minima and maxima of the atomic operations of crates/riscv-core/src/extensions.rs, in the order of the
-- integers.
use vpod.Prelude.{ℕ, ◌+◌, ◌-◌, ◌^◌, ◌%◌, ◌<◌, ◌≤◌, ◌≡◌, ◌⊎◌, arith}
use vpod.RiscvCore.Extensions.{amomin_w, amomax_w, amomin_d, amomax_d}

-- The integer of `w` bits in two's complement, moved up by `2 ^ (w - 1)`.
abbrev pub offset : ℕ → ℕ → ℕ
offset w x = (x + 2 ^ (w - 1)) % 2 ^ w

-- What a minimum and a maximum of two words are: one of them each, ordered as integers are, and both
-- words between them.
abbrev pub AreExtremes : ℕ → ℕ → ℕ → ℕ → ℕ → Type 0
AreExtremes w a b lo hi =
    (((lo ≡ a) × (hi ≡ b)) ⊎ ((lo ≡ b) × (hi ≡ a))) × (offset w lo ≤ offset w hi)

-- On 32-bit and 64-bit operands, the signed minimum and maximum that the atomic operations store are
-- the two operands in the order of the integers that they stand for.
amo_extremes :
    (m s n t : ℕ)
    → m < 2 ^ 32
    → n < 2 ^ 64
    → t < 2 ^ 64
    → AreExtremes 32 m (s % 2 ^ 32) (amomin_w m s).1 (amomax_w m s).1
      × AreExtremes 64 n t (amomin_d n t).1 (amomax_d n t).1
unfolding amomin_w amomax_w amomin_d amomax_d
amo_extremes m s n t hm hn ht = ((ground arith, ground arith), (ground arith, ground arith))
