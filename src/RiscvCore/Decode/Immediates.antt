-- ===== src/RiscvCore/Decode/Immediates.antt =====
-- The immediates of crates/riscv-core/src/decode.rs are those of the instruction formats.
use vpod.Prelude.{
  ℕ, ◌+◌, ◌-◌, ◌*◌, ◌/◌, ◌%◌, ◌^◌, ◌<◌, bit_and, bit_or, ◌≡◌, ◌∙◌, refl, ltb, if◌then◌else◌, arith,
}
use vpod.Bits.Masks.{and-mask, or_fields}
use vpod.RiscvCore.Decode.{sar32, sign_extend, imm_i, imm_s, imm_b, imm_j}

-- The two's complement number of `k` bits `x`, on 64 bits.
abbrev pub extended : ℕ → ℕ → ℕ
extended k x = if ltb x (2 ^ (k - 1)) then x else x + 2 ^ 64 - 2 ^ k

sign_extend-13 : (x : ℕ) → x < 2 ^ 13 → sign_extend x 13 ≡ extended 13 x
unfolding sign_extend
sign_extend-13 x h = ground arith

sign_extend-21 : (x : ℕ) → x < 2 ^ 21 → sign_extend x 21 ≡ extended 21 x
unfolding sign_extend
sign_extend-21 x h = ground arith

-- Type I: bits 31 to 20.
pub imm_i_lem : (inst : ℕ) → inst < 2 ^ 32 → imm_i inst ≡ extended 12 (inst / 2 ^ 20)
unfolding imm_i
imm_i_lem inst h = ground arith

-- `(hi << 5) | lo` of type S, with the low five bits of `inst >> 7`.
s_fields :
    (hi x : ℕ)
    → hi < 2 ^ 32
    → x < 2 ^ 32
    → bit_or (hi * 2 ^ 5 % 2 ^ 32) (bit_and x 0x1f) ≡ hi * 2 ^ 5 % 2 ^ 32 + x % 2 ^ 5
s_fields hi x h k =
    let e : hi * 2 ^ 5 % 2 ^ 32 ≡ hi % 2 ^ 27 * 2 ^ 5 = omega arith in
    rw (and-mask 32 5 x k, e) (or_fields 32 5 (hi % 2 ^ 27) (x % 2 ^ 5) (omega arith) (omega arith))

-- The immediate of type S of a 32-bit word: bits 31 to 25, then bits 11 to 7, with the sign of bit 31.
pub imm_s_lem :
    (inst : ℕ)
    → inst < 2 ^ 32
    → imm_s inst ≡ extended 12 (inst / 2 ^ 25 * 2 ^ 5 + inst / 2 ^ 7 % 2 ^ 5)
unfolding imm_s
imm_s_lem inst h =
    ground (arith, s_fields (sar32 inst 25) (inst / 2 ^ 7) (ground arith) (omega arith))

-- `x | y` where `x` is a multiple of `2 ^ k` and `y` fits `k` bits.
or_sum : (k q x y : ℕ) → x ≡ q * 2 ^ k → q < 2 ^ 64 → y < 2 ^ k → bit_or x y ≡ x + y
or_sum k q x y e h l = rw e (or_fields 64 k q y h l)

b_fields :
    (a b c d : ℕ)
    → a < 2
    → b < 2
    → c < 2 ^ 6
    → d < 2 ^ 4
    → bit_or (bit_or (bit_or (a * 2 ^ 12) (b * 2 ^ 11)) (c * 2 ^ 5)) (d * 2 ^ 1)
      ≡ a * 2 ^ 12 + b * 2 ^ 11 + c * 2 ^ 5 + d * 2
b_fields a b c d ha hb hc hd =
    rw
      (
        or_sum 12 a (a * 2 ^ 12) (b * 2 ^ 11) refl (omega arith) (omega arith),
        or_sum 11 (a * 2 + b) (a * 2 ^ 12 + b * 2 ^ 11) (c * 2 ^ 5) (omega arith) (omega arith)
            (omega arith),
      )
      (or_sum 5 (a * 2 ^ 7 + b * 2 ^ 6 + c) (a * 2 ^ 12 + b * 2 ^ 11 + c * 2 ^ 5) (d * 2 ^ 1)
          (omega arith) (omega arith) (omega arith)
        ∙ omega arith)

j_fields :
    (a b c d : ℕ)
    → a < 2
    → b < 2 ^ 8
    → c < 2
    → d < 2 ^ 10
    → bit_or (bit_or (bit_or (a * 2 ^ 20) (b * 2 ^ 12)) (c * 2 ^ 11)) (d * 2 ^ 1)
      ≡ a * 2 ^ 20 + b * 2 ^ 12 + c * 2 ^ 11 + d * 2
j_fields a b c d ha hb hc hd =
    rw
      (
        or_sum 20 a (a * 2 ^ 20) (b * 2 ^ 12) refl (omega arith) (omega arith),
        or_sum 12 (a * 2 ^ 8 + b) (a * 2 ^ 20 + b * 2 ^ 12) (c * 2 ^ 11) (omega arith) (omega arith)
            (omega arith),
      )
      (or_sum 11 (a * 2 ^ 9 + b * 2 + c) (a * 2 ^ 20 + b * 2 ^ 12 + c * 2 ^ 11) (d * 2 ^ 1)
          (omega arith) (omega arith) (omega arith)
        ∙ omega arith)

-- The immediate of type B of a 32-bit word: bits 31, 7, 30 to 25 and 11 to 8 in this order, doubled,
-- with the sign of bit 31.
pub imm_b_lem :
    (raw : ℕ)
    → raw < 2 ^ 32
    → imm_b raw
      ≡ extended 13 (
          raw / 2 ^ 31 * 2 ^ 12
          + raw / 2 ^ 7 % 2 * 2 ^ 11
          + raw / 2 ^ 25 % 2 ^ 6 * 2 ^ 5
          + raw / 2 ^ 8 % 2 ^ 4 * 2)
unfolding imm_b
imm_b_lem raw h =
    let high : raw / 2 ^ 31 % 2 ^ 1 ≡ raw / 2 ^ 31 = omega arith in
    rw
      (
        and-mask 32 1 (raw / 2 ^ 31) (omega arith),
        and-mask 32 1 (raw / 2 ^ 7) (omega arith),
        and-mask 32 6 (raw / 2 ^ 25) (omega arith),
        and-mask 32 4 (raw / 2 ^ 8) (omega arith),
        high,
        b_fields (raw / 2 ^ 31) (raw / 2 ^ 7 % 2 ^ 1) (raw / 2 ^ 25 % 2 ^ 6) (raw / 2 ^ 8 % 2 ^ 4)
            (omega arith) (omega arith) (omega arith) (omega arith),
      )
      (sign_extend-13 _ (omega arith))

-- The immediate of type J of a 32-bit word: bits 31, 19 to 12, 20 and 30 to 21 in this order,
-- doubled, with the sign of bit 31.
pub imm_j_lem :
    (raw : ℕ)
    → raw < 2 ^ 32
    → imm_j raw
      ≡ extended 21 (
          raw / 2 ^ 31 * 2 ^ 20
          + raw / 2 ^ 12 % 2 ^ 8 * 2 ^ 12
          + raw / 2 ^ 20 % 2 * 2 ^ 11
          + raw / 2 ^ 21 % 2 ^ 10 * 2)
unfolding imm_j
imm_j_lem raw h =
    let high : raw / 2 ^ 31 % 2 ^ 1 ≡ raw / 2 ^ 31 = omega arith in
    rw
      (
        and-mask 32 1 (raw / 2 ^ 31) (omega arith),
        and-mask 32 10 (raw / 2 ^ 21) (omega arith),
        and-mask 32 1 (raw / 2 ^ 20) (omega arith),
        and-mask 32 8 (raw / 2 ^ 12) (omega arith),
        high,
        j_fields (raw / 2 ^ 31) (raw / 2 ^ 12 % 2 ^ 8) (raw / 2 ^ 20 % 2 ^ 1)
            (raw / 2 ^ 21 % 2 ^ 10) (omega arith) (omega arith) (omega arith) (omega arith),
      )
      (sign_extend-21 _ (omega arith))
