-- ===== src/RiscvCore/Decode.antt =====
-- crates/riscv-core/src/decode.rs: the fields of an instruction word. `Instruction` is its number below
-- 2 ^ 32, `CompressedInstruction` its number below 2 ^ 16; an `i32` or an `i64` is the number below
-- 2 ^ 32 or 2 ^ 64 of the same bits.
pub mod Immediates
mod Examples
use vpod.Prelude.{
  ℕ, ◌+◌, ◌-◌, ◌*◌, ◌/◌, ◌%◌, ◌^◌, bit_and, bit_or, Bool, not, ◌==◌, ltb, if◌then◌else◌, shl,
}

-- `x >> k` on an `i64` and on an `i32`: the sign moves in.
abbrev pub sar64 : ℕ → ℕ → ℕ
sar64 x k = if ltb x (2 ^ 63) then x / 2 ^ k else 2 ^ 64 - 1 - (2 ^ 64 - 1 - x) / 2 ^ k

abbrev pub sar32 : ℕ → ℕ → ℕ
sar32 x k = if ltb x (2 ^ 31) then x / 2 ^ k else 2 ^ 32 - 1 - (2 ^ 32 - 1 - x) / 2 ^ k

-- `x as i64` of an `i32`.
abbrev pub i32_as_i64 : ℕ → ℕ
i32_as_i64 x = if ltb x (2 ^ 31) then x else x + 2 ^ 64 - 2 ^ 32

unfoldable pub sign_extend : ℕ → ℕ → ℕ
sign_extend val bits = let shift = 64 - bits in sar64 (shl val shift) shift

unfoldable pub opcode : ℕ → ℕ
opcode inst = bit_and inst 0x7f

unfoldable pub rd : ℕ → ℕ
rd inst = bit_and (inst / 2 ^ 7) 0x1f

unfoldable pub rs1 : ℕ → ℕ
rs1 inst = bit_and (inst / 2 ^ 15) 0x1f

unfoldable pub rs2 : ℕ → ℕ
rs2 inst = bit_and (inst / 2 ^ 20) 0x1f

unfoldable pub funct3 : ℕ → ℕ
funct3 inst = bit_and (inst / 2 ^ 12) 0x7

unfoldable pub funct7 : ℕ → ℕ
funct7 inst = inst / 2 ^ 25

unfoldable pub imm_i : ℕ → ℕ
imm_i inst = i32_as_i64 (sar32 inst 20)

unfoldable pub imm_s : ℕ → ℕ
imm_s inst =
    let hi = sar32 inst 25 in
    let lo = bit_and (inst / 2 ^ 7) 0x1f in i32_as_i64 (bit_or (hi * 2 ^ 5 % 2 ^ 32) lo)

unfoldable pub imm_b : ℕ → ℕ
imm_b raw =
    let bit12 = bit_and (raw / 2 ^ 31) 1 in
    let bit11 = bit_and (raw / 2 ^ 7) 1 in
    let bits10_5 = bit_and (raw / 2 ^ 25) 0x3f in
    let bits4_1 = bit_and (raw / 2 ^ 8) 0xf in
    let val =
      bit_or (bit_or (bit_or (bit12 * 2 ^ 12) (bit11 * 2 ^ 11)) (bits10_5 * 2 ^ 5))
        (bits4_1 * 2 ^ 1) in
    sign_extend val 13

unfoldable pub imm_u : ℕ → ℕ
imm_u inst = i32_as_i64 (bit_and inst 0xfffff000)

unfoldable pub imm_j : ℕ → ℕ
imm_j raw =
    let bit20 = bit_and (raw / 2 ^ 31) 1 in
    let bits10_1 = bit_and (raw / 2 ^ 21) 0x3ff in
    let bit11 = bit_and (raw / 2 ^ 20) 1 in
    let bits19_12 = bit_and (raw / 2 ^ 12) 0xff in
    let val =
      bit_or (bit_or (bit_or (bit20 * 2 ^ 20) (bits19_12 * 2 ^ 12)) (bit11 * 2 ^ 11))
        (bits10_1 * 2 ^ 1) in
    sign_extend val 21

unfoldable pub csr_addr : ℕ → ℕ
csr_addr inst = inst / 2 ^ 20

unfoldable pub funct5 : ℕ → ℕ
funct5 inst = inst / 2 ^ 27

unfoldable pub aq : ℕ → Bool
aq inst = not (bit_and (inst / 2 ^ 26) 1 == 0)

unfoldable pub rl : ℕ → Bool
rl inst = not (bit_and (inst / 2 ^ 25) 1 == 0)

-- `CompressedInstruction`
unfoldable pub quadrant : ℕ → ℕ
quadrant inst = bit_and inst 0x3

unfoldable pub compressed_funct3 : ℕ → ℕ
compressed_funct3 inst = bit_and (inst / 2 ^ 13) 0x7

unfoldable pub rs2_prime : ℕ → ℕ
rs2_prime inst = bit_and (inst / 2 ^ 2) 0x7 + 8

unfoldable pub rs1_prime : ℕ → ℕ
rs1_prime inst = bit_and (inst / 2 ^ 7) 0x7 + 8

unfoldable pub compressed_rd : ℕ → ℕ
compressed_rd inst = bit_and (inst / 2 ^ 7) 0x1f

unfoldable pub compressed_rs2 : ℕ → ℕ
compressed_rs2 inst = bit_and (inst / 2 ^ 2) 0x1f
