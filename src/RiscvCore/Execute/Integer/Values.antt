-- ===== src/RiscvCore/Execute/Integer/Values.antt =====
-- `exec_full` of crates/riscv-core/src/execute.rs: what an integer instruction computes from its fields and
-- operands. An arm that ends in `unreachable!()` gives `none` here, as one that is illegal.
use Prim.Native.Nat
use Prim.Native.Nat.{bit_xor}
use vpod.Prelude.{
  ℕ, ◌+◌, ◌-◌, ◌*◌, ◌/◌, ◌%◌, ◌^◌, bit_and, bit_or, bit_not, shl, Bool, not, ◌&&◌, ◌||◌, ◌==◌, ltb,
  if◌then◌else◌, Option, none, some, List, [], ◌∷◌, select₂,
}
use vpod.Bits.{trailing_zeros}
use vpod.RiscvCore.Alu.{
  leading_zeros, count_ones, rotate_left, rotate_right, swap_bytes, orc_bytes, byte_as_word,
  half_as_word, as_u32, as_word, wrapping_add, wrapping_sub,
}
use vpod.RiscvCore.Decode.{rs1, rs2, funct3, funct7, sar64, sar32}
use vpod.RiscvCore.Extensions
use vpod.RiscvCore.Extensions.{sign_extended, less_signed}

-- `OP_IMM`
unfoldable pub imm_value : ℕ → ℕ → ℕ → ℕ → Option ℕ
imm_value funct3 funct7 imm rs1 =
    let shamt = bit_and imm 0x3f in
    if funct3 == 0x0
    then some (wrapping_add rs1 imm)
    else if funct3 == 0x1
    then (if funct7 / 2 == 0x00
        then some (shl rs1 shamt)
        else if funct7 / 2 == 0x18
        then (if shamt == 0
            then some (leading_zeros 64 rs1)
            else if shamt == 1
            then some (trailing_zeros 64 rs1)
            else if shamt == 2
            then some (count_ones 64 rs1)
            else none)
        else if funct7 / 2 == 0x1a
        then (if shamt == 2
            then some (byte_as_word rs1)
            else if shamt == 4
            then some (half_as_word rs1)
            else none)
        else none)
    else if funct3 == 0x2
    then some (as_word (less_signed 64 rs1 imm))
    else if funct3 == 0x3
    then some (as_word (ltb rs1 imm))
    else if funct3 == 0x4
    then some (bit_xor rs1 imm)
    else if funct3 == 0x5
    then (if funct7 / 2 == 0x00
        then some (rs1 / 2 ^ shamt)
        else if funct7 / 2 == 0x10
        then some (sar64 rs1 shamt)
        else if funct7 / 2 == 0x14 && shamt == 7
        then some (orc_bytes 8 rs1)
        else if funct7 / 2 == 0x35 && shamt == 24
        then some (swap_bytes rs1)
        else if funct7 / 2 == 0x35 && shamt == 8
        then some (swap_bytes rs1)
        else if funct7 / 2 == 0x18
        then some (rotate_right 64 rs1 shamt)
        else none)
    else if funct3 == 0x6
    then some (bit_or rs1 imm)
    else if funct3 == 0x7
    then some (bit_and rs1 imm)
    else none

-- `OP_IMM32`: the word that is then extended.
unfoldable pub imm32_word : ℕ → ℕ → ℕ → ℕ → Option ℕ
imm32_word funct3 funct7 imm rs1 =
    let shamt = bit_and imm 0x1f in
    if funct3 == 0x0
    then some ((rs1 + as_u32 imm) % 2 ^ 32)
    else if funct3 == 0x1
    then (if funct7 == 0x00
        then some (rs1 * 2 ^ shamt % 2 ^ 32)
        else if funct7 == 0x30
        then (if shamt == 0
            then some (leading_zeros 32 rs1)
            else if shamt == 1
            then some (trailing_zeros 32 rs1)
            else if shamt == 2
            then some (count_ones 32 rs1)
            else none)
        else none)
    else if funct3 == 0x5
    then (if funct7 == 0x00
        then some (rs1 / 2 ^ shamt)
        else if funct7 == 0x20
        then some (sar32 rs1 shamt)
        else if funct7 == 0x30
        then some (rotate_right 32 rs1 shamt)
        else none)
    else none

abbrev pub map_word : (ℕ → ℕ) → Option ℕ → Option ℕ
map_word f none = none
map_word f (some word) = some (f word)

unfoldable pub imm32_value : ℕ → ℕ → ℕ → ℕ → Option ℕ
unfolding imm32_word
imm32_value funct3 funct7 imm rs1_value =
    let rs1 = as_u32 rs1_value in
    if funct3 == 0x1 && (funct7 == 0x04 || funct7 == 0x05)
    then some (shl rs1 (bit_and imm 0x3f))
    else map_word sign_extended (imm32_word funct3 funct7 imm rs1)

-- `OP_REG`: the arms of the `match` on `funct3` and `funct7`.
abbrev pub reg_values : ℕ → ℕ → List (ℕ × ℕ × ℕ)
reg_values rs1 rs2 =
    let shamt = bit_and rs2 0x3f in
    (0x0, 0x00, wrapping_add rs1 rs2)
    ∷ (0x0, 0x20, wrapping_sub rs1 rs2)
    ∷ (0x1, 0x00, shl rs1 shamt)
    ∷ (0x2, 0x00, as_word (less_signed 64 rs1 rs2))
    ∷ (0x3, 0x00, as_word (ltb rs1 rs2))
    ∷ (0x4, 0x00, bit_xor rs1 rs2)
    ∷ (0x5, 0x00, rs1 / 2 ^ shamt)
    ∷ (0x5, 0x20, sar64 rs1 shamt)
    ∷ (0x6, 0x00, bit_or rs1 rs2)
    ∷ (0x7, 0x00, bit_and rs1 rs2)
    ∷ (0x0, 0x01, Extensions.mul rs1 rs2)
    ∷ (0x1, 0x01, Extensions.mulh rs1 rs2)
    ∷ (0x2, 0x01, Extensions.mulhsu rs1 rs2)
    ∷ (0x3, 0x01, Extensions.mulhu rs1 rs2)
    ∷ (0x4, 0x01, Extensions.div rs1 rs2)
    ∷ (0x5, 0x01, Extensions.divu rs1 rs2)
    ∷ (0x6, 0x01, Extensions.rem rs1 rs2)
    ∷ (0x7, 0x01, Extensions.remu rs1 rs2)
    ∷ (0x4, 0x20, bit_xor rs1 (bit_not 64 rs2))
    ∷ (0x6, 0x20, bit_or rs1 (bit_not 64 rs2))
    ∷ (0x7, 0x20, bit_and rs1 (bit_not 64 rs2))
    ∷ (0x1, 0x30, rotate_left 64 rs1 shamt)
    ∷ (0x5, 0x30, rotate_right 64 rs1 shamt)
    ∷ (0x4, 0x05, (if less_signed 64 rs1 rs2 then rs1 else rs2))
    ∷ (0x5, 0x05, (if less_signed 64 rs2 rs1 then rs1 else rs2))
    ∷ (0x6, 0x05, Nat.min rs1 rs2)
    ∷ (0x7, 0x05, Nat.max rs1 rs2)
    ∷ (0x2, 0x10, wrapping_add (shl rs1 1) rs2)
    ∷ (0x4, 0x10, wrapping_add (shl rs1 2) rs2)
    ∷ (0x6, 0x10, wrapping_add (shl rs1 3) rs2)
    ∷ []

-- `OP_REG32`, without the arm that has a guard.
abbrev pub reg32_values : ℕ → ℕ → List (ℕ × ℕ × ℕ)
reg32_values rs1 rs2 =
    let shamt = bit_and rs2 0x1f in
    (0x0, 0x00, sign_extended ((as_u32 rs1 + as_u32 rs2) % 2 ^ 32))
    ∷ (0x0, 0x20, sign_extended ((as_u32 rs1 + 2 ^ 32 - as_u32 rs2) % 2 ^ 32))
    ∷ (0x1, 0x00, sign_extended (as_u32 rs1 * 2 ^ shamt % 2 ^ 32))
    ∷ (0x5, 0x00, sign_extended (as_u32 rs1 / 2 ^ shamt))
    ∷ (0x5, 0x20, sign_extended (sar32 (as_u32 rs1) shamt))
    ∷ (0x0, 0x01, Extensions.mulw rs1 rs2)
    ∷ (0x4, 0x01, Extensions.divw rs1 rs2)
    ∷ (0x5, 0x01, Extensions.divuw rs1 rs2)
    ∷ (0x6, 0x01, Extensions.remw rs1 rs2)
    ∷ (0x7, 0x01, Extensions.remuw rs1 rs2)
    ∷ (0x1, 0x30, sign_extended (rotate_left 32 (as_u32 rs1) shamt))
    ∷ (0x5, 0x30, sign_extended (rotate_right 32 (as_u32 rs1) shamt))
    ∷ (0x0, 0x04, wrapping_add (as_u32 rs1) rs2)
    ∷ (0x2, 0x10, wrapping_add (shl (as_u32 rs1) 1) rs2)
    ∷ (0x4, 0x10, wrapping_add (shl (as_u32 rs1) 2) rs2)
    ∷ (0x6, 0x10, wrapping_add (shl (as_u32 rs1) 3) rs2)
    ∷ []

unfoldable pub reg32_value : ℕ → ℕ → ℕ → ℕ → ℕ → Option ℕ
reg32_value funct3 funct7 rs2 a c =
    if funct3 == 0x4 && funct7 == 0x04 && rs2 == 0
    then some (a % 2 ^ 16)
    else select₂ (reg32_values a c) funct3 funct7

-- `OP_BRANCH`: is the branch taken.
abbrev pub branch_tests : ℕ → ℕ → List (ℕ × Bool)
branch_tests a c =
    (0x0, a == c)
    ∷ (0x1, not (a == c))
    ∷ (0x4, less_signed 64 a c)
    ∷ (0x5, not (less_signed 64 a c))
    ∷ (0x6, ltb a c)
    ∷ (0x7, not (ltb a c))
    ∷ []

-- `OP_LOAD` and `OP_STORE`: the bytes of an access, and what is written to the register.
abbrev pub access_sizes : List (ℕ × ℕ)
access_sizes = (0x0, 1) ∷ (0x4, 1) ∷ (0x1, 2) ∷ (0x5, 2) ∷ (0x2, 4) ∷ (0x6, 4) ∷ (0x3, 8) ∷ []

abbrev pub store_sizes : List (ℕ × ℕ)
store_sizes = (0x0, 1) ∷ (0x1, 2) ∷ (0x2, 4) ∷ (0x3, 8) ∷ []

abbrev pub loaded_value : ℕ → ℕ → ℕ
loaded_value funct3 value =
    if funct3 == 0x0
    then byte_as_word value
    else if funct3 == 0x1
    then half_as_word value
    else if funct3 == 0x2
    then sign_extended value
    else value
