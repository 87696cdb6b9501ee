-- ===== src/RiscvCore/Block/Compressed.antt =====
-- `decode_compressed` of crates/riscv-core/src/block.rs: the 16-bit instructions, by their quadrant.
use vpod.Prelude.{ℕ, ◌*◌, ◌/◌, ◌^◌, bit_and, bit_or, ◌&&◌, ◌==◌, if◌then◌else◌, Option, none, some}
use vpod.RiscvCore.Alu.{AluKind}
use vpod.RiscvCore.Block.{
  Op, lui, alu_imm, alu_reg, load, store, branch, jal, jalr, LoadKind, StoreKind, BranchKind,
}
use vpod.RiscvCore.Decode.{
  sign_extend, quadrant, compressed_funct3, rs1_prime, rs2_prime, compressed_rd, compressed_rs2,
}

-- `((raw >> from) & mask) << to`
abbrev pub field : ℕ → ℕ → ℕ → ℕ → ℕ
field raw from mask to = bit_and (raw / 2 ^ from) mask * 2 ^ to

-- `(((raw >> 12) & 1) << 5) | ((raw >> 2) & 0x1f)`, which the source writes out each time.
abbrev pub six_bits : ℕ → ℕ
six_bits raw = bit_or (field raw 12 1 5) (field raw 2 0x1f 0)

unfoldable pub decode_quadrant_0 : ℕ → ℕ → Option Op
decode_quadrant_0 raw funct =
    let words = bit_or (bit_or (field raw 6 1 2) (field raw 10 0x7 3)) (field raw 5 1 6) in
    let doublewords = bit_or (field raw 10 0x7 3) (field raw 5 0x3 6) in
    let nzuimm =
      bit_or (bit_or (bit_or (field raw 6 1 2) (field raw 5 1 3)) (field raw 11 0x3 4))
        (field raw 7 0xf 6) in
    if funct == 0x0
    then (if nzuimm == 0 then none else some (alu_imm AluKind.add (rs2_prime raw) 2 nzuimm))
    else if funct == 0x2
    then some (load LoadKind.lw (rs2_prime raw) (rs1_prime raw) words)
    else if funct == 0x3
    then some (load LoadKind.ld (rs2_prime raw) (rs1_prime raw) doublewords)
    else if funct == 0x6
    then some (store StoreKind.sw (rs1_prime raw) (rs2_prime raw) words)
    else if funct == 0x7
    then some (store StoreKind.sd (rs1_prime raw) (rs2_prime raw) doublewords)
    else none

-- The arm (1, 0x4): operations on `rd'`.
unfoldable pub decode_arithmetic : ℕ → Option Op
decode_arithmetic raw =
    let rd = rs1_prime raw in
    let registers = λ (kind : AluKind). some (alu_reg kind rd rd (rs2_prime raw)) in
    let high = bit_and (raw / 2 ^ 12) 1 in
    let low = bit_and (raw / 2 ^ 5) 0x3 in
    if bit_and (raw / 2 ^ 10) 0x3 == 0x0
    then some (alu_imm AluKind.srl rd rd (six_bits raw))
    else if bit_and (raw / 2 ^ 10) 0x3 == 0x1
    then some (alu_imm AluKind.sra rd rd (six_bits raw))
    else if bit_and (raw / 2 ^ 10) 0x3 == 0x2
    then some (alu_imm AluKind.and rd rd (sign_extend (six_bits raw) 6))
    else if high == 0 && low == 0x0
    then registers AluKind.sub
    else if high == 0 && low == 0x1
    then registers AluKind.xor
    else if high == 0 && low == 0x2
    then registers AluKind.or
    else if high == 0 && low == 0x3
    then registers AluKind.and
    else if high == 1 && low == 0x0
    then registers AluKind.subw
    else if high == 1 && low == 0x1
    then registers AluKind.addw
    else none

unfoldable pub decode_quadrant_1 : ℕ → ℕ → Option Op
unfolding decode_arithmetic
decode_quadrant_1 raw funct =
    let rd = compressed_rd raw in
    let imm = sign_extend (six_bits raw) 6 in
    let stack_imm =
      bit_or
        (bit_or (bit_or (bit_or (field raw 12 1 9) (field raw 6 1 4)) (field raw 5 1 6))
          (field raw 3 3 7))
        (field raw 2 1 5) in
    let upper_imm = bit_or (field raw 12 1 17) (field raw 2 0x1f 12) in
    let jump_imm =
      bit_or
        (bit_or
          (bit_or
            (bit_or
              (bit_or (bit_or (bit_or (field raw 12 1 11) (field raw 11 1 4)) (field raw 9 3 8))
                (field raw 8 1 10))
              (field raw 7 1 6))
            (field raw 6 1 7))
          (field raw 3 7 1))
        (field raw 2 1 5) in
    let branch_imm =
      bit_or
        (bit_or (bit_or (bit_or (field raw 12 1 8) (field raw 10 3 3)) (field raw 5 3 6))
          (field raw 3 3 1))
        (field raw 2 1 5) in
    if funct == 0x0
    then some (alu_imm AluKind.add rd rd imm)
    else if funct == 0x1
    then some (alu_imm AluKind.addw rd rd imm)
    else if funct == 0x2
    then some (alu_imm AluKind.add rd 0 imm)
    else if funct == 0x3
    then (if rd == 2
        then some (alu_imm AluKind.add 2 2 (sign_extend stack_imm 10))
        else some (lui rd (sign_extend upper_imm 18)))
    else if funct == 0x4
    then decode_arithmetic raw
    else if funct == 0x5
    then some (jal 0 (sign_extend jump_imm 12))
    else if funct == 0x6
    then some (branch BranchKind.beq (rs1_prime raw) 0 (sign_extend branch_imm 9))
    else if funct == 0x7
    then some (branch BranchKind.bne (rs1_prime raw) 0 (sign_extend branch_imm 9))
    else none

-- The arm (2, 0x4): jumps to a register, moves and additions.
unfoldable pub decode_register_pair : ℕ → Option Op
decode_register_pair raw =
    let rd = compressed_rd raw in
    let rs2 = compressed_rs2 raw in
    if bit_and (raw / 2 ^ 12) 1 == 0
    then (if rs2 == 0 then some (jalr 0 rd 0) else some (alu_reg AluKind.add rd 0 rs2))
    else if rd == 0 && rs2 == 0
    then none
    else if rs2 == 0
    then some (jalr 1 rd 0)
    else some (alu_reg AluKind.add rd rd rs2)

unfoldable pub decode_quadrant_2 : ℕ → ℕ → Option Op
unfolding decode_register_pair
decode_quadrant_2 raw funct =
    let rd = compressed_rd raw in
    let rs2 = compressed_rs2 raw in
    if funct == 0x0
    then some (alu_imm AluKind.sll rd rd (six_bits raw))
    else if funct == 0x2
    then some (
        load LoadKind.lw rd 2
          (bit_or (bit_or (field raw 12 1 5) (field raw 4 0x7 2)) (field raw 2 0x3 6)))
    else if funct == 0x3
    then some (
        load LoadKind.ld rd 2
          (bit_or (bit_or (field raw 12 1 5) (field raw 5 0x3 3)) (field raw 2 0x7 6)))
    else if funct == 0x4
    then decode_register_pair raw
    else if funct == 0x6
    then some (store StoreKind.sw 2 rs2 (bit_or (field raw 9 0xf 2) (field raw 7 0x3 6)))
    else if funct == 0x7
    then some (store StoreKind.sd 2 rs2 (bit_or (field raw 10 0x7 3) (field raw 7 0x7 6)))
    else none

unfoldable pub decode_compressed : ℕ → Option Op
unfolding decode_quadrant_0 decode_quadrant_1 decode_quadrant_2
decode_compressed raw =
    if quadrant raw == 0
    then decode_quadrant_0 raw (compressed_funct3 raw)
    else if quadrant raw == 1
    then decode_quadrant_1 raw (compressed_funct3 raw)
    else if quadrant raw == 2
    then decode_quadrant_2 raw (compressed_funct3 raw)
    else none
