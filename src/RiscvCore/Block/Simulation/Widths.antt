-- ===== src/RiscvCore/Block/Simulation/Widths.antt =====
-- crates/riscv-core/src/block.rs: a decoded immediate fits 64 bits, so the registers that a block writes do.
use mathlib.Core.Option
use vpod.Prelude.{
  ℕ, ◌/◌, ◌^◌, ◌<◌, bit_and, bit_or, Bool, true, false, ◌&&◌, ◌==◌, ◌≡◌, refl, if◌then◌else◌,
  Option, none, some, select, select₂, arith,
}
use vpod.Bits.{and-le, or-lt}
use vpod.RiscvCore.SystemBus.{ExecBus}
use vpod.RiscvCore.Alu.{AluKind, wrapping_add}
use vpod.RiscvCore.Alu.Bounds.{alu-lt}
use vpod.RiscvCore.Decode.{
  opcode, rd, rs1, rs2, funct3, funct7, imm_i, imm_u, quadrant, compressed_funct3, compressed_rd,
  compressed_rs2,
}
use vpod.RiscvCore.Gpr.{Gpr, read_masked, write_masked}
use vpod.RiscvCore.Block.{
  Op, lui, auipc, alu_imm, alu_reg, load, store, branch, jal, jalr, fallback, branch_kinds,
  load_kinds, store_kinds, reg_kinds, decode_imm, decode_imm32, decode_reg32, decode_full,
}
use vpod.RiscvCore.Block.Compressed.{
  field, six_bits, decode_quadrant_0, decode_quadrant_1, decode_quadrant_2, decode_arithmetic,
  decode_register_pair, decode_compressed,
}
use vpod.RiscvCore.Block.Run.{Flow, advance, leave, exec_op, is_taken}
use vpod.RiscvCore.Block.Simulation.{IsValid, is_register}
use vpod.RiscvCore.Block.Simulation.Words.{imm_i-lt}
use vpod.RiscvCore.Block.Simulation.Compressed.{sign_extend-lt, six_bits-lt, masked-lt}
use vpod.RiscvCore.Execute.{Context}

-- The immediate that an instruction writes, or computes with, fits 64 bits.
abbrev pub Fits : Op → Type 0
Fits (lui rd imm) = imm < 2 ^ 64
Fits (alu_imm kind rd rs1 imm) = imm < 2 ^ 64
Fits _ = Unit

abbrev pub FitsIfDecoded : Option Op → Type 0
FitsIfDecoded none = Unit
FitsIfDecoded (some op) = Fits op

fits_if :
    (c : Bool) (d d' : Option Op)
    → FitsIfDecoded d
    → FitsIfDecoded d'
    → FitsIfDecoded (if c then d else d')
fits_if true d d' h k = h
fits_if false d d' h k = k

imm_u-lt : (raw : ℕ) → raw < 2 ^ 32 → imm_u raw < 2 ^ 64
unfolding imm_u
imm_u-lt raw h = ground (arith, and-le 32 raw 0xfffff000 h)

-- An operand fits 64 bits.
abbrev OperandFits : Option (AluKind × ℕ) → Type 0
OperandFits none = Unit
OperandFits (some (kind, imm)) = imm < 2 ^ 64

decode_imm-Fits :
    (funct3 funct7 imm : ℕ) → imm < 2 ^ 64 → OperandFits (decode_imm funct3 funct7 imm)
unfolding decode_imm
decode_imm-Fits funct3 funct7 imm h = ground (arith, and-le 64 imm 0x3f h)

decode_imm32-Fits :
    (funct3 funct7 imm : ℕ) → imm < 2 ^ 64 → OperandFits (decode_imm32 funct3 funct7 imm)
unfolding decode_imm32
decode_imm32-Fits funct3 funct7 imm h = ground (arith, and-le 64 imm 0x3f h, and-le 64 imm 0x1f h)

module _ (raw : ℕ) where
  operand-Fits :
      (d : Option (AluKind × ℕ))
      → OperandFits d
      → FitsIfDecoded (Option.map (λ (k : AluKind × ℕ). alu_imm k.0 (rd raw) (rs1 raw) k.1) d)
  operand-Fits none h = tt
  operand-Fits (some (kind, imm)) h = h

  -- The other forms hold no such immediate.
  other-Fits :
      {K : Type 0} (f : K → Op) (d : Option K)
      → ((k : K) → Fits (f k))
      → FitsIfDecoded (Option.map f d)
  other-Fits f none h = tt
  other-Fits f (some k) h = h k

pub decode_full-Fits : (raw : ℕ) → raw < 2 ^ 32 → FitsIfDecoded (decode_full raw)
unfolding decode_full
decode_full-Fits raw h =
    let imm = imm_i-lt raw h in
    fits_if (opcode raw == 0x37) _ _ (imm_u-lt raw h) (
      fits_if (opcode raw == 0x17) _ _ tt (
        fits_if (opcode raw == 0x6f) _ _ tt (
          fits_if (opcode raw == 0x67) _ _ (fits_if (funct3 raw == 0) _ _ tt tt) (
            fits_if (opcode raw == 0x63) _ _
              (other-Fits raw _ (select branch_kinds (funct3 raw)) (λ k. tt))
              (fits_if (opcode raw == 0x03) _ _
                (other-Fits raw _ (select load_kinds (funct3 raw)) (λ k. tt))
                (fits_if (opcode raw == 0x23) _ _
                  (other-Fits raw _ (select store_kinds (funct3 raw)) (λ k. tt))
                  (fits_if (opcode raw == 0x13) _ _
                    (operand-Fits raw _ (decode_imm-Fits (funct3 raw) (funct7 raw) (imm_i raw) imm))
                    (fits_if (opcode raw == 0x1b) _ _
                      (operand-Fits raw _
                        (decode_imm32-Fits (funct3 raw) (funct7 raw) (imm_i raw) imm))
                      (fits_if (opcode raw == 0x33) _ _
                        (other-Fits raw _ (select₂ reg_kinds (funct3 raw) (funct7 raw)) (λ k. tt))
                        (fits_if (opcode raw == 0x3b) _ _
                          (other-Fits raw _ (decode_reg32 (funct3 raw) (funct7 raw) (rs2 raw))
                            (λ k. tt))
                          tt))))))))))

nzuimm-lt :
    (raw : ℕ)
    → raw < 2 ^ 16
    → bit_or
        (bit_or (bit_or (field raw 6 1 2) (field raw 5 1 3)) (field raw 11 0x3 4))
        (field raw 7 0xf 6)
      < 2 ^ 64
nzuimm-lt raw h =
    or-lt 64 _ (field raw 7 0xf 6)
      (or-lt 64 _ (field raw 11 0x3 4)
        (or-lt 64 (field raw 6 1 2) (field raw 5 1 3) (omega (arith, masked-lt raw 6 1 h))
          (omega (arith, masked-lt raw 5 1 h)))
        (omega (arith, masked-lt raw 11 0x3 h)))
      (omega (arith, masked-lt raw 7 0xf h))

decode_quadrant_0-Fits :
    (raw funct : ℕ) → raw < 2 ^ 16 → FitsIfDecoded (decode_quadrant_0 raw funct)
unfolding decode_quadrant_0
decode_quadrant_0-Fits raw funct h =
    let nzuimm =
      bit_or (bit_or (bit_or (field raw 6 1 2) (field raw 5 1 3)) (field raw 11 0x3 4))
        (field raw 7 0xf 6) in
    fits_if (funct == 0x0) _ _ (fits_if (nzuimm == 0) _ _ tt (nzuimm-lt raw h)) (
      fits_if (funct == 0x2) _ _ tt (
        fits_if (funct == 0x3) _ _ tt
          (fits_if (funct == 0x6) _ _ tt (fits_if (funct == 0x7) _ _ tt tt))))

decode_arithmetic-Fits : (raw : ℕ) → raw < 2 ^ 16 → FitsIfDecoded (decode_arithmetic raw)
unfolding decode_arithmetic
decode_arithmetic-Fits raw h =
    let small = six_bits-lt raw h in
    let shamt : six_bits raw < 2 ^ 64 = omega arith in
    let chosen = bit_and (raw / 2 ^ 10) 0x3 in
    let high = bit_and (raw / 2 ^ 12) 1 in
    let low = bit_and (raw / 2 ^ 5) 0x3 in
    fits_if (chosen == 0x0) _ _ shamt (
      fits_if (chosen == 0x1) _ _ shamt (
        fits_if (chosen == 0x2) _ _ (sign_extend-lt (six_bits raw) 6) (
          fits_if (high == 0 && low == 0x0) _ _ tt (
            fits_if (high == 0 && low == 0x1) _ _ tt (
              fits_if (high == 0 && low == 0x2) _ _ tt (
                fits_if (high == 0 && low == 0x3) _ _ tt (
                  fits_if (high == 1 && low == 0x0) _ _ tt
                    (fits_if (high == 1 && low == 0x1) _ _ tt tt))))))))

decode_quadrant_1-Fits :
    (raw funct : ℕ) → raw < 2 ^ 16 → FitsIfDecoded (decode_quadrant_1 raw funct)
unfolding decode_quadrant_1
decode_quadrant_1-Fits raw funct h =
    let imm = sign_extend-lt (six_bits raw) 6 in
    fits_if (funct == 0x0) _ _ imm (
      fits_if (funct == 0x1) _ _ imm (
        fits_if (funct == 0x2) _ _ imm (
          fits_if (funct == 0x3) _ _
            (fits_if (compressed_rd raw == 2) _ _ (sign_extend-lt _ 10) (sign_extend-lt _ 18))
            (fits_if (funct == 0x4) _ _ (decode_arithmetic-Fits raw h) (
              fits_if (funct == 0x5) _ _ tt
                (fits_if (funct == 0x6) _ _ tt (fits_if (funct == 0x7) _ _ tt tt)))))))

decode_quadrant_2-Fits :
    (raw funct : ℕ) → raw < 2 ^ 16 → FitsIfDecoded (decode_quadrant_2 raw funct)
unfolding decode_quadrant_2 decode_register_pair
decode_quadrant_2-Fits raw funct h =
    let small = six_bits-lt raw h in
    let rs2 = compressed_rs2 raw in
    fits_if (funct == 0x0) _ _ (omega arith) (
      fits_if (funct == 0x2) _ _ tt (
        fits_if (funct == 0x3) _ _ tt (
          fits_if (funct == 0x4) _ _
            (fits_if (bit_and (raw / 2 ^ 12) 1 == 0) _ _ (fits_if (rs2 == 0) _ _ tt tt)
              (fits_if (compressed_rd raw == 0 && rs2 == 0) _ _ tt (fits_if (rs2 == 0) _ _ tt tt)))
            (fits_if (funct == 0x6) _ _ tt (fits_if (funct == 0x7) _ _ tt tt)))))

pub decode_compressed-Fits : (raw : ℕ) → raw < 2 ^ 16 → FitsIfDecoded (decode_compressed raw)
unfolding decode_compressed
decode_compressed-Fits raw h =
    let funct = compressed_funct3 raw in
    fits_if (quadrant raw == 0) _ _ (decode_quadrant_0-Fits raw funct h) (
      fits_if (quadrant raw == 1) _ _ (decode_quadrant_1-Fits raw funct h)
        (fits_if (quadrant raw == 2) _ _ (decode_quadrant_2-Fits raw funct h) tt))

write_masked-IsValid :
    (g : Gpr) (rd val : ℕ) → IsValid g → val < 2 ^ 64 → IsValid (write_masked g rd val)
unfolding write_masked
write_masked-IsValid g rd val v h = record {
  hardwired = refl;
  words = λ r. ground (arith, v.words r);
}

read_masked-lt : (g : Gpr) (r : ℕ) → IsValid g → read_masked g r < 2 ^ 64
unfolding read_masked
read_masked-lt g r v = v.words (bit_and r 31)

module _ {b : ExecBus} where
  -- The registers are valid where the block goes on.
  abbrev pub GoesOnValid : Flow b → Type 0
  GoesOnValid (advance ctx) = IsValid ctx.regs
  GoesOnValid _ = Unit

  branch_valid :
      (taken : Bool) (ctx left : Context b)
      → IsValid ctx.regs
      → GoesOnValid (if taken then leave left else advance ctx)
  branch_valid true ctx left v = tt
  branch_valid false ctx left v = v

  pub exec_op-IsValid :
      (ctx : Context b) (satp : ℕ) (op : Op) (pc ilen : ℕ)
      → IsValid ctx.regs
      → Fits op
      → is_register op ≡ true
      → GoesOnValid (exec_op ctx satp op pc ilen)
  unfolding exec_op is_register
  exec_op-IsValid ctx satp (lui rd imm) pc ilen v h r = write_masked-IsValid ctx.regs rd imm v h
  exec_op-IsValid ctx satp (auipc rd imm) pc ilen v h r =
      write_masked-IsValid ctx.regs rd (wrapping_add pc imm) v (omega arith)
  exec_op-IsValid ctx satp (alu_imm kind rd rs1 imm) pc ilen v h r =
      write_masked-IsValid ctx.regs rd _ v (alu-lt kind _ imm (read_masked-lt ctx.regs rs1 v) h)
  exec_op-IsValid ctx satp (alu_reg kind rd rs1 rs2) pc ilen v h r =
      write_masked-IsValid ctx.regs rd _ v
        (alu-lt kind _ _ (read_masked-lt ctx.regs rs1 v) (read_masked-lt ctx.regs rs2 v))
  exec_op-IsValid ctx satp (load kind rd rs1 imm) pc ilen v h r = cc
  exec_op-IsValid ctx satp (store kind rs1 rs2 imm) pc ilen v h r = cc
  exec_op-IsValid ctx satp (branch kind rs1 rs2 offset) pc ilen v h r =
      branch_valid (is_taken kind (read_masked ctx.regs rs1) (read_masked ctx.regs rs2)) ctx _ v
  exec_op-IsValid ctx satp (jal rd offset) pc ilen v h r = tt
  exec_op-IsValid ctx satp (jalr rd rs1 imm) pc ilen v h r = tt
  exec_op-IsValid ctx satp (fallback raw) pc ilen v h r = cc
