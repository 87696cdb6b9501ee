-- ===== src/RiscvCore/Block.antt =====
-- crates/riscv-core/src/block.rs: the decoded instructions of a block, and `decode_full`, which decodes
-- a 32-bit word. A register number is a number below 32, an `i64` the number below 2 ^ 64 of the
-- same bits.
pub mod Compressed
pub mod Cache
pub mod Run
pub mod Values
pub mod Simulation
mod Examples
use mathlib.Core.Option
use vpod.Prelude.{
  ℕ, ◌/◌, ◌^◌, bit_and, Bool, ◌&&◌, ◌||◌, ◌==◌, if◌then◌else◌, Option, none, some, List, [], ◌∷◌,
  select, select₂,
}
use vpod.RiscvCore.Alu.{AluKind}
use vpod.RiscvCore.Decode.{opcode, rd, rs1, rs2, funct3, funct7, imm_i, imm_s, imm_b, imm_u, imm_j}

pub data LoadKind : Type 0 where
  lb lbu lh lhu lw lwu ld : LoadKind

pub data StoreKind : Type 0 where
  sb sh sw sd : StoreKind

pub data BranchKind : Type 0 where
  beq bne blt bge bltu bgeu : BranchKind

-- The fields stand in the order of the source.
pub data Op : Type 0 where
  lui auipc : (rd imm : ℕ) → Op
  alu_imm : AluKind → (rd rs1 imm : ℕ) → Op
  alu_reg : AluKind → (rd rs1 rs2 : ℕ) → Op
  load : LoadKind → (rd rs1 imm : ℕ) → Op
  store : StoreKind → (rs1 rs2 imm : ℕ) → Op
  branch : BranchKind → (rs1 rs2 offset : ℕ) → Op
  jal : (rd offset : ℕ) → Op
  jalr : (rd rs1 imm : ℕ) → Op
  fallback : (raw : ℕ) → Op

pub record DecodedInsn : Type 0 where
  pub op : Op
  pub pc_off : ℕ
  pub ilen : ℕ

pub record Block : Type 0 where
  pub ops : List DecodedInsn
  pub byte_len : ℕ

abbrev pub max_block_ops : ℕ
max_block_ops = 64

-- A `match` on `funct3`, or on `funct3` and `funct7`, is the table of its arms.
abbrev pub branch_kinds : List (ℕ × BranchKind)
branch_kinds =
    (0x0, BranchKind.beq)
    ∷ (0x1, BranchKind.bne)
    ∷ (0x4, BranchKind.blt)
    ∷ (0x5, BranchKind.bge)
    ∷ (0x6, BranchKind.bltu)
    ∷ (0x7, BranchKind.bgeu)
    ∷ []

abbrev pub load_kinds : List (ℕ × LoadKind)
load_kinds =
    (0x0, LoadKind.lb)
    ∷ (0x1, LoadKind.lh)
    ∷ (0x2, LoadKind.lw)
    ∷ (0x3, LoadKind.ld)
    ∷ (0x4, LoadKind.lbu)
    ∷ (0x5, LoadKind.lhu)
    ∷ (0x6, LoadKind.lwu)
    ∷ []

abbrev pub store_kinds : List (ℕ × StoreKind)
store_kinds =
    (0x0, StoreKind.sb) ∷ (0x1, StoreKind.sh) ∷ (0x2, StoreKind.sw) ∷ (0x3, StoreKind.sd) ∷ []

-- The operation and its second operand.
unfoldable pub decode_imm : ℕ → ℕ → ℕ → Option (AluKind × ℕ)
decode_imm funct3 funct7 imm =
    let shamt = bit_and imm 0x3f in
    if funct3 == 0x0
    then some (AluKind.add, imm)
    else if funct3 == 0x1
    then (if funct7 / 2 == 0x00
        then some (AluKind.sll, shamt)
        else if funct7 / 2 == 0x18
        then (if shamt == 0
            then some (AluKind.clz, 0)
            else if shamt == 1
            then some (AluKind.ctz, 0)
            else if shamt == 2
            then some (AluKind.cpop, 0)
            else none)
        else if funct7 / 2 == 0x1a
        then (if shamt == 2
            then some (AluKind.sext_b, 0)
            else if shamt == 4
            then some (AluKind.sext_h, 0)
            else none)
        else none)
    else if funct3 == 0x2
    then some (AluKind.slt, imm)
    else if funct3 == 0x3
    then some (AluKind.sltu, imm)
    else if funct3 == 0x4
    then some (AluKind.xor, imm)
    else if funct3 == 0x5
    then (if funct7 / 2 == 0x00
        then some (AluKind.srl, shamt)
        else if funct7 / 2 == 0x10
        then some (AluKind.sra, shamt)
        else if funct7 / 2 == 0x14 && shamt == 7
        then some (AluKind.orc_b, 0)
        else if funct7 / 2 == 0x35 && (shamt == 24 || shamt == 8)
        then some (AluKind.rev8, 0)
        else if funct7 / 2 == 0x18
        then some (AluKind.ror, shamt)
        else none)
    else if funct3 == 0x6
    then some (AluKind.or, imm)
    else if funct3 == 0x7
    then some (AluKind.and, imm)
    else none

unfoldable pub decode_imm32 : ℕ → ℕ → ℕ → Option (AluKind × ℕ)
decode_imm32 funct3 funct7 imm =
    let shamt = bit_and imm 0x1f in
    if funct3 == 0x0
    then some (AluKind.addw, imm)
    else if funct3 == 0x1 && (funct7 == 0x04 || funct7 == 0x05)
    then some (AluKind.slli_uw, bit_and imm 0x3f)
    else if funct3 == 0x1
    then (if funct7 == 0x00
        then some (AluKind.sllw, shamt)
        else if funct7 == 0x30
        then (if shamt == 0
            then some (AluKind.clzw, 0)
            else if shamt == 1
            then some (AluKind.ctzw, 0)
            else if shamt == 2
            then some (AluKind.cpopw, 0)
            else none)
        else none)
    else if funct3 == 0x5
    then (if funct7 == 0x00
        then some (AluKind.srlw, shamt)
        else if funct7 == 0x20
        then some (AluKind.sraw, shamt)
        else if funct7 == 0x30
        then some (AluKind.rorw, shamt)
        else none)
    else none

abbrev pub reg_kinds : List (ℕ × ℕ × AluKind)
reg_kinds =
    (0x0, 0x00, AluKind.add)
    ∷ (0x0, 0x20, AluKind.sub)
    ∷ (0x1, 0x00, AluKind.sll)
    ∷ (0x2, 0x00, AluKind.slt)
    ∷ (0x3, 0x00, AluKind.sltu)
    ∷ (0x4, 0x00, AluKind.xor)
    ∷ (0x5, 0x00, AluKind.srl)
    ∷ (0x5, 0x20, AluKind.sra)
    ∷ (0x6, 0x00, AluKind.or)
    ∷ (0x7, 0x00, AluKind.and)
    ∷ (0x0, 0x01, AluKind.mul)
    ∷ (0x1, 0x01, AluKind.mulh)
    ∷ (0x2, 0x01, AluKind.mulhsu)
    ∷ (0x3, 0x01, AluKind.mulhu)
    ∷ (0x4, 0x01, AluKind.div)
    ∷ (0x5, 0x01, AluKind.divu)
    ∷ (0x6, 0x01, AluKind.rem)
    ∷ (0x7, 0x01, AluKind.remu)
    ∷ (0x4, 0x20, AluKind.xnor)
    ∷ (0x6, 0x20, AluKind.orn)
    ∷ (0x7, 0x20, AluKind.andn)
    ∷ (0x1, 0x30, AluKind.rol)
    ∷ (0x5, 0x30, AluKind.ror)
    ∷ (0x4, 0x05, AluKind.min)
    ∷ (0x5, 0x05, AluKind.max)
    ∷ (0x6, 0x05, AluKind.minu)
    ∷ (0x7, 0x05, AluKind.maxu)
    ∷ (0x2, 0x10, AluKind.sh1add)
    ∷ (0x4, 0x10, AluKind.sh2add)
    ∷ (0x6, 0x10, AluKind.sh3add)
    ∷ []

-- The arms before the one with a guard, and those behind it.
abbrev pub reg32_kinds : List (ℕ × ℕ × AluKind)
reg32_kinds =
    (0x0, 0x00, AluKind.addw)
    ∷ (0x0, 0x20, AluKind.subw)
    ∷ (0x1, 0x00, AluKind.sllw)
    ∷ (0x5, 0x00, AluKind.srlw)
    ∷ (0x5, 0x20, AluKind.sraw)
    ∷ (0x0, 0x01, AluKind.mulw)
    ∷ (0x4, 0x01, AluKind.divw)
    ∷ (0x5, 0x01, AluKind.divuw)
    ∷ (0x6, 0x01, AluKind.remw)
    ∷ (0x7, 0x01, AluKind.remuw)
    ∷ (0x1, 0x30, AluKind.rolw)
    ∷ (0x5, 0x30, AluKind.rorw)
    ∷ (0x0, 0x04, AluKind.add_uw)
    ∷ (0x2, 0x10, AluKind.sh1add_uw)
    ∷ (0x4, 0x10, AluKind.sh2add_uw)
    ∷ (0x6, 0x10, AluKind.sh3add_uw)
    ∷ []

-- The arm of zext.h has the guard `rs2 == 0`; no other arm fits where it does.
unfoldable pub decode_reg32 : ℕ → ℕ → ℕ → Option AluKind
decode_reg32 funct3 funct7 rs2 =
    if funct3 == 0x4 && funct7 == 0x04 && rs2 == 0
    then some AluKind.zext_h
    else select₂ reg32_kinds funct3 funct7

unfoldable pub decode_full : ℕ → Option Op
decode_full raw =
    let operand : AluKind × ℕ → Op = λ k. alu_imm k.0 (rd raw) (rs1 raw) k.1 in
    let operands : AluKind → Op = λ kind. alu_reg kind (rd raw) (rs1 raw) (rs2 raw) in
    if opcode raw == 0x37
    then some (lui (rd raw) (imm_u raw))
    else if opcode raw == 0x17
    then some (auipc (rd raw) (imm_u raw))
    else if opcode raw == 0x6f
    then some (jal (rd raw) (imm_j raw))
    else if opcode raw == 0x67
    then (if funct3 raw == 0 then some (jalr (rd raw) (rs1 raw) (imm_i raw)) else none)
    else if opcode raw == 0x63
    then Option.map (λ kind. branch kind (rs1 raw) (rs2 raw) (imm_b raw))
        (select branch_kinds (funct3 raw))
    else if opcode raw == 0x03
    then Option.map (λ kind. load kind (rd raw) (rs1 raw) (imm_i raw))
        (select load_kinds (funct3 raw))
    else if opcode raw == 0x23
    then Option.map (λ kind. store kind (rs1 raw) (rs2 raw) (imm_s raw))
        (select store_kinds (funct3 raw))
    else if opcode raw == 0x13
    then Option.map operand (decode_imm (funct3 raw) (funct7 raw) (imm_i raw))
    else if opcode raw == 0x1b
    then Option.map operand (decode_imm32 (funct3 raw) (funct7 raw) (imm_i raw))
    else if opcode raw == 0x33
    then Option.map operands (select₂ reg_kinds (funct3 raw) (funct7 raw))
    else if opcode raw == 0x3b
    then Option.map operands (decode_reg32 (funct3 raw) (funct7 raw) (rs2 raw))
    else none

-- `fallback_stops_block`: a system instruction that is no access of a register, and fence.i.
unfoldable pub fallback_stops_block : ℕ → Bool
fallback_stops_block raw =
    bit_and raw 0x7f == 0x73 && bit_and (raw / 2 ^ 12) 0x7 == 0 || bit_and raw 0x707f == 0x100f
