-- ===== src/RiscvCore/Block/Values.antt =====
-- The operation that crates/riscv-core/src/block.rs decodes from the fields of a word computes what
-- crates/riscv-core/src/execute.rs computes from these fields.
use mathlib.Core.Option
use vpod.Prelude.{
  ℕ, ◌%◌, ◌^◌, ◌<◌, bit_and, ◌&&◌, ◌==◌, ◌≡◌, ap, sym, ◌∙◌, if◌then◌else◌, Option, some, map-if,
  select, select₂, select₂-on_values₂, select-on_values, arith,
}
use vpod.Bits.Masks.{and-mask}
use vpod.RiscvCore.Alu.{AluKind, alu}
use vpod.RiscvCore.Alu.Bounds.{leading_zeros-le, trailing_zeros-le, count_ones-le}
use vpod.RiscvCore.Block.{
  decode_imm, decode_imm32, decode_reg32, reg_kinds, reg32_kinds, branch_kinds,
}
use vpod.RiscvCore.Block.Run.{is_taken}
use vpod.RiscvCore.Execute.Integer.{imm_value, imm32_value, reg_values, reg32_value, branch_tests}

abbrev pub computed : ℕ → AluKind × ℕ → ℕ
computed a (kind, imm) = alu kind a imm

masked_twice : (imm : ℕ) → imm < 2 ^ 64 → bit_and (bit_and imm 0x3f) 0x3f ≡ bit_and imm 0x3f
masked_twice imm h =
    let once : bit_and imm 0x3f ≡ imm % 2 ^ 6 = and-mask 64 6 imm h in
    rw once (and-mask 64 6 (imm % 2 ^ 6) (omega arith) ∙ omega arith)

pub imm_value-decode :
    (funct3 funct7 imm a : ℕ)
    → imm < 2 ^ 64
    → imm_value funct3 funct7 imm a ≡ Option.map (computed a) (decode_imm funct3 funct7 imm)
unfolding imm_value decode_imm alu
imm_value-decode funct3 funct7 imm a h = ground (arith, masked_twice imm h)

masked_word_twice : (imm : ℕ) → imm < 2 ^ 64 → bit_and (bit_and imm 0x1f) 0x1f ≡ bit_and imm 0x1f
masked_word_twice imm h =
    let once : bit_and imm 0x1f ≡ imm % 2 ^ 5 = and-mask 64 5 imm h in
    rw once (and-mask 64 5 (imm % 2 ^ 5) (omega arith) ∙ omega arith)

pub imm32_value-decode :
    (funct3 funct7 imm a : ℕ)
    → imm < 2 ^ 64
    → imm32_value funct3 funct7 imm a ≡ Option.map (computed a) (decode_imm32 funct3 funct7 imm)
unfolding imm32_value decode_imm32 alu
imm32_value-decode funct3 funct7 imm a h = ground (
  arith,
  masked_twice imm h,
  masked_word_twice imm h,
  leading_zeros-le 32 (a % 2 ^ 32),
  trailing_zeros-le 32 (a % 2 ^ 32),
  count_ones-le 32 (a % 2 ^ 32),
)

pub reg_values-kinds :
    (a c funct3 funct7 : ℕ)
    → select₂ (reg_values a c) funct3 funct7
      ≡ Option.map (λ kind. alu kind a c) (select₂ reg_kinds funct3 funct7)
unfolding alu
reg_values-kinds a c funct3 funct7 =
    select₂-on_values₂ (λ kind. alu kind a c) reg_kinds funct3 funct7

pub reg32_value-decode :
    (funct3 funct7 rs2 a c : ℕ)
    → reg32_value funct3 funct7 rs2 a c
      ≡ Option.map (λ kind. alu kind a c) (decode_reg32 funct3 funct7 rs2)
unfolding reg32_value decode_reg32 alu
reg32_value-decode funct3 funct7 rs2 a c =
    ap
      (λ (o : Option ℕ).
        if funct3 == 0x4 && funct7 == 0x04 && rs2 == 0 then some (a % 2 ^ 16) else o)
      (select₂-on_values₂ (λ kind. alu kind a c) reg32_kinds funct3 funct7)
    ∙ sym (map-if (λ kind. alu kind a c) (funct3 == 0x4 && funct7 == 0x04 && rs2 == 0) _ _)

pub branch_tests-kinds :
    (a c funct3 : ℕ)
    → select (branch_tests a c) funct3
      ≡ Option.map (λ kind. is_taken kind a c) (select branch_kinds funct3)
unfolding is_taken
branch_tests-kinds a c funct3 = select-on_values (λ kind. is_taken kind a c) branch_kinds funct3
