-- ===== src/RiscvCore/Block/Simulation/Words.antt =====
-- The 32-bit instructions: `decode_full` and a block of crates/riscv-core/src/block.rs against `exec_full` of
-- crates/riscv-core/src/execute.rs.
use mathlib.Core.Option
use native.Mathlib.Nat.{div-le_self}
use vpod.Prelude.{
  ℕ, ◌+◌, ◌-◌, ◌*◌, ◌/◌, ◌%◌, ◌^◌, ◌<◌, bit_and, bit_not, Bool, true, false, not, ◌==◌, ◌≡◌, refl,
  ap, ap₂, sym, ◌∙◌, if◌then◌else◌, Option, none, some, select, select₂, arith,
}
use vpod.Bits.{and-le, and_le_right}
use vpod.Bits.Masks.{and-mask, and_high}
use vpod.RiscvCore.SystemBus.{ExecBus}
use vpod.RiscvCore.Alu.{AluKind, alu, wrapping_add}
use vpod.RiscvCore.Decode.{opcode, rd, rs1, rs2, funct3, funct7, imm_i, imm_s, imm_b, imm_u, imm_j}
use vpod.RiscvCore.Decode.Immediates.{imm_i_lem, imm_b_lem, imm_j_lem}
use vpod.RiscvCore.Gpr.{read, read_masked}
use vpod.RiscvCore.Block.{
  Op, load, store, LoadKind, StoreKind, alu_imm, alu_reg, branch, BranchKind, branch_kinds,
  load_kinds, store_kinds, reg_kinds, decode_imm, decode_imm32, decode_reg32, decode_full,
}
use vpod.RiscvCore.Block.Run.{exec_op, leave, advance, is_taken}
use vpod.RiscvCore.Block.Values.{
  computed, imm_value-decode, imm32_value-decode, reg_values-kinds, reg32_value-decode,
  branch_tests-kinds,
}
use vpod.RiscvCore.Block.Simulation.{
  IsValid, read_masked-read, Settles, caught_up, Agrees, Agrees-if, put-Settles, jump-Settles,
  is_register,
}
use vpod.RiscvCore.Execute.{Context, Outcome, retire, set_pc, set_reg}
use vpod.RiscvCore.Execute.Integer.{
  exec_lui, exec_auipc, exec_jal, exec_jalr, exec_branch, exec_imm, exec_imm32, exec_reg,
  exec_reg32, written_or_illegal, branched,
}
use vpod.RiscvCore.Execute.Dispatch.{exec_full}

pub register-lt : (raw k : ℕ) → raw < 2 ^ 32 → bit_and (raw / 2 ^ k) 0x1f < 32
register-lt raw k h =
    omega (arith, and_le_right 32 (raw / 2 ^ k) 0x1f (omega (arith, div-le_self raw (2 ^ k))))

-- An even target is aligned.
even_and : (target : ℕ) → target < 2 ^ 64 → target % 2 ≡ 0 → bit_and target 0x1 ≡ 0
even_and target h e = and-mask 64 1 target h ∙ e

imm_j_even : (raw : ℕ) → raw < 2 ^ 32 → imm_j raw % 2 ≡ 0
imm_j_even raw h = ground (arith, imm_j_lem raw h)

imm_b_even : (raw : ℕ) → raw < 2 ^ 32 → imm_b raw % 2 ≡ 0
imm_b_even raw h = ground (arith, imm_b_lem raw h)

pub imm_i-lt : (raw : ℕ) → raw < 2 ^ 32 → imm_i raw < 2 ^ 64
imm_i-lt raw h = ground (arith, imm_i_lem raw h)

-- `x & !1` is even.
cleared_even : (x : ℕ) → x < 2 ^ 64 → bit_and (bit_and x (bit_not 64 1)) 0x1 ≡ 0
cleared_even x h =
    let split : x ≡ x / 2 * 2 ^ 1 + x % 2 = omega arith in
    let e : bit_and x (bit_not 64 1) ≡ bit_and (x / 2) (2 ^ 63 - 1) * 2 ^ 1 =
      ap (λ (y : ℕ). bit_and y (bit_not 64 1)) split
      ∙ and_high 64 1 (x / 2) (x % 2) (2 ^ 63 - 1) (omega arith) (omega arith) in
    let small = and-le 64 (x / 2) (2 ^ 63 - 1) (omega arith) in
    rw e (even_and (bit_and (x / 2) (2 ^ 63 - 1) * 2 ^ 1) (omega arith) (omega arith))

aligned_target :
    {A : Type 0} (target : ℕ)
    → bit_and target 0x1 ≡ 0
    → (o o' : A) → (if not (bit_and target 0x1 == 0) then o else o') ≡ o'
aligned_target target e o o' = rw e

-- A branch, whose target may be out of line for the interpreter.
pub branch-Settles :
    {b : ExecBus} (ctx : Context b) (pc p target next_pc : ℕ) {taken taken' : Bool} {o : Outcome b}
    → taken ≡ taken'
    → retire (set_pc (caught_up ctx pc p) target) ≡ o
    → Settles
        (if taken then leave (set_pc ctx target) else advance ctx)
        next_pc
        p
        (if taken' then o else retire (set_pc (caught_up ctx pc p) next_pc))
branch-Settles ctx pc p target next_pc {taken = true} {taken' = true} e h =
    jump-Settles ctx pc p target ∙ h
branch-Settles ctx pc p target next_pc {taken = true} {taken' = false} e h = cc
branch-Settles ctx pc p target next_pc {taken = false} {taken' = true} e h = cc
branch-Settles ctx pc p target next_pc {taken = false} {taken' = false} e h =
    jump-Settles ctx pc p next_pc

module _ {b : ExecBus} (ctx : Context b) (satp pc p raw : ℕ) (v : IsValid ctx.regs) where
  module _ (word : raw < 2 ^ 32) where
    rd-lt : rd raw < 32
    unfolding rd
    rd-lt = register-lt raw 7 word

    rs1_value : read_masked ctx.regs (rs1 raw) ≡ read ctx.regs (rs1 raw)
    unfolding rs1
    rs1_value =
        read_masked-read ctx.regs (bit_and (raw / 2 ^ 15) 0x1f) v.hardwired
          (register-lt raw 15 word)

    rs2_value : read_masked ctx.regs (rs2 raw) ≡ read ctx.regs (rs2 raw)
    unfolding rs2
    rs2_value =
        read_masked-read ctx.regs (bit_and (raw / 2 ^ 20) 0x1f) v.hardwired
          (register-lt raw 20 word)

    lui-Agrees :
        Agrees ctx satp pc p 4
          (some (Op.lui (rd raw) (imm_u raw)))
          (exec_lui (caught_up ctx pc p) raw pc)
    unfolding exec_lui exec_op
    lui-Agrees _ = put-Settles ctx (rd raw) pc p _ v.hardwired rd-lt refl

    auipc-Agrees :
        Agrees ctx satp pc p 4
          (some (Op.auipc (rd raw) (imm_u raw)))
          (exec_auipc (caught_up ctx pc p) raw pc)
    unfolding exec_auipc exec_op
    auipc-Agrees _ = put-Settles ctx (rd raw) pc p _ v.hardwired rd-lt refl

    imm-Agrees :
        (d : Option (AluKind × ℕ)) {value : Option ℕ}
        → value ≡ Option.map (computed (read ctx.regs (rs1 raw))) d
        → Agrees ctx satp pc p 4
            (Option.map (λ (k : AluKind × ℕ). alu_imm k.0 (rd raw) (rs1 raw) k.1) d)
            (written_or_illegal (caught_up ctx pc p) raw pc value)
    unfolding exec_op
    imm-Agrees none e = tt
    imm-Agrees (some (kind, imm)) e = λ _.
        put-Settles ctx (rd raw) pc p _ v.hardwired rd-lt (ap (λ (a : ℕ). alu kind a imm) rs1_value)
        ∙ ap (written_or_illegal (caught_up ctx pc p) raw pc) (sym e)

    reg-Agrees :
        (d : Option AluKind) {value : Option ℕ}
        → value
          ≡ Option.map (λ kind. alu kind (read ctx.regs (rs1 raw)) (read ctx.regs (rs2 raw))) d
        → Agrees ctx satp pc p 4
            (Option.map (λ (k : AluKind). alu_reg k (rd raw) (rs1 raw) (rs2 raw)) d)
            (written_or_illegal (caught_up ctx pc p) raw pc value)
    unfolding exec_op
    reg-Agrees none e = tt
    reg-Agrees (some kind) e = λ _.
        put-Settles ctx (rd raw) pc p _ v.hardwired rd-lt (ap₂ (alu kind) rs1_value rs2_value)
        ∙ ap (written_or_illegal (caught_up ctx pc p) raw pc) (sym e)

    module _ (even : pc % 2 ≡ 0) where
      jal-Agrees :
          Agrees ctx satp pc p 4
            (some (Op.jal (rd raw) (imm_j raw)))
            (exec_jal (caught_up ctx pc p) raw pc)
      unfolding exec_jal exec_op
      jal-Agrees _ =
          let aligned =
            even_and (wrapping_add pc (imm_j raw)) (omega arith)
              (omega (arith, imm_j_even raw word)) in
          put-Settles ctx (rd raw) pc p _ v.hardwired rd-lt refl
          ∙ sym (aligned_target _ aligned _ _)

      jalr-Agrees :
          Agrees ctx satp pc p 4
            (some (Op.jalr (rd raw) (rs1 raw) (imm_i raw)))
            (exec_jalr (caught_up ctx pc p) raw pc)
      unfolding exec_jalr exec_op read
      jalr-Agrees _ =
          let target : ℕ → ℕ = λ base. bit_and (wrapping_add base (imm_i raw)) (bit_not 64 1) in
          let aligned =
            cleared_even (wrapping_add (read ctx.regs (rs1 raw)) (imm_i raw)) (omega arith) in
          put-Settles ctx (rd raw) pc p (target (read_masked ctx.regs (rs1 raw))) v.hardwired rd-lt
            refl
          ∙ ap (λ (base : ℕ). jumped (target base)) rs1_value
          ∙ sym (aligned_target _ aligned _ _)
        where
          jumped : ℕ → Outcome b
          jumped target =
              retire (set_pc (set_reg (caught_up ctx pc p) (rd raw) ((pc + 4) % 2 ^ 64)) target)

      branch-Agrees :
          (d : Option BranchKind) {taken : Option Bool}
          → taken
            ≡ Option.map
                (λ kind. is_taken kind (read ctx.regs (rs1 raw)) (read ctx.regs (rs2 raw)))
                d
          → Agrees ctx satp pc p 4
              (Option.map (λ (k : BranchKind). branch k (rs1 raw) (rs2 raw) (imm_b raw)) d)
              (branched (caught_up ctx pc p) raw pc taken)
      unfolding exec_op
      branch-Agrees none e = tt
      branch-Agrees (some kind) {taken = none} e = cc
      branch-Agrees (some kind) {taken = some test} e = λ _.
          let target = wrapping_add pc (imm_b raw) in
          let aligned = even_and target (omega arith) (omega (arith, imm_b_even raw word)) in
          branch-Settles ctx pc p target ((pc + 4) % 2 ^ 64)
            (ap₂ (is_taken kind) rs1_value rs2_value ∙ sym same)
            (sym (aligned_target target aligned _ _))
        where
          same : test ≡ is_taken kind (read ctx.regs (rs1 raw)) (read ctx.regs (rs2 raw))
          same = cc

  module _ (float_arms : Context b → ℕ → ℕ → Outcome b) (word : raw < 2 ^ 32)
      (even : pc % 2 ≡ 0) where
    load-Agrees :
        (d : Option LoadKind) (o : Outcome b)
        → Agrees ctx satp pc p 4
            (Option.map (λ (k : LoadKind). load k (rd raw) (rs1 raw) (imm_i raw)) d)
            o
    unfolding is_register
    load-Agrees none o = tt
    load-Agrees (some kind) o = λ h. cc

    store-Agrees :
        (d : Option StoreKind) (o : Outcome b)
        → Agrees ctx satp pc p 4
            (Option.map (λ (k : StoreKind). store k (rs1 raw) (rs2 raw) (imm_s raw)) d)
            o
    unfolding is_register
    store-Agrees none o = tt
    store-Agrees (some kind) o = λ h. cc

    branch_arm :
        Agrees ctx satp pc p 4
          (Option.map
            (λ (k : BranchKind). branch k (rs1 raw) (rs2 raw) (imm_b raw))
            (select branch_kinds (funct3 raw)))
          (exec_branch (caught_up ctx pc p) raw pc)
    unfolding exec_branch read
    branch_arm =
        branch-Agrees word even (select branch_kinds (funct3 raw))
          (branch_tests-kinds (read ctx.regs (rs1 raw)) (read ctx.regs (rs2 raw)) (funct3 raw))

    imm_arm :
        Agrees ctx satp pc p 4
          (Option.map
            (λ (k : AluKind × ℕ). alu_imm k.0 (rd raw) (rs1 raw) k.1)
            (decode_imm (funct3 raw) (funct7 raw) (imm_i raw)))
          (exec_imm (caught_up ctx pc p) raw pc)
    unfolding exec_imm read
    imm_arm = imm-Agrees word (decode_imm (funct3 raw) (funct7 raw) (imm_i raw)) (
        imm_value-decode (funct3 raw) (funct7 raw) (imm_i raw) (read ctx.regs (rs1 raw))
          (imm_i-lt raw word))

    imm32_arm :
        Agrees ctx satp pc p 4
          (Option.map
            (λ (k : AluKind × ℕ). alu_imm k.0 (rd raw) (rs1 raw) k.1)
            (decode_imm32 (funct3 raw) (funct7 raw) (imm_i raw)))
          (exec_imm32 (caught_up ctx pc p) raw pc)
    unfolding exec_imm32 read
    imm32_arm = imm-Agrees word (decode_imm32 (funct3 raw) (funct7 raw) (imm_i raw)) (
        imm32_value-decode (funct3 raw) (funct7 raw) (imm_i raw) (read ctx.regs (rs1 raw))
          (imm_i-lt raw word))

    reg_arm :
        Agrees ctx satp pc p 4
          (Option.map
            (λ (k : AluKind). alu_reg k (rd raw) (rs1 raw) (rs2 raw))
            (select₂ reg_kinds (funct3 raw) (funct7 raw)))
          (exec_reg (caught_up ctx pc p) raw pc)
    unfolding exec_reg read
    reg_arm = reg-Agrees word (select₂ reg_kinds (funct3 raw) (funct7 raw)) (
        reg_values-kinds (read ctx.regs (rs1 raw)) (read ctx.regs (rs2 raw)) (funct3 raw)
          (funct7 raw))

    reg32_arm :
        Agrees ctx satp pc p 4
          (Option.map
            (λ (k : AluKind). alu_reg k (rd raw) (rs1 raw) (rs2 raw))
            (decode_reg32 (funct3 raw) (funct7 raw) (rs2 raw)))
          (exec_reg32 (caught_up ctx pc p) raw pc)
    unfolding exec_reg32 read
    reg32_arm = reg-Agrees word (decode_reg32 (funct3 raw) (funct7 raw) (rs2 raw)) (
        reg32_value-decode (funct3 raw) (funct7 raw) (rs2 raw) (read ctx.regs (rs1 raw))
          (read ctx.regs (rs2 raw)))

    jalr_arm :
        (c : Bool)
        → Agrees ctx satp pc p 4
            (if c then some (Op.jalr (rd raw) (rs1 raw) (imm_i raw)) else none)
            (exec_jalr (caught_up ctx pc p) raw pc)
    jalr_arm true = jalr-Agrees word even
    jalr_arm false = tt

    -- The instruction that `decode_full` gives does in a block what `exec_full` does with the word.
    pub full-Agrees :
        Agrees ctx satp pc p 4 (decode_full raw) (exec_full float_arms (caught_up ctx pc p) raw pc)
    unfolding decode_full exec_full
    full-Agrees = Agrees-if ctx satp pc p 4 (opcode raw == 0x37) _ _ _ _ (lui-Agrees word) (
        Agrees-if ctx satp pc p 4 (opcode raw == 0x17) _ _ _ _ (auipc-Agrees word) (
          Agrees-if ctx satp pc p 4 (opcode raw == 0x6f) _ _ _ _ (jal-Agrees word even) (
            Agrees-if ctx satp pc p 4 (opcode raw == 0x67) _ _ _ _ (jalr_arm (funct3 raw == 0)) (
              Agrees-if ctx satp pc p 4 (opcode raw == 0x63) _ _ _ _ branch_arm (
                Agrees-if ctx satp pc p 4 (opcode raw == 0x03) _ _ _ _
                  (load-Agrees (select load_kinds (funct3 raw)) _)
                  (Agrees-if ctx satp pc p 4 (opcode raw == 0x23) _ _ _ _
                    (store-Agrees (select store_kinds (funct3 raw)) _)
                    (Agrees-if ctx satp pc p 4 (opcode raw == 0x13) _ _ _ _ imm_arm (
                      Agrees-if ctx satp pc p 4 (opcode raw == 0x1b) _ _ _ _ imm32_arm (
                        Agrees-if ctx satp pc p 4 (opcode raw == 0x33) _ _ _ _ reg_arm (
                          Agrees-if ctx satp pc p 4 (opcode raw == 0x3b) _ _ _ _ reg32_arm
                            tt))))))))))
