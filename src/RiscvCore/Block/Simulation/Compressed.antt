-- ===== src/RiscvCore/Block/Simulation/Compressed.antt =====
-- The 16-bit instructions: `decode_compressed` and a block of crates/riscv-core/src/block.rs against
-- `exec_compressed` of crates/riscv-core/src/execute.rs.
use native.Mathlib.Nat.{div-le_self}
use vpod.Prelude.{
  ℕ, ◌+◌, ◌-◌, ◌/◌, ◌%◌, ◌^◌, ◌≤◌, ◌<◌, bit_and, bit_or, bit_not, shl, ◌&&◌, ◌==◌, ◌≡◌, refl, ap,
  ap₂, sym, ◌∙◌, subst, arith,
}
use vpod.Bits.{and_le_right, or-lt}
use vpod.Bits.Masks.{and-mask}
use vpod.RiscvCore.SystemBus.{ExecBus}
use vpod.RiscvCore.Alu.{AluKind, alu, wrapping_add}
use vpod.RiscvCore.Decode.{
  sign_extend, sar64, quadrant, compressed_funct3, rs1_prime, rs2_prime, compressed_rd,
  compressed_rs2,
}
use vpod.RiscvCore.Extensions.{sign_extended}
use vpod.RiscvCore.Gpr.{read, read_masked, write}
use vpod.RiscvCore.Block.{BranchKind}
use vpod.RiscvCore.Block.Compressed.{
  field, six_bits, decode_quadrant_0, decode_quadrant_1, decode_quadrant_2, decode_arithmetic,
  decode_register_pair, decode_compressed,
}
use vpod.RiscvCore.Block.Run.{put, exec_op, is_taken}
use vpod.RiscvCore.Block.Simulation.{
  IsValid, read_masked-read, Settles, caught_up, Agrees, Agrees-if, put-Settles, is_register,
}
use vpod.RiscvCore.Block.Simulation.Words.{branch-Settles}
use vpod.RiscvCore.Execute.{Context, Outcome, retire, set_pc, set_reg}
use vpod.RiscvCore.Execute.Compressed.{
  rp, next, c_j_imm, c_b_imm, exec_quadrant_0, exec_quadrant_1, exec_quadrant_2, exec_arithmetic,
  exec_register_pair, exec_compressed,
}

pub sign_extend-lt : (val bits : ℕ) → sign_extend val bits < 2 ^ 64
unfolding sign_extend
sign_extend-lt val bits = ground (arith, div-le_self (shl val (64 - bits)) (2 ^ (64 - bits)))

pub masked-lt : (raw k m : ℕ) → raw < 2 ^ 16 → bit_and (raw / 2 ^ k) m ≤ m
masked-lt raw k m h = and_le_right 16 (raw / 2 ^ k) m (omega (arith, div-le_self raw (2 ^ k)))

pub six_bits-lt : (raw : ℕ) → raw < 2 ^ 16 → six_bits raw < 2 ^ 6
six_bits-lt raw h =
    or-lt 6 (field raw 12 1 5) (field raw 2 0x1f 0) (omega (arith, masked-lt raw 12 1 h))
      (omega (arith, masked-lt raw 2 0x1f h))

-- A shift by six bits takes them all.
shift_amount : (raw : ℕ) → raw < 2 ^ 16 → bit_and (six_bits raw) 0x3f ≡ six_bits raw
shift_amount raw h =
    let small = six_bits-lt raw h in and-mask 64 6 (six_bits raw) (omega arith) ∙ omega arith

add_word : (a imm : ℕ) → (a % 2 ^ 32 + imm % 2 ^ 32) % 2 ^ 32 ≡ (a + imm) % 2 ^ 64 % 2 ^ 32
add_word a imm = omega arith

module _ {b : ExecBus} (ctx : Context b) (satp pc p raw : ℕ) (v : IsValid ctx.regs)
    (word : raw < 2 ^ 16) where
  short_value : (k : ℕ) → read_masked ctx.regs (rp (raw / 2 ^ k)) ≡ read ctx.regs (rp (raw / 2 ^ k))
  short_value k =
      read_masked-read ctx.regs (rp (raw / 2 ^ k)) v.hardwired
        (omega (arith, masked-lt raw k 0x7 word))

  long_value :
      (k : ℕ)
      → read_masked ctx.regs (bit_and (raw / 2 ^ k) 0x1f)
        ≡ read ctx.regs (bit_and (raw / 2 ^ k) 0x1f)
  long_value k =
      read_masked-read ctx.regs (bit_and (raw / 2 ^ k) 0x1f) v.hardwired
        (omega (arith, masked-lt raw k 0x1f word))

  zero_value : read_masked ctx.regs 0 ≡ 0
  unfolding read_masked
  zero_value = v.hardwired

  read-lt : (r : ℕ) → read ctx.regs r < 2 ^ 64
  unfolding read
  read-lt r = ground (arith, v.words r)

  short-lt : (k : ℕ) → rp (raw / 2 ^ k) < 32
  short-lt k = omega (arith, masked-lt raw k 0x7 word)

  long-lt : (k : ℕ) → bit_and (raw / 2 ^ k) 0x1f < 32
  long-lt k = omega (arith, masked-lt raw k 0x1f word)

  -- A register is written, and the next instruction follows.
  put_next :
      (rd : ℕ) {val val' : ℕ}
      → rd < 32
      → val ≡ val'
      → Settles
          (put ctx rd val)
          ((pc + 2) % 2 ^ 64)
          p
          (next (set_reg (caught_up ctx pc p) rd val') pc)
  put_next rd h e = put-Settles ctx rd pc p ((pc + 2) % 2 ^ 64) v.hardwired h e

  stack_value : read_masked ctx.regs 2 ≡ read ctx.regs 2
  stack_value = read_masked-read ctx.regs 2 v.hardwired (omega arith)

  quadrant_0-Agrees :
      (funct : ℕ)
      → Agrees ctx satp pc p 2
          (decode_quadrant_0 raw funct)
          (exec_quadrant_0 (caught_up ctx pc p) raw funct)
  unfolding decode_quadrant_0 exec_quadrant_0 exec_op is_register rs2_prime read
  quadrant_0-Agrees funct =
      let nzuimm =
        bit_or (bit_or (bit_or (field raw 6 1 2) (field raw 5 1 3)) (field raw 11 0x3 4))
          (field raw 7 0xf 6) in
      Agrees-if ctx satp pc p 2 (funct == 0x0) _ _ _ _
        (Agrees-if ctx satp pc p 2 (nzuimm == 0) _ _ _ _ tt (λ _.
          put_next (rp (raw / 2 ^ 2)) (short-lt 2)
            (ap (λ (a : ℕ). wrapping_add a nzuimm) stack_value)))
        (Agrees-if ctx satp pc p 2 (funct == 0x2) _ _ _ _ (λ h. cc)
          (Agrees-if ctx satp pc p 2 (funct == 0x3) _ _ _ _ (λ h. cc)
            (Agrees-if ctx satp pc p 2 (funct == 0x6) _ _ _ _ (λ h. cc)
              (Agrees-if ctx satp pc p 2 (funct == 0x7) _ _ _ _ (λ h. cc) tt))))

  arithmetic-Agrees :
      Agrees ctx satp pc p 2 (decode_arithmetic raw) (exec_arithmetic (caught_up ctx pc p) raw)
  unfolding decode_arithmetic exec_arithmetic exec_op is_register rs1_prime rs2_prime read alu
  arithmetic-Agrees =
      let shamt = shift_amount raw word in
      let first = short_value 7 in
      let second = short_value 2 in
      let chosen = bit_and (raw / 2 ^ 10) 0x3 in
      let high = bit_and (raw / 2 ^ 12) 1 in
      let low = bit_and (raw / 2 ^ 5) 0x3 in
      Agrees-if ctx satp pc p 2 (chosen == 0x0) _ _ _ _
        (λ _. put_next _ (short-lt 7) (ap₂ (λ (a k : ℕ). a / 2 ^ k) first shamt))
        (Agrees-if ctx satp pc p 2 (chosen == 0x1) _ _ _ _
          (λ _. put_next _ (short-lt 7) (ap₂ (λ (a k : ℕ). sar64 a k) first shamt))
          (Agrees-if ctx satp pc p 2 (chosen == 0x2) _ _ _ _
            (λ _.
              put_next _ (short-lt 7)
                (ap (λ (a : ℕ). bit_and a (sign_extend (six_bits raw) 6)) first))
            (Agrees-if ctx satp pc p 2 (high == 0 && low == 0x0) _ _ _ _
              (λ _. put_next _ (short-lt 7) (ap₂ (alu AluKind.sub) first second))
              (Agrees-if ctx satp pc p 2 (high == 0 && low == 0x1) _ _ _ _
                (λ _. put_next _ (short-lt 7) (ap₂ (alu AluKind.xor) first second))
                (Agrees-if ctx satp pc p 2 (high == 0 && low == 0x2) _ _ _ _
                  (λ _. put_next _ (short-lt 7) (ap₂ (alu AluKind.or) first second))
                  (Agrees-if ctx satp pc p 2 (high == 0 && low == 0x3) _ _ _ _
                    (λ _. put_next _ (short-lt 7) (ap₂ (alu AluKind.and) first second))
                    (Agrees-if ctx satp pc p 2 (high == 1 && low == 0x0) _ _ _ _
                      (λ _. put_next _ (short-lt 7) (ap₂ (alu AluKind.subw) first second))
                      (Agrees-if ctx satp pc p 2 (high == 1 && low == 0x1) _ _ _ _
                        (λ _. put_next _ (short-lt 7) (ap₂ (alu AluKind.addw) first second))
                        tt))))))))

  quadrant_1-Agrees :
      (funct : ℕ)
      → Agrees ctx satp pc p 2
          (decode_quadrant_1 raw funct)
          (exec_quadrant_1 (caught_up ctx pc p) raw funct)
  unfolding decode_quadrant_1 exec_quadrant_1 exec_op rs1_prime compressed_rd read alu is_taken
      write c_j_imm c_b_imm
  quadrant_1-Agrees funct =
      let imm = sign_extend (six_bits raw) 6 in
      let own = long_value 7 in
      let stack_imm =
        bit_or
          (bit_or (bit_or (bit_or (field raw 12 1 9) (field raw 6 1 4)) (field raw 5 1 6))
            (field raw 3 3 7))
          (field raw 2 1 5) in
      Agrees-if ctx satp pc p 2 (funct == 0x0) _ _ _ _
        (λ _. put_next _ (long-lt 7) (ap (λ (a : ℕ). wrapping_add a imm) own))
        (Agrees-if ctx satp pc p 2 (funct == 0x1) _ _ _ _
          (λ _.
            put_next _ (long-lt 7)
              (ap (λ (a : ℕ). alu AluKind.addw a imm) own ∙ ap sign_extended (add_word _ imm)))
          (Agrees-if ctx satp pc p 2 (funct == 0x2) _ _ _ _
            (λ _. put_next _ (long-lt 7) (
              ap (λ (a : ℕ). wrapping_add a imm) zero_value
              ∙ omega (arith, sign_extend-lt (six_bits raw) 6)))
            (Agrees-if ctx satp pc p 2 (funct == 0x3) _ _ _ _
              (Agrees-if ctx satp pc p 2 (bit_and (raw / 2 ^ 7) 0x1f == 2) _ _ _ _
                (λ _.
                  put_next 2 (omega arith)
                    (ap (λ (a : ℕ). wrapping_add a (sign_extend stack_imm 10)) stack_value))
                (λ _. put_next _ (long-lt 7) refl))
              (Agrees-if ctx satp pc p 2 (funct == 0x4) _ _ _ _ arithmetic-Agrees (
                Agrees-if ctx satp pc p 2 (funct == 0x5) _ _ _ _
                  (λ _. put-Settles ctx 0 pc p _ v.hardwired (omega arith) refl)
                  (Agrees-if ctx satp pc p 2 (funct == 0x6) _ _ _ _
                    (λ _.
                      branch-Settles ctx pc p _ _
                        (ap₂ (is_taken BranchKind.beq) (short_value 7) zero_value) refl)
                    (Agrees-if ctx satp pc p 2 (funct == 0x7) _ _ _ _
                      (λ _.
                        branch-Settles ctx pc p _ _
                          (ap₂ (is_taken BranchKind.bne) (short_value 7) zero_value) refl)
                      tt)))))))

  register_pair-Agrees :
      Agrees ctx satp pc p 2
        (decode_register_pair raw)
        (exec_register_pair (caught_up ctx pc p) raw)
  unfolding decode_register_pair exec_register_pair exec_op compressed_rd compressed_rs2 read write
      alu
  register_pair-Agrees =
      let own = long_value 7 in
      let other = long_value 2 in
      let rd = bit_and (raw / 2 ^ 7) 0x1f in
      let rs2 = bit_and (raw / 2 ^ 2) 0x1f in
      let moved = read-lt (bit_and (raw / 2 ^ 2) 0x1f) in
      let base : wrapping_add (read_masked ctx.regs rd) 0 ≡ read ctx.regs rd =
        ap (λ (a : ℕ). wrapping_add a 0) own ∙ omega (arith, read-lt rd) in
      let jumped : ℕ → ℕ → Outcome b = λ link_register target. retire (
        set_pc (set_reg (caught_up ctx pc p) link_register ((pc + 2) % 2 ^ 64))
          (bit_and target (bit_not 64 1))) in
      Agrees-if ctx satp pc p 2 (bit_and (raw / 2 ^ 12) 1 == 0) _ _ _ _
        (Agrees-if ctx satp pc p 2 (rs2 == 0) _ _ _ _
          (λ _. put-Settles ctx 0 pc p _ v.hardwired (omega arith) refl ∙ ap (jumped 0) base)
          (λ _. put_next rd (long-lt 7) (ap₂ wrapping_add zero_value other ∙ omega arith)))
        (Agrees-if ctx satp pc p 2 (rd == 0 && rs2 == 0) _ _ _ _ tt (
          Agrees-if ctx satp pc p 2 (rs2 == 0) _ _ _ _
            (λ _. put-Settles ctx 1 pc p _ v.hardwired (omega arith) refl ∙ ap (jumped 1) base)
            (λ _. put_next rd (long-lt 7) (ap₂ wrapping_add own other))))

  quadrant_2-Agrees :
      (funct : ℕ)
      → Agrees ctx satp pc p 2
          (decode_quadrant_2 raw funct)
          (exec_quadrant_2 (caught_up ctx pc p) raw funct)
  unfolding decode_quadrant_2 exec_quadrant_2 exec_op is_register compressed_rd read alu
  quadrant_2-Agrees funct =
      Agrees-if ctx satp pc p 2 (funct == 0x0) _ _ _ _
        (λ _. put_next _ (long-lt 7) (ap₂ shl (long_value 7) (shift_amount raw word)))
        (Agrees-if ctx satp pc p 2 (funct == 0x2) _ _ _ _ (λ h. cc)
          (Agrees-if ctx satp pc p 2 (funct == 0x3) _ _ _ _ (λ h. cc)
            (Agrees-if ctx satp pc p 2 (funct == 0x4) _ _ _ _ register_pair-Agrees (
              Agrees-if ctx satp pc p 2 (funct == 0x6) _ _ _ _ (λ h. cc)
                (Agrees-if ctx satp pc p 2 (funct == 0x7) _ _ _ _ (λ h. cc) tt)))))

  -- The instruction that `decode_compressed` gives does in a block what `exec_compressed` does with the
  -- halfword.
  pub compressed-Agrees :
      Agrees ctx satp pc p 2 (decode_compressed raw) (exec_compressed (caught_up ctx pc p) raw)
  unfolding decode_compressed exec_compressed quadrant compressed_funct3
  compressed-Agrees =
      let funct : bit_and (raw / 2 ^ 13) 0x7 ≡ raw / 2 ^ 13 =
        and-mask 16 3 (raw / 2 ^ 13) (omega arith) ∙ omega arith in
      Agrees-if ctx satp pc p 2 (bit_and raw 0x3 == 0) _ _ _ _
        (subst
          (λ (f : ℕ).
            Agrees ctx satp pc p 2 (decode_quadrant_0 raw f)
              (exec_quadrant_0 (caught_up ctx pc p) raw (raw / 2 ^ 13)))
          (sym funct) (quadrant_0-Agrees (raw / 2 ^ 13)))
        (Agrees-if ctx satp pc p 2 (bit_and raw 0x3 == 1) _ _ _ _
          (subst
            (λ (f : ℕ).
              Agrees ctx satp pc p 2 (decode_quadrant_1 raw f)
                (exec_quadrant_1 (caught_up ctx pc p) raw (raw / 2 ^ 13)))
            (sym funct) (quadrant_1-Agrees (raw / 2 ^ 13)))
          (Agrees-if ctx satp pc p 2 (bit_and raw 0x3 == 2) _ _ _ _
            (subst
              (λ (f : ℕ).
                Agrees ctx satp pc p 2 (decode_quadrant_2 raw f)
                  (exec_quadrant_2 (caught_up ctx pc p) raw (raw / 2 ^ 13)))
              (sym funct) (quadrant_2-Agrees (raw / 2 ^ 13)))
            tt))
