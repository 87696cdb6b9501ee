-- ===== src/RiscvCore/Execute/Compressed.antt =====
-- `exec_compressed` of crates/riscv-core/src/execute.rs: what a 16-bit instruction does on the way on which
-- no block is decoded. Its arms stand by their quadrant.
use Prim.Native.Nat.{bit_xor}
use vpod.Prelude.{
  ℕ, ◌+◌, ◌-◌, ◌/◌, ◌%◌, ◌^◌, bit_and, bit_or, bit_not, shl, not, ◌&&◌, ◌==◌, leb, if◌then◌else◌,
  Option,
}
use vpod.RiscvCore.SystemBus.{ExecBus}
use vpod.RiscvCore.Alu.{as_u32, wrapping_add, wrapping_sub}
use vpod.RiscvCore.Block.Compressed.{field, six_bits}
use vpod.RiscvCore.Decode.{sign_extend, sar64}
use vpod.RiscvCore.Extensions.{sign_extended}
use vpod.RiscvCore.Gpr.{read, read_f, write_f}
use vpod.RiscvCore.Mmu.{Translated, MmuFault}
use vpod.RiscvCore.Trap.{breakpoint}
use vpod.RiscvCore.Execute.{
  StepResult, Context, Outcome, effective_satp, set_pc, set_reg, retire, illegal, load_address,
  store_address, with_value, with_address, read_at, write_at, load_bytes, store_bytes, when_loaded,
  when_stored,
}

-- `rp!`: a register of the short fields.
abbrev pub rp : ℕ → ℕ
rp bits = bit_and bits 0x7 + 8

unfoldable pub c_j_imm : ℕ → ℕ
c_j_imm raw =
    sign_extend
      (bit_or
        (bit_or
          (bit_or
            (bit_or
              (bit_or (bit_or (bit_or (field raw 12 1 11) (field raw 11 1 4)) (field raw 9 3 8))
                (field raw 8 1 10))
              (field raw 7 1 6))
            (field raw 6 1 7))
          (field raw 3 7 1))
        (field raw 2 1 5))
      12

unfoldable pub c_b_imm : ℕ → ℕ
c_b_imm raw =
    sign_extend
      (bit_or
        (bit_or (bit_or (bit_or (field raw 12 1 8) (field raw 10 3 3)) (field raw 5 3 6))
          (field raw 3 3 1))
        (field raw 2 1 5))
      9

module _ {b : ExecBus} where
  -- A doubleword, byte by byte where it crosses a page boundary; a word has no such test.
  unfoldable pub cross_page_load_dw : Context b → ℕ → ℕ → Translated × Context b
  unfolding load_bytes
  cross_page_load_dw ctx va satp =
      if leb (bit_and va 0xfff) 0xff8
      then with_value (load_address ctx va satp) (read_at 8)
      else load_bytes 8 ctx va satp

  unfoldable pub cross_page_store_dw : Context b → ℕ → ℕ → ℕ → Option MmuFault × Context b
  unfolding store_bytes
  cross_page_store_dw ctx va val satp =
      if leb (bit_and va 0xfff) 0xff8
      then with_address (store_address ctx va satp) (write_at 8 val)
      else store_bytes 8 ctx va val satp

  -- The end of each arm: `pc.wrapping_add(2)`.
  abbrev pub next : Context b → ℕ → Outcome b
  next ctx pc = retire (set_pc ctx ((pc + 2) % 2 ^ 64))

  abbrev pub load_word_into : Context b → ℕ → ℕ → Outcome b
  load_word_into ctx rd va =
      let satp = effective_satp ctx.priv_mode ctx.csr.satp in
      when_loaded (with_value (load_address ctx va satp) (read_at 4))
        λ value ctx'. next (set_reg ctx' rd (sign_extended value)) ctx.regs.pc

  abbrev pub load_dw_into : Context b → ℕ → ℕ → Outcome b
  load_dw_into ctx rd va =
      when_loaded (cross_page_load_dw ctx va (effective_satp ctx.priv_mode ctx.csr.satp))
        λ value ctx'. next (set_reg ctx' rd value) ctx.regs.pc

  abbrev pub load_float_into : Context b → ℕ → ℕ → Outcome b
  load_float_into ctx rd va =
      when_loaded (cross_page_load_dw ctx va (effective_satp ctx.priv_mode ctx.csr.satp))
        λ value ctx'. next (record ctx' { regs = write_f ctx'.regs rd value }) ctx.regs.pc

  abbrev pub store_word_of : Context b → ℕ → ℕ → Outcome b
  store_word_of ctx val va =
      let satp = effective_satp ctx.priv_mode ctx.csr.satp in
      when_stored (with_address (store_address ctx va satp) (write_at 4 val))
        λ ctx'. next ctx' ctx.regs.pc

  abbrev pub store_dw_of : Context b → ℕ → ℕ → Outcome b
  store_dw_of ctx val va =
      when_stored (cross_page_store_dw ctx va val (effective_satp ctx.priv_mode ctx.csr.satp))
        λ ctx'. next ctx' ctx.regs.pc

  unfoldable pub exec_quadrant_0 : Context b → ℕ → ℕ → Outcome b
  unfolding cross_page_load_dw cross_page_store_dw write_f read_f
  exec_quadrant_0 ctx raw funct =
      let words = bit_or (bit_or (field raw 6 1 2) (field raw 10 0x7 3)) (field raw 5 1 6) in
      let doublewords = bit_or (field raw 10 0x7 3) (field raw 5 0x3 6) in
      let nzuimm =
        bit_or (bit_or (bit_or (field raw 6 1 2) (field raw 5 1 3)) (field raw 11 0x3 4))
          (field raw 7 0xf 6) in
      let low = rp (raw / 2 ^ 2) in
      let base = read ctx.regs (rp (raw / 2 ^ 7)) in
      if funct == 0x0
      then (if nzuimm == 0
          then illegal raw ctx
          else next (set_reg ctx low (wrapping_add (read ctx.regs 2) nzuimm)) ctx.regs.pc)
      else if funct == 0x2
      then load_word_into ctx low (wrapping_add base words)
      else if funct == 0x3
      then load_dw_into ctx low (wrapping_add base doublewords)
      else if funct == 0x6
      then store_word_of ctx (read ctx.regs low) (wrapping_add base words)
      else if funct == 0x7
      then store_dw_of ctx (read ctx.regs low) (wrapping_add base doublewords)
      else if funct == 0x1
      then load_float_into ctx low (wrapping_add base doublewords)
      else if funct == 0x5
      then store_dw_of ctx (read_f ctx.regs low) (wrapping_add base doublewords)
      else illegal raw ctx

  -- The arm (1, 0x4).
  unfoldable pub exec_arithmetic : Context b → ℕ → Outcome b
  exec_arithmetic ctx raw =
      let rd = rp (raw / 2 ^ 7) in
      let a = read ctx.regs rd in
      let c = read ctx.regs (rp (raw / 2 ^ 2)) in
      let shamt = six_bits raw in
      let high = bit_and (raw / 2 ^ 12) 1 in
      let low = bit_and (raw / 2 ^ 5) 0x3 in
      let put : ℕ → Outcome b = λ val. next (set_reg ctx rd val) ctx.regs.pc in
      if bit_and (raw / 2 ^ 10) 0x3 == 0x0
      then put (a / 2 ^ shamt)
      else if bit_and (raw / 2 ^ 10) 0x3 == 0x1
      then put (sar64 a shamt)
      else if bit_and (raw / 2 ^ 10) 0x3 == 0x2
      then put (bit_and a (sign_extend (six_bits raw) 6))
      else if high == 0 && low == 0x0
      then put (wrapping_sub a c)
      else if high == 0 && low == 0x1
      then put (bit_xor a c)
      else if high == 0 && low == 0x2
      then put (bit_or a c)
      else if high == 0 && low == 0x3
      then put (bit_and a c)
      else if high == 1 && low == 0x0
      then put (sign_extended ((as_u32 a + 2 ^ 32 - as_u32 c) % 2 ^ 32))
      else if high == 1 && low == 0x1
      then put (sign_extended ((as_u32 a + as_u32 c) % 2 ^ 32))
      else illegal raw ctx

  unfoldable pub exec_quadrant_1 : Context b → ℕ → ℕ → Outcome b
  unfolding c_j_imm c_b_imm exec_arithmetic
  exec_quadrant_1 ctx raw funct =
      let pc = ctx.regs.pc in
      let rd = bit_and (raw / 2 ^ 7) 0x1f in
      let imm = sign_extend (six_bits raw) 6 in
      let stack_imm =
        bit_or
          (bit_or (bit_or (bit_or (field raw 12 1 9) (field raw 6 1 4)) (field raw 5 1 6))
            (field raw 3 3 7))
          (field raw 2 1 5) in
      let upper_imm = bit_or (field raw 12 1 17) (field raw 2 0x1f 12) in
      let a = read ctx.regs (rp (raw / 2 ^ 7)) in
      if funct == 0x0
      then next (set_reg ctx rd (wrapping_add (read ctx.regs rd) imm)) pc
      else if funct == 0x1
      then next (set_reg ctx rd (sign_extended (as_u32 (wrapping_add (read ctx.regs rd) imm)))) pc
      else if funct == 0x2
      then next (set_reg ctx rd imm) pc
      else if funct == 0x3
      then (if rd == 2
          then next (set_reg ctx 2 (wrapping_add (read ctx.regs 2) (sign_extend stack_imm 10))) pc
          else next (set_reg ctx rd (sign_extend upper_imm 18)) pc)
      else if funct == 0x4
      then exec_arithmetic ctx raw
      else if funct == 0x5
      then retire (set_pc ctx (wrapping_add pc (c_j_imm raw)))
      else if funct == 0x6
      then (if a == 0 then retire (set_pc ctx (wrapping_add pc (c_b_imm raw))) else next ctx pc)
      else if funct == 0x7
      then (if not (a == 0)
          then retire (set_pc ctx (wrapping_add pc (c_b_imm raw)))
          else next ctx pc)
      else illegal raw ctx

  -- The arm (2, 0x4).
  unfoldable pub exec_register_pair : Context b → ℕ → Outcome b
  exec_register_pair ctx raw =
      let pc = ctx.regs.pc in
      let rd = bit_and (raw / 2 ^ 7) 0x1f in
      let rs2 = bit_and (raw / 2 ^ 2) 0x1f in
      let target = bit_and (read ctx.regs rd) (bit_not 64 1) in
      if bit_and (raw / 2 ^ 12) 1 == 0
      then (if rs2 == 0
          then retire (set_pc ctx target)
          else next (set_reg ctx rd (read ctx.regs rs2)) pc)
      else if rd == 0 && rs2 == 0
      then (StepResult.trap breakpoint, set_pc ctx ((pc + 2) % 2 ^ 64))
      else if rs2 == 0
      then retire (set_pc (set_reg ctx 1 ((pc + 2) % 2 ^ 64)) target)
      else next (set_reg ctx rd (wrapping_add (read ctx.regs rd) (read ctx.regs rs2))) pc

  unfoldable pub exec_quadrant_2 : Context b → ℕ → ℕ → Outcome b
  unfolding cross_page_load_dw cross_page_store_dw exec_register_pair write_f read_f
  exec_quadrant_2 ctx raw funct =
      let pc = ctx.regs.pc in
      let rd = bit_and (raw / 2 ^ 7) 0x1f in
      let rs2 = bit_and (raw / 2 ^ 2) 0x1f in
      let words = bit_or (bit_or (field raw 12 1 5) (field raw 4 0x7 2)) (field raw 2 0x3 6) in
      let doublewords =
        bit_or (bit_or (field raw 12 1 5) (field raw 5 0x3 3)) (field raw 2 0x7 6) in
      let stored = bit_or (field raw 10 0x7 3) (field raw 7 0x7 6) in
      let stack = read ctx.regs 2 in
      if funct == 0x0
      then next (set_reg ctx rd (shl (read ctx.regs rd) (six_bits raw))) pc
      else if funct == 0x2
      then load_word_into ctx rd (wrapping_add stack words)
      else if funct == 0x3
      then load_dw_into ctx rd (wrapping_add stack doublewords)
      else if funct == 0x4
      then exec_register_pair ctx raw
      else if funct == 0x6
      then store_word_of ctx (read ctx.regs rs2)
          (wrapping_add stack (bit_or (field raw 9 0xf 2) (field raw 7 0x3 6)))
      else if funct == 0x7
      then store_dw_of ctx (read ctx.regs rs2) (wrapping_add stack stored)
      else if funct == 0x1
      then load_float_into ctx rd (wrapping_add stack doublewords)
      else if funct == 0x5
      then store_dw_of ctx (read_f ctx.regs rs2) (wrapping_add stack stored)
      else illegal raw ctx

  unfoldable pub exec_compressed : Context b → ℕ → Outcome b
  unfolding exec_quadrant_0 exec_quadrant_1 exec_quadrant_2
  exec_compressed ctx raw =
      let quad = bit_and raw 0x3 in
      let funct = raw / 2 ^ 13 in
      if quad == 0
      then exec_quadrant_0 ctx raw funct
      else if quad == 1
      then exec_quadrant_1 ctx raw funct
      else if quad == 2
      then exec_quadrant_2 ctx raw funct
      else illegal raw ctx
