-- ===== src/RiscvCore/Block/Run.antt =====
-- `exec_block` of crates/riscv-core/src/block.rs: how a decoded block runs, with its loads and stores. A
-- load or a store first tries the page that the unit remembers, whose bytes the bus gives through
-- `page_read` and `page_write`; a null pointer counts as no page.
pub mod Decode
pub mod Bounds
use vpod.Prelude.{
  ℕ, ◌+◌, ◌/◌, ◌%◌, ◌^◌, bit_and, bit_not, Bool, true, false, not, ◌||◌, ◌==◌, ltb, if◌then◌else◌,
  Option, none, some, List, [], ◌∷◌,
}
use vpod.RiscvCore.SystemBus.{ExecBus}
use vpod.RiscvCore.Alu.{alu, byte_as_word, half_as_word, wrapping_add}
use vpod.RiscvCore.Extensions.{sign_extended, less_signed}
use vpod.RiscvCore.Gpr.{read_masked, write_masked}
use vpod.RiscvCore.Mmu.{Translated, MmuFault, mcause, tval, load_fast_lookup, store_fast_lookup}
use vpod.RiscvCore.Mmu.Translate.{store_fast_fill}
use vpod.RiscvCore.Block.{
  Op, lui, auipc, alu_imm, alu_reg, load, store, branch, jal, jalr, fallback, DecodedInsn, Block,
  LoadKind, StoreKind, BranchKind,
}
use vpod.RiscvCore.Execute.{
  StepResult, Context, Outcome, effective_satp, set_pc, add_instret, take_exception, crosses_page,
  load_address, store_address, with_value, with_address, read_at, write_at, load_bytes, store_bytes,
}
use vpod.RiscvCore.Execute.Dispatch.{exec_raw}

abbrev pub load_size : LoadKind → ℕ
load_size LoadKind.lb = 1
load_size LoadKind.lbu = 1
load_size LoadKind.lh = 2
load_size LoadKind.lhu = 2
load_size LoadKind.lw = 4
load_size LoadKind.lwu = 4
load_size LoadKind.ld = 8

abbrev pub store_size : StoreKind → ℕ
store_size StoreKind.sb = 1
store_size StoreKind.sh = 2
store_size StoreKind.sw = 4
store_size StoreKind.sd = 8

unfoldable pub extend_load : LoadKind → ℕ → ℕ
extend_load LoadKind.lb raw = byte_as_word raw
extend_load LoadKind.lbu raw = raw % 2 ^ 8
extend_load LoadKind.lh raw = half_as_word raw
extend_load LoadKind.lhu raw = raw % 2 ^ 16
extend_load LoadKind.lw raw = sign_extended (raw % 2 ^ 32)
extend_load LoadKind.lwu raw = raw % 2 ^ 32
extend_load LoadKind.ld raw = raw

unfoldable pub is_taken : BranchKind → ℕ → ℕ → Bool
is_taken BranchKind.beq a c = a == c
is_taken BranchKind.bne a c = not (a == c)
is_taken BranchKind.blt a c = less_signed 64 a c
is_taken BranchKind.bge a c = not (less_signed 64 a c)
is_taken BranchKind.bltu a c = ltb a c
is_taken BranchKind.bgeu a c = not (ltb a c)

module _ {b : ExecBus} where
  unfoldable pub raw_load : Context b → ℕ → ℕ → ℕ → Translated × Context b
  unfolding load_bytes
  raw_load ctx satp va size =
      if crosses_page va size
      then load_bytes size ctx va satp
      else with_value (load_address ctx va satp) (read_at size)

  -- The page that was written is remembered for the next store.
  abbrev pub filled : Context b → ℕ → ℕ → ℕ → Context b
  filled ctx va satp pa =
      let (mmu, bus) =
        store_fast_fill b.unit ctx.mmu (va / 2 ^ 12) satp pa ctx.blocks.code_generation ctx.bus in
      record ctx { mmu = mmu; bus = bus }

  unfoldable pub raw_store : Context b → ℕ → ℕ → ℕ → ℕ → Option MmuFault × Context b
  unfolding store_bytes
  raw_store ctx satp va val size =
      if crosses_page va size
      then store_bytes size ctx va val satp
      else with_address (store_address ctx va satp) λ pa ctx'.
        let (done, written) = write_at size val pa ctx' in (done, filled written va satp pa)

  abbrev pub entered : Context b → ℕ → MmuFault → Context b
  entered ctx pc f = take_exception (set_pc ctx pc) (mcause f) (tval f)

  -- `Err(())` is `none`.
  abbrev pub extended : LoadKind → ℕ → Translated × Context b → Option ℕ × Context b
  extended kind pc (Translated.fault f, ctx) = (none, entered ctx pc f)
  extended kind pc (Translated.ok raw, ctx) = (some (extend_load kind raw), ctx)

  unfoldable pub do_load_slow : Context b → ℕ → LoadKind → ℕ → ℕ → Option ℕ × Context b
  unfolding raw_load extend_load
  do_load_slow ctx satp kind va pc = extended kind pc (raw_load ctx satp va (load_size kind))

  unfoldable pub do_load : Context b → ℕ → LoadKind → ℕ → ℕ → Option ℕ × Context b
  unfolding do_load_slow
  do_load ctx satp kind va pc =
      let size = load_size kind in
      let slow = do_load_slow ctx satp kind va pc in
      if crosses_page va size
      then slow
      else elim (load_fast_lookup ctx.mmu va satp (b.unit.ram_epoch ctx.bus)) [
        | none ↦ slow
        | some none ↦ slow
        | some (some page) ↦
            (some (extend_load kind (b.page_read ctx.bus page (bit_and va 0xfff) size)), ctx)
      ]

  abbrev pub finished : ℕ → Option MmuFault × Context b → Bool × Context b
  finished pc (some f, ctx) = (false, entered ctx pc f)
  finished pc (none, ctx) = (true, ctx)

  unfoldable pub do_store_slow : Context b → ℕ → ℕ → ℕ → ℕ → ℕ → Bool × Context b
  unfolding raw_store
  do_store_slow ctx satp va val size pc = finished pc (raw_store ctx satp va val size)

  unfoldable pub do_store : Context b → ℕ → StoreKind → ℕ → ℕ → ℕ → Bool × Context b
  unfolding do_store_slow
  do_store ctx satp kind va val pc =
      let size = store_size kind in
      let slow = do_store_slow ctx satp va val size pc in
      let epoch = b.unit.ram_epoch ctx.bus in
      if crosses_page va size
      then slow
      else elim (store_fast_lookup ctx.mmu va satp epoch ctx.blocks.code_generation) [
        | none ↦ slow
        | some none ↦ slow
        | some (some page) ↦
            (true, record ctx { bus = b.page_write ctx.bus page (bit_and va 0xfff) size val })
      ]

-- What an instruction of a block does next: the one behind it, the end of the block after a jump, the
-- end after a fault, or the interpretation of its word.
pub data Flow (b : ExecBus) : Type 0 where
  advance leave faulted : Context b → Flow b
  interpret : ℕ → Flow b

module _ {b : ExecBus} where
  abbrev pub put : Context b → ℕ → ℕ → Flow b
  put ctx rd val = advance (record ctx { regs = write_masked ctx.regs rd val })

  abbrev pub jump : Context b → ℕ → ℕ → ℕ → Flow b
  jump ctx rd link target =
      leave (set_pc (record ctx { regs = write_masked ctx.regs rd link }) target)

  abbrev pub after_load : ℕ → Option ℕ × Context b → Flow b
  after_load rd (some value, ctx) = put ctx rd value
  after_load rd (none, ctx) = faulted ctx

  abbrev pub after_store : Bool × Context b → Flow b
  after_store (true, ctx) = advance ctx
  after_store (false, ctx) = faulted ctx

  unfoldable pub exec_op : Context b → ℕ → Op → ℕ → ℕ → Flow b
  unfolding alu is_taken do_load do_store
  exec_op ctx satp (lui rd imm) pc ilen = put ctx rd imm
  exec_op ctx satp (auipc rd imm) pc ilen = put ctx rd (wrapping_add pc imm)
  exec_op ctx satp (alu_imm kind rd rs1 imm) pc ilen =
      put ctx rd (alu kind (read_masked ctx.regs rs1) imm)
  exec_op ctx satp (alu_reg kind rd rs1 rs2) pc ilen =
      put ctx rd (alu kind (read_masked ctx.regs rs1) (read_masked ctx.regs rs2))
  exec_op ctx satp (load kind rd rs1 imm) pc ilen =
      after_load rd (do_load ctx satp kind (wrapping_add (read_masked ctx.regs rs1) imm) pc)
  exec_op ctx satp (store kind rs1 rs2 imm) pc ilen =
      let va = wrapping_add (read_masked ctx.regs rs1) imm in
      after_store (do_store ctx satp kind va (read_masked ctx.regs rs2) pc)
  exec_op ctx satp (branch kind rs1 rs2 offset) pc ilen =
      if is_taken kind (read_masked ctx.regs rs1) (read_masked ctx.regs rs2)
      then leave (set_pc ctx (wrapping_add pc offset))
      else advance ctx
  exec_op ctx satp (jal rd offset) pc ilen =
      jump ctx rd (wrapping_add pc ilen) (wrapping_add pc offset)
  exec_op ctx satp (jalr rd rs1 imm) pc ilen =
      let target = bit_and (wrapping_add (read_masked ctx.regs rs1) imm) (bit_not 64 1) in
      jump ctx rd (wrapping_add pc ilen) target
  exec_op ctx satp (fallback raw) pc ilen = interpret raw

abbrev pub is_ok : StepResult → Bool
is_ok StepResult.ok = true
is_ok StepResult.halt = false
is_ok (StepResult.trap cause) = false

module _ {b : ExecBus} where
  -- The count of the instructions that retired, with the result.
  abbrev pub after_op :
      Flow b → (Context b → ℕ × Outcome b) → (ℕ → ℕ × Outcome b) → ℕ → ℕ → ℕ × Outcome b
  after_op (advance ctx) next fall_back retired pending = next ctx
  after_op (leave ctx) next fall_back retired pending =
      (retired + 1, (StepResult.ok, add_instret ctx (pending + 1)))
  after_op (faulted ctx) next fall_back retired pending =
      (retired + 1, (StepResult.ok, add_instret ctx pending))
  after_op (interpret raw) next fall_back retired pending = fall_back raw

  -- The block ends behind an instruction that was interpreted, unless it went on to the next one.
  abbrev pub after_fallback :
      Outcome b → ℕ → ℕ → ℕ → (Context b → ℕ → ℕ × Outcome b) → ℕ × Outcome b
  after_fallback (result, ctx) next_pc satp retired next =
      let new_satp = effective_satp ctx.priv_mode ctx.csr.satp in
      let ends =
        not (is_ok result)
        || not (ctx.regs.pc == next_pc)
        || ctx.is_waiting
        || not (new_satp == satp) in
      if ends then (retired, (result, ctx)) else next ctx new_satp

module _ {b : ExecBus} (float_arms : Context b → ℕ → ℕ → Outcome b) where
  -- The loop over the instructions that are left.
  unfoldable pub exec_ops : List DecodedInsn → Context b → ℕ → ℕ → ℕ → ℕ → ℕ → ℕ × Outcome b
  exec_ops [] ctx entry_pc byte_len satp retired pending =
      (retired, (StepResult.ok, add_instret (set_pc ctx (wrapping_add entry_pc byte_len)) pending))
  exec_ops (d ∷ ops) ctx entry_pc byte_len satp retired pending =
      let pc = wrapping_add entry_pc d.pc_off in
      after_op (exec_op ctx satp d.op pc d.ilen)
        (λ ctx'. exec_ops ops ctx' entry_pc byte_len satp (retired + 1) (pending + 1))
        (λ raw.
          after_fallback (exec_raw float_arms (add_instret (set_pc ctx pc) pending) raw pc)
            (wrapping_add pc d.ilen) satp (retired + 1)
            (λ ctx' new_satp. exec_ops ops ctx' entry_pc byte_len new_satp (retired + 1) 0))
        retired pending

  unfoldable pub exec_block : Context b → Block → ℕ → ℕ → ℕ × Outcome b
  unfolding exec_ops exec_op exec_raw
  exec_block ctx block entry_pc satp = exec_ops block.ops ctx entry_pc block.byte_len satp 0 0
