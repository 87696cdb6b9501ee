-- ===== src/RiscvCore/Execute/Dispatch.antt =====
-- `exec_full`, `exec_raw` and `step` of crates/riscv-core/src/execute.rs. The arms of the
-- floating-point instructions (`load_fp`, `store_fp`, `op_fp` and `fma`) are a parameter, as a function of the
-- state, the word and the program counter.
use vpod.Prelude.{
  ℕ, ◌+◌, ◌-◌, ◌*◌, ◌/◌, ◌%◌, ◌^◌, bit_and, bit_or, bit_not, shl, Bool, false, not, ◌||◌, ◌==◌,
  if◌then◌else◌, Option, none, some,
}
use vpod.RiscvCore.SystemBus.{ExecBus}
use vpod.RiscvCore.Csr.Interrupts.{pending_interrupt}
use vpod.RiscvCore.Decode.{opcode}
use vpod.RiscvCore.FetchTlb
use vpod.RiscvCore.Mmu.{Translated}
use vpod.RiscvCore.Mmu.Translate.{translate_fetch}
use vpod.RiscvCore.Trap
use vpod.RiscvCore.Trap.{
  TrapCause, instruction_address_misaligned, illegal_instruction, breakpoint,
  load_address_misaligned, store_address_misaligned, ecall_from_u_mode, ecall_from_s_mode,
  ecall_from_m_mode,
}
use vpod.RiscvCore.Execute.{
  StepResult, Context, Outcome, effective_satp, illegal, take_exception, trap_from_mmu, read_bus,
}
use vpod.RiscvCore.Execute.Integer.{
  exec_lui, exec_auipc, exec_jal, exec_jalr, exec_branch, exec_load, exec_store, exec_imm,
  exec_imm32, exec_reg, exec_reg32, exec_fence,
}
use vpod.RiscvCore.Execute.Compressed.{exec_compressed}
use vpod.RiscvCore.Execute.Atomic.{exec_amo}
use vpod.RiscvCore.Execute.System.{exec_system}

-- The cause and the value of a trap that `exec_raw` enters itself.
unfoldable pub entered_trap : TrapCause → ℕ → Option (ℕ × ℕ)
entered_trap (illegal_instruction encoding) pc = some (2, encoding)
entered_trap instruction_address_misaligned pc = some (0, pc)
entered_trap load_address_misaligned pc = some (4, 0)
entered_trap store_address_misaligned pc = some (6, 0)
entered_trap breakpoint pc = some (3, pc)
entered_trap ecall_from_u_mode pc = none
entered_trap ecall_from_s_mode pc = none
entered_trap ecall_from_m_mode pc = none

abbrev pub irq_sei : ℕ
irq_sei = 9

abbrev pub irq_mei : ℕ
irq_mei = 11

abbrev pub is_float : ℕ → Bool
is_float op =
    op == 0x07 || op == 0x27 || op == 0x53 || op == 0x43 || op == 0x47 || op == 0x4b || op == 0x4f

module _ {b : ExecBus} where
  -- A trap is entered here, but for one whose cause the `match` does not name.
  abbrev pub entering : ℕ → Outcome b → Outcome b
  entering pc (StepResult.ok, ctx) = (StepResult.ok, ctx)
  entering pc (StepResult.halt, ctx) = (StepResult.halt, ctx)
  entering pc (StepResult.trap cause, ctx) = elim (entered_trap cause pc) [
    | none ↦ (StepResult.trap cause, ctx)
    | some (code, tval) ↦ (StepResult.ok, take_exception ctx code tval)
  ]

module _ {b : ExecBus} (float_arms : Context b → ℕ → ℕ → Outcome b) where
  unfoldable pub exec_full : Context b → ℕ → ℕ → Outcome b
  exec_full ctx raw pc =
      if opcode raw == 0x37
      then exec_lui ctx raw pc
      else if opcode raw == 0x17
      then exec_auipc ctx raw pc
      else if opcode raw == 0x6f
      then exec_jal ctx raw pc
      else if opcode raw == 0x67
      then exec_jalr ctx raw pc
      else if opcode raw == 0x63
      then exec_branch ctx raw pc
      else if opcode raw == 0x03
      then exec_load ctx raw pc
      else if opcode raw == 0x23
      then exec_store ctx raw pc
      else if opcode raw == 0x13
      then exec_imm ctx raw pc
      else if opcode raw == 0x1b
      then exec_imm32 ctx raw pc
      else if opcode raw == 0x33
      then exec_reg ctx raw pc
      else if opcode raw == 0x3b
      then exec_reg32 ctx raw pc
      else if opcode raw == 0x2f
      then exec_amo ctx raw
      else if opcode raw == 0x0f
      then exec_fence ctx raw pc
      else if opcode raw == 0x73
      then exec_system ctx raw
      else if is_float (opcode raw)
      then float_arms ctx raw pc
      else illegal raw ctx

  unfoldable pub exec_raw : Context b → ℕ → ℕ → Outcome b
  unfolding exec_full entered_trap
  exec_raw ctx raw pc = entering pc (
      if not (bit_and raw 0x3 == 0x3)
      then exec_compressed ctx (raw % 2 ^ 16)
      else exec_full ctx raw pc)

  abbrev pub fetched : Translated × Context b → ℕ → ℕ → (ℕ → Context b → Outcome b) → Outcome b
  fetched (Translated.fault f, ctx) pc satp next = trap_from_mmu ctx f
  fetched (Translated.ok pa, ctx) pc satp next =
      next pa
        (record ctx { fetch_tlb = FetchTlb.insert ctx.fetch_tlb (pc / 2 ^ 12) (pa / 2 ^ 12) satp })

  abbrev pub fetch_address : Context b → ℕ → ℕ → Translated × Context b
  fetch_address ctx va satp =
      let (translated, mmu, bus) = translate_fetch b.unit ctx.mmu va satp ctx.bus in
      (translated, record ctx { mmu = mmu; bus = bus })

  -- The address of the instruction, from the table of fetched pages or the unit.
  unfoldable pub fetch_page : Context b → ℕ → (ℕ → Context b → Outcome b) → Outcome b
  fetch_page ctx satp next =
      let pc = ctx.regs.pc in
      elim (FetchTlb.lookup ctx.fetch_tlb (pc / 2 ^ 12) satp) [
        | some ppage ↦ next (bit_or (shl ppage 12) (bit_and pc 0xfff)) ctx
        | none ↦ fetched (fetch_address ctx pc satp) pc satp next
      ]

  abbrev pub icache_index : ℕ → ℕ
  icache_index pa = bit_and (pa / 2) (4096 - 1)

  -- An instruction in the last two bytes of its page may end in the next one; any other is read through
  -- the cache of instructions.
  unfoldable pub fetch_encoding : Context b → ℕ → ℕ → (ℕ → Context b → Outcome b) → Outcome b
  fetch_encoding ctx satp pa next =
      let pc = ctx.regs.pc in
      let (lo, ctx') = read_bus ctx 2 pa in
      let index = icache_index pa in
      let tag = pa / 2 ^ 13 in
      let (w, read) = read_bus ctx 4 pa in
      let filled : Context b = record read {
        icache_tags = λ i. if i == index then tag else ctx.icache_tags i;
        icache_data = λ i. if i == index then w else ctx.icache_data i;
      } in
      if bit_and pa 0xfff == 0xffe
      then (if not (bit_and lo 0x3 == 0x3)
          then next lo ctx'
          else let next_pc = (pc + 2) % 2 ^ 64 in
            fetched (fetch_address ctx' next_pc satp) next_pc satp λ next_pa ctx''.
              let (hi, ctx''') = read_bus ctx'' 2 next_pa in next (bit_or lo (hi * 2 ^ 16)) ctx''')
      else if ctx.icache_tags index == tag
      then next (ctx.icache_data index) ctx
      else next w filled

  -- What becomes of the interrupt that is pending: its line is found to be low, or it is taken.
  abbrev pub settle_interrupt :
      Context b → ℕ → (Context b → Outcome b) → (Context b → Outcome b) → Outcome b
  settle_interrupt ctx irq stale taken =
      let cleared : ℕ → Context b → Context b =
        λ mask c. record c { csr = record c.csr { mip = bit_and c.csr.mip (bit_not 64 mask) } } in
      let (external, bus) = b.external_interrupt_pending ctx.bus in
      let asked : Context b = record ctx { bus = bus } in
      let low : Option Bool → Bool = λ o. elim o [ none ↦ false | some up ↦ not up ] in
      if irq == 7
      then (if low (b.timer_interrupt_pending ctx.bus)
          then stale (cleared (2 ^ 7) ctx)
          else taken ctx)
      else if irq == irq_mei || irq == irq_sei
      then (if low external then stale (cleared (2 ^ 11 + 2 ^ 9) asked) else taken asked)
      else taken ctx

  abbrev pub interrupted : Context b → ℕ → Outcome b
  interrupted ctx irq =
      let entered =
        Trap.take_interrupt (record { pc = ctx.regs.pc; csr = ctx.csr; priv_mode = ctx.priv_mode })
          irq in
      (
        StepResult.ok,
        record ctx {
          fetch_tlb = FetchTlb.flush ctx.fetch_tlb;
          is_waiting = false;
          regs = record ctx.regs { pc = entered.pc };
          csr = entered.csr;
          priv_mode = entered.priv_mode;
        },
      )

  abbrev pub fetch_and_execute : Context b → Outcome b
  fetch_and_execute ctx =
      let satp = effective_satp ctx.priv_mode ctx.csr.satp in
      fetch_page ctx satp
        λ pa ctx'. fetch_encoding ctx' satp pa λ encoding ctx''. exec_raw ctx'' encoding ctx.regs.pc

  unfoldable pub step : Context b → Outcome b
  unfolding fetch_page fetch_encoding exec_raw
  step ctx =
      if ctx.shutdown_requested
      then (StepResult.halt, ctx)
      else elim (pending_interrupt ctx.csr ctx.priv_mode) [
        | none ↦ fetch_and_execute ctx
        | some irq ↦ settle_interrupt ctx irq fetch_and_execute (λ c. interrupted c irq)
      ]
