-- ===== src/RiscvCore/Execute/System.antt =====
-- `exec_system` of crates/riscv-core/src/execute.rs: environment calls, returns from traps, WFI, SFENCE.VMA
-- and the accesses of the control registers. The trace of system calls is left out.
use vpod.Prelude.{
  ℕ, ◌+◌, ◌/◌, ◌%◌, ◌^◌, bit_and, bit_or, bit_not, Bool, true, false, not, ◌&&◌, ◌||◌, ◌==◌,
  if◌then◌else◌, Option, none, some,
}
use vpod.RiscvCore.SystemBus.{ExecBus}
use vpod.RiscvCore.Csr.{PrivMode}
use vpod.RiscvCore.Csr.Registers.{read_register, write_register}
use vpod.RiscvCore.Decode.{rd, rs1, funct3}
use vpod.RiscvCore.Gpr.{read}
use vpod.RiscvCore.Mmu
use vpod.RiscvCore.Trap
use vpod.RiscvCore.Trap.{
  TrapCause, mcause_code, breakpoint, ecall_from_u_mode, ecall_from_s_mode, ecall_from_m_mode,
}
use vpod.RiscvCore.Execute.{
  StepResult, Context, Outcome, set_pc, set_reg, illegal, take_exception, invalidate_fetch_cache,
}

abbrev pub satp_address : ℕ
satp_address = 0x180

unfoldable pub is_shutdown_ecall : ℕ → ℕ → Bool
is_shutdown_ecall extension_id function_id =
    extension_id == 0x08 || extension_id == 0x53525354 && function_id == 0

abbrev pub ecall_cause : PrivMode → TrapCause
ecall_cause PrivMode.user = ecall_from_u_mode
ecall_cause PrivMode.supervisor = ecall_from_s_mode
ecall_cause PrivMode.machine = ecall_from_m_mode

abbrev pub is_supervisor : PrivMode → Bool
is_supervisor PrivMode.user = false
is_supervisor PrivMode.supervisor = true
is_supervisor PrivMode.machine = false

-- The operation of `funct3` on the old value: the new value.
abbrev pub csr_value : ℕ → ℕ → ℕ → ℕ → Option ℕ
csr_value funct3 old rs1_val uimm =
    if funct3 == 0x1
    then some rs1_val
    else if funct3 == 0x2
    then some (bit_or old rs1_val)
    else if funct3 == 0x3
    then some (bit_and old (bit_not 64 rs1_val))
    else if funct3 == 0x5
    then some uimm
    else if funct3 == 0x6
    then some (bit_or old uimm)
    else if funct3 == 0x7
    then some (bit_and old (bit_not 64 uimm))
    else none

module _ {b : ExecBus} where
  unfoldable pub exec_ecall : Context b → Outcome b
  exec_ecall ctx =
      let shutdown =
        is_supervisor ctx.priv_mode && is_shutdown_ecall (read ctx.regs 17) (read ctx.regs 16) in
      let asked : Context b = record ctx {
        shutdown_requested = if shutdown then true else ctx.shutdown_requested;
      } in
      (StepResult.ok, take_exception asked (mcause_code (ecall_cause ctx.priv_mode)) 0)

  -- A return from a trap, on the part of the state that it changes.
  abbrev pub returned : (Trap.ExecContext → Trap.ExecContext) → Context b → Outcome b
  returned leave ctx =
      let left = leave (record { pc = ctx.regs.pc; csr = ctx.csr; priv_mode = ctx.priv_mode }) in
      (
        StepResult.ok,
        record ctx {
          regs = record ctx.regs { pc = left.pc };
          csr = left.csr;
          priv_mode = left.priv_mode;
        },
      )

  abbrev pub flushed : Context b → Context b
  flushed ctx = invalidate_fetch_cache (record ctx { mmu = Mmu.flush ctx.mmu })

  unfoldable pub exec_privileged : Context b → ℕ → Outcome b
  unfolding exec_ecall invalidate_fetch_cache
  exec_privileged ctx raw =
      let pc = ctx.regs.pc in
      let other = raw / 2 ^ 20 in
      if other == 0x000
      then exec_ecall ctx
      else if other == 0x001
      then (StepResult.ok, take_exception ctx (mcause_code breakpoint) pc)
      else if other == 0x102
      then returned Trap.sret ctx
      else if other == 0x302
      then returned Trap.mret ctx
      else if other == 0x105
      then (StepResult.ok, set_pc (record ctx { is_waiting = true }) ((pc + 4) % 2 ^ 64))
      else if other / 2 ^ 5 == 0x09
      then (StepResult.ok, set_pc (flushed ctx) ((pc + 4) % 2 ^ 64))
      else illegal raw ctx

  -- The write, the flush where it is to `satp`, and the old value into the register.
  abbrev pub csr_finished : Context b → ℕ → ℕ → Outcome b
  csr_finished ctx raw old =
      (StepResult.ok, set_pc (set_reg ctx (rd raw) old) ((ctx.regs.pc + 4) % 2 ^ 64))

  abbrev pub csr_written : Context b → ℕ → ℕ → ℕ → Outcome b
  csr_written ctx raw old new_val =
      let csr_addr = raw / 2 ^ 20 in
      let (csr, accepted) = write_register ctx.csr csr_addr new_val ctx.priv_mode in
      let ctx' : Context b = record ctx { csr = csr } in
      if not accepted
      then illegal raw ctx'
      else csr_finished (if csr_addr == satp_address then flushed ctx' else ctx') raw old

  abbrev pub csr_updated : Context b → ℕ → ℕ → Option ℕ → Outcome b
  csr_updated ctx raw old none = illegal raw ctx
  csr_updated ctx raw old (some new_val) =
      let always = funct3 raw == 0x1 || funct3 raw == 0x5 in
      if always || not (rs1 raw == 0)
      then csr_written ctx raw old new_val
      else csr_finished ctx raw old

  abbrev pub csr_accessed : Context b → ℕ → Option ℕ → Outcome b
  csr_accessed ctx raw none = illegal raw ctx
  csr_accessed ctx raw (some old) =
      csr_updated ctx raw old (csr_value (funct3 raw) old (read ctx.regs (rs1 raw)) (rs1 raw))

  unfoldable pub exec_csr : Context b → ℕ → Outcome b
  unfolding invalidate_fetch_cache
  exec_csr ctx raw = csr_accessed ctx raw (read_register ctx.csr (raw / 2 ^ 20) ctx.priv_mode)

  unfoldable pub exec_system : Context b → ℕ → Outcome b
  unfolding exec_privileged exec_csr
  exec_system ctx raw = if funct3 raw == 0x0 then exec_privileged ctx raw else exec_csr ctx raw
