-- ===== src/RiscvCore/Trap.antt =====
-- crates/riscv-core/src/trap.rs, and the trap entry and return of crates/riscv-core/src/execute.rs
-- (`take_interrupt`, `take_exception`, the SRET and MRET arms of `exec_system`): what they do to the program
-- counter, the privilege mode and the control registers. The trace of system calls, which SRET
-- reports to the bus, is left out.
pub mod Fields
pub mod Return
mod Examples
use vpod.Prelude.{
  ℕ, ◌+◌, ◌-◌, ◌*◌, ◌/◌, ◌%◌, ◌^◌, bit_and, bit_or, bit_not, Bool, not, ◌&&◌, ◌==◌, if◌then◌else◌,
}
use vpod.RiscvCore.Csr.{
  Csr, PrivMode, user, supervisor, machine, mode_bits, from_bits, mstatus_sie, mstatus_mie,
  mstatus_spie, mstatus_mpie, mstatus_spp, mstatus_mpp,
}
use vpod.RiscvCore.Csr.Interrupts.{is_machine}

pub data TrapCause : Type 0 where
  instruction_address_misaligned : TrapCause
  illegal_instruction : ℕ → TrapCause
  breakpoint load_address_misaligned store_address_misaligned : TrapCause
  ecall_from_u_mode ecall_from_s_mode ecall_from_m_mode : TrapCause

unfoldable pub mcause_code : TrapCause → ℕ
mcause_code instruction_address_misaligned = 0
mcause_code (illegal_instruction _) = 2
mcause_code breakpoint = 3
mcause_code load_address_misaligned = 4
mcause_code store_address_misaligned = 6
mcause_code ecall_from_u_mode = 8
mcause_code ecall_from_s_mode = 9
mcause_code ecall_from_m_mode = 11

-- The part of `ExecContext` that traps read and write.
pub record ExecContext : Type 0 where
  pub pc : ℕ
  pub csr : Csr
  pub priv_mode : PrivMode

-- SIE moves to SPIE and is cleared, the mode moves to SPP.
unfoldable pub stack_supervisor : ℕ → PrivMode → ℕ
stack_supervisor mstatus priv_mode =
    let spie = bit_and mstatus mstatus_sie / 2 ^ 1 in
    let without_spie = bit_and mstatus (bit_not 64 mstatus_spie) in
    let with_spie = bit_or without_spie (spie * 2 ^ 5) in
    let without_sie = bit_and with_spie (bit_not 64 mstatus_sie) in
    bit_or (bit_and without_sie (bit_not 64 mstatus_spp)) (mode_bits priv_mode * 2 ^ 8)

-- MIE moves to MPIE and is cleared, the mode moves to MPP.
unfoldable pub stack_machine : ℕ → PrivMode → ℕ
stack_machine mstatus priv_mode =
    let mpie = bit_and mstatus mstatus_mie / 2 ^ 3 in
    let without_mpie = bit_and mstatus (bit_not 64 mstatus_mpie) in
    let with_mpie = bit_or without_mpie (mpie * 2 ^ 7) in
    let without_mie = bit_and with_mpie (bit_not 64 mstatus_mie) in
    bit_or (bit_and without_mie (bit_not 64 mstatus_mpp)) (mode_bits priv_mode * 2 ^ 11)

unfoldable pub enter_supervisor : ExecContext → ℕ → ℕ → ExecContext
enter_supervisor ctx cause tval = record {
  pc = bit_and ctx.csr.stvec (bit_not 64 3);
  csr = record ctx.csr {
    scause = cause;
    sepc = ctx.pc;
    stval = tval;
    mstatus = stack_supervisor ctx.csr.mstatus ctx.priv_mode;
  };
  priv_mode = supervisor;
}

unfoldable pub enter_machine : ExecContext → ℕ → ℕ → ExecContext
enter_machine ctx cause tval = record {
  pc = bit_and ctx.csr.mtvec (bit_not 64 3);
  csr = record ctx.csr {
    mcause = cause;
    mepc = ctx.pc;
    mtval = tval;
    mstatus = stack_machine ctx.csr.mstatus ctx.priv_mode;
  };
  priv_mode = machine;
}

unfoldable pub take_interrupt : ExecContext → ℕ → ExecContext
unfolding enter_supervisor enter_machine
take_interrupt ctx irq_bit =
    let cause = bit_or (2 ^ 63) irq_bit in
    let deleg = bit_and ctx.csr.mideleg (2 ^ irq_bit) in
    if not (deleg == 0) && not (is_machine ctx.priv_mode)
    then enter_supervisor ctx cause 0
    else enter_machine ctx cause 0

unfoldable pub take_exception : ExecContext → ℕ → ℕ → ExecContext
unfolding enter_supervisor enter_machine
take_exception ctx cause tval =
    let deleg = bit_and ctx.csr.medeleg (2 ^ bit_and cause 63) in
    if not (deleg == 0) && not (is_machine ctx.priv_mode)
    then enter_supervisor ctx cause tval
    else enter_machine ctx cause tval

-- SPIE moves to SIE; SPIE is set and SPP cleared.
unfoldable pub unstack_supervisor : ℕ → ℕ
unstack_supervisor mstatus =
    let spie = bit_and (mstatus / 2 ^ 5) 1 in
    let without_spp = bit_and mstatus (bit_not 64 mstatus_spp) in
    let with_sie =
      if not (spie == 0)
      then bit_or without_spp mstatus_sie
      else bit_and without_spp (bit_not 64 mstatus_sie) in
    bit_or with_sie mstatus_spie

-- MPIE moves to MIE; MPIE is set and MPP cleared.
unfoldable pub unstack_machine : ℕ → ℕ
unstack_machine mstatus =
    let mpie = bit_and (mstatus / 2 ^ 7) 1 in
    let without_mpp = bit_and mstatus (bit_not 64 mstatus_mpp) in
    let with_mie =
      if not (mpie == 0)
      then bit_or without_mpp mstatus_mie
      else bit_and without_mpp (bit_not 64 mstatus_mie) in
    bit_or with_mie mstatus_mpie

unfoldable pub sret : ExecContext → ExecContext
sret ctx =
    let spp = bit_and (ctx.csr.mstatus / 2 ^ 8) 1 in
    record {
      pc = ctx.csr.sepc;
      csr = record ctx.csr { mstatus = unstack_supervisor ctx.csr.mstatus };
      priv_mode = from_bits spp;
    }

unfoldable pub mret : ExecContext → ExecContext
mret ctx =
    let mpp = bit_and (ctx.csr.mstatus / 2 ^ 11) 3 in
    record {
      pc = ctx.csr.mepc;
      csr = record ctx.csr { mstatus = unstack_machine ctx.csr.mstatus };
      priv_mode = from_bits mpp;
    }
