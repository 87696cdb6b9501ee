-- ===== src/RiscvCore/Trap/Examples.antt =====
-- A trap of a user program and a trap of the supervisor.
use vpod.Prelude.{◌+◌, ◌*◌, ◌^◌, ◌≢◌, refl, arith}
use vpod.RiscvCore.Csr.{new, user, supervisor, machine}
use vpod.RiscvCore.Trap.{
  ExecContext, take_exception, sret, mret, mcause_code, ecall_from_u_mode, ecall_from_s_mode,
}
use vpod.RiscvCore.Trap.Return.{
  SupervisorResumed, MachineResumed, take_exception-sret, take_exception-mret,
}

-- The ecall of user mode and the supervisor's timer are delegated; SIE and MIE are set.
abbrev program : ExecContext
unfolding new
program = record {
  pc = 0x10074;
  csr = record new { medeleg = 2 ^ 8; mideleg = 2 ^ 5; mstatus = 2 ^ 1 + 2 ^ 3 + 3 * 2 ^ 13 };
  priv_mode = user;
}

abbrev kernel : ExecContext
kernel = record program { priv_mode = supervisor; pc = 0xffffffff80001000 }

user_below : user ≢ machine
user_below e = cc e

supervisor_below : supervisor ≢ machine
supervisor_below e = cc e

take_exception-sret_example :
    SupervisorResumed program (sret (take_exception program (mcause_code ecall_from_u_mode) 0))
unfolding program mcause_code
take_exception-sret_example =
    take_exception-sret program (mcause_code ecall_from_u_mode) 0 (omega arith) user_below refl

take_exception-mret_example :
    MachineResumed kernel (mret (take_exception kernel (mcause_code ecall_from_s_mode) 0))
unfolding program mcause_code
take_exception-mret_example =
    take_exception-mret kernel (mcause_code ecall_from_s_mode) 0 (omega arith) refl
