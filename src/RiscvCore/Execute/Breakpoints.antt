-- ===== src/RiscvCore/Execute/Breakpoints.antt =====
-- EBREAK and C.EBREAK in crates/riscv-core/src/execute.rs: where the trap says the program was.
use vpod.Prelude.{ℕ, ◌+◌, ◌%◌, ◌^◌, ◌≡◌, refl, bit_and, not, ◌==◌, Bool-cases, inl, inr}
use vpod.RiscvCore.SystemBus.{ExecBus}
use vpod.RiscvCore.Csr.{machine}
use vpod.RiscvCore.Trap
use vpod.RiscvCore.Decode.{opcode, funct3}
use vpod.RiscvCore.Execute.{Context, Outcome, take_exception}
use vpod.RiscvCore.Execute.Compressed.{exec_compressed, exec_quadrant_2, exec_register_pair}
use vpod.RiscvCore.Execute.System.{exec_system, exec_privileged}
use vpod.RiscvCore.Execute.Dispatch.{exec_raw, exec_full, entered_trap}

-- An exception of machine mode is one to machine mode.
entry_mepc :
    (x : Trap.ExecContext) (cause tval : ℕ)
    → x.priv_mode ≡ machine
    → (Trap.take_exception x cause tval).csr.mepc ≡ x.pc
unfolding Trap.take_exception Trap.enter_machine
entry_mepc x cause tval h =
    elim (Bool-cases (not (bit_and x.csr.medeleg (2 ^ bit_and cause 63) == 0))) [
      | inl e ↦ rw (h, e) refl
      | inr e ↦ rw (h, e) refl
    ]

module _ {b : ExecBus} (float_arms : Context b → ℕ → ℕ → Outcome b) where
  -- In machine mode, EBREAK traps with the address of the instruction, and C.EBREAK with the address two
  -- bytes behind it.
  pub ebreak_addresses :
      (ctx : Context b)
      → ctx.priv_mode ≡ machine
      → ((exec_raw float_arms ctx 0x00100073 ctx.regs.pc).1.csr.mepc ≡ ctx.regs.pc)
        × ((exec_raw float_arms ctx 0x9002 ctx.regs.pc).1.csr.mepc ≡ (ctx.regs.pc + 2) % 2 ^ 64)
  unfolding exec_raw exec_full exec_compressed exec_quadrant_2 exec_register_pair exec_system
      exec_privileged take_exception entered_trap opcode funct3
  ebreak_addresses ctx h = (entry_mepc _ _ _ h, entry_mepc _ _ _ h)
