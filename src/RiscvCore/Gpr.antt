-- ===== src/RiscvCore/Gpr.antt =====
-- crates/riscv-core/src/gpr.rs: the integer registers, the program counter and the floating-point
-- registers. An array of 32 registers is a function of the index.
pub mod Laws
use vpod.Prelude.{ℕ, ◌+◌, ◌%◌, ◌^◌, bit_and, bit_or, Bool, true, false, ◌==◌, if◌then◌else◌}

pub record Gpr : Type 0 where
  pub x : ℕ → ℕ
  pub pc : ℕ
  pub f : ℕ → ℕ

abbrev pub update : (ℕ → ℕ) → ℕ → ℕ → ℕ → ℕ
update regs reg val i = if i == reg then val else regs i

unfoldable pub new : ℕ → Gpr
new pc = record { x = λ _. 0; pc = pc; f = λ _. 0xffffffffffffffff }

unfoldable pub read : Gpr → ℕ → ℕ
read g reg = if reg == 0 then 0 else g.x reg

unfoldable pub read_masked : Gpr → ℕ → ℕ
read_masked g reg = g.x (bit_and reg 31)

unfoldable pub write_masked : Gpr → ℕ → ℕ → Gpr
write_masked g reg val = record g { x = update (update g.x (bit_and reg 31) val) 0 0 }

unfoldable pub read_f : Gpr → ℕ → ℕ
read_f g reg = g.f reg

unfoldable pub write : Gpr → ℕ → ℕ → Gpr
write g reg val = if reg == 0 then g else record g { x = update g.x reg val }

unfoldable pub write_f : Gpr → ℕ → ℕ → Gpr
write_f g reg val = record g { f = update g.f reg val }

unfoldable pub write_f32 : Gpr → ℕ → ℕ → Gpr
write_f32 g reg val = record g { f = update g.f reg (bit_or 0xffffffff00000000 val) }

unfoldable pub read_f32 : Gpr → ℕ → ℕ
read_f32 g reg =
    let bits = g.f reg in
    if bit_and bits 0xffffffff00000000 == 0xffffffff00000000 then bits % 2 ^ 32 else 0x7fc00000
