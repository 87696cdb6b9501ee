-- ===== src/RiscvCore/Gpr/Laws.antt =====
-- The registers of crates/riscv-core/src/gpr.rs keep what is written to them, and `x0` stays 0.
use vpod.Prelude.{ℕ, ◌+◌, ◌^◌, ◌<◌, bit_and, bit_or, ◌==◌, ◌≡◌, refl, if◌then◌else◌, arith}
use vpod.Bits.Masks.{or_fields, and_high}
use vpod.RiscvCore.Gpr.{
  Gpr, new, read, read_masked, write, write_masked, read_f, read_f32, write_f32,
}

-- `x[0]` holds 0, as after `new`; both ways of writing keep it so.
pub IsHardwired : Gpr → Type 0
IsHardwired g = g.x 0 ≡ 0

pub new-IsHardwired : (pc : ℕ) → IsHardwired (new pc)
unfolding new IsHardwired
new-IsHardwired pc = refl

-- With `x[0]` at 0, `read` finds the last value that `write` stored, 0 in `x0`; the write leaves `x0` at 0.
pub read-write :
    (g : Gpr) (r s val : ℕ)
    → IsHardwired g
    → (read (write g r val) s ≡ (if s == 0 then 0 else if s == r then val else read g s))
      × IsHardwired (write g r val)
unfolding read write IsHardwired
read-write g r s val h = (ground arith, ground arith)

-- On the same terms, the masked accesses agree with the others on the register of the low five bits.
pub masked_accesses :
    (g : Gpr) (r s val : ℕ)
    → IsHardwired g
    → (read_masked g r ≡ read g (bit_and r 31))
      × (read (write_masked g r val) s ≡ read (write g (bit_and r 31) val) s)
      × IsHardwired (write_masked g r val)
unfolding read write read_masked write_masked IsHardwired
masked_accesses g r s val h = (ground arith, ground arith, ground arith)

-- A 32-bit value written as single precision comes back from its register, and reads as boxed: all ones above it.
pub read_f32-write_f32 :
    (g : Gpr) (r val : ℕ)
    → val < 2 ^ 32
    → (read_f32 (write_f32 g r val) r ≡ val)
      × (read_f (write_f32 g r val) r ≡ 0xffffffff00000000 + val)
unfolding read_f32 write_f32 read_f
read_f32-write_f32 g r val h =
    let boxed : bit_or 0xffffffff00000000 val ≡ 0xffffffff00000000 + val =
      or_fields 64 32 0xffffffff val (omega arith) h in
    let high : bit_and (0xffffffff00000000 + val) 0xffffffff00000000 ≡ 0xffffffff00000000 =
      and_high 64 32 0xffffffff val 0xffffffff (omega arith) h in
    rw boxed (ground (arith, high), ground arith)
