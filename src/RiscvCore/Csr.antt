-- ===== src/RiscvCore/Csr.antt =====
-- crates/riscv-core/src/csr.rs: the control and status registers, the fields of `mstatus` and the choice
-- of the interrupt to take. Registers are natural numbers below 2 ^ 64; the arrays are functions of
-- the index.
pub mod Registers
pub mod Interrupts
pub mod Delivery
pub mod Access
mod Examples
use vpod.Prelude.{ℕ, ◌+◌, ◌*◌, ◌^◌, bit_and, bit_or, Bool, true, false, ◌==◌, if◌then◌else◌}

pub data PrivMode : Type 0 where
  user supervisor machine : PrivMode

-- `priv_mode as u64`
abbrev pub mode_bits : PrivMode → ℕ
mode_bits user = 0
mode_bits supervisor = 1
mode_bits machine = 3

unfoldable pub from_bits : ℕ → PrivMode
from_bits bits =
    if bit_and bits 3 == 0 then user else if bit_and bits 3 == 1 then supervisor else machine

abbrev pub mstatus_sie : ℕ
mstatus_sie = 2 ^ 1

abbrev pub mstatus_mie : ℕ
mstatus_mie = 2 ^ 3

abbrev pub mstatus_spie : ℕ
mstatus_spie = 2 ^ 5

abbrev pub mstatus_mpie : ℕ
mstatus_mpie = 2 ^ 7

abbrev pub mstatus_spp : ℕ
mstatus_spp = 2 ^ 8

abbrev pub mstatus_mpp : ℕ
mstatus_mpp = 3 * 2 ^ 11

abbrev pub mstatus_fs : ℕ
mstatus_fs = 3 * 2 ^ 13

abbrev pub mstatus_tvm : ℕ
mstatus_tvm = 2 ^ 20

abbrev pub mstatus_sd : ℕ
mstatus_sd = 2 ^ 63

-- SIE, MIE, SPIE, UBE, MPIE, SPP, VS, MPP, FS, XS, MPRV, SUM, MXR, TVM, TW and TSR.
abbrev pub mstatus_write_mask : ℕ
mstatus_write_mask =
    2 ^ 1
    + 2 ^ 3
    + 2 ^ 5
    + 2 ^ 6
    + 2 ^ 7
    + 2 ^ 8
    + 3 * 2 ^ 9
    + 3 * 2 ^ 11
    + 3 * 2 ^ 13
    + 3 * 2 ^ 15
    + 2 ^ 17
    + 2 ^ 18
    + 2 ^ 19
    + 2 ^ 20
    + 2 ^ 21
    + 2 ^ 22

-- SIE, SPIE, UBE, SPP, VS, FS, XS, SUM and MXR.
abbrev pub sstatus_mask : ℕ
sstatus_mask = 2 ^ 1 + 2 ^ 5 + 2 ^ 6 + 2 ^ 8 + 3 * 2 ^ 9 + 3 * 2 ^ 13 + 3 * 2 ^ 15 + 2 ^ 18 + 2 ^ 19

-- UXL and SXL.
abbrev pub mstatus_preserved : ℕ
mstatus_preserved = 3 * 2 ^ 32 + 3 * 2 ^ 34

-- MSIP, SSIP and STIP.
abbrev pub mip_writable : ℕ
mip_writable = 2 ^ 3 + 2 ^ 1 + 2 ^ 5

abbrev pub sip_writable : ℕ
sip_writable = 2 ^ 1

pub record Csr : Type 0 where
  pub mstatus : ℕ
  pub misa : ℕ
  pub medeleg : ℕ
  pub mideleg : ℕ
  pub mie : ℕ
  pub mtvec : ℕ
  pub mcounteren : ℕ
  pub mcountinhibit : ℕ
  pub mscratch : ℕ
  pub mepc : ℕ
  pub mcause : ℕ
  pub mtval : ℕ
  pub mip : ℕ
  pub menvcfg : ℕ
  pub stvec : ℕ
  pub scounteren : ℕ
  pub senvcfg : ℕ
  pub sscratch : ℕ
  pub sepc : ℕ
  pub scause : ℕ
  pub stval : ℕ
  pub satp : ℕ
  pub hart_id : ℕ
  pub pmpcfg : ℕ → ℕ
  pub pmpaddr : ℕ → ℕ
  pub cycle : ℕ
  pub instret : ℕ
  pub time : ℕ
  pub fcsr : ℕ
  pub mhpmevent : ℕ → ℕ

-- The A, C, D, F, I, M, S and U extensions, 64 bits wide.
abbrev pub misa_value : ℕ
misa_value = 2 * 2 ^ 62 + 1 + 2 ^ 2 + 2 ^ 3 + 2 ^ 5 + 2 ^ 8 + 2 ^ 12 + 2 ^ 18 + 2 ^ 20

unfoldable pub new : Csr
new = record {
  mstatus = 2 * 2 ^ 32 + 2 * 2 ^ 34;
  misa = misa_value;
  medeleg = 0;
  mideleg = 0;
  mie = 0;
  mtvec = 0;
  mcounteren = 0;
  mcountinhibit = 0;
  mscratch = 0;
  mepc = 0;
  mcause = 0;
  mtval = 0;
  mip = 0;
  menvcfg = 0;
  stvec = 0;
  scounteren = 0;
  senvcfg = 0;
  sscratch = 0;
  sepc = 0;
  scause = 0;
  stval = 0;
  satp = 0;
  hart_id = 0;
  pmpcfg = λ _. 0;
  pmpaddr = λ _. 0;
  cycle = 0;
  instret = 0;
  time = 0;
  fcsr = 0;
  mhpmevent = λ _. 0;
}
