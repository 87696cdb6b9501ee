-- ===== src/RiscvCore.antt =====
-- crates/riscv-core: the hart, its registers and its memory management unit.
pub mod SystemBus
pub mod Gpr
pub mod Decode
pub mod Csr
pub mod Mmu
pub mod Trap
pub mod FetchTlb
pub mod Extensions
pub mod Alu
pub mod Block
pub mod Execute
