-- ===== src/Machine.antt =====
-- crates/machine: the devices, the RAM and the bus of the emulated board.
pub mod Clint
pub mod Plic
pub mod Uart
pub mod CowRam
pub mod Virtio
pub mod MachineBus
