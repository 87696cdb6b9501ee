-- ===== src/Lib.antt =====
-- vpod: verification of the emulator.
--
-- vpod runs a Linux guest on an emulated RISC-V machine. crates/riscv-core is the hart: it decodes
-- instructions (decode.rs), keeps the integer and floating-point registers (gpr.rs) and the control
-- registers (csr.rs), enters and leaves traps (trap.rs, execute.rs) and translates addresses
-- (mmu.rs), and reaches memory and devices through the trait `SystemBus` (system_bus.rs).
-- crates/machine is the board: the timer (clint.rs), the interrupt controller (plic.rs), the serial
-- port (uart.rs), the RAM, the virtio devices and the bus that joins them.
--
-- The files:
--   Prelude, Bits, Stream   shared names, the bits of machine words, the byte streams of snapshots
--   RiscvCore.Mmu           crates/riscv-core/src/mmu.rs: the unit's state and tables; Walk is `walk_inner`, Translate the
--                           translations of a fetch, a load and a store. Page and Coherence say what
--                           the page tables map and when the caches agree with them; Refinement, Flush,
--                           Dates and Session prove the translations, the flush and whole runs
--   RiscvCore.SystemBus     the methods of the trait in crates/riscv-core/src/system_bus.rs that
--                           the unit and the instructions call, a parameter of their models
--   RiscvCore.Execute       crates/riscv-core/src/execute.rs: the state, the accesses of memory, and in
--                           Integer (with its Values), Compressed, Atomic, System and Dispatch the instructions, `exec_full`,
--                           `exec_raw` and `step`; Breakpoints proves where EBREAK traps
--   RiscvCore.Alu           `AluKind` and `alu` of crates/riscv-core/src/block.rs; Bounds proves their width
--   RiscvCore.Block         the rest of crates/riscv-core/src/block.rs: the decoded instructions (here and in
--                           Compressed), the block cache (Cache, proved in Pages and Sound), decoding and running
--                           a block (Run); Values and Simulation prove that a block does what
--                           the interpreter does with its words
--   RiscvCore.Csr           crates/riscv-core/src/csr.rs: Registers is `read_register` and `write_register`, Interrupts is
--                           `pending_interrupt`; Access and Delivery prove them
--   RiscvCore.Trap          `take_interrupt`, `take_exception`, SRET and MRET of crates/riscv-core/src/execute.rs,
--                           and crates/riscv-core/src/trap.rs
--   RiscvCore.FetchTlb      the table of fetched pages of crates/riscv-core/src/execute.rs
--   RiscvCore.Extensions    crates/riscv-core/src/extensions.rs: atomic operations and divisions
--   RiscvCore.Decode        crates/riscv-core/src/decode.rs; Immediates proves the immediates
--   RiscvCore.Gpr           crates/riscv-core/src/gpr.rs
--   Machine.CowRam          crates/machine/src/cow_ram.rs, the RAM of the guest; Contents, Slices and
--                           Writes prove its reads and writes on a flat array of bytes, Devices the
--                           list of the pages that devices wrote
--   Machine.Virtio          crates/machine/src/virtio: RamView, Queue and Mmio are the transport (mod.rs), Blk,
--                           Console and Net the devices (blk.rs, console.rs, net.rs). A device reaches
--                           the RAM through RamView, takes requests from its Queue and is driven
--                           through the registers of Mmio
--   Machine.MachineBus      the interrupt lines of the devices, of crates/machine/src/machine_bus.rs
--   Machine.Clint, Machine.Plic, Machine.Uart
--                           crates/machine/src/clint.rs, plic.rs and uart.rs, with their save formats
-- Each Examples module holds the properties at concrete inputs.
--
-- A function of the source that changes its object takes and returns the state; a method of the bus
-- that takes `&mut self` returns the new bus. Integers are natural numbers with their wrap-around
-- written out, an array of the source is a function of the index, a `Cell` is a field, a failed read
-- of a snapshot is the state that it leaves (`ended`). The page walk is a recursion on the level, 3 at
-- most, so no fuel is needed; the loops of the RAM have a turn for each byte, which is enough. The loops
-- of a device over what the guest put in its RAM need not end: they take the number of their turns, and
-- say `unfinished` where it is used up. Other loops are recursions on a list or a number of bytes. A panic
-- is `none`, or `panicked` beside `unfinished`; sums of addresses wrap around as in a release build. The
-- file of the block device is a list of bytes on which the host makes no error of its own.
--
-- A decoded block and the interpreter share the state of RiscvCore.Execute, which joins the registers, the
-- control registers, the unit, the bus, the fetch TLB, the cache of instructions and the block cache. A
-- block reads and writes host pages through `page_read` and `page_write` of the bus, and a null
-- pointer counts as no page. The loop of a block runs over its list, 64 instructions at most.
--
-- Not modelled: the arms of the floating-point instructions, which are a parameter of `exec_full`; the
-- loop `run_impl` and the translated code that it calls, the accesses that such code makes, the rest of the
-- machine bus, snapshots and the virtio file system device, which are planned; the counters of `perf` and the
-- traces, which do not change the guest; the network gateway, the command line, the WASI component and the
-- SDKs, which call the host and its libraries.
pub mod Prelude
pub mod Bits
pub mod Stream
pub mod Machine
pub mod RiscvCore
