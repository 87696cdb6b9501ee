-- ===== src/Machine/MachineBus/Examples.antt =====
-- A bus with one file system device that interrupts.
use vpod.Prelude.{ℕ, ◌<◌, none, some, [], ◌∷◌, ◌≡◌, ◌↔◌, Bool, true, arith}
use vpod.Bits.{bit}
use vpod.Machine.Uart.{Uart}
use vpod.Machine.Plic.{Plic, irq_pending}
use vpod.Machine.Plic
use vpod.Machine.Uart
use vpod.Machine.Plic.Laws
use vpod.Machine.Virtio.Mmio.{VirtioMmio}
use vpod.Machine.Virtio.Mmio
use vpod.Machine.Virtio.Console
use vpod.Machine.MachineBus.{MachineBus, refresh_external_interrupt}
use vpod.Machine.MachineBus.Lines.{device_level, or_before, refresh_levels}

abbrev bus : MachineBus ℕ
bus = record {
  uart = Uart.new;
  uart_stderr = Uart.new;
  uart_ctrl = Uart.new;
  uart_data = Uart.new;
  blk = none;
  console = Console.new;
  net = none;
  fs_devices = record (Mmio.new 26 0 2) { int_status = 1 } ∷ [];
  plic = Plic.new;
}

refresh_levels_example :
    (p : Plic) × (result : Bool) × (refresh_external_interrupt bus
      ≡ some (record bus { plic = p }, result))
    × Laws.IsValid p
    × (p.served ≡ bus.plic.served)
    × ((i : ℕ) → i < 32 → bit p.pending i ≡ or_before (device_level bus i) (bit bus.plic.pending i))
    × ((result ≡ true) ↔ ((i : ℕ) × (i < 32) × (Laws.waits p i ≡ true)))
refresh_levels_example = refresh_levels bus Laws.new-IsValid (omega arith)
