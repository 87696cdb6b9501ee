-- ===== src/Machine/MachineBus.antt =====
-- `refresh_external_interrupt` of crates/machine/src/machine_bus.rs: the interrupt lines of the devices, given to the
-- interrupt controller. Of the file system devices the bus needs their registers alone.
pub mod Lines
mod Examples
use vpod.Prelude.{
  ℕ, ◌+◌, Bool, true, false, not, ◌==◌, Option, none, some, ◌>>=◌, List, [], ◌∷◌, ◌++◌,
}
use vpod.Machine.Plic.{Plic, set_irq, irq_pending}
use vpod.Machine.Uart.{Uart}
use vpod.Machine.Virtio.Mmio.{VirtioMmio}
use vpod.Machine.Virtio.Blk.{VirtioBlk}
use vpod.Machine.Virtio.Console.{VirtioConsole}
use vpod.Machine.Virtio.Net.{VirtioNet}

abbrev pub uart_irq : ℕ
uart_irq = 1

abbrev pub uart_stderr_irq : ℕ
uart_stderr_irq = 5

abbrev pub uart_ctrl_irq : ℕ
uart_ctrl_irq = 6

abbrev pub uart_data_irq : ℕ
uart_data_irq = 7

abbrev pub virtio_blk_irq : ℕ
virtio_blk_irq = 2

abbrev pub virtio_console_irq : ℕ
virtio_console_irq = 3

abbrev pub virtio_net_irq : ℕ
virtio_net_irq = 4

abbrev pub virtio_fs_base_irq : ℕ
virtio_fs_base_irq = 8

-- The devices that interrupt; `B` is the state of the network backend.
pub record MachineBus (B : Type 0) : Type 0 where
  pub uart : Uart
  pub uart_stderr : Uart
  pub uart_ctrl : Uart
  pub uart_data : Uart
  pub blk : Option VirtioBlk
  pub console : VirtioConsole
  pub net : Option (VirtioNet B)
  pub fs_devices : List VirtioMmio
  pub plic : Plic

-- `device.mmio.int_status != 0`
abbrev pub interrupts : VirtioMmio → Bool
interrupts mmio = not (mmio.int_status == 0)

-- A device that may be missing sets its line if it is there.
abbrev pub blk_line : Option VirtioBlk → List (ℕ × Bool)
blk_line none = []
blk_line (some device) = (virtio_blk_irq, interrupts device.mmio) ∷ []

abbrev pub net_line : {B : Type 0} → Option (VirtioNet B) → List (ℕ × Bool)
net_line none = []
net_line (some device) = (virtio_net_irq, interrupts device.mmio) ∷ []

-- `for (i, fs_device) in self.fs_devices.iter().enumerate()`, from line `irq` on.
unfoldable pub fs_lines : ℕ → List VirtioMmio → List (ℕ × Bool)
fs_lines irq [] = []
fs_lines irq (mmio ∷ devices) = (irq, interrupts mmio) ∷ fs_lines (irq + 1) devices

-- The calls of `set_irq`, in their order.
unfoldable pub set_lines : Plic → List (ℕ × Bool) → Option Plic
set_lines p [] = some p
set_lines p ((irq, level) ∷ lines) = set_irq p irq level >>= λ p. set_lines p lines

unfoldable pub lines : {B : Type 0} → MachineBus B → List (ℕ × Bool)
lines bus =
    (uart_irq, bus.uart.irq_pending)
    ∷ (uart_stderr_irq, bus.uart_stderr.irq_pending)
    ∷ (uart_ctrl_irq, bus.uart_ctrl.irq_pending)
    ∷ (uart_data_irq, bus.uart_data.irq_pending)
    ∷ (blk_line bus.blk
        ++ ((virtio_console_irq, interrupts bus.console.mmio)
            ∷ (net_line bus.net ++ fs_lines virtio_fs_base_irq bus.fs_devices)))

-- `none` is the panic of a line that the controller does not have.
unfoldable pub refresh_external_interrupt :
    {B : Type 0} → MachineBus B → Option (MachineBus B × Bool)
refresh_external_interrupt bus =
    set_lines bus.plic (lines bus) >>= λ p. some (record bus { plic = p }, irq_pending p)
