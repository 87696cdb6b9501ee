-- ===== src/Machine/Plic.antt =====
-- crates/machine/src/plic.rs: the interrupt controller. `pending` and `served` are words of 32
-- bits; bit `i` stands for interrupt line `i`.
pub mod Laws
pub mod Protocol
pub mod RoundTrip
mod Examples
use vpod.Prelude.{
  bit_not, ℕ, ◌+◌, ◌%◌, ◌^◌, bit_and, bit_or, Bool, not, ◌&&◌, ◌==◌, leb, if◌then◌else◌, List, ◌++◌,
  Option, none, some,
}
use vpod.Bits.{trailing_zeros}
use vpod.Stream.{Restored, restored, field, to_le_bytes, from_le_bytes}

abbrev pub plic_hart_base : ℕ
plic_hart_base = 0x00200000

abbrev pub priority_threshold_offset : ℕ
priority_threshold_offset = plic_hart_base

abbrev pub claim_complete_offset : ℕ
claim_complete_offset = plic_hart_base + 4

abbrev pub min_irq : ℕ
min_irq = 1

abbrev pub max_irq : ℕ
max_irq = 31

-- `(MIN_IRQ..=MAX_IRQ).contains(&n)`
abbrev pub is_irq : ℕ → Bool
is_irq n = leb min_irq n && leb n max_irq

pub record Plic : Type 0 where
  pub pending : ℕ
  pub served : ℕ

unfoldable pub new : Plic
new = record { pending = 0; served = 0 }

-- `none` is the panic of the `assert!`.
unfoldable pub set_irq : Plic → ℕ → Bool → Option Plic
set_irq p irq_number level =
    if is_irq irq_number
    then some (
        if level
        then record p { pending = bit_or p.pending (2 ^ irq_number) }
        else record p { pending = bit_and p.pending (bit_not 32 (2 ^ irq_number)) })
    else none

-- `self.pending & !self.served`
abbrev pub unserviced_interrupts : Plic → ℕ
unserviced_interrupts p = bit_and p.pending (bit_not 32 p.served)

unfoldable pub irq_pending : Plic → Bool
irq_pending p = not (unserviced_interrupts p == 0)

unfoldable pub read_register : Plic → ℕ → Plic × ℕ
read_register p offset =
    if offset == priority_threshold_offset
    then (p, 0)
    else if offset == claim_complete_offset
    then (if not (unserviced_interrupts p == 0)
        then (let irq_number = trailing_zeros 32 (unserviced_interrupts p) in
            (record p { served = bit_or p.served (2 ^ irq_number) }, irq_number))
        else (p, 0))
    else (p, 0)

unfoldable pub write_register : Plic → ℕ → ℕ → Plic
write_register p offset value =
    if offset == priority_threshold_offset
    then p
    else if offset == claim_complete_offset && is_irq value
    then record p { served = bit_and p.served (bit_not 32 (2 ^ value)) }
    else p

unfoldable pub save_state : Plic → List ℕ
save_state p = to_le_bytes 8 p.pending ++ to_le_bytes 8 p.served

abbrev put_pending : List ℕ → Plic → Plic
put_pending bytes p = record p { pending = from_le_bytes bytes % 2 ^ 32 }

abbrev put_served : List ℕ → Plic → Plic
put_served bytes p = record p { served = from_le_bytes bytes % 2 ^ 32 }

unfoldable pub restore_state : Plic → List ℕ → Restored Plic
restore_state p reader = field 8 put_served (field 8 put_pending (restored p reader))
