-- ===== src/Machine/Uart.antt =====
-- crates/machine/src/uart.rs: the serial port. The `Cell`s of the struct are the fields of the state that
-- each operation returns; a write to the standard output is the byte that `write_register` gives
-- back, and `usize` has 64 bits. That a failed allocation ends the program is left out.
pub mod Irq
pub mod Queue
pub mod RoundTrip
mod Examples
use vpod.Prelude.{
  ℕ, zero, suc, ◌+◌, ◌*◌, ◌^◌, bit_and, bit_or, has, Bool, true, false, not, ◌&&◌, ◌==◌,
  if◌then◌else◌, Option, none, some, List, [], ◌∷◌, ◌++◌, length, get_or,
}
use vpod.Stream.{to_le_bytes, from_le_bytes, read_exact, Restored, restored, ended, field}

abbrev rbr_thr : ℕ
rbr_thr = 0

abbrev interrupt_enable_register_offset : ℕ
interrupt_enable_register_offset = 1

abbrev interrupt_id_fifo_control_register : ℕ
interrupt_id_fifo_control_register = 2

abbrev line_control_register_offset : ℕ
line_control_register_offset = 3

abbrev modem_control_register_offset : ℕ
modem_control_register_offset = 4

abbrev line_status_register : ℕ
line_status_register = 5

abbrev scratch_register_offset : ℕ
scratch_register_offset = 7

abbrev lsr_data_ready : ℕ
lsr_data_ready = 2 ^ 0

abbrev lsr_tx_empty : ℕ
lsr_tx_empty = 2 ^ 5

abbrev lsr_tx_idle : ℕ
lsr_tx_idle = 2 ^ 6

abbrev pub ier_rx_ready : ℕ
ier_rx_ready = 2 ^ 0

abbrev pub ier_tx_empty : ℕ
ier_tx_empty = 2 ^ 1

abbrev pub iir_no_int : ℕ
iir_no_int = 1

abbrev pub iir_rx_ready : ℕ
iir_rx_ready = 4

abbrev pub iir_tx_empty : ℕ
iir_tx_empty = 2

pub record Uart : Type 0 where
  pub interrupt_enable_register : ℕ
  pub line_control_register : ℕ
  pub modem_control_register : ℕ
  pub scratch_register : ℕ
  pub divisor_latch_low : ℕ
  pub divisor_latch_high : ℕ
  pub receive_buffer : List ℕ
  pub irq_pending : Bool
  pub capture_tx : Bool
  pub transmit_buffer : List ℕ

unfoldable pub new : Uart
new = record {
  interrupt_enable_register = 0;
  line_control_register = 0;
  modem_control_register = 0;
  scratch_register = 0;
  divisor_latch_low = 0;
  divisor_latch_high = 0;
  receive_buffer = [];
  irq_pending = false;
  capture_tx = false;
  transmit_buffer = [];
}

abbrev pub is_empty : List ℕ → Bool
is_empty [] = true
is_empty (_ ∷ _) = false

unfoldable pub get_interrupt_id : Uart → ℕ
get_interrupt_id u =
    let has_data = not (is_empty u.receive_buffer) in
    if has u.interrupt_enable_register ier_rx_ready && has_data
    then iir_rx_ready
    else if has u.interrupt_enable_register ier_tx_empty
    then iir_tx_empty
    else iir_no_int

unfoldable pub update_irq : Uart → Uart
update_irq u = record u { irq_pending = not (get_interrupt_id u == iir_no_int) }

unfoldable pub get_line_status : Uart → ℕ
get_line_status u =
    let lsr = bit_or lsr_tx_empty lsr_tx_idle in
    if is_empty u.receive_buffer then lsr else bit_or lsr lsr_data_ready

unfoldable pub is_divisor_latch_mode : Uart → Bool
is_divisor_latch_mode u = has u.line_control_register 0x80

unfoldable pub drain_tx : Uart → Uart × List ℕ
drain_tx u = (record u { transmit_buffer = [] }, u.transmit_buffer)

unfoldable pub tx_is_empty : Uart → Bool
tx_is_empty u = is_empty u.transmit_buffer

unfoldable pub drain_rx : Uart → Uart
drain_rx u = record u { receive_buffer = [] }

unfoldable pub push_rx : Uart → ℕ → Uart
unfolding update_irq
push_rx u byte = update_irq (record u { receive_buffer = u.receive_buffer ++ (byte ∷ []) })

unfoldable pub rx_pending : Uart → Bool
rx_pending u = not (is_empty u.receive_buffer)

-- `pop_front().unwrap_or(0)` and the queue after it.
abbrev pub pop_front : List ℕ → List ℕ × ℕ
pop_front [] = ([], 0)
pop_front (byte ∷ bytes) = (bytes, byte)

unfoldable pub read_register : Uart → ℕ → Uart × ℕ
read_register u offset =
    if offset == rbr_thr
    then (if is_divisor_latch_mode u then (u, u.divisor_latch_low) else (
      update_irq (record u { receive_buffer = (pop_front u.receive_buffer).0 }),
      (pop_front u.receive_buffer).1,
    ))
    else if offset == interrupt_enable_register_offset
    then (if is_divisor_latch_mode u
        then (u, u.divisor_latch_high)
        else (u, u.interrupt_enable_register))
    else if offset == interrupt_id_fifo_control_register
    then (u, get_interrupt_id u)
    else if offset == line_control_register_offset
    then (u, u.line_control_register)
    else if offset == modem_control_register_offset
    then (u, u.modem_control_register)
    else if offset == line_status_register
    then (u, get_line_status u)
    else if offset == scratch_register_offset
    then (u, u.scratch_register)
    else (u, 0)

-- The state after the write, and the byte that goes to the standard output.
unfoldable pub write_register : Uart → ℕ → ℕ → Uart × Option ℕ
write_register u offset value =
    if offset == rbr_thr
    then (if is_divisor_latch_mode u
        then (record u { divisor_latch_low = value }, none)
        else if u.capture_tx
        then (update_irq (record u { transmit_buffer = u.transmit_buffer ++ (value ∷ []) }), none)
        else (update_irq u, some value))
    else if offset == interrupt_enable_register_offset
    then (if is_divisor_latch_mode u
        then (record u { divisor_latch_high = value }, none)
        else (update_irq (record u { interrupt_enable_register = value }), none))
    else if offset == interrupt_id_fifo_control_register
    then (u, none)
    else if offset == line_control_register_offset
    then (record u { line_control_register = value }, none)
    else if offset == modem_control_register_offset
    then (record u { modem_control_register = value }, none)
    else if offset == line_status_register
    then (u, none)
    else if offset == scratch_register_offset
    then (record u { scratch_register = value }, none)
    else (u, none)

-- The bytes of the buffer, one write each.
unfoldable pub write_each : List ℕ → List ℕ
write_each [] = []
write_each (byte ∷ bytes) = (byte ∷ []) ++ write_each bytes

unfoldable pub serialize : Uart → List ℕ
serialize u =
    (u.interrupt_enable_register ∷ u.line_control_register ∷ u.modem_control_register
      ∷ u.scratch_register ∷ u.divisor_latch_low ∷ u.divisor_latch_high ∷ [])
    ++ (to_le_bytes 8 (length u.receive_buffer) ++ write_each u.receive_buffer)

unfoldable pub put_registers : List ℕ → Uart → Uart
put_registers regs u = record u {
  interrupt_enable_register = get_or regs 0 0;
  line_control_register = get_or regs 1 0;
  modem_control_register = get_or regs 2 0;
  scratch_register = get_or regs 3 0;
  divisor_latch_low = get_or regs 4 0;
  divisor_latch_high = get_or regs 5 0;
}

-- The loop that reads `len` bytes into `buffer`, and the reader after it.
unfoldable pub read_bytes : ℕ → List ℕ → List ℕ → Option (List ℕ × List ℕ)
read_bytes zero buffer reader = some (buffer, reader)
read_bytes (suc len) buffer reader = elim (read_exact 1 reader) [
  | none ↦ none
  | some (byte, rest) ↦ read_bytes len (buffer ++ byte) rest
]

unfoldable pub set_receive_buffer : Uart → Option (List ℕ × List ℕ) → Restored Uart
unfolding update_irq
set_receive_buffer u none = ended u
set_receive_buffer u (some (buffer, rest)) =
    restored (update_irq (record u { receive_buffer = buffer })) rest

-- The bytes of the length are read, then the bytes of the buffer.
unfoldable pub read_receive_buffer : Restored Uart → Restored Uart
read_receive_buffer (ended u) = ended u
read_receive_buffer (restored u reader) = elim (read_exact 8 reader) [
  | none ↦ ended u
  | some (length_buffer, rest) ↦
      set_receive_buffer u (read_bytes (from_le_bytes length_buffer) [] rest)
]

unfoldable pub deserialize : Uart → List ℕ → Restored Uart
deserialize u reader = read_receive_buffer (field 6 put_registers (restored u reader))
