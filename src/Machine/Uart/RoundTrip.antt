-- ===== src/Machine/Uart/RoundTrip.antt =====
-- Saving the serial port of crates/machine/src/uart.rs and restoring it.
use mathlib.Core.List.{append_assoc, append-nil}
use vpod.Prelude.{ℕ, ◌^◌, ◌<◌, ◌≡◌, refl, ap, ◌∙◌, some, List, [], ◌∷◌, ◌++◌, length, arith}
use vpod.Stream.{
  restored, to_le_bytes, read_exact, from-to_le_bytes, length-to_le_bytes, read_exact-append, field,
}
use vpod.Machine.Uart.{
  Uart, update_irq, serialize, deserialize, write_each, read_bytes, read_receive_buffer,
  set_receive_buffer, put_registers, get_interrupt_id,
}

write_each_lem : (bytes : List ℕ) → write_each bytes ≡ bytes
unfolding write_each
write_each_lem [] = refl
write_each_lem (byte ∷ bytes) = ap (λ (t : List ℕ). byte ∷ t) (write_each_lem bytes)

read_bytes-append :
    (bytes buffer rest : List ℕ)
    → read_bytes (length bytes) buffer (bytes ++ rest) ≡ some (buffer ++ bytes, rest)
unfolding read_bytes read_exact
read_bytes-append [] buffer rest = rw append-nil
read_bytes-append (byte ∷ bytes) buffer rest =
    read_bytes-append bytes (buffer ++ (byte ∷ [])) rest ∙ rw append_assoc

-- With fewer than 2 ^ 64 bytes received, restoring what was saved gives the saved port with its line brought up to date; what is not
-- saved, the capture and its buffer, is as it was before. No more is read.
pub deserialize-serialize_uart :
    (u old : Uart) (rest : List ℕ)
    → length u.receive_buffer < 2 ^ 64
    → deserialize old (serialize u ++ rest)
      ≡ restored
          (update_irq
            (record u { capture_tx = old.capture_tx; transmit_buffer = old.transmit_buffer }))
          rest
unfolding deserialize serialize read_receive_buffer set_receive_buffer put_registers update_irq
    get_interrupt_id field read_exact
deserialize-serialize_uart u old rest h =
    rw
      (
        append_assoc,
        read_receive_buffer,
        read_exact-append 8 (to_le_bytes 8 (length u.receive_buffer)) _
            (length-to_le_bytes 8 (length u.receive_buffer)),
        from-to_le_bytes 8 (length u.receive_buffer) (omega arith),
        write_each_lem u.receive_buffer,
        read_bytes-append u.receive_buffer [] rest,
        set_receive_buffer,
      )
      refl
