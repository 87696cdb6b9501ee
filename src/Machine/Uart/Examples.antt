-- ===== src/Machine/Uart/Examples.antt =====
-- A serial port whose receiver's interrupt is enabled, with two bytes waiting.
use vpod.Prelude.{◌≡◌, refl, true, false, [], ◌∷◌, ◌++◌, arith}
use vpod.Stream.{restored}
use vpod.Machine.Uart.{
  Uart, new, update_irq, is_divisor_latch_mode, rx_pending, get_interrupt_id, drain_rx, serialize,
  deserialize,
}
use vpod.Machine.Uart.Irq.{
  IsSynced, accesses, read, write, receive, drain, accesses-IsSynced, drain_rx_stale,
}
use vpod.Machine.Uart.Queue.{push_all, reads, after_reads, reads-push_all}
use vpod.Machine.Uart.RoundTrip.{deserialize-serialize_uart}

abbrev waiting : Uart
unfolding new
waiting = record new {
  interrupt_enable_register = 1;
  receive_buffer = 104 ∷ 105 ∷ [];
  irq_pending = true;
  capture_tx = true;
}

waiting-IsSynced : IsSynced waiting
unfolding waiting IsSynced rx_pending
waiting-IsSynced = refl

accesses-IsSynced_example :
    IsSynced (accesses (read 0 ∷ read 0 ∷ write 1 3 ∷ receive 7 ∷ drain ∷ []) waiting)
accesses-IsSynced_example =
    accesses-IsSynced (read 0 ∷ read 0 ∷ write 1 3 ∷ receive 7 ∷ drain ∷ []) waiting
      waiting-IsSynced

drain_rx_stale_example :
    ((drain_rx waiting).irq_pending ≡ true)
    × (rx_pending (drain_rx waiting) ≡ false)
    × (get_interrupt_id (drain_rx waiting) ≡ 1)
unfolding waiting rx_pending
drain_rx_stale_example = drain_rx_stale waiting waiting-IsSynced refl refl refl

reads-push_all_example :
    (reads 3 (push_all waiting (106 ∷ [])) ≡ 104 ∷ 105 ∷ 106 ∷ [])
    × ((after_reads 3 (push_all waiting (106 ∷ []))).receive_buffer ≡ [])
unfolding waiting is_divisor_latch_mode
reads-push_all_example = reads-push_all waiting (106 ∷ []) refl

deserialize-serialize_uart_example :
    deserialize new (serialize waiting ++ (9 ∷ []))
    ≡ restored
        (update_irq
          (record waiting { capture_tx = new.capture_tx; transmit_buffer = new.transmit_buffer }))
        (9 ∷ [])
unfolding waiting
deserialize-serialize_uart_example = deserialize-serialize_uart waiting new (9 ∷ []) (omega arith)
