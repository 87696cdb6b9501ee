-- ===== src/Machine/Uart/Queue.antt =====
-- The receive and transmit queues of the serial port of crates/machine/src/uart.rs keep every byte, in order.
use mathlib.Core.List.{append_assoc, append-nil}
use vpod.Prelude.{
  ℕ, zero, suc, Bool, true, false, ◌≡◌, refl, ap, ap₂, sym, ◌∙◌, List, [], ◌∷◌, ◌++◌, length,
}
use vpod.Machine.Uart.{
  Uart, read_register, write_register, push_rx, drain_tx, pop_front, update_irq,
  is_divisor_latch_mode,
}

-- `push_rx` for each byte.
unfoldable pub push_all : Uart → List ℕ → Uart
push_all u [] = u
push_all u (byte ∷ bytes) = push_all (push_rx u byte) bytes

-- The state after `n` reads of the receiver's register.
unfoldable pub after_reads : ℕ → Uart → Uart
after_reads zero u = u
after_reads (suc n) u = after_reads n (read_register u 0).0

-- The bytes that they give.
unfoldable pub reads : ℕ → Uart → List ℕ
reads zero u = []
reads (suc n) u = (read_register u 0).1 ∷ reads n (read_register u 0).0

-- A write of the transmitter's register for each byte.
unfoldable pub write_all : Uart → List ℕ → Uart
write_all u [] = u
write_all u (byte ∷ bytes) = write_all (write_register u 0 byte).0 bytes

push_all-buffer :
    (bytes : List ℕ) (u : Uart)
    → ((push_all u bytes).receive_buffer ≡ u.receive_buffer ++ bytes)
      × ((push_all u bytes).line_control_register ≡ u.line_control_register)
unfolding push_all push_rx update_irq
push_all-buffer [] u = (sym (append-nil u.receive_buffer), refl)
push_all-buffer (byte ∷ bytes) u =
    let rest = push_all-buffer bytes (push_rx u byte) in
    (rest.0 ∙ append_assoc u.receive_buffer (byte ∷ []) bytes, rest.1)

read_first :
    (u : Uart) (byte : ℕ) (bytes : List ℕ)
    → u.receive_buffer ≡ byte ∷ bytes
    → is_divisor_latch_mode u ≡ false
    → read_register u 0 ≡ (update_irq (record u { receive_buffer = bytes }), byte)
unfolding read_register
read_first u byte bytes e d = rw d (
    ap₂ (λ r b. (update_irq (record u { receive_buffer = r }), b)) (ap (λ q. (pop_front q).0) e)
      (ap (λ q. (pop_front q).1) e))

write_one :
    (u : Uart) (byte : ℕ)
    → is_divisor_latch_mode u ≡ false
    → u.capture_tx ≡ true
    → (write_register u 0 byte).0
      ≡ update_irq (record u { transmit_buffer = u.transmit_buffer ++ (byte ∷ []) })
unfolding write_register
write_one u byte d c = rw (d, ap (λ (b : Bool). b) c) refl

reads-buffer :
    (bytes : List ℕ) (u : Uart)
    → u.receive_buffer ≡ bytes
    → is_divisor_latch_mode u ≡ false
    → (reads (length bytes) u ≡ bytes) × ((after_reads (length bytes) u).receive_buffer ≡ [])
unfolding reads after_reads
reads-buffer [] u e d = (refl, e)
reads-buffer (byte ∷ bytes) u e d =
    let u' = update_irq (record u { receive_buffer = bytes }) in
    let rest =
      reads-buffer bytes u' (unfold update_irq in refl)
        (unfold is_divisor_latch_mode update_irq in d) in
    let next = read_first u byte bytes e d in
    (
      ap (λ (r : Uart × ℕ). r.1 ∷ reads (length bytes) r.0) next
          ∙ ap (λ (t : List ℕ). byte ∷ t) rest.0,
      ap (λ (r : Uart × ℕ). (after_reads (length bytes) r.0).receive_buffer) next ∙ rest.1,
    )

-- Outside the divisor latch mode the reads give the bytes that waited and then those received, each
-- once and in the order of their arrival, and the queue is empty after them.
pub reads-push_all :
    (u : Uart) (bytes : List ℕ)
    → is_divisor_latch_mode u ≡ false
    → let arrived = u.receive_buffer ++ bytes in
      (reads (length arrived) (push_all u bytes) ≡ arrived)
      × ((after_reads (length arrived) (push_all u bytes)).receive_buffer ≡ [])
reads-push_all u bytes d =
    let pushed = push_all-buffer bytes u in
    reads-buffer (u.receive_buffer ++ bytes) (push_all u bytes) pushed.0
      (unfold is_divisor_latch_mode in rw (pushed.1) d)

write_all-buffer :
    (bytes : List ℕ) (u : Uart)
    → is_divisor_latch_mode u ≡ false
    → u.capture_tx ≡ true
    → (write_all u bytes).transmit_buffer ≡ u.transmit_buffer ++ bytes
unfolding write_all
write_all-buffer [] u d c = sym (append-nil u.transmit_buffer)
write_all-buffer (byte ∷ bytes) u d c =
    let u' = update_irq (record u { transmit_buffer = u.transmit_buffer ++ (byte ∷ []) }) in
    ap (λ (v : Uart). (write_all v bytes).transmit_buffer) (write_one u byte d c)
    ∙ write_all-buffer bytes u' (unfold is_divisor_latch_mode update_irq in d)
        (unfold update_irq in c)
    ∙ unfold update_irq in append_assoc u.transmit_buffer (byte ∷ []) bytes

-- With capture on, outside the divisor latch mode, the host drains what the guest wrote, in its
-- order after what was there, and once.
pub drain_tx-write_all :
    (u : Uart) (bytes : List ℕ)
    → is_divisor_latch_mode u ≡ false
    → u.capture_tx ≡ true
    → ((drain_tx (write_all u bytes)).1 ≡ u.transmit_buffer ++ bytes)
      × ((drain_tx (drain_tx (write_all u bytes)).0).1 ≡ [])
unfolding drain_tx
drain_tx-write_all u bytes d c = (write_all-buffer bytes u d c, refl)
