-- ===== src/Machine/Uart/Irq.antt =====
-- The interrupt line of the serial port of crates/machine/src/uart.rs follows its buffer and its enable bits.
use vpod.Prelude.{
  ℕ, has, true, false, ◌&&◌, ◌||◌, ◌≡◌, refl, Option, none, some, List, [], ◌∷◌, arith,
}
use vpod.Stream.{Restored, restored, ended, read_exact, from_le_bytes}
use vpod.Machine.Uart.{
  Uart, new, get_interrupt_id, update_irq, rx_pending, read_register, write_register, push_rx,
  drain_tx, drain_rx, deserialize, set_receive_buffer, read_receive_buffer, read_bytes,
  ier_rx_ready, ier_tx_empty,
}

-- The line is up exactly if data waits and its interrupt is enabled, or that of the transmitter is.
unfoldable pub IsSynced : Uart → Type 0
IsSynced u = u.irq_pending ≡ (
    has u.interrupt_enable_register ier_rx_ready && rx_pending u
    || has u.interrupt_enable_register ier_tx_empty)

update_irq-IsSynced : (u : Uart) → IsSynced (update_irq u)
unfolding IsSynced update_irq get_interrupt_id rx_pending
update_irq-IsSynced u = ground arith

-- What the guest and the host do to the port.
pub data Access : Type 0 where
  read : ℕ → Access
  write : ℕ → ℕ → Access
  receive : ℕ → Access
  drain : Access

unfoldable pub access : Access → Uart → Uart
access (read offset) u = (read_register u offset).0
access (write offset value) u = (write_register u offset value).0
access (receive byte) u = push_rx u byte
access drain u = (drain_tx u).0

unfoldable pub accesses : List Access → Uart → Uart
accesses [] u = u
accesses (a ∷ rest) u = accesses rest (access a u)

new-IsSynced : IsSynced new
unfolding new IsSynced rx_pending
new-IsSynced = refl

read-IsSynced : (u : Uart) (offset : ℕ) → IsSynced u → IsSynced (read_register u offset).0
unfolding read_register IsSynced update_irq get_interrupt_id rx_pending
read-IsSynced u offset h = ground arith

write-IsSynced :
    (u : Uart) (offset value : ℕ) → IsSynced u → IsSynced (write_register u offset value).0
unfolding write_register IsSynced update_irq get_interrupt_id rx_pending
write-IsSynced u offset value h = ground arith

access-IsSynced : (a : Access) (u : Uart) → IsSynced u → IsSynced (access a u)
unfolding access push_rx drain_tx
access-IsSynced (read offset) u h = read-IsSynced u offset h
access-IsSynced (write offset value) u h = write-IsSynced u offset value h
access-IsSynced (receive byte) u h = update_irq-IsSynced _
access-IsSynced drain u h = unfold IsSynced rx_pending in h

-- From any state whose line is right, it stays right whatever the guest and the host do.
pub accesses-IsSynced : (todo : List Access) (u : Uart) → IsSynced u → IsSynced (accesses todo u)
unfolding accesses
accesses-IsSynced [] u h = h
accesses-IsSynced (a ∷ rest) u h = accesses-IsSynced rest (access a u) (access-IsSynced a u h)

-- What a restore leaves: the line is right if the input sufficed.
pub data RestoredSynced : Restored Uart → Type 0 where
  whole : {u : Uart} {rest : List ℕ} → IsSynced u → RestoredSynced (restored u rest)
  cut_short : {u : Uart} → RestoredSynced (ended u)

set_receive_buffer-synced :
    (u : Uart) (o : Option (List ℕ × List ℕ)) → RestoredSynced (set_receive_buffer u o)
unfolding set_receive_buffer
set_receive_buffer-synced u none = cut_short
set_receive_buffer-synced u (some (buffer, rest)) = whole (update_irq-IsSynced _)

read_receive_buffer-synced : (r : Restored Uart) → RestoredSynced (read_receive_buffer r)
unfolding read_receive_buffer
read_receive_buffer-synced (ended u) = cut_short
read_receive_buffer-synced (restored u reader) = by_length (read_exact 8 reader)
  where
    by_length :
        (o : Option (List ℕ × List ℕ))
        → RestoredSynced (elim o [
          | none ↦ ended u
          | some (length_buffer, rest) ↦
              set_receive_buffer u (read_bytes (from_le_bytes length_buffer) [] rest)
        ])
    by_length none = cut_short
    by_length (some (length_buffer, rest)) = set_receive_buffer-synced u _

-- A restore that succeeds leaves the line right, whatever was there before.
pub deserialize-synced : (old : Uart) (reader : List ℕ) → RestoredSynced (deserialize old reader)
unfolding deserialize
deserialize-synced old reader = read_receive_buffer-synced _

-- In a state whose line is right, with data waiting, its interrupt enabled and that of the
-- transmitter not: `drain_rx` leaves the line up, with no data and no interrupt identified.
pub drain_rx_stale :
    (u : Uart)
    → IsSynced u
    → rx_pending u ≡ true
    → has u.interrupt_enable_register ier_rx_ready ≡ true
    → has u.interrupt_enable_register ier_tx_empty ≡ false
    → ((drain_rx u).irq_pending ≡ true)
      × (rx_pending (drain_rx u) ≡ false)
      × (get_interrupt_id (drain_rx u) ≡ 1)
unfolding IsSynced drain_rx rx_pending get_interrupt_id
drain_rx_stale u h waiting enabled quiet = ground arith
