-- ===== src/Machine/Plic/RoundTrip.antt =====
-- Saving the interrupt controller and restoring it.
use mathlib.Core.List.{append_assoc}
use vpod.Prelude.{ℕ, ◌^◌, ◌<◌, ◌≡◌, List, ◌++◌, length, arith, some}
use vpod.Stream.{restored, bytes_left, take_bytes, field_left, from-to_le_bytes, field-to_le_bytes}
use vpod.Machine.Plic.{Plic, save_state, restore_state, put_pending, put_served}

-- Restoring what was saved gives the saved controller, whatever was there before, and reads no
-- further.
pub restore_state-save_state :
    (p old : Plic) (rest : List ℕ)
    → p.pending < 2 ^ 32
    → p.served < 2 ^ 32
    → restore_state old (save_state p ++ rest) ≡ restored p rest
unfolding restore_state save_state
restore_state-save_state p old rest hp hs =
    rw
      (
        append_assoc,
        field-to_le_bytes 8 p.pending put_pending old,
        field-to_le_bytes 8 p.served put_served,
      )
      (ground (arith, from-to_le_bytes 8 p.pending, from-to_le_bytes 8 p.served))

-- A restore wants 16 bytes: with fewer the input ends, and with more the rest is left.
pub restore_state_left :
    (old : Plic) (reader : List ℕ)
    → bytes_left (restore_state old reader) ≡ take_bytes 16 (some (length reader))
unfolding restore_state
restore_state_left old reader =
    rw (field_left 8 put_served, field_left 8 put_pending) (ground arith)
