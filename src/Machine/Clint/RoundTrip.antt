-- ===== src/Machine/Clint/RoundTrip.antt =====
-- Saving the timer and restoring it.
use mathlib.Core.List.{append_assoc}
use vpod.Prelude.{ℕ, ◌≡◌, List, ◌++◌, length, some, arith}
use vpod.Stream.{restored, from-to_le_bytes, field-to_le_bytes, bytes_left, take_bytes, field_left}
use vpod.Machine.Clint.{
  Clint, serialize, deserialize, put_mtimecmp, put_msip, put_mtime, put_instruction_counter,
}
use vpod.Machine.Clint.Laws.{IsValid}

-- Restoring what was saved gives the saved timer, whatever was there before, and reads no further.
pub deserialize-serialize :
    (c old : Clint) (rest : List ℕ)
    → IsValid c
    → deserialize old (serialize c ++ rest) ≡ restored c rest
unfolding deserialize serialize
deserialize-serialize c old rest v =
    rw
      (
        append_assoc,
        append_assoc,
        append_assoc,
        field-to_le_bytes 8 c.mtimecmp put_mtimecmp old,
        field-to_le_bytes 8 c.msip put_msip,
        field-to_le_bytes 8 c.mtime put_mtime,
        field-to_le_bytes 8 c.instruction_counter put_instruction_counter,
      )
      (ground (
        arith,
        from-to_le_bytes 8 c.mtimecmp,
        from-to_le_bytes 8 c.msip,
        from-to_le_bytes 8 c.mtime,
        from-to_le_bytes 8 c.instruction_counter,
      ))

-- A restore wants 32 bytes: with fewer the input ends, and with more the rest is left.
pub deserialize_left :
    (old : Clint) (reader : List ℕ)
    → bytes_left (deserialize old reader) ≡ take_bytes 32 (some (length reader))
unfolding deserialize
deserialize_left old reader =
    rw
      (
        field_left 8 put_instruction_counter,
        field_left 8 put_mtime,
        field_left 8 put_msip,
        field_left 8 put_mtimecmp,
      )
      (ground arith)
