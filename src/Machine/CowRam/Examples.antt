-- ===== src/Machine/CowRam/Examples.antt =====
-- A RAM of three pages, with a write across the end of the first.
use vpod.Prelude.{ℕ, ◌%◌, ◌==◌, ◌||◌, if◌then◌else◌, ◌≡◌, refl, some, none, [], ◌∷◌, false, arith}
use vpod.Bits.{bit-zero}
use vpod.Stream.{from_le_bytes}
use vpod.Machine.CowRam.{
  Memory, new, padded_len, next_epoch, read_u8, read_u16, read_u32, read_u64, write_from,
  write_pages, write_slice, put_page, copy_slice, page_mut, bytes_at, drain_device_written_pages,
}
use vpod.Machine.CowRam.Contents.{contents, reads-contents}
use vpod.Machine.CowRam.Writes.{Written, write_from-Written}
use vpod.Machine.CowRam.Devices.{
  IsNoted, AllFit, any_touches, count, note_all, marked, drained_once,
}

abbrev small : Memory
small = record {
  ram = record {
    base = λ _. 0;
    pages = λ _. none;
    num_pages = 3;
    len = 8200;
    mask = 8191;
    epoch = 1;
    device_written_pages = [];
    device_written_seen = λ _. 0;
  };
  epoch_source = 2;
}

new-small : new 8192 1 ≡ small
unfolding new padded_len next_epoch
new-small = refl

reads-contents_example :
    (read_u8 small.ram 4094 ≡ some (contents small.ram 4094))
    × (read_u16 small.ram 4094 ≡ some (from_le_bytes (bytes_at (contents small.ram) 4094 2)))
    × (read_u32 small.ram 4094 ≡ some (from_le_bytes (bytes_at (contents small.ram) 4094 4)))
    × (read_u64 small.ram 4094 ≡ some (from_le_bytes (bytes_at (contents small.ram) 4094 8)))
reads-contents_example = reads-contents small.ram 4094 (omega arith)

write_from-Written_example :
    Written small 4094 (1 ∷ 2 ∷ 3 ∷ []) (write_from small 4094 (1 ∷ 2 ∷ 3 ∷ []))
write_from-Written_example =
    write_from-Written small 4094 (1 ∷ 2 ∷ 3 ∷ []) (omega arith) (omega arith)

-- A page that has its own copy already.
abbrev copied : Memory
copied = record small {
  ram = record small.ram { pages = λ i. if i == 1 then some (λ _. 7) else none };
}

abbrev rewritten : Memory
rewritten = record copied { ram = put_page copied.ram 1 (copy_slice (λ _. 7) 4 (9 ∷ [])) }

rewrites : write_from copied 4100 (9 ∷ []) ≡ some rewritten
unfolding write_from write_pages write_slice page_mut
rewrites = refl

unmarked-IsNoted : IsNoted small.ram
unfolding count
unmarked-IsNoted = record { words = λ i. omega arith; once = λ q. rw (bit-zero (q % 64)) refl }

writes-AllFit : AllFit ((10, 4) ∷ (20, 4) ∷ (4094, 4) ∷ [])
writes-AllFit = (omega arith, (omega arith, (omega arith, omega arith)))

drained_once_example :
    let noted = note_all small.ram ((10, 4) ∷ (20, 4) ∷ (4094, 4) ∷ []) in
    ((q : ℕ)
      → count q (drain_device_written_pages noted).1 ≡ (
          if marked (λ _. 0) q || any_touches ((10, 4) ∷ (20, 4) ∷ (4094, 4) ∷ []) q then 1 else 0))
    × IsNoted (drain_device_written_pages noted).0
    × ((q : ℕ) → marked (drain_device_written_pages noted).0.device_written_seen q ≡ false)
drained_once_example =
    drained_once small.ram ((10, 4) ∷ (20, 4) ∷ (4094, 4) ∷ []) unmarked-IsNoted writes-AllFit
