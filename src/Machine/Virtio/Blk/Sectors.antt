-- ===== src/Machine/Virtio/Blk/Sectors.antt =====
-- What the requests of crates/machine/src/virtio/blk.rs read and write of the file.
use mathlib.Core.List.{append-nil}
use vpod.Prelude.{
  ℕ, ◌+◌, ◌-◌, ◌*◌, ◌/◌, ◌%◌, ◌^◌, ◌<◌, ◌≤◌, max, true, false, ltb, leb, ◌==◌, ◌&&◌, if◌then◌else◌,
  some, List, ◌++◌, length, take, drop, get_or, get_or-take, get_or-drop, get_or-append_left,
  get_or-append_right, list_ext, length-take, length-drop, length-append, Bool-cases, inl, inr, ◌≡◌,
  refl, ap, sym, ◌∙◌, arith,
}
use vpod.Machine.Virtio.RamView.{RamView, splice, read_bytes, write_bytes}
use vpod.Machine.Virtio.Blk.{VirtioBlk, read_at, write_at, read_sectors, write_sectors}

length-splice_at :
    (file : List ℕ) (position : ℕ) (bytes : List ℕ)
    → position ≤ length file
    → length (splice file position bytes) ≡ max (length file) (position + length bytes)
length-splice_at file position bytes h =
    length-append (take position file ++ bytes) (drop (position + length bytes) file)
    ∙ omega (
      arith,
      length-append (take position file) bytes,
      length-take position file,
      length-drop (position + length bytes) file,
    )

get_or-splice :
    (file : List ℕ) (position : ℕ) (bytes : List ℕ) (i : ℕ)
    → position ≤ length file
    → get_or (splice file position bytes) i 0 ≡ (
        if leb position i && ltb i (position + length bytes)
        then get_or bytes (i - position) 0
        else get_or file i 0)
get_or-splice file position bytes i h =
    let front_size : length (take position file ++ bytes) ≡ position + length bytes =
      length-append (take position file) bytes ∙ omega (arith, length-take position file) in
    elim (Bool-cases (ltb i position)) [
      | inl before ↦
          get_or-append_left (take position file ++ bytes) (drop (position + length bytes) file) i 0
            (ground (arith, front_size))
          ∙ get_or-append_left (take position file) bytes i 0
              (ground (arith, length-take position file))
          ∙ get_or-take position file i 0 (ground arith)
          ∙ ground arith
      | inr after ↦ elim (Bool-cases (ltb i (position + length bytes))) [
        | inl within ↦
            get_or-append_left (take position file ++ bytes) (drop (position + length bytes) file) i
              0 (ground (arith, front_size))
            ∙ get_or-append_right (take position file) bytes i 0
                (ground (arith, length-take position file))
            ∙ ap (λ (k : ℕ). get_or bytes k 0) {y = i - position}
                (omega (arith, length-take position file))
            ∙ ground arith
        | inr beyond ↦
            get_or-append_right (take position file ++ bytes) (drop (position + length bytes) file)
              i 0 (ground (arith, front_size))
            ∙ get_or-drop (position + length bytes) file (i - length (take position file ++ bytes))
                0
            ∙ ap (λ (k : ℕ). get_or file k 0) {y = i} (ground (arith, front_size))
            ∙ ground arith
      ]
    ]

write_at-splice :
    (file : List ℕ) (position : ℕ) (bytes : List ℕ)
    → position ≤ length file
    → 0 < length bytes
    → write_at file position bytes ≡ splice file position bytes
unfolding write_at
write_at-splice file position bytes h pos =
    let some_bytes : (length bytes == 0) ≡ false = ground arith in
    let no_gap : position - length file ≡ 0 = omega arith in
    rw (some_bytes, no_gap, append-nil) refl

-- A range of the file that was written reads as what was written.
read_at-write_at :
    (file : List ℕ) (position : ℕ) (bytes : List ℕ)
    → position ≤ length file
    → 0 < length bytes
    → read_at (write_at file position bytes) position (length bytes) ≡ some bytes
unfolding read_at
read_at-write_at file position bytes h pos =
    let written = write_at-splice file position bytes h pos in
    let size = length-splice_at file position bytes h in
    let fits : leb (position + length bytes) (length (splice file position bytes)) ≡ true =
      ground (arith, size) in
    rw (written, fits)
      (ap some (
        list_ext (take (length bytes) (drop position (splice file position bytes))) bytes 0
          same_size same))
  where
    same_size :
        length (take (length bytes) (drop position (splice file position bytes))) ≡ length bytes
    same_size =
        length-take (length bytes) (drop position (splice file position bytes))
        ∙ omega (
          arith,
          length-drop position (splice file position bytes),
          length-splice_at file position bytes h,
        )

    same :
        (i : ℕ)
        → i < length (take (length bytes) (drop position (splice file position bytes)))
        → get_or (take (length bytes) (drop position (splice file position bytes))) i 0
          ≡ get_or bytes i 0
    same i l =
        let below : i < length bytes = omega (arith, same_size) in
        get_or-take (length bytes) (drop position (splice file position bytes)) i 0 below
        ∙ get_or-drop position (splice file position bytes) i 0
        ∙ get_or-splice file position bytes (position + i) h
        ∙ within below
      where
        within :
            i < length bytes
            → (if leb position (position + i) && ltb (position + i) (position + length bytes)
                then get_or bytes (position + i - position) 0
                else get_or file (position + i) 0)
              ≡ get_or bytes i 0
        within below =
            let back : position + i - position ≡ i = omega arith in rw back (ground arith)

-- The sectors of a device are those of its file, whose positions the host can seek.
pub record IsDisk (blk : VirtioBlk) : Type 0 where
  pub counted : blk.sector_count ≡ length blk.file / 512
  pub seekable : length blk.file < 2 ^ 63

-- On a device that counts the sectors of its file, bytes that a request writes within the file are
-- what a later request for the same sectors reads.
pub read_sectors-write_sectors :
    (blk : VirtioBlk) (ram : RamView) (source destination sector : ℕ) (bytes : List ℕ)
    → IsDisk blk
    → 0 < length bytes
    → sector * 512 + length bytes ≤ length blk.file
    → read_bytes ram source (length bytes) ≡ some bytes
    → (blk' : VirtioBlk) × (write_sectors blk ram source (length bytes) sector ≡ some (some blk'))
      × IsDisk blk'
      × (read_sectors blk' ram destination (length bytes) sector
          ≡ some (write_bytes ram destination bytes))
unfolding write_sectors read_sectors
read_sectors-write_sectors blk ram source destination sector bytes d pos fits e =
    let at : sector * 512 % 2 ^ 64 ≡ sector * 512 = omega (arith, d.seekable) in
    let in_range : ltb blk.sector_count ((sector + length bytes / 512) % 2 ^ 64) ≡ false =
      ground (arith, d.counted, d.seekable) in
    let seeks : ltb (sector * 512) (2 ^ 63) ≡ true = ground (arith, d.seekable) in
    (
      record blk { file = write_at blk.file (sector * 512) bytes },
      rw (at, in_range, seeks, e) refl,
      record {
        counted = d.counted ∙ ap (λ (n : ℕ). n / 512) (sym size);
        seekable = omega (arith, size, d.seekable);
      },
      rw (at, in_range, seeks, read_at-write_at blk.file (sector * 512) bytes (omega arith) pos)
          refl,
    )
  where
    size : length (write_at blk.file (sector * 512) bytes) ≡ length blk.file
    size =
        ap length (write_at-splice blk.file (sector * 512) bytes (omega arith) pos)
        ∙ length-splice_at blk.file (sector * 512) bytes (omega arith)
        ∙ omega arith

-- On a file of whole sectors, a write of less than one sector behind the last sector is accepted:
-- the file grows by its bytes.
pub write_sectors_past_end :
    (blk : VirtioBlk) (ram : RamView) (source : ℕ) (bytes : List ℕ)
    → IsDisk blk
    → blk.sector_count * 512 ≡ length blk.file
    → 0 < length bytes
    → length bytes < 512
    → read_bytes ram source (length bytes) ≡ some bytes
    → (blk' : VirtioBlk) × (write_sectors blk ram source (length bytes) blk.sector_count
        ≡ some (some blk'))
      × (length blk'.file ≡ length blk.file + length bytes)
unfolding write_sectors
write_sectors_past_end blk ram source bytes d whole pos short e =
    let at : blk.sector_count * 512 % 2 ^ 64 ≡ blk.sector_count * 512 = omega (arith, d.seekable) in
    let in_range : ltb blk.sector_count ((blk.sector_count + length bytes / 512) % 2 ^ 64) ≡ false =
      ground (arith, d.counted, d.seekable) in
    let seeks : ltb (blk.sector_count * 512) (2 ^ 63) ≡ true = ground (arith, d.seekable) in
    (
      record blk { file = write_at blk.file (blk.sector_count * 512) bytes },
      rw (at, in_range, seeks, e) refl,
      ap length (write_at-splice blk.file (blk.sector_count * 512) bytes (omega arith) pos)
          ∙ length-splice_at blk.file (blk.sector_count * 512) bytes (omega arith)
          ∙ omega arith,
    )
