-- ===== src/Machine/Virtio/Blk/Requests.antt =====
-- Requests of several buffers, of crates/machine/src/virtio/blk.rs.
use vpod.Prelude.{
  ℕ, ◌+◌, ◌-◌, ◌*◌, ◌/◌, ◌%◌, ◌^◌, ◌<◌, ◌≤◌, true, false, ltb, leb, some, List, [], ◌∷◌, length,
  take, drop, get_or, get_or-take, get_or-drop, length-take, length-drop, inl, inr, ◌⊎◌, ◌≡◌, refl,
  ap, ◌∙◌, arith,
}
use vpod.Machine.CowRam.Contents.{contents}
use vpod.Machine.CowRam.Slices.{overlay}
use vpod.Machine.CowRam.Writes.{overlay_at}
use vpod.Machine.Virtio.RamView.{RamView, ram_base, write_bytes}
use vpod.Machine.Virtio.RamView.Access.{
  IsPlain, InRam, IsStored, byte_at, overlay_beside, write_bytes-Stores,
}
use vpod.Machine.Virtio.Blk.{
  VirtioBlk, Buffer, read_at, read_sectors, read_buffers, data_bufs, do_read, blk_s_ok,
}
use vpod.Machine.Virtio.Blk.Sectors.{IsDisk}

-- The bytes of the file from a sector on.
abbrev pub sector_bytes : VirtioBlk → ℕ → ℕ → List ℕ
sector_bytes blk sector len = take len (drop (sector * 512) blk.file)

-- A read within the file writes the bytes of the sectors to the RAM.
pub read_sectors_lem :
    (blk : VirtioBlk) (ram : RamView) (destination len sector : ℕ)
    → IsDisk blk
    → sector * 512 + len ≤ length blk.file
    → 0 < len
    → read_sectors blk ram destination len sector
      ≡ some (write_bytes ram destination (sector_bytes blk sector len))
unfolding read_sectors read_at
read_sectors_lem blk ram destination len sector d fits pos =
    let at : sector * 512 % 2 ^ 64 ≡ sector * 512 = omega (arith, d.seekable) in
    let in_range : ltb blk.sector_count ((sector + len / 512) % 2 ^ 64) ≡ false =
      ground (arith, d.counted, d.seekable) in
    let seeks : ltb (sector * 512) (2 ^ 63) ≡ true = ground (arith, d.seekable) in
    let there : leb (sector * 512 + len) (length blk.file) ≡ true = ground arith in
    rw (at, in_range, seeks, there) refl

length-sector_bytes :
    (blk : VirtioBlk) (sector len : ℕ)
    → sector * 512 + len ≤ length blk.file
    → length (sector_bytes blk sector len) ≡ len
length-sector_bytes blk sector len fits =
    length-take len (drop (sector * 512) blk.file)
    ∙ omega (arith, length-drop (sector * 512) blk.file)

get_or-sector_bytes :
    (blk : VirtioBlk) (sector len i : ℕ)
    → i < len
    → get_or (sector_bytes blk sector len) i 0 ≡ get_or blk.file (sector * 512 + i) 0
get_or-sector_bytes blk sector len i h =
    get_or-take len (drop (sector * 512) blk.file) i 0 h ∙ get_or-drop (sector * 512) blk.file i 0

-- A byte of what was stored, and one beside it.
pub byte_at-IsStored :
    (k : ℕ) (v v' : RamView) (pa j : ℕ) (bytes : List ℕ)
    → IsStored k v pa bytes v'
    → ram_base ≤ pa
    → j < length bytes
    → byte_at v' (pa + j) ≡ get_or bytes j 0
byte_at-IsStored k v v' pa j bytes s a h =
    s.stored (pa + j - ram_base)
    ∙ ap (overlay (contents v.memory.ram) (pa - ram_base) bytes) (omega arith)
    ∙ overlay_at (contents v.memory.ram) (pa - ram_base) bytes j h

pub byte_at_beside :
    (k : ℕ) (v v' : RamView) (pa other : ℕ) (bytes : List ℕ)
    → IsStored k v pa bytes v'
    → ram_base ≤ pa
    → ram_base ≤ other
    → (other < pa) ⊎ (pa + length bytes ≤ other)
    → byte_at v' other ≡ byte_at v other
byte_at_beside k v v' pa other bytes s a b h =
    s.stored (other - ram_base)
    ∙ overlay_beside (contents v.memory.ram) (pa - ram_base) (other - ram_base) bytes (beside h)
  where
    beside :
        (other < pa) ⊎ (pa + length bytes ≤ other)
        → (other - ram_base < pa - ram_base) ⊎ (pa - ram_base + length bytes ≤ other - ram_base)
    beside (inl before) = inl (omega arith)
    beside (inr after) = inr (omega arith)

-- A read request with two data buffers of one length that do not overlap, within the file and the
-- RAM, with nothing staged and while epochs are left, succeeds; both buffers then hold the bytes of
-- the same sectors, those of the first.
pub do_read_repeats :
    (k : ℕ) (blk : VirtioBlk) (ram : RamView) (sector addr other len : ℕ) (status : Buffer)
    → IsDisk blk
    → IsPlain k ram
    → ram.memory.epoch_source + (len + len) < 2 ^ 64
    → 0 < len
    → sector * 512 + len ≤ length blk.file
    → InRam k addr len
    → InRam k other len
    → (addr + len ≤ other) ⊎ (other + len ≤ addr)
    → (ram' : RamView) × (do_read blk ram sector ((addr, len) ∷ (other, len) ∷ status ∷ [])
        ≡ some (ram', blk_s_ok))
      × ((j : ℕ)
          → j < len
          → (byte_at ram' (addr + j) ≡ get_or blk.file (sector * 512 + j) 0)
            × (byte_at ram' (other + j) ≡ get_or blk.file (sector * 512 + j) 0))
unfolding do_read data_bufs read_buffers
do_read_repeats k blk ram sector addr other len status d p e pos fits a b apart =
    let bytes = sector_bytes blk sector len in
    let size = length-sector_bytes blk sector len fits in
    let first =
      write_bytes-Stores k ram addr bytes p (omega (arith, size)) (omega (arith, size))
        (a.0, omega (arith, size, a.1)) in
    let second =
      write_bytes-Stores k first.0 other bytes first.2.plain (omega (arith, size, first.2.drawn))
        (omega (arith, size)) (b.0, omega (arith, size, b.1)) in
    (
      second.0,
      rw
          (
            read_sectors_lem blk ram addr len sector d fits pos,
            first.1,
            read_sectors_lem blk first.0 other len sector d fits pos,
            second.1,
          )
          refl,
      λ j h. (
        byte_at_beside k first.0 second.0 other (addr + j) bytes second.2 b.0 (omega (arith, a.0))
              (beside j h apart)
            ∙ byte_at-IsStored k ram first.0 addr j bytes first.2 a.0 (omega (arith, size))
            ∙ get_or-sector_bytes blk sector len j h,
        byte_at-IsStored k first.0 second.0 other j bytes second.2 b.0 (omega (arith, size))
            ∙ get_or-sector_bytes blk sector len j h,
      ),
    )
  where
    beside :
        (j : ℕ)
        → j < len
        → (addr + len ≤ other) ⊎ (other + len ≤ addr)
        → (addr + j < other) ⊎ (other + length (sector_bytes blk sector len) ≤ addr + j)
    beside j h (inl before) = inl (omega arith)
    beside j h (inr after) = inr (omega (arith, length-sector_bytes blk sector len fits))
