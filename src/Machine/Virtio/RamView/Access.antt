-- ===== src/Machine/Virtio/RamView/Access.antt =====
-- What the accesses of a device read and write, of crates/machine/src/virtio/mod.rs: with nothing staged, the bytes
-- of the RAM at the address.
use native.Mathlib.Nat.{mod-eq_of_lt}
use vpod.Prelude.{
  ℕ, zero, suc, ◌+◌, ◌-◌, ◌/◌, ◌%◌, ◌^◌, ◌<◌, ◌≤◌, bit_and, ◌==◌, Bool-cases, inl, inr, ◌⊎◌, Option,
  none, some, ◌>>=◌, ◌≡◌, refl, ap, sym, ◌∙◌, subst, List, [], ◌∷◌, length, arith,
}
use vpod.Bits.Masks.{and-mask}
use vpod.Bits.{pow_lt}
use vpod.Stream.{to_le_bytes, from_le_bytes, length-to_le_bytes, from-to_le_bytes}
use vpod.Machine.CowRam
use vpod.Machine.CowRam.{
  read_into, read_pages, CowRam, Memory, write_from, note_page, note_pages, note_device_write,
  bytes_at,
}
use vpod.Machine.CowRam.Contents.{
  contents, capacity, reads-contents, bytes_at_congr, read_into-contents,
}
use vpod.Machine.CowRam.Slices.{overlay}
use vpod.Machine.CowRam.Writes.{
  Written, overlay_at, bytes_at-get_or, writes-Written, write_from-Written,
}
use vpod.Machine.Virtio.RamView.{
  RamView, Staging, ram_base, idx, read_n, write_n, read_u16, read_u32, read_u64, write_u8,
  write_u16, write_u32, write_u64, write_bytes, staged, offset_in, splice_or, slice_or, read_bytes,
  noted,
}

-- A view of `2 ^ k` bytes of RAM with nothing staged; the RAM holds 8 bytes more.
pub record IsPlain (k : ℕ) (v : RamView) : Type 0 where
  pub unstaged : v.staging ≡ none
  pub power : k < 63
  pub mask_lem : v.mask ≡ 2 ^ k - 1
  pub fits : 2 ^ k + 8 ≤ capacity v.memory.ram

-- `n` bytes at the address stand in the RAM.
abbrev pub InRam : ℕ → ℕ → ℕ → Type 0
InRam k physical_address n =
    (ram_base ≤ physical_address) × (physical_address - ram_base + n ≤ 2 ^ k)

idx_lem :
    (k : ℕ) (v : RamView) (physical_address n : ℕ)
    → IsPlain k v
    → 0 < n
    → InRam k physical_address n
    → idx v physical_address ≡ physical_address - ram_base
unfolding idx
idx_lem k v pa n p pos h =
    let small : 2 ^ k < 2 ^ 63 = pow_lt k 63 p.power in
    let wrapped : (pa + 2 ^ 64 - ram_base) % 2 ^ 64 ≡ pa - ram_base = omega (arith, h.0, h.1) in
    rw (wrapped, p.mask_lem, and-mask 64 k (pa - ram_base) (omega arith))
      (mod-eq_of_lt (omega (arith, h.1)))

-- The byte of the RAM at an address.
abbrev pub byte_at : RamView → ℕ → ℕ
byte_at v physical_address = contents v.memory.ram (physical_address - ram_base)

-- The little-endian number of `n` bytes there.
abbrev pub word_at : RamView → ℕ → ℕ → ℕ
word_at v n physical_address =
    from_le_bytes (bytes_at (contents v.memory.ram) (physical_address - ram_base) n)

read_n_plain :
    (o : Option Staging) (v : RamView) (physical_address n : ℕ) (direct : Option ℕ)
    → o ≡ none
    → read_n o v physical_address n direct ≡ direct
read_n_plain o v physical_address n direct e = rw e refl

-- The reads of a plain view.
pub reads-word_at :
    (k : ℕ) (v : RamView) (physical_address n : ℕ)
    → IsPlain k v
    → 0 < n
    → InRam k physical_address n
    → (read_u16 v physical_address ≡ some (word_at v 2 physical_address))
      × (read_u32 v physical_address ≡ some (word_at v 4 physical_address))
      × (read_u64 v physical_address ≡ some (word_at v 8 physical_address))
unfolding read_u16 read_u32 read_u64
reads-word_at k v pa n p pos h =
    let at = idx_lem k v pa n p pos h in
    let reads = reads-contents v.memory.ram (pa - ram_base) (omega (arith, p.fits, h.1)) in
    (
      read_n_plain v.staging v pa 2 _ p.unstaged ∙ ap (CowRam.read_u16 v.memory.ram) at ∙ reads.1,
      read_n_plain v.staging v pa 4 _ p.unstaged ∙ ap (CowRam.read_u32 v.memory.ram) at ∙ reads.2,
      read_n_plain v.staging v pa 8 _ p.unstaged ∙ ap (CowRam.read_u64 v.memory.ram) at ∙ reads.3,
    )

note_page-contents :
    (r : CowRam) (page : ℕ)
    → ((j : ℕ) → contents (note_page r page) j ≡ contents r j)
      × (capacity (note_page r page) ≡ capacity r)
unfolding note_page contents
note_page-contents r page =
    elim (Bool-cases (bit_and (r.device_written_seen (page / 64)) (2 ^ (page % 64)) == 0)) [
      | inl fresh ↦ rw fresh (λ j. refl, refl)
      | inr again ↦ rw again (λ j. refl, refl)
    ]

note_pages-contents :
    (n : ℕ) (r : CowRam) (page : ℕ)
    → ((j : ℕ) → contents (note_pages r page n) j ≡ contents r j)
      × (capacity (note_pages r page n) ≡ capacity r)
unfolding note_pages
note_pages-contents zero r page = (λ j. refl, refl)
note_pages-contents (suc n) r page =
    let one = note_page-contents r page in
    let rest = note_pages-contents n (note_page r page) (page + 1) in
    (λ j. rest.0 j ∙ one.0 j, rest.1 ∙ one.1)

-- A note of a write leaves the bytes of the RAM.
note_device_write-contents :
    (r : CowRam) (index len : ℕ)
    → ((j : ℕ) → contents (note_device_write r index len) j ≡ contents r j)
      × (capacity (note_device_write r index len) ≡ capacity r)
unfolding note_device_write
note_device_write-contents r index len = elim (Bool-cases (len == 0)) [
  | inl nothing ↦ rw nothing (λ j. refl, refl)
  | inr something ↦ rw something (note_pages-contents _ r _)
]

-- A write of `bytes` at an address of the RAM: it is made, changes those bytes alone, leaves a plain view, and draws an
-- epoch for each byte at most.
pub record IsStored (k : ℕ) (v : RamView) (physical_address : ℕ) (bytes : List ℕ) (v' : RamView)
    : Type 0 where
  pub plain : IsPlain k v'
  pub stored :
      (j : ℕ)
      → contents v'.memory.ram j
        ≡ overlay (contents v.memory.ram) (physical_address - ram_base) bytes j
  pub drawn : v'.memory.epoch_source ≤ v.memory.epoch_source + length bytes

abbrev pub Stores : ℕ → RamView → ℕ → List ℕ → Option RamView → Type 0
Stores k v physical_address bytes r =
    (v' : RamView) × (r ≡ some v') × IsStored k v physical_address bytes v'

noted-IsStored :
    (k : ℕ) (v : RamView) (physical_address len : ℕ) (bytes : List ℕ) (r : Option Memory)
    → IsPlain k v
    → Written v.memory (physical_address - ram_base) bytes r
    → Stores k v physical_address bytes (r >>= noted v (physical_address - ram_base) len)
noted-IsStored k v pa len bytes r p w =
    let note = note_device_write-contents w.0.ram (pa - ram_base) len in
    (
      record v { memory = record w.0 { ram = note_device_write w.0.ram (pa - ram_base) len } },
      rw w.1 refl,
      record {
        plain = record {
          unstaged = p.unstaged;
          power = p.power;
          mask_lem = p.mask_lem;
          fits = omega (arith, p.fits, note.1, w.2.same_pages);
        };
        stored = λ j. note.0 j ∙ w.3 j;
        drawn = w.4;
      },
    )

write_n-Stores :
    (k : ℕ) (v : RamView) (physical_address n val : ℕ) (bytes : List ℕ) (direct : ℕ → Option Memory)
    → IsPlain k v
    → 0 < n
    → InRam k physical_address n
    → Written v.memory (physical_address - ram_base) bytes (direct (physical_address - ram_base))
    → Stores k v physical_address bytes
        (write_n v.staging v physical_address n val (direct (idx v physical_address)))
write_n-Stores k v pa n val bytes direct p pos h w = rw (idx_lem k v pa n p pos h) (
    subst (λ (r : Option RamView). Stores k v pa bytes r) (sym (plain v.staging p.unstaged))
      (noted-IsStored k v pa n bytes (direct (pa - ram_base)) p w))
  where
    plain :
        (o : Option Staging)
        → o ≡ none
        → write_n o v pa n val (direct (pa - ram_base))
          ≡ (direct (pa - ram_base) >>= noted v (pa - ram_base) n)
    plain o e = rw (e, idx_lem k v pa n p pos h) refl

-- The writes of a plain view, while epochs are left.
pub write_u8-Stores :
    (k : ℕ) (v : RamView) (physical_address val : ℕ)
    → IsPlain k v
    → v.memory.epoch_source + 8 < 2 ^ 64
    → InRam k physical_address 1
    → Stores k v physical_address (val ∷ []) (write_u8 v physical_address val)
unfolding write_u8
write_u8-Stores k v pa val p e h =
    write_n-Stores k v pa 1 val (val ∷ []) (λ i. CowRam.write_u8 v.memory i val) p (omega arith) h
      (writes-Written v.memory (pa - ram_base) val (omega (arith, p.fits, h.1)) e).0

pub write_u16-Stores :
    (k : ℕ) (v : RamView) (physical_address val : ℕ)
    → IsPlain k v
    → v.memory.epoch_source + 8 < 2 ^ 64
    → InRam k physical_address 2
    → Stores k v physical_address (to_le_bytes 2 val) (write_u16 v physical_address val)
unfolding write_u16
write_u16-Stores k v pa val p e h =
    write_n-Stores k v pa 2 val (to_le_bytes 2 val) (λ i. CowRam.write_u16 v.memory i val) p
      (omega arith) h (writes-Written v.memory (pa - ram_base) val (omega (arith, p.fits, h.1)) e).1

pub write_u32-Stores :
    (k : ℕ) (v : RamView) (physical_address val : ℕ)
    → IsPlain k v
    → v.memory.epoch_source + 8 < 2 ^ 64
    → InRam k physical_address 4
    → Stores k v physical_address (to_le_bytes 4 val) (write_u32 v physical_address val)
unfolding write_u32
write_u32-Stores k v pa val p e h =
    write_n-Stores k v pa 4 val (to_le_bytes 4 val) (λ i. CowRam.write_u32 v.memory i val) p
      (omega arith) h (writes-Written v.memory (pa - ram_base) val (omega (arith, p.fits, h.1)) e).2

pub write_u64-Stores :
    (k : ℕ) (v : RamView) (physical_address val : ℕ)
    → IsPlain k v
    → v.memory.epoch_source + 8 < 2 ^ 64
    → InRam k physical_address 8
    → Stores k v physical_address (to_le_bytes 8 val) (write_u64 v physical_address val)
unfolding write_u64
write_u64-Stores k v pa val p e h =
    write_n-Stores k v pa 8 val (to_le_bytes 8 val) (λ i. CowRam.write_u64 v.memory i val) p
      (omega arith) h (writes-Written v.memory (pa - ram_base) val (omega (arith, p.fits, h.1)) e).3

-- A number that was stored is there.
pub word_at-IsStored :
    (k : ℕ) (v v' : RamView) (physical_address n val : ℕ)
    → IsStored k v physical_address (to_le_bytes n val) v'
    → val < 256 ^ n
    → word_at v' n physical_address ≡ val
word_at-IsStored k v v' pa n val s h =
    ap from_le_bytes (
      ap (bytes_at (contents v'.memory.ram) (pa - ram_base)) (sym (length-to_le_bytes n val))
      ∙ bytes_at-get_or (contents v'.memory.ram) (pa - ram_base) (to_le_bytes n val) (λ j l.
        s.stored (pa - ram_base + j)
        ∙ overlay_at (contents v.memory.ram) (pa - ram_base) (to_le_bytes n val) j l))
    ∙ from-to_le_bytes n val h

pub overlay_beside :
    (f : ℕ → ℕ) (i j : ℕ) (bytes : List ℕ)
    → (j < i) ⊎ (i + length bytes ≤ j)
    → overlay f i bytes j ≡ f j
unfolding overlay
overlay_beside f i j bytes (inl h) = ground arith
overlay_beside f i j bytes (inr h) = ground arith

-- A number beside what was stored is as before.
pub word_at_beside :
    (k : ℕ) (v v' : RamView) (physical_address n other : ℕ) (bytes : List ℕ)
    → IsStored k v physical_address bytes v'
    → ram_base ≤ physical_address
    → ram_base ≤ other
    → (other + n ≤ physical_address) ⊎ (physical_address + length bytes ≤ other)
    → word_at v' n other ≡ word_at v n other
word_at_beside k v v' pa n other bytes s a b h = ap from_le_bytes (
    bytes_at_congr (contents v'.memory.ram) (contents v.memory.ram) (other - ram_base)
      (other - ram_base) n
      λ j l.
        s.stored (other - ram_base + j)
        ∙ overlay_beside (contents v.memory.ram) (pa - ram_base) (other - ram_base + j) bytes
            (beside j l h))
  where
    beside :
        (j : ℕ)
        → j < n
        → (other + n ≤ pa) ⊎ (pa + length bytes ≤ other)
        → (other - ram_base + j < pa - ram_base)
          ⊎ (pa - ram_base + length bytes ≤ other - ram_base + j)
    beside j l (inl before) = inl (omega arith)
    beside j l (inr after) = inr (omega arith)

-- A write of any bytes to a plain view.
pub write_bytes-Stores :
    (k : ℕ) (v : RamView) (physical_address : ℕ) (bytes : List ℕ)
    → IsPlain k v
    → v.memory.epoch_source + length bytes < 2 ^ 64
    → 0 < length bytes
    → InRam k physical_address (length bytes)
    → Stores k v physical_address bytes (write_bytes v physical_address bytes)
unfolding write_bytes staged
write_bytes-Stores k v pa bytes p e pos h =
    subst (λ (r : Option RamView). Stores k v pa bytes r) (sym (plain v.staging p.unstaged))
      (rw (idx_lem k v pa (length bytes) p pos h) (
        noted-IsStored k v pa (length bytes) bytes (write_from v.memory (pa - ram_base) bytes) p
          (write_from-Written v.memory (pa - ram_base) bytes (omega (arith, p.fits, h.1)) e)))
  where
    plain :
        (o : Option Staging)
        → o ≡ none
        → splice_or
            (offset_in o pa (length bytes))
            v
            bytes
            (write_from v.memory (idx v pa) bytes >>= noted v (idx v pa) (length bytes))
          ≡ (write_from v.memory (idx v pa) bytes >>= noted v (idx v pa) (length bytes))
    plain o e = rw e refl

slice_or_plain :
    (o : Option Staging) (v : RamView) (physical_address n : ℕ) (direct : Option (List ℕ))
    → o ≡ none
    → slice_or (offset_in o physical_address n) v n direct ≡ direct
slice_or_plain o v pa n direct e = rw e refl

-- A read of any bytes of a plain view.
pub read_bytes-contents :
    (k : ℕ) (v : RamView) (physical_address n : ℕ)
    → IsPlain k v
    → InRam k physical_address n
    → read_bytes v physical_address n
      ≡ some (bytes_at (contents v.memory.ram) (physical_address - ram_base) n)
unfolding read_bytes staged read_into read_pages bytes_at
read_bytes-contents k v pa zero p h = slice_or_plain v.staging v pa 0 (some []) p.unstaged
read_bytes-contents k v pa (suc n) p h =
    slice_or_plain v.staging v pa (suc n) (read_into v.memory.ram (idx v pa) (suc n)) p.unstaged
    ∙ ap (λ (i : ℕ). read_into v.memory.ram i (suc n)) (idx_lem k v pa (suc n) p (omega arith) h)
    ∙ read_into-contents v.memory.ram (pa - ram_base) (suc n) (omega (arith, p.fits, h.1))
