-- ===== src/Machine/CowRam.antt =====
-- crates/machine/src/cow_ram.rs: the guest's RAM, a shared base and the pages written since. A vector of bytes is
-- a function of the index; `none` is the panic of an index past the pages. `Memory` is the RAM with
-- `EPOCH_SOURCE`, the counter that all RAMs of the process draw from. A word of the set of written pages
-- past the end of its vector is 0.
pub mod Contents
pub mod Slices
pub mod Writes
pub mod Devices
mod Examples
use vpod.Prelude.{
  ℕ, zero, suc, ◌+◌, ◌-◌, ◌*◌, ◌/◌, ◌%◌, ◌^◌, min, bit_and, bit_or, bit_not, Bool, true, false, ltb,
  leb, ◌==◌, ◌&&◌, if◌then◌else◌, Option, none, some, ◌>>=◌, List, [], ◌∷◌, ◌++◌, length, get_or,
  take, drop,
}
use vpod.Stream.{to_le_bytes, from_le_bytes}

abbrev pub page_size : ℕ
page_size = 4096

-- The bytes of one page by their offset in it.
abbrev pub Page : Type 0
Page = ℕ → ℕ

pub record CowRam : Type 0 where
  pub base : ℕ → ℕ
  pub pages : ℕ → Option Page
  pub num_pages : ℕ
  pub len : ℕ
  pub mask : ℕ
  pub epoch : ℕ
  pub device_written_pages : List ℕ
  pub device_written_seen : ℕ → ℕ

pub record Memory : Type 0 where
  pub ram : CowRam
  pub epoch_source : ℕ

-- `fetch_add`: the value drawn and the counter after it.
unfoldable pub next_epoch : ℕ → ℕ × ℕ
next_epoch source = (source, (source + 1) % 2 ^ 64)

unfoldable pub padded_len : ℕ → ℕ
padded_len logical_len = (logical_len + (page_size - 1)) / page_size * page_size

-- A RAM of `padded` bytes, all of them in the base.
abbrev pub fresh : (ℕ → ℕ) → ℕ → ℕ → ℕ → ℕ → Memory
fresh base num_pages len ram_size source = record {
  ram = record {
    base = base;
    pages = λ _. none;
    num_pages = num_pages;
    len = len;
    mask = ram_size - 1;
    epoch = (next_epoch source).0;
    device_written_pages = [];
    device_written_seen = λ _. 0;
  };
  epoch_source = (next_epoch source).1;
}

unfoldable pub from_padded : List ℕ → ℕ → ℕ → ℕ → Memory
from_padded padded logical_len ram_size source =
    fresh (λ i. get_or padded i 0) (length padded / page_size) logical_len ram_size source

-- `vec![0u8; padded_len(logical_len)]` is the base.
unfoldable pub new : ℕ → ℕ → Memory
new ram_size source =
    let logical_len = ram_size + 8 in
    fresh (λ _. 0) (padded_len logical_len / page_size) logical_len ram_size source

unfoldable pub pending_restore : ℕ → ℕ → Memory
pending_restore ram_size source = fresh (λ _. 0) 0 (ram_size + 8) ram_size source

-- The base is padded with zeros to whole pages.
unfoldable pub from_base : List ℕ → ℕ → ℕ → Memory
from_base bytes ram_size source =
    fresh (λ i. get_or bytes i 0) (padded_len (length bytes) / page_size) (length bytes) ram_size
      source

-- The clone, and what is left of the memory that it was cloned from.
unfoldable pub clone_shared : Memory → Memory × Memory
clone_shared m =
    let clone = fresh m.ram.base m.ram.num_pages m.ram.len (m.ram.mask + 1) m.epoch_source in
    (clone, record m { epoch_source = clone.epoch_source })

unfoldable pub set_base : Memory → List ℕ → Memory
set_base m padded = record {
  ram = record m.ram {
    base = λ i. get_or padded i 0;
    pages = λ _. none;
    num_pages = length padded / page_size;
    epoch = (next_epoch m.epoch_source).0;
  };
  epoch_source = (next_epoch m.epoch_source).1;
}

unfoldable pub ram_size : CowRam → ℕ
ram_size r = r.mask + 1

abbrev pub page_index : ℕ → ℕ
page_index idx = idx / 2 ^ 12

abbrev pub page_offset : ℕ → ℕ
page_offset idx = bit_and idx (page_size - 1)

-- The bytes of a page, from its own copy or from the base.
abbrev pub stored : (ℕ → ℕ) → ℕ → Option Page → Page
stored base page none = λ i. base (page * page_size + i)
stored base page (some p) = p

unfoldable pub page_ref : CowRam → ℕ → Option Page
page_ref r page = if ltb page r.num_pages then some (stored r.base page (r.pages page)) else none

abbrev pub put_page : CowRam → ℕ → Page → CowRam
put_page r page p = record r { pages = λ i. if i == page then some p else r.pages i }

-- The first write of a page copies it and draws an epoch.
abbrev pub own : Memory → ℕ → Option Page → Memory
own m page (some p) = m
own m page none = record {
  ram = record (put_page m.ram page (stored m.ram.base page none)) {
    epoch = (next_epoch m.epoch_source).0;
  };
  epoch_source = (next_epoch m.epoch_source).1;
}

-- The bytes of the page to write to, and the memory that owns it.
unfoldable pub page_mut : Memory → ℕ → Option (Page × Memory)
page_mut m page =
    if ltb page m.ram.num_pages
    then some (stored m.ram.base page (m.ram.pages page), own m page (m.ram.pages page))
    else none

-- `page_mut(page)[offset..offset + bytes.len()].copy_from_slice(bytes)`
abbrev pub copy_slice : Page → ℕ → List ℕ → Page
copy_slice p offset bytes i =
    if leb offset i && ltb i (offset + length bytes) then get_or bytes (i - offset) 0 else p i

abbrev pub put_slice : ℕ → ℕ → List ℕ → Page × Memory → Option Memory
put_slice page offset bytes (p, m) =
    some (record m { ram = put_page m.ram page (copy_slice p offset bytes) })

unfoldable pub write_slice : Memory → ℕ → ℕ → List ℕ → Option Memory
write_slice m page offset bytes = page_mut m page >>= put_slice page offset bytes

-- `p[offset..offset + n]`
unfoldable pub bytes_at : (ℕ → ℕ) → ℕ → ℕ → List ℕ
bytes_at p offset zero = []
bytes_at p offset (suc n) = p offset ∷ bytes_at p (offset + 1) n

unfoldable pub read_u8 : CowRam → ℕ → Option ℕ
read_u8 r idx = page_ref r (page_index idx) >>= λ p. some (p (page_offset idx))

unfoldable pub write_u8 : Memory → ℕ → ℕ → Option Memory
write_u8 m idx val = write_slice m (page_index idx) (page_offset idx) (val ∷ [])

-- The loop of `read_into`: one turn for each page that the range meets.
unfoldable pub read_pages : ℕ → CowRam → ℕ → ℕ → Option (List ℕ)
read_pages zero r idx remaining = if remaining == 0 then some [] else none
read_pages (suc turns) r idx remaining =
    let n = min (page_size - page_offset idx) remaining in
    let rest = page_ref r (page_index idx) >>= λ p.
    read_pages turns r (idx + n) (remaining - n) >>= λ bytes.
    some (bytes_at p (page_offset idx) n ++ bytes) in
    if remaining == 0 then some [] else rest

unfoldable pub read_into : CowRam → ℕ → ℕ → Option (List ℕ)
read_into r idx len = read_pages len r idx len

-- The loop of `write_all_to`: what the writer takes.
unfoldable pub write_rest : ℕ → CowRam → ℕ → ℕ → Option (List ℕ)
write_rest zero r page remaining = if remaining == 0 then some [] else none
write_rest (suc turns) r page remaining =
    let n = min remaining page_size in
    let rest = page_ref r page >>= λ p.
    write_rest turns r (page + 1) (remaining - n) >>= λ bytes. some (bytes_at p 0 n ++ bytes) in
    if remaining == 0 then some [] else rest

unfoldable pub write_all_to : CowRam → Option (List ℕ)
write_all_to r = write_rest r.len r 0 r.len

-- The loop of `write_from`.
unfoldable pub write_pages : ℕ → Memory → ℕ → List ℕ → Option Memory
write_pages zero m idx bytes = if length bytes == 0 then some m else none
write_pages (suc turns) m idx bytes =
    let n = min (page_size - page_offset idx) (length bytes) in
    let rest = write_slice m (page_index idx) (page_offset idx) (take n bytes) >>= λ m'.
    write_pages turns m' (idx + n) (drop n bytes) in
    if length bytes == 0 then some m else rest

unfoldable pub write_from : Memory → ℕ → List ℕ → Option Memory
write_from m idx bytes = write_pages (length bytes) m idx bytes

-- `u16::from_le_bytes([self.read_u8(idx), self.read_u8(idx + 1)])` where the word crosses a page.
unfoldable pub read_u16 : CowRam → ℕ → Option ℕ
read_u16 r idx =
    if leb (page_offset idx + 2) page_size
    then (page_ref r (page_index idx) >>= λ p.
        some (from_le_bytes (bytes_at p (page_offset idx) 2)))
    else (read_u8 r idx >>= λ low.
        read_u8 r (idx + 1) >>= λ high. some (from_le_bytes (low ∷ high ∷ [])))

-- `read_u32` and `read_u64`, of `n` bytes.
abbrev pub read_word : ℕ → CowRam → ℕ → Option ℕ
read_word n r idx =
    if leb (page_offset idx + n) page_size
    then (page_ref r (page_index idx) >>= λ p.
        some (from_le_bytes (bytes_at p (page_offset idx) n)))
    else (read_into r idx n >>= λ b. some (from_le_bytes b))

unfoldable pub read_u32 : CowRam → ℕ → Option ℕ
read_u32 = read_word 4

unfoldable pub read_u64 : CowRam → ℕ → Option ℕ
read_u64 = read_word 8

-- `write_u16`, `write_u32` and `write_u64`, of `n` bytes.
abbrev pub write_word : ℕ → Memory → ℕ → ℕ → Option Memory
write_word n m idx val =
    if leb (page_offset idx + n) page_size
    then write_slice m (page_index idx) (page_offset idx) (to_le_bytes n val)
    else write_from m idx (to_le_bytes n val)

unfoldable pub write_u16 : Memory → ℕ → ℕ → Option Memory
write_u16 = write_word 2

unfoldable pub write_u32 : Memory → ℕ → ℕ → Option Memory
write_u32 = write_word 4

unfoldable pub write_u64 : Memory → ℕ → ℕ → Option Memory
write_u64 = write_word 8

unfoldable pub apply_page : Memory → ℕ → List ℕ → Option Memory
apply_page m page bytes = write_slice m page 0 bytes

-- The pages that have their own copy, from page `i` on.
unfoldable pub owned_from : (ℕ → Option Page) → ℕ → ℕ → List ℕ
owned_from pages i zero = []
owned_from pages i (suc n) = elim (pages i) [
  | some p ↦ (i % 2 ^ 32) ∷ owned_from pages (i + 1) n
  | none ↦ owned_from pages (i + 1) n
]

unfoldable pub dirty_pages : CowRam → List ℕ
dirty_pages r = owned_from r.pages 0 r.num_pages

-- The body of the loop of `note_device_write`.
unfoldable pub note_page : CowRam → ℕ → CowRam
note_page r page =
    let word = page / 64 in
    let mark = 2 ^ (page % 64) in
    if bit_and (r.device_written_seen word) mark == 0
    then record r {
      device_written_seen = λ i.
          if i == word then bit_or (r.device_written_seen word) mark else r.device_written_seen i;
      device_written_pages = r.device_written_pages ++ ((page % 2 ^ 32) ∷ []);
    }
    else r

-- `for page in first_page..=last_page`, of `n` pages.
unfoldable pub note_pages : CowRam → ℕ → ℕ → CowRam
note_pages r page zero = r
note_pages r page (suc n) = note_pages (note_page r page) (page + 1) n

unfoldable pub note_device_write : CowRam → ℕ → ℕ → CowRam
note_device_write r index len =
    if len == 0
    then r
    else let first_page = index / page_size in
      let last_page = (index + len - 1) / page_size in
      note_pages r first_page (last_page + 1 - first_page)

-- The loop of `drain_device_written_pages`: the pages visited and the set without them.
unfoldable pub unmark : (ℕ → ℕ) → List ℕ → ℕ → ℕ
unmark seen [] = seen
unmark seen (page ∷ pages) =
    unmark
      (λ i.
        if i == page / 64
        then bit_and (seen (page / 64)) (bit_not 64 (2 ^ (page % 64)))
        else seen i)
      pages

unfoldable pub drain_device_written_pages : CowRam → CowRam × List ℕ
drain_device_written_pages r = (
  record r {
    device_written_pages = [];
    device_written_seen = unmark r.device_written_seen r.device_written_pages;
  },
  r.device_written_pages,
)
