-- ===== src/RiscvCore/Block/Cache.antt =====
-- `BlockCache` of crates/riscv-core/src/block.rs: the decoded blocks by the physical address of their
-- first instruction, a bitmap of the pages that hold code, and the table of the pages that are known to
-- the ahead-of-time translation. The slots are a function of the index; `aot_hashes` is the list of
-- its entries, the latest first.
pub mod Pages
pub mod Sound
use vpod.Prelude.{
  ℕ, ◌+◌, ◌-◌, ◌/◌, ◌%◌, ◌^◌, bit_and, bit_or, bit_not, u64_max, has, Bool, true, false, not, ◌&&◌,
  ◌||◌, ◌==◌, ltb, leb, if◌then◌else◌, Option, none, some, List, [], ◌∷◌, ◌++◌, length, get_elem?,
  get_or, set, replicate,
}
use vpod.RiscvCore.Block.{Block}

abbrev pub cache_slots : ℕ
cache_slots = 16384

pub record Slot : Type 0 where
  pub tag : ℕ
  pub block : Option Block

abbrev pub empty_slot : Slot
empty_slot = record { tag = u64_max; block = none }

pub record BlockCache : Type 0 where
  pub slots : ℕ → Slot
  pub page_bitmap : List ℕ
  pub code_generation : ℕ
  pub aot_hashes : List (ℕ × ℕ)
  pub aot_page_table : List ℕ
  pub aot_evict_generation : ℕ
  pub aot_hash_probes : ℕ
  pub aot_hash_matches : ℕ

pub data AotResolve : Type 0 where
  hit : ℕ → AotResolve
  miss unknown : AotResolve

abbrev pub aot_unknown : ℕ
aot_unknown = u64_max

abbrev pub aot_miss : ℕ
aot_miss = u64_max - 1

abbrev pub aot_table_max_pages : ℕ
aot_table_max_pages = 2 ^ 20

unfoldable pub new : BlockCache
new = record {
  slots = λ _. empty_slot;
  page_bitmap = [];
  code_generation = 1;
  aot_hashes = [];
  aot_page_table = [];
  aot_evict_generation = 0;
  aot_hash_probes = 0;
  aot_hash_matches = 0;
}

abbrev pub next_generation : ℕ → ℕ
next_generation g = (g + 1) % 2 ^ 64

-- The pairs put into an empty map, one after the other.
abbrev pub collect : List (ℕ × ℕ) → List (ℕ × ℕ) → List (ℕ × ℕ)
collect [] entries = entries
collect (pair ∷ pairs) entries = collect pairs (pair ∷ entries)

abbrev pub get : List (ℕ × ℕ) → ℕ → Option ℕ
get [] key = none
get ((k, value) ∷ entries) key = if k == key then some value else get entries key

unfoldable pub aot_init : BlockCache → List (ℕ × ℕ) → BlockCache
aot_init c hashes = record c {
  aot_hashes = collect hashes [];
  aot_page_table = [];
  aot_evict_generation = next_generation c.aot_evict_generation;
  aot_hash_probes = 0;
  aot_hash_matches = 0;
}

abbrev pub is_empty : List (ℕ × ℕ) → Bool
is_empty [] = true
is_empty (_ ∷ _) = false

unfoldable pub aot_resolve : BlockCache → ℕ → AotResolve
aot_resolve c page = elim (get_elem? c.aot_page_table page) [
  | some entry ↦
      if entry == aot_unknown
      then AotResolve.unknown
      else if entry == aot_miss
      then AotResolve.miss
      else AotResolve.hit entry
  | none ↦
      if is_empty c.aot_hashes || leb aot_table_max_pages page
      then AotResolve.miss
      else AotResolve.unknown
]

-- `resize(n, v)` of a vector that is not longer.
abbrev pub resized : List ℕ → ℕ → ℕ → List ℕ
resized xs n v = xs ++ replicate (n - length xs) v

unfoldable pub mark_page : BlockCache → ℕ → BlockCache
mark_page c page =
    let word = page / 64 in
    let bitmap = resized c.page_bitmap (word + 1) 0 in
    record c {
      page_bitmap = set bitmap word (bit_or (get_or bitmap word 0) (2 ^ (page % 64)));
      code_generation = next_generation c.code_generation;
    }

abbrev pub count_match : Option ℕ → ℕ → ℕ
count_match none n = n
count_match (some _) n = n + 1

abbrev pub table_entry : Option ℕ → ℕ
table_entry none = aot_miss
table_entry (some orig) = orig

unfoldable pub aot_record_hash : BlockCache → ℕ → ℕ → Option ℕ × BlockCache
aot_record_hash c page hash =
    let orig = get c.aot_hashes hash in
    let table = resized c.aot_page_table (page + 1) aot_unknown in
    let recorded : BlockCache = record c {
      aot_hash_probes = c.aot_hash_probes + 1;
      aot_hash_matches = count_match orig c.aot_hash_matches;
      aot_page_table =
          if ltb page aot_table_max_pages
          then set table page (table_entry orig)
          else c.aot_page_table;
    } in
    (orig, mark_page recorded page)

abbrev pub slot_index : ℕ → ℕ
slot_index physical_address = bit_and (physical_address / 2) (cache_slots - 1)

unfoldable pub lookup : BlockCache → ℕ → Option Block
lookup c physical_address =
    let slot = c.slots (slot_index physical_address) in
    if slot.tag == physical_address then slot.block else none

unfoldable pub insert : BlockCache → ℕ → Block → BlockCache
insert c physical_address block =
    let marked = mark_page c (physical_address / 2 ^ 12) in
    let slot : Slot = record { tag = physical_address; block = some block } in
    record marked { slots = λ i. if i == slot_index physical_address then slot else marked.slots i }

unfoldable pub page_has_code : BlockCache → ℕ → Bool
page_has_code c page =
    let word = page / 64 in
    ltb word (length c.page_bitmap) && has (get_or c.page_bitmap word 0) (2 ^ (page % 64))

-- A slot of the page is emptied.
abbrev pub evicted : ℕ → Slot → Slot
evicted page slot =
    if not (slot.tag == u64_max) && slot.tag / 2 ^ 12 == page then empty_slot else slot

unfoldable pub evict_page : BlockCache → ℕ → BlockCache
evict_page c page =
    let word = page / 64 in
    record c {
      aot_evict_generation = next_generation c.aot_evict_generation;
      aot_page_table = set c.aot_page_table page aot_unknown;
      slots = λ i. evicted page (c.slots i);
      page_bitmap =
          set c.page_bitmap word
            (bit_and (get_or c.page_bitmap word 0) (bit_not 64 (2 ^ (page % 64))));
    }

unfoldable pub notify_store : BlockCache → ℕ → BlockCache
notify_store c physical_address =
    let page = physical_address / 2 ^ 12 in if page_has_code c page then evict_page c page else c

unfoldable pub flush_all : BlockCache → BlockCache
flush_all c = record c {
  slots = λ _. empty_slot;
  page_bitmap = [];
  aot_page_table = [];
  aot_evict_generation = next_generation c.aot_evict_generation;
}
