-- ===== src/RiscvCore/Block/Cache/Sound.antt =====
-- `BlockCache` of crates/riscv-core/src/block.rs forgets blocks and never keeps one whose page was written.
use vpod.Prelude.{
  ℕ, ◌/◌, ◌^◌, ◌<◌, u64_max, true, not, ◌&&◌, ◌==◌, ◌≡◌, ◌≢◌, refl, ◌∙◌, if◌then◌else◌, Bool-cases,
  inl, inr, Option, none, some, List, [], ◌∷◌, arith,
}
use vpod.RiscvCore.Block.{Block}
use vpod.RiscvCore.Block.Cache.{
  BlockCache, new, slot_index, lookup, insert, mark_page, page_has_code, evict_page, notify_store,
  flush_all, aot_init, aot_record_hash,
}
use vpod.RiscvCore.Block.Cache.Pages.{
  marked, page_has_code-marked, marked-mark_page, marked-evict_page,
}

pub data Event : Type 0 where
  decoded : ℕ → Block → Event
  stored : ℕ → Event
  flushed : Event
  matched : ℕ → ℕ → Event
  initialised : List (ℕ × ℕ) → Event

unfoldable pub run : BlockCache → List Event → BlockCache
run c [] = c
run c (decoded pa block ∷ events) = run (insert c pa block) events
run c (stored pa ∷ events) = run (notify_store c pa) events
run c (flushed ∷ events) = run (flush_all c) events
run c (matched page hash ∷ events) = run (aot_record_hash c page hash).1 events
run c (initialised hashes ∷ events) = run (aot_init c hashes) events

-- The block last put in at an address, since the last store to its page and the last flush.
unfoldable pub last_decoded : (ℕ → Option Block) → List Event → ℕ → Option Block
last_decoded known [] a = known a
last_decoded known (decoded pa block ∷ events) a =
    last_decoded (λ a'. if pa == a' then some block else known a') events a
last_decoded known (stored pa ∷ events) a =
    last_decoded (λ a'. if pa / 2 ^ 12 == a' / 2 ^ 12 then none else known a') events a
last_decoded known (flushed ∷ events) a = last_decoded (λ _. none) events a
last_decoded known (matched page hash ∷ events) a = last_decoded known events a
last_decoded known (initialised hashes ∷ events) a = last_decoded known events a

-- The page of every block is marked, and every answer is known.
record IsSound (c : BlockCache) (known : ℕ → Option Block) : Type 0 where
  pages :
      (i : ℕ) → (c.slots i).tag ≢ u64_max → marked c.page_bitmap ((c.slots i).tag / 2 ^ 12) ≡ true
  answers : (a : ℕ) (block : Block) → a < u64_max → lookup c a ≡ some block → known a ≡ some block

mark_page-IsSound :
    (c : BlockCache) (known : ℕ → Option Block) (page : ℕ)
    → IsSound c known
    → IsSound (mark_page c page) known
unfolding mark_page
mark_page-IsSound c known page s = record {
  pages = λ i h. ground (arith, marked-mark_page c page ((c.slots i).tag / 2 ^ 12), s.pages i h);
  answers = unfold lookup in s.answers;
}

tag_inserted :
    (c : BlockCache) (pa : ℕ) (block : Block) (i : ℕ)
    → ((insert c pa block).slots i).tag ≡ (if i == slot_index pa then pa else (c.slots i).tag)
unfolding insert mark_page
tag_inserted c pa block i = elim (Bool-cases (i == slot_index pa)) [
  | inl e ↦ rw e refl
  | inr e ↦ rw e refl
]

bitmap_inserted :
    (c : BlockCache) (pa : ℕ) (block : Block)
    → (insert c pa block).page_bitmap ≡ (mark_page c (pa / 2 ^ 12)).page_bitmap
unfolding insert
bitmap_inserted c pa block = refl

lookup-insert :
    (c : BlockCache) (pa : ℕ) (block : Block) (a : ℕ)
    → lookup (insert c pa block) a ≡ (
        if slot_index a == slot_index pa
        then (if pa == a then some block else none)
        else lookup c a)
unfolding insert mark_page lookup
lookup-insert c pa block a = elim (Bool-cases (slot_index a == slot_index pa)) [
  | inl e ↦ rw e refl
  | inr e ↦ rw e refl
]

insert-IsSound :
    (c : BlockCache) (known : ℕ → Option Block) (pa : ℕ) (block : Block)
    → IsSound c known
    → IsSound (insert c pa block) (λ a. if pa == a then some block else known a)
insert-IsSound c known pa block s = record {
  pages = λ i h. rw (bitmap_inserted c pa block) (
      marked-mark_page c (pa / 2 ^ 12) (((insert c pa block).slots i).tag / 2 ^ 12)
      ∙ ground (arith, tag_inserted c pa block i, s.pages i, h));
  answers =
      λ a found small e. ground (arith, lookup-insert c pa block a, e, s.answers a found small);
}

tag_evicted :
    (c : BlockCache) (page i : ℕ)
    → ((evict_page c page).slots i).tag ≡ (
        if not ((c.slots i).tag == u64_max) && (c.slots i).tag / 2 ^ 12 == page
        then u64_max
        else (c.slots i).tag)
unfolding evict_page
tag_evicted c page i =
    elim (Bool-cases (not ((c.slots i).tag == u64_max) && (c.slots i).tag / 2 ^ 12 == page)) [
      | inl e ↦ rw e refl
      | inr e ↦ rw e refl
    ]

lookup-evict_page :
    (c : BlockCache) (page a : ℕ)
    → a < u64_max
    → lookup (evict_page c page) a ≡ (if a / 2 ^ 12 == page then none else lookup c a)
unfolding evict_page lookup
lookup-evict_page c page a small =
    elim (Bool-cases (
      not ((c.slots (slot_index a)).tag == u64_max)
      && (c.slots (slot_index a)).tag / 2 ^ 12 == page)) [
        | inl e ↦ rw e (ground arith)
        | inr e ↦ rw e (ground arith)
      ]

evict_page-IsSound :
    (c : BlockCache) (known : ℕ → Option Block) (page : ℕ)
    → IsSound c known
    → IsSound (evict_page c page) (λ a. if page == a / 2 ^ 12 then none else known a)
evict_page-IsSound c known page s = record {
  pages = λ i h.
      marked-evict_page c page (((evict_page c page).slots i).tag / 2 ^ 12)
      ∙ ground (arith, tag_evicted c page i, s.pages i, h);
  answers = λ a found small e.
      ground (arith, lookup-evict_page c page a small, e, s.answers a found small);
}

-- A block answered at an address of a page is of a marked page.
lookup-marked :
    (c : BlockCache) (known : ℕ → Option Block) (a : ℕ) (block : Block)
    → IsSound c known
    → a < u64_max
    → lookup c a ≡ some block
    → page_has_code c (a / 2 ^ 12) ≡ true
unfolding lookup
lookup-marked c known a block s small e =
    page_has_code-marked c (a / 2 ^ 12) ∙ ground (arith, s.pages (slot_index a), e)

notify_store-IsSound :
    (c : BlockCache) (known : ℕ → Option Block) (pa : ℕ)
    → IsSound c known
    → IsSound (notify_store c pa) (λ a. if pa / 2 ^ 12 == a / 2 ^ 12 then none else known a)
notify_store-IsSound c known pa s =
    unfold notify_store in
    elim (Bool-cases (page_has_code c (pa / 2 ^ 12))) [
      | inl e ↦ rw e (evict_page-IsSound c known (pa / 2 ^ 12) s)
      | inr e ↦ rw e (record {
        pages = s.pages;
        answers = λ a found small e'.
            ground (arith, lookup-marked c known a found s small e', s.answers a found small e', e);
      })
    ]

flush_all-IsSound : (c : BlockCache) (known : ℕ → Option Block) → IsSound (flush_all c) known
unfolding flush_all
flush_all-IsSound c known = record {
  pages = λ i h. absurd (h refl);
  answers = unfold lookup in λ a found small e. absurd (ground arith);
}

new-IsSound : (known : ℕ → Option Block) → IsSound new known
unfolding new
new-IsSound known = record {
  pages = λ i h. absurd (h refl);
  answers = unfold lookup in λ a found small e. absurd (ground arith);
}

aot_init-IsSound :
    (c : BlockCache) (known : ℕ → Option Block) (hashes : List (ℕ × ℕ))
    → IsSound c known
    → IsSound (aot_init c hashes) known
unfolding aot_init
aot_init-IsSound c known hashes s = record { pages = s.pages; answers = unfold lookup in s.answers }

aot_record_hash-IsSound :
    (c : BlockCache) (known : ℕ → Option Block) (page hash : ℕ)
    → IsSound c known
    → IsSound (aot_record_hash c page hash).1 known
unfolding aot_record_hash
aot_record_hash-IsSound c known page hash s =
    mark_page-IsSound _ known page
      (record { pages = s.pages; answers = unfold lookup in s.answers })

run-IsSound :
    (events : List Event) (c : BlockCache) (known : ℕ → Option Block)
    → IsSound c known
    → IsSound (run c events) (last_decoded known events)
unfolding run last_decoded
run-IsSound [] c known s = s
run-IsSound (decoded pa block ∷ events) c known s =
    run-IsSound events _ _ (insert-IsSound c known pa block s)
run-IsSound (stored pa ∷ events) c known s =
    run-IsSound events _ _ (notify_store-IsSound c known pa s)
run-IsSound (flushed ∷ events) c known s = run-IsSound events _ _ (flush_all-IsSound c (λ _. none))
run-IsSound (matched page hash ∷ events) c known s =
    run-IsSound events _ _ (aot_record_hash-IsSound c known page hash s)
run-IsSound (initialised hashes ∷ events) c known s =
    run-IsSound events _ _ (aot_init-IsSound c known hashes s)

-- From a new cache, after any insertions, notified stores, flushes, hash records and initialisations: a block
-- that is answered at an address other than `u64::MAX` is the one inserted last at that address, and since
-- then no store to its page was notified and nothing was flushed.
pub blocks_sound :
    (events : List Event) (a : ℕ) (block : Block)
    → a < u64_max
    → lookup (run new events) a ≡ some block
    → last_decoded (λ _. none) events a ≡ some block
blocks_sound events a block small e =
    (run-IsSound events new (λ _. none) (new-IsSound (λ _. none))).answers a block small e
