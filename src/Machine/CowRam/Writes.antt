-- ===== src/Machine/CowRam/Writes.antt =====
-- The writes of crates/machine/src/cow_ram.rs change the bytes of their range alone, never the shared base,
-- and draw a new epoch whenever a page gets its own copy.
use vpod.Prelude.{
  ℕ, zero, suc, ◌+◌, ◌-◌, ◌/◌, ◌%◌, ◌^◌, ◌<◌, ◌≤◌, min, ltb, leb, ◌==◌, ◌&&◌, ◌≡◌, refl, subst, ap,
  ap₂, ◌∙◌, true, Bool-cases, inl, inr, Option, some, List, [], ◌∷◌, length, get_or, take, drop,
  length-take, length-drop, get_or-take, get_or-drop, arith,
}
use vpod.Stream.{to_le_bytes, length-to_le_bytes}
use vpod.Machine.CowRam.{
  Memory, page_size, page_index, write_slice, write_pages, write_from, write_word, write_u8,
  write_u16, write_u32, write_u64, bytes_at, read_into,
}
use vpod.Machine.CowRam.Contents.{contents, capacity, page_offset_lem, read_into-contents}
use vpod.Machine.CowRam.Slices.{
  overlay, is_owned, Advances, Advances-refl, Advances-trans, write_slice_lem,
}

-- A write of `bytes` at `i`: it is made, changes the bytes of its range alone, and draws an epoch for each byte at
-- most.
abbrev pub Written : Memory → ℕ → List ℕ → Option Memory → Type 0
Written m i bytes r =
    (m' : Memory) × (r ≡ some m')
    × Advances m m'
    × ((j : ℕ) → contents m'.ram j ≡ overlay (contents m.ram) i bytes j)
    × (m'.epoch_source ≤ m.epoch_source + length bytes)

-- Two pieces of a write, one after the other.
overlay-split :
    (f : ℕ → ℕ) (i n : ℕ) (bytes : List ℕ) (j : ℕ)
    → n ≤ length bytes
    → overlay (overlay f i (take n bytes)) (i + n) (drop n bytes) j ≡ overlay f i bytes j
unfolding overlay
overlay-split f i n bytes j h =
    let tail : i + n ≤ j → get_or (drop n bytes) (j - (i + n)) 0 ≡ get_or bytes (j - i) 0 =
      λ l. get_or-drop n bytes (j - (i + n)) 0 ∙ ap (λ (t : ℕ). get_or bytes t 0) (omega arith) in
    rw (length-take n bytes, length-drop n bytes)
      (ground (arith, tail, get_or-take n bytes (j - i) 0))

overlay_empty :
    (f : ℕ → ℕ) (i : ℕ) (bytes : List ℕ) (j : ℕ) → length bytes ≡ 0 → f j ≡ overlay f i bytes j
unfolding overlay
overlay_empty f i bytes j h = ground arith

overlay_congr :
    (f g : ℕ → ℕ) (i k : ℕ) (bytes : List ℕ) (j : ℕ)
    → f j ≡ g j
    → i ≡ k
    → overlay f i bytes j ≡ overlay g k bytes j
unfolding overlay
overlay_congr f g i k bytes j same at = rw (same, at) refl

write_pages_lem :
    (turns : ℕ) (m : Memory) (i : ℕ) (bytes : List ℕ)
    → length bytes ≤ turns
    → i + length bytes ≤ capacity m.ram
    → m.epoch_source + turns < 2 ^ 64
    → Written m i bytes (write_pages turns m i bytes)
unfolding write_pages
write_pages_lem zero m i bytes h k e = (
  m,
  ground arith,
  Advances-refl m,
  λ j. overlay_empty (contents m.ram) i bytes j (omega arith),
  omega arith,
)
write_pages_lem (suc turns) m i bytes h k e = elim (Bool-cases (length bytes == 0)) [
  | inl done ↦ (
    m,
    rw done refl,
    Advances-refl m,
    λ j. overlay_empty (contents m.ram) i bytes j (ground arith),
    omega arith,
  )
  | inr more ↦
      let n = min (page_size - i % page_size) (length bytes) in
      let first =
        write_slice_lem m (i / page_size) (i % page_size) (take n bytes) (ground arith)
          (omega (arith, length-take n bytes)) (omega arith) in
      let rest =
        write_pages_lem turns first.0 (i + n) (drop n bytes) (ground (arith, length-drop n bytes))
          (omega (arith, length-drop n bytes, first.2.same_pages)) (omega (arith, first.4)) in
      (
        rest.0,
        rw (more, page_offset_lem i, first.1) rest.1,
        Advances-trans m first.0 rest.0 first.2 rest.2,
        λ j.
            rest.3 j
            ∙ overlay_congr _ _ (i + n) (i + n) (drop n bytes) j
                (first.3 j
                  ∙ overlay_congr (contents m.ram) (contents m.ram) _ i (take n bytes) j refl
                      (omega arith))
                refl
            ∙ overlay-split (contents m.ram) i n bytes j (omega arith),
        ground (arith, first.4, rest.4, length-drop n bytes),
      )
]

-- A write of a range within the pages, with an epoch left for each byte, is made, and changes the
-- bytes of the range alone; the base and the sizes are kept; the epoch is the same with every page
-- where it was, or a new one; each byte draws one epoch at most. A turn for each byte is enough.
pub write_from-Written :
    (m : Memory) (i : ℕ) (bytes : List ℕ)
    → i + length bytes ≤ capacity m.ram
    → m.epoch_source + length bytes < 2 ^ 64
    → Written m i bytes (write_from m i bytes)
unfolding write_from
write_from-Written m i bytes h e = write_pages_lem (length bytes) m i bytes (omega arith) h e

inside_page :
    (m : Memory) (i : ℕ) (bytes : List ℕ)
    → 0 < length bytes
    → i + length bytes ≤ capacity m.ram
    → i % page_size + length bytes ≤ page_size
    → m.epoch_source + 1 < 2 ^ 64
    → Written m i bytes (write_slice m (page_index i) (i % page_size) bytes)
inside_page m i bytes pos h k e =
    let done = write_slice_lem m (page_index i) (i % page_size) bytes (omega arith) k e in
    (
      done.0,
      done.1,
      done.2,
      λ j.
          done.3 j ∙ overlay_congr (contents m.ram) (contents m.ram) _ i bytes j refl (omega arith),
      omega (arith, done.4),
    )

write_word-Written :
    (n : ℕ) (m : Memory) (i val : ℕ)
    → 0 < n
    → i + n ≤ capacity m.ram
    → m.epoch_source + n < 2 ^ 64
    → Written m i (to_le_bytes n val) (write_word n m i val)
write_word-Written n m i val pos h e = elim (Bool-cases (leb (i % page_size + n) page_size)) [
  | inl inside ↦
      rw (page_offset_lem i, inside)
        (inside_page m i (to_le_bytes n val) (omega (arith, length-to_le_bytes n val))
          (omega (arith, length-to_le_bytes n val)) (ground (arith, length-to_le_bytes n val))
          (omega arith))
  | inr across ↦
      rw (page_offset_lem i, across)
        (write_from-Written m i (to_le_bytes n val) (omega (arith, length-to_le_bytes n val))
          (omega (arith, length-to_le_bytes n val)))
]

-- Every width writes its little-endian bytes, also across the end of a page.
pub writes-Written :
    (m : Memory) (i val : ℕ)
    → i + 8 ≤ capacity m.ram
    → m.epoch_source + 8 < 2 ^ 64
    → Written m i (val ∷ []) (write_u8 m i val)
      × Written m i (to_le_bytes 2 val) (write_u16 m i val)
      × Written m i (to_le_bytes 4 val) (write_u32 m i val)
      × Written m i (to_le_bytes 8 val) (write_u64 m i val)
unfolding write_u8 write_u16 write_u32 write_u64
writes-Written m i val h e = (
  rw (page_offset_lem i)
      (inside_page m i (val ∷ []) (omega arith) (omega arith) (omega arith) (omega arith)),
  write_word-Written 2 m i val (omega arith) (omega arith) (omega arith),
  write_word-Written 4 m i val (omega arith) (omega arith) (omega arith),
  write_word-Written 8 m i val (omega arith) (omega arith) (omega arith),
)

-- Within the pages, with an epoch left for each byte: where the epoch was drawn before and a write
-- leaves it as it was, every page is where it was, in its own copy or in the base.
epoch_keeps_pages :
    (m m' : Memory) (i : ℕ) (bytes : List ℕ)
    → i + length bytes ≤ capacity m.ram
    → m.epoch_source + length bytes < 2 ^ 64
    → m.ram.epoch < m.epoch_source
    → write_from m i bytes ≡ some m'
    → m'.ram.epoch ≡ m.ram.epoch
    → (page : ℕ) → is_owned m'.ram page ≡ is_owned m.ram page
epoch_keeps_pages m m' i bytes h e current made same page =
    let done = write_from-Written m i bytes h e in
    let at : done.0 ≡ m' = cc (done.1, made) in
    elim (subst (λ t. Advances m t) at done.2).epochs [
      | inl kept ↦ kept.1 page
      | inr fresh ↦ absurd (omega arith)
    ]

pub bytes_at-get_or :
    (g : ℕ → ℕ) (i : ℕ) (bytes : List ℕ)
    → ((j : ℕ) → j < length bytes → g (i + j) ≡ get_or bytes j 0)
    → bytes_at g i (length bytes) ≡ bytes
unfolding bytes_at
bytes_at-get_or g i [] h = refl
bytes_at-get_or g i (x ∷ bytes) h =
    ap₂ (λ (y : ℕ) (t : List ℕ). y ∷ t) (ap g (omega arith) ∙ h 0 (omega arith))
      (bytes_at-get_or g (i + 1) bytes λ j l. ap g (omega arith) ∙ h (suc j) (omega arith))

pub overlay_at :
    (f : ℕ → ℕ) (i : ℕ) (bytes : List ℕ) (j : ℕ)
    → j < length bytes
    → overlay f i bytes (i + j) ≡ get_or bytes j 0
unfolding overlay
overlay_at f i bytes j h =
    let there : (leb i (i + j) && ltb (i + j) (i + length bytes)) ≡ true = ground arith in
    rw there (ap (λ (t : ℕ). get_or bytes t 0) (omega arith))

-- What was written is read back.
pub read_into-write_from :
    (m : Memory) (i : ℕ) (bytes : List ℕ)
    → i + length bytes ≤ capacity m.ram
    → m.epoch_source + length bytes < 2 ^ 64
    → (m' : Memory) × (write_from m i bytes ≡ some m')
      × (read_into m'.ram i (length bytes) ≡ some bytes)
read_into-write_from m i bytes h e =
    let done = write_from-Written m i bytes h e in
    (
      done.0,
      done.1,
      read_into-contents done.0.ram i (length bytes) (omega (arith, done.2.same_pages))
          ∙ ap some (
              bytes_at-get_or (contents done.0.ram) i bytes
                λ j l. done.3 (i + j) ∙ overlay_at (contents m.ram) i bytes j l),
    )
