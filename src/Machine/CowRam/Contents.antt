-- ===== src/Machine/CowRam/Contents.antt =====
-- The RAM of crates/machine/src/cow_ram.rs as one array of bytes, and its reads.
use native.Mathlib.Nat.{pow-suc}
use vpod.Prelude.{
  ℕ, zero, suc, ◌+◌, ◌-◌, ◌*◌, ◌/◌, ◌%◌, ◌^◌, ◌<◌, ◌≤◌, min, leb, ◌==◌, ◌≡◌, refl, ap, ap₂, sym,
  ◌∙◌, Bool-cases, ◌⊎◌, inl, inr, some, List, ◌∷◌, ◌++◌, arith,
}
use vpod.Bits.Masks.{and-mask}
use vpod.Stream.{from_le_bytes}
use vpod.Machine.CowRam.{
  CowRam, page_size, page_index, page_offset, stored, page_ref, bytes_at, read_u8, read_pages,
  read_into, read_u16, read_word, read_u32, read_u64, write_rest, write_all_to,
}

-- The bytes of the RAM by their index.
unfoldable pub contents : CowRam → ℕ → ℕ
contents r i = stored r.base (i / page_size) (r.pages (i / page_size)) (i % page_size)

-- How many bytes the pages hold.
abbrev pub capacity : CowRam → ℕ
capacity r = r.num_pages * page_size

lt_pow : (n : ℕ) → n < 2 ^ n
lt_pow zero = omega arith
lt_pow (suc n) = omega (arith, lt_pow n, pow-suc 2 n)

pub page_offset_lem : (i : ℕ) → page_offset i ≡ i % page_size
page_offset_lem i = and-mask i 12 i (lt_pow i)

pub page_ref-some :
    (r : CowRam) (page : ℕ)
    → page < r.num_pages
    → page_ref r page ≡ some (stored r.base page (r.pages page))
unfolding page_ref
page_ref-some r page h = ground arith

pub bytes_at-append :
    (f : ℕ → ℕ) (i m n : ℕ) → bytes_at f i (m + n) ≡ bytes_at f i m ++ bytes_at f (i + m) n
unfolding bytes_at
bytes_at-append f i zero n = ap₂ (bytes_at f) {x = i} (omega arith) (omega arith)
bytes_at-append f i (suc m) n =
    ap (bytes_at f i) {x = suc m + n} {y = suc (m + n)} (omega arith)
    ∙ ap (λ (t : List ℕ). f i ∷ t)
        (bytes_at-append f (i + 1) m n
          ∙ ap (λ (k : ℕ). bytes_at f (i + 1) m ++ bytes_at f k n) (omega arith))

pub bytes_at_congr :
    (f g : ℕ → ℕ) (i k n : ℕ)
    → ((j : ℕ) → j < n → f (i + j) ≡ g (k + j))
    → bytes_at f i n ≡ bytes_at g k n
unfolding bytes_at
bytes_at_congr f g i k zero h = refl
bytes_at_congr f g i k (suc n) h =
    ap₂ (λ (x : ℕ) (t : List ℕ). x ∷ t)
      (ap f (omega arith) ∙ h 0 (omega arith) ∙ ap g (omega arith))
      (bytes_at_congr f g (i + 1) (k + 1) n
        λ j l. ap f (omega arith) ∙ h (suc j) (omega arith) ∙ ap g (omega arith))

-- A part of one page is the same part of the contents.
pub page_part :
    (r : CowRam) (i n : ℕ)
    → i % page_size + n ≤ page_size
    → bytes_at (stored r.base (i / page_size) (r.pages (i / page_size))) (i % page_size) n
      ≡ bytes_at (contents r) i n
unfolding contents
page_part r i n h =
    bytes_at_congr _ _ (i % page_size) i n
      λ j l. ap₂ (λ page off. stored r.base page (r.pages page) off) (omega arith) (omega arith)

-- Within the pages, `read_pages` gives the bytes of the range; a turn for each byte is enough.
read_pages_lem :
    (turns : ℕ) (r : CowRam) (i n : ℕ)
    → n ≤ turns
    → i + n ≤ capacity r
    → read_pages turns r i n ≡ some (bytes_at (contents r) i n)
unfolding read_pages
read_pages_lem zero r i n h k =
    let none_left : n ≡ 0 = omega arith in rw none_left (unfold bytes_at in refl)
read_pages_lem (suc turns) r i n h k = elim (Bool-cases (n == 0)) [
  | inl done ↦ let none_left : n ≡ 0 = ground arith in rw none_left (unfold bytes_at in refl)
  | inr more ↦
      let m = min (page_size - i % page_size) n in
      rw
        (
          more,
          page_offset_lem i,
          page_ref-some r (page_index i) (ground arith),
          read_pages_lem turns r (i + m) (n - m) (ground arith) (ground arith),
        )
        (ap some (
          ap (λ (t : List ℕ). t ++ bytes_at (contents r) (i + m) (n - m))
            (page_part r i m (omega arith))
          ∙ sym (bytes_at-append (contents r) i m (n - m))
          ∙ ap (bytes_at (contents r) i) (omega arith)))
]

-- A range within the pages reads as the bytes of the RAM, wherever pages begin and end.
pub read_into-contents :
    (r : CowRam) (i n : ℕ) → i + n ≤ capacity r → read_into r i n ≡ some (bytes_at (contents r) i n)
unfolding read_into
read_into-contents r i n h = read_pages_lem n r i n (omega arith) h

read_word_lem :
    (n : ℕ) (r : CowRam) (i : ℕ)
    → i + n ≤ capacity r
    → 0 < n
    → read_word n r i ≡ some (from_le_bytes (bytes_at (contents r) i n))
read_word_lem n r i h pos = elim (Bool-cases (leb (i % page_size + n) page_size)) [
  | inl inside ↦
      rw (page_offset_lem i, inside, page_ref-some r (page_index i) (omega arith))
        (ap (λ (t : List ℕ). some (from_le_bytes t)) (page_part r i n (ground arith)))
  | inr across ↦ rw (page_offset_lem i, across, read_into-contents r i n h)
]

read_u8-contents : (r : CowRam) (i : ℕ) → i < capacity r → read_u8 r i ≡ some (contents r i)
unfolding read_u8 contents
read_u8-contents r i h = rw (page_offset_lem i, page_ref-some r (page_index i) (omega arith)) refl

read_u16-contents :
    (r : CowRam) (i : ℕ)
    → i + 2 ≤ capacity r
    → read_u16 r i ≡ some (from_le_bytes (bytes_at (contents r) i 2))
unfolding read_u16
read_u16-contents r i h = elim (Bool-cases (leb (i % page_size + 2) page_size)) [
  | inl inside ↦
      rw (page_offset_lem i, inside, page_ref-some r (page_index i) (omega arith))
        (ap (λ (t : List ℕ). some (from_le_bytes t)) (page_part r i 2 (ground arith)))
  | inr across ↦
      rw
        (
          page_offset_lem i,
          across,
          read_u8-contents r i (omega arith),
          read_u8-contents r (i + 1) (omega arith),
        )
        (unfold bytes_at in refl)
]

-- Within the pages, with 8 bytes left, every width reads the bytes of the RAM in little-endian
-- order, also across the end of a page.
pub reads-contents :
    (r : CowRam) (i : ℕ)
    → i + 8 ≤ capacity r
    → (read_u8 r i ≡ some (contents r i))
      × (read_u16 r i ≡ some (from_le_bytes (bytes_at (contents r) i 2)))
      × (read_u32 r i ≡ some (from_le_bytes (bytes_at (contents r) i 4)))
      × (read_u64 r i ≡ some (from_le_bytes (bytes_at (contents r) i 8)))
unfolding read_u32 read_u64
reads-contents r i h = (
  read_u8-contents r i (omega arith),
  read_u16-contents r i (omega arith),
  read_word_lem 4 r i (omega arith) (omega arith),
  read_word_lem 8 r i (omega arith) (omega arith),
)

write_rest_lem :
    (turns : ℕ) (r : CowRam) (page n : ℕ)
    → n ≤ turns
    → page * page_size + n ≤ capacity r
    → write_rest turns r page n ≡ some (bytes_at (contents r) (page * page_size) n)
unfolding write_rest
write_rest_lem zero r page n h k =
    let none_left : n ≡ 0 = omega arith in rw none_left (unfold bytes_at in refl)
write_rest_lem (suc turns) r page n h k = elim (Bool-cases (n == 0)) [
  | inl done ↦ let none_left : n ≡ 0 = ground arith in rw none_left (unfold bytes_at in refl)
  | inr more ↦
      let m = min n page_size in
      rw
        (
          more,
          page_ref-some r page (ground arith),
          write_rest_lem turns r (page + 1) (n - m) (ground arith) (ground arith),
        )
        (ap some (
          ap₂ (λ (t u : List ℕ). t ++ u)
            (bytes_at_congr (stored r.base page (r.pages page)) (contents r) 0 (page * page_size) m
              (λ j l.
                unfold contents in
                ap₂ (λ q off. stored r.base q (r.pages q) off) (ground arith) (ground arith)))
            (next_page (n - m) (ground arith))
          ∙ sym (bytes_at-append (contents r) (page * page_size) m (n - m))
          ∙ ap (bytes_at (contents r) (page * page_size)) (omega arith)))
]
  where
    next_page :
        (k : ℕ)
        → (k ≡ 0) ⊎ (min n page_size ≡ page_size)
        → bytes_at (contents r) ((page + 1) * page_size) k
          ≡ bytes_at (contents r) (page * page_size + min n page_size) k
    next_page k (inl z) = rw z (unfold bytes_at in refl)
    next_page k (inr full) = ap (λ (t : ℕ). bytes_at (contents r) t k) (omega arith)

-- A snapshot of the RAM is its `len` bytes, in their order.
pub write_all_to-contents :
    (r : CowRam) → r.len ≤ capacity r → write_all_to r ≡ some (bytes_at (contents r) 0 r.len)
unfolding write_all_to
write_all_to-contents r h = write_rest_lem r.len r 0 r.len (omega arith) (omega arith)
