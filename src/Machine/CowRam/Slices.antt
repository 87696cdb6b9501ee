-- ===== src/Machine/CowRam/Slices.antt =====
-- A write within one page of crates/machine/src/cow_ram.rs: the bytes that it changes, and the epoch that it may draw.
use vpod.Prelude.{
  ℕ, ◌+◌, ◌-◌, ◌*◌, ◌/◌, ◌%◌, ◌^◌, ◌<◌, ◌≤◌, ltb, leb, ◌==◌, ◌&&◌, if◌then◌else◌, ◌≡◌, refl, ap,
  ap₂, sym, ◌∙◌, Bool, true, false, Bool-cases, inl, inr, ◌⊎◌, Option, none, some, List, length,
  get_or, arith,
}
use vpod.Machine.CowRam.{
  CowRam, Memory, Page, page_size, stored, put_page, own, next_epoch, copy_slice, page_mut,
  write_slice,
}
use vpod.Machine.CowRam.Contents.{contents}

-- The bytes of `f` with `bytes` put at `i`.
unfoldable pub overlay : (ℕ → ℕ) → ℕ → List ℕ → ℕ → ℕ
overlay f i bytes j = if leb i j && ltb j (i + length bytes) then get_or bytes (j - i) 0 else f j

abbrev pub has_copy : Option Page → Bool
has_copy none = false
has_copy (some p) = true

abbrev pub is_owned : CowRam → ℕ → Bool
is_owned r page = has_copy (r.pages page)

-- What every write leaves: the base and the sizes; and the epoch, unless a page got its own copy, in
-- which case the epoch was drawn since.
pub record Advances (m m' : Memory) : Type 0 where
  pub same_base : m'.ram.base ≡ m.ram.base
  pub same_pages : m'.ram.num_pages ≡ m.ram.num_pages
  pub same_len : m'.ram.len ≡ m.ram.len
  pub drawn : m.epoch_source ≤ m'.epoch_source
  pub epochs :
      ((m'.ram.epoch ≡ m.ram.epoch) × ((page : ℕ) → is_owned m'.ram page ≡ is_owned m.ram page))
      ⊎ ((m.epoch_source ≤ m'.ram.epoch) × (m'.ram.epoch < m'.epoch_source))

pub Advances-refl : (m : Memory) → Advances m m
Advances-refl m = record {
  same_base = refl;
  same_pages = refl;
  same_len = refl;
  drawn = omega arith;
  epochs = inl (refl, λ page. refl);
}

pub Advances-trans : (m n o : Memory) → Advances m n → Advances n o → Advances m o
Advances-trans m n o a b = record {
  same_base = b.same_base ∙ a.same_base;
  same_pages = b.same_pages ∙ a.same_pages;
  same_len = b.same_len ∙ a.same_len;
  drawn = omega (arith, a.drawn, b.drawn);
  epochs = elim b.epochs [
    | inr later ↦ inr (omega (arith, a.drawn, later.0), later.1)
    | inl kept ↦ elim a.epochs [
      | inl same ↦ inl (kept.0 ∙ same.0, λ page. kept.1 page ∙ same.1 page)
      | inr first ↦ inr (omega (arith, first.0, kept.0), omega (arith, first.1, kept.0, b.drawn))
    ]
  ];
}

abbrev sliced : Memory → ℕ → ℕ → List ℕ → Option Page → Memory
sliced m page offset bytes o =
    let owner = own m page o in
    record owner {
      ram = put_page owner.ram page (copy_slice (stored m.ram.base page o) offset bytes);
    }

write_slice-some :
    (m : Memory) (page offset : ℕ) (bytes : List ℕ)
    → page < m.ram.num_pages
    → write_slice m page offset bytes ≡ some (sliced m page offset bytes (m.ram.pages page))
unfolding write_slice page_mut
write_slice-some m page offset bytes h = ground arith

-- A byte of the page that is written.
overlay_inside :
    (g : ℕ → ℕ) (p : Page) (page offset j : ℕ) (bytes : List ℕ)
    → (j / page_size == page) ≡ true
    → p (j % page_size) ≡ g j
    → copy_slice p offset bytes (j % page_size) ≡ overlay g (page * page_size + offset) bytes j
unfolding overlay
overlay_inside g p page offset j bytes here same =
    let k = j % page_size in
    elim (Bool-cases (leb offset k && ltb k (offset + length bytes))) [
      | inl within ↦
          let there : (leb (page * page_size + offset) j
                && ltb j (page * page_size + offset + length bytes))
              ≡ true =
            ground arith in
          rw (within, there) (ap (λ (t : ℕ). get_or bytes t 0) (ground arith))
      | inr beyond ↦
          let there : (leb (page * page_size + offset) j
                && ltb j (page * page_size + offset + length bytes))
              ≡ false =
            ground arith in
          rw (beyond, there) same
    ]

-- A byte of another page.
overlay_outside :
    (g : ℕ → ℕ) (page offset j : ℕ) (bytes : List ℕ)
    → offset + length bytes ≤ page_size
    → (j / page_size == page) ≡ false
    → g j ≡ overlay g (page * page_size + offset) bytes j
unfolding overlay
overlay_outside g page offset j bytes h other =
    let there : (leb (page * page_size + offset) j
          && ltb j (page * page_size + offset + length bytes))
        ≡ false =
      ground arith in
    rw there refl

sliced-contents :
    (m : Memory) (page offset : ℕ) (bytes : List ℕ) (o : Option Page)
    → m.ram.pages page ≡ o
    → offset + length bytes ≤ page_size
    → (j : ℕ)
    → contents (sliced m page offset bytes o).ram j
      ≡ overlay (contents m.ram) (page * page_size + offset) bytes j
unfolding contents
sliced-contents m page offset bytes o e h j = elim (Bool-cases (j / page_size == page)) [
  | inl here ↦
      by_owner o here
      ∙ overlay_inside (contents m.ram) (stored m.ram.base page o) page offset j bytes here (
          ap₂ (λ q o'. stored m.ram.base q o' (j % page_size)) (sym (same_page here))
            (sym (ap m.ram.pages (same_page here) ∙ e)))
  | inr other ↦ by_other o other ∙ overlay_outside (contents m.ram) page offset j bytes h other
]
  where
    same_page : (j / page_size == page) ≡ true → j / page_size ≡ page
    same_page here = ground arith

    by_owner :
        (o : Option Page)
        → (j / page_size == page) ≡ true
        → contents (sliced m page offset bytes o).ram j
          ≡ copy_slice (stored m.ram.base page o) offset bytes (j % page_size)
    by_owner none here = rw here refl
    by_owner (some p) here = rw here refl

    by_other :
        (o : Option Page)
        → (j / page_size == page) ≡ false
        → contents (sliced m page offset bytes o).ram j ≡ contents m.ram j
    by_other none other = rw other refl
    by_other (some p) other = rw other refl

sliced-Advances :
    (m : Memory) (page offset : ℕ) (bytes : List ℕ) (o : Option Page)
    → m.ram.pages page ≡ o
    → m.epoch_source + 1 < 2 ^ 64
    → Advances m (sliced m page offset bytes o)
unfolding next_epoch
sliced-Advances m page offset bytes none e h = record {
  same_base = refl;
  same_pages = refl;
  same_len = refl;
  drawn = omega arith;
  epochs = inr (omega arith, omega arith);
}
sliced-Advances m page offset bytes (some p) e h = record {
  same_base = refl;
  same_pages = refl;
  same_len = refl;
  drawn = omega arith;
  epochs = inl (refl, λ q. kept q (Bool-cases (q == page)));
}
  where
    kept :
        (q : ℕ)
        → ((q == page) ≡ true) ⊎ ((q == page) ≡ false)
        → has_copy (if q == page then some (copy_slice p offset bytes) else m.ram.pages q)
          ≡ has_copy (m.ram.pages q)
    kept q (inl here) =
        let at : q ≡ page = ground arith in rw here (sym (ap has_copy (ap m.ram.pages at ∙ e)))
    kept q (inr other) = rw other refl

sliced_draws :
    (m : Memory) (page offset : ℕ) (bytes : List ℕ) (o : Option Page)
    → (sliced m page offset bytes o).epoch_source ≤ m.epoch_source + 1
unfolding next_epoch
sliced_draws m page offset bytes none = omega arith
sliced_draws m page offset bytes (some p) = omega arith

pub write_slice_lem :
    (m : Memory) (page offset : ℕ) (bytes : List ℕ)
    → page < m.ram.num_pages
    → offset + length bytes ≤ page_size
    → m.epoch_source + 1 < 2 ^ 64
    → (m' : Memory) × (write_slice m page offset bytes ≡ some m')
      × Advances m m'
      × ((j : ℕ) → contents m'.ram j ≡ overlay (contents m.ram) (page * page_size + offset) bytes j)
      × (m'.epoch_source ≤ m.epoch_source + 1)
write_slice_lem m page offset bytes h k e = (
  sliced m page offset bytes (m.ram.pages page),
  write_slice-some m page offset bytes h,
  sliced-Advances m page offset bytes (m.ram.pages page) refl e,
  sliced-contents m page offset bytes (m.ram.pages page) refl k,
  sliced_draws m page offset bytes (m.ram.pages page),
)
