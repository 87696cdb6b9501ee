-- ===== src/RiscvCore/Block/Cache/Pages.antt =====
-- The bitmap of the pages that hold code, of crates/riscv-core/src/block.rs: what marking and evicting a page
-- do to the mark of each page.
use vpod.Prelude.{
  ℕ, zero, suc, ◌+◌, ◌-◌, ◌/◌, ◌%◌, ◌^◌, ◌≤◌, bit_and, bit_or, bit_not, Bool, not, ◌&&◌, ◌||◌, ◌==◌,
  ◌≡◌, refl, ap, sym, ◌∙◌, ltb, if◌then◌else◌, Bool-cases, inl, inr, List, [], ◌∷◌, ◌++◌, length,
  get_or, set, replicate, length-append, length-replicate, arith,
}
use vpod.Bits.{bit, bit-zero}
use vpod.Bits.Masks.{has_pow, bit-clear_pow, bit-set_pow}
use vpod.RiscvCore.Block.Cache.{BlockCache, resized, mark_page, page_has_code, evict_page}

get_or-set :
    (xs : List ℕ) (i j v d : ℕ)
    → get_or (set xs i v) j d ≡ (if i == j && ltb j (length xs) then v else get_or xs j d)
get_or-set [] i j v d = ground arith
get_or-set (x ∷ xs) zero zero v d = ground arith
get_or-set (x ∷ xs) zero (suc j) v d = ground arith
get_or-set (x ∷ xs) (suc i) zero v d = ground arith
get_or-set (x ∷ xs) (suc i) (suc j) v d = ground (arith, get_or-set xs i j v d)

get_or-replicate : (n j : ℕ) → get_or {A = ℕ} (replicate n 0) j 0 ≡ 0
get_or-replicate zero j = refl
get_or-replicate (suc n) zero = refl
get_or-replicate (suc n) (suc j) = get_or-replicate n j

get_or-zeros : (xs : List ℕ) (n j : ℕ) → get_or (xs ++ replicate n 0) j 0 ≡ get_or xs j 0
get_or-zeros [] n j = get_or-replicate n j
get_or-zeros (x ∷ xs) n zero = refl
get_or-zeros (x ∷ xs) n (suc j) = get_or-zeros xs n j

get_or_past : (xs : List ℕ) (j : ℕ) → length xs ≤ j → get_or xs j 0 ≡ 0
get_or_past [] j h = refl
get_or_past (x ∷ xs) zero h = absurd (omega arith)
get_or_past (x ∷ xs) (suc j) h = get_or_past xs j (omega arith)

length-resized : (xs : List ℕ) (n : ℕ) → n ≤ length (resized xs n 0)
length-resized xs n = omega (
  arith,
  length-append xs (replicate (n - length xs) 0),
  length-replicate {A = ℕ} (n - length xs) 0,
)

-- The mark of a page.
abbrev pub marked : List ℕ → ℕ → Bool
marked bitmap page = bit (get_or bitmap (page / 64) 0) (page % 64)

pub page_has_code-marked :
    (c : BlockCache) (page : ℕ) → page_has_code c page ≡ marked c.page_bitmap page
unfolding page_has_code
page_has_code-marked c page = elim (Bool-cases (ltb (page / 64) (length c.page_bitmap))) [
  | inl inside ↦ rw inside (has_pow (get_or c.page_bitmap (page / 64) 0) (page % 64))
  | inr past ↦
      let gone = get_or_past c.page_bitmap (page / 64) (ground arith) in
      rw (past, gone) (sym (bit-zero (page % 64)))
]

-- Marking a page marks it and leaves the others.
pub marked-mark_page :
    (c : BlockCache) (page q : ℕ)
    → marked (mark_page c page).page_bitmap q ≡ (marked c.page_bitmap q || page == q)
unfolding mark_page
marked-mark_page c page q =
    let zeros = (page / 64 + 1) - length c.page_bitmap in
    let bitmap = resized c.page_bitmap (page / 64 + 1) 0 in
    let written = bit_or (get_or bitmap (page / 64) 0) (2 ^ (page % 64)) in
    ap (λ (w : ℕ). bit w (q % 64)) (get_or-set bitmap (page / 64) (q / 64) written 0)
    ∙ ground (
      arith,
      get_or-zeros c.page_bitmap zeros (q / 64),
      length-resized c.page_bitmap (page / 64 + 1),
      bit-set_pow (get_or bitmap (page / 64) 0) (page % 64) (q % 64),
    )

-- Evicting a page takes its mark away and leaves the others.
pub marked-evict_page :
    (c : BlockCache) (page q : ℕ)
    → marked (evict_page c page).page_bitmap q ≡ (marked c.page_bitmap q && not (page == q))
unfolding evict_page
marked-evict_page c page q =
    let word = get_or c.page_bitmap (page / 64) 0 in
    let written = bit_and word (bit_not 64 (2 ^ (page % 64))) in
    ap (λ (w : ℕ). bit w (q % 64)) (get_or-set c.page_bitmap (page / 64) (q / 64) written 0)
    ∙ ground (
      arith,
      bit-clear_pow 64 word (page % 64) (q % 64) (omega arith) (omega arith),
      get_or_past c.page_bitmap (q / 64),
      bit-zero (q % 64),
    )
