-- ===== src/RiscvCore/Mmu/Page.antt =====
-- What the page tables say of a virtual page, whatever caches stand before them: its physical page
-- and the entry of its leaf. The walk of any address is that of its page, and a permission.
use vpod.Prelude.{
  has, shl, ℕ, zero, suc, ◌+◌, ◌-◌, ◌*◌, ◌/◌, ◌%◌, ◌^◌, ◌<◌, bit_and, bit_or, ◌≡◌, refl, ap, ap₂,
  ◌∙◌, Bool, true, false, not, ◌&&◌, ◌==◌, ltb, if◌then◌else◌, Option, none, some, arith,
  Bool-cases, Option-cases, inl, inr,
}
use vpod.Bits.Masks.{and-mask, or_fields}
use vpod.RiscvCore.SystemBus.{SystemBus, IsBus}
use vpod.RiscvCore.Mmu.{pte_r, pte_w, pte_x}
use vpod.RiscvCore.Mmu.Walk.{
  virt_page_num_at, ppn_of, ppn_mask, leaf_address, walk_loop, walk_inner,
}

-- A leaf at `level` maps `2 ^ (9 * level)` pages, and must be aligned to as many.
abbrev pub aligned : ℕ → ℕ → Bool
aligned level pte = ppn_of pte % 2 ^ (9 * level) == 0

-- The access that an instruction makes.
pub data Access : Type 0 where
  fetch load store : Access

-- The permission bit that the access wants.
abbrev pub permits : Access → ℕ → Bool
permits fetch pte = has pte pte_x
permits load pte = has pte pte_r
permits store pte = has pte pte_w

ppn_of-lt : (pte : ℕ) → pte < 2 ^ 64 → ppn_of pte < 2 ^ 44
ppn_of-lt pte h = omega (arith, and-mask 64 44 (pte / 2 ^ 10) (omega arith))

-- The address that a leaf gives is its physical page for the virtual page, and the offset.
leaf-page :
    (va level pte : ℕ)
    → va < 2 ^ 64
    → pte < 2 ^ 64
    → level < 3
    → aligned level pte ≡ true
    → bit_or (shl (ppn_of pte) 12) (bit_and va (2 ^ (12 + 9 * level) - 1))
      ≡ (ppn_of pte + va / 2 ^ 12 % 2 ^ (9 * level)) * 2 ^ 12 + va % 2 ^ 12
leaf-page va zero pte hv hp h a =
    let f = ppn_of-lt pte hp in
    let zeros : ppn_of pte % 1 ≡ 0 = ground arith in
    ap₂ bit_or {y = ppn_of pte / 1 * 2 ^ 12} {v = va % 2 ^ 12} (omega arith) (and-mask 64 12 va hv)
    ∙ or_fields 64 12 (ppn_of pte / 1) (va % 2 ^ 12) (omega arith) (omega arith)
    ∙ omega arith
leaf-page va (suc zero) pte hv hp h a =
    let f = ppn_of-lt pte hp in
    let zeros : ppn_of pte % 512 ≡ 0 = ground arith in
    ap₂ bit_or {y = ppn_of pte / 512 * 2 ^ 21} {v = va % 2 ^ 21} (omega arith)
      (and-mask 64 21 va hv)
    ∙ or_fields 64 21 (ppn_of pte / 512) (va % 2 ^ 21) (omega arith) (omega arith)
    ∙ omega arith
leaf-page va (suc (suc zero)) pte hv hp h a =
    let f = ppn_of-lt pte hp in
    let zeros : ppn_of pte % 262144 ≡ 0 = ground arith in
    ap₂ bit_or {y = ppn_of pte / 262144 * 2 ^ 30} {v = va % 2 ^ 30} (omega arith)
      (and-mask 64 30 va hv)
    ∙ or_fields 64 30 (ppn_of pte / 262144) (va % 2 ^ 30) (omega arith) (omega arith)
    ∙ omega arith
leaf-page va (suc (suc (suc _))) pte hv hp h a = absurd (omega arith)

virt_page_num_at-page :
    (va va' n : ℕ) → va / 2 ^ 12 ≡ va' / 2 ^ 12 → virt_page_num_at va n ≡ virt_page_num_at va' n
unfolding virt_page_num_at
virt_page_num_at-page va va' zero e = rw e
virt_page_num_at-page va va' (suc zero) e = ap (λ (t : ℕ). bit_and t 0x1ff) (omega arith)
virt_page_num_at-page va va' (suc (suc n)) e = ap (λ (t : ℕ). bit_and t 0x1ff) (omega arith)

module _ (b : SystemBus) where
  open b use {Bus}

  -- The physical page and the flags of a virtual page.
  unfoldable pub page_of : ℕ → Bus → ℕ → Option (ℕ × ℕ)
  page_of satp s vpn = elim (walk_loop b (vpn * 2 ^ 12) 3 (bit_and satp ppn_mask) s).0 [
    | none ↦ none
    | some (level, pte) ↦
        if aligned level pte then some (ppn_of pte + vpn % 2 ^ (9 * level), pte) else none
  ]

-- The walk's flags for each access.
abbrev pub writes : Access → Bool
writes store = true
writes _ = false

abbrev pub executes : Access → Bool
executes fetch = true
executes _ = false

-- What a walk for `access` makes of the page: the address, the page number and the flags, if the
-- access is permitted.
abbrev pub through : Access → ℕ → Option (ℕ × ℕ) → Option (ℕ × ℕ × ℕ)
through access va none = none
through access va (some (ppn, pte)) =
    if permits access pte then some (ppn * 2 ^ 12 + va % 2 ^ 12, va / 2 ^ 12, pte) else none

-- The page that a leaf gives to virtual page `vpn`.
abbrev mapped : ℕ → ℕ → ℕ → Option (ℕ × ℕ)
mapped level pte vpn =
    if aligned level pte then some (ppn_of pte + vpn % 2 ^ (9 * level), pte) else none

mapped-lt :
    (level pte vpn ppn flags : ℕ)
    → level < 3
    → pte < 2 ^ 64
    → mapped level pte vpn ≡ some (ppn, flags)
    → (ppn < 2 ^ 45) × (flags < 2 ^ 64)
mapped-lt zero pte vpn ppn flags h fits e = ground (arith, ppn_of-lt pte fits)
mapped-lt (suc zero) pte vpn ppn flags h fits e = ground (arith, ppn_of-lt pte fits)
mapped-lt (suc (suc zero)) pte vpn ppn flags h fits e = ground (arith, ppn_of-lt pte fits)
mapped-lt (suc (suc (suc _))) pte vpn ppn flags h fits e = absurd (omega arith)

align_test :
    (level pte : ℕ)
    → pte < 2 ^ 64
    → (ltb 0 level && not (bit_and (ppn_of pte) (2 ^ (9 * level) - 1) == 0))
      ≡ not (aligned level pte)
align_test zero pte h = ground arith
align_test (suc level) pte h =
    rw (and-mask 44 (9 * suc level) (ppn_of pte) (ppn_of-lt pte h)) (ground arith)

permit_tests :
    {A : Type 0} (access : Access) (pte : ℕ) (x y : A)
    → (if executes access && not (has pte pte_x)
        then x
        else if not (executes access) && (not (writes access) && not (has pte pte_r))
        then x
        else if writes access && not (has pte pte_w)
        then x
        else y)
      ≡ (if permits access pte then y else x)
permit_tests fetch pte x y = ground arith
permit_tests load pte x y = ground arith
permit_tests store pte x y = ground arith

leaf_address-page :
    (access : Access) (va level pte : ℕ)
    → va < 2 ^ 64
    → pte < 2 ^ 64
    → level < 3
    → leaf_address va (writes access) (executes access) level pte
      ≡ through access va (
          if aligned level pte
          then some (ppn_of pte + va / 2 ^ 12 % 2 ^ (9 * level), pte)
          else none)
unfolding leaf_address
leaf_address-page access va level pte hv hp h =
    permit_tests access pte none _ ∙ elim (Bool-cases (aligned level pte)) [
      | inl good ↦
          rw (align_test level pte hp, leaf-page va level pte hv hp h good, good) (ground arith)
      | inr bad ↦ rw (align_test level pte hp, bad) (ground arith)
    ]

module _ (b : SystemBus) (k : IsBus b) where
  open b use {Bus}

  abbrev entry_at : ℕ → ℕ → ℕ → Bus → ℕ × Bus
  entry_at va n ppn s = b.read_doubleword s (bit_or (shl ppn 12) (shl (virt_page_num_at va n) 3))

  -- The loop leaves the bus as it is.
  pub walk_loop-keeps : (va n ppn : ℕ) (s : Bus) → (walk_loop b va n ppn s).1 ≡ s
  unfolding walk_loop
  walk_loop-keeps va zero ppn s = refl
  walk_loop-keeps va (suc n) ppn s =
      let (pte, s') = entry_at va n ppn s in
      let rest = walk_loop-keeps va n (ppn_of pte) s' in
      ground (arith, k.read_keeps s (bit_or (shl ppn 12) (shl (virt_page_num_at va n) 3)), rest)

  -- A leaf stands at one of the levels walked, and is a `u64`.
  walk_loop-leaf :
      (va n ppn : ℕ) (s : Bus) (level pte : ℕ)
      → (walk_loop b va n ppn s).0 ≡ some (level, pte)
      → (level < n) × (pte < 2 ^ 64)
  unfolding walk_loop
  walk_loop-leaf va zero ppn s level pte e = cc
  walk_loop-leaf va (suc n) ppn s level pte e =
      let (entry, s') = entry_at va n ppn s in
      let fits = k.read_fits s (bit_or (shl ppn 12) (shl (virt_page_num_at va n) 3)) in
      ground (arith, fits, walk_loop-leaf va n (ppn_of entry) s' level pte)

  -- The loop reads of an address only its page.
  walk_loop-page :
      (va va' n ppn : ℕ) (s : Bus)
      → va / 2 ^ 12 ≡ va' / 2 ^ 12
      → walk_loop b va n ppn s ≡ walk_loop b va' n ppn s
  unfolding walk_loop
  walk_loop-page va va' zero ppn s e = refl
  walk_loop-page va va' (suc n) ppn s e = rw (
    virt_page_num_at-page va va' n e,
    walk_loop-page va va' n (ppn_of (entry_at va' n ppn s).0) (entry_at va' n ppn s).1 e,
  )

  -- The walk of an address is that of its page, and leaves the bus as it is.
  pub walk_inner-page :
      (access : Access) (va satp : ℕ) (s : Bus)
      → va < 2 ^ 64
      → walk_inner b va satp (writes access) (executes access) s
        ≡ (through access va (page_of b satp s (va / 2 ^ 12)), s)
  unfolding walk_inner page_of
  walk_inner-page access va satp s hv =
      let page = va / 2 ^ 12 * 2 ^ 12 in
      let root = bit_and satp ppn_mask in
      rw (← walk_loop-page page va 3 root s (omega arith)) (
        ap₂ (λ x y. (x, y))
          (elim (Option-cases (walk_loop b page 3 root s).0) [
            | inl e ↦ rw (e, through)
            | inr (leaf, e) ↦
                let (below, fits) = walk_loop-leaf page 3 root s leaf.0 leaf.1 e in
                rw (e, through) (leaf_address-page access va leaf.0 leaf.1 hv fits below)
          ])
          (walk_loop-keeps page 3 root s))

  -- A physical page number fits 44 bits and the 18 of a large page's index; its flags are a `u64`.
  pub page_of-lt :
      (satp vpn : ℕ) (s : Bus) (ppn flags : ℕ)
      → page_of b satp s vpn ≡ some (ppn, flags)
      → (ppn < 2 ^ 45) × (flags < 2 ^ 64)
  unfolding page_of
  page_of-lt satp vpn s ppn flags e =
      elim (Option-cases (walk_loop b (vpn * 2 ^ 12) 3 (bit_and satp ppn_mask) s).0) [
        | inl no_leaf ↦ absurd (ground arith)
        | inr (leaf, found) ↦
            let (below, fits) =
              walk_loop-leaf (vpn * 2 ^ 12) 3 (bit_and satp ppn_mask) s leaf.0 leaf.1 found in
            mapped-lt leaf.0 leaf.1 vpn ppn flags below fits (rw (found, page_of) at e)
      ]
