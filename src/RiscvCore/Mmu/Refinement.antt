-- ===== src/RiscvCore/Mmu/Refinement.antt =====
-- Translation through the caches is translation by the page tables.
use vpod.Prelude.{subst}
use vpod.Prelude.{
  ℕ, ◌+◌, ◌*◌, ◌/◌, ◌%◌, ◌^◌, ◌<◌, bit_and, bit_or, ◌≡◌, refl, ap, ap₂, ◌∙◌, sym, Bool, true, false,
  ◌&&◌, ◌==◌, Option, none, some, arith, ==_iff, Bool-cases, Option-cases, inl, inr,
}
use vpod.Bits.{bit, bit-and, and-pow}
use vpod.Bits.Masks.{and-mask, or_fields}
use vpod.RiscvCore.SystemBus.{SystemBus, IsBus}
use vpod.RiscvCore.Mmu.{Mmu, Translated, ok, fault, lookup, insert}
use vpod.RiscvCore.Mmu.Page.{
  Access, fetch, load, store, permits, through, writes, executes, page_of, page_of-lt,
  walk_inner-page,
}
use vpod.RiscvCore.Mmu.Translate.{
  bare, join_page, fetchable, loadable, storable, translate_fetch, translate_load, translate_store,
  walk, tlb_hit, after_fetch, after_load, after_store, loaded, note_load,
}
use vpod.RiscvCore.Mmu.Coherence.{
  fault_of, in_page, reference, Maps, Coherent, insert-Coherent, note_load-Coherent,
  note_store-Coherent, load_fast_fill-Coherent,
}

-- Below 2 ^ 52 pages, joining a page and an offset is adding them.
join_page_lem :
    (ppn va : ℕ) → ppn < 2 ^ 45 → va < 2 ^ 64 → join_page ppn va ≡ ppn * 2 ^ 12 + va % 2 ^ 12
join_page_lem ppn va h hv =
    ap₂ bit_or {y = ppn * 2 ^ 12} (omega arith) (and-mask 64 12 va hv)
    ∙ or_fields 64 12 ppn (va % 2 ^ 12) (omega arith) (omega arith)

mask_bit : bit 0x84 2 ≡ true
unfolding bit
mask_bit = refl

-- An entry that can be stored through, being writable and dirty, permits the store.
storable-permits : (flags : ℕ) → flags < 2 ^ 64 → storable flags ≡ true → permits store flags ≡ true
storable-permits flags h e =
    let kept : bit_and flags 0x84 ≡ 0x84 = (==_iff (bit_and flags 0x84) 0x84).0 e in
    let set = bit-and flags 0x84 2 in
    ground (arith, mask_bit, ap (λ (t : ℕ). bit t 2) kept, set, and-pow 64 2 flags h)

module _ (b : SystemBus) (k : IsBus b) where
  open b use {Bus, HostPage}

  -- The answer of the tables, caches that still agree with them, and the bus as it was.
  abbrev pub Refines : Access → ℕ → ℕ → Bus → Translated × Mmu HostPage × Bus → Type 0
  Refines access va satp s r =
      (r.0 ≡ reference b access va satp s) × Coherent b r.1 satp s × (r.2 ≡ s)

  tlb_hit-Maps :
      (access : Access) (usable : ℕ → Bool) (m : Mmu HostPage) (satp vpn ppn : ℕ) (s : Bus)
      → ((flags : ℕ) → flags < 2 ^ 64 → usable flags ≡ true → permits access flags ≡ true)
      → Coherent b m satp s
      → tlb_hit b m vpn usable ≡ some ppn
      → Maps b access satp s vpn ppn
  tlb_hit-Maps access usable m satp vpn ppn s allow c e = elim (Option-cases (lookup m vpn)) [
    | inl no_entry ↦ absurd (ground arith)
    | inr (x, entry) ↦
        let says = c.tlb_says vpn x entry in
        let bounds = page_of-lt b k satp vpn s x.0 x.1 says in
        (x.1, ground arith, ground (arith, allow x.1 bounds.1))
  ]

  reference-Maps :
      (access : Access) (va satp ppn : ℕ) (s : Bus)
      → bare satp ≡ false
      → va < 2 ^ 64
      → Maps b access satp s (va / 2 ^ 12) ppn
      → ok (join_page ppn va) ≡ reference b access va satp s
  unfolding reference
  reference-Maps access va satp ppn s on hv (flags, found, allowed) =
      let bounds = page_of-lt b k satp (va / 2 ^ 12) s ppn flags found in
      rw on (rw found (ground (arith, join_page_lem ppn va bounds.0 hv)))

  -- A walk: no page, or none that permits the access; or the page, which the TLB now holds.
  data Walked (access : Access) (va satp : ℕ) (s : Bus)
      : Option ℕ × Mmu HostPage × Bus → Type 0 where
    refused :
        (m : Mmu HostPage)
        → Coherent b m satp s
        → in_page access va (page_of b satp s (va / 2 ^ 12)) ≡ fault (fault_of access va)
        → Walked access va satp s (none, m, s)
    walked :
        (m : Mmu HostPage) (ppn pa : ℕ)
        → Coherent b m satp s
        → Maps b access satp s (va / 2 ^ 12) ppn
        → pa / 2 ^ 12 ≡ ppn
        → in_page access va (page_of b satp s (va / 2 ^ 12)) ≡ ok pa
        → Walked access va satp s (some pa, m, s)

  walk-Walked :
      (access : Access) (m : Mmu HostPage) (va satp : ℕ) (s : Bus)
      → va < 2 ^ 64
      → Coherent b m satp s
      → Walked access va satp s (walk b m va satp (writes access) (executes access) s)
  unfolding walk
  walk-Walked access m va satp s hv c =
      rw (walk_inner-page b k access va satp s hv)
        (elim (Option-cases (page_of b satp s (va / 2 ^ 12))) [
          | inl unmapped ↦ rw unmapped (refused m c (rw unmapped))
          | inr (x, found) ↦ elim (Bool-cases (permits access x.1)) [
            | inl allowed ↦
                let pa = x.0 * 2 ^ 12 + va % 2 ^ 12 in
                let kept =
                  insert-Coherent b m satp s (va / 2 ^ 12) (pa / 2 ^ 12) x.1 c
                    (found ∙ ap (λ (t : ℕ). some (t, x.1)) (omega arith)) in
                rw (found, through, allowed)
                  (walked (insert m (va / 2 ^ 12) (pa / 2 ^ 12) x.1) x.0 pa kept
                    (x.1, found, allowed) (omega arith) (rw (found, in_page, allowed)))
            | inr denied ↦ rw (found, through, denied) (refused m c (rw (found, in_page, denied)))
          ]
        ])

  reference-bare :
      (access : Access) (va satp : ℕ) (s : Bus)
      → bare satp ≡ true
      → ok va ≡ reference b access va satp s
  unfolding reference
  reference-bare access va satp s off = rw off

  reference_on :
      (access : Access) (va satp : ℕ) (s : Bus) {t : Translated}
      → bare satp ≡ false
      → in_page access va (page_of b satp s (va / 2 ^ 12)) ≡ t
      → t ≡ reference b access va satp s
  unfolding reference
  reference_on access va satp s on e = rw on (sym e)

  after_fetch-Refines :
      (va satp : ℕ) (s : Bus) {r : Option ℕ × Mmu HostPage × Bus}
      → bare satp ≡ false
      → Walked fetch va satp s r
      → Refines fetch va satp s (after_fetch b va r)
  after_fetch-Refines va satp s on (refused m c e) = (reference_on fetch va satp s on e, c, refl)
  after_fetch-Refines va satp s on (walked m ppn pa c _ _ e) =
      (reference_on fetch va satp s on e, c, refl)

  -- On a bus whose reads fit 64 bits and change nothing, with caches that hold what the tables say: a fetch
  -- at a 64-bit address, through the TLB or a walk, gives the address or the fault that the tables
  -- give; the caches still hold what the tables say and the bus is unchanged.
  pub translate_fetch-Refines :
      (m : Mmu HostPage) (va satp : ℕ) (s : Bus)
      → va < 2 ^ 64
      → Coherent b m satp s
      → Refines fetch va satp s (translate_fetch b m va satp s)
  unfolding translate_fetch
  translate_fetch-Refines m va satp s hv c = elim (Bool-cases (bare satp)) [
    | inl off ↦ rw off (reference-bare fetch va satp s off, c, refl)
    | inr on ↦ elim (Option-cases (tlb_hit b m (va / 2 ^ 12) fetchable)) [
      | inl miss ↦
          rw (on, miss) (after_fetch-Refines va satp s on (walk-Walked fetch m va satp s hv c))
      | inr (ppn, hit) ↦
          let maps = tlb_hit-Maps fetch fetchable m satp (va / 2 ^ 12) ppn s (λ _ _ h. h) c hit in
          rw (on, hit) (reference-Maps fetch va satp ppn s on hv maps, c, refl)
    ]
  ]

  loaded-Refines :
      (m : Mmu HostPage) (va satp pa : ℕ) (s : Bus)
      → Coherent b m satp s
      → ok pa ≡ reference b load va satp s
      → Refines load va satp s (loaded b m (va / 2 ^ 12) satp pa s)
  loaded-Refines m va satp pa s c e =
      let (kept, same) = load_fast_fill-Coherent b k m (va / 2 ^ 12) satp pa s c in (e, kept, same)

  after_load-Refines :
      (va satp : ℕ) (s : Bus) {r : Option ℕ × Mmu HostPage × Bus}
      → bare satp ≡ false
      → Walked load va satp s r
      → Refines load va satp s (after_load b va satp r)
  after_load-Refines va satp s on (refused m c e) = (reference_on load va satp s on e, c, refl)
  after_load-Refines va satp s on (walked m ppn pa c maps page e) =
      let noted =
        note_load-Coherent b m satp s (va / 2 ^ 12) (pa / 2 ^ 12) c
          (subst (λ t. Maps b load satp s (va / 2 ^ 12) t) (sym page) maps) in
      loaded-Refines (note_load b m (va / 2 ^ 12) (pa / 2 ^ 12) satp) va satp pa s noted
        (reference_on load va satp s on e)

  same_load :
      (m : Mmu HostPage) (va satp : ℕ) (s : Bus)
      → va < 2 ^ 64
      → Coherent b m satp s
      → (va / 2 ^ 12 == m.load_vpage && satp == m.load_satp) ≡ true
      → Maps b load satp s (va / 2 ^ 12) m.load_ppage
  same_load m va satp s hv c e =
      let page : m.load_vpage ≡ va / 2 ^ 12 = ground arith in
      subst (λ t. Maps b load satp s t m.load_ppage) page (c.load_says (omega arith) (ground arith))

  -- On a bus whose reads fit 64 bits and change nothing, with caches that hold what the tables say: a load
  -- at a 64-bit address, through the page last loaded from, the TLB or a walk, gives the address or
  -- the fault that the tables give; the caches still hold what the tables say and the bus is unchanged.
  pub translate_load-Refines :
      (m : Mmu HostPage) (va satp : ℕ) (s : Bus)
      → va < 2 ^ 64
      → Coherent b m satp s
      → Refines load va satp s (translate_load b m va satp s)
  unfolding translate_load
  translate_load-Refines m va satp s hv c = elim (Bool-cases (bare satp)) [
    | inl off ↦ rw off (loaded-Refines m va satp va s c (reference-bare load va satp s off))
    | inr on ↦ elim (Bool-cases (va / 2 ^ 12 == m.load_vpage && satp == m.load_satp)) [
      | inl same ↦
          let maps = same_load m va satp s hv c same in
          rw (on, same)
            (loaded-Refines m va satp _ s c (reference-Maps load va satp m.load_ppage s on hv maps))
      | inr other ↦ elim (Option-cases (tlb_hit b m (va / 2 ^ 12) loadable)) [
        | inl miss ↦
            rw (on, other, miss)
              (after_load-Refines va satp s on (walk-Walked load m va satp s hv c))
        | inr (ppn, hit) ↦
            let maps = tlb_hit-Maps load loadable m satp (va / 2 ^ 12) ppn s (λ _ _ h. h) c hit in
            rw (on, other, hit)
              (loaded-Refines (note_load b m (va / 2 ^ 12) ppn satp) va satp _ s
                (note_load-Coherent b m satp s (va / 2 ^ 12) ppn c maps)
                (reference-Maps load va satp ppn s on hv maps))
      ]
    ]
  ]

  after_store-Refines :
      (va satp : ℕ) (s : Bus) {r : Option ℕ × Mmu HostPage × Bus}
      → bare satp ≡ false
      → Walked store va satp s r
      → Refines store va satp s (after_store b va satp r)
  after_store-Refines va satp s on (refused m c e) = (reference_on store va satp s on e, c, refl)
  after_store-Refines va satp s on (walked m ppn pa c maps page e) = (
    reference_on store va satp s on e,
    note_store-Coherent b m satp s (va / 2 ^ 12) (pa / 2 ^ 12) c
        (subst (λ t. Maps b store satp s (va / 2 ^ 12) t) (sym page) maps),
    refl,
  )

  same_store :
      (m : Mmu HostPage) (va satp : ℕ) (s : Bus)
      → va < 2 ^ 64
      → Coherent b m satp s
      → (va / 2 ^ 12 == m.store_vpage && satp == m.store_satp) ≡ true
      → Maps b store satp s (va / 2 ^ 12) m.store_ppage
  same_store m va satp s hv c e =
      let page : m.store_vpage ≡ va / 2 ^ 12 = ground arith in
      subst (λ t. Maps b store satp s t m.store_ppage) page
        (c.store_says (omega arith) (ground arith))

  -- On a bus whose reads fit 64 bits and change nothing, with caches that hold what the tables say: a store
  -- at a 64-bit address, through the page last stored to, a writable and dirty entry of the TLB or a
  -- walk, gives the address or the fault that the tables give; the caches still hold what the tables
  -- say and the bus is unchanged.
  pub translate_store-Refines :
      (m : Mmu HostPage) (va satp : ℕ) (s : Bus)
      → va < 2 ^ 64
      → Coherent b m satp s
      → Refines store va satp s (translate_store b m va satp s)
  unfolding translate_store
  translate_store-Refines m va satp s hv c = elim (Bool-cases (bare satp)) [
    | inl off ↦ rw off (reference-bare store va satp s off, c, refl)
    | inr on ↦ elim (Bool-cases (va / 2 ^ 12 == m.store_vpage && satp == m.store_satp)) [
      | inl same ↦
          let maps = same_store m va satp s hv c same in
          rw (on, same) (reference-Maps store va satp m.store_ppage s on hv maps, c, refl)
      | inr other ↦ elim (Option-cases (tlb_hit b m (va / 2 ^ 12) storable)) [
        | inl miss ↦
            rw (on, other, miss)
              (after_store-Refines va satp s on (walk-Walked store m va satp s hv c))
        | inr (ppn, hit) ↦
            let maps =
              tlb_hit-Maps store storable m satp (va / 2 ^ 12) ppn s storable-permits c hit in
            rw (on, other, hit)
              (
                reference-Maps store va satp ppn s on hv maps,
                note_store-Coherent b m satp s (va / 2 ^ 12) ppn c maps,
                refl,
              )
      ]
    ]
  ]
