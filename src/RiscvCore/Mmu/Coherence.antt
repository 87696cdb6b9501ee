-- ===== src/RiscvCore/Mmu/Coherence.antt =====
-- The caches of crates/riscv-core/src/mmu.rs against the page tables: as long as what they hold is what
-- the tables say, a translation through them is the translation by the tables.
use vpod.Prelude.{
  ℕ, ◌+◌, ◌*◌, ◌/◌, ◌%◌, ◌^◌, ◌<◌, ◌≡◌, ◌⊎◌, true, if◌then◌else◌, Option, none, some, arith,
  Option-cases, inl, inr,
}
use vpod.RiscvCore.SystemBus.{SystemBus, IsBus}
use vpod.RiscvCore.Mmu.{
  Mmu, LoadFastEntry, Translated, ok, fault, MmuFault, load_page_fault, store_page_fault,
  instruction_page_fault, lookup, insert,
}
use vpod.RiscvCore.Mmu.Page.{Access, fetch, load, store, permits, page_of}
use vpod.RiscvCore.Mmu.Translate.{bare, load_fast_fill, note_load, note_store}

abbrev pub fault_of : Access → ℕ → MmuFault
fault_of fetch va = instruction_page_fault va
fault_of load va = load_page_fault va
fault_of store va = store_page_fault va

-- The address of `va` in its page, if the access is permitted.
abbrev pub in_page : Access → ℕ → Option (ℕ × ℕ) → Translated
in_page access va none = fault (fault_of access va)
in_page access va (some (ppn, flags)) =
    if permits access flags then ok (ppn * 2 ^ 12 + va % 2 ^ 12) else fault (fault_of access va)

-- A new entry answers for its page; what else the TLB answers it answered before.
pub lookup-insert :
    {P : Type 0} (m : Mmu P) (v p f vpn : ℕ) (x : ℕ × ℕ)
    → lookup (insert m v p f) vpn ≡ some x
    → ((vpn ≡ v) × (x ≡ (p, f))) ⊎ (lookup m vpn ≡ some x)
unfolding lookup insert
lookup-insert m v p f vpn x e = ground arith

module _ (b : SystemBus) where
  open b use {Bus, HostPage}

  -- A translation with no cache.
  unfoldable pub reference : Access → ℕ → ℕ → Bus → Translated
  reference access va satp s =
      if bare satp then ok va else in_page access va (page_of b satp s (va / 2 ^ 12))

  -- The tables map `vpn` to `ppn` and permit the access.
  abbrev pub Maps : Access → ℕ → Bus → ℕ → ℕ → Type 0
  Maps access satp s vpn ppn =
      (flags : ℕ) × (page_of b satp s vpn ≡ some (ppn, flags)) × (permits access flags ≡ true)

  -- Whatever the caches hold for this address space is what its tables say.
  pub record Coherent (m : Mmu HostPage) (satp : ℕ) (s : Bus) : Type 0 where
    pub tlb_says : (vpn : ℕ) (x : ℕ × ℕ) → lookup m vpn ≡ some x → page_of b satp s vpn ≡ some x
    pub load_says :
        m.load_vpage < 2 ^ 52 → m.load_satp ≡ satp → Maps load satp s m.load_vpage m.load_ppage
    pub store_says :
        m.store_vpage < 2 ^ 52 → m.store_satp ≡ satp → Maps store satp s m.store_vpage m.store_ppage

  pub insert-Coherent :
      (m : Mmu HostPage) (satp : ℕ) (s : Bus) (vpn ppn flags : ℕ)
      → Coherent m satp s
      → page_of b satp s vpn ≡ some (ppn, flags)
      → Coherent (insert m vpn ppn flags) satp s
  unfolding insert
  insert-Coherent m satp s vpn ppn flags c e = record {
    tlb_says = λ v x l. elim (lookup-insert m vpn ppn flags v x l) [
      | inl (same, entry) ↦ rw (same, entry) e
      | inr old ↦ c.tlb_says v x old
    ];
    load_says = c.load_says;
    store_says = c.store_says;
  }

  pub note_load-Coherent :
      (m : Mmu HostPage) (satp : ℕ) (s : Bus) (vpn ppn : ℕ)
      → Coherent m satp s
      → Maps load satp s vpn ppn
      → Coherent (note_load b m vpn ppn satp) satp s
  unfolding lookup
  note_load-Coherent m satp s vpn ppn c h = record {
    tlb_says = c.tlb_says;
    load_says = λ _ _. h;
    store_says = c.store_says;
  }

  pub note_store-Coherent :
      (m : Mmu HostPage) (satp : ℕ) (s : Bus) (vpn ppn : ℕ)
      → Coherent m satp s
      → Maps store satp s vpn ppn
      → Coherent (note_store b m vpn ppn satp) satp s
  unfolding lookup
  note_store-Coherent m satp s vpn ppn c h = record {
    tlb_says = c.tlb_says;
    load_says = c.load_says;
    store_says = λ _ _. h;
  }

  load_fast-Coherent :
      (m : Mmu HostPage) (f : ℕ → LoadFastEntry HostPage) (satp : ℕ) (s : Bus)
      → Coherent m satp s
      → Coherent (record m { load_fast = f }) satp s
  unfolding lookup
  load_fast-Coherent m f satp s c = record {
    tlb_says = c.tlb_says;
    load_says = c.load_says;
    store_says = c.store_says;
  }

  pub load_fast_fill-Coherent :
      (k : IsBus b) (m : Mmu HostPage) (vpn satp pa : ℕ) (s : Bus)
      → Coherent m satp s
      → Coherent (load_fast_fill b m vpn satp pa s).0 satp s
        × ((load_fast_fill b m vpn satp pa s).1 ≡ s)
  unfolding load_fast_fill
  load_fast_fill-Coherent k m vpn satp pa s c = elim (Option-cases (b.ram_load_page s pa).0) [
    | inl e ↦ rw e (c, k.load_page_keeps s pa)
    | inr (page, e) ↦ rw e (load_fast-Coherent m _ satp s c, k.load_page_keeps s pa)
  ]
