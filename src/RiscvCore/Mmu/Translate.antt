-- ===== src/RiscvCore/Mmu/Translate.antt =====
-- The translations of crates/riscv-core/src/mmu.rs: a fetch, a load and a store, through the caches
-- and then the walk. Each returns the address or the fault, and the new state of the unit and the bus.
use vpod.Prelude.{
  has, shl, ℕ, ◌/◌, ◌^◌, bit_and, bit_or, Bool, true, false, ◌&&◌, ◌==◌, if◌then◌else◌, Option,
  none, some,
}
use vpod.RiscvCore.SystemBus.{SystemBus}
use vpod.RiscvCore.Mmu.{
  Mmu, LoadFastEntry, StoreFastEntry, Translated, ok, fault, instruction_page_fault,
  load_page_fault, store_page_fault, pte_r, pte_w, pte_x, pte_d, update, slot_of, lookup, insert,
}
use vpod.RiscvCore.Mmu.Walk.{walk_inner}

-- `satp >> 60 == 0`: no translation.
abbrev pub bare : ℕ → Bool
bare satp = satp / 2 ^ 60 == 0

-- `(ppn << 12) | (virtual_address & 0xfff)`
abbrev pub join_page : ℕ → ℕ → ℕ
join_page ppn virtual_address = bit_or (shl ppn 12) (bit_and virtual_address 0xfff)

abbrev pub fetchable : ℕ → Bool
fetchable flags = has flags pte_x

abbrev pub loadable : ℕ → Bool
loadable flags = has flags pte_r

abbrev pub storable : ℕ → Bool
storable flags = bit_and flags (bit_or pte_w pte_d) == bit_or pte_w pte_d

module _ (b : SystemBus) where
  open b use {Bus, HostPage, ram_load_page, ram_store_page, ram_epoch}

  unfoldable pub store_fast_fill : Mmu HostPage → ℕ → ℕ → ℕ → ℕ → Bus → Mmu HostPage × Bus
  store_fast_fill m virt_page_num satp physical_address code_generation s =
      let (page, s') = ram_store_page s physical_address in
      (
        elim page [
          | none ↦ m
          | some host_page ↦
              let entry : StoreFastEntry HostPage = record {
                virt_page_num = virt_page_num;
                satp = satp;
                ram_epoch = ram_epoch s';
                code_generation = code_generation;
                epoch = m.epoch;
                host_page = some host_page;
              } in
              record m { store_fast = update m.store_fast (slot_of virt_page_num) entry }
        ],
        s',
      )

  unfoldable pub load_fast_fill : Mmu HostPage → ℕ → ℕ → ℕ → Bus → Mmu HostPage × Bus
  load_fast_fill m virt_page_num satp physical_address s =
      let (page, s') = ram_load_page s physical_address in
      (
        elim page [
          | none ↦ m
          | some host_page ↦
              let entry : LoadFastEntry HostPage = record {
                virt_page_num = virt_page_num;
                satp = satp;
                ram_epoch = ram_epoch s';
                epoch = m.epoch;
                host_page = some host_page;
              } in
              record m { load_fast = update m.load_fast (slot_of virt_page_num) entry }
        ],
        s',
      )

  -- A walk that succeeds is put into the TLB.
  abbrev pub cache_walk : Mmu HostPage → Option (ℕ × ℕ × ℕ) × Bus → Option ℕ × Mmu HostPage × Bus
  cache_walk m (none, s') = (none, m, s')
  cache_walk m (some (physical_address, vpn, pte), s') =
      (some physical_address, insert m vpn (physical_address / 2 ^ 12) pte, s')

  unfoldable pub walk : Mmu HostPage → ℕ → ℕ → Bool → Bool → Bus → Option ℕ × Mmu HostPage × Bus
  walk m virtual_address satp write exec s =
      cache_walk m (walk_inner b virtual_address satp write exec s)

  -- `if let Some((ppn, flags)) = self.lookup(vpn) && <usable flags>`
  abbrev pub tlb_hit : Mmu HostPage → ℕ → (ℕ → Bool) → Option ℕ
  tlb_hit m vpn usable = elim (lookup m vpn) [
    | none ↦ none
    | some (ppn, flags) ↦ if usable flags then some ppn else none
  ]

  -- What each translation does with the result of its walk.
  abbrev pub after_fetch : ℕ → Option ℕ × Mmu HostPage × Bus → Translated × Mmu HostPage × Bus
  after_fetch virtual_address (none, m, s) = (fault (instruction_page_fault virtual_address), m, s)
  after_fetch virtual_address (some pa, m, s) = (ok pa, m, s)

  unfoldable pub translate_fetch : Mmu HostPage → ℕ → ℕ → Bus → Translated × Mmu HostPage × Bus
  translate_fetch m virtual_address satp s =
      if bare satp
      then (ok virtual_address, m, s)
      else let vpn = virtual_address / 2 ^ 12 in
        elim (tlb_hit m vpn fetchable) [
          | some ppn ↦ (ok (join_page ppn virtual_address), m, s)
          | none ↦ after_fetch virtual_address (walk m virtual_address satp false true s)
        ]

  unfoldable pub translate_readable : ℕ → ℕ → Bus → Option ℕ × Bus
  translate_readable virtual_address satp s =
      if bare satp
      then (some virtual_address, s)
      else let (found, s') = walk_inner b virtual_address satp false false s in
        (elim found [ none ↦ none | some (physical_address, vpn, pte) ↦ some physical_address ], s')

  -- The end of each branch of a load: the address, and the page noted for the fast path.
  abbrev pub loaded : Mmu HostPage → ℕ → ℕ → ℕ → Bus → Translated × Mmu HostPage × Bus
  loaded m vpn satp pa s = let (m', s') = load_fast_fill m vpn satp pa s in (ok pa, m', s')

  abbrev pub note_load : Mmu HostPage → ℕ → ℕ → ℕ → Mmu HostPage
  note_load m vpn ppn satp = record m { load_vpage = vpn; load_ppage = ppn; load_satp = satp }

  abbrev pub after_load : ℕ → ℕ → Option ℕ × Mmu HostPage × Bus → Translated × Mmu HostPage × Bus
  after_load virtual_address satp (none, m, s) = (fault (load_page_fault virtual_address), m, s)
  after_load virtual_address satp (some pa, m, s) =
      let vpn = virtual_address / 2 ^ 12 in
      loaded (note_load m vpn (pa / 2 ^ 12) satp) vpn satp pa s

  unfoldable pub translate_load : Mmu HostPage → ℕ → ℕ → Bus → Translated × Mmu HostPage × Bus
  translate_load m virtual_address satp s =
      let vpn = virtual_address / 2 ^ 12 in
      if bare satp
      then loaded m vpn satp virtual_address s
      else if vpn == m.load_vpage && satp == m.load_satp
      then loaded m vpn satp (join_page m.load_ppage virtual_address) s
      else elim (tlb_hit m vpn loadable) [
        | some ppn ↦ loaded (note_load m vpn ppn satp) vpn satp (join_page ppn virtual_address) s
        | none ↦ after_load virtual_address satp (walk m virtual_address satp false false s)
      ]

  abbrev pub note_store : Mmu HostPage → ℕ → ℕ → ℕ → Mmu HostPage
  note_store m vpn ppn satp = record m { store_vpage = vpn; store_ppage = ppn; store_satp = satp }

  abbrev pub after_store : ℕ → ℕ → Option ℕ × Mmu HostPage × Bus → Translated × Mmu HostPage × Bus
  after_store virtual_address satp (none, m, s) = (fault (store_page_fault virtual_address), m, s)
  after_store virtual_address satp (some pa, m, s) =
      (ok pa, note_store m (virtual_address / 2 ^ 12) (pa / 2 ^ 12) satp, s)

  unfoldable pub translate_store : Mmu HostPage → ℕ → ℕ → Bus → Translated × Mmu HostPage × Bus
  translate_store m virtual_address satp s =
      if bare satp
      then (ok virtual_address, m, s)
      else let vpn = virtual_address / 2 ^ 12 in
        if vpn == m.store_vpage && satp == m.store_satp
        then (ok (join_page m.store_ppage virtual_address), m, s)
        else elim (tlb_hit m vpn storable) [
          | some ppn ↦ (ok (join_page ppn virtual_address), note_store m vpn ppn satp, s)
          | none ↦ after_store virtual_address satp (walk m virtual_address satp true false s)
        ]
