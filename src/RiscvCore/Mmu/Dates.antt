-- ===== src/RiscvCore/Mmu/Dates.antt =====
-- The translations keep the epochs of the entries in order, and the current epoch as it is.
use vpod.Prelude.{
  ℕ, ◌/◌, ◌^◌, ◌≡◌, refl, ◌∙◌, Bool, true, false, ◌&&◌, ◌==◌, Option, none, some, arith, Bool-cases,
  Option-cases, inl, inr,
}
use vpod.RiscvCore.SystemBus.{SystemBus}
use vpod.RiscvCore.Mmu.{Mmu, insert}
use vpod.RiscvCore.Mmu.Walk.{walk_inner}
use vpod.RiscvCore.Mmu.Translate.{
  bare, fetchable, loadable, storable, tlb_hit, walk, cache_walk, after_fetch, after_load,
  after_store, note_load, note_store, loaded, load_fast_fill, translate_fetch, translate_load,
  translate_store,
}
use vpod.RiscvCore.Mmu.Flush.{IsDated}

insert-IsDated :
    {P : Type 0} (m : Mmu P) (vpn ppn flags : ℕ)
    → IsDated m
    → IsDated (insert m vpn ppn flags) × ((insert m vpn ppn flags).epoch ≡ m.epoch)
unfolding insert
insert-IsDated m vpn ppn flags d = (
  record {
    started = d.started;
    tlb_dated = λ i. ground (arith, d.tlb_dated i);
    load_dated = d.load_dated;
    store_dated = d.store_dated;
  },
  refl,
)

module _ (b : SystemBus) where
  open b use {Bus, HostPage}

  -- What a translation keeps of the dates: they stay in order, and the epoch is the same.
  abbrev pub Keeps : Mmu HostPage → Mmu HostPage → Type 0
  Keeps m m' = IsDated m' × (m'.epoch ≡ m.epoch)

  load_fast_fill_dated :
      (m : Mmu HostPage) (vpn satp pa : ℕ) (s : Bus)
      → IsDated m
      → Keeps m (load_fast_fill b m vpn satp pa s).0
  unfolding load_fast_fill
  load_fast_fill_dated m vpn satp pa s d = elim (Option-cases (b.ram_load_page s pa).0) [
    | inl e ↦ rw e (d, refl)
    | inr (page, e) ↦ rw e (
      record {
        started = d.started;
        tlb_dated = d.tlb_dated;
        load_dated = λ i. ground (arith, d.load_dated i);
        store_dated = d.store_dated;
      },
      refl,
    )
  ]

  walk_dated :
      (m : Mmu HostPage) (va satp : ℕ) (w x : Bool) (s : Bus)
      → IsDated m
      → Keeps m (walk b m va satp w x s).1
  unfolding walk
  walk_dated m va satp w x s d = go (walk_inner b va satp w x s)
    where
      go : (found : Option (ℕ × ℕ × ℕ) × Bus) → Keeps m (cache_walk b m found).1
      go (none, s') = (d, refl)
      go (some (pa, vpn, pte), s') = insert-IsDated m vpn (pa / 2 ^ 12) pte d

  after_fetch_dated :
      (m : Mmu HostPage) (va : ℕ) (r : Option ℕ × Mmu HostPage × Bus)
      → Keeps m r.1
      → Keeps m (after_fetch b va r).1
  after_fetch_dated m va (none, m', s) d = d
  after_fetch_dated m va (some pa, m', s) d = d

  note_load_dated :
      (m m' : Mmu HostPage) (vpn ppn satp : ℕ) → Keeps m m' → Keeps m (note_load b m' vpn ppn satp)
  note_load_dated m m' vpn ppn satp (d, e) = (
    record {
      started = d.started;
      tlb_dated = d.tlb_dated;
      load_dated = d.load_dated;
      store_dated = d.store_dated;
    },
    e,
  )

  note_store_dated :
      (m m' : Mmu HostPage) (vpn ppn satp : ℕ) → Keeps m m' → Keeps m (note_store b m' vpn ppn satp)
  note_store_dated m m' vpn ppn satp (d, e) = (
    record {
      started = d.started;
      tlb_dated = d.tlb_dated;
      load_dated = d.load_dated;
      store_dated = d.store_dated;
    },
    e,
  )

  loaded_dated :
      (m m' : Mmu HostPage) (vpn satp pa : ℕ) (s : Bus)
      → Keeps m m'
      → Keeps m (loaded b m' vpn satp pa s).1
  loaded_dated m m' vpn satp pa s (d, e) =
      let (kept, same) = load_fast_fill_dated m' vpn satp pa s d in (kept, same ∙ e)

  after_load_dated :
      (m : Mmu HostPage) (va satp : ℕ) (r : Option ℕ × Mmu HostPage × Bus)
      → Keeps m r.1
      → Keeps m (after_load b va satp r).1
  after_load_dated m va satp (none, m', s) d = d
  after_load_dated m va satp (some pa, m', s) d =
      loaded_dated m (note_load b m' (va / 2 ^ 12) (pa / 2 ^ 12) satp) (va / 2 ^ 12) satp pa s
        (note_load_dated m m' (va / 2 ^ 12) (pa / 2 ^ 12) satp d)

  after_store_dated :
      (m : Mmu HostPage) (va satp : ℕ) (r : Option ℕ × Mmu HostPage × Bus)
      → Keeps m r.1
      → Keeps m (after_store b va satp r).1
  after_store_dated m va satp (none, m', s) d = d
  after_store_dated m va satp (some pa, m', s) d =
      note_store_dated m m' (va / 2 ^ 12) (pa / 2 ^ 12) satp d

  pub translate_fetch_dated :
      (m : Mmu HostPage) (va satp : ℕ) (s : Bus)
      → IsDated m
      → Keeps m (translate_fetch b m va satp s).1
  unfolding translate_fetch
  translate_fetch_dated m va satp s d = elim (Bool-cases (bare satp)) [
    | inl off ↦ rw off (d, refl)
    | inr on ↦ elim (Option-cases (tlb_hit b m (va / 2 ^ 12) fetchable)) [
      | inl miss ↦
          let walked = walk_dated m va satp false true s d in
          rw (on, miss) (after_fetch_dated m va (walk b m va satp false true s) walked)
      | inr (ppn, hit) ↦ rw (on, hit) (d, refl)
    ]
  ]

  pub translate_load_dated :
      (m : Mmu HostPage) (va satp : ℕ) (s : Bus)
      → IsDated m
      → Keeps m (translate_load b m va satp s).1
  unfolding translate_load
  translate_load_dated m va satp s d = elim (Bool-cases (bare satp)) [
    | inl off ↦ rw off (loaded_dated m m (va / 2 ^ 12) satp _ s (d, refl))
    | inr on ↦ elim (Bool-cases (va / 2 ^ 12 == m.load_vpage && satp == m.load_satp)) [
      | inl same ↦ rw (on, same) (loaded_dated m m (va / 2 ^ 12) satp _ s (d, refl))
      | inr other ↦ elim (Option-cases (tlb_hit b m (va / 2 ^ 12) loadable)) [
        | inl miss ↦
            let walked = walk_dated m va satp false false s d in
            rw (on, other, miss)
              (after_load_dated m va satp (walk b m va satp false false s) walked)
        | inr (ppn, hit) ↦
            rw (on, other, hit)
              (loaded_dated m (note_load b m (va / 2 ^ 12) ppn satp) (va / 2 ^ 12) satp _ s
                (note_load_dated m m (va / 2 ^ 12) ppn satp (d, refl)))
      ]
    ]
  ]

  pub translate_store_dated :
      (m : Mmu HostPage) (va satp : ℕ) (s : Bus)
      → IsDated m
      → Keeps m (translate_store b m va satp s).1
  unfolding translate_store
  translate_store_dated m va satp s d = elim (Bool-cases (bare satp)) [
    | inl off ↦ rw off (d, refl)
    | inr on ↦ elim (Bool-cases (va / 2 ^ 12 == m.store_vpage && satp == m.store_satp)) [
      | inl same ↦ rw (on, same) (d, refl)
      | inr other ↦ elim (Option-cases (tlb_hit b m (va / 2 ^ 12) storable)) [
        | inl miss ↦
            let walked = walk_dated m va satp true false s d in
            rw (on, other, miss)
              (after_store_dated m va satp (walk b m va satp true false s) walked)
        | inr (ppn, hit) ↦
            rw (on, other, hit) (note_store_dated m m (va / 2 ^ 12) ppn satp (d, refl))
      ]
    ]
  ]
