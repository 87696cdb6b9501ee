-- ===== src/RiscvCore/Mmu/Session.antt =====
-- A whole run of the memory management unit: accesses, and fences after which the address space and the
-- tables may be any others.
use vpod.Prelude.{ℕ, suc, ◌+◌, ◌-◌, ◌^◌, ◌<◌, ◌≡◌, arith, List, [], ◌∷◌}
use vpod.RiscvCore.SystemBus.{SystemBus, IsBus}
use vpod.RiscvCore.Mmu.{Mmu, flush, new, Translated}
use vpod.RiscvCore.Mmu.Page.{Access, fetch, load, store}
use vpod.RiscvCore.Mmu.Translate.{translate_fetch, translate_load, translate_store}
use vpod.RiscvCore.Mmu.Coherence.{Coherent, reference}
use vpod.RiscvCore.Mmu.Refinement.{
  Refines, translate_fetch-Refines, translate_load-Refines, translate_store-Refines,
}
use vpod.RiscvCore.Mmu.Dates.{
  Keeps, translate_fetch_dated, translate_load_dated, translate_store_dated,
}
use vpod.RiscvCore.Mmu.Flush.{
  IsDated, epoch-flush, flush-IsDated, flush-Coherent, new-IsDated, new-Coherent,
}

abbrev pub translate :
    (b : SystemBus) → Access → Mmu b.HostPage → ℕ → ℕ → b.Bus → Translated × Mmu b.HostPage × b.Bus
translate b fetch = translate_fetch b
translate b load = translate_load b
translate b store = translate_store b

module _ (b : SystemBus) where
  open b use {Bus, HostPage}

  -- An access at an address; or a fence, with the address space and the memory that follow it.
  pub data Event : Type 0 where
    access : Access → ℕ → Event
    fence : ℕ → Bus → Event

  abbrev pub fences : List Event → ℕ
  fences [] = 0
  fences (access a va ∷ es) = fences es
  fences (fence satp s ∷ es) = suc (fences es)

  abbrev pub Addresses : List Event → Type 0
  Addresses [] = Unit
  Addresses (access a va ∷ es) = (va < 2 ^ 64) × Addresses es
  Addresses (fence satp s ∷ es) = Addresses es

  -- Every access of the run is answered as the tables of its moment say.
  abbrev pub Faithful : Mmu HostPage → ℕ → Bus → List Event → Type 0
  Faithful m satp s [] = Unit
  Faithful m satp s (access a va ∷ es) =
      ((translate b a m va satp s).0 ≡ reference b a va satp s)
      × Faithful (translate b a m va satp s).1 satp (translate b a m va satp s).2 es
  Faithful m satp s (fence satp' s' ∷ es) = Faithful (flush m) satp' s' es

  module _ (k : IsBus b) where
    translate-Refines :
        (a : Access) (m : Mmu HostPage) (va satp : ℕ) (s : Bus)
        → va < 2 ^ 64
        → Coherent b m satp s
        → Refines b k a va satp s (translate b a m va satp s)
    translate-Refines fetch = translate_fetch-Refines b k
    translate-Refines load = translate_load-Refines b k
    translate-Refines store = translate_store-Refines b k

    translate_dated :
        (a : Access) (m : Mmu HostPage) (va satp : ℕ) (s : Bus)
        → IsDated m
        → Keeps b m (translate b a m va satp s).1
    translate_dated fetch = translate_fetch_dated b
    translate_dated load = translate_load_dated b
    translate_dated store = translate_store_dated b

    Faithful-from :
        (es : List Event) (m : Mmu HostPage) (satp : ℕ) (s : Bus)
        → Addresses es
        → m.epoch + fences es < 2 ^ 32
        → IsDated m
        → Coherent b m satp s
        → Faithful m satp s es
    Faithful-from [] m satp s v h d c = tt
    Faithful-from (access a va ∷ es) m satp s v h d c =
        let (answer, kept, bus) = translate-Refines a m va satp s v.0 c in
        let (dated, same) = translate_dated a m va satp s d in
        (
          answer,
          Faithful-from es (translate b a m va satp s).1 satp (translate b a m va satp s).2 v.1
              (rw same h) dated (rw bus kept),
        )
    Faithful-from (fence satp' s' ∷ es) m satp s v h d c =
        Faithful-from es (flush m) satp' s' v (omega (arith, epoch-flush m (omega arith)))
          (flush-IsDated m d (omega arith)) (flush-Coherent b m satp' s' d (omega arith))

    -- On a bus whose reads fit 64 bits and change nothing: from a new unit, every access at a 64-bit address of a run is answered as the page tables of its moment say, whatever
    -- the caches hold: the tables and the address space may change at a fence, and there are fewer than
    -- 2 ^ 32 - 1 fences.
    pub run-Faithful :
        (es : List Event) (satp : ℕ) (s : Bus)
        → Addresses es
        → fences es < 2 ^ 32 - 1
        → Faithful new satp s es
    run-Faithful es satp s v h =
        Faithful-from es new satp s v (unfold new in omega arith) new-IsDated
          (new-Coherent b satp s)
