-- ===== src/RiscvCore/Mmu/Flush.antt =====
-- `new` and `flush` of crates/riscv-core/src/mmu.rs: the epoch that makes entries stale, and its wrap.
use vpod.Prelude.{ℕ, ◌+◌, ◌-◌, ◌/◌, ◌^◌, ◌<◌, ◌≤◌, ◌≡◌, none, some, arith}
use vpod.RiscvCore.SystemBus.{SystemBus}
use vpod.RiscvCore.Mmu.{Mmu, new, flush, lookup, load_fast_lookup, store_fast_lookup, slot_of}
use vpod.RiscvCore.Mmu.Coherence.{Coherent}

module _ {HostPage : Type 0} where
  -- No entry of the three tables is from a later epoch than the current one, which is not 0.
  pub record IsDated (m : Mmu HostPage) : Type 0 where
    pub started : 0 < m.epoch
    pub tlb_dated : (i : ℕ) → (m.tlb i).epoch ≤ m.epoch
    pub load_dated : (i : ℕ) → (m.load_fast i).epoch ≤ m.epoch
    pub store_dated : (i : ℕ) → (m.store_fast i).epoch ≤ m.epoch

  pub new-IsDated : IsDated (new {HostPage = HostPage})
  unfolding new
  new-IsDated = record {
    started = omega arith;
    tlb_dated = λ i. omega arith;
    load_dated = λ i. omega arith;
    store_dated = λ i. omega arith;
  }

  pub flush-IsDated : (m : Mmu HostPage) → IsDated m → m.epoch < 2 ^ 32 - 1 → IsDated (flush m)
  unfolding flush
  flush-IsDated m d h = record {
    started = ground arith;
    tlb_dated = λ i. ground (arith, d.tlb_dated i);
    load_dated = λ i. ground (arith, d.load_dated i);
    store_dated = λ i. ground (arith, d.store_dated i);
  }

  pub epoch-flush : (m : Mmu HostPage) → m.epoch < 2 ^ 32 - 1 → (flush m).epoch ≡ m.epoch + 1
  unfolding flush
  epoch-flush m h = ground arith

  -- Where no entry is of a later epoch than the current one, and the epoch is below 2 ^ 32 - 1, no
  -- lookup of the TLB or of the fast load and store tables answers after a flush.
  pub flush_forgets :
      (m : Mmu HostPage)
      → IsDated m
      → m.epoch < 2 ^ 32 - 1
      → ((vpn : ℕ) → lookup (flush m) vpn ≡ none)
        × ((va satp e : ℕ) → load_fast_lookup (flush m) va satp e ≡ none)
        × ((va satp e g : ℕ) → store_fast_lookup (flush m) va satp e g ≡ none)
  unfolding flush lookup load_fast_lookup store_fast_lookup
  flush_forgets m d h = (
    λ vpn. ground (arith, d.tlb_dated (slot_of vpn)),
    λ va satp e. ground (arith, d.load_dated (slot_of (va / 2 ^ 12))),
    λ va satp e g. ground (arith, d.store_dated (slot_of (va / 2 ^ 12))),
  )

  -- The flush of the last epoch goes back to epoch 1: an entry that was made in epoch 1 and never
  -- replaced answers again, although it was flushed.
  pub flush_revives :
      (m : Mmu HostPage) (vpn : ℕ)
      → m.epoch ≡ 2 ^ 32 - 1
      → (m.tlb (slot_of vpn)).epoch ≡ 1
      → (m.tlb (slot_of vpn)).virt_page_num ≡ vpn
      → (lookup m vpn ≡ none)
        × (lookup (flush m) vpn
            ≡ some ((m.tlb (slot_of vpn)).phys_page_num, (m.tlb (slot_of vpn)).flags))
  unfolding flush lookup
  flush_revives m vpn e old page = ground arith

module _ (b : SystemBus) where
  open b use {Bus, HostPage}

  -- A new unit agrees with any tables.
  pub new-Coherent : (satp : ℕ) (s : Bus) → Coherent b new satp s
  unfolding new lookup
  new-Coherent satp s = record {
    tlb_says = λ vpn x e. absurd (ground arith);
    load_says = λ h _. absurd (omega arith);
    store_says = λ h _. absurd (omega arith);
  }

  -- After a flush the caches agree with whatever tables, in whatever address space, come next.
  pub flush-Coherent :
      (m : Mmu HostPage) (satp : ℕ) (s : Bus)
      → IsDated m
      → m.epoch < 2 ^ 32 - 1
      → Coherent b (flush m) satp s
  flush-Coherent m satp s d h = record {
    tlb_says = λ vpn x e. absurd (ground (arith, (flush_forgets m d h).0 vpn));
    load_says = λ p _. absurd (unfold flush in omega arith);
    store_says = λ p _. absurd (unfold flush in omega arith);
  }
