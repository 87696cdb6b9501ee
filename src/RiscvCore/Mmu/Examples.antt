-- ===== src/RiscvCore/Mmu/Examples.antt =====
-- The memory management unit on a small machine: one root table, at physical page 1, whose first
-- entry maps the first gigabyte to 0x80000000 and permits everything.
use vpod.Prelude.{ℕ, ◌≡◌, refl, ◌==◌, if◌then◌else◌, none, some, arith, List, [], ◌∷◌, ◌^◌, ◌-◌}
use vpod.RiscvCore.SystemBus.{SystemBus, IsBus}
use vpod.RiscvCore.Mmu.{Mmu, ok, new, flush, insert, lookup, load_fast_lookup, store_fast_lookup}
use vpod.RiscvCore.Mmu.Walk.{walk_loop, walk_inner, leaf_address, virt_page_num_at}
use vpod.RiscvCore.Mmu.Page.{fetch, load, store}
use vpod.RiscvCore.Mmu.Translate.{translate_load, translate_store, walk, load_fast_fill}
use vpod.RiscvCore.Mmu.Coherence.{Coherent}
use vpod.RiscvCore.Mmu.Refinement.{Refines, translate_load-Refines, translate_store-Refines}
use vpod.RiscvCore.Mmu.Session.{Event, access, fence, Faithful, run-Faithful}
use vpod.RiscvCore.Mmu.Flush.{new-IsDated, new-Coherent, flush_forgets, flush_revives}

abbrev gigapage : SystemBus
gigapage = record {
  Bus = Unit {0};
  HostPage = ℕ;
  read_doubleword = λ s a. (if a == 0x1000 then 0x2000008f else 0, s);
  ram_load_page = λ s a. (some a, s);
  ram_store_page = λ s a. (some a, s);
  ram_epoch = λ s. 7;
}

gigapage-IsBus : IsBus gigapage
gigapage-IsBus = record {
  read_keeps = λ s a. refl;
  load_page_keeps = λ s a. refl;
  read_fits = λ s a. ground arith;
}

abbrev sv39 : ℕ
sv39 = 0x8000000000000001

load_example : (translate_load gigapage new 0x1234 sv39 tt).0 ≡ ok 0x80001234
unfolding translate_load new lookup walk walk_inner walk_loop leaf_address virt_page_num_at insert
    load_fast_fill
load_example = refl

translate_load-Refines_example :
    Refines gigapage gigapage-IsBus load 0x1234 sv39 tt (translate_load gigapage new 0x1234 sv39 tt)
translate_load-Refines_example =
    translate_load-Refines gigapage gigapage-IsBus new 0x1234 sv39 tt (omega arith)
      (new-Coherent gigapage sv39 tt)

-- The second load finds the page of the first.
after_load_example : Coherent gigapage (translate_load gigapage new 0x1234 sv39 tt).1 sv39 tt
after_load_example = translate_load-Refines_example.1

translate_store-Refines_example :
    Refines gigapage gigapage-IsBus store 0x1238 sv39 tt
      (translate_store gigapage (translate_load gigapage new 0x1234 sv39 tt).1 0x1238 sv39 tt)
translate_store-Refines_example =
    translate_store-Refines gigapage gigapage-IsBus (translate_load gigapage new 0x1234 sv39 tt).1
      0x1238 sv39 tt (omega arith) after_load_example

-- Two accesses, a fence into another address space without translation, and an access there.
abbrev session : List (Event gigapage)
session = access load 0x1234 ∷ access fetch 0x1238 ∷ fence 0 tt ∷ access store 0x5000 ∷ []

run-Faithful_example : Faithful gigapage new sv39 tt session
run-Faithful_example =
    run-Faithful gigapage gigapage-IsBus session sv39 tt (omega arith) (omega arith)

abbrev worn_out : Mmu ℕ
worn_out = record {
  tlb = λ _. record { virt_page_num = 5; phys_page_num = 6; flags = 0x8f; epoch = 1 };
  load_fast =
      λ _. record { virt_page_num = 0; satp = 0; ram_epoch = 0; epoch = 0; host_page = none };
  store_fast = λ _. record {
    virt_page_num = 0;
    satp = 0;
    ram_epoch = 0;
    code_generation = 0;
    epoch = 0;
    host_page = none;
  };
  epoch = 2 ^ 32 - 1;
  load_vpage = 0;
  load_ppage = 0;
  load_satp = 0;
  store_vpage = 0;
  store_ppage = 0;
  store_satp = 0;
}

flush_revives_example : (lookup worn_out 5 ≡ none) × (lookup (flush worn_out) 5 ≡ some (6, 0x8f))
flush_revives_example = flush_revives worn_out 5 refl refl refl

flush_forgets_example :
    ((vpn : ℕ) → lookup (flush (new {HostPage = ℕ})) vpn ≡ none)
    × ((va satp e : ℕ) → load_fast_lookup (flush (new {HostPage = ℕ})) va satp e ≡ none)
    × ((va satp e g : ℕ) → store_fast_lookup (flush (new {HostPage = ℕ})) va satp e g ≡ none)
unfolding new
flush_forgets_example = flush_forgets new new-IsDated (omega arith)
