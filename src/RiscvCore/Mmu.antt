-- ===== src/RiscvCore/Mmu.antt =====
-- crates/riscv-core/src/mmu.rs: Sv39 translation with a direct-mapped TLB, a one-page cache for
-- loads and one for stores, and two tables of host pages. Addresses, page table entries and epochs
-- are natural numbers below 2 ^ 64 (epochs of the TLB below 2 ^ 32). An array of 512 entries is a
-- function of the slot, which every access masks. The counters of perf.rs are left out.
pub mod Walk
pub mod Page
pub mod Translate
pub mod Coherence
pub mod Refinement
pub mod Flush
pub mod Dates
pub mod Session
mod Examples
use vpod.Prelude.{
  u64_max, ℕ, zero, suc, ◌+◌, ◌-◌, ◌*◌, ◌/◌, ◌%◌, ◌^◌, bit_and, bit_or, Bool, true, false, not,
  ◌&&◌, ◌||◌, ◌==◌, if◌then◌else◌, Option, none, some,
}
use vpod.RiscvCore.SystemBus.{SystemBus}

abbrev pub pte_v : ℕ
pte_v = 0x01

abbrev pub pte_r : ℕ
pte_r = 0x02

abbrev pub pte_w : ℕ
pte_w = 0x04

abbrev pub pte_x : ℕ
pte_x = 0x08

abbrev pub pte_d : ℕ
pte_d = 0x80

abbrev pub tlb_size : ℕ
tlb_size = 512

abbrev pub tlb_mask : ℕ
tlb_mask = tlb_size - 1

pub record TlbEntry : Type 0 where
  pub virt_page_num : ℕ
  pub phys_page_num : ℕ
  pub flags : ℕ
  pub epoch : ℕ

abbrev pub empty_tlb_entry : TlbEntry
empty_tlb_entry = record { virt_page_num = u64_max; phys_page_num = 0; flags = 0; epoch = 0 }

-- `host_page` is `none` where the source has a null pointer.
pub record LoadFastEntry (HostPage : Type 0) : Type 0 where
  pub virt_page_num : ℕ
  pub satp : ℕ
  pub ram_epoch : ℕ
  pub epoch : ℕ
  pub host_page : Option HostPage

pub record StoreFastEntry (HostPage : Type 0) : Type 0 where
  pub virt_page_num : ℕ
  pub satp : ℕ
  pub ram_epoch : ℕ
  pub code_generation : ℕ
  pub epoch : ℕ
  pub host_page : Option HostPage

pub record Mmu (HostPage : Type 0) : Type 0 where
  pub tlb : ℕ → TlbEntry
  pub load_fast : ℕ → LoadFastEntry HostPage
  pub store_fast : ℕ → StoreFastEntry HostPage
  pub epoch : ℕ
  pub load_vpage : ℕ
  pub load_ppage : ℕ
  pub load_satp : ℕ
  pub store_vpage : ℕ
  pub store_ppage : ℕ
  pub store_satp : ℕ

pub data MmuFault : Type 0 where
  load_page_fault store_page_fault instruction_page_fault : ℕ → MmuFault
  load_access_fault store_access_fault instruction_access_fault : ℕ → MmuFault

unfoldable pub mcause : MmuFault → ℕ
mcause (instruction_access_fault a) = 1
mcause (load_access_fault a) = 5
mcause (store_access_fault a) = 7
mcause (instruction_page_fault a) = 12
mcause (load_page_fault a) = 13
mcause (store_page_fault a) = 15

unfoldable pub tval : MmuFault → ℕ
tval (load_page_fault a) = a
tval (store_page_fault a) = a
tval (instruction_page_fault a) = a
tval (load_access_fault a) = a
tval (store_access_fault a) = a
tval (instruction_access_fault a) = a

-- `Result<u64, MmuFault>`
pub data Translated : Type 0 where
  ok : ℕ → Translated
  fault : MmuFault → Translated

-- An array with one slot written.
abbrev pub update : {A : Type 0} → (ℕ → A) → ℕ → A → ℕ → A
update f slot a i = if i == slot then a else f i

abbrev pub slot_of : ℕ → ℕ
slot_of virt_page_num = bit_and virt_page_num tlb_mask

unfoldable pub new : {HostPage : Type 0} → Mmu HostPage
new = record {
  tlb = λ _. empty_tlb_entry;
  load_fast =
      λ _. record { virt_page_num = u64_max; satp = 0; ram_epoch = 0; epoch = 0; host_page = none };
  store_fast = λ _. record {
    virt_page_num = u64_max;
    satp = 0;
    ram_epoch = 0;
    code_generation = 0;
    epoch = 0;
    host_page = none;
  };
  epoch = 1;
  load_vpage = u64_max;
  load_ppage = 0;
  load_satp = u64_max;
  store_vpage = u64_max;
  store_ppage = 0;
  store_satp = u64_max;
}

unfoldable pub flush : {HostPage : Type 0} → Mmu HostPage → Mmu HostPage
flush m =
    let next = (m.epoch + 1) % 2 ^ 32 in
    record m { epoch = if next == 0 then 1 else next; load_vpage = u64_max; store_vpage = u64_max }

-- The physical page and the flags of a live entry.
unfoldable pub lookup : {HostPage : Type 0} → Mmu HostPage → ℕ → Option (ℕ × ℕ)
lookup m virt_page_num =
    let entry = m.tlb (slot_of virt_page_num) in
    if entry.epoch == m.epoch && entry.virt_page_num == virt_page_num
    then some (entry.phys_page_num, entry.flags)
    else none

unfoldable pub insert : {HostPage : Type 0} → Mmu HostPage → ℕ → ℕ → ℕ → Mmu HostPage
insert m virt_page_num phys_page_num flags =
    let entry : TlbEntry = record {
      virt_page_num = virt_page_num;
      phys_page_num = phys_page_num;
      flags = flags;
      epoch = m.epoch;
    } in
    record m { tlb = update m.tlb (slot_of virt_page_num) entry }

unfoldable pub load_fast_lookup :
    {HostPage : Type 0} → Mmu HostPage → ℕ → ℕ → ℕ → Option (Option HostPage)
load_fast_lookup m virtual_address satp ram_epoch =
    let virt_page_num = virtual_address / 2 ^ 12 in
    let entry = m.load_fast (slot_of virt_page_num) in
    if entry.virt_page_num == virt_page_num
      && (entry.satp == satp && (entry.epoch == m.epoch && entry.ram_epoch == ram_epoch))
    then some entry.host_page
    else none

unfoldable pub store_fast_lookup :
    {HostPage : Type 0} → Mmu HostPage → ℕ → ℕ → ℕ → ℕ → Option (Option HostPage)
store_fast_lookup m virtual_address satp ram_epoch code_generation =
    let virt_page_num = virtual_address / 2 ^ 12 in
    let entry = m.store_fast (slot_of virt_page_num) in
    if entry.virt_page_num == virt_page_num
      && (entry.satp == satp
          && (entry.epoch == m.epoch
              && (entry.ram_epoch == ram_epoch && entry.code_generation == code_generation)))
    then some entry.host_page
    else none
