-- ===== src/RiscvCore/FetchTlb.antt =====
-- `FetchTlb` of crates/riscv-core/src/execute.rs: the pages that instructions were last fetched from. The
-- array of entries is a function of the index.
pub mod Sound
mod Examples
use vpod.Prelude.{
  ℕ, ◌-◌, ◌^◌, u64_max, bit_and, Bool, ◌&&◌, ◌==◌, if◌then◌else◌, Option, none, some,
}

abbrev pub fetch_tlb_size : ℕ
fetch_tlb_size = 256

pub record FetchTlbEntry : Type 0 where
  pub vpage : ℕ
  pub ppage : ℕ
  pub satp : ℕ

pub record FetchTlb : Type 0 where
  pub entries : ℕ → FetchTlbEntry

-- `(vpage as usize) & (FETCH_TLB_SIZE - 1)`
abbrev pub index_of : ℕ → ℕ
index_of vpage = bit_and vpage (fetch_tlb_size - 1)

unfoldable pub new : FetchTlb
new = record { entries = λ _. record { vpage = u64_max; ppage = 0; satp = u64_max } }

unfoldable pub lookup : FetchTlb → ℕ → ℕ → Option ℕ
lookup t vpage satp =
    let entry = t.entries (index_of vpage) in
    if entry.vpage == vpage && entry.satp == satp then some entry.ppage else none

unfoldable pub insert : FetchTlb → ℕ → ℕ → ℕ → FetchTlb
insert t vpage ppage satp =
    let entry : FetchTlbEntry = record { vpage = vpage; ppage = ppage; satp = satp } in
    record { entries = λ i. if i == index_of vpage then entry else t.entries i }

unfoldable pub flush : FetchTlb → FetchTlb
flush t = record { entries = λ i. record (t.entries i) { vpage = u64_max } }
