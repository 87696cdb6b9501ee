-- ===== src/RiscvCore/Mmu/Walk.antt =====
-- `walk_inner` of crates/riscv-core/src/mmu.rs: the walk of the page tables in memory.
use vpod.Prelude.{
  has, shl, ℕ, zero, suc, ◌+◌, ◌-◌, ◌*◌, ◌/◌, ◌^◌, bit_and, bit_or, Bool, not, ◌&&◌, ◌==◌, ltb,
  if◌then◌else◌, Option, none, some,
}
use vpod.RiscvCore.SystemBus.{SystemBus}
use vpod.RiscvCore.Mmu.{pte_v, pte_r, pte_w, pte_x}

abbrev pub ppn_mask : ℕ
ppn_mask = 0x0fffffffffff

-- `virt_page_nums[2 - level]`
unfoldable pub virt_page_num_at : ℕ → ℕ → ℕ
virt_page_num_at virtual_address zero = bit_and (virtual_address / 2 ^ 12) 0x1ff
virt_page_num_at virtual_address (suc zero) = bit_and (virtual_address / 2 ^ 21) 0x1ff
virt_page_num_at virtual_address (suc (suc _)) = bit_and (virtual_address / 2 ^ 30) 0x1ff

-- `(pte >> 10) & 0x0fff_ffff_ffff`
abbrev pub ppn_of : ℕ → ℕ
ppn_of pte = bit_and (pte / 2 ^ 10) ppn_mask

-- The checks after the loop, and the address: the permission, then the alignment of a large page.
unfoldable pub leaf_address : ℕ → Bool → Bool → ℕ → ℕ → Option (ℕ × ℕ × ℕ)
leaf_address virtual_address write exec level pte =
    if exec && not (has pte pte_x)
    then none
    else if not exec && (not write && not (has pte pte_r))
    then none
    else if write && not (has pte pte_w)
    then none
    else if ltb 0 level && not (bit_and (ppn_of pte) (2 ^ (9 * level) - 1) == 0)
    then none
    else some (
      bit_or (shl (ppn_of pte) 12) (bit_and virtual_address (2 ^ (12 + 9 * level) - 1)),
      virtual_address / 2 ^ 12,
      pte,
    )

module _ (b : SystemBus) where
  open b use {Bus, read_doubleword}

  -- The loop, from `level` one below its first argument; the level and the entry of the leaf.
  unfoldable pub walk_loop : ℕ → ℕ → ℕ → Bus → Option (ℕ × ℕ) × Bus
  walk_loop virtual_address zero phys_page_num s = (none, s)
  walk_loop virtual_address (suc level) phys_page_num s =
      let pte_addr =
        bit_or (shl phys_page_num 12) (shl (virt_page_num_at virtual_address level) 3) in
      let (pte, s') = read_doubleword s pte_addr in
      let rest = walk_loop virtual_address level (ppn_of pte) s' in
      if not (has pte pte_v)
      then (none, s')
      else if has pte (bit_or pte_r pte_x)
      then (some (level, pte), s')
      else rest

  unfoldable pub walk_inner : ℕ → ℕ → Bool → Bool → Bus → Option (ℕ × ℕ × ℕ) × Bus
  walk_inner virtual_address satp write exec s =
      let (leaf, s') = walk_loop virtual_address 3 (bit_and satp ppn_mask) s in
      (
        elim leaf [
          | none ↦ none
          | some (level, pte) ↦ leaf_address virtual_address write exec level pte
        ],
        s',
      )
