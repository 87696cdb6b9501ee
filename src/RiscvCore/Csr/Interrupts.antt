-- ===== src/RiscvCore/Csr/Interrupts.antt =====
-- `pending_interrupt` of crates/riscv-core/src/csr.rs: which interrupt the hart takes.
use vpod.Prelude.{
  ℕ, zero, suc, ◌-◌, ◌^◌, bit_and, bit_not, has, Bool, true, false, not, ◌&&◌, ◌||◌, ◌==◌,
  if◌then◌else◌, Option, none, some, List, [], ◌∷◌,
}
use vpod.Bits.{bit}
use vpod.RiscvCore.Csr.{Csr, PrivMode, user, supervisor, machine, mstatus_mie, mstatus_sie}

-- `value.leading_zeros()` on `w` bits.
unfoldable pub leading_zeros : ℕ → ℕ → ℕ
leading_zeros zero value = 0
leading_zeros (suc w) value = if bit value w then 0 else suc (leading_zeros w value)

-- The loop over the interrupts in the order of their priority; then the highest bit.
unfoldable pub first_set : List ℕ → ℕ → ℕ
first_set [] value = 63 - leading_zeros 64 value
first_set (b ∷ bs) value = if has value (2 ^ b) then b else first_set bs value

-- MEI, MSI, MTI, SEI, SSI and STI.
abbrev pub priority_order : List ℕ
priority_order = 11 ∷ 3 ∷ 7 ∷ 9 ∷ 1 ∷ 5 ∷ []

unfoldable pub highest_priority_interrupt_bit : ℕ → ℕ
highest_priority_interrupt_bit value = first_set priority_order value

abbrev pub is_machine : PrivMode → Bool
is_machine machine = true
is_machine _ = false

-- `priv_mode == PrivMode::U || (priv_mode == PrivMode::S && sie_bit)`
abbrev pub takes_delegated : PrivMode → Bool → Bool
takes_delegated user sie_bit = true
takes_delegated supervisor sie_bit = sie_bit
takes_delegated machine sie_bit = false

unfoldable pub pending_interrupt_slow : Csr → PrivMode → ℕ → Option ℕ
pending_interrupt_slow c priv_mode pending =
    let mie_bit = has c.mstatus mstatus_mie in
    let sie_bit = has c.mstatus mstatus_sie in
    let m_pending = bit_and pending (bit_not 64 c.mideleg) in
    let s_pending = bit_and pending c.mideleg in
    if not (m_pending == 0) && (not (is_machine priv_mode) || mie_bit)
    then some (highest_priority_interrupt_bit m_pending)
    else if not (s_pending == 0) && takes_delegated priv_mode sie_bit
    then some (highest_priority_interrupt_bit s_pending)
    else none

unfoldable pub pending_interrupt : Csr → PrivMode → Option ℕ
unfolding pending_interrupt_slow
pending_interrupt c priv_mode =
    let pending = bit_and c.mip c.mie in
    if pending == 0 then none else pending_interrupt_slow c priv_mode pending
