-- ===== src/Machine/Clint/Laws.antt =====
-- How time passes in crates/machine/src/clint.rs, and when its timer fires.
use vpod.Prelude.{
  ◌⊎◌, ℕ, ◌+◌, ◌-◌, ◌*◌, ◌/◌, ◌%◌, ◌^◌, ◌≤◌, ◌<◌, ◌≡◌, refl, ap, ◌∙◌, ◌↔◌, true, false, none, some,
  arith,
}
use vpod.Bits.Halves.{low_half, high_half}
use vpod.Machine.Clint.{
  Clint, advance_by_instructions, advance_by_nanos, nanos_until_timer, fast_forward_to_timer,
  get_interrupt_status, read_register, write_register,
}

-- Every field fits its integer type, and less than a tick of instructions is left over.
pub record IsValid (c : Clint) : Type 0 where
  pub mtimecmp_fits : c.mtimecmp < 2 ^ 64
  pub msip_fits : c.msip < 2 ^ 32
  pub mtime_fits : c.mtime < 2 ^ 64
  pub counter_fits : c.instruction_counter < 10

-- In a valid state, before the count of instructions passes 64 bits: no instruction is lost or counted
-- twice, ticks of ten instructions and what is left over add up, and the state stays valid.
advance_by_instructions_total :
    (c : Clint) (n : ℕ)
    → IsValid c
    → c.mtime * 10 + c.instruction_counter + n < 2 ^ 64
    → let d = advance_by_instructions c n in
      (d.mtime * 10 + d.instruction_counter ≡ c.mtime * 10 + c.instruction_counter + n) × IsValid d
unfolding advance_by_instructions
advance_by_instructions_total c n v h = omega arith

-- Advancing in two steps is advancing once by the sum, also where the clock wraps.
pub advance_by_instructions_add :
    (c : Clint) (m n : ℕ)
    → IsValid c
    → c.instruction_counter + m + n < 2 ^ 64
    → advance_by_instructions (advance_by_instructions c m) n ≡ advance_by_instructions c (m + n)
unfolding advance_by_instructions
advance_by_instructions_add c m n v h = ground arith

-- In a valid state, with a distance that fits 64 bits in nanoseconds: the timer fires after
-- `nanos_until_timer` nanoseconds, and after any number below it does not.
pub nanos_until_timer_exact :
    (c : Clint) (n m : ℕ)
    → IsValid c
    → (c.mtimecmp - c.mtime) * 100 < 2 ^ 64
    → nanos_until_timer c ≡ some n
    → ((get_interrupt_status (advance_by_nanos c n)).0 ≡ true)
      × ((n ≤ m) ⊎ ((get_interrupt_status (advance_by_nanos c m)).0 ≡ false))
unfolding nanos_until_timer get_interrupt_status advance_by_nanos
nanos_until_timer_exact c n m v fits e = ground arith

-- `fast_forward_to_timer` moves exactly when `nanos_until_timer` has an answer.
pub fast_forward_lem :
    (c : Clint) → ((fast_forward_to_timer c).1 ≡ false) ↔ (nanos_until_timer c ≡ none)
unfolding fast_forward_to_timer nanos_until_timer
fast_forward_lem c = ground arith

-- `fast_forward_to_timer` never turns the clock back and leaves the timer set as it was; it says that
-- it moved only if the timer then fires.
pub fast_forward_fires :
    (c : Clint)
    → let d = (fast_forward_to_timer c).0 in
      (c.mtime ≤ d.mtime)
      × (d.mtimecmp ≡ c.mtimecmp)
      × (((fast_forward_to_timer c).1 ≡ false) ⊎ ((get_interrupt_status d).0 ≡ true))
unfolding fast_forward_to_timer get_interrupt_status
fast_forward_fires c = ground arith

write_low :
    (c : Clint) (val : ℕ)
    → IsValid c
    → val < 2 ^ 32
    → (write_register c 0x4000 val).mtimecmp ≡ c.mtimecmp / 2 ^ 32 * 2 ^ 32 + val
unfolding write_register
write_low c val v h = low_half c.mtimecmp val v.mtimecmp_fits h

write_high :
    (c : Clint) (val : ℕ)
    → IsValid c
    → val < 2 ^ 32
    → (write_register c 0x4004 val).mtimecmp ≡ val * 2 ^ 32 + c.mtimecmp % 2 ^ 32
unfolding write_register
write_high c val v h = high_half c.mtimecmp val v.mtimecmp_fits h

abbrev with_mtimecmp : Clint → ℕ → Clint
with_mtimecmp c t = record c { mtimecmp = t }

written_low :
    (c : Clint) (val : ℕ)
    → IsValid c
    → val < 2 ^ 32
    → write_register c 0x4000 val ≡ with_mtimecmp c (c.mtimecmp / 2 ^ 32 * 2 ^ 32 + val)
unfolding write_register
written_low c val v h = ap (with_mtimecmp c) (write_low c val v h)

written_high :
    (c : Clint) (val : ℕ)
    → IsValid c
    → val < 2 ^ 32
    → write_register c 0x4004 val ≡ with_mtimecmp c (val * 2 ^ 32 + c.mtimecmp % 2 ^ 32)
unfolding write_register
written_high c val v h = ap (with_mtimecmp c) (write_high c val v h)

low_first :
    (c : Clint) (lo hi : ℕ)
    → IsValid c
    → lo < 2 ^ 32
    → hi < 2 ^ 32
    → write_register (write_register c 0x4000 lo) 0x4004 hi ≡ with_mtimecmp c (hi * 2 ^ 32 + lo)
low_first c lo hi v hl hh =
    let d = with_mtimecmp c (c.mtimecmp / 2 ^ 32 * 2 ^ 32 + lo) in
    rw (written_low c lo v hl)
      (written_high d hi (omega arith) hh ∙ ap (with_mtimecmp c) (omega arith))

high_first :
    (c : Clint) (lo hi : ℕ)
    → IsValid c
    → lo < 2 ^ 32
    → hi < 2 ^ 32
    → write_register (write_register c 0x4004 hi) 0x4000 lo ≡ with_mtimecmp c (hi * 2 ^ 32 + lo)
high_first c lo hi v hl hh =
    let d = with_mtimecmp c (hi * 2 ^ 32 + c.mtimecmp % 2 ^ 32) in
    rw (written_high c hi v hh)
      (written_low d lo (omega arith) hl ∙ ap (with_mtimecmp c) (omega arith))

-- The guest sets the timer by two writes of 32 bits, in either order: the compare register is then
-- their join, its halves read back, and the clock is as before.
pub set_timer :
    (c : Clint) (lo hi : ℕ)
    → IsValid c
    → lo < 2 ^ 32
    → hi < 2 ^ 32
    → let d = write_register (write_register c 0x4000 lo) 0x4004 hi in
      (d.mtimecmp ≡ hi * 2 ^ 32 + lo)
      × (write_register (write_register c 0x4004 hi) 0x4000 lo ≡ d)
      × (read_register d 0x4000 ≡ lo)
      × (read_register d 0x4004 ≡ hi)
      × (d.mtime ≡ c.mtime)
unfolding read_register
set_timer c lo hi v hl hh =
    rw (low_first c lo hi v hl hh, high_first c lo hi v hl hh)
      (refl, refl, omega arith, omega arith, refl)
