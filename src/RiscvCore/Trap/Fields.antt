-- ===== src/RiscvCore/Trap/Fields.antt =====
-- The fields of `mstatus` that trap entry and return of crates/riscv-core/src/execute.rs move, bit by bit.
use vpod.Prelude.{
  ℕ, ◌*◌, ◌/◌, ◌^◌, ◌<◌, bit_and, bit_or, bit_not, Bool, true, false, not, ◌&&◌, ◌||◌, ◌==◌, ◌≡◌,
  ◌≢◌, refl, ap, ◌∙◌, if◌then◌else◌, arith,
}
use vpod.Bits.{bit, bit-and, bit-or, bit-not, bit-pow, bit-shr, bit-zero, and-pow}
use vpod.Bits.Masks.{bit-clear_pow, bit-set_pow, and-mask}
use vpod.RiscvCore.Csr.{PrivMode, user, supervisor, machine, mode_bits, from_bits}
use vpod.RiscvCore.Trap.{stack_supervisor, stack_machine, unstack_supervisor, unstack_machine}

-- `((x & SIE) >> 1) << 5` is bit 5 alone, or nothing.
sie_moved : (x i : ℕ) → x < 2 ^ 64 → bit (bit_and x 2 / 2 ^ 1 * 2 ^ 5) i ≡ (bit x 1 && 5 == i)
sie_moved x i h = ap (λ (y : ℕ). bit (y / 2 ^ 1 * 2 ^ 5) i) (and-pow 64 1 x h) ∙ by_bit (bit x 1)
  where
    by_bit : (b : Bool) → bit ((if b then 2 else 0) / 2 ^ 1 * 2 ^ 5) i ≡ (b && 5 == i)
    by_bit true = bit-pow 5 i
    by_bit false = bit-zero i

-- `((x & MIE) >> 3) << 7` is bit 7 alone, or nothing.
mie_moved : (x i : ℕ) → x < 2 ^ 64 → bit (bit_and x 8 / 2 ^ 3 * 2 ^ 7) i ≡ (bit x 3 && 7 == i)
mie_moved x i h = ap (λ (y : ℕ). bit (y / 2 ^ 3 * 2 ^ 7) i) (and-pow 64 3 x h) ∙ by_bit (bit x 3)
  where
    by_bit : (b : Bool) → bit ((if b then 8 else 0) / 2 ^ 3 * 2 ^ 7) i ≡ (b && 7 == i)
    by_bit true = bit-pow 7 i
    by_bit false = bit-zero i

abbrev pub supervisor_bit : PrivMode → Bool
supervisor_bit supervisor = true
supervisor_bit _ = false

spp_bit :
    (p : PrivMode) (i : ℕ)
    → p ≢ machine
    → bit (mode_bits p * 2 ^ 8) i ≡ (supervisor_bit p && 8 == i)
spp_bit user i h = bit-zero i
spp_bit supervisor i h = bit-pow 8 i
spp_bit machine i h = absurd (h refl)

-- SPIE takes SIE, SIE is cleared, SPP takes the mode; the rest stays.
pub stack_supervisor-bit :
    (m : ℕ) (p : PrivMode) (i : ℕ)
    → m < 2 ^ 64
    → p ≢ machine
    → i < 64
    → bit (stack_supervisor m p) i
      ≡ (if i == 8 then supervisor_bit p else if i == 5 then bit m 1 else not (i == 1) && bit m i)
unfolding stack_supervisor
stack_supervisor-bit m p i h np hi =
    rw
      (
        bit-or,
        bit-clear_pow 64 _ 8 i (omega arith) hi,
        bit-clear_pow 64 _ 1 i (omega arith) hi,
        bit-or,
        bit-clear_pow 64 _ 5 i (omega arith) hi,
        sie_moved m i h,
        spp_bit p i np,
      )
      (ground arith)

mpp_mask : (i : ℕ) → bit (3 * 2 ^ 11) i ≡ (11 == i || 12 == i)
mpp_mask i = bit-or (2 ^ 11) (2 ^ 12) i ∙ rw (bit-pow 11 i, bit-pow 12 i)

abbrev pub mpp_low : PrivMode → Bool
mpp_low user = false
mpp_low _ = true

abbrev pub mpp_high : PrivMode → Bool
mpp_high machine = true
mpp_high _ = false

mpp_bit :
    (p : PrivMode) (i : ℕ)
    → bit (mode_bits p * 2 ^ 11) i ≡ (mpp_low p && 11 == i || mpp_high p && 12 == i)
mpp_bit user i = bit-zero i
mpp_bit supervisor i = bit-pow 11 i ∙ ground arith
mpp_bit machine i = mpp_mask i

-- MPIE takes MIE, MIE is cleared, MPP takes the mode; the rest stays.
pub stack_machine-bit :
    (m : ℕ) (p : PrivMode) (i : ℕ)
    → m < 2 ^ 64
    → i < 64
    → bit (stack_machine m p) i ≡ (
        if i == 11
        then mpp_low p
        else if i == 12
        then mpp_high p
        else if i == 7
        then bit m 3
        else not (i == 3) && bit m i)
unfolding stack_machine
stack_machine-bit m p i h hi =
    rw
      (
        bit-or,
        bit-and,
        bit-not 64 (3 * 2 ^ 11) i (omega arith) hi,
        mpp_mask i,
        bit-clear_pow 64 _ 3 i (omega arith) hi,
        bit-or,
        bit-clear_pow 64 _ 7 i (omega arith) hi,
        mie_moved m i h,
        mpp_bit p i,
      )
      (ground arith)

-- The test `((x >> k) & 1) != 0` is bit `k`.
shifted_bit : (k x : ℕ) → x / 2 ^ k < 2 ^ 64 → not (bit_and (x / 2 ^ k) 1 == 0) ≡ bit x k
shifted_bit k x h =
    let lowest : bit (x / 2 ^ k) 0 ≡ bit x k = bit-shr k x 0 ∙ ap (bit x) (omega arith) in
    rw (and-pow 64 0 (x / 2 ^ k) h, lowest) (by_bit (bit x k))
  where
    by_bit : (b : Bool) → not ((if b then 1 else 0) == 0) ≡ b
    by_bit true = refl
    by_bit false = refl

-- SIE takes SPIE, SPIE is set and SPP cleared; the rest stays.
pub unstack_supervisor-bit :
    (m i : ℕ)
    → m < 2 ^ 64
    → i < 64
    → bit (unstack_supervisor m) i
      ≡ (not (i == 8) && (i == 5 || (if i == 1 then bit m 5 else bit m i)))
unfolding unstack_supervisor
unstack_supervisor-bit m i h hi = rw (shifted_bit 5 m (omega arith)) (by_bit (bit m 5) refl)
  where
    by_bit :
        (b : Bool)
        → bit m 5 ≡ b
        → bit
            (bit_or
              (if b
                then bit_or (bit_and m (bit_not 64 (2 ^ 8))) (2 ^ 1)
                else bit_and (bit_and m (bit_not 64 (2 ^ 8))) (bit_not 64 (2 ^ 1)))
              (2 ^ 5))
            i
          ≡ (not (i == 8) && (i == 5 || (if i == 1 then b else bit m i)))
    by_bit true e =
        rw (bit-set_pow _ 5 i, bit-set_pow _ 1 i, bit-clear_pow 64 m 8 i (omega arith) hi)
          (ground arith)
    by_bit false e =
        rw
          (
            bit-set_pow _ 5 i,
            bit-clear_pow 64 _ 1 i (omega arith) hi,
            bit-clear_pow 64 m 8 i (omega arith) hi,
          )
          (ground arith)

-- MIE takes MPIE, MPIE is set and MPP cleared; the rest stays.
pub unstack_machine-bit :
    (m i : ℕ)
    → m < 2 ^ 64
    → i < 64
    → bit (unstack_machine m) i
      ≡ (not (i == 11 || i == 12) && (i == 7 || (if i == 3 then bit m 7 else bit m i)))
unfolding unstack_machine
unstack_machine-bit m i h hi = rw (shifted_bit 7 m (omega arith)) (by_bit (bit m 7))
  where
    by_bit :
        (b : Bool)
        → bit
            (bit_or
              (if b
                then bit_or (bit_and m (bit_not 64 (3 * 2 ^ 11))) (2 ^ 3)
                else bit_and (bit_and m (bit_not 64 (3 * 2 ^ 11))) (bit_not 64 (2 ^ 3)))
              (2 ^ 7))
            i
          ≡ (not (i == 11 || i == 12) && (i == 7 || (if i == 3 then b else bit m i)))
    by_bit true =
        rw
          (
            bit-set_pow _ 7 i,
            bit-set_pow _ 3 i,
            bit-and m _ i,
            bit-not 64 (3 * 2 ^ 11) i (omega arith) hi,
            mpp_mask i,
          )
          (ground arith)
    by_bit false =
        rw
          (
            bit-set_pow _ 7 i,
            bit-clear_pow 64 _ 3 i (omega arith) hi,
            bit-and m _ i,
            bit-not 64 (3 * 2 ^ 11) i (omega arith) hi,
            mpp_mask i,
          )
          (ground arith)

-- The mode that SRET reads from SPP.
pub from_bits-spp :
    (m : ℕ)
    → m < 2 ^ 64
    → from_bits (bit_and (m / 2 ^ 8) 1) ≡ (if bit m 8 then supervisor else user)
unfolding from_bits
from_bits-spp m h = rw (and-pow 64 0 (m / 2 ^ 8) (omega arith), bit-shr 8 m 0) (by_bit (bit m 8))
  where
    by_bit : (b : Bool) → from_bits (if b then 1 else 0) ≡ (if b then supervisor else user)
    by_bit true = refl
    by_bit false = refl

-- The mode that MRET reads from MPP.
pub from_bits-mpp :
    (m : ℕ)
    → m < 2 ^ 64
    → from_bits (bit_and (m / 2 ^ 11) 3)
      ≡ (if bit m 12 then machine else if bit m 11 then supervisor else user)
unfolding from_bits bit
from_bits-mpp m h = rw (and-mask 64 2 (m / 2 ^ 11) (omega arith)) (ground arith)
