-- ===== src/RiscvCore/Csr/Access.antt =====
-- Reads and writes of the registers of crates/riscv-core/src/csr.rs: what a write leaves to read, and
-- which bits the supervisor's views of `mstatus`, `mie` and `mip` reach.
use vpod.Prelude.{
  ℕ, ◌^◌, ◌<◌, bit_and, bit_or, bit_not, Bool, true, false, ◌&&◌, ◌==◌, ◌≡◌, refl, ap, ◌∙◌,
  if◌then◌else◌, Bool-cases, inl, inr, some, arith,
}
use vpod.Bits.{bit, bit-and, bit-or, bit-not, bit-pow, bit_ext, and-le, or-lt}
use vpod.Bits.Masks.{bit-clear_pow, bit-set_pow}
use vpod.RiscvCore.Csr.{Csr, PrivMode, sstatus_mask}
use vpod.RiscvCore.Csr.Registers.{merge, read_mstatus, read_register, write_register}

-- The registers that keep every bit written to them.
pub data Plain : ℕ → Type 0 where
  medeleg : Plain 0x302
  mideleg : Plain 0x303
  mie : Plain 0x304
  mtvec : Plain 0x305
  menvcfg : Plain 0x30a
  mscratch : Plain 0x340
  mcause : Plain 0x342
  mtval : Plain 0x343
  stvec : Plain 0x105
  senvcfg : Plain 0x10a
  sscratch : Plain 0x140
  scause : Plain 0x142
  stval : Plain 0x143
  mcycle : Plain 0xb00
  minstret : Plain 0xb02

-- What is written to a plain register is what a later read finds, in every mode.
pub write-read_plain :
    (c : Csr) (address value : ℕ) (p q : PrivMode)
    → Plain address
    → (read_register (write_register c address value p).0 address q ≡ some value)
      × ((write_register c address value p).1 ≡ true)
unfolding read_register write_register
write-read_plain c address value p q medeleg = (refl, refl)
write-read_plain c address value p q mideleg = (refl, refl)
write-read_plain c address value p q mie = (refl, refl)
write-read_plain c address value p q mtvec = (refl, refl)
write-read_plain c address value p q menvcfg = (refl, refl)
write-read_plain c address value p q mscratch = (refl, refl)
write-read_plain c address value p q mcause = (refl, refl)
write-read_plain c address value p q mtval = (refl, refl)
write-read_plain c address value p q stvec = (refl, refl)
write-read_plain c address value p q senvcfg = (refl, refl)
write-read_plain c address value p q sscratch = (refl, refl)
write-read_plain c address value p q scause = (refl, refl)
write-read_plain c address value p q stval = (refl, refl)
write-read_plain c address value p q mcycle = (refl, refl)
write-read_plain c address value p q minstret = (refl, refl)

-- Every access but that of `satp` ignores the privilege mode of the hart.
pub access_ignores_mode :
    (c : Csr) (address value : ℕ) (p q : PrivMode)
    → (address == 0x180) ≡ false
    → (read_register c address p ≡ read_register c address q)
      × (write_register c address value p ≡ write_register c address value q)
unfolding read_register write_register
access_ignores_mode c address value p q e = rw e (refl, refl)

-- A masked write takes the bits of the mask from the value and keeps the others.
merge-bit :
    (old value mask i : ℕ)
    → mask < 2 ^ 64
    → i < 64
    → bit (merge old value mask) i ≡ (if bit mask i then bit value i else bit old i)
merge-bit old value mask i h hi =
    rw (bit-or, bit-and, bit-and, bit-not 64 mask i h hi) (ground arith)

-- Only bit 63 of `mstatus` is computed at a read.
read_mstatus-bit : (c : Csr) (i : ℕ) → i < 63 → bit (read_mstatus c) i ≡ bit c.mstatus i
unfolding read_mstatus
read_mstatus-bit c i h = by_test _
  where
    by_test :
        (dirty : Bool)
        → bit
            (if dirty then bit_or c.mstatus (2 ^ 63) else bit_and c.mstatus (bit_not 64 (2 ^ 63)))
            i
          ≡ bit c.mstatus i
    by_test true = rw (bit-set_pow c.mstatus 63 i) (ground arith)
    by_test false = rw (bit-clear_pow 64 c.mstatus 63 i (omega arith) (omega arith)) (ground arith)

-- A write of `sstatus` changes `mstatus` alone: each of its 64 bits is that of the value where the
-- supervisor sees it, and as before elsewhere.
pub write_sstatus :
    (c : Csr) (value : ℕ) (p : PrivMode) (i : ℕ)
    → i < 64
    → ((write_register c 0x100 value p).0
        ≡ record c { mstatus = (write_register c 0x100 value p).0.mstatus })
      × (bit (write_register c 0x100 value p).0.mstatus i
          ≡ (if bit sstatus_mask i then bit value i else bit c.mstatus i))
unfolding write_register
write_sstatus c value p i h = (refl, merge-bit c.mstatus value sstatus_mask i (omega arith) h)

read_mstatus-lt : (c : Csr) → c.mstatus < 2 ^ 64 → read_mstatus c < 2 ^ 64
unfolding read_mstatus
read_mstatus-lt c h = by_test _
  where
    by_test :
        (dirty : Bool)
        → (if dirty then bit_or c.mstatus (2 ^ 63) else bit_and c.mstatus (bit_not 64 (2 ^ 63)))
          < 2 ^ 64
    by_test true = or-lt 64 c.mstatus (2 ^ 63) h (omega arith)
    by_test false = omega (arith, and-le 64 c.mstatus (bit_not 64 (2 ^ 63)) h)

merge-lt : (old value mask : ℕ) → old < 2 ^ 64 → value < 2 ^ 64 → merge old value mask < 2 ^ 64
merge-lt old value mask h k =
    or-lt 64 _ _ (omega (arith, and-le 64 old (bit_not 64 mask) h))
      (omega (arith, and-le 64 value mask k))

-- Bit 63 is not one that the supervisor sees.
masked_bit :
    (x y i : ℕ)
    → i < 64
    → (i < 63 → bit sstatus_mask i ≡ true → bit x i ≡ bit y i)
    → (bit x i && bit sstatus_mask i) ≡ (bit y i && bit sstatus_mask i)
masked_bit x y i h e = elim (Bool-cases (i == 63)) [
  | inl last ↦
      let at : bit sstatus_mask i ≡ false =
        ap (bit sstatus_mask) {x = i} {y = 63} (ground arith) ∙ unfold bit in refl in
      rw at (ground arith)
  | inr lower ↦ ground (arith, e (ground arith))
]

-- With a 64-bit `mstatus`, a 64-bit value written to `sstatus` reads back at the bits that the
-- supervisor sees, and as 0 elsewhere.
write-read_sstatus :
    (c : Csr) (value : ℕ) (p q : PrivMode)
    → c.mstatus < 2 ^ 64
    → value < 2 ^ 64
    → read_register (write_register c 0x100 value p).0 0x100 q ≡ some (bit_and value sstatus_mask)
unfolding read_register write_register
write-read_sstatus c value p q w h =
    let c' = (write_register c 0x100 value p).0 in
    let small = read_mstatus-lt c' (merge-lt c.mstatus value sstatus_mask w h) in
    ap some (
      bit_ext 64 _ _ (omega (arith, and-le 64 (read_mstatus c') sstatus_mask small))
        (omega (arith, and-le 64 value sstatus_mask h))
        (λ i k.
          rw (bit-and, bit-and)
            (masked_bit (read_mstatus c') value i k (λ below seen.
              read_mstatus-bit c' i below
              ∙ merge-bit c.mstatus value sstatus_mask i (omega arith) k
              ∙ rw seen refl))))

-- With a 64-bit `mideleg`: a write of `sie` sets the bits of `mie` of the delegated interrupts, and
-- a write of `sip` bit 1 of `mip` if that is delegated; every other bit is as before.
pub write_sie_sip :
    (c : Csr) (value : ℕ) (p : PrivMode) (i : ℕ)
    → c.mideleg < 2 ^ 64
    → i < 64
    → (bit (write_register c 0x104 value p).0.mie i
        ≡ (if bit c.mideleg i then bit value i else bit c.mie i))
      × (bit (write_register c 0x144 value p).0.mip i
          ≡ (if bit c.mideleg i && i == 1 then bit value i else bit c.mip i))
unfolding write_register
write_sie_sip c value p i w h = (
  merge-bit c.mie value c.mideleg i w h,
  merge-bit c.mip value (bit_and c.mideleg 2) i (omega (arith, and-le 64 c.mideleg 2 w)) h
      ∙ rw (bit-and c.mideleg 2 i, bit-pow 1 i) (ground arith),
)
