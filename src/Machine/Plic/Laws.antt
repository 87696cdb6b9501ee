-- ===== src/Machine/Plic/Laws.antt =====
-- The claim and complete protocol of crates/machine/src/plic.rs, line by line of its two words.
use vpod.Prelude.{
  bit_not, ℕ, ◌^◌, ◌≤◌, ◌<◌, bit_and, bit_or, ◌≡◌, ◌≢◌, refl, zero, suc, sym, ap, ◌∙◌, ◌↔◌, Bool,
  true, false, not, ◌&&◌, ◌||◌, ◌==◌, if◌then◌else◌, Bool-cases, inl, inr, some, arith, ◌⊎◌,
}
use vpod.Bits.{
  bit, bit-and, bit-not, bit-zero, and-le, or-lt, pow_lt, trailing_zeros, trailing_zeros-bit,
  trailing_zeros_least,
}
use vpod.Bits.Masks.{bit-clear_pow, bit-set_pow}
use vpod.Machine.Plic.{
  Plic, new, set_irq, unserviced_interrupts, irq_pending, read_register, write_register, is_irq,
  claim_complete_offset,
}

-- Both words fit 32 bits, and line 0 is never raised.
pub record IsValid (p : Plic) : Type 0 where
  pub pending_fits : p.pending < 2 ^ 32
  pub served_fits : p.served < 2 ^ 32
  pub no_line_zero : bit p.pending 0 ≡ false

-- Line `i` is raised and not being served.
abbrev pub waits : Plic → ℕ → Bool
waits p i = bit p.pending i && not (bit p.served i)

unserviced-bit :
    (p : Plic) (i : ℕ) → IsValid p → i < 32 → bit (unserviced_interrupts p) i ≡ waits p i
unserviced-bit p i v h =
    bit-and p.pending (bit_not 32 p.served) i ∙ rw (bit-not 32 p.served i v.served_fits h)

unserviced-lt : (p : Plic) → IsValid p → unserviced_interrupts p < 2 ^ 32
unserviced-lt p v = omega (arith, and-le 32 p.pending (bit_not 32 p.served) v.pending_fits)

pub new-IsValid : IsValid new
unfolding new
new-IsValid = record {
  pending_fits = omega arith;
  served_fits = omega arith;
  no_line_zero = bit-zero 0;
}

-- `set_irq` accepts the lines 1 to 31; it gives the line its level and changes nothing else.
pub set_irq_lem :
    (p : Plic) (n : ℕ) (level : Bool)
    → IsValid p
    → 1 ≤ n
    → n ≤ 31
    → (q : Plic) × (set_irq p n level ≡ some q)
      × IsValid q
      × (q.served ≡ p.served)
      × ((i : ℕ) → i < 32 → bit q.pending i ≡ (if n == i then level else bit p.pending i))
unfolding set_irq
set_irq_lem p n true v lo hi = (
  record p { pending = bit_or p.pending (2 ^ n) },
  ground arith,
  record {
    pending_fits = or-lt 32 p.pending (2 ^ n) v.pending_fits (pow_lt n 32 (omega arith));
    served_fits = v.served_fits;
    no_line_zero = bit-set_pow p.pending n 0 ∙ ground (arith, v.no_line_zero);
  },
  refl,
  λ i h. bit-set_pow p.pending n i ∙ ground arith,
)
set_irq_lem p n false v lo hi = (
  record p { pending = bit_and p.pending (bit_not 32 (2 ^ n)) },
  ground arith,
  record {
    pending_fits = omega (arith, and-le 32 p.pending (bit_not 32 (2 ^ n)) v.pending_fits);
    served_fits = v.served_fits;
    no_line_zero =
        bit-clear_pow 32 p.pending n 0 (omega arith) (omega arith) ∙ ground (arith, v.no_line_zero);
  },
  refl,
  λ i h. bit-clear_pow 32 p.pending n i (omega arith) h ∙ ground arith,
)

none_waits :
    (p : Plic) → IsValid p → unserviced_interrupts p ≡ 0 → (i : ℕ) → i < 32 → waits p i ≡ false
none_waits p v e i h = sym (unserviced-bit p i v h) ∙ ap (λ (u : ℕ). bit u i) e ∙ bit-zero i

clash : {b : Bool} → b ≡ false → b ≡ true → ⊥
clash f t = cc

lowest_waits :
    (p : Plic)
    → IsValid p
    → unserviced_interrupts p ≢ 0
    → let n = trailing_zeros 32 (unserviced_interrupts p) in (waits p n ≡ true) × (n < 32)
lowest_waits p v nz =
    let found = trailing_zeros-bit 32 (unserviced_interrupts p) (unserviced-lt p v) nz in
    (
      sym (unserviced-bit p (trailing_zeros 32 (unserviced_interrupts p)) v found.1) ∙ found.0,
      found.1,
    )

waits-pos : (p : Plic) (n : ℕ) → IsValid p → waits p n ≡ true → 1 ≤ n
waits-pos p zero v w = absurd (ground (arith, v.no_line_zero))
waits-pos p (suc n) v w = omega arith

serve-IsValid :
    (p : Plic) (n : ℕ)
    → IsValid p
    → n < 32
    → IsValid (record p { served = bit_or p.served (2 ^ n) })
serve-IsValid p n v h = record {
  pending_fits = v.pending_fits;
  served_fits = or-lt 32 p.served (2 ^ n) v.served_fits (pow_lt n 32 h);
  no_line_zero = v.no_line_zero;
}

-- An external interrupt is signalled exactly when some line is raised and not being served.
pub irq_pending_iff :
    (p : Plic) → IsValid p → (irq_pending p ≡ true) ↔ ((i : ℕ) × (i < 32) × (waits p i ≡ true))
unfolding irq_pending
irq_pending_iff p v = (
  λ h. (
    trailing_zeros 32 (unserviced_interrupts p),
    (lowest_waits p v (ground arith)).1,
    (lowest_waits p v (ground arith)).0,
  ),
  λ w. elim (Bool-cases (unserviced_interrupts p == 0)) [
    | inl e ↦ absurd (clash (none_waits p v (ground arith) w.0 w.1) w.2)
    | inr e ↦ rw e
  ],
)

-- A read of the claim register: the lowest line that waits, which is now being served; or 0, with no
-- change, when none waits.
pub data Claimed (p : Plic) : Plic × ℕ → Type 0 where
  nothing : ((i : ℕ) → i < 32 → waits p i ≡ false) → Claimed p (p, 0)
  line :
      (q : Plic) (n : ℕ)
      → 1 ≤ n
      → n < 32
      → waits p n ≡ true
      → ((i : ℕ) → i < n → waits p i ≡ false)
      → q.pending ≡ p.pending
      → ((i : ℕ) → i < 32 → bit q.served i ≡ (bit p.served i || n == i))
      → IsValid q
      → Claimed p (q, n)

-- A claim, in a valid state, hands out the lowest line that waits and marks it alone as being served;
-- if no line waits it gives 0 and changes nothing.
pub claim-Claimed : (p : Plic) → IsValid p → Claimed p (read_register p claim_complete_offset)
unfolding read_register
claim-Claimed p v = elim (Bool-cases (unserviced_interrupts p == 0)) [
  | inl e ↦ rw e (nothing (none_waits p v (ground arith)))
  | inr e ↦
      let n = trailing_zeros 32 (unserviced_interrupts p) in
      let low = lowest_waits p v (ground arith) in
      rw e (
        line (record p { served = bit_or p.served (2 ^ n) }) n (waits-pos p n v low.0) low.1 low.0
          (λ i h.
            sym (unserviced-bit p i v (omega (arith, low.1)))
            ∙ trailing_zeros_least 32 (unserviced_interrupts p) i h)
          refl (λ i h. bit-set_pow p.served n i) (serve-IsValid p n v low.1))
]

-- A completion of line `n` clears that line alone from what is being served.
pub complete_lem :
    (p : Plic) (n : ℕ)
    → IsValid p
    → 1 ≤ n
    → n ≤ 31
    → let q = write_register p claim_complete_offset n in
      IsValid q
      × (q.pending ≡ p.pending)
      × ((i : ℕ) → i < 32 → bit q.served i ≡ (bit p.served i && not (n == i)))
unfolding write_register
complete_lem p n v lo hi =
    let valid_number : is_irq n ≡ true = ground arith in
    rw valid_number (
      record {
        pending_fits = v.pending_fits;
        served_fits = omega (arith, and-le 32 p.served (bit_not 32 (2 ^ n)) v.served_fits);
        no_line_zero = v.no_line_zero;
      },
      refl,
      λ i h. bit-clear_pow 32 p.served n i (omega arith) h,
    )

-- A completion of a number that is no line changes nothing.
pub complete_ignored :
    (p : Plic) (n : ℕ) → (n ≡ 0) ⊎ (31 < n) → write_register p claim_complete_offset n ≡ p
unfolding write_register
complete_ignored p n h = ground arith
