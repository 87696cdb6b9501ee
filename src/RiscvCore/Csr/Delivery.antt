-- ===== src/RiscvCore/Csr/Delivery.antt =====
-- `pending_interrupt` of crates/riscv-core/src/csr.rs against the rule for taking interrupts.
use vpod.Prelude.{
  ℕ, zero, suc, ◌-◌, ◌^◌, ◌<◌, ◌≤◌, bit_and, bit_not, has, Bool, true, false, not, ◌&&◌, ◌||◌, ◌==◌,
  ◌≡◌, ◌≢◌, refl, ap, subst, fun_ext, ltb, ◌+◌, ◌∙◌, if◌then◌else◌, Bool-cases, inl, inr, Option,
  none, some, List, [], ◌∷◌, arith,
}
use native.Mathlib.Nat.{one-le-pow}
use vpod.Bits.{
  bit, bit-zero, bit-and, bit-not, and-pow, and-le, bit_above, trailing_zeros, trailing_zeros-bit,
}
use vpod.RiscvCore.Csr.{Csr, PrivMode}
use vpod.RiscvCore.Csr.Interrupts.{
  leading_zeros, first_set, priority_order, highest_priority_interrupt_bit, is_machine,
  takes_delegated, pending_interrupt_slow, pending_interrupt,
}

pub has-pow : (k x : ℕ) → x < 2 ^ 64 → has x (2 ^ k) ≡ bit x k
has-pow k x h = ground (arith, and-pow 64 k x h, one-le-pow k 2)

leading_zeros-bit :
    (w x i : ℕ)
    → i < w
    → bit x i ≡ true
    → (leading_zeros w x < w) × (bit x (w - 1 - leading_zeros w x) ≡ true)
unfolding leading_zeros
leading_zeros-bit zero x i h e = absurd (omega arith)
leading_zeros-bit (suc w) x i h e = elim (Bool-cases (bit x w)) [
  | inl set ↦ rw set (omega arith, ap (bit x) (omega arith) ∙ set)
  | inr clear ↦
      let rest = leading_zeros-bit w x i (ground arith) e in
      rw clear (omega (arith, rest.0), ap (bit x) (omega arith) ∙ rest.1)
]

leading_zeros-highest : (w x i : ℕ) → i < w → bit x i ≡ true → i ≤ w - 1 - leading_zeros w x
unfolding leading_zeros
leading_zeros-highest zero x i h e = absurd (omega arith)
leading_zeros-highest (suc w) x i h e = elim (Bool-cases (bit x w)) [
  | inl set ↦ rw set (omega arith)
  | inr clear ↦ rw clear (omega (arith, leading_zeros-highest w x i (ground arith) e))
]

-- The place of `i` in a list, and behind the list the higher number first.
unfoldable pub position : List ℕ → ℕ → ℕ
position [] i = 63 - i
position (b ∷ bs) i = if i == b then 0 else suc (position bs i)

some_bit : (x : ℕ) → x < 2 ^ 64 → x ≢ 0 → bit x (63 - leading_zeros 64 x) ≡ true
some_bit x h nz =
    let low = trailing_zeros-bit 64 x h nz in
    (leading_zeros-bit 64 x (trailing_zeros 64 x) low.1 low.0).1

below_of_bit : (x i : ℕ) → x < 2 ^ 64 → bit x i ≡ true → i < 64
below_of_bit x i h e = ground (arith, bit_above 64 x i h)

-- The choice is a bit that is set, and no bit that is set comes before it.
first_set_lem :
    (bs : List ℕ) (x : ℕ)
    → x < 2 ^ 64
    → x ≢ 0
    → (bit x (first_set bs x) ≡ true)
      × ((i : ℕ) → bit x i ≡ true → position bs (first_set bs x) ≤ position bs i)
unfolding position first_set
first_set_lem [] x h nz =
    (some_bit x h nz, λ i e. omega (arith, leading_zeros-highest 64 x i (below_of_bit x i h e) e))
first_set_lem (b ∷ bs) x h nz = elim (Bool-cases (bit x b)) [
  | inl set ↦ rw (has-pow b x h, set) (set, λ i e. ground arith)
  | inr clear ↦
      let rest = first_set_lem bs x h nz in
      rw (has-pow b x h, clear) (rest.0, λ i e. ground (arith, rest.1 i e))
]

nonzero_of_bit : (x j : ℕ) → bit x j ≡ true → (x == 0) ≡ false
nonzero_of_bit x j e = ground (arith, bit-zero j)

-- The registers hold 64 bits.
pub record AreWords (c : Csr) : Type 0 where
  pub mip_word : c.mip < 2 ^ 64
  pub mie_word : c.mie < 2 ^ 64
  pub mideleg_word : c.mideleg < 2 ^ 64
  pub mstatus_word : c.mstatus < 2 ^ 64

-- The levels of the modes, as the architecture numbers them.
abbrev pub level : PrivMode → ℕ
level PrivMode.user = 0
level PrivMode.supervisor = 1
level PrivMode.machine = 3

-- Interrupt `i` is pending and enabled, and the mode lets it through: it goes to the supervisor, level 1,
-- if it is delegated, and to the machine, level 3, otherwise. A lower level lets it through, the
-- same level if the bit of `mstatus` of that number is set, SIE or MIE.
abbrev pub deliverable : Csr → PrivMode → ℕ → Bool
deliverable c p i =
    let target = if bit c.mideleg i then 1 else 3 in
    bit c.mip i
    && bit c.mie i
    && (ltb (level p) target || level p == target && bit c.mstatus target)

-- MEI 11, MSI 3, MTI 7, SEI 9, SSI 1 and STI 5, in this order, and then the higher number first.
abbrev pub rank : ℕ → ℕ
rank i =
    if i == 11
    then 0
    else if i == 3
    then 1
    else if i == 7
    then 2
    else if i == 9
    then 3
    else if i == 1
    then 4
    else if i == 5
    then 5
    else 6 + (63 - i)

-- Of the interrupts that are deliverable, one to machine mode before one to the supervisor, and of these the
-- first by rank; nothing if none is deliverable.
abbrev pub ChosenBy : (ℕ → Bool) → (ℕ → ℕ) → Csr → Option ℕ → Type 0
ChosenBy deliverable rank c none = (j : ℕ) → deliverable j ≡ false
ChosenBy deliverable rank c (some i) =
    (deliverable i ≡ true)
    × ((j : ℕ)
        → deliverable j ≡ true
        → (bit c.mideleg i ≡ true → bit c.mideleg j ≡ true)
          × (bit c.mideleg j ≡ bit c.mideleg i → rank i ≤ rank j))

-- What the hart is to take.
abbrev pub Chosen : Csr → PrivMode → Option ℕ → Type 0
Chosen c p = ChosenBy (deliverable c p) rank c

-- `deliverable` as the code tests it.
passes : Csr → PrivMode → ℕ → Bool
passes c p i =
    bit c.mip i
    && bit c.mie i
    && (if bit c.mideleg i
        then takes_delegated p (bit c.mstatus 1)
        else not (is_machine p) || bit c.mstatus 3)

passes-deliverable : (c : Csr) (p : PrivMode) (i : ℕ) → passes c p i ≡ deliverable c p i
unfolding passes
passes-deliverable c PrivMode.user i = ground arith
passes-deliverable c PrivMode.supervisor i = ground arith
passes-deliverable c PrivMode.machine i = ground arith

position-rank : (i : ℕ) → position priority_order i ≡ rank i
unfolding position
position-rank i = ground arith

module _ (c : Csr) (p : PrivMode) (w : AreWords c) where
  -- The choice, as the code tests and orders.
  abbrev Taken : Option ℕ → Type 0
  Taken = ChosenBy (passes c p) (position priority_order) c

  pending : ℕ
  pending = bit_and c.mip c.mie

  pending_word : pending < 2 ^ 64
  unfolding pending
  pending_word = omega (arith, and-le 64 c.mip c.mie w.mip_word, w.mip_word)

  below : (j : ℕ) → passes c p j ≡ true → j < 64
  unfolding passes
  below j e = below_of_bit c.mip j w.mip_word (ground arith)

  to_machine : ℕ
  to_machine = bit_and pending (bit_not 64 c.mideleg)

  to_supervisor : ℕ
  to_supervisor = bit_and pending c.mideleg

  to_machine-bit :
      (j : ℕ) → j < 64 → bit to_machine j ≡ ((bit c.mip j && bit c.mie j) && not (bit c.mideleg j))
  unfolding pending to_machine
  to_machine-bit j h = rw (bit-and, bit-and, bit-not 64 c.mideleg j w.mideleg_word h) refl

  to_supervisor-bit :
      (j : ℕ) → bit to_supervisor j ≡ ((bit c.mip j && bit c.mie j) && bit c.mideleg j)
  unfolding pending to_supervisor
  to_supervisor-bit j = rw (bit-and, bit-and) refl

  to_machine_word : to_machine < 2 ^ 64
  unfolding to_machine
  to_machine_word =
      omega (arith, and-le 64 pending (bit_not 64 c.mideleg) pending_word, pending_word)

  to_supervisor_word : to_supervisor < 2 ^ 64
  unfolding to_supervisor
  to_supervisor_word = omega (arith, and-le 64 pending c.mideleg pending_word, pending_word)

  Taken-machine :
      (to_machine == 0) ≡ false
      → (not (is_machine p) || bit c.mstatus 3) ≡ true
      → Taken (some (first_set priority_order to_machine))
  unfolding passes
  Taken-machine nz open_ =
      let best = first_set_lem priority_order to_machine to_machine_word (ground arith) in
      let i = first_set priority_order to_machine in
      let i_bit = to_machine-bit i (below_of_bit to_machine i to_machine_word best.0) in
      (
        ground (arith, best.0, i_bit),
        λ j e. (
          λ delegated. ground (arith, best.0, i_bit),
          λ same. best.1 j (ground (arith, best.0, i_bit, to_machine-bit j (below j e))),
        ),
      )

  Taken-supervisor :
      (to_machine == 0 || not (not (is_machine p) || bit c.mstatus 3)) ≡ true
      → (to_supervisor == 0) ≡ false
      → takes_delegated p (bit c.mstatus 1) ≡ true
      → Taken (some (first_set priority_order to_supervisor))
  unfolding passes
  Taken-supervisor shut nz taken =
      let best = first_set_lem priority_order to_supervisor to_supervisor_word (ground arith) in
      let i = first_set priority_order to_supervisor in
      let i_bit = to_supervisor-bit i in
      (
        ground (arith, best.0, i_bit),
        λ j e. (
          λ delegated. ground (arith, to_machine-bit j (below j e), nonzero_of_bit to_machine j),
          λ same. best.1 j (ground (arith, best.0, i_bit, to_supervisor-bit j)),
        ),
      )

  Taken-none :
      (to_machine == 0 || not (not (is_machine p) || bit c.mstatus 3)) ≡ true
      → (to_supervisor == 0 || not (takes_delegated p (bit c.mstatus 1))) ≡ true
      → Taken none
  Taken-none shut kept j = elim (Bool-cases (passes c p j)) [
    | inr closed ↦ closed
    | inl e ↦ absurd (
        unfold passes in
        ground (
          arith,
          to_machine-bit j (below j e),
          nonzero_of_bit to_machine j,
          to_supervisor-bit j,
          nonzero_of_bit to_supervisor j,
        ))
  ]

  Taken-idle : (pending == 0) ≡ true → Taken none
  unfolding pending passes
  Taken-idle e j = ground (arith, bit-and c.mip c.mie j, nonzero_of_bit (bit_and c.mip c.mie) j)

  by_tests :
      (idle first second : Bool) (i j : ℕ)
      → (idle ≡ true → Taken none)
      → (first ≡ true → Taken (some i))
      → (first ≡ false → second ≡ true → Taken (some j))
      → (first ≡ false → second ≡ false → Taken none)
      → Taken (if idle then none else if first then some i else if second then some j else none)
  by_tests true first second i j a b d e = a refl
  by_tests false true second i j a b d e = b refl
  by_tests false false true i j a b d e = d refl refl
  by_tests false false false i j a b d e = e refl refl

  pending_interrupt-Taken : Taken (pending_interrupt c p)
  unfolding pending_interrupt pending_interrupt_slow highest_priority_interrupt_bit pending
      to_machine to_supervisor
  pending_interrupt-Taken =
      rw (has-pow 3 c.mstatus w.mstatus_word, has-pow 1 c.mstatus w.mstatus_word)
        (by_tests (pending == 0) (not (to_machine == 0) && (not (is_machine p) || bit c.mstatus 3))
          (not (to_supervisor == 0) && takes_delegated p (bit c.mstatus 1))
          (first_set priority_order to_machine) (first_set priority_order to_supervisor) Taken-idle
          (λ t. Taken-machine (ground arith) (ground arith))
          (λ f t. Taken-supervisor (ground arith) (ground arith) (ground arith))
          (λ f g. Taken-none (ground arith) (ground arith)))

  -- With 64-bit registers: the interrupt taken is pending, enabled and let through by the mode; none to
  -- machine mode is passed over for one to the supervisor; no other to the same mode comes before it in
  -- the order MEI, MSI, MTI, SEI, SSI, STI, and then the higher number first; and none is taken only if
  -- none is deliverable.
  pub pending_interrupt-Chosen : Chosen c p (pending_interrupt c p)
  pending_interrupt-Chosen =
      subst (λ (d : ℕ → Bool). ChosenBy d rank c (pending_interrupt c p))
        (fun_ext (passes-deliverable c p))
        (subst (λ (r : ℕ → ℕ). ChosenBy (passes c p) r c (pending_interrupt c p))
          (fun_ext position-rank) pending_interrupt-Taken)
