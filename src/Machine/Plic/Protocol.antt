-- ===== src/Machine/Plic/Protocol.antt =====
-- Histories of the interrupt controller: any sequence of level changes, claims and completions.
use vpod.Prelude.{
  ℕ, ◌≤◌, ◌<◌, ◌≡◌, ◌≢◌, refl, ap, ◌∙◌, Bool, true, Bool-cases, inl, inr, Option, none, some, arith,
  List, [], ◌∷◌, subst, Option-cases,
}
use vpod.Bits.{bit}
use vpod.Machine.Plic.{Plic, set_irq, read_register, write_register, is_irq, claim_complete_offset}
use vpod.Machine.Plic.Laws.{
  IsValid, Claimed, nothing, line, waits, claim-Claimed, set_irq_lem, complete_lem,
  complete_ignored,
}

-- What the bus and the guest do to the controller.
pub data Op : Type 0 where
  level : ℕ → Bool → Op
  claim : Op
  complete : ℕ → Op

unfoldable pub step : Plic → Op → Option Plic
step p (level n b) = set_irq p n b
step p claim = some (read_register p claim_complete_offset).0
step p (complete n) = some (write_register p claim_complete_offset n)

unfoldable pub run : Plic → List Op → Option Plic
run p [] = some p
run p (o ∷ os) = elim (step p o) [ none ↦ none | some q ↦ run q os ]

-- No operation completes line `n`.
abbrev pub Uncompleted : ℕ → List Op → Type 0
Uncompleted n [] = Unit
Uncompleted n (level k b ∷ os) = Uncompleted n os
Uncompleted n (claim ∷ os) = Uncompleted n os
Uncompleted n (complete k ∷ os) = (k ≢ n) × Uncompleted n os

Claimed-IsValid : {p : Plic} {r : Plic × ℕ} → Claimed p r → IsValid p → IsValid r.0
Claimed-IsValid (nothing _) v = v
Claimed-IsValid (line q n _ _ _ _ _ _ w) v = w

Claimed-keeps :
    {p : Plic} {r : Plic × ℕ} (i : ℕ)
    → Claimed p r
    → i < 32
    → bit p.served i ≡ true
    → bit r.0.served i ≡ true
Claimed-keeps i (nothing _) h s = s
Claimed-keeps i (line q n _ _ _ _ _ served _) h s = served i h ∙ ground arith

Claimed-fresh :
    {p : Plic} {r : Plic × ℕ} (n : ℕ) → Claimed p r → 1 ≤ n → bit p.served n ≡ true → r.1 ≢ n
Claimed-fresh n (nothing _) h s = omega arith
Claimed-fresh {p} n (line q k _ _ free _ _ _ _) h s =
    λ e. ground (arith, ap (λ (i : ℕ). waits p i) e)

Claimed-served :
    {p : Plic} {r : Plic × ℕ} → Claimed p r → r.1 ≢ 0 → (r.1 < 32) × (bit r.0.served r.1 ≡ true)
Claimed-served (nothing _) c = absurd (c refl)
Claimed-served {p} (line q n _ h _ _ _ served _) c = (h, served n h ∙ ground arith)

-- What one operation keeps, with line `n` being served.
abbrev Kept : ℕ → Plic → Plic → Type 0
Kept n p q = IsValid q × (bit p.served n ≡ true → bit q.served n ≡ true)

level_keeps : (n k : ℕ) (b : Bool) (p q : Plic) → IsValid p → set_irq p k b ≡ some q → Kept n p q
unfolding set_irq
level_keeps n k b p q v e = elim (Bool-cases (is_irq k)) [
  | inl good ↦
      let (q', made, valid, same, _) = set_irq_lem p k b v (ground arith) (ground arith) in
      subst (λ r. Kept n p r) (cc made) (valid, λ s. ap (λ (w : ℕ). bit w n) same ∙ s)
  | inr bad ↦ absurd (ground arith)
]

claim_keeps :
    (n : ℕ) (p : Plic) → IsValid p → n < 32 → Kept n p (read_register p claim_complete_offset).0
claim_keeps n p v h = (Claimed-IsValid (claim-Claimed p v) v, Claimed-keeps n (claim-Claimed p v) h)

complete_keeps :
    (n k : ℕ) (p : Plic)
    → IsValid p
    → n < 32
    → k ≢ n
    → Kept n p (write_register p claim_complete_offset k)
complete_keeps n k p v h ne = elim (Bool-cases (is_irq k)) [
  | inl good ↦
      let (valid, same, served) = complete_lem p k v (ground arith) (ground arith) in
      (valid, λ s. served n h ∙ ground arith)
  | inr bad ↦ rw (complete_ignored p k (ground arith)) (v, λ s. s)
]

run_keeps :
    (ops : List Op) (n : ℕ) (p q : Plic)
    → IsValid p
    → n < 32
    → Uncompleted n ops
    → run p ops ≡ some q
    → Kept n p q
unfolding run step
run_keeps [] n p q v h u e = subst (λ r. Kept n p r) (cc) (v, λ s. s)
run_keeps (level k b ∷ os) n p q v h u e = elim (Option-cases (set_irq p k b)) [
  | inl failed ↦ absurd (ground arith)
  | inr (r, made) ↦
      let first = level_keeps n k b p r v made in
      let rest = run_keeps os n r q first.0 h u (rw (made, run) at e) in
      (rest.0, λ s. rest.1 (first.1 s))
]
run_keeps (claim ∷ os) n p q v h u e =
    let first = claim_keeps n p v h in
    let rest = run_keeps os n (read_register p claim_complete_offset).0 q first.0 h u e in
    (rest.0, λ s. rest.1 (first.1 s))
run_keeps (complete k ∷ os) n p q v h u e =
    let first = complete_keeps n k p v h u.0 in
    let rest = run_keeps os n (write_register p claim_complete_offset k) q first.0 h u.1 e in
    (rest.0, λ s. rest.1 (first.1 s))

-- From a valid state, whatever levels change, and whatever else is claimed and completed: a line that was handed out by
-- a claim is not handed out again before it is completed.
pub claimed_once :
    (p q : Plic) (ops : List Op)
    → IsValid p
    → (read_register p claim_complete_offset).1 ≢ 0
    → Uncompleted (read_register p claim_complete_offset).1 ops
    → run (read_register p claim_complete_offset).0 ops ≡ some q
    → (read_register q claim_complete_offset).1 ≢ (read_register p claim_complete_offset).1
claimed_once p q ops v claimed u e =
    let r = read_register p claim_complete_offset in
    let taken = Claimed-served (claim-Claimed p v) claimed in
    let kept = run_keeps ops r.1 r.0 q (Claimed-IsValid (claim-Claimed p v) v) taken.0 u e in
    Claimed-fresh r.1 (claim-Claimed q kept.0) (omega arith) (kept.1 taken.1)
