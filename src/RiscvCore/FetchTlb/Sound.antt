-- ===== src/RiscvCore/FetchTlb/Sound.antt =====
-- `FetchTlb` of crates/riscv-core/src/execute.rs forgets entries and never invents one.
use vpod.Prelude.{
  ℕ, ◌^◌, ◌<◌, u64_max, ◌&&◌, ◌==◌, ◌≡◌, if◌then◌else◌, Option, none, some, List, [], ◌∷◌, arith,
}
use vpod.RiscvCore.FetchTlb.{FetchTlb, new, lookup, insert, flush}

pub data Op : Type 0 where
  fill : ℕ → ℕ → ℕ → Op
  clear : Op

unfoldable pub run : FetchTlb → List Op → FetchTlb
run t [] = t
run t (fill vpage ppage satp ∷ ops) = run (insert t vpage ppage satp) ops
run t (clear ∷ ops) = run (flush t) ops

-- What was filled in last for a page of an address space, since the table was last cleared.
unfoldable pub last_fill : (ℕ → ℕ → Option ℕ) → List Op → ℕ → ℕ → Option ℕ
last_fill known [] v s = known v s
last_fill known (fill vpage ppage satp ∷ ops) v s =
    last_fill (λ v' s'. if v' == vpage && s' == satp then some ppage else known v' s') ops v s
last_fill known (clear ∷ ops) v s = last_fill (λ _ _. none) ops v s

-- Every answer is known; no page of a 64-bit address is numbered `u64::MAX`.
IsSound : FetchTlb → (ℕ → ℕ → Option ℕ) → Type 0
IsSound t known = (v s p : ℕ) → v < u64_max → lookup t v s ≡ some p → known v s ≡ some p

run-IsSound :
    (ops : List Op) (t : FetchTlb) (known : ℕ → ℕ → Option ℕ)
    → IsSound t known
    → IsSound (run t ops) (last_fill known ops)
unfolding run last_fill
run-IsSound [] t known h = h
run-IsSound (fill vpage ppage satp ∷ ops) t known h =
    run-IsSound ops (insert t vpage ppage satp) _
      (unfold IsSound lookup insert in λ v s p k e. ground (arith, h v s p k))
run-IsSound (clear ∷ ops) t known h =
    run-IsSound ops (flush t) _ (unfold IsSound lookup flush in λ v s p k e. absurd (ground arith))

-- From a new table, for a page of a 64-bit address: an answer after any fills and clears is what was
-- filled in last for that page and address space, since the last clear.
pub run_sound :
    (ops : List Op) (vpage satp ppage : ℕ)
    → vpage < 2 ^ 52
    → lookup (run new ops) vpage satp ≡ some ppage
    → last_fill (λ _ _. none) ops vpage satp ≡ some ppage
run_sound ops vpage satp ppage h e =
    unfold IsSound in
    run-IsSound ops new (λ _ _. none) (unfold lookup new in λ v s p k e'. absurd (ground arith))
      vpage satp ppage (omega arith) e
