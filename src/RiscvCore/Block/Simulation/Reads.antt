-- ===== src/RiscvCore/Block/Simulation/Reads.antt =====
-- The reads that a load makes, of crates/riscv-core/src/execute.rs and crates/riscv-core/src/block.rs: they fit
-- their width, keep the registers and ignore the program counter and the count of instructions.
use native.Mathlib.Nat.{pow-suc}
use vpod.Prelude.{
  ℕ, zero, suc, ◌+◌, ◌*◌, ◌%◌, ◌^◌, ◌<◌, bit_and, not, ◌&&◌, ◌==◌, ◌≡◌, refl, ap, ◌∙◌, subst,
  Bool-cases, inl, inr, arith,
}
use vpod.RiscvCore.SystemBus.{ExecBus}
use vpod.RiscvCore.Csr.Interrupts.{is_machine}
use vpod.RiscvCore.Gpr.{Gpr}
use vpod.RiscvCore.Mmu.{Translated}
use vpod.RiscvCore.Trap
use vpod.RiscvCore.Block.{LoadKind}
use vpod.RiscvCore.Block.Run.{load_size}
use vpod.RiscvCore.Block.Simulation.{caught_up}
use vpod.RiscvCore.Execute.{
  Context, crosses_page, add_instret, take_exception, load_address, with_value, read_at, load_bytes,
  load_value,
}

-- A read of a width fits it.
pub record ReadsFit (b : ExecBus) : Type 0 where
  pub byte : (s : b.unit.Bus) (a : ℕ) → (b.read_byte s a).0 < 2 ^ 8
  pub halfword : (s : b.unit.Bus) (a : ℕ) → (b.read_halfword s a).0 < 2 ^ 16
  pub word : (s : b.unit.Bus) (a : ℕ) → (b.read_word s a).0 < 2 ^ 32
  pub doubleword : (s : b.unit.Bus) (a : ℕ) → (b.unit.read_doubleword s a).0 < 2 ^ 64

module _ {b : ExecBus} where
  -- What a read gives satisfies the predicate.
  abbrev pub Gives : (ℕ → Context b → Type 0) → Translated × Context b → Type 0
  Gives P (Translated.fault f, ctx) = Unit
  Gives P (Translated.ok value, ctx) = P value ctx

  with_value-Gives :
      (P Q : ℕ → Context b → Type 0) (r : Translated × Context b)
      (next : ℕ → Context b → Translated × Context b)
      → Gives P r
      → ((v : ℕ) (c : Context b) → P v c → Gives Q (next v c))
      → Gives Q (with_value r next)
  with_value-Gives P Q (Translated.fault f, ctx) next h k = tt
  with_value-Gives P Q (Translated.ok v, ctx) next h k = k v ctx h

  -- A value below the bound, and the registers of a state.
  abbrev pub Read : ℕ → Gpr → ℕ → Context b → Type 0
  Read bound g value ctx = (value < bound) × (ctx.regs ≡ g)

  abbrev Kept : Gpr → ℕ → Context b → Type 0
  Kept g value ctx = ctx.regs ≡ g

  keeps : (t : Translated) (ctx : Context b) → Gives (Kept ctx.regs) (t, ctx)
  keeps (Translated.fault f) ctx = tt
  keeps (Translated.ok v) ctx = refl

  byte-Read :
      (g : Gpr) (ctx : Context b) (va satp : ℕ)
      → ReadsFit b
      → ctx.regs ≡ g
      → Gives (Read (2 ^ 8) g) (with_value (load_address ctx va satp) (read_at 1))
  byte-Read g ctx va satp fits e =
      with_value-Gives (Kept ctx.regs) (Read (2 ^ 8) g) (load_address ctx va satp) (read_at 1)
        (keeps _ _) (λ v c k. (fits.byte c.bus v, k ∙ e))

  load_bytes-Read :
      (n : ℕ) (g : Gpr) (ctx : Context b) (va satp : ℕ)
      → ReadsFit b
      → ctx.regs ≡ g
      → Gives (Read ((2 ^ 8) ^ n) g) (load_bytes n ctx va satp)
  unfolding load_bytes
  load_bytes-Read zero g ctx va satp fits e = (omega arith, e)
  load_bytes-Read (suc n) g ctx va satp fits e =
      with_value-Gives (Read (2 ^ 8) g) (Read ((2 ^ 8) ^ suc n) g) _ _
        (byte-Read g ctx va satp fits e)
        (λ low c k.
          with_value-Gives (Read ((2 ^ 8) ^ n) g) (Read ((2 ^ 8) ^ suc n) g) _ _
            (load_bytes-Read n g c ((va + 1) % 2 ^ 64) satp fits k.1)
            (λ rest final k'. (omega (arith, pow-suc (2 ^ 8) n, k.0, k'.0), k'.1)))

  fits_at_once :
      (kind : LoadKind) (c : Context b) (pa : ℕ)
      → ReadsFit b
      → Gives (Read ((2 ^ 8) ^ load_size kind) c.regs) (read_at (load_size kind) pa c)
  fits_at_once LoadKind.lb c pa fits = (fits.byte c.bus pa, refl)
  fits_at_once LoadKind.lbu c pa fits = (fits.byte c.bus pa, refl)
  fits_at_once LoadKind.lh c pa fits = (fits.halfword c.bus pa, refl)
  fits_at_once LoadKind.lhu c pa fits = (fits.halfword c.bus pa, refl)
  fits_at_once LoadKind.lw c pa fits = (fits.word c.bus pa, refl)
  fits_at_once LoadKind.lwu c pa fits = (fits.word c.bus pa, refl)
  fits_at_once LoadKind.ld c pa fits = (fits.doubleword c.bus pa, refl)

  pub load_value-Read :
      (kind : LoadKind) (ctx : Context b) (va satp : ℕ)
      → ReadsFit b
      → Gives (Read ((2 ^ 8) ^ load_size kind) ctx.regs) (load_value ctx (load_size kind) va satp)
  unfolding load_value
  load_value-Read kind ctx va satp fits = elim (Bool-cases (crosses_page va (load_size kind))) [
    | inl e ↦ rw e (load_bytes-Read (load_size kind) ctx.regs ctx va satp fits refl)
    | inr e ↦ rw e (
        with_value-Gives (Kept ctx.regs) (Read ((2 ^ 8) ^ load_size kind) ctx.regs)
          (load_address ctx va satp) (read_at (load_size kind)) (keeps _ _)
          (λ pa c k.
            subst
              (λ (g : Gpr).
                Gives (Read ((2 ^ 8) ^ load_size kind) g) (read_at (load_size kind) pa c))
              k (fits_at_once kind c pa fits)))
  ]

  -- The program counter and the count of instructions play no part in a read.
  module _ (pc p : ℕ) where
    abbrev pub lifted : Translated × Context b → Translated × Context b
    lifted (t, ctx) = (t, caught_up ctx pc p)

    with_value-lifted :
        (r : Translated × Context b) (next : ℕ → Context b → Translated × Context b)
        → ((v : ℕ) (c : Context b) → next v (caught_up c pc p) ≡ lifted (next v c))
        → with_value (lifted r) next ≡ lifted (with_value r next)
    with_value-lifted (Translated.fault f, ctx) next h = refl
    with_value-lifted (Translated.ok v, ctx) next h = h v ctx

    with_value-caught_up :
        {r' : Translated × Context b} (r : Translated × Context b)
        (next : ℕ → Context b → Translated × Context b)
        → r' ≡ lifted r
        → ((v : ℕ) (c : Context b) → next v (caught_up c pc p) ≡ lifted (next v c))
        → with_value r' next ≡ lifted (with_value r next)
    with_value-caught_up r next e h =
        ap (λ (r' : Translated × Context b). with_value r' next) e ∙ with_value-lifted r next h

    abbrev joined : ℕ → ℕ → Context b → Translated × Context b
    joined low rest final = (Translated.ok (low + rest * 2 ^ 8), final)

    load_bytes-caught_up :
        (n : ℕ) (ctx : Context b) (va satp : ℕ)
        → load_bytes n (caught_up ctx pc p) va satp ≡ lifted (load_bytes n ctx va satp)
    unfolding load_bytes
    load_bytes-caught_up zero ctx va satp = refl
    load_bytes-caught_up (suc n) ctx va satp =
        let next_va = (va + 1) % 2 ^ 64 in
        with_value-caught_up (with_value (load_address ctx va satp) (read_at 1))
          (λ low c. with_value (load_bytes n c next_va satp) (joined low))
          (with_value-lifted (load_address ctx va satp) (read_at 1) (λ v c. refl))
          (λ low c.
            with_value-caught_up (load_bytes n c next_va satp) (joined low)
              (load_bytes-caught_up n c next_va satp) (λ rest final. refl))

    pub load_value-caught_up :
        (ctx : Context b) (size va satp : ℕ)
        → load_value (caught_up ctx pc p) size va satp ≡ lifted (load_value ctx size va satp)
    unfolding load_value
    load_value-caught_up ctx size va satp = elim (Bool-cases (crosses_page va size)) [
      | inl e ↦ rw e (load_bytes-caught_up size ctx va satp)
      | inr e ↦ rw e (with_value-lifted (load_address ctx va satp) (read_at size) (λ v c. refl))
    ]

    pub take_exception-add_instret :
        (ctx : Context b) (cause tval : ℕ)
        → add_instret (take_exception ctx cause tval) p
          ≡ take_exception (add_instret ctx p) cause tval
    unfolding take_exception Trap.take_exception Trap.enter_supervisor Trap.enter_machine
    take_exception-add_instret ctx cause tval =
        elim (Bool-cases (
          not (bit_and ctx.csr.medeleg (2 ^ bit_and cause 63) == 0)
          && not (is_machine ctx.priv_mode))) [ inl e ↦ rw e refl | inr e ↦ rw e refl ]
