-- ===== src/RiscvCore/Block/Simulation.antt =====
-- crates/riscv-core/src/block.rs: one instruction of a block against the interpretation of its word. The block
-- leaves the program counter and the count of instructions behind, and brings them up to date at its end.
pub mod Words
pub mod Compressed
pub mod Widths
pub mod Steps
pub mod Reads
pub mod Loads
use vpod.Prelude.{
  ℕ, ◌+◌, ◌%◌, ◌^◌, ◌<◌, bit_and, Bool, true, false, ◌==◌, ◌≡◌, ap, ap₂, fun_ext, ◌∙◌,
  if◌then◌else◌, Bool-cases, inl, inr, Option, none, some, arith,
}
use vpod.Bits.Masks.{and-mask}
use vpod.RiscvCore.SystemBus.{ExecBus}
use vpod.RiscvCore.Gpr.{Gpr, read, read_masked, write, write_masked}
use vpod.RiscvCore.Execute.{StepResult, Context, Outcome, set_pc, set_reg, add_instret, retire}
use vpod.RiscvCore.Block.{Op, load, store, fallback}
use vpod.RiscvCore.Block.Run.{Flow, advance, leave, faulted, interpret, exec_op}

-- `x[0]` holds 0, and each register a 64-bit word.
pub record IsValid (g : Gpr) : Type 0 where
  pub hardwired : g.x 0 ≡ 0
  pub words : (r : ℕ) → g.x r < 2 ^ 64

low_register : (r : ℕ) → r < 32 → bit_and r 31 ≡ r
low_register r h = and-mask 64 5 r (omega arith) ∙ omega arith

pub read_masked-read : (g : Gpr) (r : ℕ) → g.x 0 ≡ 0 → r < 32 → read_masked g r ≡ read g r
unfolding read_masked read
read_masked-read g r z h = ground (arith, low_register r h)

pub write_masked-write :
    (g : Gpr) (r val : ℕ) → g.x 0 ≡ 0 → r < 32 → write_masked g r val ≡ write g r val
unfolding write_masked write
write_masked-write g r val z h = rw (low_register r h) (elim (Bool-cases (r == 0)) [
  | inl e ↦ rw e (ap (λ (x : ℕ → ℕ). record g { x = x }) (fun_ext (λ i. ground arith)))
  | inr e ↦ rw e (ap (λ (x : ℕ → ℕ). record g { x = x }) (fun_ext (λ i. ground arith)))
])

-- The write leaves the program counter alone.
write_set_pc :
    (g : Gpr) (r val pc link : ℕ)
    → ◌≡◌ {A = Gpr}
        (record (write g r val) { pc = link })
        (record (write (record g { pc = pc }) r val) { pc = link })
unfolding write
write_set_pc g r val pc link = elim (Bool-cases (r == 0)) [ inl e ↦ rw e | inr e ↦ rw e ]

instret_next : (i p : ℕ) → (i + (p + 1)) % 2 ^ 64 ≡ ((i + p) % 2 ^ 64 + 1) % 2 ^ 64
instret_next i p = omega arith

module _ {b : ExecBus} where
  -- The state of a block between two instructions, brought up to date.
  abbrev pub caught_up : Context b → ℕ → ℕ → Context b
  caught_up ctx pc pending = add_instret (set_pc ctx pc) pending

  -- The end of an instruction of a block, brought up to date, is the outcome; it is not one that the
  -- interpreter has still to give.
  abbrev pub Settles : Flow b → ℕ → ℕ → Outcome b → Type 0
  Settles (advance ctx) next_pc pending o = (StepResult.ok, caught_up ctx next_pc (pending + 1)) ≡ o
  Settles (leave ctx) next_pc pending o = (StepResult.ok, add_instret ctx (pending + 1)) ≡ o
  Settles (faulted ctx) next_pc pending o = (StepResult.ok, add_instret ctx pending) ≡ o
  Settles (interpret raw) next_pc pending o = ⊥

  -- The registers and the count of instructions of a state.
  abbrev with_regs : Context b → Gpr → ℕ → Outcome b
  with_regs ctx g instret =
      (StepResult.ok, record ctx { regs = g; csr = record ctx.csr { instret = instret } })

  -- A jump, on the way of the block and on that of the interpreter.
  pub jump-Settles :
      (ctx : Context b) (pc p target : ℕ)
      → (StepResult.ok, add_instret (set_pc ctx target) (p + 1))
        ≡ retire (set_pc (caught_up ctx pc p) target)
  jump-Settles ctx pc p target =
      ap (with_regs ctx (record ctx.regs { pc = target })) (instret_next ctx.csr.instret p)

  -- A register written, and a jump.
  pub put-Settles :
      (ctx : Context b) (rd pc p link : ℕ) {val val' : ℕ}
      → ctx.regs.x 0 ≡ 0
      → rd < 32
      → val ≡ val'
      → (
        StepResult.ok,
        add_instret (set_pc (record ctx { regs = write_masked ctx.regs rd val }) link) (p + 1),
      )
        ≡ retire (set_pc (set_reg (caught_up ctx pc p) rd val') link)
  put-Settles ctx rd pc p link {val} z h e =
      ap₂ (with_regs ctx)
        (ap (λ (g : Gpr). record g { pc = link })
            (ap (write_masked ctx.regs rd) e ∙ write_masked-write ctx.regs rd _ z h)
          ∙ write_set_pc ctx.regs rd _ pc link)
        (instret_next ctx.csr.instret p)

-- The instructions that change the registers alone; the others access memory or are interpreted.
unfoldable pub is_register : Op → Bool
is_register (load kind rd rs1 imm) = false
is_register (store kind rs1 rs2 imm) = false
is_register (fallback raw) = false
is_register _ = true

module _ {b : ExecBus} (ctx : Context b) (satp pc p ilen : ℕ) where
  -- An instruction that was decoded does in a block what the outcome says.
  abbrev pub Agrees : Option Op → Outcome b → Type 0
  Agrees none o = Unit
  Agrees (some op) o =
      is_register op ≡ true → Settles (exec_op ctx satp op pc ilen) ((pc + ilen) % 2 ^ 64) p o

  pub Agrees-if :
      (c : Bool) (d d' : Option Op) (o o' : Outcome b)
      → Agrees d o
      → Agrees d' o'
      → Agrees (if c then d else d') (if c then o else o')
  Agrees-if true d d' o o' h k = h
  Agrees-if false d d' o o' h k = k
