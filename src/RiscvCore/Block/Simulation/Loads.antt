-- ===== src/RiscvCore/Block/Simulation/Loads.antt =====
-- The loads: `do_load_slow` of crates/riscv-core/src/block.rs, which a block takes where the page is not
-- remembered, against the LOAD arm of `exec_full` of crates/riscv-core/src/execute.rs.
use mathlib.Core.Option
use vpod.Prelude.{
  ℕ, ◌+◌, ◌%◌, ◌^◌, ◌<◌, bit_and, Bool, true, false, ◌≡◌, refl, ap, sym, ◌∙◌, subst, if◌then◌else◌,
  Option, none, some, select, arith,
}
use vpod.RiscvCore.SystemBus.{ExecBus}
use vpod.RiscvCore.Alu.{wrapping_add}
use vpod.RiscvCore.Decode.{opcode, rd, rs1, funct3, imm_i}
use vpod.RiscvCore.Gpr.{Gpr, read, read_masked}
use vpod.RiscvCore.Mmu.{Translated, load_fast_lookup}
use vpod.RiscvCore.Block.{LoadKind, load, load_kinds, decode_full}
use vpod.RiscvCore.Block.Run.{
  exec_op, after_load, do_load, do_load_slow, raw_load, extend_load, load_size, extended,
}
use vpod.RiscvCore.Block.Simulation.{IsValid, Settles, caught_up, put-Settles, read_masked-read}
use vpod.RiscvCore.Block.Simulation.Words.{register-lt}
use vpod.RiscvCore.Execute.{
  StepResult, Context, Outcome, effective_satp, set_pc, crosses_page, trap_from_mmu, load_value,
  when_loaded,
}
use vpod.RiscvCore.Execute.Integer.{exec_load, loaded, written, loaded_value, access_sizes}
use vpod.RiscvCore.Execute.Dispatch.{exec_full}
use vpod.RiscvCore.Block.Simulation.Reads.{
  ReadsFit, Gives, Read, load_value-Read, lifted, load_value-caught_up, take_exception-add_instret,
}

code : LoadKind → ℕ
code LoadKind.lb = 0x0
code LoadKind.lh = 0x1
code LoadKind.lw = 0x2
code LoadKind.ld = 0x3
code LoadKind.lbu = 0x4
code LoadKind.lhu = 0x5
code LoadKind.lwu = 0x6

kind-code : (kind : LoadKind) (f : ℕ) → select load_kinds f ≡ some kind → f ≡ code kind
unfolding code
kind-code LoadKind.lb f e = ground (arith, e)
kind-code LoadKind.lh f e = ground (arith, e)
kind-code LoadKind.lw f e = ground (arith, e)
kind-code LoadKind.ld f e = ground (arith, e)
kind-code LoadKind.lbu f e = ground (arith, e)
kind-code LoadKind.lhu f e = ground (arith, e)
kind-code LoadKind.lwu f e = ground (arith, e)

access_size-code : (kind : LoadKind) → select access_sizes (code kind) ≡ some (load_size kind)
unfolding code
access_size-code LoadKind.lb = refl
access_size-code LoadKind.lh = refl
access_size-code LoadKind.lw = refl
access_size-code LoadKind.ld = refl
access_size-code LoadKind.lbu = refl
access_size-code LoadKind.lhu = refl
access_size-code LoadKind.lwu = refl

extend_load-code :
    (kind : LoadKind) (v : ℕ)
    → v < (2 ^ 8) ^ load_size kind
    → extend_load kind v ≡ loaded_value (code kind) v
unfolding code extend_load
extend_load-code LoadKind.lb v h = ground arith
extend_load-code LoadKind.lh v h = ground arith
extend_load-code LoadKind.lw v h = ground arith
extend_load-code LoadKind.ld v h = ground arith
extend_load-code LoadKind.lbu v h = ground arith
extend_load-code LoadKind.lhu v h = ground arith
extend_load-code LoadKind.lwu v h = ground arith

decode_full-load :
    (raw : ℕ) (kind : LoadKind)
    → opcode raw ≡ 0x03
    → select load_kinds (funct3 raw) ≡ some kind
    → decode_full raw ≡ some (load kind (rd raw) (rs1 raw) (imm_i raw))
unfolding decode_full
decode_full-load raw kind op found =
    rw op (ap (Option.map (λ kind. load kind (rd raw) (rs1 raw) (imm_i raw))) found)

module _ {b : ExecBus} where
  module _ (pc p : ℕ) where
    value-Settles :
        (g : Gpr) (kind : LoadKind) (raw : ℕ) (r : Translated × Context b)
        → g.x 0 ≡ 0
        → raw < 2 ^ 32
        → funct3 raw ≡ code kind
        → Gives (Read ((2 ^ 8) ^ load_size kind) g) r
        → Settles (after_load (rd raw) (extended kind pc r)) ((pc + 4) % 2 ^ 64) p (
            when_loaded
              (lifted pc p r)
              (λ value c. written c raw pc (loaded_value (funct3 raw) value)))
    unfolding trap_from_mmu rd
    value-Settles g kind raw (Translated.fault f, c) z word e h =
        ap (λ (c' : Context b). (StepResult.ok, c'))
          (take_exception-add_instret pc p (set_pc c pc) _ _)
    value-Settles g kind raw (Translated.ok v, c) z word e h =
        put-Settles c (rd raw) pc p ((pc + 4) % 2 ^ 64) (ap (λ (g : Gpr). g.x 0) h.1 ∙ z)
          (register-lt raw 7 word)
          (extend_load-code kind v h.0 ∙ ap (λ (f : ℕ). loaded_value f v) (sym e))

  do_load_slow_lem :
      (ctx : Context b) (satp pc va : ℕ) (kind : LoadKind)
      → do_load_slow ctx satp kind va pc
        ≡ extended kind pc (load_value ctx (load_size kind) va satp)
  unfolding do_load_slow raw_load load_value
  do_load_slow_lem ctx satp pc va kind = refl

  fast_missed :
      (c : Bool) (found : Option (Option b.unit.HostPage)) (slow : Option ℕ × Context b)
      (fast : b.unit.HostPage → Option ℕ × Context b)
      → found ≡ none
      → (if c
          then slow
          else elim found [ none ↦ slow | some none ↦ slow | some (some page) ↦ fast page ])
        ≡ slow
  fast_missed true found slow fast e = refl
  fast_missed false found slow fast e = rw e refl

  do_load-missed :
      (ctx : Context b) (satp pc va : ℕ) (kind : LoadKind)
      → load_fast_lookup ctx.mmu va satp (b.unit.ram_epoch ctx.bus) ≡ none
      → do_load ctx satp kind va pc ≡ extended kind pc (load_value ctx (load_size kind) va satp)
  unfolding do_load
  do_load-missed ctx satp pc va kind missed =
      fast_missed (crosses_page va (load_size kind))
        (load_fast_lookup ctx.mmu va satp (b.unit.ram_epoch ctx.bus))
        (do_load_slow ctx satp kind va pc)
        (λ page. (
          some (extend_load kind (b.page_read ctx.bus page (bit_and va 0xfff) (load_size kind))),
          ctx,
        ))
        missed
      ∙ do_load_slow_lem ctx satp pc va kind

  exec_full-load :
      (float_arms : Context b → ℕ → ℕ → Outcome b) (ctx : Context b) (raw pc size : ℕ)
      → opcode raw ≡ 0x03
      → select access_sizes (funct3 raw) ≡ some size
      → exec_full float_arms ctx raw pc ≡ loaded ctx raw pc (some size)
  unfolding exec_full exec_load
  exec_full-load float_arms ctx raw pc size op found = rw op (ap (loaded ctx raw pc) found)

  -- A LOAD word, with valid registers, on a bus whose reads fit their widths, at an address whose page is not
  -- remembered: it is decoded as that load, and what a block does with it, brought up to date, is what
  -- `exec_full` does with the word, faults and accesses across two pages included.
  pub load-Settles :
      (float_arms : Context b → ℕ → ℕ → Outcome b) (ctx : Context b) (pc p raw : ℕ)
      (kind : LoadKind)
      → ReadsFit b
      → IsValid ctx.regs
      → raw < 2 ^ 32
      → opcode raw ≡ 0x03
      → select load_kinds (funct3 raw) ≡ some kind
      → load_fast_lookup ctx.mmu
          (wrapping_add (read ctx.regs (rs1 raw)) (imm_i raw))
          (effective_satp ctx.priv_mode ctx.csr.satp)
          (b.unit.ram_epoch ctx.bus)
        ≡ none
      → (decode_full raw ≡ some (load kind (rd raw) (rs1 raw) (imm_i raw)))
        × Settles
            (exec_op ctx
              (effective_satp ctx.priv_mode ctx.csr.satp)
              (load kind (rd raw) (rs1 raw) (imm_i raw))
              pc
              4)
            ((pc + 4) % 2 ^ 64)
            p
            (exec_full float_arms (caught_up ctx pc p) raw pc)
  unfolding exec_op read rs1
  load-Settles float_arms ctx pc p raw kind fits v word op found missed =
      let va = wrapping_add (read ctx.regs (rs1 raw)) (imm_i raw) in
      let satp = effective_satp ctx.priv_mode ctx.csr.satp in
      let r = load_value ctx (load_size kind) va satp in
      let e = kind-code kind (funct3 raw) found in
      let base = read_masked-read ctx.regs (rs1 raw) v.hardwired (register-lt raw 15 word) in
      let given : do_load ctx satp kind (wrapping_add (read_masked ctx.regs (rs1 raw)) (imm_i raw))
            pc
          ≡ extended kind pc r =
        ap (λ (x : ℕ). do_load ctx satp kind (wrapping_add x (imm_i raw)) pc) base
        ∙ do_load-missed ctx satp pc va kind missed in
      let done : exec_full float_arms (caught_up ctx pc p) raw pc
          ≡ when_loaded (lifted pc p r)
              (λ value c. written c raw pc (loaded_value (funct3 raw) value)) =
        exec_full-load float_arms (caught_up ctx pc p) raw pc (load_size kind) op
          (ap (select access_sizes) e ∙ access_size-code kind)
        ∙ ap
            (λ (r' : Translated × Context b).
              when_loaded r' (λ value c. written c raw pc (loaded_value (funct3 raw) value)))
            (load_value-caught_up pc p ctx (load_size kind) va satp) in
      (
        decode_full-load raw kind op found,
        subst
            (λ (t : Option ℕ × Context b).
              Settles (after_load (rd raw) t) ((pc + 4) % 2 ^ 64) p
                (exec_full float_arms (caught_up ctx pc p) raw pc))
            (sym given)
            (subst
              (λ (o : Outcome b).
                Settles (after_load (rd raw) (extended kind pc r)) ((pc + 4) % 2 ^ 64) p o)
              (sym done)
              (value-Settles pc p ctx.regs kind raw r v.hardwired word e
                (load_value-Read kind ctx va satp fits))),
      )
