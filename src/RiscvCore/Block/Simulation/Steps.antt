-- ===== src/RiscvCore/Block/Simulation/Steps.antt =====
-- A block of crates/riscv-core/src/block.rs against the interpreter of crates/riscv-core/src/execute.rs: running the
-- block is executing its words one after the other.
use mathlib.Core.Option
use vpod.Prelude.{
  ℕ, zero, suc, ◌+◌, ◌%◌, ◌^◌, ◌<◌, bit_and, Bool, true, false, not, ◌==◌, ◌≡◌, refl, ap, ap₂, sym,
  ◌∙◌, subst, if◌then◌else◌, Option, none, some, List, [], ◌∷◌, ◌≢◌, arith,
}
use vpod.RiscvCore.SystemBus.{ExecBus}
use vpod.RiscvCore.Block.{Op, DecodedInsn, Block, decode_full}
use vpod.RiscvCore.Block.Compressed.{decode_compressed}
use vpod.RiscvCore.Block.Run.{
  Flow, advance, leave, faulted, interpret, exec_op, after_op, exec_ops, exec_block,
}
use vpod.RiscvCore.Block.Simulation.{IsValid, Settles, caught_up, Agrees, is_register}
use vpod.RiscvCore.Block.Simulation.Words.{full-Agrees}
use vpod.RiscvCore.Block.Simulation.Compressed.{compressed-Agrees}
use vpod.RiscvCore.Block.Simulation.Widths.{
  Fits, FitsIfDecoded, decode_full-Fits, decode_compressed-Fits, GoesOnValid, exec_op-IsValid,
}
use vpod.RiscvCore.Execute.{StepResult, Context, Outcome}
use vpod.RiscvCore.Execute.Compressed.{exec_compressed}
use vpod.RiscvCore.Execute.Dispatch.{exec_full, exec_raw, entering}

-- The instruction of a word, and its length, as a block holds it.
abbrev pub decoded : ℕ → Option (Op × ℕ)
decoded raw =
    if not (bit_and raw 0x3 == 0x3)
    then Option.map (λ op. (op, 2)) (decode_compressed (raw % 2 ^ 16))
    else Option.map (λ op. (op, 4)) (decode_full raw)

map-Fits :
    (d : Option Op) {op : Op} {n : ℕ} (ilen : ℕ)
    → Option.map {B = Op × ℕ} (λ (op : Op). (op, ilen)) d ≡ some (op, n)
    → FitsIfDecoded d
    → Fits op × (n ≡ ilen)
map-Fits none ilen e h = cc
map-Fits (some found) {op} {n} ilen e h =
    let same : ◌≡◌ {A = Op × ℕ} (found, ilen) (op, n) = cc in
    (subst (λ (k : Op × ℕ). Fits k.0) same h, sym (ap (λ (k : Op × ℕ). k.1) same))

-- A decoded instruction has an immediate that fits, and an even length.
decoded-Fits :
    (raw : ℕ) {op : Op} {ilen : ℕ}
    → raw < 2 ^ 32
    → decoded raw ≡ some (op, ilen)
    → Fits op × (ilen % 2 ≡ 0)
decoded-Fits raw {op} {ilen} word e = by_length (not (bit_and raw 0x3 == 0x3)) e
  where
    by_length :
        (short : Bool)
        → (if short
            then Option.map {B = Op × ℕ} (λ op. (op, 2)) (decode_compressed (raw % 2 ^ 16))
            else Option.map {B = Op × ℕ} (λ op. (op, 4)) (decode_full raw))
          ≡ some (op, ilen)
        → Fits op × (ilen % 2 ≡ 0)
    by_length true e =
        let found =
          map-Fits (decode_compressed (raw % 2 ^ 16)) 2 e
            (decode_compressed-Fits (raw % 2 ^ 16) (omega arith)) in
        (found.0, omega (arith, found.1))
    by_length false e =
        let found = map-Fits (decode_full raw) 4 e (decode_full-Fits raw word) in
        (found.0, omega (arith, found.1))

module _ {b : ExecBus} (float_arms : Context b → ℕ → ℕ → Outcome b) where
  Settles-entering :
      (f : Flow b) (next_pc p pc : ℕ) (o : Outcome b)
      → Settles f next_pc p o
      → Settles f next_pc p (entering pc o)
  Settles-entering (advance ctx) next_pc p pc o h = ap (entering pc) h
  Settles-entering (leave ctx) next_pc p pc o h = ap (entering pc) h
  Settles-entering (faulted ctx) next_pc p pc o h = ap (entering pc) h
  Settles-entering (interpret raw) next_pc p pc o h = h

  from_decoded :
      (ctx : Context b) (satp pc p ilen : ℕ) (d : Option Op) (o : Outcome b) {op : Op} {n : ℕ}
      → Option.map {B = Op × ℕ} (λ (op : Op). (op, ilen)) d ≡ some (op, n)
      → Agrees ctx satp pc p ilen d o
      → is_register op ≡ true
      → Settles (exec_op ctx satp op pc n) ((pc + n) % 2 ^ 64) p (entering pc o)
  from_decoded ctx satp pc p ilen none o e h r = cc
  from_decoded ctx satp pc p ilen (some found) o {op} {n} e h r =
      subst
        (λ (k : Op × ℕ).
          is_register k.0 ≡ true
          → Settles (exec_op ctx satp k.0 pc k.1) ((pc + k.1) % 2 ^ 64) p (entering pc o))
        same (λ r'. Settles-entering _ _ p pc o (h r')) r
    where
      same : ◌≡◌ {A = Op × ℕ} (found, ilen) (op, n)
      same = cc

  -- One instruction of a block settles to what `exec_raw` does with its word.
  pub word-Settles :
      (ctx : Context b) (satp pc p raw : ℕ) {op : Op} {ilen : ℕ}
      → IsValid ctx.regs
      → raw < 2 ^ 32
      → pc % 2 ≡ 0
      → decoded raw ≡ some (op, ilen)
      → is_register op ≡ true
      → Settles
          (exec_op ctx satp op pc ilen)
          ((pc + ilen) % 2 ^ 64)
          p
          (exec_raw float_arms (caught_up ctx pc p) raw pc)
  unfolding exec_raw
  word-Settles ctx satp pc p raw {op} {ilen} v word even e r =
      by_length (not (bit_and raw 0x3 == 0x3)) e
    where
      by_length :
          (short : Bool)
          → (if short
              then Option.map {B = Op × ℕ} (λ op. (op, 2)) (decode_compressed (raw % 2 ^ 16))
              else Option.map {B = Op × ℕ} (λ op. (op, 4)) (decode_full raw))
            ≡ some (op, ilen)
          → Settles (exec_op ctx satp op pc ilen) ((pc + ilen) % 2 ^ 64) p (
              entering pc (
                if short
                then exec_compressed (caught_up ctx pc p) (raw % 2 ^ 16)
                else exec_full float_arms (caught_up ctx pc p) raw pc))
      by_length true e =
          from_decoded ctx satp pc p 2 (decode_compressed (raw % 2 ^ 16)) _ e
            (compressed-Agrees ctx satp pc p (raw % 2 ^ 16) v (omega arith)) r
      by_length false e =
          from_decoded ctx satp pc p 4 (decode_full raw) _ e
            (full-Agrees ctx satp pc p raw v float_arms word even) r

  -- The result is not `ok`, or the next words are executed.
  abbrev pub continue : Outcome b → (Context b → Outcome b) → Outcome b
  continue (StepResult.ok, ctx) next = next ctx
  continue (StepResult.halt, ctx) next = (StepResult.halt, ctx)
  continue (StepResult.trap cause, ctx) next = (StepResult.trap cause, ctx)

  -- The first `n` words, each executed where the program counter stands.
  pub steps : ℕ → List ℕ → Context b → Outcome b
  steps zero raws ctx = (StepResult.ok, ctx)
  steps (suc n) [] ctx = (StepResult.ok, ctx)
  steps (suc n) (raw ∷ raws) ctx =
      continue (exec_raw float_arms ctx raw ctx.regs.pc) (λ ctx'. steps n raws ctx')

  -- The instructions are those of the words, from an offset to the end of the block, and change the
  -- registers alone.
  abbrev pub IsDecoded : ℕ → List DecodedInsn → List ℕ → ℕ → Type 0
  IsDecoded offset [] raws byte_len = offset ≡ byte_len
  IsDecoded offset (d ∷ ops) [] byte_len = ⊥
  IsDecoded offset (d ∷ ops) (raw ∷ raws) byte_len =
      (raw < 2 ^ 32)
      × (decoded raw ≡ some (d.op, d.ilen))
      × (is_register d.op ≡ true)
      × (d.pc_off ≡ offset)
      × IsDecoded (offset + d.ilen) ops raws byte_len

  -- A block that has instructions retires at least one.
  abbrev MovesOn : List DecodedInsn → ℕ → Type 0
  MovesOn [] k = Unit
  MovesOn (d ∷ ops) k = 0 < k

  MovesOn-positive : (ops : List DecodedInsn) (k : ℕ) → ops ≢ [] → MovesOn ops k → 0 < k
  MovesOn-positive [] k h m = absurd (h refl)
  MovesOn-positive (d ∷ ops) k h m = m

  module _ (entry_pc byte_len satp : ℕ) where
    -- A run of the loop is the execution of so many words.
    abbrev Runs : List DecodedInsn → List ℕ → ℕ → Context b → ℕ → ℕ → Type 0
    Runs ops raws offset ctx retired pending =
        (k : ℕ) × MovesOn ops k
        × (exec_ops float_arms ops ctx entry_pc byte_len satp retired pending
            ≡ (retired + k, steps k raws (caught_up ctx ((entry_pc + offset) % 2 ^ 64) pending)))

    after-Settles :
        (f : Flow b) (ops : List DecodedInsn) (raws : List ℕ) (offset next_pc retired p : ℕ)
        (o : Outcome b) (fall_back : ℕ → ℕ × Outcome b)
        → next_pc ≡ (entry_pc + offset) % 2 ^ 64
        → Settles f next_pc p o
        → GoesOnValid f
        → ((ctx : Context b) → IsValid ctx.regs → Runs ops raws offset ctx (retired + 1) (p + 1))
        → (k : ℕ) × (after_op f
              (λ ctx. exec_ops float_arms ops ctx entry_pc byte_len satp (retired + 1) (p + 1))
              fall_back
              retired
              p
            ≡ (retired + suc k, continue o (λ ctx. steps k raws ctx)))
    unfolding steps
    after-Settles (advance ctx) ops raws offset next_pc retired p o fall_back at s v rest =
        let (k, _, run) = rest ctx v in
        (
          k,
          run
              ∙ ap₂ (λ (n : ℕ) (out : Outcome b). (n, out)) (omega arith)
                  (ap (λ (pc : ℕ). steps k raws (caught_up ctx pc (p + 1))) (sym at)
                    ∙ ap (λ (out : Outcome b). continue out (λ ctx'. steps k raws ctx')) s),
        )
    after-Settles (leave ctx) ops raws offset next_pc retired p o fall_back at s v rest =
        (0, ap (λ (out : Outcome b). (retired + 1, continue out (λ ctx'. steps 0 raws ctx'))) s)
    after-Settles (faulted ctx) ops raws offset next_pc retired p o fall_back at s v rest =
        (0, ap (λ (out : Outcome b). (retired + 1, continue out (λ ctx'. steps 0 raws ctx'))) s)
    after-Settles (interpret raw) ops raws offset next_pc retired p o fall_back at s v rest =
        absurd s

    pub exec_ops-steps :
        (ops : List DecodedInsn) (raws : List ℕ) (offset : ℕ) (ctx : Context b) (retired p : ℕ)
        → IsValid ctx.regs
        → (entry_pc + offset) % 2 ≡ 0
        → IsDecoded offset ops raws byte_len
        → Runs ops raws offset ctx retired p
    unfolding exec_ops steps
    exec_ops-steps [] raws offset ctx retired p v even d = (
      0,
      tt,
      ap₂ (λ (n len : ℕ). (n, (StepResult.ok, caught_up ctx ((entry_pc + len) % 2 ^ 64) p)))
          (omega arith) (sym d),
    )
    exec_ops-steps (d ∷ ops) [] offset ctx retired p v even dec = absurd dec
    exec_ops-steps (d ∷ ops) (raw ∷ raws) offset ctx retired p v even (word, e, r, at, rest) =
        let pc = (entry_pc + d.pc_off) % 2 ^ 64 in
        let found = decoded-Fits raw word e in
        let settles = word-Settles ctx satp pc p raw v word (omega arith) e r in
        let goes_on = exec_op-IsValid ctx satp d.op pc d.ilen v found.0 r in
        let (k, run) =
          after-Settles (exec_op ctx satp d.op pc d.ilen) ops raws (offset + d.ilen)
            ((pc + d.ilen) % 2 ^ 64) retired p (exec_raw float_arms (caught_up ctx pc p) raw pc) _
            (omega arith) settles goes_on
            (λ ctx' v'.
              exec_ops-steps ops raws (offset + d.ilen) ctx' (retired + 1) (p + 1) v'
                (omega (arith, found.1)) rest) in
        (
          suc k,
          omega arith,
          run
              ∙ ap
                  (λ (start : ℕ). (
                    retired + suc k,
                    steps (suc k) (raw ∷ raws) (caught_up ctx ((entry_pc + start) % 2 ^ 64) p),
                  ))
                  at,
        )

  at_start :
      (ctx : Context b)
      → ctx.regs.pc < 2 ^ 64
      → ctx.csr.instret < 2 ^ 64
      → caught_up ctx ((ctx.regs.pc + 0) % 2 ^ 64) 0 ≡ ctx
  at_start ctx h k =
      ap₂
        (λ (pc instret : ℕ).
          let from : Context b = record ctx {
            regs = record ctx.regs { pc = pc };
            csr = record ctx.csr { instret = instret };
          } in
          from)
        {y = ctx.regs.pc} {v = ctx.csr.instret} (omega arith) (omega arith)

  from_start :
      (ctx : Context b) (ops : List DecodedInsn) (raws : List ℕ) {out : ℕ × Outcome b}
      → ctx.regs.pc < 2 ^ 64
      → ctx.csr.instret < 2 ^ 64
      → ops ≢ []
      → (k : ℕ) × MovesOn ops k
        × (out ≡ (0 + k, steps k raws (caught_up ctx ((ctx.regs.pc + 0) % 2 ^ 64) 0)))
      → (k : ℕ) × (0 < k) × (out ≡ (k, steps k raws ctx))
  from_start ctx ops raws h c filled (k, moves, run) = (
    k,
    MovesOn-positive ops k filled moves,
    run
        ∙ ap₂ (λ (n : ℕ) (from : Context b). (n, steps k raws from)) (omega arith)
            (at_start ctx h c),
  )

  -- A block, not empty, of instructions that change the registers alone, decoded from words, run at the
  -- even 64-bit address where the hart stands, with valid registers and a 64-bit count of
  -- instructions: it retires at least one of the words, and its result and state are those of executing as
  -- many words as it retires one by one.
  pub exec_block-steps :
      (ctx : Context b) (block : Block) (satp : ℕ) (raws : List ℕ)
      → IsValid ctx.regs
      → ctx.regs.pc % 2 ≡ 0
      → ctx.regs.pc < 2 ^ 64
      → ctx.csr.instret < 2 ^ 64
      → block.ops ≢ []
      → IsDecoded 0 block.ops raws block.byte_len
      → (k : ℕ) × (0 < k)
        × (exec_block float_arms ctx block ctx.regs.pc satp ≡ (k, steps k raws ctx))
  unfolding exec_block
  exec_block-steps ctx block satp raws v even pc count filled d =
      from_start ctx block.ops raws pc count filled
        (exec_ops-steps ctx.regs.pc block.byte_len satp block.ops raws 0 ctx 0 0 v (omega arith) d)
