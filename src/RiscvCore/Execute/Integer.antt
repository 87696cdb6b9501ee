-- ===== src/RiscvCore/Execute/Integer.antt =====
-- `exec_full` of crates/riscv-core/src/execute.rs, the arms of the integer instructions: what a 32-bit word
-- does on the way on which no block is decoded.
pub mod Values
use vpod.Prelude.{
  ℕ, ◌+◌, ◌%◌, ◌^◌, bit_and, bit_not, shl, Bool, not, ◌==◌, if◌then◌else◌, Option, none, some, List,
  [], ◌∷◌, select, select₂,
}
use vpod.RiscvCore.SystemBus.{ExecBus}
use vpod.RiscvCore.Alu.{wrapping_add}
use vpod.RiscvCore.Decode.{rd, rs1, rs2, funct3, funct7, imm_i, imm_s, imm_b, imm_u, imm_j}
use vpod.RiscvCore.Gpr.{read}
use vpod.RiscvCore.Trap.{instruction_address_misaligned}
use vpod.RiscvCore.Block.Cache.{notify_store, flush_all}
use vpod.RiscvCore.Execute.{
  StepResult, Context, Outcome, effective_satp, set_pc, set_reg, retire, illegal,
  invalidate_fetch_cache, load_value, store_value, when_loaded, when_stored, notified,
}
unfoldable pub use vpod.RiscvCore.Execute.Integer.Values.{
  imm_value, imm32_word, map_word, imm32_value, reg_values, reg32_values, reg32_value, branch_tests,
  access_sizes, store_sizes, loaded_value,
}

module _ {b : ExecBus} where
  -- `ctx.regs.write(inst.rd(), val); ctx.regs.pc = pc.wrapping_add(4);`
  abbrev pub written : Context b → ℕ → ℕ → ℕ → Outcome b
  written ctx raw pc val = retire (set_pc (set_reg ctx (rd raw) val) ((pc + 4) % 2 ^ 64))

  abbrev pub written_or_illegal : Context b → ℕ → ℕ → Option ℕ → Outcome b
  written_or_illegal ctx raw pc none = illegal raw ctx
  written_or_illegal ctx raw pc (some val) = written ctx raw pc val

  unfoldable pub exec_lui : Context b → ℕ → ℕ → Outcome b
  exec_lui ctx raw pc = written ctx raw pc (imm_u raw)

  unfoldable pub exec_auipc : Context b → ℕ → ℕ → Outcome b
  exec_auipc ctx raw pc = written ctx raw pc (wrapping_add pc (imm_u raw))

  abbrev pub misaligned : Context b → Outcome b
  misaligned ctx = (StepResult.trap instruction_address_misaligned, ctx)

  unfoldable pub exec_jal : Context b → ℕ → ℕ → Outcome b
  exec_jal ctx raw pc =
      let target = wrapping_add pc (imm_j raw) in
      if not (bit_and target 0x1 == 0)
      then misaligned ctx
      else retire (set_pc (set_reg ctx (rd raw) ((pc + 4) % 2 ^ 64)) target)

  unfoldable pub exec_jalr : Context b → ℕ → ℕ → Outcome b
  exec_jalr ctx raw pc =
      let target = bit_and (wrapping_add (read ctx.regs (rs1 raw)) (imm_i raw)) (bit_not 64 1) in
      if not (bit_and target 0x1 == 0)
      then misaligned ctx
      else retire (set_pc (set_reg ctx (rd raw) ((pc + 4) % 2 ^ 64)) target)

  abbrev pub branched : Context b → ℕ → ℕ → Option Bool → Outcome b
  branched ctx raw pc none = illegal raw ctx
  branched ctx raw pc (some taken) =
      let target = wrapping_add pc (imm_b raw) in
      if taken
      then (if not (bit_and target 0x1 == 0) then misaligned ctx else retire (set_pc ctx target))
      else retire (set_pc ctx ((pc + 4) % 2 ^ 64))

  unfoldable pub exec_branch : Context b → ℕ → ℕ → Outcome b
  exec_branch ctx raw pc =
      branched ctx raw pc
        (select (branch_tests (read ctx.regs (rs1 raw)) (read ctx.regs (rs2 raw))) (funct3 raw))

  abbrev pub loaded : Context b → ℕ → ℕ → Option ℕ → Outcome b
  loaded ctx raw pc none = illegal raw ctx
  loaded ctx raw pc (some access_size) =
      let va = wrapping_add (read ctx.regs (rs1 raw)) (imm_i raw) in
      when_loaded (load_value ctx access_size va (effective_satp ctx.priv_mode ctx.csr.satp))
        λ value ctx'. written ctx' raw pc (loaded_value (funct3 raw) value)

  unfoldable pub exec_load : Context b → ℕ → ℕ → Outcome b
  unfolding load_value
  exec_load ctx raw pc = loaded ctx raw pc (select access_sizes (funct3 raw))

  abbrev pub stored : Context b → ℕ → ℕ → Option ℕ → Outcome b
  stored ctx raw pc none = illegal raw ctx
  stored ctx raw pc (some store_size) =
      let va = wrapping_add (read ctx.regs (rs1 raw)) (imm_s raw) in
      let source_value = read ctx.regs (rs2 raw) in
      when_stored
        (store_value ctx store_size va source_value (effective_satp ctx.priv_mode ctx.csr.satp))
        λ ctx'. retire (set_pc ctx' ((pc + 4) % 2 ^ 64))

  unfoldable pub exec_store : Context b → ℕ → ℕ → Outcome b
  unfolding store_value
  exec_store ctx raw pc = stored ctx raw pc (select store_sizes (funct3 raw))

  unfoldable pub exec_imm : Context b → ℕ → ℕ → Outcome b
  unfolding imm_value
  exec_imm ctx raw pc =
      written_or_illegal ctx raw pc
        (imm_value (funct3 raw) (funct7 raw) (imm_i raw) (read ctx.regs (rs1 raw)))

  unfoldable pub exec_imm32 : Context b → ℕ → ℕ → Outcome b
  unfolding imm32_value
  exec_imm32 ctx raw pc =
      written_or_illegal ctx raw pc
        (imm32_value (funct3 raw) (funct7 raw) (imm_i raw) (read ctx.regs (rs1 raw)))

  unfoldable pub exec_reg : Context b → ℕ → ℕ → Outcome b
  exec_reg ctx raw pc = written_or_illegal ctx raw pc (
      select₂ (reg_values (read ctx.regs (rs1 raw)) (read ctx.regs (rs2 raw))) (funct3 raw)
        (funct7 raw))

  unfoldable pub exec_reg32 : Context b → ℕ → ℕ → Outcome b
  unfolding reg32_value
  exec_reg32 ctx raw pc = written_or_illegal ctx raw pc (
      reg32_value (funct3 raw) (funct7 raw) (rs2 raw) (read ctx.regs (rs1 raw))
        (read ctx.regs (rs2 raw)))

  -- The visits of the pages that devices wrote.
  abbrev pub notify_pages : Context b → List ℕ → Context b
  notify_pages ctx [] = ctx
  notify_pages ctx (page ∷ pages) = notify_pages (notified ctx (shl page 12)) pages

  unfoldable pub exec_fence : Context b → ℕ → ℕ → Outcome b
  unfolding invalidate_fetch_cache flush_all notify_store
  exec_fence ctx raw pc =
      let (pages, tracked, bus) = b.drain_device_written_pages ctx.bus in
      let visited = notify_pages (record ctx { bus = bus }) pages in
      let fenced : Context b =
        if tracked then visited else record visited { blocks = flush_all visited.blocks } in
      let after : Context b = if funct3 raw == 0x1 then invalidate_fetch_cache fenced else ctx in
      retire (set_pc after ((pc + 4) % 2 ^ 64))
