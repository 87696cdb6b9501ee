-- ===== src/RiscvCore/Execute/Atomic.antt =====
-- `exec_amo` of crates/riscv-core/src/execute.rs: LR, SC and the atomic operations on a word (width 2)
-- and on a doubleword (any other width).
use vpod.Prelude.{
  ℕ, ◌+◌, ◌/◌, ◌%◌, ◌^◌, Bool, false, ◌==◌, if◌then◌else◌, Option, none, some, List, [], ◌∷◌,
  select,
}
use vpod.RiscvCore.SystemBus.{ExecBus}
use vpod.RiscvCore.Decode.{rd, rs1, rs2, funct3, funct7}
use vpod.RiscvCore.Extensions
use vpod.RiscvCore.Extensions.{sign_extended}
use vpod.RiscvCore.Gpr.{read}
use vpod.RiscvCore.Mmu.{Translated}
use vpod.RiscvCore.Block.Cache.{notify_store}
use vpod.RiscvCore.Execute.{
  StepResult, Context, Outcome, effective_satp, set_pc, set_reg, illegal, store_address,
  trap_from_mmu, notified, read_bus, write_bus,
}

-- The `match` on `funct5`: the value of the register and the new value of the memory.
abbrev pub word_operations : List (ℕ × (ℕ → ℕ → ℕ × ℕ))
word_operations =
    (0x01, Extensions.amoswap_w)
    ∷ (0x00, Extensions.amoadd_w)
    ∷ (0x04, Extensions.amoxor_w)
    ∷ (0x0c, Extensions.amoand_w)
    ∷ (0x08, Extensions.amoor_w)
    ∷ (0x10, Extensions.amomin_w)
    ∷ (0x14, Extensions.amomax_w)
    ∷ (0x18, Extensions.amominu_w)
    ∷ (0x1c, Extensions.amomaxu_w)
    ∷ []

abbrev pub doubleword_operations : List (ℕ × (ℕ → ℕ → ℕ × ℕ))
doubleword_operations =
    (0x01, Extensions.amoswap_d)
    ∷ (0x00, Extensions.amoadd_d)
    ∷ (0x04, Extensions.amoxor_d)
    ∷ (0x0c, Extensions.amoand_d)
    ∷ (0x08, Extensions.amoor_d)
    ∷ (0x10, Extensions.amomin_d)
    ∷ (0x14, Extensions.amomax_d)
    ∷ (0x18, Extensions.amominu_d)
    ∷ (0x1c, Extensions.amomaxu_d)
    ∷ []

-- The bytes of an access.
abbrev pub access_size : ℕ → ℕ
access_size width = if width == 2 then 4 else 8

abbrev pub is_reserved : Option ℕ → ℕ → Bool
is_reserved none pa = false
is_reserved (some r) pa = r == pa

module _ {b : ExecBus} where
  unfoldable pub load_reserved : Context b → ℕ → ℕ → Outcome b
  load_reserved ctx raw pa =
      let (value, ctx') = read_bus ctx (access_size (funct3 raw)) pa in
      let val = if funct3 raw == 2 then sign_extended value else value in
      let reserved : Context b = record (set_reg ctx' (rd raw) val) { lr_addr = some pa } in
      (StepResult.ok, set_pc reserved ((ctx.regs.pc + 4) % 2 ^ 64))

  unfoldable pub store_conditional : Context b → ℕ → ℕ → ℕ → Outcome b
  store_conditional ctx raw pa src =
      let tried =
        if is_reserved ctx.lr_addr pa
        then set_reg (write_bus ctx (access_size (funct3 raw)) pa src) (rd raw) 0
        else set_reg ctx (rd raw) 1 in
      let released : Context b = record tried { lr_addr = none } in
      (StepResult.ok, set_pc released ((ctx.regs.pc + 4) % 2 ^ 64))

  -- An operation that is not known is illegal, once the memory has been read.
  abbrev pub operated : Context b → ℕ → ℕ → ℕ → ℕ → Option (ℕ → ℕ → ℕ × ℕ) → Outcome b
  operated ctx raw pa mem src none = illegal raw ctx
  operated ctx raw pa mem src (some operation) =
      let (rd_val, new_val) = operation mem src in
      let stored = set_reg (write_bus ctx (access_size (funct3 raw)) pa new_val) (rd raw) rd_val in
      (StepResult.ok, set_pc stored ((stored.regs.pc + 4) % 2 ^ 64))

  unfoldable pub operate : Context b → ℕ → ℕ → ℕ → Outcome b
  operate ctx raw pa src =
      let (mem, ctx') = read_bus ctx (access_size (funct3 raw)) pa in
      operated ctx' raw pa mem src (
        if funct3 raw == 2
        then select word_operations (funct7 raw / 2 ^ 2)
        else select doubleword_operations (funct7 raw / 2 ^ 2))

  abbrev pub at_address : Translated × Context b → ℕ → ℕ → Outcome b
  at_address (Translated.fault f, ctx) raw src = trap_from_mmu ctx f
  at_address (Translated.ok pa, ctx) raw src =
      let ctx' = notified ctx pa in
      if funct7 raw / 2 ^ 2 == 0x02
      then load_reserved ctx' raw pa
      else if funct7 raw / 2 ^ 2 == 0x03
      then store_conditional ctx' raw pa src
      else operate ctx' raw pa src

  unfoldable pub exec_amo : Context b → ℕ → Outcome b
  unfolding load_reserved store_conditional operate notify_store
  exec_amo ctx raw =
      let va = read ctx.regs (rs1 raw) in
      let src = read ctx.regs (rs2 raw) in
      at_address (store_address ctx va (effective_satp ctx.priv_mode ctx.csr.satp)) raw src
