-- ===== src/RiscvCore/Execute.antt =====
-- crates/riscv-core/src/execute.rs: the state that the execution of instructions changes, and the accesses
-- of the guest's memory. The bus is a parameter. The references of `ExecContext` are fields here; the
-- counters of perf.rs and the trace of system calls are left out.
pub mod Integer
pub mod Compressed
pub mod Atomic
pub mod System
pub mod Dispatch
pub mod Breakpoints
use vpod.Prelude.{
  ℕ, zero, suc, ◌+◌, ◌*◌, ◌/◌, ◌%◌, ◌^◌, u64_max, bit_and, Bool, ◌==◌, leb, if◌then◌else◌, Option,
  none, some,
}
use vpod.RiscvCore.SystemBus.{ExecBus}
use vpod.RiscvCore.Gpr.{Gpr, write}
use vpod.RiscvCore.Csr.{Csr, PrivMode}
use vpod.RiscvCore.Mmu.{Mmu, MmuFault, Translated, mcause, tval}
use vpod.RiscvCore.Mmu.Translate.{translate_load, translate_store}
use vpod.RiscvCore.Trap
use vpod.RiscvCore.Trap.{TrapCause, illegal_instruction}
use vpod.RiscvCore.FetchTlb.{FetchTlb}
use vpod.RiscvCore.FetchTlb
use vpod.RiscvCore.Block.Cache.{BlockCache, notify_store}

pub data StepResult : Type 0 where
  ok : StepResult
  halt : StepResult
  trap : TrapCause → StepResult

pub record Context (b : ExecBus) : Type 0 where
  pub regs : Gpr
  pub csr : Csr
  pub mmu : Mmu b.unit.HostPage
  pub bus : b.unit.Bus
  pub priv_mode : PrivMode
  pub lr_addr : Option ℕ
  pub fetch_tlb : FetchTlb
  pub icache_tags : ℕ → ℕ
  pub icache_data : ℕ → ℕ
  pub is_waiting : Bool
  pub shutdown_requested : Bool
  pub blocks : BlockCache

abbrev pub Outcome : ExecBus → Type 0
Outcome b = StepResult × Context b

-- `effective_satp` of crates/riscv-core/src/block.rs, which execute.rs writes out.
abbrev pub effective_satp : PrivMode → ℕ → ℕ
effective_satp PrivMode.user satp = satp
effective_satp PrivMode.supervisor satp = satp
effective_satp PrivMode.machine satp = 0

abbrev pub crosses_page : ℕ → ℕ → Bool
crosses_page va size = leb (0x1000 + 1) (bit_and va 0xfff + size)

module _ {b : ExecBus} where
  open b use {unit, read_byte, read_halfword, read_word}
  open b use {write_byte, write_halfword, write_word, write_doubleword}

  abbrev pub set_pc : Context b → ℕ → Context b
  set_pc ctx pc = record ctx { regs = record ctx.regs { pc = pc } }

  abbrev pub set_reg : Context b → ℕ → ℕ → Context b
  set_reg ctx rd val = record ctx { regs = write ctx.regs rd val }

  abbrev pub add_instret : Context b → ℕ → Context b
  add_instret ctx n = record ctx {
    csr = record ctx.csr { instret = (ctx.csr.instret + n) % 2 ^ 64 };
  }

  -- The end of an instruction that is counted.
  abbrev pub retire : Context b → Outcome b
  retire ctx = (StepResult.ok, add_instret ctx 1)

  abbrev pub illegal : ℕ → Context b → Outcome b
  illegal raw ctx = (StepResult.trap (illegal_instruction raw), ctx)

  unfoldable pub take_exception : Context b → ℕ → ℕ → Context b
  take_exception ctx cause tval =
      let entered =
        Trap.take_exception (record { pc = ctx.regs.pc; csr = ctx.csr; priv_mode = ctx.priv_mode })
          cause tval in
      record ctx {
        regs = record ctx.regs { pc = entered.pc };
        csr = entered.csr;
        priv_mode = entered.priv_mode;
      }

  unfoldable pub trap_from_mmu : Context b → MmuFault → Outcome b
  unfolding take_exception
  trap_from_mmu ctx f = (StepResult.ok, take_exception ctx (mcause f) (tval f))

  unfoldable pub invalidate_fetch_cache : Context b → Context b
  invalidate_fetch_cache ctx = record ctx {
    fetch_tlb = FetchTlb.flush ctx.fetch_tlb;
    icache_tags = λ _. u64_max;
  }

  abbrev pub load_address : Context b → ℕ → ℕ → Translated × Context b
  load_address ctx va satp =
      let (translated, mmu, bus) = translate_load unit ctx.mmu va satp ctx.bus in
      (translated, record ctx { mmu = mmu; bus = bus })

  abbrev pub store_address : Context b → ℕ → ℕ → Translated × Context b
  store_address ctx va satp =
      let (translated, mmu, bus) = translate_store unit ctx.mmu va satp ctx.bus in
      (translated, record ctx { mmu = mmu; bus = bus })

  -- A read of one, two, four or eight bytes at a physical address.
  abbrev pub read_bus : Context b → ℕ → ℕ → ℕ × Context b
  read_bus ctx size pa =
      let (value, bus) =
        if size == 1
        then read_byte ctx.bus pa
        else if size == 2
        then read_halfword ctx.bus pa
        else if size == 4
        then read_word ctx.bus pa
        else unit.read_doubleword ctx.bus pa in
      (value, record ctx { bus = bus })

  abbrev pub write_bus : Context b → ℕ → ℕ → ℕ → Context b
  write_bus ctx size pa val = record ctx {
    bus =
        if size == 1
        then write_byte ctx.bus pa (val % 2 ^ 8)
        else if size == 2
        then write_halfword ctx.bus pa (val % 2 ^ 16)
        else if size == 4
        then write_word ctx.bus pa (val % 2 ^ 32)
        else write_doubleword ctx.bus pa val;
  }

  abbrev pub notified : Context b → ℕ → Context b
  notified ctx pa = record ctx { blocks = notify_store ctx.blocks pa }

  -- `?` on a translation, in a function that gives a value and in one that gives none.
  abbrev pub with_value :
      Translated × Context b → (ℕ → Context b → Translated × Context b) → Translated × Context b
  with_value (Translated.fault f, ctx) next = (Translated.fault f, ctx)
  with_value (Translated.ok value, ctx) next = next value ctx

  abbrev pub with_address :
      Translated × Context b
      → (ℕ → Context b → Option MmuFault × Context b)
      → Option MmuFault × Context b
  with_address (Translated.fault f, ctx) next = (some f, ctx)
  with_address (Translated.ok pa, ctx) next = next pa ctx

  abbrev pub read_at : ℕ → ℕ → Context b → Translated × Context b
  read_at size pa ctx = let (value, ctx') = read_bus ctx size pa in (Translated.ok value, ctx')

  abbrev pub write_at : ℕ → ℕ → ℕ → Context b → Option MmuFault × Context b
  write_at size val pa ctx = (none, write_bus (notified ctx pa) size pa val)

  -- `byte_index` runs up from `va`; the bytes make a little-endian number.
  unfoldable pub load_bytes : ℕ → Context b → ℕ → ℕ → Translated × Context b
  load_bytes zero ctx va satp = (Translated.ok 0, ctx)
  load_bytes (suc n) ctx va satp =
      with_value (with_value (load_address ctx va satp) (read_at 1)) λ byte ctx'.
        with_value (load_bytes n ctx' ((va + 1) % 2 ^ 64) satp)
          λ rest final. (Translated.ok (byte + rest * 2 ^ 8), final)

  unfoldable pub store_bytes : ℕ → Context b → ℕ → ℕ → ℕ → Option MmuFault × Context b
  store_bytes zero ctx va val satp = (none, ctx)
  store_bytes (suc n) ctx va val satp = with_address (store_address ctx va satp) λ pa ctx'.
      store_bytes n (write_bus (notified ctx' pa) 1 pa val) ((va + 1) % 2 ^ 64) (val / 2 ^ 8) satp

  -- The value at `va`, in one read, or byte by byte where it crosses a page boundary.
  unfoldable pub load_value : Context b → ℕ → ℕ → ℕ → Translated × Context b
  load_value ctx size va satp =
      if crosses_page va size
      then load_bytes size ctx va satp
      else with_value (load_address ctx va satp) (read_at size)

  unfoldable pub store_value : Context b → ℕ → ℕ → ℕ → ℕ → Option MmuFault × Context b
  store_value ctx size va val satp =
      if crosses_page va size
      then store_bytes size ctx va val satp
      else with_address (store_address ctx va satp) (write_at size val)

  -- What an instruction does with the value it loaded, or with the end of its store.
  abbrev pub when_loaded : Translated × Context b → (ℕ → Context b → Outcome b) → Outcome b
  when_loaded (Translated.fault f, ctx) next = trap_from_mmu ctx f
  when_loaded (Translated.ok value, ctx) next = next value ctx

  abbrev pub when_stored : Option MmuFault × Context b → (Context b → Outcome b) → Outcome b
  when_stored (some f, ctx) next = trap_from_mmu ctx f
  when_stored (none, ctx) next = next ctx
