-- ===== src/RiscvCore/Block/Examples.antt =====
-- A machine whose memory holds a few words, and the block of these words.
use vpod.Prelude.{
  ℕ, ◌+◌, ◌-◌, ◌%◌, ◌^◌, ◌≤◌, ◌<◌, ◌==◌, ◌≡◌, refl, false, if◌then◌else◌, none, some, List, [], ◌∷◌,
  length, u64_max, arith,
}
use vpod.RiscvCore.SystemBus.{ExecBus}
use vpod.RiscvCore.Gpr
use vpod.RiscvCore.Csr
use vpod.RiscvCore.Mmu
use vpod.RiscvCore.FetchTlb
use vpod.RiscvCore.Alu.{AluKind}
use vpod.RiscvCore.Block.{Op, Block, decode_full, decode_imm, LoadKind}
use vpod.RiscvCore.Block.Compressed.{decode_compressed}
use vpod.RiscvCore.Block.Cache
use vpod.RiscvCore.Block.Cache.Sound.{Event, run, last_decoded, blocks_sound}
use vpod.RiscvCore.Block.Run.{exec_block, exec_op}
use vpod.RiscvCore.Block.Run.Decode.{decode_block}
use vpod.RiscvCore.Block.Run.Bounds.{Follow, decode_block_bounds}
use vpod.RiscvCore.Block.Simulation.{IsValid, Settles, caught_up, is_register}
use vpod.RiscvCore.Block.Simulation.Loads.{load-Settles}
use vpod.RiscvCore.Block.Simulation.Reads.{ReadsFit}
use vpod.RiscvCore.Gpr.{read}
use vpod.RiscvCore.Mmu.{load_fast_lookup}
use vpod.RiscvCore.Decode.{
  opcode, funct3, rd, rs1, imm_i, quadrant, compressed_funct3, compressed_rd, sign_extend, imm_j,
}
use vpod.RiscvCore.Block.Simulation.Steps.{IsDecoded, steps, exec_block-steps}
use vpod.RiscvCore.Execute.{Context, Outcome, illegal}
use vpod.RiscvCore.Execute.Dispatch.{exec_raw, exec_full}
use vpod.RiscvCore.Execute.Breakpoints.{ebreak_addresses}

-- `addi x1, x0, 5`, `c.addi x1, 1` and `jal x0, -6`, in the last bytes of a page.
abbrev start : ℕ
start = 0x80000ff4

abbrev rom : ExecBus
rom = record {
  unit = record {
    Bus = Unit {0};
    HostPage = ℕ;
    read_doubleword = λ s a. (0, s);
    ram_load_page = λ s a. (none, s);
    ram_store_page = λ s a. (none, s);
    ram_epoch = λ s. 7;
  };
  read_byte = λ s a. (0, s);
  read_halfword = λ s a. (
    if a == start
        then 0x0093
        else if a == start + 2
        then 0x0050
        else if a == start + 4
        then 0x0085
        else if a == start + 6
        then 0xf06f
        else if a == start + 8
        then 0xffbf
        else 0,
    s,
  );
  read_word = λ s a. (0, s);
  write_byte = λ s a v. s;
  write_halfword = λ s a v. s;
  write_word = λ s a v. s;
  write_doubleword = λ s a v. s;
  drain_device_written_pages = λ s. ([], false, s);
  timer_interrupt_pending = λ s. none;
  page_read = λ s page offset size. 0;
  page_write = λ s page offset size value. s;
  external_interrupt_pending = λ s. (none, s);
}

abbrev raws : List ℕ
raws = 0x00500093 ∷ 0x0085 ∷ 0xffbff06f ∷ []

abbrev block : Block
block = record {
  ops =
      record { op = Op.alu_imm AluKind.add 1 0 5; pc_off = 0; ilen = 4 }
      ∷ record { op = Op.alu_imm AluKind.add 1 1 1; pc_off = 4; ilen = 2 }
      ∷ record { op = Op.jal 0 (2 ^ 64 - 6); pc_off = 6; ilen = 4 }
      ∷ [];
  byte_len = 10;
}

abbrev hart : Context rom
unfolding Gpr.new Csr.new Mmu.new FetchTlb.new Cache.new
hart = record {
  regs = Gpr.new start;
  csr = Csr.new;
  mmu = Mmu.new;
  bus = tt;
  priv_mode = Csr.machine;
  lr_addr = none;
  fetch_tlb = FetchTlb.new;
  icache_tags = λ _. u64_max;
  icache_data = λ _. 0;
  is_waiting = false;
  shutdown_requested = false;
  blocks = Cache.new;
}

abbrev no_floats : Context rom → ℕ → ℕ → Outcome rom
no_floats ctx raw pc = illegal raw ctx

decoded_example : (decode_block rom tt start).0 ≡ some block
unfolding decode_block opcode decode_imm funct3 rd rs1 imm_i quadrant compressed_funct3
    compressed_rd sign_extend imm_j
decoded_example = refl

block_IsDecoded : IsDecoded no_floats 0 block.ops raws block.byte_len
unfolding decode_full decode_compressed is_register opcode decode_imm funct3 rd rs1 imm_i quadrant
    compressed_funct3 compressed_rd sign_extend imm_j
block_IsDecoded = (
  omega arith,
  refl,
  refl,
  refl,
  (omega arith, refl, refl, refl, (omega arith, refl, refl, refl, refl)),
)

hart_IsValid : IsValid hart.regs
unfolding hart
hart_IsValid = record { hardwired = refl; words = λ r. omega arith }

decode_block_bounds_example :
    (0 < length block.ops)
    × (length block.ops ≤ 64)
    × Follow 0 block.ops block.byte_len
    × (start % 2 ^ 12 + block.byte_len ≤ 2 ^ 12)
decode_block_bounds_example = decode_block_bounds rom tt start (omega arith) decoded_example

exec_block-steps_example :
    (k : ℕ) × (0 < k)
    × (exec_block no_floats hart block hart.regs.pc 0 ≡ (k, steps no_floats k raws hart))
unfolding hart
exec_block-steps_example =
    exec_block-steps no_floats hart block 0 raws hart_IsValid refl (omega arith) (omega arith)
      (λ e. cc e) block_IsDecoded

rom-ReadsFit : ReadsFit rom
rom-ReadsFit = record {
  byte = λ s a. omega arith;
  halfword = λ s a. ground arith;
  word = λ s a. omega arith;
  doubleword = λ s a. omega arith;
}

-- `lw x1, 8(x0)`, in a block that the hart has run for three instructions.
load-Settles_example :
    (decode_full 0x00802083
      ≡ some (Op.load LoadKind.lw (rd 0x00802083) (rs1 0x00802083) (imm_i 0x00802083)))
    × Settles
        (exec_op hart 0
          (Op.load LoadKind.lw (rd 0x00802083) (rs1 0x00802083) (imm_i 0x00802083))
          start
          4)
        (start + 4)
        3
        (exec_full no_floats (caught_up hart start 3) 0x00802083 start)
unfolding hart opcode funct3 read load_fast_lookup rs1 imm_i
load-Settles_example =
    load-Settles no_floats hart start 3 0x00802083 LoadKind.lw rom-ReadsFit hart_IsValid
      (omega arith) refl refl refl

-- A store to the next page keeps the block, and the one inserted last is answered.
abbrev events : List Event
events =
    Event.decoded start (record block { byte_len = 4 })
    ∷ Event.decoded start block
    ∷ Event.stored 0x80001000
    ∷ Event.matched 0x80000 77
    ∷ []

kept_example : Cache.lookup (run Cache.new events) start ≡ some block
unfolding run Cache.lookup Cache.insert Cache.notify_store Cache.aot_record_hash Cache.mark_page
    Cache.page_has_code Cache.new
kept_example = refl

blocks_sound_example : last_decoded (λ _. none) events start ≡ some block
blocks_sound_example = blocks_sound events start block (omega arith) kept_example

ebreak_addresses_example :
    ((exec_raw no_floats hart 0x00100073 start).1.csr.mepc ≡ start)
    × ((exec_raw no_floats hart 0x9002 start).1.csr.mepc ≡ (start + 2) % 2 ^ 64)
unfolding hart
ebreak_addresses_example = ebreak_addresses no_floats hart refl
