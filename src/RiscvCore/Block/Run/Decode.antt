-- ===== src/RiscvCore/Block/Run/Decode.antt =====
-- `decode_block` of crates/riscv-core/src/block.rs: the instructions from an address up to the first jump,
-- the first that a block cannot hold, the end of the page or the 64th.
use mathlib.Core.Option
use vpod.Prelude.{
  ℕ, zero, suc, ◌+◌, ◌-◌, ◌*◌, ◌^◌, bit_and, bit_or, Bool, true, false, not, ◌==◌, ltb,
  if◌then◌else◌, Option, none, some, List, [], ◌∷◌,
}
use vpod.RiscvCore.SystemBus.{ExecBus}
use vpod.RiscvCore.Block.{
  Op, jal, jalr, fallback, DecodedInsn, Block, max_block_ops, decode_full, fallback_stops_block,
}
use vpod.RiscvCore.Block.Compressed.{decode_compressed}

abbrev pub is_terminator : Op → Bool
is_terminator (jal rd offset) = true
is_terminator (jalr rd rs1 imm) = true
is_terminator _ = false

-- The instruction of a 32-bit word, and its length.
abbrev pub or_fallback : ℕ → Option Op → Option (Op × ℕ)
or_fallback raw (some op) = some (op, 4)
or_fallback raw none = if fallback_stops_block raw then none else some (fallback raw, 4)

module _ (b : ExecBus) where
  open b use {unit, read_halfword}

  -- The instruction at an offset; `none` is a `break`, or the end of the page.
  unfoldable pub decode_at : unit.Bus → ℕ → ℕ → ℕ → Option (Op × ℕ) × unit.Bus
  decode_at s pa page_end offset =
      let (low, s') = read_halfword s (pa + offset) in
      let (high, s'') = read_halfword s' (pa + offset + 2) in
      let raw = bit_or low (high * 2 ^ 16) in
      if ltb page_end (offset + 2)
      then (none, s)
      else if not (bit_and low 0x3 == 0x3)
      then (Option.map (λ op. (op, 2)) (decode_compressed low), s')
      else if ltb page_end (offset + 4)
      then (none, s')
      else (or_fallback raw (decode_full raw), s'')

  -- A jump ends the block; behind any other instruction the loop goes on.
  abbrev pub placed :
      Bool
      → DecodedInsn
      → ℕ
      → unit.Bus
      → (unit.Bus → ℕ → List DecodedInsn × ℕ × unit.Bus)
      → List DecodedInsn × ℕ × unit.Bus
  placed true d offset s next = (d ∷ [], offset, s)
  placed false d offset s next =
      let (ops, end_offset, s') = next s offset in (d ∷ ops, end_offset, s')

  abbrev pub after_decoding :
      Option (Op × ℕ) × unit.Bus
      → ℕ
      → (unit.Bus → ℕ → List DecodedInsn × ℕ × unit.Bus)
      → List DecodedInsn × ℕ × unit.Bus
  after_decoding (none, s) offset next = ([], offset, s)
  after_decoding (some (op, ilen), s) offset next =
      placed (is_terminator op) (record { op = op; pc_off = offset; ilen = ilen }) (offset + ilen) s
        next

  -- `left` is the count of instructions that the block can still take.
  unfoldable pub decode_ops : (left : ℕ) → unit.Bus → ℕ → ℕ → ℕ → List DecodedInsn × ℕ × unit.Bus
  decode_ops zero s pa page_end offset = ([], offset, s)
  decode_ops (suc left) s pa page_end offset =
      after_decoding (decode_at s pa page_end offset) offset
        (λ s' next_offset. decode_ops left s' pa page_end next_offset)

  abbrev pub block_of : List DecodedInsn × ℕ × unit.Bus → Option Block × unit.Bus
  block_of ([], byte_len, s) = (none, s)
  block_of (d ∷ ops, byte_len, s) = (some (record { ops = d ∷ ops; byte_len = byte_len }), s)

  unfoldable pub decode_block : unit.Bus → ℕ → Option Block × unit.Bus
  unfolding decode_ops decode_at decode_full decode_compressed fallback_stops_block
  decode_block s pa = block_of (decode_ops max_block_ops s pa (0x1000 - bit_and pa 0xfff) 0)
