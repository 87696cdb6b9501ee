-- ===== src/RiscvCore/Block/Run/Bounds.antt =====
-- `decode_block` of crates/riscv-core/src/block.rs: a block has 64 instructions at most, which stand one
-- behind the other, and stays in its page.
use vpod.Prelude.{
  ℕ, zero, suc, ◌+◌, ◌-◌, ◌*◌, ◌%◌, ◌^◌, ◌≤◌, ◌<◌, bit_and, bit_or, Bool, true, false, ◌≡◌, refl,
  sym, subst, ltb, if◌then◌else◌, Option, none, some, List, [], ◌∷◌, length, arith,
}
use vpod.Bits.Masks.{and-mask}
use vpod.RiscvCore.SystemBus.{ExecBus}
use mathlib.Core.Option
use vpod.RiscvCore.Block.{Op, fallback, DecodedInsn, Block, decode_full, fallback_stops_block}
use vpod.RiscvCore.Block.Compressed.{decode_compressed}
use vpod.RiscvCore.Block.Run.Decode.{
  decode_at, or_fallback, is_terminator, placed, after_decoding, decode_ops, decode_block, block_of,
}

-- Each instruction stands behind the one before it, from an offset to the end.
abbrev pub Follow : ℕ → List DecodedInsn → ℕ → Type 0
Follow offset [] end_offset = offset ≡ end_offset
Follow offset (d ∷ ops) end_offset =
    (d.pc_off ≡ offset) × (0 < d.ilen) × Follow (offset + d.ilen) ops end_offset

module _ (b : ExecBus) where
  -- What is decoded at an offset ends in the page.
  abbrev EndsWithin : ℕ → ℕ → Option (Op × ℕ) → Type 0
  EndsWithin page_end offset none = Unit
  EndsWithin page_end offset (some (op, ilen)) = (0 < ilen) × (offset + ilen ≤ page_end)

  short_EndsWithin :
      (page_end offset : ℕ) (d : Option Op)
      → offset + 2 ≤ page_end
      → EndsWithin page_end offset (Option.map {B = Op × ℕ} (λ op. (op, 2)) d)
  short_EndsWithin page_end offset none h = tt
  short_EndsWithin page_end offset (some op) h = (omega arith, h)

  long_EndsWithin :
      (page_end offset raw : ℕ) (d : Option Op)
      → offset + 4 ≤ page_end
      → EndsWithin page_end offset (or_fallback raw d)
  long_EndsWithin page_end offset raw none h = if_EndsWithin (fallback_stops_block raw)
    where
      if_EndsWithin :
          (c : Bool) → EndsWithin page_end offset (if c then none else some (fallback raw, 4))
      if_EndsWithin true = tt
      if_EndsWithin false = (omega arith, h)
  long_EndsWithin page_end offset raw (some op) h = (omega arith, h)

  decode_at-EndsWithin :
      (s : b.unit.Bus) (pa page_end offset : ℕ)
      → EndsWithin page_end offset (decode_at b s pa page_end offset).0
  unfolding decode_at
  decode_at-EndsWithin s pa page_end offset =
      by_tests (ltb page_end (offset + 2)) _ (ltb page_end (offset + 4)) refl refl
    where
      low : ℕ
      low = (b.read_halfword s (pa + offset)).0

      s' : b.unit.Bus
      s' = (b.read_halfword s (pa + offset)).1

      high : ℕ
      high = (b.read_halfword s' (pa + offset + 2)).0

      raw : ℕ
      raw = bit_or low (high * 2 ^ 16)

      by_tests :
          (past short past_word : Bool)
          → ltb page_end (offset + 2) ≡ past
          → ltb page_end (offset + 4) ≡ past_word
          → EndsWithin page_end offset (
              let out : Option (Op × ℕ) × b.unit.Bus =
                if past
                then (none, s)
                else if short
                then (Option.map (λ op. (op, 2)) (decode_compressed low), s')
                else if past_word
                then (none, s')
                else (
                  or_fallback raw (decode_full raw),
                  (b.read_halfword s' (pa + offset + 2)).1,
                ) in
              out.0)
      by_tests true short past_word e e' = tt
      by_tests false true past_word e e' =
          short_EndsWithin page_end offset (decode_compressed low) (ground arith)
      by_tests false false true e e' = tt
      by_tests false false false e e' =
          long_EndsWithin page_end offset raw (decode_full raw) (ground arith)

  -- The instructions follow one another to the end, within the page and the count.
  abbrev Bounded : ℕ → ℕ → ℕ → List DecodedInsn × ℕ × b.unit.Bus → Type 0
  Bounded left page_end offset (ops, end_offset, s) =
      (length ops ≤ left) × Follow offset ops end_offset × (end_offset ≤ page_end)

  placed-Bounded :
      (last : Bool) (left page_end ilen : ℕ) (d : DecodedInsn) (s : b.unit.Bus)
      (next : b.unit.Bus → ℕ → List DecodedInsn × ℕ × b.unit.Bus)
      → d.ilen ≡ ilen
      → 0 < ilen
      → d.pc_off + ilen ≤ page_end
      → Bounded left page_end (d.pc_off + ilen) (next s (d.pc_off + ilen))
      → Bounded (suc left) page_end d.pc_off (placed b last d (d.pc_off + ilen) s next)
  placed-Bounded true left page_end ilen d s next e pos h ih =
      (omega arith, (refl, omega arith, omega arith), h)
  placed-Bounded false left page_end ilen d s next e pos h ih = (
    omega (arith, ih.0),
    (
      refl,
      omega arith,
      subst
          (λ (n : ℕ).
            Follow (d.pc_off + n) (next s (d.pc_off + ilen)).0 (next s (d.pc_off + ilen)).1)
          (sym e) ih.1,
    ),
    ih.2,
  )

  after_decoding-Bounded :
      (found : Option (Op × ℕ) × b.unit.Bus) (left page_end offset : ℕ)
      (next : b.unit.Bus → ℕ → List DecodedInsn × ℕ × b.unit.Bus)
      → offset ≤ page_end
      → EndsWithin page_end offset found.0
      → ((s : b.unit.Bus) (from : ℕ) → from ≤ page_end → Bounded left page_end from (next s from))
      → Bounded (suc left) page_end offset (after_decoding b found offset next)
  after_decoding-Bounded (none, s) left page_end offset next h w ih = (omega arith, refl, h)
  after_decoding-Bounded (some (op, ilen), s) left page_end offset next h w ih =
      placed-Bounded (is_terminator op) left page_end ilen _ s next refl w.0 w.1
        (ih s (offset + ilen) w.1)

  decode_ops-Bounded :
      (left : ℕ) (s : b.unit.Bus) (pa page_end offset : ℕ)
      → offset ≤ page_end
      → Bounded left page_end offset (decode_ops b left s pa page_end offset)
  unfolding decode_ops
  decode_ops-Bounded zero s pa page_end offset h = (omega arith, refl, h)
  decode_ops-Bounded (suc left) s pa page_end offset h =
      after_decoding-Bounded (decode_at b s pa page_end offset) left page_end offset _ h
        (decode_at-EndsWithin s pa page_end offset)
        (λ s' from k. decode_ops-Bounded left s' pa page_end from k)

  block_of-Bounded :
      (left page_end : ℕ) (r : List DecodedInsn × ℕ × b.unit.Bus) {block : Block}
      → Bounded left page_end 0 r
      → (block_of b r).0 ≡ some block
      → (0 < length block.ops)
        × (length block.ops ≤ left)
        × Follow 0 block.ops block.byte_len
        × (block.byte_len ≤ page_end)
  block_of-Bounded left page_end ([], n, s) h e = cc
  block_of-Bounded left page_end (d ∷ ops, n, s) {block} h e =
      subst
        (λ (k : Block).
          (0 < length k.ops)
          × (length k.ops ≤ left)
          × Follow 0 k.ops k.byte_len
          × (k.byte_len ≤ page_end))
        same (omega arith, h.0, h.1, h.2)
    where
      same : ◌≡◌ {A = Block} (record { ops = d ∷ ops; byte_len = n }) block
      same = cc

  -- A decoded block has 1 to 64 instructions, which stand one behind the other from its start to its
  -- length, and it ends in the page of the address where it starts.
  pub decode_block_bounds :
      (s : b.unit.Bus) (pa : ℕ) {block : Block}
      → pa < 2 ^ 64
      → (decode_block b s pa).0 ≡ some block
      → (0 < length block.ops)
        × (length block.ops ≤ 64)
        × Follow 0 block.ops block.byte_len
        × (pa % 2 ^ 12 + block.byte_len ≤ 2 ^ 12)
  unfolding decode_block
  decode_block_bounds s pa h e =
      let mask : bit_and pa 0xfff ≡ pa % 2 ^ 12 = and-mask 64 12 pa h in
      let page_end = 0x1000 - bit_and pa 0xfff in
      let found =
        block_of-Bounded 64 page_end (decode_ops b 64 s pa page_end 0)
          (decode_ops-Bounded 64 s pa page_end 0 (omega arith)) e in
      (found.0, found.1, found.2, omega (arith, found.3, mask))
