-- ===== src/Machine/Virtio/Queue/Used.antt =====
-- The ring of used requests of crates/machine/src/virtio/mod.rs.
use native.Mathlib.Nat.{mod-eq_of_lt}
use vpod.Prelude.{ℕ, ◌+◌, ◌-◌, ◌*◌, ◌%◌, ◌^◌, ◌<◌, ◌≤◌, some, ◌≡◌, ◌∙◌, inl, inr, arith}
use vpod.Bits.{and_le_right, pow_lt}
use vpod.Stream.{to_le_bytes, length-to_le_bytes}
use vpod.Machine.Virtio.RamView.{RamView}
use vpod.Machine.Virtio.RamView.Access.{
  IsPlain, InRam, word_at, reads-word_at, write_u16-Stores, write_u32-Stores, word_at-IsStored,
  word_at_beside,
}
use vpod.Machine.Virtio.Queue.{VirtQueue, push_used, slot_of}

-- A used ring of `num` entries within the RAM.
pub record HasUsedRing (k : ℕ) (q : VirtQueue) : Type 0 where
  pub some_entry : 0 < q.num
  pub size : q.num ≤ 2 ^ 15
  pub ring : InRam k q.used_addr (4 + 8 * q.num)

-- Where the entry for a position stands.
abbrev pub used_entry : VirtQueue → ℕ → ℕ
used_entry q position = q.used_addr + 4 + slot_of q position * 8

slot-lt :
    (q : VirtQueue) (position : ℕ)
    → 0 < q.num
    → q.num ≤ 2 ^ 15
    → position < 2 ^ 16
    → slot_of q position < q.num
slot-lt q position pos h b =
    omega (arith, and_le_right 16 position ((q.num % 2 ^ 16 + 2 ^ 16 - 1) % 2 ^ 16) b)

-- A push of a used request, with nothing staged, on a ring of up to 2 ^ 15 entries within the RAM,
-- with a position of 16 bits, values of 32 bits and 24 epochs left, is made; the entry at the
-- position of the device then holds the request and its length, and the position has advanced by
-- one, on 16 bits.
pub push_used-reads :
    (k : ℕ) (q : VirtQueue) (v : RamView) (desc_idx len : ℕ)
    → IsPlain k v
    → HasUsedRing k q
    → v.memory.epoch_source + 24 < 2 ^ 64
    → word_at v 2 (q.used_addr + 2) < 2 ^ 16
    → desc_idx < 2 ^ 32
    → len < 2 ^ 32
    → let entry = used_entry q (word_at v 2 (q.used_addr + 2)) in
      (v' : RamView) × (push_used q v desc_idx len ≡ some v')
      × (word_at v' 2 (q.used_addr + 2) ≡ (word_at v 2 (q.used_addr + 2) + 1) % 2 ^ 16)
      × (word_at v' 4 entry ≡ desc_idx)
      × (word_at v' 4 (entry + 4) ≡ len)
      × IsPlain k v'
unfolding push_used
push_used-reads k q v desc_idx len p r e u d l =
    let position = word_at v 2 (q.used_addr + 2) in
    let slot : slot_of q position < q.num = slot-lt q position r.some_entry r.size u in
    let entry = used_entry q position in
    let top : 2 ^ k < 2 ^ 63 = pow_lt k 63 p.power in
    let in_entry : InRam k entry 4 = (omega (arith, r.ring.0), omega (arith, r.ring.1)) in
    let in_length : InRam k (entry + 4) 4 = (omega (arith, r.ring.0), omega (arith, r.ring.1)) in
    let in_index : InRam k (q.used_addr + 2) 2 =
      (omega (arith, r.ring.0), omega (arith, r.ring.1)) in
    let read = reads-word_at k v (q.used_addr + 2) 2 p (omega arith) in_index in
    let first = write_u32-Stores k v entry desc_idx p (omega arith) in_entry in
    let second =
      write_u32-Stores k first.0 (entry + 4) len first.2.plain
        (omega (arith, first.2.drawn, length-to_le_bytes 4 desc_idx)) in_length in
    let third =
      write_u16-Stores k second.0 (q.used_addr + 2) ((position + 1) % 2 ^ 16) second.2.plain
        (omega (
          arith,
          first.2.drawn,
          second.2.drawn,
          length-to_le_bytes 4 desc_idx,
          length-to_le_bytes 4 len,
        ))
        in_index in
    let keep_2 = word_at_beside k second.0 third.0 (q.used_addr + 2) 4 in
    (
      third.0,
      rw
          (
            mod-eq_of_lt {n = q.used_addr + 2} {m = 2 ^ 64} (omega (arith, r.ring.0, r.ring.1)),
            read.0,
            mod-eq_of_lt {n = entry} {m = 2 ^ 64} (omega (arith, r.ring.0, r.ring.1)),
            first.1,
            mod-eq_of_lt {n = entry + 4} {m = 2 ^ 64} (omega (arith, r.ring.0, r.ring.1)),
            second.1,
          )
          third.1,
      word_at-IsStored k second.0 third.0 (q.used_addr + 2) 2 ((position + 1) % 2 ^ 16) third.2
          (omega arith),
      keep_2 entry (to_le_bytes 2 ((position + 1) % 2 ^ 16)) third.2 in_index.0 in_entry.0
            (inr (omega (arith, length-to_le_bytes 2 ((position + 1) % 2 ^ 16))))
          ∙ word_at_beside k first.0 second.0 (entry + 4) 4 entry (to_le_bytes 4 len) second.2
              in_length.0 in_entry.0 (inl (omega arith))
          ∙ word_at-IsStored k v first.0 entry 4 desc_idx first.2 (omega arith),
      keep_2 (entry + 4) (to_le_bytes 2 ((position + 1) % 2 ^ 16)) third.2 in_index.0 in_length.0
            (inr (omega (arith, length-to_le_bytes 2 ((position + 1) % 2 ^ 16))))
          ∙ word_at-IsStored k first.0 second.0 (entry + 4) 4 len second.2 (omega arith),
      third.2.plain,
    )
