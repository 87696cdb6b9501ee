-- ===== src/Machine/Virtio/Queue/Ring.antt =====
-- The ring of available requests of crates/machine/src/virtio/mod.rs: each request is taken once, in order.
use vpod.Prelude.{
  ℕ, zero, suc, ◌+◌, ◌-◌, ◌*◌, ◌%◌, bit_and, ◌^◌, ◌<◌, true, false, ◌==◌, Option, none, some, ◌>>=◌,
  ◌≡◌, refl, ap, List, [], ◌∷◌, arith,
}
use vpod.Machine.Virtio.RamView
use vpod.Machine.Virtio.RamView.{RamView}
use vpod.Machine.Virtio.Queue.{VirtQueue, pop_avail}

abbrev ended : VirtQueue → Option ℕ → Option (VirtQueue × List ℕ) → Option (VirtQueue × List ℕ)
ended q none rest = some (q, [])
ended q (some head) rest = rest >>= λ r. some (r.0, head ∷ r.1)

-- The loop `while let Some(head) = pop_avail(ram)` on a RAM that does not change, for `turns` turns at most: the
-- requests taken, and the queue after a pop that gave none; nothing if the turns are used up.
unfoldable pub pop_all : ℕ → VirtQueue → RamView → Option (VirtQueue × List ℕ)
pop_all zero q ram = none
pop_all (suc turns) q ram =
    pop_avail q ram >>= λ popped. ended popped.0 popped.1 (pop_all turns popped.0 ram)

-- `n` entries of a ring from `position` on, which is a number of 16 bits.
abbrev pub entries : (ℕ → ℕ) → ℕ → ℕ → List ℕ
entries ring position zero = []
entries ring position (suc n) = ring position ∷ entries ring ((position + 1) % 2 ^ 16) n

-- How many requests wait, by the two positions of 16 bits.
abbrev pub waiting : ℕ → ℕ → ℕ
waiting avail_idx last_avail_idx = (avail_idx + 2 ^ 16 - last_avail_idx) % 2 ^ 16

-- Where the entry for a position stands: 2 bytes for each slot behind the first 4 bytes of the ring, and the slot is
-- the position masked by the size of the queue less one, on 16 bits.
abbrev pub entry_address : VirtQueue → ℕ → ℕ
entry_address q position =
    (q.avail_addr + 4 + bit_and position ((q.num % 2 ^ 16 + 2 ^ 16 - 1) % 2 ^ 16) * 2) % 2 ^ 64

-- The ring in RAM: the driver's position, and the entry for each position.
pub record Offers (q : VirtQueue) (ram : RamView) (avail_idx : ℕ) (ring : ℕ → ℕ) : Type 0 where
  pub is_ready : q.ready ≡ true
  pub position : RamView.read_u16 ram ((q.avail_addr + 2) % 2 ^ 64) ≡ some avail_idx
  pub entry :
      (position : ℕ)
      → position < 2 ^ 16
      → RamView.read_u16 ram (entry_address q position) ≡ some (ring position)

abbrev advanced : VirtQueue → VirtQueue
advanced q = record q { last_avail_idx = (q.last_avail_idx + 1) % 2 ^ 16 }

pop_avail_empty :
    (q : VirtQueue) (ram : RamView) (avail_idx : ℕ) (ring : ℕ → ℕ)
    → Offers q ram avail_idx ring
    → (q.last_avail_idx == avail_idx) ≡ true
    → pop_avail q ram ≡ some (q, none)
unfolding pop_avail
pop_avail_empty q ram avail_idx ring o same = rw (o.is_ready, o.position, same) refl

pop_avail_next :
    (q : VirtQueue) (ram : RamView) (avail_idx : ℕ) (ring : ℕ → ℕ)
    → Offers q ram avail_idx ring
    → q.last_avail_idx < 2 ^ 16
    → (q.last_avail_idx == avail_idx) ≡ false
    → pop_avail q ram ≡ some (advanced q, some (ring q.last_avail_idx))
unfolding pop_avail
pop_avail_next q ram avail_idx ring o k differ =
    rw (o.is_ready, o.position, differ, o.entry q.last_avail_idx k) refl

-- On a queue that is ready, with positions of 16 bits and a ring that reads within the RAM, popping
-- until there is nothing left ends after one turn more than requests wait. It takes each of them
-- once, in the order of the ring, also where the positions wrap around, and leaves the queue at the
-- position of the driver.
pub pop_all-entries :
    (n : ℕ) (q : VirtQueue) (ram : RamView) (avail_idx : ℕ) (ring : ℕ → ℕ)
    → Offers q ram avail_idx ring
    → avail_idx < 2 ^ 16
    → q.last_avail_idx < 2 ^ 16
    → waiting avail_idx q.last_avail_idx ≡ n
    → pop_all (suc n) q ram
      ≡ some (record q { last_avail_idx = avail_idx }, entries ring q.last_avail_idx n)
unfolding pop_all
pop_all-entries zero q ram avail_idx ring o h k e =
    let same : q.last_avail_idx ≡ avail_idx = omega arith in
    rw (pop_avail_empty q ram avail_idx ring o (ground arith))
      (ap (λ (t : ℕ). some (record q { last_avail_idx = t }, [])) same)
pop_all-entries (suc n) q ram avail_idx ring o h k e =
    let rest =
      pop_all-entries n (advanced q) ram avail_idx ring
        (record { is_ready = o.is_ready; position = o.position; entry = o.entry }) h (omega arith)
        (omega arith) in
    rw (pop_avail_next q ram avail_idx ring o k (ground arith))
      (ap (λ r. r >>= λ t. some (t.0, ring q.last_avail_idx ∷ t.1)) rest)
