-- ===== src/Machine/Virtio/Blk/Chain.antt =====
-- The loop over the descriptors of a request, of crates/machine/src/virtio/blk.rs.
use vpod.Prelude.{
  ℕ, zero, suc, ◌≤◌, true, false, has, if◌then◌else◌, Bool-cases, inl, inr, some, List, [], ◌∷◌,
  length, get_elem?, ◌≡◌, refl, ap, arith,
}
use vpod.Bits.{bit}
use vpod.Bits.Masks.{has_pow}
use vpod.Machine.Virtio.{done, unfinished}
use vpod.Machine.Virtio.RamView.{RamView}
use vpod.Machine.Virtio.Queue.{VirtQueue, VirtDesc, read_desc, pop_avail}
use vpod.Machine.Virtio.Blk.{
  VirtioBlk, Buffer, add_desc, vring_desc_f_write, collect, process_request, answer_head, notify,
  vring_desc_f_next,
}

-- A chain of descriptors in the RAM from one on: bit 0 of the flags says whether there is a next one.
pub data Chain (q : VirtQueue) (ram : RamView) : VirtDesc → List VirtDesc → Type 0 where
  last : {desc : VirtDesc} → bit desc.flags 0 ≡ false → Chain q ram desc (desc ∷ [])
  link :
      {desc next : VirtDesc} {chain : List VirtDesc}
      → bit desc.flags 0 ≡ true
      → read_desc q ram desc.next ≡ some next
      → Chain q ram next chain
      → Chain q ram desc (desc ∷ chain)

-- The buffers that the device reads, bit 1 of the flags clear, and those that it writes, bit 1 set.
unfoldable pub readable : List VirtDesc → List Buffer
readable [] = []
readable (desc ∷ chain) =
    let rest = readable chain in if bit desc.flags 1 then rest else (desc.addr, desc.len) ∷ rest

unfoldable pub writable : List VirtDesc → List Buffer
writable [] = []
writable (desc ∷ chain) =
    let rest = writable chain in if bit desc.flags 1 then (desc.addr, desc.len) ∷ rest else rest

-- The tests of the code are those of the bits.
pub has_next : (desc : VirtDesc) → has desc.flags vring_desc_f_next ≡ bit desc.flags 0
has_next desc = has_pow desc.flags 0

pub has_write : (desc : VirtDesc) → has desc.flags vring_desc_f_write ≡ bit desc.flags 1
has_write desc = has_pow desc.flags 1

add_desc_lem :
    (desc : VirtDesc) (chain : List VirtDesc)
    → add_desc desc (record { read_bufs = readable chain; write_bufs = writable chain })
      ≡ record { read_bufs = readable (desc ∷ chain); write_bufs = writable (desc ∷ chain) }
unfolding readable writable
add_desc_lem desc chain =
    rw (has_write desc)
      (elim (Bool-cases (bit desc.flags 1)) [ inl e ↦ rw e refl | inr e ↦ rw e refl ])

-- The loop over a chain that ends is finished after as many turns as it has descriptors, and gives
-- the buffers to read, those of the descriptors with bit 1 of the flags clear, and the buffers to write, those of the
-- others, each in the order of the chain.
pub collect-Chain :
    (turns : ℕ) (q : VirtQueue) (ram : RamView) (desc : VirtDesc) (chain : List VirtDesc)
    → Chain q ram desc chain
    → length chain ≤ turns
    → collect turns q ram desc
      ≡ done (record { read_bufs = readable chain; write_bufs = writable chain })
unfolding collect
collect-Chain zero q ram desc chain (last e) h = absurd (omega arith)
collect-Chain zero q ram desc chain (link e f c) h = absurd (omega arith)
collect-Chain (suc turns) q ram desc chain (last e) h =
    rw (has_next desc, e) (ap done (unfold readable writable in add_desc_lem desc []))
collect-Chain (suc turns) q ram desc chain (link {next} {chain = rest} e f c) h =
    rw (has_next desc, e, f, collect-Chain turns q ram next rest c (omega arith))
      (ap done (add_desc_lem desc rest))

-- Descriptors among which every one leads to another of them.
abbrev pub Leads : VirtQueue → RamView → (VirtDesc → Type 0) → Type 0
Leads q ram P =
    (desc : VirtDesc)
    → P desc
    → (has desc.flags vring_desc_f_next ≡ true)
      × ((next : VirtDesc) × (read_desc q ram desc.next ≡ some next) × P next)

collect_cycle :
    (turns : ℕ) (q : VirtQueue) (ram : RamView) (P : VirtDesc → Type 0) (desc : VirtDesc)
    → Leads q ram P
    → P desc
    → collect turns q ram desc ≡ unfinished
unfolding collect
collect_cycle zero q ram P desc l p = refl
collect_cycle (suc turns) q ram P desc l p =
    let step = l desc p in
    rw (step.0, step.1.1, collect_cycle turns q ram P step.1.0 l step.1.2) refl

-- Where the next request of queue 0 is a descriptor from which the chain never ends, as each one
-- leads to another, the device never finishes: `notify` is unfinished after any number of turns.
pub notify_cycle :
    (requests turns : ℕ) (blk : VirtioBlk) (ram : RamView) (q q' : VirtQueue) (head : ℕ)
    (desc : VirtDesc) (P : VirtDesc → Type 0)
    → get_elem? blk.mmio.queues 0 ≡ some q
    → pop_avail q ram ≡ some (q', some head)
    → read_desc q' ram head ≡ some desc
    → Leads q' ram P
    → P desc
    → notify requests turns blk ram ≡ unfinished
unfolding notify answer_head process_request
notify_cycle zero turns blk ram q q' head desc P e f g l p = refl
notify_cycle (suc requests) turns blk ram q q' head desc P e f g l p =
    rw (e, f, g, collect_cycle turns q' ram P desc l p) refl
