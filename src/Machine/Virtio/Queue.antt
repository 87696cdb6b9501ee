-- ===== src/Machine/Virtio/Queue.antt =====
-- `VirtQueue` and `VirtDesc` of crates/machine/src/virtio/mod.rs: a queue of requests in the guest's RAM.
-- `none` is the panic of an access past the pages of the RAM.
pub mod Ring
pub mod Used
use vpod.Prelude.{
  ℕ, ◌+◌, ◌-◌, ◌*◌, ◌%◌, ◌^◌, bit_and, Bool, true, false, ◌==◌, if◌then◌else◌, Option, none, some,
  ◌>>=◌,
}
use vpod.Machine.Virtio.RamView
use vpod.Machine.Virtio.RamView.{RamView}

pub record VirtQueue : Type 0 where
  pub ready : Bool
  pub num : ℕ
  pub last_avail_idx : ℕ
  pub desc_addr : ℕ
  pub avail_addr : ℕ
  pub used_addr : ℕ

-- `VirtQueue::default()`
abbrev pub default : VirtQueue
default = record {
  ready = false;
  num = 0;
  last_avail_idx = 0;
  desc_addr = 0;
  avail_addr = 0;
  used_addr = 0;
}

pub record VirtDesc : Type 0 where
  pub addr : ℕ
  pub len : ℕ
  pub flags : ℕ
  pub next : ℕ

unfoldable pub read_desc : VirtQueue → RamView → ℕ → Option VirtDesc
read_desc q ram idx =
    let base = (q.desc_addr + idx * 16) % 2 ^ 64 in
    RamView.read_u64 ram base >>= λ addr. RamView.read_u32 ram ((base + 8) % 2 ^ 64) >>= λ len.
    RamView.read_u16 ram ((base + 12) % 2 ^ 64) >>= λ flags.
    RamView.read_u16 ram ((base + 14) % 2 ^ 64) >>= λ next.
    some (record { addr = addr; len = len; flags = flags; next = next })

-- `position & (self.num as u16 - 1)`: the slot of a position in a ring.
abbrev pub slot_of : VirtQueue → ℕ → ℕ
slot_of q position = bit_and position ((q.num % 2 ^ 16 + 2 ^ 16 - 1) % 2 ^ 16)

-- Where slot `ring_slot` of the ring of available requests stands.
abbrev pub avail_entry : VirtQueue → ℕ → ℕ
avail_entry q ring_slot = (q.avail_addr + 4 + ring_slot * 2) % 2 ^ 64

unfoldable pub pop_avail : VirtQueue → RamView → Option (VirtQueue × Option ℕ)
pop_avail q ram =
    let popped = RamView.read_u16 ram ((q.avail_addr + 2) % 2 ^ 64) >>= λ avail_idx.
    if q.last_avail_idx == avail_idx
    then some (q, none)
    else (RamView.read_u16 ram (avail_entry q (slot_of q q.last_avail_idx)) >>= λ desc_idx.
        some (record q { last_avail_idx = (q.last_avail_idx + 1) % 2 ^ 16 }, some desc_idx)) in
    if q.ready then popped else some (q, none)

unfoldable pub push_used : VirtQueue → RamView → ℕ → ℕ → Option RamView
push_used q ram desc_idx len = RamView.read_u16 ram ((q.used_addr + 2) % 2 ^ 64) >>= λ used_idx.
    let entry_addr = (q.used_addr + 4 + slot_of q used_idx * 8) % 2 ^ 64 in
    RamView.write_u32 ram entry_addr desc_idx >>= λ ram.
    RamView.write_u32 ram ((entry_addr + 4) % 2 ^ 64) len >>= λ ram.
    RamView.write_u16 ram ((q.used_addr + 2) % 2 ^ 64) ((used_idx + 1) % 2 ^ 16)
