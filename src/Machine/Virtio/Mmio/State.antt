-- ===== src/Machine/Virtio/Mmio/State.antt =====
-- The registers of crates/machine/src/virtio/mod.rs keep their widths and the selected queue in range, whatever
-- the guest writes.
use vpod.Prelude.{
  ℕ, ◌^◌, ◌<◌, ◌≤◌, false, leb, Option, none, some, ◌>>=◌, List, [], ◌∷◌, ◌≡◌, refl, arith,
}
use vpod.Machine.Virtio.Queue.{VirtQueue}
use vpod.Machine.Virtio.Mmio.{VirtioMmio, new, read, read_register, write, selected}
use vpod.Machine.Virtio.Mmio.Words.{IsValid, get_elem?-some, replicate-AllQueues}

-- A notification is of a queue that the device uses.
abbrev pub Notifies : VirtioMmio → Option ℕ → Type 0
Notifies m none = 0 ≤ 0
Notifies m (some queue) = queue < m.num_queues

-- A write to a valid device is made.
abbrev pub Accepts : VirtioMmio → Option (VirtioMmio × Option ℕ) → Type 0
Accepts m r =
    (m' : VirtioMmio) × (queue : Option ℕ) × (r ≡ some (m', queue))
    × IsValid m'
    × (m'.num_queues ≡ m.num_queues)
    × Notifies m queue

abbrev note : Option ℕ → List ℕ → List ℕ
note none queues = queues
note (some queue) queues = queue ∷ queues

-- The notifications of the guest's writes, each an offset and a value, and the device after them.
unfoldable pub run_writes : VirtioMmio → List (ℕ × ℕ) → Option (VirtioMmio × List ℕ)
run_writes m [] = some (m, [])
run_writes m ((offset, val) ∷ writes) =
    write m offset val >>= λ w. run_writes w.0 writes >>= λ rest. some (rest.0, note w.1 rest.1)

abbrev pub AllBelow : ℕ → List ℕ → Type 0
AllBelow b [] = 0 ≤ 0
AllBelow b (x ∷ xs) = (x < b) × AllBelow b xs

abbrev pub AllWords : List (ℕ × ℕ) → Type 0
AllWords [] = 0 ≤ 0
AllWords ((offset, val) ∷ writes) = (val < 2 ^ 32) × AllWords writes

abbrev pub Runs : VirtioMmio → List (ℕ × ℕ) → Type 0
Runs m writes =
    (m' : VirtioMmio) × (queues : List ℕ) × (run_writes m writes ≡ some (m', queues))
    × IsValid m'
    × AllBelow m.num_queues queues

read_register-lt :
    (m : VirtioMmio) (q : VirtQueue) (offset : ℕ) → IsValid m → read_register m q offset < 2 ^ 32
unfolding read_register
read_register-lt m q offset v = ground arith

-- A register of a valid device reads as a number of 32 bits, with no panic.
pub read-lt :
    (m : VirtioMmio) (offset : ℕ)
    → IsValid m
    → offset < 0x100
    → (x : ℕ) × (read m offset ≡ some x) × (x < 2 ^ 32)
unfolding read
read-lt m offset v h =
    let q =
      get_elem?-some m.queues (selected m) v.all_queues
        (omega (arith, v.selects, v.four, v.most_queues)) in
    let register : leb 0x100 offset ≡ false = ground arith in
    (read_register m q.0 offset, rw (register, q.1) refl, read_register-lt m q.0 offset v)

-- A new device is valid.
pub new-IsValid :
    (device_id device_features num_queues : ℕ)
    → device_id < 2 ^ 32
    → 0 < num_queues
    → num_queues ≤ 4
    → IsValid (new device_id device_features num_queues)
unfolding new
new-IsValid device_id device_features num_queues h pos most = record {
  device_id_lt = h;
  driver_features_lt = omega arith;
  status_lt = omega arith;
  int_status_lt = omega arith;
  config_gen_lt = omega arith;
  some_queue = pos;
  most_queues = most;
  four = refl;
  selects = pos;
  config_size = refl;
  all_queues = replicate-AllQueues 4;
}
