-- ===== src/Machine/Virtio/Mmio/Words.antt =====
-- The widths of the registers and of the queues of crates/machine/src/virtio/mod.rs.
use vpod.Prelude.{
  ℕ, zero, suc, ◌+◌, ◌*◌, ◌%◌, ◌^◌, ◌<◌, ◌≤◌, bit_and, bit_not, ltb, some, List, [], ◌∷◌, ◌++◌,
  length, get_elem?, set, replicate, length-replicate, take, drop, length-take, length-drop,
  length-append, Bool-cases, inl, inr, ◌≡◌, refl, ◌∙◌, arith,
}
use vpod.Bits.{and-le, or-lt}
use vpod.Stream.{to_le_bytes, length-to_le_bytes}
use vpod.Machine.Virtio.Queue.{VirtQueue, default}
use vpod.Machine.Virtio.RamView.{splice}
use vpod.Machine.Virtio.Mmio.{
  VirtioMmio, reset, write_config, write_queue, write_register, set_lo, set_hi,
}

-- The fields of a queue fit their words.
pub record IsQueue (q : VirtQueue) : Type 0 where
  pub num_lt : q.num < 2 ^ 32
  pub last_avail_idx_lt : q.last_avail_idx < 2 ^ 16
  pub desc_addr_lt : q.desc_addr < 2 ^ 64
  pub avail_addr_lt : q.avail_addr < 2 ^ 64
  pub used_addr_lt : q.used_addr < 2 ^ 64

abbrev pub AllQueues : List VirtQueue → Type 0
AllQueues [] = 0 ≤ 0
AllQueues (q ∷ qs) = IsQueue q × AllQueues qs

-- The registers fit their words, the queues are the four of the array, the device uses one to four of them, and the
-- queue selected is one of these.
pub record IsValid (m : VirtioMmio) : Type 0 where
  pub device_id_lt : m.device_id < 2 ^ 32
  pub driver_features_lt : m.driver_features < 2 ^ 64
  pub status_lt : m.status < 2 ^ 32
  pub int_status_lt : m.int_status < 2 ^ 32
  pub config_gen_lt : m.config_gen < 2 ^ 32
  pub some_queue : 0 < m.num_queues
  pub most_queues : m.num_queues ≤ 4
  pub four : length m.queues ≡ 4
  pub selects : m.queue_sel < m.num_queues
  pub config_size : length m.config ≡ 64
  pub all_queues : AllQueues m.queues

pub set_lo-lt : (field val : ℕ) → field < 2 ^ 64 → val < 2 ^ 32 → set_lo field val < 2 ^ 64
set_lo-lt field val h k =
    or-lt 64 (bit_and field (bit_not 64 0xffffffff)) val
      (omega (arith, and-le 64 field (bit_not 64 0xffffffff) h)) (omega arith)

pub set_hi-lt : (field val : ℕ) → field < 2 ^ 64 → val < 2 ^ 32 → set_hi field val < 2 ^ 64
set_hi-lt field val h k =
    or-lt 64 (bit_and field 0xffffffff) (val * 2 ^ 32 % 2 ^ 64)
      (omega (arith, and-le 64 field 0xffffffff h)) (omega arith)

pub write_queue-IsQueue :
    (q : VirtQueue) (offset val : ℕ) → IsQueue q → val < 2 ^ 32 → IsQueue (write_queue q offset val)
unfolding write_queue
write_queue-IsQueue q offset val v h = ground (
  arith,
  set_lo-lt q.desc_addr val v.desc_addr_lt h,
  set_hi-lt q.desc_addr val v.desc_addr_lt h,
  set_lo-lt q.avail_addr val v.avail_addr_lt h,
  set_hi-lt q.avail_addr val v.avail_addr_lt h,
  set_lo-lt q.used_addr val v.used_addr_lt h,
  set_hi-lt q.used_addr val v.used_addr_lt h,
)

pub get_elem?-some :
    (qs : List VirtQueue) (i : ℕ)
    → AllQueues qs
    → i < length qs
    → (q : VirtQueue) × (get_elem? qs i ≡ some q) × IsQueue q
get_elem?-some [] i v h = absurd (omega arith)
get_elem?-some (q ∷ qs) zero v h = (q, refl, v.0)
get_elem?-some (q ∷ qs) (suc i) v h = get_elem?-some qs i v.1 (omega arith)

pub set-AllQueues :
    (qs : List VirtQueue) (i : ℕ) (q : VirtQueue)
    → AllQueues qs
    → IsQueue q
    → AllQueues (set qs i q)
set-AllQueues [] i q v w = v
set-AllQueues (p ∷ qs) zero q v w = (w, v.1)
set-AllQueues (p ∷ qs) (suc i) q v w = (v.0, set-AllQueues qs i q v.1 w)

pub replicate-AllQueues : (n : ℕ) → AllQueues (replicate n default)
replicate-AllQueues zero = omega arith
replicate-AllQueues (suc n) = (
  record {
    num_lt = omega arith;
    last_avail_idx_lt = omega arith;
    desc_addr_lt = omega arith;
    avail_addr_lt = omega arith;
    used_addr_lt = omega arith;
  },
  replicate-AllQueues n,
)

reset-IsValid : (m : VirtioMmio) → IsValid m → IsValid (reset m)
unfolding reset
reset-IsValid m v = record {
  device_id_lt = v.device_id_lt;
  driver_features_lt = omega arith;
  status_lt = v.status_lt;
  int_status_lt = omega arith;
  config_gen_lt = v.config_gen_lt;
  some_queue = v.some_queue;
  most_queues = v.most_queues;
  four = length-replicate (length m.queues) default ∙ v.four;
  selects = v.some_queue;
  config_size = v.config_size;
  all_queues = replicate-AllQueues (length m.queues);
}

status-IsValid :
    (m : VirtioMmio) (val : ℕ) → IsValid m → val < 2 ^ 32 → IsValid (record m { status = val })
status-IsValid m val v h = record {
  device_id_lt = v.device_id_lt;
  driver_features_lt = v.driver_features_lt;
  status_lt = h;
  int_status_lt = v.int_status_lt;
  config_gen_lt = v.config_gen_lt;
  some_queue = v.some_queue;
  most_queues = v.most_queues;
  four = v.four;
  selects = v.selects;
  config_size = v.config_size;
  all_queues = v.all_queues;
}

pub write_register-IsValid :
    (m : VirtioMmio) (offset val : ℕ)
    → IsValid m
    → val < 2 ^ 32
    → IsValid (write_register m offset val)
unfolding write_register
write_register-IsValid m offset val v h = ground (
  arith,
  reset-IsValid (record m { status = val }) (status-IsValid m val v h),
  set_lo-lt m.driver_features val v.driver_features_lt h,
  set_hi-lt m.driver_features val v.driver_features_lt h,
  and-le 32 m.int_status (bit_not 32 val) v.int_status_lt,
)

length-splice :
    (buffer : List ℕ) (offset : ℕ) (bytes : List ℕ)
    → offset + length bytes ≤ length buffer
    → length (splice buffer offset bytes) ≡ length buffer
length-splice buffer offset bytes h =
    length-append (take offset buffer ++ bytes) (drop (offset + length bytes) buffer)
    ∙ omega (
      arith,
      length-append (take offset buffer) bytes,
      length-take offset buffer,
      length-drop (offset + length bytes) buffer,
    )

write_config-size :
    (m : VirtioMmio) (i val : ℕ) → length (write_config m i val).config ≡ length m.config
write_config-size m i val = elim (Bool-cases (ltb (i + 3) (length m.config))) [
  | inl within ↦
      rw within
        (length-splice m.config i (to_le_bytes 4 val) (ground (arith, length-to_le_bytes 4 val)))
  | inr beyond ↦ rw beyond refl
]

pub write_config-IsValid : (m : VirtioMmio) (i val : ℕ) → IsValid m → IsValid (write_config m i val)
write_config-IsValid m i val v = ground (arith, write_config-size m i val)

pub queues-IsValid :
    (m : VirtioMmio) (qs : List VirtQueue)
    → IsValid m
    → length qs ≡ length m.queues
    → AllQueues qs
    → IsValid (record m { queues = qs })
queues-IsValid m qs v same all = ground (arith, v.four)
