-- ===== src/Machine/Virtio/Mmio.antt =====
-- `VirtioMmio` of crates/machine/src/virtio/mod.rs: the registers of a virtio device. `none` is the panic of an index
-- out of range or of a division by 0.
pub mod Save
pub mod Words
pub mod State
pub mod Registers
pub mod RoundTrip
use vpod.Prelude.{
  ℕ, zero, suc, ◌+◌, ◌-◌, ◌*◌, ◌/◌, ◌%◌, ◌^◌, bit_and, bit_or, bit_not, min, Bool, true, false, not,
  ◌||◌, ltb, leb, ◌==◌, if◌then◌else◌, Option, none, some, ◌>>=◌, List, [], ◌∷◌, ◌++◌, length,
  get_elem?, set, take, drop, replicate,
}
use vpod.Stream.{Restored, restored, ended, field, to_le_bytes, from_le_bytes}
use vpod.Machine.Virtio.RamView.{splice}
use vpod.Machine.Virtio.Queue.{VirtQueue, default}

abbrev pub mmio_magic : ℕ
mmio_magic = 0x000

abbrev pub mmio_version : ℕ
mmio_version = 0x004

abbrev pub mmio_device_id : ℕ
mmio_device_id = 0x008

abbrev pub mmio_vendor_id : ℕ
mmio_vendor_id = 0x00c

abbrev pub mmio_device_features : ℕ
mmio_device_features = 0x010

abbrev pub mmio_device_features_sel : ℕ
mmio_device_features_sel = 0x014

abbrev pub mmio_driver_features : ℕ
mmio_driver_features = 0x020

abbrev pub mmio_driver_features_sel : ℕ
mmio_driver_features_sel = 0x024

abbrev pub mmio_queue_sel : ℕ
mmio_queue_sel = 0x030

abbrev pub mmio_queue_num_max : ℕ
mmio_queue_num_max = 0x034

abbrev pub mmio_queue_num : ℕ
mmio_queue_num = 0x038

abbrev pub mmio_queue_ready : ℕ
mmio_queue_ready = 0x044

abbrev pub mmio_queue_notify : ℕ
mmio_queue_notify = 0x050

abbrev pub mmio_interrupt_status : ℕ
mmio_interrupt_status = 0x060

abbrev pub mmio_interrupt_ack : ℕ
mmio_interrupt_ack = 0x064

abbrev pub mmio_status : ℕ
mmio_status = 0x070

abbrev pub mmio_queue_desc_low : ℕ
mmio_queue_desc_low = 0x080

abbrev pub mmio_queue_desc_high : ℕ
mmio_queue_desc_high = 0x084

abbrev pub mmio_queue_avail_low : ℕ
mmio_queue_avail_low = 0x090

abbrev pub mmio_queue_avail_high : ℕ
mmio_queue_avail_high = 0x094

abbrev pub mmio_queue_used_low : ℕ
mmio_queue_used_low = 0x0a0

abbrev pub mmio_queue_used_high : ℕ
mmio_queue_used_high = 0x0a4

abbrev pub mmio_config_generation : ℕ
mmio_config_generation = 0x0fc

abbrev pub mmio_config : ℕ
mmio_config = 0x100

abbrev pub mmio_magic_value : ℕ
mmio_magic_value = 0x74726976

abbrev pub mmio_version_value : ℕ
mmio_version_value = 2

abbrev pub queue_num_max : ℕ
queue_num_max = 256

abbrev pub max_queues : ℕ
max_queues = 4

-- `field as u32` and `(field >> 32) as u32`
abbrev pub lo : ℕ → ℕ
lo field = field % 2 ^ 32

abbrev pub hi : ℕ → ℕ
hi field = field / 2 ^ 32 % 2 ^ 32

abbrev pub set_lo : ℕ → ℕ → ℕ
set_lo field val = bit_or (bit_and field (bit_not 64 0xffffffff)) val

abbrev pub set_hi : ℕ → ℕ → ℕ
set_hi field val = bit_or (bit_and field 0xffffffff) (val * 2 ^ 32 % 2 ^ 64)

pub record VirtioMmio : Type 0 where
  pub device_id : ℕ
  pub device_features : ℕ
  pub driver_features : ℕ
  pub device_features_sel : ℕ
  pub driver_features_sel : ℕ
  pub status : ℕ
  pub int_status : ℕ
  pub queue_sel : ℕ
  pub queues : List VirtQueue
  pub config : List ℕ
  pub config_gen : ℕ
  pub num_queues : ℕ

unfoldable pub new : ℕ → ℕ → ℕ → VirtioMmio
new device_id device_features num_queues = record {
  device_id = device_id;
  device_features = device_features;
  driver_features = 0;
  device_features_sel = 0;
  driver_features_sel = 0;
  status = 0;
  int_status = 0;
  queue_sel = 0;
  queues = replicate max_queues default;
  config = replicate 64 0;
  config_gen = 0;
  num_queues = num_queues;
}

-- `self.queue_sel.min(self.num_queues - 1)`
abbrev pub selected : VirtioMmio → ℕ
selected m = min m.queue_sel ((m.num_queues + 2 ^ 64 - 1) % 2 ^ 64)

-- The arms of a read.
unfoldable pub read_register : VirtioMmio → VirtQueue → ℕ → ℕ
read_register m q offset =
    if offset == mmio_magic
    then mmio_magic_value
    else if offset == mmio_version
    then mmio_version_value
    else if offset == mmio_device_id
    then m.device_id
    else if offset == mmio_vendor_id
    then 0xffffffff
    else if offset == mmio_device_features
    then (if m.device_features_sel == 0 then lo m.device_features else hi m.device_features)
    else if offset == mmio_queue_num_max
    then queue_num_max
    else if offset == mmio_queue_ready
    then (if q.ready then 1 else 0)
    else if offset == mmio_interrupt_status
    then m.int_status
    else if offset == mmio_status
    then m.status
    else if offset == mmio_queue_desc_low
    then lo q.desc_addr
    else if offset == mmio_queue_desc_high
    then hi q.desc_addr
    else if offset == mmio_queue_avail_low
    then lo q.avail_addr
    else if offset == mmio_queue_avail_high
    then hi q.avail_addr
    else if offset == mmio_queue_used_low
    then lo q.used_addr
    else if offset == mmio_queue_used_high
    then hi q.used_addr
    else if offset == mmio_config_generation
    then m.config_gen
    else 0

unfoldable pub read : VirtioMmio → ℕ → Option ℕ
read m offset =
    if leb mmio_config offset
    then some (
        let i = offset - mmio_config in
        if ltb (i + 3) (length m.config) then from_le_bytes (take 4 (drop i m.config)) else 0)
    else (get_elem? m.queues (selected m) >>= λ q. some (read_register m q offset))

unfoldable pub reset : VirtioMmio → VirtioMmio
reset m = record m {
  driver_features = 0;
  int_status = 0;
  queue_sel = 0;
  queues = replicate (length m.queues) default;
}

-- The arms that write the queue selected.
unfoldable pub write_queue : VirtQueue → ℕ → ℕ → VirtQueue
write_queue q offset val =
    if offset == mmio_queue_num
    then record q { num = val }
    else if offset == mmio_queue_ready
    then record q { ready = not (val == 0) }
    else if offset == mmio_queue_desc_low
    then record q { desc_addr = set_lo q.desc_addr val }
    else if offset == mmio_queue_desc_high
    then record q { desc_addr = set_hi q.desc_addr val }
    else if offset == mmio_queue_avail_low
    then record q { avail_addr = set_lo q.avail_addr val }
    else if offset == mmio_queue_avail_high
    then record q { avail_addr = set_hi q.avail_addr val }
    else if offset == mmio_queue_used_low
    then record q { used_addr = set_lo q.used_addr val }
    else record q { used_addr = set_hi q.used_addr val }

-- `value % self.num_queues`
abbrev pub rem_queues : VirtioMmio → ℕ → Option ℕ
rem_queues m value = if m.num_queues == 0 then none else some (value % m.num_queues)

-- The offsets of those arms.
unfoldable pub is_queue_register : ℕ → Bool
is_queue_register offset =
    offset == mmio_queue_num
    || offset == mmio_queue_ready
    || offset == mmio_queue_desc_low
    || offset == mmio_queue_desc_high
    || offset == mmio_queue_avail_low
    || offset == mmio_queue_avail_high
    || offset == mmio_queue_used_low
    || offset == mmio_queue_used_high

-- The arms that write a register of the device.
unfoldable pub write_register : VirtioMmio → ℕ → ℕ → VirtioMmio
write_register m offset val =
    if offset == mmio_device_features_sel
    then record m { device_features_sel = val }
    else if offset == mmio_driver_features
    then record m {
      driver_features =
          if m.driver_features_sel == 0
          then set_lo m.driver_features val
          else set_hi m.driver_features val;
    }
    else if offset == mmio_driver_features_sel
    then record m { driver_features_sel = val }
    else if offset == mmio_interrupt_ack
    then record m { int_status = bit_and m.int_status (bit_not 32 val) }
    else if offset == mmio_status
    then (let m = record m { status = val } in if val == 0 then reset m else m)
    else m

-- The arm of the device's own configuration.
abbrev pub write_config : VirtioMmio → ℕ → ℕ → VirtioMmio
write_config m i val =
    if ltb (i + 3) (length m.config)
    then record m { config = splice m.config i (to_le_bytes 4 val) }
    else m

-- The device after a write, and the queue that it notifies.
unfoldable pub write : VirtioMmio → ℕ → ℕ → Option (VirtioMmio × Option ℕ)
write m offset val =
    if leb mmio_config offset
    then some (write_config m (offset - mmio_config) val, none)
    else if offset == mmio_queue_sel
    then (rem_queues m val >>= λ sel. some (record m { queue_sel = sel }, none))
    else if offset == mmio_queue_notify
    then (rem_queues m val >>= λ queue. some (m, some queue))
    else if is_queue_register offset
    then (get_elem? m.queues (selected m) >>= λ q.
        some (record m { queues = set m.queues (selected m) (write_queue q offset val) }, none))
    else some (write_register m offset val, none)
