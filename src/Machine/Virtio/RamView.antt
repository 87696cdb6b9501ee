-- ===== src/Machine/Virtio/RamView.antt =====
-- `RamView` of crates/machine/src/virtio/mod.rs: what a device sees of the guest's RAM. Addresses wrap around
-- at 64 bits and at the size of the RAM. While a buffer is staged, the accesses within its range use the buffer.
pub mod Access
use vpod.Prelude.{
  ℕ, ◌+◌, ◌-◌, ◌%◌, ◌^◌, bit_and, Bool, leb, ltb, ◌&&◌, if◌then◌else◌, Option, none, some, ◌>>=◌,
  List, [], ◌∷◌, ◌++◌, length, take, drop, replicate,
}
use vpod.Stream.{to_le_bytes, from_le_bytes}
use vpod.Machine.CowRam
use vpod.Machine.CowRam.{Memory, read_into, write_from, note_device_write}

abbrev pub ram_base : ℕ
ram_base = 0x80000000

pub record Staging : Type 0 where
  pub base : ℕ
  pub buffer : List ℕ

-- `ram`, and the counter of epochs beside it, is the memory.
pub record RamView : Type 0 where
  pub memory : Memory
  pub mask : ℕ
  pub staging : Option Staging

abbrev pub new : Memory → ℕ → RamView
new memory mask = record { memory = memory; mask = mask; staging = none }

unfoldable pub begin_staging : RamView → ℕ → ℕ → RamView
begin_staging view base len = record view {
  staging = some (record { base = base; buffer = replicate len 0 });
}

abbrev pub buffer_of : Option Staging → Option (List ℕ)
buffer_of none = none
buffer_of (some s) = some s.buffer

unfoldable pub take_staging : RamView → RamView × Option (List ℕ)
take_staging view = (record view { staging = none }, buffer_of view.staging)

-- Where a range stands in a staged buffer.
abbrev pub offset_in : Option Staging → ℕ → ℕ → Option ℕ
offset_in none physical_address len = none
offset_in (some s) physical_address len =
    if leb s.base physical_address
      && leb ((physical_address - s.base + len) % 2 ^ 64) (length s.buffer)
    then some (physical_address - s.base)
    else none

unfoldable pub staged : RamView → ℕ → ℕ → Option ℕ
staged view = offset_in view.staging

unfoldable pub idx : RamView → ℕ → ℕ
idx view physical_address = bit_and ((physical_address + 2 ^ 64 - ram_base) % 2 ^ 64) view.mask

-- `&staging.buffer[offset..offset + n]`
abbrev pub slice_of : Option Staging → ℕ → ℕ → Option (List ℕ)
slice_of none offset n = none
slice_of (some s) offset n = some (take n (drop offset s.buffer))

-- The two arms of a read: the buffer, or the RAM.
abbrev pub slice_or : Option ℕ → RamView → ℕ → Option (List ℕ) → Option (List ℕ)
slice_or (some offset) view len direct = slice_of view.staging offset len
slice_or none view len direct = direct

unfoldable pub read_bytes : RamView → ℕ → ℕ → Option (List ℕ)
read_bytes view physical_address len =
    slice_or (staged view physical_address len) view len
      (read_into view.memory.ram (idx view physical_address) len)

-- `staging.buffer[offset..offset + buf.len()].copy_from_slice(buf)`
abbrev pub splice : List ℕ → ℕ → List ℕ → List ℕ
splice buffer offset bytes = take offset buffer ++ bytes ++ drop (offset + length bytes) buffer

abbrev pub put_staged : RamView → Option Staging → ℕ → List ℕ → Option RamView
put_staged view none offset bytes = none
put_staged view (some s) offset bytes =
    some (record view { staging = some (record s { buffer = splice s.buffer offset bytes }) })

-- The memory after a write of a device, which is noted.
abbrev pub noted : RamView → ℕ → ℕ → Memory → Option RamView
noted view index len memory =
    some (record view { memory = record memory { ram = note_device_write memory.ram index len } })

-- The two arms of a write.
abbrev pub splice_or : Option ℕ → RamView → List ℕ → Option RamView → Option RamView
splice_or (some offset) view bytes direct = put_staged view view.staging offset bytes
splice_or none view bytes direct = direct

unfoldable pub write_bytes : RamView → ℕ → List ℕ → Option RamView
write_bytes view physical_address bytes =
    splice_or (staged view physical_address (length bytes)) view bytes (
      write_from view.memory (idx view physical_address) bytes
      >>= noted view (idx view physical_address) (length bytes))

-- A read of `n` bytes: through `read_bytes` while a buffer is staged, of the RAM by `direct` otherwise.
abbrev pub read_n : Option Staging → RamView → ℕ → ℕ → Option ℕ → Option ℕ
read_n (some s) view physical_address n direct =
    read_bytes view physical_address n >>= λ bytes. some (from_le_bytes bytes)
read_n none view physical_address n direct = direct

unfoldable pub read_u8 : RamView → ℕ → Option ℕ
read_u8 view physical_address =
    read_n view.staging view physical_address 1
      (CowRam.read_u8 view.memory.ram (idx view physical_address))

unfoldable pub read_u16 : RamView → ℕ → Option ℕ
read_u16 view physical_address =
    read_n view.staging view physical_address 2
      (CowRam.read_u16 view.memory.ram (idx view physical_address))

unfoldable pub read_u32 : RamView → ℕ → Option ℕ
read_u32 view physical_address =
    read_n view.staging view physical_address 4
      (CowRam.read_u32 view.memory.ram (idx view physical_address))

unfoldable pub read_u64 : RamView → ℕ → Option ℕ
read_u64 view physical_address =
    read_n view.staging view physical_address 8
      (CowRam.read_u64 view.memory.ram (idx view physical_address))

-- A write of the `n` bytes of `val`, likewise.
abbrev pub write_n : Option Staging → RamView → ℕ → ℕ → ℕ → Option Memory → Option RamView
write_n (some s) view physical_address n val direct =
    write_bytes view physical_address (to_le_bytes n val)
write_n none view physical_address n val direct =
    direct >>= noted view (idx view physical_address) n

unfoldable pub write_u8 : RamView → ℕ → ℕ → Option RamView
write_u8 view physical_address val =
    write_n view.staging view physical_address 1 val
      (CowRam.write_u8 view.memory (idx view physical_address) val)

unfoldable pub write_u16 : RamView → ℕ → ℕ → Option RamView
write_u16 view physical_address val =
    write_n view.staging view physical_address 2 val
      (CowRam.write_u16 view.memory (idx view physical_address) val)

unfoldable pub write_u32 : RamView → ℕ → ℕ → Option RamView
write_u32 view physical_address val =
    write_n view.staging view physical_address 4 val
      (CowRam.write_u32 view.memory (idx view physical_address) val)

unfoldable pub write_u64 : RamView → ℕ → ℕ → Option RamView
write_u64 view physical_address val =
    write_n view.staging view physical_address 8 val
      (CowRam.write_u64 view.memory (idx view physical_address) val)
