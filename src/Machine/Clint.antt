-- ===== src/Machine/Clint.antt =====
-- crates/machine/src/clint.rs: the core-local timer. The state is `struct Clint`; each method takes
-- it and returns the new state and its result. Integers are natural numbers below 2 ^ 64 or 2 ^ 32,
-- and an addition that may overflow wraps as it does in a release build.
pub mod Laws
pub mod RoundTrip
mod Examples
use vpod.Prelude.{
  u64_max, ℕ, ◌+◌, ◌-◌, ◌*◌, ◌/◌, ◌%◌, ◌^◌, bit_and, bit_or, Bool, true, false, not, ◌&&◌, ◌||◌,
  ◌==◌, ltb, leb, if◌then◌else◌, List, ◌++◌, Option, none, some,
}
use vpod.Stream.{Restored, restored, field, to_le_bytes, from_le_bytes}

abbrev pub timer_frequency : ℕ
timer_frequency = 10000000

abbrev pub instructions_per_tick : ℕ
instructions_per_tick = 10

abbrev pub nanos_per_tick : ℕ
nanos_per_tick = 1000000000 / timer_frequency

pub record Clint : Type 0 where
  pub mtimecmp : ℕ
  pub msip : ℕ
  pub mtime : ℕ
  pub instruction_counter : ℕ

unfoldable pub new : Clint
new = record { mtimecmp = u64_max; msip = 0; mtime = 0; instruction_counter = 0 }

-- The three statements of the body, in order.
unfoldable pub advance_by_instructions : Clint → ℕ → Clint
advance_by_instructions c instructions =
    let counter = (c.instruction_counter + instructions) % 2 ^ 64 in
    record c {
      mtime = (c.mtime + counter / instructions_per_tick) % 2 ^ 64;
      instruction_counter = counter % instructions_per_tick;
    }

unfoldable pub advance_by_nanos : Clint → ℕ → Clint
advance_by_nanos c nanos = record c { mtime = (c.mtime + nanos / nanos_per_tick) % 2 ^ 64 }

unfoldable pub nanos_until_timer : Clint → Option ℕ
nanos_until_timer c =
    if c.mtimecmp == u64_max || leb c.mtimecmp c.mtime
    then none
    else some ((c.mtimecmp - c.mtime) * nanos_per_tick % 2 ^ 64)

unfoldable pub fast_forward_to_timer : Clint → Clint × Bool
fast_forward_to_timer c =
    if not (c.mtimecmp == u64_max) && ltb c.mtime c.mtimecmp
    then (record c { mtime = c.mtimecmp }, true)
    else (c, false)

-- The timer interrupt and the software interrupt.
unfoldable pub get_interrupt_status : Clint → Bool × Bool
get_interrupt_status c = (leb c.mtimecmp c.mtime, not (bit_and c.msip 1 == 0))

unfoldable pub read_register : Clint → ℕ → ℕ
read_register c offset =
    if offset == 0x0000
    then c.msip
    else if offset == 0xbff8
    then c.mtime % 2 ^ 32
    else if offset == 0xbffc
    then c.mtime / 2 ^ 32 % 2 ^ 32
    else if offset == 0x4000
    then c.mtimecmp % 2 ^ 32
    else if offset == 0x4004
    then c.mtimecmp / 2 ^ 32 % 2 ^ 32
    else 0

unfoldable pub write_register : Clint → ℕ → ℕ → Clint
write_register c offset val =
    if offset == 0x0000
    then record c { msip = bit_and val 1 }
    else if offset == 0x4000
    then record c { mtimecmp = bit_or (bit_and c.mtimecmp 0xffffffff00000000) val }
    else if offset == 0x4004
    then record c {
      mtimecmp = bit_or (bit_and c.mtimecmp 0x00000000ffffffff) (val * 2 ^ 32 % 2 ^ 64);
    }
    else c

-- What the writer has taken: four integers of eight bytes.
unfoldable pub serialize : Clint → List ℕ
serialize c =
    to_le_bytes 8 c.mtimecmp
    ++ (to_le_bytes 8 c.msip ++ (to_le_bytes 8 c.mtime ++ to_le_bytes 8 c.instruction_counter))

abbrev put_mtimecmp : List ℕ → Clint → Clint
put_mtimecmp bytes c = record c { mtimecmp = from_le_bytes bytes }

abbrev put_msip : List ℕ → Clint → Clint
put_msip bytes c = record c { msip = from_le_bytes bytes % 2 ^ 32 }

abbrev put_mtime : List ℕ → Clint → Clint
put_mtime bytes c = record c { mtime = from_le_bytes bytes }

abbrev put_instruction_counter : List ℕ → Clint → Clint
put_instruction_counter bytes c = record c { instruction_counter = from_le_bytes bytes }

unfoldable pub deserialize : Clint → List ℕ → Restored Clint
deserialize c reader =
    field 8 put_instruction_counter
      (field 8 put_mtime (field 8 put_msip (field 8 put_mtimecmp (restored c reader))))
