-- ===== src/RiscvCore/SystemBus.antt =====
-- The part of `trait SystemBus` (crates/riscv-core/src/system_bus.rs) that the memory management
-- unit calls. An implementation gives the type of its state and the methods on it; a method that
-- takes `&mut self` returns the new state.
use vpod.Prelude.{ℕ, Bool, List, Option, ◌≡◌, ◌<◌, ◌^◌}

pub record SystemBus : Type 1 where
  pub Bus : Type 0
  -- A pointer to the bytes of one page of host memory.
  pub HostPage : Type 0
  pub read_doubleword : Bus → ℕ → ℕ × Bus
  pub ram_load_page : Bus → ℕ → Option HostPage × Bus
  pub ram_store_page : Bus → ℕ → Option HostPage × Bus
  pub ram_epoch : Bus → ℕ

-- What the translation relies on: a page table entry is a `u64`, and neither reading one nor asking
-- for the page of an address changes the bus.
pub record IsBus (b : SystemBus) : Type 0 where
  pub read_keeps : (s : b.Bus) (a : ℕ) → (b.read_doubleword s a).1 ≡ s
  pub load_page_keeps : (s : b.Bus) (a : ℕ) → (b.ram_load_page s a).1 ≡ s
  pub read_fits : (s : b.Bus) (a : ℕ) → (b.read_doubleword s a).0 < 2 ^ 64

-- The other methods of the trait that the execution of instructions calls. `visited` gives the pages
-- that `drain_device_written_pages` visits, and whether the bus tracks them.
pub record ExecBus : Type 1 where
  pub unit : SystemBus
  pub read_byte : unit.Bus → ℕ → ℕ × unit.Bus
  pub read_halfword : unit.Bus → ℕ → ℕ × unit.Bus
  pub read_word : unit.Bus → ℕ → ℕ × unit.Bus
  pub write_byte : unit.Bus → ℕ → ℕ → unit.Bus
  pub write_halfword : unit.Bus → ℕ → ℕ → unit.Bus
  pub write_word : unit.Bus → ℕ → ℕ → unit.Bus
  pub write_doubleword : unit.Bus → ℕ → ℕ → unit.Bus
  pub drain_device_written_pages : unit.Bus → List ℕ × Bool × unit.Bus
  pub timer_interrupt_pending : unit.Bus → Option Bool
  -- The bytes behind a pointer to a page, at an offset and as many as given, as a little-endian number.
  pub page_read : unit.Bus → unit.HostPage → ℕ → ℕ → ℕ
  pub page_write : unit.Bus → unit.HostPage → ℕ → ℕ → ℕ → unit.Bus
  pub external_interrupt_pending : unit.Bus → Option Bool × unit.Bus
