-- ===== src/RiscvCore/Csr/Registers.antt =====
-- `read_register` and `write_register` of crates/riscv-core/src/csr.rs, with `read_mstatus` and
-- `write_mstatus`. The addresses are written as numbers, in the order of the source.
use vpod.Prelude.{
  ℕ, ◌-◌, ◌*◌, ◌/◌, ◌^◌, bit_and, bit_or, bit_not, in_range, has, Bool, true, false, ◌&&◌, ◌||◌,
  ◌==◌, if◌then◌else◌, Option, none, some,
}
use vpod.RiscvCore.Csr.{
  Csr, PrivMode, supervisor, mstatus_tvm, mstatus_sd, mstatus_write_mask, mstatus_preserved,
  sstatus_mask, mip_writable, sip_writable,
}

-- `(old & !mask) | (value & mask)`
abbrev pub merge : ℕ → ℕ → ℕ → ℕ
merge old value mask = bit_or (bit_and old (bit_not 64 mask)) (bit_and value mask)

abbrev pub is_supervisor : PrivMode → Bool
is_supervisor supervisor = true
is_supervisor _ = false

-- `priv_mode == PrivMode::S && (self.mstatus & MSTATUS_TVM) != 0`
abbrev pub satp_trapped : Csr → PrivMode → Bool
satp_trapped c priv_mode = is_supervisor priv_mode && has c.mstatus mstatus_tvm

abbrev pub update : (ℕ → ℕ) → ℕ → ℕ → ℕ → ℕ
update array index value i = if i == index then value else array i

unfoldable pub read_mstatus : Csr → ℕ
read_mstatus c =
    let value = c.mstatus in
    let fs = bit_and (value / 2 ^ 13) 3 in
    let xs = bit_and (value / 2 ^ 15) 3 in
    let vs = bit_and (value / 2 ^ 9) 3 in
    if fs == 3 || (xs == 3 || vs == 3)
    then bit_or value mstatus_sd
    else bit_and value (bit_not 64 mstatus_sd)

unfoldable pub write_mstatus : Csr → ℕ → Csr
write_mstatus c value = record c {
  mstatus = bit_or (bit_and c.mstatus mstatus_preserved) (bit_and value mstatus_write_mask);
}

unfoldable pub read_register : Csr → ℕ → PrivMode → Option ℕ
read_register c address priv_mode =
    if address == 0x300
    then some (read_mstatus c)
    else if address == 0x301
    then some (c.misa)
    else if address == 0x302
    then some (c.medeleg)
    else if address == 0x303
    then some (c.mideleg)
    else if address == 0x304
    then some (c.mie)
    else if address == 0x305
    then some (c.mtvec)
    else if address == 0x306
    then some (c.mcounteren)
    else if address == 0x320
    then some (c.mcountinhibit)
    else if address == 0x30a
    then some (c.menvcfg)
    else if address == 0x340
    then some (c.mscratch)
    else if address == 0x341
    then some (c.mepc)
    else if address == 0x342
    then some (c.mcause)
    else if address == 0x343
    then some (c.mtval)
    else if address == 0x344
    then some (c.mip)
    else if address == 0x100
    then some (bit_and (read_mstatus c) sstatus_mask)
    else if address == 0x104
    then some (bit_and c.mie c.mideleg)
    else if address == 0x105
    then some (c.stvec)
    else if address == 0x106
    then some (c.scounteren)
    else if address == 0x10a
    then some (c.senvcfg)
    else if address == 0x140
    then some (c.sscratch)
    else if address == 0x141
    then some (c.sepc)
    else if address == 0x142
    then some (c.scause)
    else if address == 0x143
    then some (c.stval)
    else if address == 0x144
    then some (bit_and c.mip c.mideleg)
    else if address == 0x180
    then (if satp_trapped c priv_mode then none else some c.satp)
    else if address == 0xf11 || (address == 0xf12 || address == 0xf13)
    then some (0)
    else if address == 0xf14
    then some (c.hart_id)
    else if address == 0xf15
    then some (0)
    else if in_range 0x3a0 0x3af address
    then some (c.pmpcfg (address - 0x3a0))
    else if in_range 0x3b0 0x3ef address
    then some (c.pmpaddr (address - 0x3b0))
    else if address == 0xc00 || address == 0xb00
    then some (c.cycle)
    else if address == 0xc01
    then some (c.time)
    else if address == 0xc02 || address == 0xb02
    then some (c.instret)
    else if in_range 0xb03 0xb1f address
    then some (0)
    else if in_range 0xb83 0xb9f address
    then some (0)
    else if in_range 0xc03 0xc1f address
    then some (0)
    else if in_range 0xc83 0xc9f address
    then some (0)
    else if in_range 0xc80 0xc82 address
    then some (0)
    else if address == 0x001
    then some (bit_and c.fcsr 0x1f)
    else if address == 0x002
    then some (bit_and (c.fcsr / 2 ^ 5) 0x7)
    else if address == 0x003
    then some (bit_and c.fcsr 0xff)
    else if in_range 0x323 0x33f address
    then some (c.mhpmevent (address - 0x323))
    else if address == 0xda0
    then some (0)
    else if address == 0x747
    then some (0)
    else if address == 0x7a0
    then some (0)
    else if address == 0x7a1
    then some (0)
    else if address == 0x7a2
    then some (0)
    else if address == 0x7a3
    then some (0)
    else none

-- The registers after the write, and whether there is such a register.
unfoldable pub write_register : Csr → ℕ → ℕ → PrivMode → Csr × Bool
write_register c address value priv_mode =
    if address == 0x300
    then (write_mstatus c value, true)
    else if address == 0x301
    then (c, true)
    else if address == 0x302
    then (record c { medeleg = value }, true)
    else if address == 0x303
    then (record c { mideleg = value }, true)
    else if address == 0x304
    then (record c { mie = value }, true)
    else if address == 0x305
    then (record c { mtvec = value }, true)
    else if address == 0x306
    then (record c { mcounteren = bit_and value 0xffffffff }, true)
    else if address == 0x320
    then (record c { mcountinhibit = bit_and value 0xffffffff }, true)
    else if address == 0x30a
    then (record c { menvcfg = value }, true)
    else if address == 0x340
    then (record c { mscratch = value }, true)
    else if address == 0x341
    then (record c { mepc = bit_and value (bit_not 64 1) }, true)
    else if address == 0x342
    then (record c { mcause = value }, true)
    else if address == 0x343
    then (record c { mtval = value }, true)
    else if address == 0x344
    then (record c { mip = merge c.mip value mip_writable }, true)
    else if address == 0x100
    then (
      record c { mstatus = merge c.mstatus value (bit_and sstatus_mask mstatus_write_mask) },
      true,
    )
    else if address == 0x104
    then (record c { mie = merge c.mie value c.mideleg }, true)
    else if address == 0x105
    then (record c { stvec = value }, true)
    else if address == 0x106
    then (record c { scounteren = bit_and value 0xffffffff }, true)
    else if address == 0x10a
    then (record c { senvcfg = value }, true)
    else if address == 0x140
    then (record c { sscratch = value }, true)
    else if address == 0x141
    then (record c { sepc = bit_and value (bit_not 64 1) }, true)
    else if address == 0x142
    then (record c { scause = value }, true)
    else if address == 0x143
    then (record c { stval = value }, true)
    else if address == 0x144
    then (record c { mip = merge c.mip value (bit_and c.mideleg sip_writable) }, true)
    else if address == 0x180
    then (if satp_trapped c priv_mode then (c, false) else (record c { satp = value }, true))
    else if in_range 0x3a0 0x3af address
    then (record c { pmpcfg = update c.pmpcfg (address - 0x3a0) value }, true)
    else if in_range 0x3b0 0x3ef address
    then (record c { pmpaddr = update c.pmpaddr (address - 0x3b0) value }, true)
    else if address == 0xb00
    then (record c { cycle = value }, true)
    else if address == 0xb02
    then (record c { instret = value }, true)
    else if address == 0x001
    then (record c { fcsr = bit_or (bit_and c.fcsr (bit_not 64 0x1f)) (bit_and value 0x1f) }, true)
    else if address == 0x002
    then (
      record c { fcsr = bit_or (bit_and c.fcsr (bit_not 64 0xe0)) (bit_and value 0x7 * 2 ^ 5) },
      true,
    )
    else if address == 0x003
    then (record c { fcsr = bit_and value 0xff }, true)
    else if in_range 0x323 0x33f address
    then (record c { mhpmevent = update c.mhpmevent (address - 0x323) value }, true)
    else if in_range 0xb03 0xb1f address || in_range 0xb83 0xb9f address
    then (c, true)
    else if address == 0xc00 || (address == 0xc02 || address == 0xc01)
    then (c, true)
    else if in_range 0xc03 0xc1f address
        || (in_range 0xc83 0xc9f address || in_range 0xc80 0xc82 address)
    then (c, true)
    else if address == 0xf11
        || (address == 0xf12 || (address == 0xf13 || (address == 0xf14 || address == 0xf15)))
    then (c, true)
    else if address == 0xda0 || (address == 0x747 || in_range 0x7a0 0x7a3 address)
    then (c, true)
    else (c, false)
