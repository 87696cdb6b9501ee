-- ===== src/RiscvCore/Alu.antt =====
-- `AluKind` and `alu` of crates/riscv-core/src/block.rs: the operations of the decoded instructions on
-- two 64-bit words. The methods of `u64` and `u32` that they call stand first.
pub mod Bounds
use Prim.Native.Nat
use Prim.Native.Nat.{bit_xor}
use vpod.Prelude.{
  ℕ, zero, suc, ◌+◌, ◌-◌, ◌*◌, ◌/◌, ◌%◌, ◌^◌, bit_and, bit_or, bit_not, shl, Bool, ◌==◌, ltb,
  if◌then◌else◌,
}
use vpod.Bits.{trailing_zeros}
use vpod.RiscvCore.Decode.{sar64, sar32}
use vpod.RiscvCore.Extensions
use vpod.RiscvCore.Extensions.{sign_extended, less_signed}

-- `leading_zeros` of a word of `w` bits.
unfoldable pub leading_zeros : ℕ → ℕ → ℕ
leading_zeros zero x = 0
leading_zeros (suc w) x = if ltb x (2 ^ w) then suc (leading_zeros w x) else 0

-- `count_ones` of a word of `w` bits.
unfoldable pub count_ones : ℕ → ℕ → ℕ
count_ones zero x = 0
count_ones (suc w) x = x % 2 + count_ones w (x / 2)

abbrev pub rotate_left : ℕ → ℕ → ℕ → ℕ
rotate_left w x k = bit_or (x * 2 ^ k % 2 ^ w) (x / 2 ^ (w - k))

abbrev pub rotate_right : ℕ → ℕ → ℕ → ℕ
rotate_right w x k = bit_or (x / 2 ^ k) (x * 2 ^ (w - k) % 2 ^ w)

-- The lowest `n` bytes in the opposite order.
unfoldable pub swapped : ℕ → ℕ → ℕ
swapped zero x = 0
swapped (suc n) x = x % 2 ^ 8 * 2 ^ (8 * n) + swapped n (x / 2 ^ 8)

abbrev pub swap_bytes : ℕ → ℕ
swap_bytes x = swapped 8 x

-- The loop of `orc_b` over the lowest `n` bytes: 0xff for each that is not 0.
unfoldable pub orc_bytes : ℕ → ℕ → ℕ
orc_bytes zero x = 0
orc_bytes (suc n) x = (if bit_and x 0xff == 0 then 0x00 else 0xff) + orc_bytes n (x / 2 ^ 8) * 2 ^ 8

-- `x as i8 as i64 as u64` and `x as i16 as i64 as u64`.
abbrev pub byte_as_word : ℕ → ℕ
byte_as_word x = let byte = x % 2 ^ 8 in if ltb byte (2 ^ 7) then byte else byte + 2 ^ 64 - 2 ^ 8

abbrev pub half_as_word : ℕ → ℕ
half_as_word x = let half = x % 2 ^ 16 in if ltb half (2 ^ 15) then half else half + 2 ^ 64 - 2 ^ 16

-- `x as u32`
abbrev pub as_u32 : ℕ → ℕ
as_u32 x = x % 2 ^ 32

-- `x as u64` of a `bool`.
abbrev pub as_word : Bool → ℕ
as_word c = if c then 1 else 0

abbrev pub wrapping_add : ℕ → ℕ → ℕ
wrapping_add a b = (a + b) % 2 ^ 64

abbrev pub wrapping_sub : ℕ → ℕ → ℕ
wrapping_sub a b = (a + 2 ^ 64 - b) % 2 ^ 64

pub data AluKind : Type 0 where
  add sub sll slt sltu xor srl sra or and : AluKind
  addw subw sllw srlw sraw : AluKind
  mul mulh mulhsu mulhu div divu rem remu mulw divw divuw remw remuw : AluKind
  andn orn xnor rol ror rolw rorw min max minu maxu : AluKind
  clz ctz cpop clzw ctzw cpopw sext_b sext_h zext_h rev8 orc_b : AluKind
  sh1add sh2add sh3add add_uw sh1add_uw sh2add_uw sh3add_uw slli_uw : AluKind

unfoldable pub alu : AluKind → ℕ → ℕ → ℕ
alu AluKind.add lhs rhs = wrapping_add lhs rhs
alu AluKind.sub lhs rhs = wrapping_sub lhs rhs
alu AluKind.sll lhs rhs = shl lhs (bit_and rhs 0x3f)
alu AluKind.slt lhs rhs = as_word (less_signed 64 lhs rhs)
alu AluKind.sltu lhs rhs = as_word (ltb lhs rhs)
alu AluKind.xor lhs rhs = bit_xor lhs rhs
alu AluKind.srl lhs rhs = lhs / 2 ^ bit_and rhs 0x3f
alu AluKind.sra lhs rhs = sar64 lhs (bit_and rhs 0x3f)
alu AluKind.or lhs rhs = bit_or lhs rhs
alu AluKind.and lhs rhs = bit_and lhs rhs
alu AluKind.addw lhs rhs = sign_extended ((as_u32 lhs + as_u32 rhs) % 2 ^ 32)
alu AluKind.subw lhs rhs = sign_extended ((as_u32 lhs + 2 ^ 32 - as_u32 rhs) % 2 ^ 32)
alu AluKind.sllw lhs rhs = sign_extended (as_u32 lhs * 2 ^ bit_and rhs 0x1f % 2 ^ 32)
alu AluKind.srlw lhs rhs = sign_extended (as_u32 lhs / 2 ^ bit_and rhs 0x1f)
alu AluKind.sraw lhs rhs = sign_extended (sar32 (as_u32 lhs) (bit_and rhs 0x1f))
alu AluKind.mul lhs rhs = Extensions.mul lhs rhs
alu AluKind.mulh lhs rhs = Extensions.mulh lhs rhs
alu AluKind.mulhsu lhs rhs = Extensions.mulhsu lhs rhs
alu AluKind.mulhu lhs rhs = Extensions.mulhu lhs rhs
alu AluKind.div lhs rhs = Extensions.div lhs rhs
alu AluKind.divu lhs rhs = Extensions.divu lhs rhs
alu AluKind.rem lhs rhs = Extensions.rem lhs rhs
alu AluKind.remu lhs rhs = Extensions.remu lhs rhs
alu AluKind.mulw lhs rhs = Extensions.mulw lhs rhs
alu AluKind.divw lhs rhs = Extensions.divw lhs rhs
alu AluKind.divuw lhs rhs = Extensions.divuw lhs rhs
alu AluKind.remw lhs rhs = Extensions.remw lhs rhs
alu AluKind.remuw lhs rhs = Extensions.remuw lhs rhs
alu AluKind.andn lhs rhs = bit_and lhs (bit_not 64 rhs)
alu AluKind.orn lhs rhs = bit_or lhs (bit_not 64 rhs)
alu AluKind.xnor lhs rhs = bit_xor lhs (bit_not 64 rhs)
alu AluKind.rol lhs rhs = rotate_left 64 lhs (bit_and rhs 0x3f)
alu AluKind.ror lhs rhs = rotate_right 64 lhs (bit_and rhs 0x3f)
alu AluKind.rolw lhs rhs = sign_extended (rotate_left 32 (as_u32 lhs) (bit_and rhs 0x1f))
alu AluKind.rorw lhs rhs = sign_extended (rotate_right 32 (as_u32 lhs) (bit_and rhs 0x1f))
alu AluKind.min lhs rhs = if less_signed 64 lhs rhs then lhs else rhs
alu AluKind.max lhs rhs = if less_signed 64 rhs lhs then lhs else rhs
alu AluKind.minu lhs rhs = Nat.min lhs rhs
alu AluKind.maxu lhs rhs = Nat.max lhs rhs
alu AluKind.clz lhs rhs = leading_zeros 64 lhs
alu AluKind.ctz lhs rhs = trailing_zeros 64 lhs
alu AluKind.cpop lhs rhs = count_ones 64 lhs
alu AluKind.clzw lhs rhs = leading_zeros 32 (as_u32 lhs)
alu AluKind.ctzw lhs rhs = trailing_zeros 32 (as_u32 lhs)
alu AluKind.cpopw lhs rhs = count_ones 32 (as_u32 lhs)
alu AluKind.sext_b lhs rhs = byte_as_word lhs
alu AluKind.sext_h lhs rhs = half_as_word lhs
alu AluKind.zext_h lhs rhs = lhs % 2 ^ 16
alu AluKind.rev8 lhs rhs = swap_bytes lhs
alu AluKind.sh1add lhs rhs = wrapping_add (shl lhs 1) rhs
alu AluKind.sh2add lhs rhs = wrapping_add (shl lhs 2) rhs
alu AluKind.sh3add lhs rhs = wrapping_add (shl lhs 3) rhs
alu AluKind.add_uw lhs rhs = wrapping_add (as_u32 lhs) rhs
alu AluKind.sh1add_uw lhs rhs = wrapping_add (shl (as_u32 lhs) 1) rhs
alu AluKind.sh2add_uw lhs rhs = wrapping_add (shl (as_u32 lhs) 2) rhs
alu AluKind.sh3add_uw lhs rhs = wrapping_add (shl (as_u32 lhs) 3) rhs
alu AluKind.slli_uw lhs rhs = shl (as_u32 lhs) (bit_and rhs 0x3f)
alu AluKind.orc_b lhs rhs = orc_bytes 8 lhs
