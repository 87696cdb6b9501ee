-- ===== src/RiscvCore/Alu/Bounds.antt =====
-- The operations of the decoded instructions stay within 64 bits.
use native.Mathlib.Nat.{pow-suc, one-le-pow, div-le_self, mod-lt}
use vpod.Prelude.{ℕ, zero, suc, ◌-◌, ◌*◌, ◌/◌, ◌%◌, ◌^◌, ◌<◌, ◌≤◌, bit_and, bit_or, bit_not, arith}
use vpod.Bits.{and-le, or-lt, xor-lt, trailing_zeros}
use vpod.RiscvCore.Alu.{AluKind, alu, leading_zeros, count_ones, swapped, orc_bytes}
use vpod.RiscvCore.Extensions.{sign_extended}
use vpod.RiscvCore.Extensions

pub leading_zeros-le : (w x : ℕ) → leading_zeros w x ≤ w
unfolding leading_zeros
leading_zeros-le zero x = omega arith
leading_zeros-le (suc w) x = ground (arith, leading_zeros-le w x)

pub trailing_zeros-le : (w x : ℕ) → trailing_zeros w x ≤ w
unfolding trailing_zeros
trailing_zeros-le zero x = omega arith
trailing_zeros-le (suc w) x = ground (arith, trailing_zeros-le w (x / 2))

pub count_ones-le : (w x : ℕ) → count_ones w x ≤ w
unfolding count_ones
count_ones-le zero x = omega arith
count_ones-le (suc w) x = omega (arith, count_ones-le w (x / 2))

sign_extended-lt : (x : ℕ) → x < 2 ^ 32 → sign_extended x < 2 ^ 64
sign_extended-lt x h = ground arith

div-lt : (x k : ℕ) → x < 2 ^ 64 → x / k < 2 ^ 64
div-lt x k h = omega (arith, div-le_self x k)

rotated : (w x p q : ℕ) → x < 2 ^ w → bit_or (x * p % 2 ^ w) (x / q) < 2 ^ w
rotated w x p q h =
    or-lt w (x * p % 2 ^ w) (x / q) (mod-lt (x * p) (one-le-pow w 2 (omega arith)))
      (omega (arith, div-le_self x q))

rotated_back : (w x p q : ℕ) → x < 2 ^ w → bit_or (x / p) (x * q % 2 ^ w) < 2 ^ w
rotated_back w x p q h =
    or-lt w (x / p) (x * q % 2 ^ w) (omega (arith, div-le_self x p))
      (mod-lt (x * q) (one-le-pow w 2 (omega arith)))

swapped-lt : (x : ℕ) → swapped 8 x < 2 ^ 64
unfolding swapped
swapped-lt x = omega arith

orc_bytes-lt : (n x : ℕ) → orc_bytes n x < (2 ^ 8) ^ n
unfolding orc_bytes
orc_bytes-lt zero x = omega arith
orc_bytes-lt (suc n) x = ground (arith, pow-suc (2 ^ 8) n, orc_bytes-lt n (x / 2 ^ 8))

pub alu-lt : (kind : AluKind) (a c : ℕ) → a < 2 ^ 64 → c < 2 ^ 64 → alu kind a c < 2 ^ 64
unfolding alu Extensions.mul Extensions.mulh Extensions.mulhsu Extensions.mulhu Extensions.div
    Extensions.divu Extensions.rem Extensions.remu Extensions.mulw Extensions.divw Extensions.divuw
    Extensions.remw Extensions.remuw
alu-lt AluKind.add a c h k = ground arith
alu-lt AluKind.sub a c h k = ground arith
alu-lt AluKind.sll a c h k = ground arith
alu-lt AluKind.slt a c h k = ground arith
alu-lt AluKind.sltu a c h k = ground arith
alu-lt AluKind.xor a c h k = xor-lt 64 a c h k
alu-lt AluKind.srl a c h k = div-lt a (2 ^ bit_and c 0x3f) h
alu-lt AluKind.sra a c h k = ground arith
alu-lt AluKind.or a c h k = or-lt 64 a c h k
alu-lt AluKind.and a c h k = omega (arith, and-le 64 a c h)
alu-lt AluKind.addw a c h k = ground arith
alu-lt AluKind.subw a c h k = ground arith
alu-lt AluKind.sllw a c h k = ground arith
alu-lt AluKind.srlw a c h k = ground arith
alu-lt AluKind.sraw a c h k = ground arith
alu-lt AluKind.mul a c h k = ground arith
alu-lt AluKind.mulh a c h k = ground arith
alu-lt AluKind.mulhsu a c h k = ground arith
alu-lt AluKind.mulhu a c h k = ground arith
alu-lt AluKind.div a c h k = ground arith
alu-lt AluKind.divu a c h k = ground arith
alu-lt AluKind.rem a c h k = ground arith
alu-lt AluKind.remu a c h k = ground arith
alu-lt AluKind.mulw a c h k = ground arith
alu-lt AluKind.divw a c h k = ground arith
alu-lt AluKind.divuw a c h k = ground arith
alu-lt AluKind.remw a c h k = ground arith
alu-lt AluKind.remuw a c h k = ground arith
alu-lt AluKind.andn a c h k = omega (arith, and-le 64 a (bit_not 64 c) h)
alu-lt AluKind.orn a c h k = or-lt 64 a (bit_not 64 c) h (omega arith)
alu-lt AluKind.xnor a c h k = xor-lt 64 a (bit_not 64 c) h (omega arith)
alu-lt AluKind.rol a c h k = rotated 64 a (2 ^ bit_and c 0x3f) (2 ^ (64 - bit_and c 0x3f)) h
alu-lt AluKind.ror a c h k = rotated_back 64 a (2 ^ bit_and c 0x3f) (2 ^ (64 - bit_and c 0x3f)) h
alu-lt AluKind.rolw a c h k =
    sign_extended-lt _
      (rotated 32 (a % 2 ^ 32) (2 ^ bit_and c 0x1f) (2 ^ (32 - bit_and c 0x1f)) (omega arith))
alu-lt AluKind.rorw a c h k =
    sign_extended-lt _
      (rotated_back 32 (a % 2 ^ 32) (2 ^ bit_and c 0x1f) (2 ^ (32 - bit_and c 0x1f)) (omega arith))
alu-lt AluKind.min a c h k = ground arith
alu-lt AluKind.max a c h k = ground arith
alu-lt AluKind.minu a c h k = ground arith
alu-lt AluKind.maxu a c h k = ground arith
alu-lt AluKind.clz a c h k = omega (arith, leading_zeros-le 64 a)
alu-lt AluKind.ctz a c h k = omega (arith, trailing_zeros-le 64 a)
alu-lt AluKind.cpop a c h k = omega (arith, count_ones-le 64 a)
alu-lt AluKind.clzw a c h k = omega (arith, leading_zeros-le 32 (a % 2 ^ 32))
alu-lt AluKind.ctzw a c h k = omega (arith, trailing_zeros-le 32 (a % 2 ^ 32))
alu-lt AluKind.cpopw a c h k = omega (arith, count_ones-le 32 (a % 2 ^ 32))
alu-lt AluKind.sext_b a c h k = ground arith
alu-lt AluKind.sext_h a c h k = ground arith
alu-lt AluKind.zext_h a c h k = ground arith
alu-lt AluKind.rev8 a c h k = swapped-lt a
alu-lt AluKind.orc_b a c h k = orc_bytes-lt 8 a
alu-lt AluKind.sh1add a c h k = ground arith
alu-lt AluKind.sh2add a c h k = ground arith
alu-lt AluKind.sh3add a c h k = ground arith
alu-lt AluKind.add_uw a c h k = ground arith
alu-lt AluKind.sh1add_uw a c h k = ground arith
alu-lt AluKind.sh2add_uw a c h k = ground arith
alu-lt AluKind.sh3add_uw a c h k = ground arith
alu-lt AluKind.slli_uw a c h k = ground arith
