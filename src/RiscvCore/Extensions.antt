-- ===== src/RiscvCore/Extensions.antt =====
-- crates/riscv-core/src/extensions.rs: the atomic operations, the multiplications and the divisions. A `u32`
-- and an `i32` are the number below 2 ^ 32 of the same bits, likewise on 64 and 128 bits.
pub mod Order
pub mod Division
mod Examples
use Prim.Native.Nat.{bit_xor}
use vpod.Prelude.{
  ℕ, ◌+◌, ◌-◌, ◌*◌, ◌/◌, ◌%◌, ◌^◌, min, max, bit_and, bit_or, u64_max, Bool, true, false, not, ◌&&◌,
  ◌==◌, ltb, if◌then◌else◌,
}

-- `x as i32 as i64 as u64` of a `u32`.
abbrev pub sign_extended : ℕ → ℕ
sign_extended x = if ltb x (2 ^ 31) then x else x + 2 ^ 64 - 2 ^ 32

-- `a < b` on `i32` and `i64`, of `w` bits.
abbrev pub less_signed : ℕ → ℕ → ℕ → Bool
less_signed w a b =
    if ltb a (2 ^ (w - 1))
    then (if ltb b (2 ^ (w - 1)) then ltb a b else false)
    else (if ltb b (2 ^ (w - 1)) then true else ltb a b)

abbrev pub min_signed : ℕ → ℕ → ℕ → ℕ
min_signed w a b = if less_signed w b a then b else a

abbrev pub max_signed : ℕ → ℕ → ℕ → ℕ
max_signed w a b = if less_signed w b a then a else b

-- The macro `amo_w`: the old value extended, and the new one.
abbrev pub amo_w : (ℕ → ℕ → ℕ) → ℕ → ℕ → ℕ × ℕ
amo_w op memory_value src = (sign_extended memory_value, op memory_value (src % 2 ^ 32))

unfoldable pub amoswap_w : ℕ → ℕ → ℕ × ℕ
amoswap_w = amo_w (λ _ src. src)

unfoldable pub amoadd_w : ℕ → ℕ → ℕ × ℕ
amoadd_w = amo_w (λ memory_value src. (memory_value + src) % 2 ^ 32)

unfoldable pub amoxor_w : ℕ → ℕ → ℕ × ℕ
amoxor_w = amo_w bit_xor

unfoldable pub amoand_w : ℕ → ℕ → ℕ × ℕ
amoand_w = amo_w bit_and

unfoldable pub amoor_w : ℕ → ℕ → ℕ × ℕ
amoor_w = amo_w bit_or

unfoldable pub amomin_w : ℕ → ℕ → ℕ × ℕ
amomin_w = amo_w (min_signed 32)

unfoldable pub amomax_w : ℕ → ℕ → ℕ × ℕ
amomax_w = amo_w (max_signed 32)

unfoldable pub amominu_w : ℕ → ℕ → ℕ × ℕ
amominu_w = amo_w min

unfoldable pub amomaxu_w : ℕ → ℕ → ℕ × ℕ
amomaxu_w = amo_w max

-- The macro `amo_d`.
abbrev pub amo_d : (ℕ → ℕ → ℕ) → ℕ → ℕ → ℕ × ℕ
amo_d op memory_value src = (memory_value, op memory_value src)

unfoldable pub amoswap_d : ℕ → ℕ → ℕ × ℕ
amoswap_d = amo_d (λ _ src. src)

unfoldable pub amoadd_d : ℕ → ℕ → ℕ × ℕ
amoadd_d = amo_d (λ memory_value src. (memory_value + src) % 2 ^ 64)

unfoldable pub amoxor_d : ℕ → ℕ → ℕ × ℕ
amoxor_d = amo_d bit_xor

unfoldable pub amoand_d : ℕ → ℕ → ℕ × ℕ
amoand_d = amo_d bit_and

unfoldable pub amoor_d : ℕ → ℕ → ℕ × ℕ
amoor_d = amo_d bit_or

unfoldable pub amomin_d : ℕ → ℕ → ℕ × ℕ
amomin_d = amo_d (min_signed 64)

unfoldable pub amomax_d : ℕ → ℕ → ℕ × ℕ
amomax_d = amo_d (max_signed 64)

unfoldable pub amominu_d : ℕ → ℕ → ℕ × ℕ
amominu_d = amo_d min

unfoldable pub amomaxu_d : ℕ → ℕ → ℕ × ℕ
amomaxu_d = amo_d max

abbrev pub is_negative : ℕ → ℕ → Bool
is_negative w a = not (ltb a (2 ^ (w - 1)))

abbrev pub unsigned_abs : ℕ → ℕ → ℕ
unsigned_abs w a = if is_negative w a then 2 ^ w - a else a

-- `wrapping_neg`, where the test asks for it.
abbrev pub negated_if : ℕ → Bool → ℕ → ℕ
negated_if w negative a = if negative then (2 ^ w - a) % 2 ^ w else a

abbrev pub signs_differ : Bool → Bool → Bool
signs_differ true b = not b
signs_differ false b = b

-- `wrapping_div` and `wrapping_rem` on `i32` and `i64`: rounded towards 0.
abbrev pub wrapping_div : ℕ → ℕ → ℕ → ℕ
wrapping_div w a b =
    negated_if w (signs_differ (is_negative w a) (is_negative w b))
      (unsigned_abs w a / unsigned_abs w b)

abbrev pub wrapping_rem : ℕ → ℕ → ℕ → ℕ
wrapping_rem w a b = negated_if w (is_negative w a) (unsigned_abs w a % unsigned_abs w b)

unfoldable pub divw : ℕ → ℕ → ℕ
divw lhs rhs =
    let l = lhs % 2 ^ 32 in
    let r = rhs % 2 ^ 32 in
    if r == 0
    then u64_max
    else if l == 2 ^ 31 && r == 2 ^ 32 - 1
    then sign_extended (2 ^ 31)
    else sign_extended (wrapping_div 32 l r)

unfoldable pub remw : ℕ → ℕ → ℕ
remw lhs rhs =
    let l = lhs % 2 ^ 32 in
    let r = rhs % 2 ^ 32 in
    if r == 0
    then sign_extended l
    else if l == 2 ^ 31 && r == 2 ^ 32 - 1
    then 0
    else sign_extended (wrapping_rem 32 l r)

unfoldable pub divuw : ℕ → ℕ → ℕ
divuw lhs rhs =
    let l = lhs % 2 ^ 32 in
    let r = rhs % 2 ^ 32 in if r == 0 then u64_max else sign_extended (l / r)

unfoldable pub remuw : ℕ → ℕ → ℕ
remuw lhs rhs =
    let l = lhs % 2 ^ 32 in
    let r = rhs % 2 ^ 32 in if r == 0 then sign_extended l else sign_extended (l % r)

unfoldable pub mul : ℕ → ℕ → ℕ
mul lhs rhs = lhs * rhs % 2 ^ 64

-- `x as i64 as i128`
abbrev as_i128 : ℕ → ℕ
as_i128 x = if ltb x (2 ^ 63) then x else x + 2 ^ 128 - 2 ^ 64

-- `(x.wrapping_mul(y) >> 64) as u64` on 128 bits.
abbrev pub high_word : ℕ → ℕ → ℕ
high_word x y = x * y % 2 ^ 128 / 2 ^ 64

unfoldable pub mulh : ℕ → ℕ → ℕ
mulh lhs rhs = high_word (as_i128 lhs) (as_i128 rhs)

unfoldable pub mulhu : ℕ → ℕ → ℕ
mulhu lhs rhs = high_word lhs rhs

unfoldable pub mulhsu : ℕ → ℕ → ℕ
mulhsu lhs rhs = high_word (as_i128 lhs) rhs

unfoldable pub div : ℕ → ℕ → ℕ
div lhs rhs =
    if rhs == 0
    then u64_max
    else if lhs == 2 ^ 63 && rhs == u64_max
    then 2 ^ 63
    else wrapping_div 64 lhs rhs

unfoldable pub divu : ℕ → ℕ → ℕ
divu lhs rhs = if rhs == 0 then u64_max else lhs / rhs

unfoldable pub rem : ℕ → ℕ → ℕ
rem lhs rhs =
    if rhs == 0 then lhs else if lhs == 2 ^ 63 && rhs == u64_max then 0 else wrapping_rem 64 lhs rhs

unfoldable pub remu : ℕ → ℕ → ℕ
remu lhs rhs = if rhs == 0 then lhs else lhs % rhs

unfoldable pub mulw : ℕ → ℕ → ℕ
mulw lhs rhs = sign_extended (lhs % 2 ^ 32 * (rhs % 2 ^ 32) % 2 ^ 32)
