-- ===== src/Bits/Masks.antt =====
-- Words put together from fields and taken apart by masks, as arithmetic.
use native.Mathlib.Nat.{pow-suc, one-le-pow, div-add-mod', mod-lt}
use vpod.Prelude.{
  has, bit_not, ℕ, zero, suc, ◌+◌, ◌-◌, ◌*◌, ◌/◌, ◌%◌, ◌^◌, ◌<◌, bit_and, bit_or, ◌≡◌, refl, ap,
  ap₂, sym, ◌∙◌, not, ◌&&◌, ◌||◌, ◌==◌, arith,
}
use vpod.Bits.Step.{halve_and, halve_or}
use vpod.Bits.{bit, bit-and, bit-or, bit-not, bit-pow, and_zero, and-pow, pow_lt}

or_zero : (w x : ℕ) → x < 2 ^ w → bit_or x 0 ≡ x
or_zero zero x h = let e : x ≡ 0 = omega arith in rw e
or_zero (suc w) x h =
    omega (arith, halve_or x 0, pow-suc 2 w, or_zero w (x / 2) (omega (arith, pow-suc 2 w)))

pub or_comm : (w a b : ℕ) → a < 2 ^ w → b < 2 ^ w → bit_or a b ≡ bit_or b a
or_comm zero a b h k = let e : a ≡ 0 = omega arith in let e' : b ≡ 0 = omega arith in rw (e, e')
or_comm (suc w) a b h k =
    let rest =
      or_comm w (a / 2) (b / 2) (omega (arith, pow-suc 2 w)) (omega (arith, pow-suc 2 w)) in
    omega (arith, halve_or a b, halve_or b a, rest)

-- `(q << k) | r` is a sum where `r` fits `k` bits.
pub or_fields : (w k q r : ℕ) → q < 2 ^ w → r < 2 ^ k → bit_or (q * 2 ^ k) r ≡ q * 2 ^ k + r
or_fields w zero q r b h =
    let e : r ≡ 0 = omega arith in
    rw e (ap₂ bit_or (omega arith) refl ∙ or_zero w q b ∙ omega arith)
or_fields w (suc k) q r b h =
    let shifted : q * 2 ^ suc k / 2 ≡ q * 2 ^ k = omega (arith, scaled) in
    halve_or (q * 2 ^ suc k) r
    ∙ rw (shifted, or_fields w k q (r / 2) b (omega (arith, pow-suc 2 k))) (omega (arith, scaled))
  where
    scaled : q * 2 ^ suc k ≡ 2 * (q * 2 ^ k)
    scaled = omega (arith, ap (λ (t : ℕ). q * t) (pow-suc 2 k))

and_low :
    (w k q r : ℕ) → q * 2 ^ k + r < 2 ^ w → r < 2 ^ k → bit_and (q * 2 ^ k + r) (2 ^ k - 1) ≡ r
and_low w zero q r b h = and_zero w (q * 1 + r) b ∙ omega arith
and_low w (suc k) q r b h =
    let shifted : (q * 2 ^ suc k + r) / 2 ≡ q * 2 ^ k + r / 2 = omega (arith, scaled) in
    let mask : (2 ^ suc k - 1) / 2 ≡ 2 ^ k - 1 = omega (arith, pow-suc 2 k) in
    halve_and (q * 2 ^ suc k + r) (2 ^ suc k - 1)
    ∙ rw (shifted, mask, and_low w k q (r / 2) (omega (arith, scaled)) (omega (arith, pow-suc 2 k)))
        (omega (arith, scaled, pow-suc 2 k, one-le-pow k 2 (omega arith)))
  where
    scaled : q * 2 ^ suc k ≡ 2 * (q * 2 ^ k)
    scaled = omega (arith, ap (λ (t : ℕ). q * t) (pow-suc 2 k))

-- `x & ((1 << k) - 1)` is the remainder by `2 ^ k`.
pub and-mask : (w k x : ℕ) → x < 2 ^ w → bit_and x (2 ^ k - 1) ≡ x % 2 ^ k
and-mask w k x h =
    let split : x / 2 ^ k * 2 ^ k + x % 2 ^ k ≡ x = div-add-mod' x (2 ^ k) in
    let pos : 0 < 2 ^ k = one-le-pow k 2 (omega arith) in
    ap (λ (y : ℕ). bit_and y (2 ^ k - 1)) (sym split)
    ∙ and_low w k (x / 2 ^ k) (x % 2 ^ k) (rw split h) (mod-lt x pos)

-- `x & !((1 << k) - 1)`: the low `k` bits are cleared.
pub and_high :
    (w k q r m : ℕ)
    → q * 2 ^ k + r < 2 ^ w
    → r < 2 ^ k
    → bit_and (q * 2 ^ k + r) (m * 2 ^ k) ≡ bit_and q m * 2 ^ k
and_high w zero q r m b h =
    let e : r ≡ 0 = omega arith in
    ap₂ bit_and {y = q} {v = m} (omega arith) (omega arith) ∙ omega arith
and_high w (suc k) q r m b h =
    let shifted : (q * 2 ^ suc k + r) / 2 ≡ q * 2 ^ k + r / 2 = omega (arith, scaled q) in
    let mask : m * 2 ^ suc k / 2 ≡ m * 2 ^ k = omega (arith, scaled m) in
    halve_and (q * 2 ^ suc k + r) (m * 2 ^ suc k)
    ∙ rw
        (
          shifted,
          mask,
          and_high w k q (r / 2) m (omega (arith, scaled q)) (omega (arith, pow-suc 2 k)),
        )
        (omega (arith, scaled q, scaled m, scaled (bit_and q m)))
  where
    scaled : (t : ℕ) → t * 2 ^ suc k ≡ 2 * (t * 2 ^ k)
    scaled t = omega (arith, ap (λ (u : ℕ). t * u) (pow-suc 2 k))

-- `x & !(1 << k)` clears bit `k` and leaves the others.
pub bit-clear_pow :
    (w a k i : ℕ)
    → k < w
    → i < w
    → bit (bit_and a (bit_not w (2 ^ k))) i ≡ (bit a i && not (k == i))
bit-clear_pow w a k i hk hi =
    bit-and a (bit_not w (2 ^ k)) i ∙ rw (bit-not w (2 ^ k) i (pow_lt k w hk) hi, bit-pow k i)

-- `x | (1 << k)` sets bit `k` and leaves the others.
pub bit-set_pow : (a k i : ℕ) → bit (bit_or a (2 ^ k)) i ≡ (bit a i || k == i)
bit-set_pow a k i = bit-or a (2 ^ k) i ∙ rw bit-pow

lt_two_pow : (x : ℕ) → x < 2 ^ x
lt_two_pow zero = omega arith
lt_two_pow (suc x) = omega (arith, pow-suc 2 x, lt_two_pow x)

-- The test of one bit.
pub has_pow : (x k : ℕ) → has x (2 ^ k) ≡ bit x k
has_pow x k = ground (arith, and-pow x k x (lt_two_pow x), one-le-pow k 2 (omega arith))
