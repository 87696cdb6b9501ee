-- ===== src/Bits.antt =====
-- Bits of a machine word. `bit x i` is bit `i` of `x`; the laws below read the bitwise operators of
-- the source (`&`, `|`, `!`, `<<`, `>>`) bit by bit, at every width.
mod Step
pub mod Masks
pub mod Halves
use Step.{halve_and, halve_or, halve_xor}
use Prim.Native.Nat.{bit_and-bitwise, bit_xor, bit_xor-bitwise, differ}
use native.Mathlib.Nat.{
  pow-suc, pow-succ', one-le-pow, add-suc, div-add-mod', mod-lt, div-div-eq-div-mul,
}
use vpod.Prelude.{
  bit_not, ℕ, zero, suc, ◌+◌, ◌-◌, ◌*◌, ◌/◌, ◌%◌, ◌^◌, ◌≤◌, ◌<◌, bit_and, bit_or, ◌≡◌, refl, ap,
  ap₂, sym, ◌∙◌, subst, ◌≢◌, Bool, true, false, not, ◌&&◌, ◌||◌, ◌==◌, if◌then◌else◌, Bool-cases,
  inl, inr, arith,
}

-- Bit `i` of `x`, by halving.
unfoldable pub bit : ℕ → ℕ → Bool
bit x zero = x % 2 == 1
bit x (suc i) = bit (x / 2) i

pub bit-and : (a b i : ℕ) → bit (bit_and a b) i ≡ (bit a i && bit b i)
unfolding bit
bit-and a b zero = ground (arith, halve_and a b)
bit-and a b (suc i) = ground (arith, halve_and a b, bit-and (a / 2) (b / 2) i)

pub bit-or : (a b i : ℕ) → bit (bit_or a b) i ≡ (bit a i || bit b i)
unfolding bit
bit-or a b zero = ground (arith, halve_or a b)
bit-or a b (suc i) = ground (arith, halve_or a b, bit-or (a / 2) (b / 2) i)

pub bit-zero : (i : ℕ) → bit 0 i ≡ false
unfolding bit
bit-zero zero = refl
bit-zero (suc i) = bit-zero i

-- A word below `2 ^ w` has no bit from `w` on.
pub bit_above : (w x i : ℕ) → x < 2 ^ w → w ≤ i → bit x i ≡ false
unfolding bit
bit_above zero x i h k = ground (arith, bit-zero i)
bit_above (suc w) x zero h k = absurd (omega arith)
bit_above (suc w) x (suc i) h k = bit_above w (x / 2) i (omega (arith, pow-suc 2 w)) (omega arith)

-- Two words with the same bits are equal.
pub bit_ext : (w x y : ℕ) → x < 2 ^ w → y < 2 ^ w → ((i : ℕ) → i < w → bit x i ≡ bit y i) → x ≡ y
unfolding bit
bit_ext zero x y hx hy h = omega arith
bit_ext (suc w) x y hx hy h = ground (
  arith,
  h 0 (omega arith),
  bit_ext w (x / 2) (y / 2) (omega (arith, pow-suc 2 w)) (omega (arith, pow-suc 2 w))
      (λ i k. h (suc i) (omega arith)),
)

pub bit-not : (w x i : ℕ) → x < 2 ^ w → i < w → bit (bit_not w x) i ≡ not (bit x i)
unfolding bit
bit-not zero x i h k = absurd (omega arith)
bit-not (suc w) x zero h k = ground (arith, pow-suc 2 w, one-le-pow w 2)
bit-not (suc w) x (suc i) h k =
    ap (λ (y : ℕ). bit y i) halved ∙ bit-not w (x / 2) i (omega (arith, pow-suc 2 w)) (omega arith)
  where
    halved : bit_not (suc w) x / 2 ≡ bit_not w (x / 2)
    halved = omega (arith, pow-suc 2 w)

pub bit-pow : (k i : ℕ) → bit (2 ^ k) i ≡ (k == i)
unfolding bit
bit-pow zero zero = refl
bit-pow zero (suc i) = ground (arith, bit-zero i)
bit-pow (suc k) zero = ground (arith, pow-suc 2 k)
bit-pow (suc k) (suc i) = ap (λ (y : ℕ). bit y i) halved ∙ ground (arith, bit-pow k i)
  where
    halved : 2 ^ suc k / 2 ≡ 2 ^ k
    halved = omega (arith, pow-suc 2 k)

and_none : (b : ℕ) → bit_and 0 b ≡ 0
and_none b = bit_and-bitwise 0 b

pub and-le : (w a b : ℕ) → a < 2 ^ w → bit_and a b ≤ a
and-le zero a b h = let e : a ≡ 0 = omega arith in rw e (omega (arith, and_none b))
and-le (suc w) a b h =
    omega (arith, halve_and a b, and-le w (a / 2) (b / 2) (omega (arith, pow-suc 2 w)))

pub and_le_right : (w a b : ℕ) → a < 2 ^ w → bit_and a b ≤ b
and_le_right zero a b h = let e : a ≡ 0 = omega arith in rw e (omega (arith, and_none b))
and_le_right (suc w) a b h =
    omega (arith, halve_and a b, and_le_right w (a / 2) (b / 2) (omega (arith, pow-suc 2 w)))

pub or-lt : (w a b : ℕ) → a < 2 ^ w → b < 2 ^ w → bit_or a b < 2 ^ w
or-lt zero a b h k =
    let e : a ≡ 0 = omega arith in let e' : b ≡ 0 = omega arith in rw (e, e') (omega arith)
or-lt (suc w) a b h k = omega (
  arith,
  pow-suc 2 w,
  halve_or a b,
  or-lt w (a / 2) (b / 2) (omega (arith, pow-suc 2 w)) (omega (arith, pow-suc 2 w)),
)

differ-lt : (x y : ℕ) → x < 2 → y < 2 → differ x y < 2
differ-lt zero y h k = k
differ-lt (suc x) zero h k = h
differ-lt (suc x) (suc y) h k = differ-lt x y (omega arith) (omega arith)

pub xor-lt : (w a b : ℕ) → a < 2 ^ w → b < 2 ^ w → bit_xor a b < 2 ^ w
xor-lt zero a b h k =
    let e : a ≡ 0 = omega arith in
    let e' : b ≡ 0 = omega arith in
    subst (λ (x : ℕ). x < 1) (sym (ap₂ bit_xor e e')) (omega (arith, bit_xor-bitwise 0 0))
xor-lt (suc w) a b h k = omega (
  arith,
  pow-suc 2 w,
  halve_xor a b,
  differ-lt (a % 2) (b % 2) (omega arith) (omega arith),
  xor-lt w (a / 2) (b / 2) (omega (arith, pow-suc 2 w)) (omega (arith, pow-suc 2 w)),
)

pub and_false : (b : Bool) → (b && false) ≡ false
and_false true = refl
and_false false = refl

-- The bits of `x >> k`.
pub bit-shr : (k x i : ℕ) → bit (x / 2 ^ k) i ≡ bit x (i + k)
bit-shr zero x i = ap₂ bit (omega arith) (omega arith)
bit-shr (suc k) x i =
    ap (λ (y : ℕ). bit y i) (rw pow-succ' (sym (div-div-eq-div-mul x 2 (2 ^ k))))
    ∙ bit-shr k (x / 2) i
    ∙ rw (add-suc i k) (unfold bit in refl)

-- A word with no bit set is 0.
pub eq_zero_of_bits : (w x : ℕ) → x < 2 ^ w → ((i : ℕ) → i < w → bit x i ≡ false) → x ≡ 0
eq_zero_of_bits w x h none_set =
    bit_ext w x 0 h (one-le-pow w 2 (omega arith)) (λ i k. none_set i k ∙ sym (bit-zero i))

pub and_zero : (w x : ℕ) → x < 2 ^ w → bit_and x 0 ≡ 0
and_zero w x h =
    eq_zero_of_bits w (bit_and x 0) (omega (arith, and-le w x 0 h))
      (λ i k. bit-and x 0 i ∙ rw bit-zero (and_false (bit x i)))

-- The test `x & (1 << k) != 0` is bit `k`.
pub and-pow : (w k x : ℕ) → x < 2 ^ w → bit_and x (2 ^ k) ≡ (if bit x k then 2 ^ k else 0)
unfolding bit
and-pow w zero x h = ground (arith, halve_and x 1, and_zero w (x / 2))
and-pow w (suc k) x h =
    let halved : 2 ^ suc k / 2 ≡ 2 ^ k = omega (arith, pow-suc 2 k) in
    halve_and x (2 ^ suc k)
    ∙ rw (halved, and-pow w k (x / 2) (omega arith)) (ground (arith, pow-suc 2 k))

-- The count of zero bits below the lowest one; `w` if there is none.
unfoldable pub trailing_zeros : ℕ → ℕ → ℕ
trailing_zeros zero x = 0
trailing_zeros (suc w) x = if x % 2 == 1 then 0 else suc (trailing_zeros w (x / 2))

-- The bit found is set, and lies in the word.
pub trailing_zeros-bit :
    (w x : ℕ) → x < 2 ^ w → x ≢ 0 → (bit x (trailing_zeros w x) ≡ true) × (trailing_zeros w x < w)
unfolding trailing_zeros bit
trailing_zeros-bit zero x h nz = absurd (omega arith)
trailing_zeros-bit (suc w) x h nz = elim (Bool-cases (x % 2 == 1)) [
  | inl odd ↦ rw odd (odd, omega arith)
  | inr even ↦
      let rest = trailing_zeros-bit w (x / 2) (omega (arith, pow-suc 2 w)) (ground arith) in
      rw even (rest.0, omega (arith, rest.1))
]

-- No lower bit is set.
pub trailing_zeros_least : (w x i : ℕ) → i < trailing_zeros w x → bit x i ≡ false
unfolding trailing_zeros bit
trailing_zeros_least zero x i h = absurd (omega arith)
trailing_zeros_least (suc w) x zero h = ground arith
trailing_zeros_least (suc w) x (suc i) h = ground (arith, trailing_zeros_least w (x / 2) i)

pub pow_lt : (k w : ℕ) → k < w → 2 ^ k < 2 ^ w
pow_lt zero zero h = absurd (omega arith)
pow_lt zero (suc w) h = omega (arith, pow-suc 2 w, one-le-pow w 2 (omega arith))
pow_lt (suc k) zero h = absurd (omega arith)
pow_lt (suc k) (suc w) h = omega (arith, pow-suc 2 w, pow-suc 2 k, pow_lt k w (omega arith))
