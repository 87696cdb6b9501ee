-- ===== src/Prelude/Words.antt =====
-- Machine words as natural numbers.
use Prim.Native.Nat.{ℕ, ◌-◌, ◌*◌, ◌%◌, ◌^◌, bit_and}
use mathlib.Core.Bool.{Bool, not, ◌&&◌}
use vpod.Prelude.Tests.{◌==◌, leb}

abbrev pub u64_max : ℕ
u64_max = 2 ^ 64 - 1

-- `!x` on a word of `w` bits.
abbrev pub bit_not : ℕ → ℕ → ℕ
bit_not w x = 2 ^ w - 1 - x

-- `x << k` on 64 bits.
abbrev pub shl : ℕ → ℕ → ℕ
shl x k = x * 2 ^ k % 2 ^ 64

-- `flags & mask != 0`
abbrev pub has : ℕ → ℕ → Bool
has flags mask = not (bit_and flags mask == 0)

-- `(lo..=hi).contains(&n)`
abbrev pub in_range : ℕ → ℕ → ℕ → Bool
in_range lo hi n = leb lo n && leb n hi
