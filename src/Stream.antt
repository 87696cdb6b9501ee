-- ===== src/Stream.antt =====
-- Little-endian bytes and the readers of `restore_state` and `deserialize`.
-- A reader is the list of the bytes that it still holds; a writer is the list that it has taken.
use vpod.Prelude.{
  ℕ, zero, suc, ◌+◌, ◌*◌, ◌/◌, ◌%◌, ◌^◌, ◌<◌, ◌≡◌, refl, ap, List, [], ◌∷◌, ◌++◌, Option, none,
  some, length, arith, ltb, if◌then◌else◌, ◌-◌,
}
use native.Mathlib.Nat.{pow-suc}

-- `x.to_le_bytes()` for an integer of `n` bytes.
unfoldable pub to_le_bytes : ℕ → ℕ → List ℕ
to_le_bytes zero x = []
to_le_bytes (suc n) x = (x % 256) ∷ to_le_bytes n (x / 256)

-- `from_le_bytes`.
unfoldable pub from_le_bytes : List ℕ → ℕ
from_le_bytes [] = 0
from_le_bytes (b ∷ bs) = b + 256 * from_le_bytes bs

-- `read_exact` on a buffer of `n` bytes: the bytes and what is left, or none at the end of input.
unfoldable pub read_exact : ℕ → List ℕ → Option (List ℕ × List ℕ)
read_exact zero bs = some ([], bs)
read_exact (suc n) [] = none
read_exact (suc n) (b ∷ bs) = elim (read_exact n bs) [
  | none ↦ none
  | some (front, rest) ↦ some (b ∷ front, rest)
]

-- The state after a chain of reads: all made, or the input ended; `self` keeps what was set before.
pub data Restored (S : Type 0) : Type 0 where
  restored : S → List ℕ → Restored S
  ended : S → Restored S

-- `reader.read_exact(&mut buffer)?; self.<field> = …`, on a buffer of `n` bytes.
unfoldable pub field : {S : Type 0} → ℕ → (List ℕ → S → S) → Restored S → Restored S
field n put (ended s) = ended s
field n put (restored s bs) = elim (read_exact n bs) [
  | none ↦ ended s
  | some (front, rest) ↦ restored (put front s) rest
]

pub length-to_le_bytes : (n x : ℕ) → length (to_le_bytes n x) ≡ n
unfolding to_le_bytes
length-to_le_bytes zero x = refl
length-to_le_bytes (suc n) x = ap suc (length-to_le_bytes n (x / 256))

pub from-to_le_bytes : (n x : ℕ) → x < 256 ^ n → from_le_bytes (to_le_bytes n x) ≡ x
unfolding to_le_bytes from_le_bytes
from-to_le_bytes zero x h = omega arith
from-to_le_bytes (suc n) x h =
    omega (arith, from-to_le_bytes n (x / 256) (omega (arith, pow-suc 256 n)))

pub read_exact-append :
    (n : ℕ) (front rest : List ℕ)
    → length front ≡ n
    → read_exact n (front ++ rest) ≡ some (front, rest)
unfolding read_exact
read_exact-append zero [] rest e = refl
read_exact-append zero (b ∷ bs) rest e = absurd (omega arith)
read_exact-append (suc n) [] rest e = absurd (omega arith)
read_exact-append (suc n) (b ∷ bs) rest e = rw (read_exact-append n bs rest (omega arith))

pub read_exact_short : (n : ℕ) (bs : List ℕ) → length bs < n → read_exact n bs ≡ none
unfolding read_exact
read_exact_short zero bs h = absurd (omega arith)
read_exact_short (suc n) [] h = refl
read_exact_short (suc n) (b ∷ bs) h = rw (read_exact_short n bs (omega arith))

-- A read of what an integer was written as sets the field, and leaves the rest.
pub field-to_le_bytes :
    {S : Type 0} (n x : ℕ) (put : List ℕ → S → S) (s : S) (rest : List ℕ)
    → field n put (restored s (to_le_bytes n x ++ rest)) ≡ restored (put (to_le_bytes n x) s) rest
unfolding field
field-to_le_bytes n x put s rest =
    rw (read_exact-append n (to_le_bytes n x) rest (length-to_le_bytes n x), field)

-- A chain that has ended stays ended.
pub field-ended :
    {S : Type 0} (n : ℕ) (put : List ℕ → S → S) (s : S) → field n put (ended s) ≡ ended s
unfolding field
field-ended n put s = refl

-- How many bytes a chain leaves; `none` if the input ended within it.
abbrev pub bytes_left : {S : Type 0} → Restored S → Option ℕ
bytes_left (restored s bs) = some (length bs)
bytes_left (ended s) = none

-- What is left of `k` bytes after a read of `n`.
abbrev pub take_bytes : ℕ → Option ℕ → Option ℕ
take_bytes n none = none
take_bytes n (some k) = if ltb k n then none else some (k - n)

read_exact_left :
    {S : Type 0} (n : ℕ) (put : List ℕ → S → S) (s : S) (bs : List ℕ)
    → bytes_left (field n put (restored s bs)) ≡ take_bytes n (some (length bs))
unfolding field read_exact
read_exact_left zero put s bs = ground arith
read_exact_left (suc n) put s [] = ground arith
read_exact_left (suc n) put s (b ∷ bs) = ground (arith, read_exact_left n put s bs)

pub field_left :
    {S : Type 0} (n : ℕ) (put : List ℕ → S → S) (r : Restored S)
    → bytes_left (field n put r) ≡ take_bytes n (bytes_left r)
field_left n put (restored s bs) = read_exact_left n put s bs
field_left n put (ended s) = rw field-ended
