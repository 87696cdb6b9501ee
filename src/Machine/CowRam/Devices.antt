-- ===== src/Machine/CowRam/Devices.antt =====
-- The set of pages that devices wrote, of crates/machine/src/cow_ram.rs: each page once, until it is drained.
use native.Mathlib.Nat.{one-le-pow}
use vpod.Prelude.{
  ℕ, zero, suc, ◌+◌, ◌-◌, ◌*◌, ◌/◌, ◌%◌, ◌^◌, ◌<◌, ◌≤◌, bit_and, bit_or, bit_not, ltb, leb, ◌==◌,
  ◌&&◌, ◌||◌, not, if◌then◌else◌, ◌≡◌, refl, ap, ap₂, sym, ◌∙◌, Bool, true, false, Bool-cases, inl,
  inr, ◌⊎◌, List, [], ◌∷◌, ◌++◌, arith,
}
use vpod.Bits.{bit, and-pow, or-lt, and-le, pow_lt}
use vpod.Bits.Masks.{bit-clear_pow, bit-set_pow}
use vpod.Machine.CowRam.{
  CowRam, page_size, note_page, note_pages, note_device_write, unmark, drain_device_written_pages,
}

unfoldable pub count : ℕ → List ℕ → ℕ
count q [] = 0
count q (p ∷ ps) = (if p == q then 1 else 0) + count q ps

count-append : (q : ℕ) (xs ys : List ℕ) → count q (xs ++ ys) ≡ count q xs + count q ys
unfolding count
count-append q [] ys = omega arith
count-append q (x ∷ xs) ys = omega (arith, count-append q xs ys)

-- Page `q` is marked in the set.
abbrev pub marked : (ℕ → ℕ) → ℕ → Bool
marked seen q = bit (seen (q / 64)) (q % 64)

-- The list holds the pages of the set, each once, and pages are numbered in 32 bits.
pub record IsNoted (r : CowRam) : Type 0 where
  pub words : (i : ℕ) → r.device_written_seen i < 2 ^ 64
  pub once :
      (q : ℕ) → count q r.device_written_pages ≡ (if marked r.device_written_seen q then 1 else 0)

mark_test : (x k : ℕ) → x < 2 ^ 64 → (bit_and x (2 ^ k) == 0) ≡ not (bit x k)
mark_test x k h = ground (arith, and-pow 64 k x h, one-le-pow k 2)

abbrev marking : (ℕ → ℕ) → ℕ → ℕ → ℕ
marking seen p i = if i == p / 64 then bit_or (seen (p / 64)) (2 ^ (p % 64)) else seen i

marking-marked : (seen : ℕ → ℕ) (p q : ℕ) → marked (marking seen p) q ≡ (marked seen q || p == q)
marking-marked seen p q = elim (Bool-cases (q / 64 == p / 64)) [
  | inl same ↦
      let at : q / 64 ≡ p / 64 = ground arith in
      rw same (
        bit-set_pow (seen (p / 64)) (p % 64) (q % 64)
        ∙ ap₂ ◌||◌ (ap (λ (i : ℕ). bit (seen i) (q % 64)) (sym at)) (ground arith))
  | inr other ↦ rw other (ground arith)
]

marking-lt :
    (seen : ℕ → ℕ) (p : ℕ) → ((i : ℕ) → seen i < 2 ^ 64) → (i : ℕ) → marking seen p i < 2 ^ 64
marking-lt seen p h i = elim (Bool-cases (i == p / 64)) [
  | inl same ↦
      rw same
        (or-lt 64 (seen (p / 64)) (2 ^ (p % 64)) (h (p / 64)) (pow_lt (p % 64) 64 (omega arith)))
  | inr other ↦ rw other (h i)
]

-- The body of the loop: a page that is not marked is marked and listed.
pub data Noted (r : CowRam) (p : ℕ) : CowRam → Type 0 where
  again : marked r.device_written_seen p ≡ true → Noted r p r
  first :
      marked r.device_written_seen p ≡ false
      → Noted r p (record r {
        device_written_seen = marking r.device_written_seen p;
        device_written_pages = r.device_written_pages ++ ((p % 2 ^ 32) ∷ []);
      })

note_page-Noted : (r : CowRam) (p : ℕ) → IsNoted r → Noted r p (note_page r p)
unfolding note_page
note_page-Noted r p v = elim (Bool-cases (marked r.device_written_seen p)) [
  | inl set ↦
      rw (mark_test (r.device_written_seen (p / 64)) (p % 64) (v.words (p / 64)), set) (again set)
  | inr clear ↦
      rw (mark_test (r.device_written_seen (p / 64)) (p % 64) (v.words (p / 64)), clear)
        (first clear)
]

or_assoc : (a b c : Bool) → ((a || b) || c) ≡ (a || (b || c))
or_assoc true b c = refl
or_assoc false b c = refl

-- The pages of the second set are those of the first and those of a test.
abbrev pub Adds : CowRam → (ℕ → Bool) → CowRam → Type 0
Adds r test s =
    (q : ℕ) → marked s.device_written_seen q ≡ (marked r.device_written_seen q || test q)

counted :
    (n p q : ℕ) (m m' : Bool)
    → p < 2 ^ 32
    → n ≡ (if m then 1 else 0)
    → m' ≡ (m || p == q)
    → ((p == q) ≡ true → m ≡ false)
    → n + ((if p % 2 ^ 32 == q then 1 else 0) + 0) ≡ (if m' then 1 else 0)
counted n p q m m' h e f clear = ground arith

-- Page `p` joins the set, which stays without a page listed twice.
Noted-IsNoted :
    (r : CowRam) (p : ℕ) (s : CowRam)
    → IsNoted r
    → p < 2 ^ 32
    → Noted r p s
    → IsNoted s × Adds r (λ q. p == q) s
unfolding count
Noted-IsNoted r p s v h (again set) = (v, λ q. kept q (Bool-cases (p == q)))
  where
    kept :
        (q : ℕ)
        → ((p == q) ≡ true) ⊎ ((p == q) ≡ false)
        → marked r.device_written_seen q ≡ (marked r.device_written_seen q || p == q)
    kept q (inl same) =
        let at : p ≡ q = ground arith in
        let here : marked r.device_written_seen q ≡ true =
          ap (λ (t : ℕ). marked r.device_written_seen t) (sym at) ∙ set in
        rw (same, here) refl
    kept q (inr other) = rw other (ground arith)
Noted-IsNoted r p s v h (first clear) = (
  record {
    words = marking-lt r.device_written_seen p v.words;
    once = λ q.
        count-append q r.device_written_pages ((p % 2 ^ 32) ∷ [])
        ∙ counted (count q r.device_written_pages) p q (marked r.device_written_seen q)
            (marked (marking r.device_written_seen p) q) h (v.once q)
            (marking-marked r.device_written_seen p q)
            (λ same.
              let at : p ≡ q = ground arith in
              ap (λ (t : ℕ). marked r.device_written_seen t) (sym at) ∙ clear);
  },
  marking-marked r.device_written_seen p,
)

-- Page `q` is one of the `n` pages from `page` on.
abbrev in_pages : ℕ → ℕ → ℕ → Bool
in_pages page n q = leb page q && ltb q (page + n)

note_pages-IsNoted :
    (r : CowRam) (page n : ℕ)
    → IsNoted r
    → page + n ≤ 2 ^ 32
    → IsNoted (note_pages r page n) × Adds r (in_pages page n) (note_pages r page n)
unfolding note_pages
note_pages-IsNoted r page zero v h = (v, λ q. ground arith)
note_pages-IsNoted r page (suc n) v h =
    let one = Noted-IsNoted r page (note_page r page) v (omega arith) (note_page-Noted r page v) in
    let rest = note_pages-IsNoted (note_page r page) (page + 1) n one.0 (omega arith) in
    (rest.0, λ q. ground (arith, one.1 q, rest.1 q))

-- A device's write of `len` bytes at `index` touches page `q`.
abbrev pub touches : ℕ × ℕ → ℕ → Bool
touches (index, len) q =
    ltb 0 len && leb (index / page_size) q && leb (q * page_size) (index + len - 1)

note_device_write-IsNoted :
    (r : CowRam) (index len : ℕ)
    → IsNoted r
    → index + len ≤ 2 ^ 44
    → IsNoted (note_device_write r index len)
      × Adds r (touches (index, len)) (note_device_write r index len)
unfolding note_device_write
note_device_write-IsNoted r index len v h = elim (Bool-cases (len == 0)) [
  | inl none_written ↦ rw none_written (v, λ q. ground arith)
  | inr some_written ↦
      let first = index / page_size in
      let last = (index + len - 1) / page_size in
      let pos : 0 < len = ground arith in
      let done = note_pages-IsNoted r first (last + 1 - first) v (omega arith) in
      rw some_written (done.0, λ q. done.1 q ∙ ground arith)
]

-- The writes of devices, each with its index and length.
unfoldable pub note_all : CowRam → List (ℕ × ℕ) → CowRam
note_all r [] = r
note_all r ((index, len) ∷ writes) = note_all (note_device_write r index len) writes

abbrev pub any_touches : List (ℕ × ℕ) → ℕ → Bool
any_touches [] q = false
any_touches (w ∷ writes) q = touches w q || any_touches writes q

-- Each write ends below 2 ^ 44, so that its pages are numbered in 32 bits.
abbrev pub AllFit : List (ℕ × ℕ) → Type 0
AllFit [] = 0 ≤ 0
AllFit ((index, len) ∷ writes) = (index + len ≤ 2 ^ 44) × AllFit writes

note_all-IsNoted :
    (r : CowRam) (writes : List (ℕ × ℕ))
    → IsNoted r
    → AllFit writes
    → IsNoted (note_all r writes) × Adds r (any_touches writes) (note_all r writes)
unfolding note_all
note_all-IsNoted r [] v f = (v, λ q. ground arith)
note_all-IsNoted r ((index, len) ∷ writes) v f =
    let one = note_device_write-IsNoted r index len v f.0 in
    let rest = note_all-IsNoted (note_device_write r index len) writes one.0 f.1 in
    (
      rest.0,
      λ q.
          rest.1 q
          ∙ ap (λ (t : Bool). t || any_touches writes q) (one.1 q)
          ∙ or_assoc (marked r.device_written_seen q) (touches (index, len) q)
              (any_touches writes q),
    )

-- One turn of the drain.
abbrev unmarking : (ℕ → ℕ) → ℕ → ℕ → ℕ
unmarking seen p i =
    if i == p / 64 then bit_and (seen (p / 64)) (bit_not 64 (2 ^ (p % 64))) else seen i

unmark-marked :
    (seen : ℕ → ℕ) (pages : List ℕ) (q : ℕ)
    → marked (unmark seen pages) q ≡ (marked seen q && count q pages == 0)
unfolding unmark count
unmark-marked seen [] q = ground arith
unmark-marked seen (p ∷ pages) q =
    unmark-marked (unmarking seen p) pages q
    ∙ ap (λ (t : Bool). t && count q pages == 0) one
    ∙ ground arith
  where
    one : marked (unmarking seen p) q ≡ (marked seen q && not (p == q))
    one = elim (Bool-cases (q / 64 == p / 64)) [
      | inl same ↦
          let at : q / 64 ≡ p / 64 = ground arith in
          rw same (
            bit-clear_pow 64 (seen (p / 64)) (p % 64) (q % 64) (omega arith) (omega arith)
            ∙ ap₂ ◌&&◌ (ap (λ (i : ℕ). bit (seen i) (q % 64)) (sym at)) (ground arith))
      | inr other ↦ rw other (ground arith)
    ]

unmark-lt :
    (seen : ℕ → ℕ) (pages : List ℕ)
    → ((i : ℕ) → seen i < 2 ^ 64)
    → (i : ℕ) → unmark seen pages i < 2 ^ 64
unfolding unmark
unmark-lt seen [] h i = h i
unmark-lt seen (p ∷ pages) h i =
    unmark-lt (unmarking seen p) pages (λ j. one j (Bool-cases (j == p / 64))) i
  where
    one : (j : ℕ) → ((j == p / 64) ≡ true) ⊎ ((j == p / 64) ≡ false) → unmarking seen p j < 2 ^ 64
    one j (inl same) = rw same (
        omega
          (arith, h (p / 64), and-le 64 (seen (p / 64)) (bit_not 64 (2 ^ (p % 64))) (h (p / 64))))
    one j (inr other) = rw other (h j)

drain-IsNoted :
    (r : CowRam)
    → IsNoted r
    → IsNoted (drain_device_written_pages r).0
      × ((q : ℕ) → marked (drain_device_written_pages r).0.device_written_seen q ≡ false)
unfolding drain_device_written_pages count
drain-IsNoted r v =
    let gone : (q : ℕ) → marked (unmark r.device_written_seen r.device_written_pages) q ≡ false =
      λ q.
        unmark-marked r.device_written_seen r.device_written_pages q ∙ ground (arith, v.once q) in
    (
      record {
        words = unmark-lt r.device_written_seen r.device_written_pages v.words;
        once = λ q. rw (gone q) refl;
      },
      gone,
    )

-- From a set in which each marked page is listed once, after any writes of devices that end below 2
-- ^ 44: a drain visits each page that was marked or that a write touches, once, and no other page;
-- it leaves no page marked or listed, and the set as valid as it was.
pub drained_once :
    (r : CowRam) (writes : List (ℕ × ℕ))
    → IsNoted r
    → AllFit writes
    → ((q : ℕ)
        → count q (drain_device_written_pages (note_all r writes)).1
          ≡ (if marked r.device_written_seen q || any_touches writes q then 1 else 0))
      × IsNoted (drain_device_written_pages (note_all r writes)).0
      × ((q : ℕ)
          → marked (drain_device_written_pages (note_all r writes)).0.device_written_seen q ≡ false)
unfolding drain_device_written_pages
drained_once r writes v f =
    let noted = note_all-IsNoted r writes v f in
    (
      λ q. noted.0.once q ∙ ap (λ (t : Bool). if t then 1 else 0) (noted.1 q),
      (drain-IsNoted (note_all r writes) noted.0).0,
      (drain-IsNoted (note_all r writes) noted.0).1,
    )
