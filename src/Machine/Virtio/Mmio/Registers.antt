-- ===== src/Machine/Virtio/Mmio/Registers.antt =====
-- How a driver sets up a queue through the registers of crates/machine/src/virtio/mod.rs, and what a reset leaves.
use native.Mathlib.Nat.{mod-eq_of_lt}
use vpod.Prelude.{
  ℕ, zero, suc, ◌+◌, ◌*◌, ◌/◌, ◌^◌, ◌<◌, ◌≤◌, true, false, leb, ◌==◌, Option, none, some, ◌>>=◌,
  List, [], ◌∷◌, length, get_elem?, set, length-set, get_elem?-set_self, get_elem?-set_ne, ◌≡◌, ◌≢◌,
  refl, ap, ◌∙◌, arith,
}
use vpod.Bits.Halves.{low_half, high_half}
use vpod.Machine.Virtio.Queue.{VirtQueue}
use vpod.Machine.Virtio.Mmio.{
  VirtioMmio, write, write_queue, is_queue_register, selected, set_lo, set_hi, lo, hi,
}
use vpod.Machine.Virtio.Mmio.Words.{IsQueue, IsValid, get_elem?-some}
use vpod.Machine.Virtio.Mmio.State.{run_writes}

-- The writes that set up queue `k`: its size, the two halves of its three addresses, and that it is ready.
abbrev pub setup : ℕ → ℕ → ℕ → ℕ → ℕ → List (ℕ × ℕ)
setup k num desc_addr avail_addr used_addr =
    (0x030, k)
    ∷ (0x038, num)
    ∷ (0x080, lo desc_addr)
    ∷ (0x084, hi desc_addr)
    ∷ (0x090, lo avail_addr)
    ∷ (0x094, hi avail_addr)
    ∷ (0x0a0, lo used_addr)
    ∷ (0x0a4, hi used_addr)
    ∷ (0x044, 1)
    ∷ []

abbrev pub queue_writes : VirtQueue → List (ℕ × ℕ) → VirtQueue
queue_writes q [] = q
queue_writes q ((offset, val) ∷ writes) = queue_writes (write_queue q offset val) writes

join_halves : (x field : ℕ) → x < 2 ^ 64 → field < 2 ^ 64 → set_hi (set_lo field (lo x)) (hi x) ≡ x
join_halves x field h k =
    rw (low_half field (lo x) k (omega arith))
      (high_half (field / 2 ^ 32 * 2 ^ 32 + lo x) (hi x) (omega arith) (omega arith) ∙ omega arith)

set-set : (qs : List VirtQueue) (i : ℕ) (p q : VirtQueue) → set (set qs i p) i q ≡ set qs i q
set-set [] i p q = refl
set-set (x ∷ qs) zero p q = refl
set-set (x ∷ qs) (suc i) p q = ap (λ (t : List VirtQueue). x ∷ t) (set-set qs i p q)

-- Every offset is that of a register of the queue selected.
abbrev OnQueue : List (ℕ × ℕ) → Type 0
OnQueue [] = 0 ≤ 0
OnQueue ((offset, val) ∷ writes) = (is_queue_register offset ≡ true) × OnQueue writes

on_queue_tests :
    (offset : ℕ)
    → is_queue_register offset ≡ true
    → (leb 0x100 offset ≡ false) × ((offset == 0x030) ≡ false) × ((offset == 0x050) ≡ false)
unfolding is_queue_register
on_queue_tests offset h = (ground arith, ground arith, ground arith)

set_same : (qs : List VirtQueue) (i : ℕ) (q : VirtQueue) → get_elem? qs i ≡ some q → qs ≡ set qs i q
set_same [] i q e = refl
set_same (x ∷ qs) zero q e = cc e
set_same (x ∷ qs) (suc i) q e = ap (λ (t : List VirtQueue). x ∷ t) (set_same qs i q e)

write_on_queue :
    (m : VirtioMmio) (q : VirtQueue) (offset val : ℕ)
    → is_queue_register offset ≡ true
    → get_elem? m.queues (selected m) ≡ some q
    → write m offset val
      ≡ some (record m { queues = set m.queues (selected m) (write_queue q offset val) }, none)
unfolding write
write_on_queue m q offset val h e =
    let tests = on_queue_tests offset h in rw (tests.0, tests.1, tests.2, h, e) refl

run_writes-OnQueue :
    (m : VirtioMmio) (q : VirtQueue) (writes : List (ℕ × ℕ))
    → OnQueue writes
    → selected m < length m.queues
    → get_elem? m.queues (selected m) ≡ some q
    → run_writes m writes
      ≡ some (record m { queues = set m.queues (selected m) (queue_writes q writes) }, [])
unfolding run_writes
run_writes-OnQueue m q [] h k e =
    ap (λ (t : List VirtQueue). some (record m { queues = t }, []))
      (set_same m.queues (selected m) q e)
run_writes-OnQueue m q ((offset, val) ∷ writes) h k e =
    let m' = record m { queues = set m.queues (selected m) (write_queue q offset val) } in
    let rest =
      run_writes-OnQueue m' (write_queue q offset val) writes h.1
        (omega (arith, length-set m.queues (selected m) (write_queue q offset val)))
        (get_elem?-set_self m.queues (selected m) (write_queue q offset val) k) in
    rw (write_on_queue m q offset val h.0 e, rest, set-set m.queues (selected m)) refl

-- The queue after the set-up, which leaves how far the device has come in it.
abbrev pub set_up : VirtQueue → ℕ → ℕ → ℕ → ℕ → VirtQueue
set_up q num desc_addr avail_addr used_addr = record q {
  num = num;
  desc_addr = desc_addr;
  avail_addr = avail_addr;
  used_addr = used_addr;
  ready = true;
}

-- The writes of a set-up after that of the selector.
abbrev setup_writes : ℕ → ℕ → ℕ → ℕ → List (ℕ × ℕ)
setup_writes num desc_addr avail_addr used_addr =
    (0x038, num)
    ∷ (0x080, lo desc_addr)
    ∷ (0x084, hi desc_addr)
    ∷ (0x090, lo avail_addr)
    ∷ (0x094, hi avail_addr)
    ∷ (0x0a0, lo used_addr)
    ∷ (0x0a4, hi used_addr)
    ∷ (0x044, 1)
    ∷ []

setup_writes-OnQueue :
    (num desc_addr avail_addr used_addr : ℕ)
    → OnQueue (setup_writes num desc_addr avail_addr used_addr)
unfolding is_queue_register
setup_writes-OnQueue num desc_addr avail_addr used_addr =
    (refl, (refl, (refl, (refl, (refl, (refl, (refl, (refl, omega arith))))))))

run_writes_select :
    (m : VirtioMmio) (k : ℕ) (writes : List (ℕ × ℕ))
    → IsValid m
    → k < m.num_queues
    → run_writes m ((0x030, k) ∷ writes) ≡ run_writes (record m { queue_sel = k }) writes
unfolding run_writes write
run_writes_select m k writes v h =
    let uses : (m.num_queues == 0) ≡ false = ground arith in
    rw (uses, mod-eq_of_lt {n = k} {m = m.num_queues} h)
      (some_bind (run_writes (record m { queue_sel = k }) writes))
  where
    some_bind : (r : Option (VirtioMmio × List ℕ)) → (r >>= λ rest. some (rest.0, rest.1)) ≡ r
    some_bind none = refl
    some_bind (some rest) = refl

queue_writes_lem :
    (q : VirtQueue) (num desc_addr avail_addr used_addr : ℕ)
    → IsQueue q
    → desc_addr < 2 ^ 64
    → avail_addr < 2 ^ 64
    → used_addr < 2 ^ 64
    → queue_writes q (setup_writes num desc_addr avail_addr used_addr)
      ≡ set_up q num desc_addr avail_addr used_addr
unfolding write_queue
queue_writes_lem q num desc_addr avail_addr used_addr v d a u =
    rw
      (
        join_halves desc_addr q.desc_addr d v.desc_addr_lt,
        join_halves avail_addr q.avail_addr a v.avail_addr_lt,
        join_halves used_addr q.used_addr u v.used_addr_lt,
      )
      refl

-- On a valid device, the writes by which a driver sets up a queue that the device uses, with
-- addresses of 64 bits: that queue then has the size and the addresses, and is ready; every other
-- queue is as before.
pub run_writes-setup :
    (m : VirtioMmio) (k num desc_addr avail_addr used_addr : ℕ)
    → IsValid m
    → k < m.num_queues
    → desc_addr < 2 ^ 64
    → avail_addr < 2 ^ 64
    → used_addr < 2 ^ 64
    → (m' : VirtioMmio) × (q : VirtQueue) × (run_writes m
          (setup k num desc_addr avail_addr used_addr)
        ≡ some (m', []))
      × (get_elem? m.queues k ≡ some q)
      × (get_elem? m'.queues k ≡ some (set_up q num desc_addr avail_addr used_addr))
      × ((i : ℕ) → k ≢ i → get_elem? m'.queues i ≡ get_elem? m.queues i)
run_writes-setup m k num desc_addr avail_addr used_addr v h d a u =
    let q = get_elem?-some m.queues k v.all_queues (omega (arith, v.four, v.most_queues)) in
    let m' = record m { queue_sel = k } in
    let at : selected m' ≡ k = omega (arith, v.some_queue, v.most_queues) in
    let writes = setup_writes num desc_addr avail_addr used_addr in
    let done =
      run_writes-OnQueue m' q.0 writes (setup_writes-OnQueue num desc_addr avail_addr used_addr)
        (omega (arith, v.four, v.most_queues)) (ap (get_elem? m.queues) at ∙ q.1) in
    let becomes = queue_writes_lem q.0 num desc_addr avail_addr used_addr q.2 d a u in
    (
      record m' { queues = set m.queues (selected m') (queue_writes q.0 writes) },
      q.0,
      run_writes_select m k writes v h ∙ done,
      q.1,
      rw (at, becomes)
          (get_elem?-set_self m.queues k (set_up q.0 num desc_addr avail_addr used_addr)
            (omega (arith, v.four, v.most_queues))),
      λ i ne. rw at (get_elem?-set_ne m.queues (queue_writes q.0 writes) ne),
    )
