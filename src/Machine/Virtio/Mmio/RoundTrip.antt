-- ===== src/Machine/Virtio/Mmio/RoundTrip.antt =====
-- Saving a virtio device of crates/machine/src/virtio/mod.rs and restoring it.
use mathlib.Core.List.{append_assoc}
use vpod.Prelude.{
  ℕ, zero, suc, ◌^◌, ◌<◌, ◌≤◌, Bool, true, false, not, leb, ◌==◌, if◌then◌else◌, none, some, ◌>>=◌,
  List, [], ◌∷◌, ◌++◌, length, take, drop, ◌≡◌, refl, ap, sym, ◌∙◌, arith,
}
use vpod.Stream.{
  restored, field, to_le_bytes, from_le_bytes, from-to_le_bytes, field-to_le_bytes,
  read_exact-append,
}
use vpod.Machine.Virtio.Queue.{VirtQueue}
use vpod.Machine.Virtio.Mmio.{VirtioMmio}
use vpod.Machine.Virtio.Mmio.Words.{IsQueue, IsValid, AllQueues}
use vpod.Machine.Virtio.Mmio.Save.{
  queue_bytes, all_queue_bytes, serialize, restore_queue, restore_queues, restore_header,
  restore_config, deserialize,
}

restore_queue-queue_bytes :
    (q old : VirtQueue) (rest : List ℕ)
    → IsQueue q
    → restore_queue old (queue_bytes q ++ rest) ≡ restored q rest
unfolding restore_queue
restore_queue-queue_bytes q old rest v =
    simp
      (
        append_assoc,
        field-to_le_bytes,
        from-to_le_bytes 4 q.num v.num_lt,
        from-to_le_bytes 2 q.last_avail_idx v.last_avail_idx_lt,
        from-to_le_bytes 8 q.desc_addr v.desc_addr_lt,
        from-to_le_bytes 8 q.avail_addr v.avail_addr_lt,
        from-to_le_bytes 8 q.used_addr v.used_addr_lt,
      )
      (ap (λ (b : Bool). restored (record q { ready = b }) rest) (flag q.ready))
  where
    flag : (b : Bool) → not (from_le_bytes (to_le_bytes 1 (if b then 1 else 0)) == 0) ≡ b
    flag true = rw (from-to_le_bytes 1 1 (omega arith)) refl
    flag false = rw (from-to_le_bytes 1 0 (omega arith)) refl

restore_queues-all_queue_bytes :
    (n : ℕ) (queues olds : List VirtQueue) (rest : List ℕ)
    → n ≤ length queues
    → n ≤ length olds
    → AllQueues queues
    → restore_queues n olds (all_queue_bytes (take n queues) ++ rest)
      ≡ restored (take n queues ++ drop n olds) rest
unfolding restore_queues all_queue_bytes
restore_queues-all_queue_bytes zero queues olds rest h k v = refl
restore_queues-all_queue_bytes (suc n) [] olds rest h k v = absurd (omega arith)
restore_queues-all_queue_bytes (suc n) (q ∷ queues) [] rest h k v = absurd (omega arith)
restore_queues-all_queue_bytes (suc n) (q ∷ queues) (old ∷ olds) rest h k v =
    rw
      (
        append_assoc (queue_bytes q) (all_queue_bytes (take n queues)) rest,
        restore_queue-queue_bytes q old (all_queue_bytes (take n queues) ++ rest) v.0,
        restore_queues-all_queue_bytes n queues olds rest (omega arith) (omega arith) v.1,
      )
      refl

abbrev headed : VirtioMmio → VirtioMmio → VirtioMmio
headed old m = record old {
  driver_features = m.driver_features;
  status = m.status;
  int_status = m.int_status;
  queue_sel = m.queue_sel;
}

restore_header_lem :
    (m old : VirtioMmio) (rest : List ℕ)
    → IsValid m
    → restore_header old (
        to_le_bytes 8 m.driver_features
        ++ (to_le_bytes 4 m.status
            ++ (to_le_bytes 4 m.int_status
                ++ (to_le_bytes 4 m.queue_sel ++ (to_le_bytes 4 m.num_queues ++ rest)))))
      ≡ restored (headed old m, m.num_queues) rest
unfolding restore_header
restore_header_lem m old rest v =
    simp
      (
        field-to_le_bytes,
        from-to_le_bytes 8 m.driver_features v.driver_features_lt,
        from-to_le_bytes 4 m.status v.status_lt,
        from-to_le_bytes 4 m.int_status v.int_status_lt,
        from-to_le_bytes 4 m.queue_sel (omega (arith, v.selects, v.most_queues)),
        from-to_le_bytes 4 m.num_queues (omega (arith, v.most_queues)),
      )
      refl

-- What a device is after a restore into `old` of what `m` was saved as: the identity, the features offered, the
-- selectors of the features and the count of the configuration are those of `old`, as they are not saved.
abbrev pub restored_from : VirtioMmio → VirtioMmio → VirtioMmio
restored_from old m = record old {
  driver_features = m.driver_features;
  status = m.status;
  int_status = m.int_status;
  queue_sel = m.queue_sel;
  queues = take m.num_queues m.queues ++ drop m.num_queues old.queues;
  config = m.config;
}

restore_config_lem :
    (m : VirtioMmio) (queues : List VirtQueue) (config rest : List ℕ)
    → length config ≡ length m.config
    → restore_config m (restored queues (config ++ rest))
      ≡ restored (record m { queues = queues; config = config }) rest
unfolding field
restore_config_lem m queues config rest e =
    rw (field, read_exact-append (length m.config) config rest e) refl

-- Restoring what a valid device was saved as, into a valid device, gives its status, its features
-- accepted, its interrupts, the queue that it selects, its queues in use and its configuration, and
-- reads no further; the rest is as it was before the restore.
pub deserialize-serialize_virtio :
    (m old : VirtioMmio) (rest : List ℕ)
    → IsValid m
    → IsValid old
    → (serialize m >>= λ saved. deserialize old (saved ++ rest))
      ≡ some (restored (restored_from old m) rest)
unfolding serialize deserialize
deserialize-serialize_virtio m old rest v w =
    let all_saved : leb m.num_queues (length m.queues) ≡ true = ground arith in
    let all_restored : leb m.num_queues (length old.queues) ≡ true = ground arith in
    let header =
      restore_header_lem m old (all_queue_bytes (take m.num_queues m.queues) ++ (m.config ++ rest))
        v in
    let queues =
      restore_queues-all_queue_bytes m.num_queues m.queues old.queues (m.config ++ rest)
        (omega (arith, v.four, v.most_queues)) (omega (arith, w.four, v.most_queues))
        v.all_queues in
    simp (all_saved, append_assoc, header, all_restored, queues)
      (ap some (
        restore_config_lem (headed old m)
          (take m.num_queues m.queues ++ drop m.num_queues old.queues) m.config rest
          (v.config_size ∙ sym w.config_size)))

restore_count :
    (old : VirtioMmio) (driver_features status int_status queue_sel num_queues : ℕ) (rest : List ℕ)
    → num_queues < 2 ^ 32
    → (m : VirtioMmio) × (m.queues ≡ old.queues)
      × (restore_header old (
            to_le_bytes 8 driver_features
            ++ (to_le_bytes 4 status
                ++ (to_le_bytes 4 int_status
                    ++ (to_le_bytes 4 queue_sel ++ (to_le_bytes 4 num_queues ++ rest)))))
          ≡ restored (m, num_queues) rest)
unfolding restore_header
restore_count old driver_features status int_status queue_sel num_queues rest h = (
  record old {
    driver_features = from_le_bytes (to_le_bytes 8 driver_features);
    status = from_le_bytes (to_le_bytes 4 status);
    int_status = from_le_bytes (to_le_bytes 4 int_status);
    queue_sel = from_le_bytes (to_le_bytes 4 queue_sel);
  },
  refl,
  simp (field-to_le_bytes, from-to_le_bytes 4 num_queues (omega arith)) refl,
)

-- A saved state that counts more queues than the device has, in 32 bits, is not refused: the
-- restore panics, whatever else the state says.
pub deserialize_panics :
    (old : VirtioMmio) (driver_features status int_status queue_sel num_queues : ℕ) (rest : List ℕ)
    → num_queues < 2 ^ 32
    → length old.queues < num_queues
    → deserialize old (
        to_le_bytes 8 driver_features
        ++ (to_le_bytes 4 status
            ++ (to_le_bytes 4 int_status
                ++ (to_le_bytes 4 queue_sel ++ (to_le_bytes 4 num_queues ++ rest)))))
      ≡ none
unfolding deserialize
deserialize_panics old driver_features status int_status queue_sel num_queues rest h k =
    let header = restore_count old driver_features status int_status queue_sel num_queues rest h in
    let beyond : leb num_queues (length header.0.queues) ≡ false =
      ground (arith, ap length header.1) in
    rw (header.2, beyond) refl
