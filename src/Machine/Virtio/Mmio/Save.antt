-- ===== src/Machine/Virtio/Mmio/Save.antt =====
-- `serialize` and `deserialize` of `VirtioMmio`, crates/machine/src/virtio/mod.rs. `none` is the panic where more queues
-- are counted than the array has. What the input leaves of the configuration where it ends within it is taken as unchanged.
use vpod.Prelude.{
  ℕ, zero, suc, ◌==◌, leb, not, if◌then◌else◌, Option, none, some, List, [], ◌∷◌, ◌++◌, length,
  take,
}
use vpod.Stream.{Restored, restored, ended, field, to_le_bytes, from_le_bytes}
use vpod.Machine.Virtio.Queue.{VirtQueue}
use vpod.Machine.Virtio.Mmio.{VirtioMmio}

abbrev pub queue_bytes : VirtQueue → List ℕ
queue_bytes q =
    to_le_bytes 1 (if q.ready then 1 else 0)
    ++ to_le_bytes 4 q.num
    ++ to_le_bytes 2 q.last_avail_idx
    ++ to_le_bytes 8 q.desc_addr
    ++ to_le_bytes 8 q.avail_addr
    ++ to_le_bytes 8 q.used_addr

-- The loop of `serialize` over the queues.
unfoldable pub all_queue_bytes : List VirtQueue → List ℕ
all_queue_bytes [] = []
all_queue_bytes (q ∷ queues) = queue_bytes q ++ all_queue_bytes queues

unfoldable pub serialize : VirtioMmio → Option (List ℕ)
serialize m =
    if leb m.num_queues (length m.queues)
    then some (
        to_le_bytes 8 m.driver_features
        ++ to_le_bytes 4 m.status
        ++ to_le_bytes 4 m.int_status
        ++ to_le_bytes 4 m.queue_sel
        ++ to_le_bytes 4 m.num_queues
        ++ all_queue_bytes (take m.num_queues m.queues)
        ++ m.config)
    else none

abbrev pub put_ready : List ℕ → VirtQueue → VirtQueue
put_ready b q = record q { ready = not (from_le_bytes b == 0) }

abbrev pub put_num : List ℕ → VirtQueue → VirtQueue
put_num b q = record q { num = from_le_bytes b }

abbrev pub put_last_avail_idx : List ℕ → VirtQueue → VirtQueue
put_last_avail_idx b q = record q { last_avail_idx = from_le_bytes b }

abbrev pub put_desc_addr : List ℕ → VirtQueue → VirtQueue
put_desc_addr b q = record q { desc_addr = from_le_bytes b }

abbrev pub put_avail_addr : List ℕ → VirtQueue → VirtQueue
put_avail_addr b q = record q { avail_addr = from_le_bytes b }

abbrev pub put_used_addr : List ℕ → VirtQueue → VirtQueue
put_used_addr b q = record q { used_addr = from_le_bytes b }

-- The body of the loop of `deserialize`.
unfoldable pub restore_queue : VirtQueue → List ℕ → Restored VirtQueue
restore_queue q bs = field 8 put_used_addr (
    field 8 put_avail_addr (
      field 8 put_desc_addr
        (field 2 put_last_avail_idx (field 4 put_num (field 1 put_ready (restored q bs))))))

abbrev pub after_queue : Restored (List VirtQueue) → VirtQueue → Restored (List VirtQueue)
after_queue (restored queues bs) q = restored (q ∷ queues) bs
after_queue (ended queues) q = ended (q ∷ queues)

abbrev pub next_queue :
    Restored VirtQueue
    → List VirtQueue
    → (List ℕ → Restored (List VirtQueue))
    → Restored (List VirtQueue)
next_queue (ended q) queues more = ended (q ∷ queues)
next_queue (restored q bs) queues more = after_queue (more bs) q

-- The loop over the first `n` queues.
unfoldable pub restore_queues : ℕ → List VirtQueue → List ℕ → Restored (List VirtQueue)
restore_queues zero queues bs = restored queues bs
restore_queues (suc n) [] bs = restored [] bs
restore_queues (suc n) (q ∷ queues) bs =
    next_queue (restore_queue q bs) queues (restore_queues n queues)

-- The device with the number of queues read, a local of `deserialize`.
abbrev pub Header : Type 0
Header = VirtioMmio × ℕ

abbrev pub put_driver_features : List ℕ → Header → Header
put_driver_features b (m, n) = (record m { driver_features = from_le_bytes b }, n)

abbrev pub put_status : List ℕ → Header → Header
put_status b (m, n) = (record m { status = from_le_bytes b }, n)

abbrev pub put_int_status : List ℕ → Header → Header
put_int_status b (m, n) = (record m { int_status = from_le_bytes b }, n)

abbrev pub put_queue_sel : List ℕ → Header → Header
put_queue_sel b (m, n) = (record m { queue_sel = from_le_bytes b }, n)

abbrev pub note_num_queues : List ℕ → Header → Header
note_num_queues b (m, n) = (m, from_le_bytes b)

unfoldable pub restore_header : VirtioMmio → List ℕ → Restored Header
restore_header m bs = field 4 note_num_queues (
    field 4 put_queue_sel (
      field 4 put_int_status
        (field 4 put_status (field 8 put_driver_features (restored (m, 0) bs)))))

abbrev pub put_config : List ℕ → VirtioMmio → VirtioMmio
put_config b m = record m { config = b }

abbrev pub restore_config : VirtioMmio → Restored (List VirtQueue) → Restored VirtioMmio
restore_config m (ended queues) = ended (record m { queues = queues })
restore_config m (restored queues bs) =
    field (length m.config) put_config (restored (record m { queues = queues }) bs)

abbrev pub restore_rest : Restored Header → Option (Restored VirtioMmio)
restore_rest (ended (m, n)) = some (ended m)
restore_rest (restored (m, n) bs) =
    if leb n (length m.queues) then some (restore_config m (restore_queues n m.queues bs)) else none

unfoldable pub deserialize : VirtioMmio → List ℕ → Option (Restored VirtioMmio)
deserialize m bs = restore_rest (restore_header m bs)
