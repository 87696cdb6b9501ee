-- ===== src/Machine/Virtio/Examples.antt =====
-- A device with one queue in a RAM of two pages: three requests wait, and the descriptor of the first leads to itself.
use vpod.Prelude.{
  ℕ, ◌+◌, ◌*◌, ◌%◌, ◌^◌, ◌<◌, bit_and, true, has, ◌==◌, if◌then◌else◌, none, some, ◌>>=◌, List, [],
  ◌∷◌, ◌++◌, length, drop, get_elem?, get_or, replicate, length-replicate, ◌≡◌, ◌≢◌, refl, ap, ◌∙◌,
  Bool-cases, inl, inr, arith,
}
use vpod.Bits.Masks.{and-mask}
use vpod.Stream.{to_le_bytes, from_le_bytes, restored}
use vpod.Machine.CowRam
use vpod.Machine.CowRam.{Memory, page_ref, bytes_at, read_pages, read_into}
use vpod.Machine.CowRam.Contents.{contents}
use vpod.Machine.Virtio.{done, unfinished}
use vpod.Machine.Virtio.RamView
use vpod.Machine.Virtio.RamView.{RamView, read_bytes, write_bytes, staged, idx, slice_or}
use vpod.Machine.Virtio.RamView.Access.{IsPlain, word_at, byte_at}
use vpod.Machine.Virtio.Queue.{
  VirtQueue, VirtDesc, default, read_desc, pop_avail, push_used, slot_of, avail_entry,
}
use vpod.Machine.Virtio.Queue.Ring.{Offers, pop_all, pop_all-entries}
use vpod.Machine.Virtio.Queue.Used.{HasUsedRing, used_entry, push_used-reads}
use vpod.Machine.Virtio.Mmio
use vpod.Machine.Virtio.Mmio.{VirtioMmio, write, read}
use vpod.Machine.Virtio.Mmio.Words.{IsValid}
use vpod.Machine.Virtio.Mmio.State.{run_writes, new-IsValid}
use vpod.Machine.Virtio.Mmio.Registers.{setup, set_up, run_writes-setup}
use vpod.Machine.Virtio.Mmio.Save.{serialize, deserialize}
use vpod.Machine.Virtio.Mmio.RoundTrip.{
  restored_from, deserialize-serialize_virtio, deserialize_panics,
}
use vpod.Machine.Virtio.Blk.{
  VirtioBlk, Buffers, collect, notify, do_read, read_sectors, write_sectors,
}
use vpod.Bits.{bit}
use vpod.Machine.Virtio.Blk.Chain.{
  Chain, last, link, readable, writable, collect-Chain, Leads, notify_cycle,
}
use vpod.Machine.Virtio.Blk.Sectors.{IsDisk, read_sectors-write_sectors, write_sectors_past_end}
use vpod.Machine.Virtio.Blk.Requests.{do_read_repeats}
use vpod.Machine.Virtio.Console.{send_chain}
use vpod.Machine.Virtio.Console.Order.{read_all, send_chain-Chain}
use vpod.Machine.Virtio.Net.{frame_chain}
use vpod.Machine.Virtio.Net.Frames.{AllInRam, all_bytes, frame_chain-Chain}

abbrev memory : Memory
memory = record {
  ram = record {
    base = λ i.
        if i == 12
        then 1
        else if i == 19
        then 128
        else if i == 24
        then 4
        else if i == 4098
        then 3
        else if i == 4102
        then 1
        else 0;
    pages = λ _. none;
    num_pages = 3;
    len = 8200;
    mask = 8191;
    epoch = 1;
    device_written_pages = [];
    device_written_seen = λ _. 0;
  };
  epoch_source = 2;
}

abbrev view : RamView
view = RamView.new memory 8191

view-IsPlain : IsPlain 13 view
view-IsPlain = record { unstaged = refl; power = omega arith; mask_lem = refl; fits = omega arith }

abbrev queue : VirtQueue
queue = record {
  ready = true;
  num = 2;
  last_avail_idx = 0;
  desc_addr = 0x80000000;
  avail_addr = 0x80001000;
  used_addr = 0x80001800;
}

abbrev ring : ℕ → ℕ
ring position = if position % 2 == 0 then 0 else 1

reads_slot :
    (slot position : ℕ)
    → bit_and position 1 ≡ slot
    → RamView.read_u16 view (avail_entry queue slot) ≡ some (ring position)
    → RamView.read_u16 view (avail_entry queue (slot_of queue position)) ≡ some (ring position)
reads_slot slot position e h = ap (λ (t : ℕ). RamView.read_u16 view (avail_entry queue t)) e ∙ h

reads_entry : RamView.read_u16 view 0x80001004 ≡ some 0
reads_entry = unfold RamView.read_u16 idx CowRam.read_u16 page_ref bytes_at from_le_bytes in refl

reads_other : RamView.read_u16 view 0x80001006 ≡ some 1
reads_other = unfold RamView.read_u16 idx CowRam.read_u16 page_ref bytes_at from_le_bytes in refl

queue-Offers : Offers queue view 3 ring
queue-Offers = record {
  is_ready = refl;
  position = unfold RamView.read_u16 idx CowRam.read_u16 page_ref bytes_at from_le_bytes in refl;
  entry = λ position h. elim (Bool-cases (position % 2 == 0)) [
    | inl even ↦
        reads_slot 0 position (and-mask 16 1 position h ∙ ground arith) (rw even reads_entry)
    | inr odd ↦ reads_slot 1 position (and-mask 16 1 position h ∙ ground arith) (rw odd reads_other)
  ];
}

pop_all-entries_example :
    pop_all 4 queue view ≡ some (record queue { last_avail_idx = 3 }, 0 ∷ 1 ∷ 0 ∷ [])
pop_all-entries_example =
    pop_all-entries 3 queue view 3 ring queue-Offers (omega arith) (omega arith) refl

queue-HasUsedRing : HasUsedRing 13 queue
queue-HasUsedRing = record {
  some_entry = omega arith;
  size = omega arith;
  ring = (omega arith, omega arith);
}

push_used-reads_example :
    let entry = used_entry queue (word_at view 2 0x80001802) in
    (v' : RamView) × (push_used queue view 7 512 ≡ some v')
    × (word_at v' 2 0x80001802 ≡ (word_at view 2 0x80001802 + 1) % 2 ^ 16)
    × (word_at v' 4 entry ≡ 7)
    × (word_at v' 4 (entry + 4) ≡ 512)
    × IsPlain 13 v'
push_used-reads_example =
    push_used-reads 13 queue view 7 512 view-IsPlain queue-HasUsedRing (omega arith)
      (unfold contents bytes_at from_le_bytes in omega arith) (omega arith) (omega arith)

device-IsValid : IsValid (Mmio.new 2 5 2)
device-IsValid = new-IsValid 2 5 2 (omega arith) (omega arith) (omega arith)

run_writes-setup_example :
    (m' : VirtioMmio) × (q : VirtQueue) × (run_writes
        (Mmio.new 2 5 2)
        (setup 1 256 0x80000000 0x80001000 0x180001800)
      ≡ some (m', []))
    × (get_elem? (Mmio.new 2 5 2).queues 1 ≡ some q)
    × (get_elem? m'.queues 1 ≡ some (set_up q 256 0x80000000 0x80001000 0x180001800))
    × ((i : ℕ) → 1 ≢ i → get_elem? m'.queues i ≡ get_elem? (Mmio.new 2 5 2).queues i)
run_writes-setup_example =
    run_writes-setup (Mmio.new 2 5 2) 1 256 0x80000000 0x80001000 0x180001800 device-IsValid
      (unfold Mmio.new in omega arith) (omega arith) (omega arith) (omega arith)

deserialize-serialize_virtio_example :
    (serialize (Mmio.new 2 5 2) >>= λ saved. deserialize (Mmio.new 2 5 2) (saved ++ 9 ∷ []))
    ≡ some (restored (restored_from (Mmio.new 2 5 2) (Mmio.new 2 5 2)) (9 ∷ []))
deserialize-serialize_virtio_example =
    deserialize-serialize_virtio (Mmio.new 2 5 2) (Mmio.new 2 5 2) (9 ∷ []) device-IsValid
      device-IsValid

deserialize_panics_example :
    deserialize (Mmio.new 2 5 2) (
      to_le_bytes 8 0
      ++ (to_le_bytes 4 1 ++ (to_le_bytes 4 2 ++ (to_le_bytes 4 3 ++ (to_le_bytes 4 5 ++ [])))))
    ≡ none
deserialize_panics_example =
    deserialize_panics (Mmio.new 2 5 2) 0 1 2 3 5 [] (omega arith) (unfold Mmio.new in omega arith)

-- A descriptor that leads to the second one, which ends the chain; and the first, which leads to itself.
abbrev begins : VirtDesc
begins = record { addr = 0x80001000; len = 16; flags = 1; next = 1 }

abbrev ends : VirtDesc
ends = record { addr = 0x80000000; len = 4; flags = 0; next = 0 }

abbrev loops : VirtDesc
loops = record { addr = 0; len = 0; flags = 1; next = 0 }

reads_ends : read_desc queue view 1 ≡ some ends
unfolding read_desc RamView.read_u16 RamView.read_u32 RamView.read_u64 idx CowRam.read_u16
    CowRam.read_u32 CowRam.read_u64 page_ref bytes_at from_le_bytes
reads_ends = refl

abbrev both : Buffers
both = record { read_bufs = (0x80001000, 16) ∷ (0x80000000, 4) ∷ []; write_bufs = [] }

both-Chain : Chain queue view begins (begins ∷ ends ∷ [])
unfolding bit
both-Chain = link refl reads_ends (last refl)

collect-Chain_example : collect 3 queue view begins ≡ done both
unfolding readable writable bit
collect-Chain_example =
    collect-Chain 3 queue view begins (begins ∷ ends ∷ []) both-Chain (omega arith)

reads_loops : read_desc (record queue { last_avail_idx = 1 }) view 0 ≡ some loops
unfolding read_desc RamView.read_u16 RamView.read_u32 RamView.read_u64 idx CowRam.read_u16
    CowRam.read_u32 CowRam.read_u64 page_ref bytes_at from_le_bytes
reads_loops = refl

abbrev disk : List ℕ → VirtioBlk
disk file = record {
  mmio = record {
    device_id = 2;
    device_features = 0;
    driver_features = 0;
    device_features_sel = 0;
    driver_features_sel = 0;
    status = 0;
    int_status = 0;
    queue_sel = 0;
    queues = queue ∷ default ∷ default ∷ default ∷ [];
    config = [];
    config_gen = 0;
    num_queues = 1;
  };
  file = file;
  sector_count = 2;
}

pops_head : pop_avail queue view ≡ some (record queue { last_avail_idx = 1 }, some 0)
unfolding pop_avail RamView.read_u16 idx CowRam.read_u16 page_ref bytes_at from_le_bytes
pops_head = refl

loops_lead : Leads (record queue { last_avail_idx = 1 }) view (λ desc. desc ≡ loops)
loops_lead desc e = (
  ap (λ (d : VirtDesc). has d.flags 1) e,
  (
    loops,
    ap (λ (d : VirtDesc). read_desc (record queue { last_avail_idx = 1 }) view d.next) e
        ∙ reads_loops,
    refl,
  ),
)

notify_cycle_example : notify 3 100 (disk []) view ≡ unfinished
notify_cycle_example =
    notify_cycle 3 100 (disk []) view queue (record queue { last_avail_idx = 1 }) 0 loops
      (λ desc. desc ≡ loops) refl pops_head reads_loops loops_lead refl

abbrev contents_7 : List ℕ
contents_7 = replicate 1024 7

file_size : length contents_7 ≡ 1024
file_size = length-replicate {A = ℕ} 1024 7

disk-IsDisk : IsDisk (disk contents_7)
disk-IsDisk = record { counted = omega (arith, file_size); seekable = omega (arith, file_size) }

reads_ring : read_bytes view 0x80001000 3 ≡ some (0 ∷ 0 ∷ 3 ∷ [])
unfolding read_bytes staged idx read_into read_pages page_ref bytes_at
reads_ring = refl

read_sectors-write_sectors_example :
    (blk : VirtioBlk) × (write_sectors (disk contents_7) view 0x80001000 3 1 ≡ some (some blk))
    × IsDisk blk
    × (read_sectors blk view 0x80000100 3 1 ≡ some (write_bytes view 0x80000100 (0 ∷ 0 ∷ 3 ∷ [])))
read_sectors-write_sectors_example =
    read_sectors-write_sectors (disk contents_7) view 0x80001000 0x80000100 1 (0 ∷ 0 ∷ 3 ∷ [])
      disk-IsDisk (omega arith) (omega (arith, file_size)) reads_ring

write_sectors_past_end_example :
    (blk : VirtioBlk) × (write_sectors (disk contents_7) view 0x80001000 3 2 ≡ some (some blk))
    × (length blk.file ≡ length contents_7 + 3)
write_sectors_past_end_example =
    write_sectors_past_end (disk contents_7) view 0x80001000 (0 ∷ 0 ∷ 3 ∷ []) disk-IsDisk
      (omega (arith, file_size)) (omega arith) (omega arith) reads_ring

do_read_repeats_example :
    (ram : RamView) × (do_read
        (disk contents_7)
        view
        0
        ((0x80000000, 512) ∷ (0x80000200, 512) ∷ (0x80000400, 1) ∷ [])
      ≡ some (ram, 0))
    × ((j : ℕ)
        → j < 512
        → (byte_at ram (0x80000000 + j) ≡ get_or contents_7 (0 * 512 + j) 0)
          × (byte_at ram (0x80000200 + j) ≡ get_or contents_7 (0 * 512 + j) 0))
do_read_repeats_example =
    do_read_repeats 13 (disk contents_7) view 0 0x80000000 0x80000200 512 (0x80000400, 1)
      disk-IsDisk view-IsPlain (omega arith) (omega arith) (omega (arith, file_size))
      (omega arith, omega arith) (omega arith, omega arith) (inl (omega arith))

reads_both :
    read_all view both.read_bufs
    ≡ some (0 ∷ 0 ∷ 3 ∷ 0 ∷ 0 ∷ 0 ∷ 1 ∷ 0 ∷ 0 ∷ 0 ∷ 0 ∷ 0 ∷ 0 ∷ 0 ∷ 0 ∷ 0 ∷ 0 ∷ 0 ∷ 0 ∷ 0 ∷ [])
unfolding read_all read_bytes staged idx read_into read_pages page_ref bytes_at
reads_both = refl

send_chain-Chain_example :
    send_chain 2 queue view begins (8 ∷ [])
    ≡ done (8 ∷ 0 ∷ 0 ∷ 3 ∷ 0 ∷ 0 ∷ 0 ∷ 1 ∷ 0 ∷ 0 ∷ 0 ∷ 0 ∷ 0 ∷ 0 ∷ 0 ∷ 0 ∷ 0 ∷ 0 ∷ 0 ∷ 0 ∷ 0 ∷ [])
unfolding readable bit
send_chain-Chain_example =
    send_chain-Chain 2 queue view begins (begins ∷ ends ∷ []) (8 ∷ [])
      (0 ∷ 0 ∷ 3 ∷ 0 ∷ 0 ∷ 0 ∷ 1 ∷ 0 ∷ 0 ∷ 0 ∷ 0 ∷ 0 ∷ 0 ∷ 0 ∷ 0 ∷ 0 ∷ 0 ∷ 0 ∷ 0 ∷ 0 ∷ [])
      both-Chain (omega arith) reads_both

both-AllInRam : AllInRam 13 both.read_bufs
both-AllInRam = ((omega arith, omega arith), ((omega arith, omega arith), omega arith))

frame_chain-Chain_example :
    frame_chain 2 queue view begins [] 0 ≡ done (drop 12 (all_bytes view both.read_bufs))
unfolding readable bit
frame_chain-Chain_example =
    frame_chain-Chain 2 13 queue view begins (begins ∷ ends ∷ []) both-Chain (omega arith)
      view-IsPlain both-AllInRam
