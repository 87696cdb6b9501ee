-- ===== src/Machine/Virtio/Blk.antt =====
-- crates/machine/src/virtio/blk.rs: the block device. Its file is the list of the bytes in it, on which the host makes no
-- error but those of a position or a range that the file does not have.
pub mod Chain
pub mod Sectors
pub mod Requests
use vpod.Prelude.{
  ℕ, zero, suc, ◌+◌, ◌-◌, ◌*◌, ◌/◌, ◌%◌, ◌^◌, bit_or, Bool, true, false, has, not, ltb, leb, ◌==◌,
  if◌then◌else◌, Option, none, some, List, [], ◌∷◌, ◌++◌, length, get_elem?, set, take, drop,
  replicate,
}
use vpod.Stream.{to_le_bytes}
use vpod.Machine.Virtio.{Run, done, panicked, unfinished, ◌>=>◌, checked}
use vpod.Machine.Virtio.RamView
use vpod.Machine.Virtio.RamView.{RamView, splice, read_bytes, write_bytes}
use vpod.Machine.Virtio.Queue.{VirtQueue, VirtDesc, read_desc, pop_avail, push_used}
use vpod.Machine.Virtio.Mmio
use vpod.Machine.Virtio.Mmio.{VirtioMmio}

abbrev pub vring_desc_f_next : ℕ
vring_desc_f_next = 1

abbrev pub vring_desc_f_write : ℕ
vring_desc_f_write = 2

abbrev pub device_id : ℕ
device_id = 2

abbrev pub device_features : ℕ
device_features = 2 ^ 2 + 2 ^ 6 + 2 ^ 32

abbrev pub sector_size : ℕ
sector_size = 512

abbrev pub blk_t_in : ℕ
blk_t_in = 0

abbrev pub blk_t_out : ℕ
blk_t_out = 1

abbrev pub blk_t_flush : ℕ
blk_t_flush = 4

abbrev pub blk_s_ok : ℕ
blk_s_ok = 0

abbrev pub blk_s_ioerr : ℕ
blk_s_ioerr = 1

abbrev pub blk_s_unsupp : ℕ
blk_s_unsupp = 2

pub record VirtioBlk : Type 0 where
  pub mmio : VirtioMmio
  pub file : List ℕ
  pub sector_count : ℕ

unfoldable pub new : List ℕ → VirtioBlk
new file =
    let sector_count = length file / sector_size in
    let mmio = Mmio.new device_id device_features 1 in
    record {
      mmio = record mmio {
        config =
            splice (splice mmio.config 0 (to_le_bytes 8 sector_count)) 20
              (to_le_bytes 4 sector_size);
      };
      file = file;
      sector_count = sector_count;
    }

-- An address and a length of 32 bits.
abbrev pub Buffer : Type 0
Buffer = ℕ × ℕ

pub record Buffers : Type 0 where
  pub read_bufs : List Buffer
  pub write_bufs : List Buffer

-- `push` of one descriptor, before those of the rest of the chain.
abbrev pub add_desc : VirtDesc → Buffers → Buffers
add_desc desc b =
    if has desc.flags vring_desc_f_write
    then record b { write_bufs = (desc.addr, desc.len) ∷ b.write_bufs }
    else record b { read_bufs = (desc.addr, desc.len) ∷ b.read_bufs }

abbrev pub follow : VirtDesc → Run Buffers → Run Buffers
follow desc rest =
    if has desc.flags vring_desc_f_next
    then (rest >=> λ b. done (add_desc desc b))
    else done (add_desc desc (record { read_bufs = []; write_bufs = [] }))

-- The loop over the chain of a request, of `turns` turns at most.
unfoldable pub collect : ℕ → VirtQueue → RamView → VirtDesc → Run Buffers
collect zero q ram desc = unfinished
collect (suc turns) q ram desc =
    follow desc (checked (read_desc q ram desc.next) >=> λ next. collect turns q ram next)

-- `seek` to a position, which the host takes as a signed number of 64 bits.
abbrev pub can_seek : ℕ → Bool
can_seek position = ltb position (2 ^ 63)

-- `read_exact` of `n` bytes at a position.
unfoldable pub read_at : List ℕ → ℕ → ℕ → Option (List ℕ)
read_at file position n =
    if leb (position + n) (length file) then some (take n (drop position file)) else none

-- `write_all` at a position: a gap before it is filled with zeros, and the file grows as needed.
unfoldable pub write_at : List ℕ → ℕ → List ℕ → List ℕ
write_at file position bytes =
    if length bytes == 0
    then file
    else splice (file ++ replicate (position - length file) 0) position bytes

-- `end_sector > self.sector_count`
abbrev pub out_of_range : VirtioBlk → ℕ → ℕ → Bool
out_of_range blk len sector = ltb blk.sector_count ((sector + len / sector_size) % 2 ^ 64)

-- `none` is the error, and the inner result the RAM or its panic.
abbrev pub to_ram : RamView → ℕ → Option (List ℕ) → Option (Option RamView)
to_ram ram destination none = none
to_ram ram destination (some buf) = some (write_bytes ram destination buf)

unfoldable pub read_sectors : VirtioBlk → RamView → ℕ → ℕ → ℕ → Option (Option RamView)
read_sectors blk ram destination len sector =
    let position = sector * sector_size % 2 ^ 64 in
    if out_of_range blk len sector
    then none
    else if can_seek position
    then to_ram ram destination (read_at blk.file position len)
    else none

abbrev pub to_file : VirtioBlk → ℕ → Option (List ℕ) → Option VirtioBlk
to_file blk position none = none
to_file blk position (some buf) = some (record blk { file = write_at blk.file position buf })

unfoldable pub write_sectors : VirtioBlk → RamView → ℕ → ℕ → ℕ → Option (Option VirtioBlk)
write_sectors blk ram source len sector =
    let position = sector * sector_size % 2 ^ 64 in
    if out_of_range blk len sector
    then none
    else if can_seek position
    then some (to_file blk position (read_bytes ram source len))
    else none

-- The rest of a loop after one buffer: it stops at an error with what is done so far.
abbrev pub next_buffer :
    {S : Type 0} → S → Option (Option S) → (S → Option (S × ℕ)) → Option (S × ℕ)
next_buffer s none more = some (s, blk_s_ioerr)
next_buffer s (some none) more = none
next_buffer s (some (some s')) more = more s'

unfoldable pub read_buffers : VirtioBlk → RamView → ℕ → List Buffer → Option (RamView × ℕ)
read_buffers blk ram sector [] = some (ram, blk_s_ok)
read_buffers blk ram sector ((addr, len) ∷ bufs) =
    next_buffer ram (read_sectors blk ram addr len sector) λ ram. read_buffers blk ram sector bufs

-- `split_last`: all but the last buffer.
unfoldable pub data_bufs : List Buffer → List Buffer
data_bufs [] = []
data_bufs (b ∷ []) = []
data_bufs (b ∷ c ∷ bufs) = b ∷ data_bufs (c ∷ bufs)

unfoldable pub do_read : VirtioBlk → RamView → ℕ → List Buffer → Option (RamView × ℕ)
do_read blk ram sector write_bufs = read_buffers blk ram sector (data_bufs write_bufs)

unfoldable pub do_write : VirtioBlk → RamView → ℕ → List Buffer → Option (VirtioBlk × ℕ)
do_write blk ram sector [] = some (blk, blk_s_ok)
do_write blk ram sector ((addr, len) ∷ bufs) =
    next_buffer blk (write_sectors blk ram addr len sector) λ blk. do_write blk ram sector bufs

-- The device, the RAM and the status after a request of a type.
pub record Served : Type 0 where
  pub blk : VirtioBlk
  pub ram : RamView
  pub status : ℕ

unfoldable pub serve : VirtioBlk → RamView → ℕ → ℕ → List Buffer → List Buffer → Run Served
serve blk ram request_type sector out_bufs write_bufs =
    if request_type == blk_t_in
    then (checked (do_read blk ram sector write_bufs) >=> λ r.
        done (record { blk = blk; ram = r.0; status = r.1 }))
    else if request_type == blk_t_out
    then (checked (do_write blk ram sector out_bufs) >=> λ r.
        done (record { blk = r.0; ram = ram; status = r.1 }))
    else if request_type == blk_t_flush
    then done (record { blk = blk; ram = ram; status = blk_s_ok })
    else done (record { blk = blk; ram = ram; status = blk_s_unsupp })

abbrev pub total_len : List Buffer → ℕ
total_len [] = 0
total_len ((addr, len) ∷ bufs) = len + total_len bufs

abbrev pub last_address : List Buffer → Option ℕ
last_address [] = none
last_address ((addr, len) ∷ []) = some addr
last_address (b ∷ c ∷ bufs) = last_address (c ∷ bufs)

-- What a request leaves, with the length that it reports.
abbrev pub Answer : Type 0
Answer = VirtioBlk × RamView × ℕ

-- The request behind its header, with the status at `status_address`.
unfoldable pub answer :
    VirtioBlk → RamView → ℕ → ℕ → List Buffer → List Buffer → Option ℕ → Run Answer
answer blk ram request_type sector out_bufs write_bufs none = done (blk, ram, 0)
answer blk ram request_type sector out_bufs write_bufs (some status_address) =
    serve blk ram request_type sector out_bufs write_bufs >=> λ s.
    checked (RamView.write_u8 s.ram status_address s.status) >=> λ ram.
    let data_written = if request_type == blk_t_in then total_len (data_bufs write_bufs) else 0 in
    done (s.blk, ram, (data_written + 1) % 2 ^ 32)

unfoldable pub answer_chain : VirtioBlk → RamView → List Buffer → List Buffer → Run Answer
answer_chain blk ram [] write_bufs = done (blk, ram, 0)
answer_chain blk ram ((header_address, header_length) ∷ out_bufs) write_bufs =
    let read_header = checked (RamView.read_u32 ram header_address) >=> λ request_type.
    checked (RamView.read_u64 ram ((header_address + 8) % 2 ^ 64)) >=> λ sector.
    answer blk ram request_type sector out_bufs write_bufs (last_address write_bufs) in
    if ltb header_length 16 then done (blk, ram, 0) else read_header

unfoldable pub process_request : ℕ → VirtioBlk → VirtQueue → RamView → ℕ → Run Answer
process_request turns blk q ram head = checked (read_desc q ram head) >=> λ desc.
    collect turns q ram desc >=> λ b. answer_chain blk ram b.read_bufs b.write_bufs

-- The device after its queue 0 became `q`, and with its interrupt raised.
abbrev pub put_queue : VirtioBlk → VirtQueue → VirtioBlk
put_queue blk q = record blk { mmio = record blk.mmio { queues = set blk.mmio.queues 0 q } }

abbrev pub raise_interrupt : VirtioBlk → VirtioBlk
raise_interrupt blk = record blk {
  mmio = record blk.mmio { int_status = bit_or blk.mmio.int_status 1 };
}

-- The body of the loop of `notify` for one request.
unfoldable pub answer_head : ℕ → VirtioBlk → VirtQueue → RamView → ℕ → Run (VirtioBlk × RamView)
answer_head turns blk q ram head = process_request turns (put_queue blk q) q ram head >=> λ a.
    checked (push_used q a.1 head a.2) >=> λ ram. done (raise_interrupt a.0, ram)

abbrev pub after_pop :
    VirtioBlk
    → VirtQueue
    → RamView
    → Option ℕ
    → (ℕ → Run (VirtioBlk × RamView))
    → Run (VirtioBlk × RamView)
after_pop blk q ram none more = done (put_queue blk q, ram)
after_pop blk q ram (some head) more = more head

-- `requests` is the number of requests, and `turns` that of the descriptors of each, that are answered at most.
unfoldable pub notify : ℕ → ℕ → VirtioBlk → RamView → Run (VirtioBlk × RamView)
notify zero turns blk ram = unfinished
notify (suc requests) turns blk ram = checked (get_elem? blk.mmio.queues 0) >=> λ q.
    checked (pop_avail q ram) >=> λ popped.
    after_pop blk popped.0 ram popped.1
      λ head. answer_head turns blk popped.0 ram head >=> λ s. notify requests turns s.0 s.1
