-- ===== src/Machine/Virtio/Console.antt =====
-- crates/machine/src/virtio/console.rs: the console. The output that `flush_tx_to_stdout` writes is its result.
pub mod Order
use vpod.Prelude.{
  ℕ, zero, suc, ◌+◌, ◌%◌, ◌^◌, min, bit_or, Bool, has, ◌==◌, if◌then◌else◌, Option, none, some,
  ◌>>=◌, List, [], ◌∷◌, ◌++◌, length, get_elem?, set,
}
use vpod.Stream.{to_le_bytes}
use vpod.Machine.Virtio.{Run, done, unfinished, ◌>=>◌, checked}
use vpod.Machine.Virtio.RamView
use vpod.Machine.Virtio.RamView.{RamView, splice, read_bytes}
use vpod.Machine.Virtio.Queue.{VirtQueue, VirtDesc, read_desc, pop_avail, push_used}
use vpod.Machine.Virtio.Mmio
use vpod.Machine.Virtio.Mmio.{VirtioMmio}
use vpod.Machine.Virtio.Blk.{vring_desc_f_next, vring_desc_f_write}

abbrev pub device_id : ℕ
device_id = 3

abbrev pub device_features : ℕ
device_features = 2 ^ 0 + 2 ^ 32

abbrev pub queue_rx : ℕ
queue_rx = 0

abbrev pub queue_tx : ℕ
queue_tx = 1

pub record VirtioConsole : Type 0 where
  pub mmio : VirtioMmio
  pub rx_pending : List ℕ
  pub tx_buf : List ℕ

unfoldable pub new : VirtioConsole
new =
    let mmio = Mmio.new device_id device_features 2 in
    record {
      mmio = record mmio {
        config = splice (splice mmio.config 0 (to_le_bytes 2 80)) 2 (to_le_bytes 2 24);
      };
      rx_pending = [];
      tx_buf = [];
    }

unfoldable pub push_rx : VirtioConsole → ℕ → VirtioConsole
push_rx console byte = record console { rx_pending = console.rx_pending ++ (byte ∷ []) }

-- `for offset in 0..bytes_to_write`, of `n` bytes: the RAM, and the bytes still pending.
unfoldable pub write_pending : RamView → ℕ → ℕ → List ℕ → Option (RamView × List ℕ)
write_pending ram address zero pending = some (ram, pending)
write_pending ram address (suc n) [] = none
write_pending ram address (suc n) (byte ∷ pending) =
    RamView.write_u8 ram (address % 2 ^ 64) byte >>= λ ram.
    write_pending ram (address + 1) n pending

-- The RAM, the bytes still pending and the total after a descriptor or a chain.
pub record Received : Type 0 where
  pub ram : RamView
  pub pending : List ℕ
  pub total : ℕ

-- The part of the loop's body that fills a buffer.
unfoldable pub fill_desc : VirtDesc → Received → Option Received
fill_desc desc r =
    let bytes_to_write = min desc.len (length r.pending) in
    let filled = write_pending r.ram desc.addr bytes_to_write r.pending >>= λ w.
    some (record { ram = w.0; pending = w.1; total = (r.total + bytes_to_write) % 2 ^ 32 }) in
    if has desc.flags vring_desc_f_write then filled else some r

-- The loop over the chain of one request, which reads the next descriptor after it filled a buffer.
unfoldable pub fill_chain : ℕ → VirtQueue → VirtDesc → Received → Run Received
fill_chain zero q desc r = unfinished
fill_chain (suc turns) q desc r = checked (fill_desc desc r) >=> λ r.
    let more = checked (read_desc q r.ram desc.next) >=> λ next. fill_chain turns q next r in
    if has desc.flags vring_desc_f_next then more else done r

abbrev pub put_queue : VirtioConsole → ℕ → VirtQueue → VirtioConsole
put_queue console queue_index q = record console {
  mmio = record console.mmio { queues = set console.mmio.queues queue_index q };
}

abbrev pub raise_interrupt : VirtioConsole → VirtioConsole
raise_interrupt console = record console {
  mmio = record console.mmio { int_status = bit_or console.mmio.int_status 1 };
}

-- One request of the receive queue.
unfoldable pub fill_request :
    ℕ → VirtioConsole → VirtQueue → RamView → ℕ → Run (VirtioConsole × RamView)
fill_request turns console q ram head = checked (read_desc q ram head) >=> λ desc.
    fill_chain turns q desc (record { ram = ram; pending = console.rx_pending; total = 0 }) >=> λ r.
    checked (push_used q r.ram head r.total) >=> λ ram.
    done (raise_interrupt (record console { rx_pending = r.pending }), ram)

abbrev pub after_pop :
    VirtioConsole
    → RamView
    → Option ℕ
    → (ℕ → Run (VirtioConsole × RamView))
    → Run (VirtioConsole × RamView)
after_pop console ram none more = done (console, ram)
after_pop console ram (some head) more = more head

abbrev pub unless_empty :
    VirtioConsole × RamView → Run (VirtioConsole × RamView) → Run (VirtioConsole × RamView)
unless_empty s more = if length s.0.rx_pending == 0 then done s else more

-- The loop of `flush_rx`, of `requests` turns at most.
unfoldable pub fill_requests : ℕ → ℕ → VirtioConsole → RamView → Run (VirtioConsole × RamView)
fill_requests zero turns console ram = unfinished
fill_requests (suc requests) turns console ram =
    checked (get_elem? console.mmio.queues queue_rx) >=> λ q.
    checked (pop_avail q ram) >=> λ popped.
    after_pop (put_queue console queue_rx popped.0) ram popped.1 λ head.
      fill_request turns (put_queue console queue_rx popped.0) popped.0 ram head >=> λ s.
      unless_empty s (fill_requests requests turns s.0 s.1)

unfoldable pub flush_rx : ℕ → ℕ → VirtioConsole → RamView → Run (VirtioConsole × RamView)
flush_rx requests turns console ram =
    unless_empty (console, ram) (fill_requests requests turns console ram)

-- The bytes that a descriptor of a request to send adds to the buffer.
unfoldable pub send_desc : RamView → VirtDesc → List ℕ → Option (List ℕ)
send_desc ram desc tx_buf =
    if has desc.flags vring_desc_f_write
    then some tx_buf
    else (read_bytes ram desc.addr desc.len >>= λ buf. some (tx_buf ++ buf))

unfoldable pub send_chain : ℕ → VirtQueue → RamView → VirtDesc → List ℕ → Run (List ℕ)
send_chain zero q ram desc tx_buf = unfinished
send_chain (suc turns) q ram desc tx_buf = checked (send_desc ram desc tx_buf) >=> λ tx_buf.
    let more = checked (read_desc q ram desc.next) >=> λ next. send_chain turns q ram next tx_buf in
    if has desc.flags vring_desc_f_next then more else done tx_buf

unfoldable pub send_request :
    ℕ → VirtioConsole → VirtQueue → RamView → ℕ → Run (VirtioConsole × RamView)
send_request turns console q ram head = checked (read_desc q ram head) >=> λ desc.
    send_chain turns q ram desc console.tx_buf >=> λ tx_buf.
    checked (push_used q ram head 0) >=> λ ram.
    done (raise_interrupt (record console { tx_buf = tx_buf }), ram)

unfoldable pub drain_tx : ℕ → ℕ → VirtioConsole → RamView → Run (VirtioConsole × RamView)
drain_tx zero turns console ram = unfinished
drain_tx (suc requests) turns console ram =
    checked (get_elem? console.mmio.queues queue_tx) >=> λ q.
    checked (pop_avail q ram) >=> λ popped.
    after_pop (put_queue console queue_tx popped.0) ram popped.1 λ head.
      send_request turns (put_queue console queue_tx popped.0) popped.0 ram head >=> λ s.
      drain_tx requests turns s.0 s.1

unfoldable pub notify : ℕ → ℕ → VirtioConsole → ℕ → RamView → Run (VirtioConsole × RamView)
notify requests turns console queue_index ram =
    if queue_index == queue_tx
    then drain_tx requests turns console ram
    else if queue_index == queue_rx
    then flush_rx requests turns console ram
    else done (console, ram)

-- The console, and what is written to the standard output.
unfoldable pub flush_tx_to_stdout : VirtioConsole → VirtioConsole × List ℕ
flush_tx_to_stdout console = (record console { tx_buf = [] }, console.tx_buf)

unfoldable pub take_tx_buffer : VirtioConsole → VirtioConsole × List ℕ
take_tx_buffer console = (record console { tx_buf = [] }, console.tx_buf)
