-- ===== src/Machine/Virtio/Net.antt =====
-- crates/machine/src/virtio/net.rs: the network device, over any backend.
pub mod Frames
use vpod.Prelude.{
  ℕ, zero, suc, ◌+◌, ◌-◌, ◌*◌, ◌%◌, ◌^◌, min, bit_or, Bool, true, false, has, not, ltb, leb, ◌==◌,
  ◌&&◌, ◌||◌, if◌then◌else◌, Option, none, some, ◌>>=◌, List, [], ◌∷◌, ◌++◌, length, get_elem?, set,
  take, drop,
}
use vpod.Stream.{to_le_bytes}
use vpod.Machine.Virtio.{Run, done, unfinished, ◌>=>◌, checked}
use vpod.Machine.Virtio.RamView
use vpod.Machine.Virtio.RamView.{RamView, splice, read_bytes, write_bytes}
use vpod.Machine.Virtio.Queue.{VirtQueue, VirtDesc, read_desc, pop_avail, push_used}
use vpod.Machine.Virtio.Mmio
use vpod.Machine.Virtio.Mmio.{VirtioMmio}
use vpod.Machine.Virtio.Blk.{vring_desc_f_next, vring_desc_f_write}

abbrev pub device_id : ℕ
device_id = 1

abbrev pub device_features : ℕ
device_features = 2 ^ 5 + 2 ^ 32

abbrev pub queue_rx : ℕ
queue_rx = 0

abbrev pub queue_tx : ℕ
queue_tx = 1

abbrev pub vnet_hdr_len : ℕ
vnet_hdr_len = 12

-- The trait `NetworkBackend`, of a backend with states `B`.
pub record NetworkBackend (B : Type 0) : Type 0 where
  pub send : B → List ℕ → B
  pub recv : B → B × Option (List ℕ)
  pub has_rx : B → Bool
  pub has_active_connections : B → Bool

-- The bytes that one descriptor adds to a frame, and how much of the header is skipped then.
unfoldable pub frame_desc : RamView → VirtDesc → List ℕ → ℕ → Option (List ℕ × ℕ)
frame_desc ram desc frame hdr_skipped =
    let skip = min (vnet_hdr_len - hdr_skipped) desc.len in
    let after_header =
      if ltb 0 (desc.len - skip)
      then (read_bytes ram ((desc.addr + skip) % 2 ^ 64) (desc.len - skip) >>= λ buf.
          some (frame ++ buf, hdr_skipped + skip))
      else some (frame, hdr_skipped + skip) in
    let whole = read_bytes ram desc.addr desc.len >>= λ buf. some (frame ++ buf, hdr_skipped) in
    if has desc.flags vring_desc_f_write
    then some (frame, hdr_skipped)
    else if ltb hdr_skipped vnet_hdr_len
    then after_header
    else whole

-- The loop of `drain_tx` over the chain of one request.
unfoldable pub frame_chain : ℕ → VirtQueue → RamView → VirtDesc → List ℕ → ℕ → Run (List ℕ)
frame_chain zero q ram desc frame hdr_skipped = unfinished
frame_chain (suc turns) q ram desc frame hdr_skipped =
    checked (frame_desc ram desc frame hdr_skipped) >=> λ f.
    let more =
      checked (read_desc q ram desc.next) >=> λ next. frame_chain turns q ram next f.0 f.1 in
    if has desc.flags vring_desc_f_next then more else done f.0

-- `for j in 0..hdr_bytes`
unfoldable pub write_zeros : RamView → ℕ → ℕ → Option RamView
write_zeros ram address zero = some ram
write_zeros ram address (suc n) =
    RamView.write_u8 ram (address % 2 ^ 64) 0 >>= λ ram. write_zeros ram (address + 1) n

-- The part of a buffer behind the header: `written` bytes are written, `buf_off` of them to this buffer.
unfoldable pub fill_frame : RamView → VirtDesc → List ℕ → ℕ → ℕ → Option (RamView × ℕ)
fill_frame ram desc frame written buf_off =
    let frame_off = written - vnet_hdr_len in
    let n = min (desc.len - buf_off) (length frame - frame_off) in
    let filled =
      write_bytes ram ((desc.addr + buf_off) % 2 ^ 64) (take n (drop frame_off frame)) >>= λ ram.
      some (ram, written + n) in
    if leb vnet_hdr_len written && ltb buf_off desc.len && ltb 0 n
    then filled
    else some (ram, written)

-- The RAM and the bytes written after one buffer to receive into.
unfoldable pub fill_desc : RamView → VirtDesc → List ℕ → ℕ → Option (RamView × ℕ)
fill_desc ram desc frame written =
    let hdr_bytes = min (vnet_hdr_len - written) desc.len in
    let filled = write_zeros ram desc.addr hdr_bytes >>= λ ram.
    fill_frame ram desc frame (written + hdr_bytes) hdr_bytes in
    if has desc.flags vring_desc_f_write then filled else some (ram, written)

-- The loop of `push_rx_frame`.
unfoldable pub fill_chain : ℕ → VirtQueue → VirtDesc → List ℕ → RamView → ℕ → Run (RamView × ℕ)
fill_chain zero q desc frame ram written = unfinished
fill_chain (suc turns) q desc frame ram written =
    checked (fill_desc ram desc frame written) >=> λ f.
    let more =
      checked (read_desc q f.0 desc.next) >=> λ next. fill_chain turns q next frame f.0 f.1 in
    if not (has desc.flags vring_desc_f_next) || leb (vnet_hdr_len + length frame) f.1
    then done f
    else more

pub record VirtioNet (B : Type 0) : Type 0 where
  pub mmio : VirtioMmio
  pub backend : B
  pub rx_hold : List (List ℕ)

unfoldable pub new : {B : Type 0} → B → List ℕ → VirtioNet B
new backend mac =
    let mmio = Mmio.new device_id device_features 2 in
    record {
      mmio = record mmio { config = splice (splice mmio.config 0 mac) 6 (to_le_bytes 2 1) };
      backend = backend;
      rx_hold = [];
    }

unfoldable pub put_queue : {B : Type 0} → VirtioNet B → ℕ → VirtQueue → VirtioNet B
put_queue net queue_idx q = record net {
  mmio = record net.mmio { queues = set net.mmio.queues queue_idx q };
}

unfoldable pub raise_interrupt : {B : Type 0} → VirtioNet B → VirtioNet B
raise_interrupt net = record net {
  mmio = record net.mmio { int_status = bit_or net.mmio.int_status 1 };
}

module _ {B : Type 0} (methods : NetworkBackend B) where
  unfoldable pub rx_pending : VirtioNet B → Bool
  rx_pending net = not (length net.rx_hold == 0) || methods.has_rx net.backend

  unfoldable pub has_active_connections : VirtioNet B → Bool
  has_active_connections net = methods.has_active_connections net.backend

  -- `if !frame.is_empty()`
  unfoldable pub send_frame : VirtioNet B → List ℕ → VirtioNet B
  send_frame net frame =
      if length frame == 0 then net else record net { backend = methods.send net.backend frame }

  unfoldable pub send_request :
      ℕ → VirtioNet B → VirtQueue → RamView → ℕ → Run (VirtioNet B × RamView)
  send_request turns net q ram head = checked (read_desc q ram head) >=> λ desc.
      frame_chain turns q ram desc [] 0 >=> λ frame.
      checked (push_used q ram head 0) >=> λ ram. done (raise_interrupt (send_frame net frame), ram)

module _ {B : Type 0} where
  abbrev pub after_pop :
      VirtioNet B
      → RamView
      → Option ℕ
      → (ℕ → Run (VirtioNet B × RamView))
      → Run (VirtioNet B × RamView)
  after_pop net ram none more = done (net, ram)
  after_pop net ram (some head) more = more head

  -- The device, the RAM, and whether the frame was taken.
  unfoldable pub push_request :
      ℕ → VirtioNet B → VirtQueue → RamView → List ℕ → Option ℕ → Run (VirtioNet B × RamView × Bool)
  push_request turns net q ram frame none = done (net, ram, false)
  push_request turns net q ram frame (some head) = checked (read_desc q ram head) >=> λ desc.
      fill_chain turns q desc frame ram 0 >=> λ f.
      checked (push_used q f.0 head (f.1 % 2 ^ 32)) >=> λ ram. done (raise_interrupt net, ram, true)

  unfoldable pub push_rx_frame :
      ℕ → VirtioNet B → RamView → List ℕ → Run (VirtioNet B × RamView × Bool)
  push_rx_frame turns net ram frame = checked (get_elem? net.mmio.queues queue_rx) >=> λ q.
      checked (pop_avail q ram) >=> λ popped.
      push_request turns (put_queue net queue_rx popped.0) popped.0 ram frame popped.1

  -- The rest of a loop of `poll_rx` after a frame: it goes on, or the frame is held back and `poll_rx` returns.
  abbrev pub go_on :
      Run (VirtioNet B × RamView × Bool)
      → (VirtioNet B → VirtioNet B)
      → (VirtioNet B → RamView → Run (VirtioNet B × RamView × Bool))
      → Run (VirtioNet B × RamView × Bool)
  go_on r hold more = r >=> λ p. if p.2 then more p.0 p.1 else done (hold p.0, p.1, false)

  abbrev pub after_recv :
      VirtioNet B
      → RamView
      → Option (List ℕ)
      → (List ℕ → Run (VirtioNet B × RamView × Bool))
      → Run (VirtioNet B × RamView × Bool)
  after_recv net ram none more = done (net, ram, true)
  after_recv net ram (some frame) more = more frame

  -- The loop over the frames held back; the last component says whether `poll_rx` goes on.
  unfoldable pub push_held :
      ℕ → VirtioNet B → RamView → List (List ℕ) → Run (VirtioNet B × RamView × Bool)
  push_held turns net ram [] = done (record net { rx_hold = [] }, ram, true)
  push_held turns net ram (frame ∷ frames) =
      go_on (push_rx_frame turns (record net { rx_hold = frames }) ram frame)
        (λ net. record net { rx_hold = frame ∷ net.rx_hold })
        (λ net ram. push_held turns net ram frames)

module _ {B : Type 0} (methods : NetworkBackend B) where
  unfoldable pub drain_tx : ℕ → ℕ → VirtioNet B → RamView → Run (VirtioNet B × RamView)
  drain_tx zero turns net ram = unfinished
  drain_tx (suc requests) turns net ram = checked (get_elem? net.mmio.queues queue_tx) >=> λ q.
      checked (pop_avail q ram) >=> λ popped.
      after_pop (put_queue net queue_tx popped.0) ram popped.1 λ head.
        send_request methods turns (put_queue net queue_tx popped.0) popped.0 ram head >=> λ s.
        drain_tx requests turns s.0 s.1

  unfoldable pub notify : ℕ → ℕ → VirtioNet B → ℕ → RamView → Run (VirtioNet B × RamView)
  notify requests turns net queue_idx ram =
      if queue_idx == queue_tx then drain_tx requests turns net ram else done (net, ram)

  -- The loop over what the backend receives, of `frames` frames at most.
  unfoldable pub push_received : ℕ → ℕ → VirtioNet B → RamView → Run (VirtioNet B × RamView × Bool)
  push_received zero turns net ram = unfinished
  push_received (suc frames) turns net ram =
      let received = methods.recv net.backend in
      after_recv (record net { backend = received.0 }) ram received.1
        λ frame.
          go_on (push_rx_frame turns (record net { backend = received.0 }) ram frame)
            (λ net. record net { rx_hold = net.rx_hold ++ (frame ∷ []) })
            (λ net ram. push_received frames turns net ram)

  unfoldable pub poll_rx : ℕ → ℕ → VirtioNet B → RamView → Run (VirtioNet B × RamView × Bool)
  poll_rx frames turns net ram =
      go_on (push_held turns net ram net.rx_hold) (λ net. net)
        (λ net ram. push_received frames turns net ram)
