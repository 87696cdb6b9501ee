-- ===== src/Machine/Virtio/Net/Frames.antt =====
-- The frames that crates/machine/src/virtio/net.rs hands to its backend.
use mathlib.Core.List.{append_assoc, append-nil}
use native.Mathlib.Nat.{mod-eq_of_lt}
use vpod.Prelude.{
  ℕ, zero, suc, ◌+◌, ◌-◌, ◌^◌, ◌<◌, ◌≤◌, min, false, has, ltb, some, List, [], ◌∷◌, ◌++◌, length,
  drop, drop-append, Bool-cases, inl, inr, ◌≡◌, refl, ap, ap₂, sym, ◌∙◌, arith,
}
use vpod.Bits.{bit, pow_lt}
use vpod.Machine.CowRam.{bytes_at}
use vpod.Machine.CowRam.Contents.{contents}
use vpod.Machine.Virtio.{done}
use vpod.Machine.Virtio.RamView.{RamView, ram_base}
use vpod.Machine.Virtio.RamView.Access.{IsPlain, InRam, read_bytes-contents}
use vpod.Machine.Virtio.Queue.{VirtQueue, VirtDesc}
use vpod.Machine.Virtio.Blk.{Buffer, vring_desc_f_write}
use vpod.Machine.Virtio.Blk.Chain.{Chain, last, link, readable, has_next, has_write}
use vpod.Machine.Virtio.Net.{frame_desc, frame_chain}

-- The bytes of a buffer in the RAM, and those of buffers one after the other.
abbrev pub buffer_bytes : RamView → ℕ → ℕ → List ℕ
buffer_bytes ram addr len = bytes_at (contents ram.memory.ram) (addr - ram_base) len

unfoldable pub all_bytes : RamView → List Buffer → List ℕ
all_bytes ram [] = []
all_bytes ram ((addr, len) ∷ bufs) = buffer_bytes ram addr len ++ all_bytes ram bufs

abbrev pub AllInRam : ℕ → List Buffer → Type 0
AllInRam k [] = 0 ≤ 0
AllInRam k ((addr, len) ∷ bufs) = InRam k addr len × AllInRam k bufs

drop-bytes_at : (f : ℕ → ℕ) (i n m : ℕ) → drop n (bytes_at f i m) ≡ bytes_at f (i + n) (m - n)
unfolding bytes_at
drop-bytes_at f i zero m = ap₂ (bytes_at f) {x = i} {u = m} (omega arith) (omega arith)
drop-bytes_at f i (suc n) zero = ap₂ (bytes_at f) {x = i + suc n} {u = 0} refl (omega arith)
drop-bytes_at f i (suc n) (suc m) =
    drop-bytes_at f (i + 1) n m ∙ ap₂ (bytes_at f) (omega arith) (omega arith)

length-bytes_at : (f : ℕ → ℕ) (i m : ℕ) → length (bytes_at f i m) ≡ m
unfolding bytes_at
length-bytes_at f i zero = refl
length-bytes_at f i (suc m) = ap suc (length-bytes_at f (i + 1) m)

bytes_none : (f : ℕ → ℕ) (i m : ℕ) → m ≡ 0 → [] ≡ bytes_at f i m
unfolding bytes_at
bytes_none f i zero e = refl
bytes_none f i (suc m) e = absurd (omega arith)

-- A buffer to read adds what of it is behind the header.
frame_desc_lem :
    (k : ℕ) (ram : RamView) (desc : VirtDesc) (frame : List ℕ) (h : ℕ)
    → IsPlain k ram
    → has desc.flags vring_desc_f_write ≡ false
    → InRam k desc.addr desc.len
    → h ≤ 12
    → frame_desc ram desc frame h
      ≡ some
          (frame ++ drop (12 - h) (buffer_bytes ram desc.addr desc.len), h + min (12 - h) desc.len)
unfolding frame_desc
frame_desc_lem k ram desc frame h p w r b =
    let i = desc.addr - ram_base in
    let f = contents ram.memory.ram in
    elim (Bool-cases (ltb h 12)) [
      | inl in_header ↦ elim (Bool-cases (ltb 0 (desc.len - min (12 - h) desc.len))) [
        | inl more ↦
            let top : 2 ^ k < 2 ^ 63 = pow_lt k 63 p.power in
            let skip = min (12 - h) desc.len in
            let read =
              read_bytes-contents k ram (desc.addr + skip) (desc.len - skip) p
                (omega (arith, r.0), omega (arith, r.0, r.1)) in
            rw
              (
                w,
                in_header,
                more,
                mod-eq_of_lt {n = desc.addr + skip} {m = 2 ^ 64} (omega (arith, r.0, r.1)),
                read,
              )
              (ap (λ (t : List ℕ). some (frame ++ t, h + skip))
                (ap₂ (bytes_at f) {y = i + (12 - h)} {v = desc.len - (12 - h)} (ground (arith, r.0))
                    (ground arith)
                  ∙ sym (drop-bytes_at f i (12 - h) desc.len)))
        | inr all_header ↦
            rw (w, in_header, all_header)
              (ap (λ (t : List ℕ). some (t, h + min (12 - h) desc.len))
                (sym (append-nil frame)
                  ∙ ap (λ (t : List ℕ). frame ++ t)
                      (bytes_none f (i + (12 - h)) (desc.len - (12 - h)) (ground arith)
                        ∙ sym (drop-bytes_at f i (12 - h) desc.len))))
      ]
      | inr behind ↦
          let past : 12 - h ≡ 0 = ground arith in
          rw (w, behind, read_bytes-contents k ram desc.addr desc.len p r, past)
            (ap (λ (t : ℕ). some (frame ++ bytes_at f i desc.len, t)) (omega arith))
    ]

-- What one descriptor of a chain adds, and what is left for the rest of it.
abbrev FramesFirst : ℕ → RamView → VirtDesc → List VirtDesc → List ℕ → ℕ → Type 0
FramesFirst k ram desc chain frame h =
    (first : List ℕ) × (h' : ℕ) × (frame_desc ram desc frame h ≡ some (frame ++ first, h'))
    × (h' ≤ 12)
    × AllInRam k (readable chain)
    × (first ++ drop (12 - h') (all_bytes ram (readable chain))
        ≡ drop (12 - h) (all_bytes ram (readable (desc ∷ chain))))

frames_first :
    (k : ℕ) (ram : RamView) (desc : VirtDesc) (chain : List VirtDesc) (frame : List ℕ) (h : ℕ)
    → IsPlain k ram
    → AllInRam k (readable (desc ∷ chain))
    → h ≤ 12
    → FramesFirst k ram desc chain frame h
unfolding frame_desc all_bytes readable
frames_first k ram desc chain frame h p r l = elim (Bool-cases (bit desc.flags 1)) [
  | inl write ↦
      ([], h, rw (has_write desc, write, append-nil) refl, l, simp write at r, rw write refl)
  | inr read ↦
      let inside : InRam k desc.addr desc.len × AllInRam k (readable chain) = simp read at r in
      (
        drop (12 - h) (buffer_bytes ram desc.addr desc.len),
        h + min (12 - h) desc.len,
        frame_desc_lem k ram desc frame h p (has_write desc ∙ read) inside.0 l,
        omega arith,
        inside.1,
        rw read (
            ap
              (λ (n : ℕ).
                drop (12 - h) (buffer_bytes ram desc.addr desc.len)
                ++ drop n (all_bytes ram (readable chain)))
              {y = 12 - h - length (buffer_bytes ram desc.addr desc.len)}
              (omega
                (arith, length-bytes_at (contents ram.memory.ram) (desc.addr - ram_base) desc.len))
            ∙ sym (
                drop-append (12 - h) (buffer_bytes ram desc.addr desc.len)
                  (all_bytes ram (readable chain)))),
      )
]

drop_none : (ram : RamView) (n : ℕ) → [] ≡ drop n (all_bytes ram (readable []))
unfolding all_bytes readable
drop_none ram zero = refl
drop_none ram (suc n) = refl

frame_chain_lem :
    (turns k : ℕ) (q : VirtQueue) (ram : RamView) (desc : VirtDesc) (chain : List VirtDesc)
    (frame : List ℕ) (h : ℕ)
    → Chain q ram desc chain
    → length chain ≤ turns
    → IsPlain k ram
    → AllInRam k (readable chain)
    → h ≤ 12
    → frame_chain turns q ram desc frame h
      ≡ done (frame ++ drop (12 - h) (all_bytes ram (readable chain)))
unfolding frame_chain
frame_chain_lem zero k q ram desc chain frame h (last e) t p r l = absurd (omega arith)
frame_chain_lem zero k q ram desc chain frame h (link e f c) t p r l = absurd (omega arith)
frame_chain_lem (suc turns) k q ram desc chain frame h (last e) t p r l =
    let first = frames_first k ram desc [] frame h p r l in
    rw (first.2, has_next desc, e)
      (ap (λ (x : List ℕ). done (frame ++ x))
        (sym (append-nil first.0)
          ∙ ap (λ (t : List ℕ). first.0 ++ t) (drop_none ram (12 - first.1))
          ∙ first.5))
frame_chain_lem (suc turns) k q ram desc chain frame h (link {next} {chain = rest} e f c) t p r l =
    let first = frames_first k ram desc rest frame h p r l in
    rw (first.2, has_next desc, e, f)
      (frame_chain_lem turns k q ram next rest (frame ++ first.0) first.1 c (omega arith) p first.4
          first.3
        ∙ ap done (
            append_assoc frame first.0 (drop (12 - first.1) (all_bytes ram (readable rest)))
            ∙ ap (λ (x : List ℕ). frame ++ x) first.5))

-- A request whose chain ends, and whose buffers to read stand in the RAM, with nothing staged: the
-- frame that is sent is the bytes of these buffers in the order of the chain without the first 12,
-- however the buffers divide these 12. As many turns as the chain has descriptors are enough.
pub frame_chain-Chain :
    (turns k : ℕ) (q : VirtQueue) (ram : RamView) (desc : VirtDesc) (chain : List VirtDesc)
    → Chain q ram desc chain
    → length chain ≤ turns
    → IsPlain k ram
    → AllInRam k (readable chain)
    → frame_chain turns q ram desc [] 0 ≡ done (drop 12 (all_bytes ram (readable chain)))
frame_chain-Chain turns k q ram desc chain c h p r =
    frame_chain_lem turns k q ram desc chain [] 0 c h p r (omega arith)
