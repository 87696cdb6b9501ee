-- ===== src/Machine/Virtio/Console/Order.antt =====
-- The order of the bytes that crates/machine/src/virtio/console.rs sends and receives.
use mathlib.Core.List.{append_assoc, append-nil}
use vpod.Prelude.{
  ℕ, zero, suc, ◌+◌, ◌-◌, ◌%◌, ◌^◌, ◌<◌, ◌≤◌, min, true, false, has, Option, none, some, ◌>>=◌,
  List, [], ◌∷◌, ◌++◌, length, drop, get_or, Bool-cases, inl, inr, ◌≡◌, refl, ap, sym, ◌∙◌, arith,
}
use native.Mathlib.Nat.{mod-eq_of_lt}
use vpod.Bits.{bit, pow_lt}
use vpod.Machine.Virtio.{done}
use vpod.Machine.Virtio.RamView.{RamView, ram_base, read_bytes}
use vpod.Machine.Virtio.RamView.Access.{IsPlain, InRam, IsStored, byte_at, write_u8-Stores}
use vpod.Machine.Virtio.Queue.{VirtQueue, VirtDesc}
use vpod.Machine.Virtio.Blk.{Buffer, vring_desc_f_next, vring_desc_f_write}
use vpod.Machine.Virtio.Blk.Chain.{Chain, last, link, readable, has_next, has_write}
use vpod.Machine.Virtio.Blk.Requests.{byte_at-IsStored, byte_at_beside}
use vpod.Machine.Virtio.Console.{
  send_desc, send_chain, write_pending, fill_desc, fill_chain, Received,
}

-- The bytes of buffers, one after the other.
unfoldable pub read_all : RamView → List Buffer → Option (List ℕ)
read_all ram [] = some []
read_all ram ((addr, len) ∷ bufs) =
    read_bytes ram addr len >>= λ buf. read_all ram bufs >>= λ bytes. some (buf ++ bytes)

-- What one descriptor adds, and what the rest of the chain does.
abbrev SendsFirst : RamView → VirtDesc → List Buffer → List ℕ → List ℕ → Type 0
SendsFirst ram desc bufs tx_buf bytes =
    (first : List ℕ) × (rest : List ℕ) × (send_desc ram desc tx_buf ≡ some (tx_buf ++ first))
    × (read_all ram bufs ≡ some rest)
    × (first ++ rest ≡ bytes)

sends_read :
    (ram : RamView) (desc : VirtDesc) (bufs : List Buffer) (tx_buf bytes : List ℕ)
    → has desc.flags vring_desc_f_write ≡ false
    → (a : Option (List ℕ)) → (r : Option (List ℕ)) → read_bytes ram desc.addr desc.len ≡ a
    → read_all ram bufs ≡ r
    → (a >>= λ buf. r >>= λ rest. some (buf ++ rest)) ≡ some bytes
    → SendsFirst ram desc bufs tx_buf bytes
unfolding send_desc
sends_read ram desc bufs tx_buf bytes w (some first) (some rest) e f g =
    (first, rest, rw (w, e) refl, f, cc g)
sends_read ram desc bufs tx_buf bytes w (some first) none e f g = absurd (cc g)
sends_read ram desc bufs tx_buf bytes w none r e f g = absurd (cc g)

sends_first :
    (ram : RamView) (desc : VirtDesc) (chain : List VirtDesc) (tx_buf bytes : List ℕ)
    → read_all ram (readable (desc ∷ chain)) ≡ some bytes
    → SendsFirst ram desc (readable chain) tx_buf bytes
unfolding read_all send_desc readable
sends_first ram desc chain tx_buf bytes e = elim (Bool-cases (bit desc.flags 1)) [
  | inl write ↦ ([], bytes, rw (has_write desc, write, append-nil) refl, simp write at e, refl)
  | inr read ↦
      sends_read ram desc (readable chain) tx_buf bytes (has_write desc ∙ read)
        (read_bytes ram desc.addr desc.len) (read_all ram (readable chain)) refl refl
        (simp read at e)
]

read_all-nil : (ram : RamView) (rest : List ℕ) → read_all ram (readable []) ≡ some rest → [] ≡ rest
unfolding read_all readable
read_all-nil ram rest e = cc e

-- A request whose chain ends, and whose buffers to read stand in the RAM: the bytes of these, in
-- the order of the chain, are added behind what waits to be sent, after as many turns as the chain
-- has descriptors.
pub send_chain-Chain :
    (turns : ℕ) (q : VirtQueue) (ram : RamView) (desc : VirtDesc) (chain : List VirtDesc)
    (tx_buf bytes : List ℕ)
    → Chain q ram desc chain
    → length chain ≤ turns
    → read_all ram (readable chain) ≡ some bytes
    → send_chain turns q ram desc tx_buf ≡ done (tx_buf ++ bytes)
unfolding send_chain
send_chain-Chain zero q ram desc chain tx_buf bytes (last e) h f = absurd (omega arith)
send_chain-Chain zero q ram desc chain tx_buf bytes (link e f c) h g = absurd (omega arith)
send_chain-Chain (suc turns) q ram desc chain tx_buf bytes (last e) h f =
    let first = sends_first ram desc [] tx_buf bytes f in
    rw (first.2, has_next desc, e)
      (ap (λ (t : List ℕ). done (tx_buf ++ t))
        (sym (append-nil first.0)
          ∙ ap (λ (t : List ℕ). first.0 ++ t) (read_all-nil ram first.1 first.3)
          ∙ first.4))
send_chain-Chain (suc turns) q ram desc chain tx_buf bytes (link {next} {chain = rest} e f c) h g =
    let first = sends_first ram desc rest tx_buf bytes g in
    rw (first.2, has_next desc, e, f)
      (send_chain-Chain turns q ram next rest (tx_buf ++ first.0) first.1 c (omega arith) first.3
        ∙ ap done (append_assoc tx_buf first.0 first.1 ∙ ap (λ (t : List ℕ). tx_buf ++ t) first.4))

-- What is left in the RAM after `n` pending bytes were written from an address on.
pub record IsFilled (k : ℕ) (v : RamView) (address n : ℕ) (pending : List ℕ) (v' : RamView)
    : Type 0 where
  pub plain : IsPlain k v'
  pub filled : (j : ℕ) → j < n → byte_at v' (address + j) ≡ get_or pending j 0
  pub kept : (other : ℕ) → ram_base ≤ other → other < address → byte_at v' other ≡ byte_at v other

cons-IsFilled :
    (k n : ℕ) (v w v' : RamView) (address byte : ℕ) (pending : List ℕ)
    → IsStored k v address (byte ∷ []) w
    → IsFilled k w (address + 1) n pending v'
    → ram_base ≤ address
    → IsFilled k v address (suc n) (byte ∷ pending) v'
cons-IsFilled k n v w v' address byte pending s f low = record {
  plain = f.plain;
  filled = each;
  kept = λ other a b.
      f.kept other a (omega arith) ∙ byte_at_beside k v w address other (byte ∷ []) s low a (inl b);
}
  where
    each : (j : ℕ) → j < suc n → byte_at v' (address + j) ≡ get_or (byte ∷ pending) j 0
    each zero h =
        f.kept (address + 0) (omega arith) (omega arith)
        ∙ byte_at-IsStored k v w address 0 (byte ∷ []) s low (omega arith)
    each (suc j) h =
        ap (byte_at v') {x = address + suc j} {y = address + 1 + j} (omega arith)
        ∙ f.filled j (omega arith)

write_pending_lem :
    (k n : ℕ) (v : RamView) (address : ℕ) (pending : List ℕ)
    → IsPlain k v
    → n ≤ length pending
    → v.memory.epoch_source + (n + 8) < 2 ^ 64
    → ram_base ≤ address
    → address - ram_base + n ≤ 2 ^ k
    → (v' : RamView) × (write_pending v address n pending ≡ some (v', drop n pending))
      × IsFilled k v address n pending v'
unfolding write_pending
write_pending_lem k zero v address pending p h e low fits =
    (v, refl, record { plain = p; filled = λ j l. absurd (omega arith); kept = λ other a b. refl })
write_pending_lem k (suc n) v address [] p h e low fits = absurd (omega arith)
write_pending_lem k (suc n) v address (byte ∷ pending) p h e low fits =
    let top : 2 ^ k < 2 ^ 63 = pow_lt k 63 p.power in
    let one = write_u8-Stores k v address byte p (omega arith) (low, omega arith) in
    let rest =
      write_pending_lem k n one.0 (address + 1) pending one.2.plain (omega arith)
        (omega (arith, one.2.drawn)) (omega arith) (omega arith) in
    (
      rest.0,
      rw (mod-eq_of_lt {n = address} {m = 2 ^ 64} (omega arith), one.1) rest.1,
      cons-IsFilled k n v one.0 rest.0 address byte pending one.2 rest.2 low,
    )

-- A request with one buffer to receive into, within the RAM, with nothing staged and while epochs
-- are left: the buffer gets the bytes that wait, in their order, as many as fit; the others still
-- wait, in their order; and the total counts those written. One turn is enough.
fill_chain_one :
    (turns k : ℕ) (q : VirtQueue) (desc : VirtDesc) (r : Received)
    → IsPlain k r.ram
    → has desc.flags vring_desc_f_write ≡ true
    → has desc.flags vring_desc_f_next ≡ false
    → r.ram.memory.epoch_source + (desc.len + 8) < 2 ^ 64
    → InRam k desc.addr desc.len
    → let n = min desc.len (length r.pending) in
      (r' : Received) × (fill_chain (suc turns) q desc r ≡ done r')
      × (r'.pending ≡ drop n r.pending)
      × (r'.total ≡ (r.total + n) % 2 ^ 32)
      × IsFilled k r.ram desc.addr n r.pending r'.ram
unfolding fill_chain fill_desc
fill_chain_one turns k q desc r p w l e h =
    let n = min desc.len (length r.pending) in
    let written =
      write_pending_lem k n r.ram desc.addr r.pending p (omega arith) (omega arith) h.0
        (omega (arith, h.1)) in
    (
      record { ram = written.0; pending = drop n r.pending; total = (r.total + n) % 2 ^ 32 },
      rw (w, written.1, l) refl,
      refl,
      refl,
      written.2,
    )
