-- ===== src/Machine/MachineBus/Lines.antt =====
-- What `refresh_external_interrupt` of crates/machine/src/machine_bus.rs leaves in the interrupt controller.
use vpod.Prelude.{
  ℕ, suc, ◌+◌, ◌<◌, ◌≤◌, Bool, ◌==◌, if◌then◌else◌, Option, none, some, List, [], ◌∷◌, ◌++◌, length,
  ◌≡◌, refl, ap, ◌∙◌, ◌↔◌, true, ltb, leb, ◌-◌, get_elem?, arith,
}
use mathlib.Core.Option
use vpod.Bits.{bit}
use vpod.Machine.Plic.{Plic, irq_pending}
use vpod.Machine.Plic.Laws
use vpod.Machine.Plic.Laws.{set_irq_lem, waits, irq_pending_iff}
use vpod.Machine.Virtio.Mmio.{VirtioMmio}
use vpod.Machine.Virtio.Blk.{VirtioBlk}
use vpod.Machine.Virtio.Net.{VirtioNet}
use vpod.Machine.MachineBus.{
  MachineBus, interrupts, blk_line, net_line, fs_lines, set_lines, lines,
  refresh_external_interrupt,
}

-- The level of line `i` after the calls: that of the last call for it, or what it was.
abbrev pub level_of : List (ℕ × Bool) → ℕ → Bool → Bool
level_of [] i before = before
level_of ((irq, level) ∷ lines) i before = level_of lines i (if irq == i then level else before)

abbrev pub AllLines : List (ℕ × Bool) → Type 0
AllLines [] = 0 ≤ 0
AllLines ((irq, level) ∷ lines) = (1 ≤ irq) × (irq ≤ 31) × AllLines lines

set_lines_lem :
    (p : Plic) (ls : List (ℕ × Bool))
    → Laws.IsValid p
    → AllLines ls
    → (q : Plic) × (set_lines p ls ≡ some q)
      × Laws.IsValid q
      × (q.served ≡ p.served)
      × ((i : ℕ) → i < 32 → bit q.pending i ≡ level_of ls i (bit p.pending i))
unfolding set_lines
set_lines_lem p [] v f = (p, refl, v, refl, λ i h. refl)
set_lines_lem p ((irq, level) ∷ ls) v f =
    let one = set_irq_lem p irq level v f.0 f.1 in
    let rest = set_lines_lem one.0 ls one.2 f.2 in
    (
      rest.0,
      rw one.1 rest.1,
      rest.2,
      rest.3 ∙ one.3,
      λ i h. rest.4 i h ∙ ap (level_of ls i) (one.4 i h),
    )

append-AllLines : (xs ys : List (ℕ × Bool)) → AllLines xs → AllLines ys → AllLines (xs ++ ys)
append-AllLines [] ys a b = b
append-AllLines ((irq, level) ∷ xs) ys a b = (a.0, a.1, append-AllLines xs ys a.2 b)

fs_lines-AllLines :
    (irq : ℕ) (devices : List VirtioMmio)
    → 1 ≤ irq
    → irq + length devices ≤ 32
    → AllLines (fs_lines irq devices)
unfolding fs_lines
fs_lines-AllLines irq [] a b = omega arith
fs_lines-AllLines irq (mmio ∷ devices) a b =
    (a, omega arith, fs_lines-AllLines (irq + 1) devices (omega arith) (omega arith))

blk_line-AllLines : (o : Option VirtioBlk) → AllLines (blk_line o)
blk_line-AllLines none = omega arith
blk_line-AllLines (some device) = (omega arith, omega arith, omega arith)

net_line-AllLines : {B : Type 0} (o : Option (VirtioNet B)) → AllLines (net_line o)
net_line-AllLines none = omega arith
net_line-AllLines (some device) = (omega arith, omega arith, omega arith)

lines-AllLines :
    {B : Type 0} (bus : MachineBus B) → length bus.fs_devices ≤ 24 → AllLines (lines bus)
unfolding lines
lines-AllLines bus h =
    let fs = fs_lines-AllLines 8 bus.fs_devices (omega arith) (omega arith) in
    let net =
      append-AllLines (net_line bus.net) (fs_lines 8 bus.fs_devices) (net_line-AllLines bus.net)
        fs in
    let devices =
      append-AllLines (blk_line bus.blk)
        ((3, interrupts bus.console.mmio) ∷ (net_line bus.net ++ fs_lines 8 bus.fs_devices))
        (blk_line-AllLines bus.blk) (omega arith, omega arith, net) in
    (
      omega arith,
      omega arith,
      (omega arith, omega arith, (omega arith, omega arith, (omega arith, omega arith, devices))),
    )

-- A device with an interrupt to acknowledge.
abbrev pub raised : VirtioMmio → Bool
raised mmio = ltb 0 mmio.int_status

-- The level that the device of line `i` gives, where there is one: UARTs on 1, 5, 6 and 7, the block device on 2,
-- the console on 3, the network device on 4, and the file system devices from 8 on.
abbrev pub device_level : {B : Type 0} → MachineBus B → ℕ → Option Bool
device_level bus i =
    if i == 1
    then some bus.uart.irq_pending
    else if i == 2
    then Option.map (λ (d : VirtioBlk). raised d.mmio) bus.blk
    else if i == 3
    then some (raised bus.console.mmio)
    else if i == 4
    then Option.map (λ d. raised d.mmio) bus.net
    else if i == 5
    then some bus.uart_stderr.irq_pending
    else if i == 6
    then some bus.uart_ctrl.irq_pending
    else if i == 7
    then some bus.uart_data.irq_pending
    else if leb 8 i
    then Option.map raised (get_elem? bus.fs_devices (i - 8))
    else none

abbrev pub or_before : Option Bool → Bool → Bool
or_before none before = before
or_before (some level) before = level

interrupts-raised : (mmio : VirtioMmio) → interrupts mmio ≡ raised mmio
interrupts-raised mmio = ground arith

level_of-append :
    (xs ys : List (ℕ × Bool)) (i : ℕ) (before : Bool)
    → level_of (xs ++ ys) i before ≡ level_of ys i (level_of xs i before)
level_of-append [] ys i before = refl
level_of-append ((irq, level) ∷ xs) ys i before = level_of-append xs ys i _

get_elem?-behind :
    (mmio : VirtioMmio) (devices : List VirtioMmio) (irq i : ℕ)
    → irq < i
    → get_elem? (mmio ∷ devices) (i - irq) ≡ get_elem? devices (i - (irq + 1))
get_elem?-behind mmio devices irq i h =
    let e : i - irq ≡ suc (i - (irq + 1)) = omega arith in rw e refl

get_elem?-at :
    (mmio : VirtioMmio) (devices : List VirtioMmio) (irq i : ℕ)
    → irq ≡ i
    → get_elem? (mmio ∷ devices) (i - irq) ≡ some mmio
get_elem?-at mmio devices irq i h = let e : i - irq ≡ 0 = omega arith in rw e refl

level_of-fs_lines :
    (irq : ℕ) (devices : List VirtioMmio) (i : ℕ) (before : Bool)
    → level_of (fs_lines irq devices) i before
      ≡ or_before
          (if leb irq i then Option.map raised (get_elem? devices (i - irq)) else none)
          before
unfolding fs_lines
level_of-fs_lines irq [] i before = ground arith
level_of-fs_lines irq (mmio ∷ devices) i before =
    level_of-fs_lines (irq + 1) devices i (if irq == i then interrupts mmio else before)
    ∙ ground (
      arith,
      get_elem?-behind mmio devices irq i,
      get_elem?-at mmio devices irq i,
      interrupts-raised mmio,
    )

level_of-blk_line :
    (o : Option VirtioBlk) (i : ℕ) (before : Bool)
    → level_of (blk_line o) i before ≡ (
        if i == 2
        then or_before (Option.map (λ (d : VirtioBlk). raised d.mmio) o) before
        else before)
level_of-blk_line none i before = ground arith
level_of-blk_line (some d) i before = ground (arith, interrupts-raised d.mmio)

level_of-net_line :
    {B : Type 0} (o : Option (VirtioNet B)) (i : ℕ) (before : Bool)
    → level_of (net_line o) i before ≡ (
        if i == 4
        then or_before (Option.map (λ (d : VirtioNet B). raised d.mmio) o) before
        else before)
level_of-net_line none i before = ground arith
level_of-net_line (some d) i before = ground (arith, interrupts-raised d.mmio)

-- The last call for each line is that of its device.
level_of-lines :
    {B : Type 0} (bus : MachineBus B) (i : ℕ) (before : Bool)
    → level_of (lines bus) i before ≡ or_before (device_level bus i) before
unfolding lines
level_of-lines bus i before =
    level_of-append (blk_line bus.blk) _ i _
    ∙ level_of-append (net_line bus.net) _ i _
    ∙ level_of-fs_lines 8 bus.fs_devices i _
    ∙ rw (level_of-net_line, level_of-blk_line) (ground (arith, interrupts-raised bus.console.mmio))

-- With a valid controller and 24 file system devices at most, a refresh does not panic: each line of a device that is
-- there gets the level of that device and the other lines keep theirs, nothing changes in what is being served, and the
-- result is true exactly if some line is then raised and not being served. The UARTs have the lines 1, 5, 6 and
-- 7, with the level of their interrupt; the block device has line 2, the console 3, the network device 4 and the file
-- system devices those from 8 on, raised while the interrupt status is not 0.
pub refresh_levels :
    {B : Type 0} (bus : MachineBus B)
    → Laws.IsValid bus.plic
    → length bus.fs_devices ≤ 24
    → (p : Plic) × (result : Bool) × (refresh_external_interrupt bus
        ≡ some (record bus { plic = p }, result))
      × Laws.IsValid p
      × (p.served ≡ bus.plic.served)
      × ((i : ℕ)
          → i < 32
          → bit p.pending i ≡ or_before (device_level bus i) (bit bus.plic.pending i))
      × ((result ≡ true) ↔ ((i : ℕ) × (i < 32) × (waits p i ≡ true)))
unfolding refresh_external_interrupt
refresh_levels bus v h =
    let done = set_lines_lem bus.plic (lines bus) v (lines-AllLines bus h) in
    (
      done.0,
      irq_pending done.0,
      rw done.1 refl,
      done.2,
      done.3,
      λ i k. done.4 i k ∙ level_of-lines bus i (bit bus.plic.pending i),
      irq_pending_iff done.0 done.2,
    )
