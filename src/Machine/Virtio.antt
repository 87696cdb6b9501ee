-- ===== src/Machine/Virtio.antt =====
-- crates/machine/src/virtio: the transport of the virtio devices, their queues in the guest's RAM, and the
-- devices. A guest decides what stands in its RAM, so that a loop over it need not end: such a loop is a recursion
-- on the number of its turns, and says that it is not finished.
pub mod RamView
pub mod Queue
pub mod Mmio
pub mod Blk
pub mod Console
pub mod Net
mod Examples
use vpod.Prelude.{ℕ, Option, none, some}

-- The end of a computation: a result, the panic of an index out of range, or none yet.
pub data Run {ℓ} (A : Type ℓ) : Type ℓ where
  done : A → Run A
  panicked : Run A
  unfinished : Run A

infixl 1 ◌>=>◌
abbrev pub ◌>=>◌ {ℓ κ} : {A : Type ℓ} {B : Type κ} → Run A → (A → Run B) → Run B
done a >=> f = f a
panicked >=> f = panicked
unfinished >=> f = unfinished

abbrev pub checked {ℓ} : {A : Type ℓ} → Option A → Run A
checked (some a) = done a
checked none = panicked
