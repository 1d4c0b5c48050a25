-- ===== src/Buffer/Reach.antt =====
-- realhf/system/buffer.py with its locked sections in any order. Each call of `put_batch`,
-- `amend_batch` or `get_batch_for_rpc` is pending between its two locked sections. The event loop runs
-- fewer orders: a free lock is taken without a suspension, so that no other section runs between the
-- two of a call. The orders here include those, and are for invariants, which hold in all of them.
pub mod SlotOk
pub mod Counts
pub mod Sections
pub mod Readers
pub mod Invariant
pub mod Assertion
use rea_lhf.Base.{List, [], true, ℕ, ◌++◌, ◌∷◌, ◌≡◌}
use rea_lhf.Buffer.Amend.{amend_begin, amend_end, amendable}
use rea_lhf.Buffer.Errors.{ok}
use rea_lhf.Buffer.Get.{Read, can_do_rpc, get_begin, get_end, get_enter}
use rea_lhf.Buffer.Put.{put_begin, put_end}
use rea_lhf.Buffer.Sample.{Sample}
use rea_lhf.Buffer.Slots.{Rpc, all_at}
use rea_lhf.Buffer.State.{Buffer, init}

pub data Pending : Type 0 where
  putting : List ℕ → Pending
  amending : List ℕ → Pending
  reading : ℕ → Rpc → Read → Pending

pub record World : Type 0 where
  pub buffer : Buffer
  pub pending : List Pending

-- One locked section runs. A section that raises ends the program, and is no step.
pub data Step (v w : World) : Type 0 where
  put_begins :
      (now : ℕ) (samples : List Sample) (idx : List ℕ)
      → put_begin now samples v.buffer ≡ ok (idx, w.buffer)
      → w.pending ≡ putting idx ∷ v.pending
      → Step v w
  put_ends :
      (idx : List ℕ) (xs ys : List Pending)
      → v.pending ≡ xs ++ putting idx ∷ ys
      → put_end idx v.buffer ≡ ok w.buffer
      → w.pending ≡ xs ++ ys
      → Step v w
  amend_begins :
      (idx : List ℕ) (samples : List Sample)
      → all_at idx amendable 0 v.buffer.slots ≡ true
      → amend_begin idx samples v.buffer ≡ ok w.buffer
      → w.pending ≡ amending idx ∷ v.pending
      → Step v w
  amend_ends :
      (idx : List ℕ) (xs ys : List Pending)
      → v.pending ≡ xs ++ amending idx ∷ ys
      → amend_end idx v.buffer ≡ ok w.buffer
      → w.pending ≡ xs ++ ys
      → Step v w
  get_enters :
      (k : ℕ) (rpc : Rpc) → w.buffer ≡ get_enter k rpc v.buffer → w.pending ≡ v.pending → Step v w
  get_begins :
      (k : ℕ) (rpc : Rpc) (r : Read)
      → can_do_rpc k rpc v.buffer ≡ true
      → get_begin k rpc v.buffer ≡ ok (r, w.buffer)
      → w.pending ≡ reading k rpc r ∷ v.pending
      → Step v w
  get_ends :
      (k : ℕ) (rpc : Rpc) (r : Read) (x : Sample) (xs ys : List Pending)
      → v.pending ≡ xs ++ reading k rpc r ∷ ys
      → get_end k rpc r v.buffer ≡ ok (x, w.buffer)
      → w.pending ≡ xs ++ ys
      → Step v w

abbrev pub start : List Rpc → ℕ → World
start rpcs max_size = record { buffer = init rpcs max_size; pending = [] }

pub data Reach (rpcs : List Rpc) (max_size : ℕ) : World → Type 0 where
  here : Reach rpcs max_size (start rpcs max_size)
  next : {v w : World} → Reach rpcs max_size v → Step v w → Reach rpcs max_size w
