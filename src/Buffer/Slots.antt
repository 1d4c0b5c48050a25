-- ===== src/Buffer/Slots.antt =====
-- realhf/system/buffer.py, the state of `AsyncIOSequenceBuffer` and `_TensorDictSequenceBuffer`, held
-- by position: slot `i` has the `i`-th value of each array, with `__storage[i]` and `__has_keys[i]`.
pub mod Positions
use rea_lhf.Base.{Bool, List, Option, [], if◌then◌else◌, mem, suc, true, zero, ℕ, ◌&&◌, ◌∷◌}
use rea_lhf.Buffer.Sample.{Sample}

-- `_ReplayEntry`
pub record Entry : Type 0 where
  pub reuses_left : ℕ
  pub receive_time : ℕ
  pub sample : Sample

pub record Slot : Type 0 where
  pub is_being_put : Bool
  pub is_being_amended : Bool
  pub is_being_read : Bool
  pub is_idle : Bool
  pub is_empty : Bool
  pub n_amenders : ℕ
  pub n_readers : ℕ
  pub ready_for_rpcs : List Bool
  pub completed_rpc : List Bool
  pub has_keys : List Bool
  pub entry : Option Entry

-- What the buffer reads of an `MFCDef`. Names and keys are compared only, so they are numbers.
pub record Rpc : Type 0 where
  pub name : ℕ
  pub input_keys : List ℕ
  pub n_seqs : ℕ
  pub is_src : Bool

-- `arr[indices] = f(arr[indices])` for all arrays at once: each slot whose index is listed is
-- changed once, also if the index is listed twice. `i` is the index of the first slot.
abbrev pub update_at : List ℕ → (Slot → Slot) → ℕ → List Slot → List Slot
update_at idx f i [] = []
update_at idx f i (s ∷ ss) = (if mem i idx then f s else s) ∷ update_at idx f (suc i) ss

-- `np.where(p)[0]`
abbrev pub where_ : (Slot → Bool) → ℕ → List Slot → List ℕ
where_ p i [] = []
where_ p i (s ∷ ss) = if p s then i ∷ where_ p (suc i) ss else where_ p (suc i) ss

-- `p(arr[indices]).all()`, each index in range.
abbrev pub all_at : List ℕ → (Slot → Bool) → ℕ → List Slot → Bool
all_at idx p i [] = true
all_at idx p i (s ∷ ss) = (if mem i idx then p s else true) && all_at idx p (suc i) ss

-- `arr[i] = f(arr[i])`
abbrev pub modify_at : ℕ → (Slot → Slot) → List Slot → List Slot
modify_at i f [] = []
modify_at zero f (s ∷ ss) = f s ∷ ss
modify_at (suc i) f (s ∷ ss) = s ∷ modify_at i f ss
