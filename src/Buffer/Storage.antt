-- ===== src/Buffer/Storage.antt =====
-- realhf/system/buffer.py, the methods of `_TensorDictSequenceBuffer`.
pub mod Frame
use rea_lhf.Base.{
  Bool, List, [], false, get_elem?, if◌then◌else◌, ltb, map, none, set, some, true, ℕ, ◌-◌, ◌==◌,
  ◌∷◌,
}
use rea_lhf.Buffer.Errors.{
  Result, assertion_error, attribute_error, guard, index_error, ok, or_raise, ◌>>=◌,
}
use rea_lhf.Buffer.Sample.{Sample, update}
use rea_lhf.Buffer.Slots.{Entry, Slot, modify_at}

-- `put_batch` of `_TensorDictSequenceBuffer`:
unfoldable pub store : ℕ → ℕ → List ℕ → List Sample → List Slot → List Slot
store reuses now [] xs ss = ss
store reuses now (i ∷ is) [] ss = ss
store reuses now (i ∷ is) (x ∷ xs) ss =
    let new : Entry = record { reuses_left = reuses; receive_time = now; sample = x } in
    store reuses now is xs (modify_at i (λ s. record s { entry = some new }) ss)

abbrev amend_entry : Sample → Slot → Result Slot
amend_entry x s = or_raise s.entry attribute_error >>= λ e.
    or_raise (update e.sample x) assertion_error >>= λ y.
    ok (record s { entry = some (record e { sample = y }) })

-- `amend_batch`:
unfoldable pub amend : List ℕ → List Sample → List Slot → Result (List Slot)
amend [] xs ss = ok ss
amend (i ∷ is) [] ss = ok ss
amend (i ∷ is) (x ∷ xs) ss =
    or_raise (get_elem? ss i) index_error >>= λ s. amend_entry x s >>= λ t. amend is xs (set ss i t)

-- `get_batch`, with the assertion of its caller that no `reuses_left` has become negative.
unfoldable pub take_entries : List ℕ → List Slot → Result (List Slot × List Entry)
take_entries [] ss = ok (ss, [])
take_entries (i ∷ is) ss = or_raise (get_elem? ss i) index_error >>= λ s.
    or_raise s.entry attribute_error >>= λ e. guard (ltb 0 e.reuses_left) assertion_error >>= λ _.
    let used = record e { reuses_left = e.reuses_left - 1 } in
    take_entries is (set ss i (record s { entry = some used })) >>= λ (ss', es). ok (ss', used ∷ es)

-- The indices of the entries that have been read by every call.
abbrev pub pop_indices : List ℕ → List Entry → List ℕ
pop_indices [] es = []
pop_indices (i ∷ is) [] = []
pop_indices (i ∷ is) (e ∷ es) =
    if e.reuses_left == 0 then i ∷ pop_indices is es else pop_indices is es

-- `pop_batch`:
abbrev pub drop_entry : Slot → Slot
drop_entry s = record s { entry = none; has_keys = map (λ k. false) s.has_keys }

abbrev pub has_entry : Slot → Bool
has_entry s = elim s.entry [ none ↦ false | some e ↦ true ]
