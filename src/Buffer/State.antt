-- ===== src/Buffer/State.antt =====
-- realhf/system/buffer.py, the state of `AsyncIOSequenceBuffer`, its assertion, and the mask of the
-- calls that a slot is ready for.
pub mod Readiness
use rea_lhf.Base.{
  Bool, List, [], all, any, false, if◌then◌else◌, length, ltb, map, mem, none, not, replicate, some,
  sum_by, true, ℕ, ◌&&◌, ◌+◌, ◌==◌, ◌||◌, ◌∷◌,
}
use rea_lhf.Buffer.Sample.{union}
use rea_lhf.Buffer.Slots.{Rpc, Slot}

pub record Buffer : Type 0 where
  pub rpcs : List Rpc
  pub slots : List Slot
  pub buf_size : ℕ
  pub load_data_requested : Bool
  -- The two control queues, of size 1: how many requests they hold.
  pub fetch_ctl : ℕ
  pub fetch_master_ctl : ℕ

-- `list(set().union(*[rpc.input_keys for rpc in rpcs]))`; the order of a set is arbitrary.
abbrev pub rpc_data_keys : List Rpc → List ℕ
rpc_data_keys [] = []
rpc_data_keys (r ∷ rs) = union r.input_keys (rpc_data_keys rs)

-- `__init__`
abbrev pub empty_slot : List Rpc → Slot
empty_slot rpcs = record {
  is_being_put = false;
  is_being_amended = false;
  is_being_read = false;
  is_idle = false;
  is_empty = true;
  n_amenders = 0;
  n_readers = 0;
  ready_for_rpcs = map (λ r. false) rpcs;
  completed_rpc = map (λ r. false) rpcs;
  has_keys = map (λ k. false) (rpc_data_keys rpcs);
  entry = none;
}

unfoldable pub init : List Rpc → ℕ → Buffer
init rpcs max_size = record {
  rpcs = rpcs;
  slots = replicate max_size (empty_slot rpcs);
  buf_size = 0;
  load_data_requested = false;
  fetch_ctl = 0;
  fetch_master_ctl = 0;
}

-- `_assert_valid_indicator`. A counter is a natural number here, so that no counter is negative
-- needs no test.
abbrev pub occupied : Slot → ℕ
occupied s = if s.is_being_put || s.is_being_amended || s.is_being_read || s.is_idle then 1 else 0

abbrev pub vacant : Slot → ℕ
vacant s = if s.is_empty then 1 else 0

abbrev pub bool_eq : Bool → Bool → Bool
bool_eq true b = b
bool_eq false b = not b

abbrev pub slot_valid : Slot → Bool
slot_valid s =
    bool_eq (ltb 0 s.n_amenders) s.is_being_amended
    && bool_eq (ltb 0 s.n_readers) s.is_being_read
    && not (s.is_empty && any (λ b. b) s.ready_for_rpcs)
    && not (s.is_empty && any (λ b. b) s.completed_rpc)

unfoldable pub valid_indicator : Buffer → Bool
valid_indicator b =
    sum_by occupied b.slots == b.buf_size
    && sum_by vacant b.slots + b.buf_size == length b.slots
    && all slot_valid b.slots

-- `_update_has_keys` for one slot; a missing sample raises AttributeError.
abbrev pub keys_of : Slot → List ℕ
keys_of s = elim s.entry [ none ↦ [] | some e ↦ e.sample.keys ]

abbrev pub update_has_keys : List Rpc → Slot → Slot
update_has_keys rpcs s = record s { has_keys = map (λ k. mem k (keys_of s)) (rpc_data_keys rpcs) }

-- `(has_keys[:, :, None] >= rpc_key_mask[None, :, :]).all(axis=1)`: a column of the mask says which
-- of the data keys a call needs.
abbrev pub covers : List Bool → List Bool → Bool
covers [] ms = true
covers (h ∷ hs) [] = true
covers (h ∷ hs) (m ∷ ms) = (h || not m) && covers hs ms

abbrev pub rpc_key_mask : List ℕ → Rpc → List Bool
rpc_key_mask keys r = map (λ k. mem k r.input_keys) keys

unfoldable pub refresh_ready : List Rpc → Slot → Slot
refresh_ready rpcs s =
    let t = update_has_keys rpcs s in
    record t {
      ready_for_rpcs = map (λ r. covers t.has_keys (rpc_key_mask (rpc_data_keys rpcs) r)) rpcs;
    }
