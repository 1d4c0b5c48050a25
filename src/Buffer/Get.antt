-- ===== src/Buffer/Get.antt =====
-- realhf/system/buffer.py, `AsyncIOSequenceBuffer.get_batch_for_rpc`, in two parts as `put_batch`, and
-- what it does before it waits.
use mathlib.Core.Option
use rea_lhf.Base.{
  Bool, List, Option, [], false, get_or, if◌then◌else◌, length, ltb, map, none, not, set, some, suc,
  take, true, ℕ, ◌&&◌, ◌*◌, ◌+◌, ◌-◌, ◌==◌, ◌||◌, ◌∷◌,
}
use rea_lhf.Buffer.Errors.{Result, assertion_error, guard, key_error, ok, or_raise, ◌>>=◌}
use rea_lhf.Buffer.Sample.{Sample, gather}
use rea_lhf.Buffer.Slots.{Entry, Rpc, Slot, all_at, update_at, where_}
use rea_lhf.Buffer.State.{Buffer, valid_indicator}
use rea_lhf.Buffer.Storage.{drop_entry, pop_indices, take_entries}

-- `_request_load_data`: a full queue of size 1 is left as it is.
unfoldable pub request_load_data : Buffer → Buffer
request_load_data b = if b.load_data_requested then b else record b {
  fetch_ctl = if b.fetch_ctl == 0 then 1 else b.fetch_ctl;
  fetch_master_ctl = if b.fetch_master_ctl == 0 then 1 else b.fetch_master_ctl;
  load_data_requested = true;
}

-- `self._rpc_names.index(rpc.name)`
unfoldable pub rpc_index : ℕ → List Rpc → Option ℕ
rpc_index name [] = none
rpc_index name (r ∷ rs) =
    if r.name == name then some 0 else Option.map (λ n. suc n) (rpc_index name rs)

abbrev pub nth : List Bool → ℕ → Bool
nth bs k = get_or bs k false

-- The mask of `get_batch_for_rpc`, at the index `k` of the call.
abbrev pub readable : ℕ → Slot → Bool
readable k s =
    (s.is_idle || s.is_being_read) && (nth s.ready_for_rpcs k && not (nth s.completed_rpc k))

unfoldable pub ready_indices : ℕ → Buffer → List ℕ
ready_indices k b = where_ (readable k) 0 b.slots

-- Before it waits, a source call asks for new data.
unfoldable pub get_enter : ℕ → Rpc → Buffer → Buffer
unfolding request_load_data ready_indices
get_enter k rpc b =
    if rpc.is_src && ltb (length (ready_indices k b)) (rpc.n_seqs * 2)
    then request_load_data b
    else b

-- `_can_do_rpc`
unfoldable pub can_do_rpc : ℕ → Rpc → Buffer → Bool
unfolding ready_indices
can_do_rpc k rpc b = not (ltb (length (ready_indices k b)) rpc.n_seqs)

abbrev pub mark_read : Slot → Slot
mark_read s = record s { is_idle = false; is_being_read = true; n_readers = s.n_readers + 1 }

pub record Read : Type 0 where
  pub indices : List ℕ
  pub pops : List ℕ
  pub entries : List Entry

-- `get_batch_for_rpc` from the end of its wait to the second lock.
unfoldable pub get_begin : ℕ → Rpc → Buffer → Result (Read × Buffer)
unfolding valid_indicator ready_indices take_entries
get_begin k rpc b = guard (valid_indicator b) assertion_error >>= λ _.
    let indices = take rpc.n_seqs (ready_indices k b) in
    take_entries indices (update_at indices mark_read 0 b.slots) >>= λ (ss, entries).
    let pops = pop_indices indices entries in
    ok (
      record { indices = indices; pops = pops; entries = entries },
      record b { slots = update_at pops drop_entry 0 ss },
    )

-- `n_readers` is positive here, as `n_amenders` is above.
abbrev pub finish_read : ℕ → Slot → Slot
finish_read k s =
    let n = s.n_readers - 1 in
    record s {
      n_readers = n;
      is_being_read = ltb 0 n;
      is_idle = n == 0;
      completed_rpc = set s.completed_rpc k true;
    }

abbrev pub clear : Slot → Slot
clear s = record s {
  is_empty = true;
  is_idle = false;
  completed_rpc = map (λ c. false) s.completed_rpc;
  ready_for_rpcs = map (λ c. false) s.ready_for_rpcs;
}

unfoldable pub get_end : ℕ → Rpc → Read → Buffer → Result (Sample × Buffer)
unfolding gather
get_end k rpc r b =
    let ss = update_at r.indices (finish_read k) 0 b.slots in
    guard (all_at r.pops (λ s. s.n_readers == 0) 0 ss) assertion_error >>= λ _.
    guard (all_at r.pops (λ s. s.n_amenders == 0) 0 ss) assertion_error >>= λ _.
    or_raise (gather (map (λ e. e.sample) r.entries) rpc.input_keys) key_error >>= λ x.
    ok (x, record b { slots = update_at r.pops clear 0 ss; buf_size = b.buf_size - length r.pops })
