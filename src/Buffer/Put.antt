-- ===== src/Buffer/Put.antt =====
-- realhf/system/buffer.py, `AsyncIOSequenceBuffer.put_batch`.
-- `put_batch`, `amend_batch` and `get_batch_for_rpc` each hold the lock twice: the part up to the
-- second time is `…_begin`, the rest is `…_end`. What stands between the two locked sections
-- touches only the storage, and belongs to `…_begin`.
pub mod Choice
use rea_lhf.Base.{List, false, length, ltb, not, take, true, ℕ, ◌+◌}
use rea_lhf.Buffer.Errors.{
  Result, assertion_error, attribute_error, buffer_full, guard, index_error, ok, or_raise, ◌>>=◌,
}
use rea_lhf.Buffer.Intervals.{arange, extract_intervals, last?}
use rea_lhf.Buffer.Sample.{Sample}
use rea_lhf.Buffer.Slots.{Rpc, Slot, all_at, update_at, where_}
use rea_lhf.Buffer.State.{Buffer, refresh_ready, valid_indicator}
use rea_lhf.Buffer.Storage.{has_entry, store}

-- `put_batch` up to the second lock.
abbrev pub mark_put : Slot → Slot
mark_put s = record s { is_empty = false; is_being_put = true }

unfoldable pub choose : ℕ → List Slot → Result (List ℕ)
unfolding extract_intervals
choose n ss =
    or_raise (last? (extract_intervals (where_ (λ s. s.is_empty) 0 ss))) index_error >>= λ i.
    let indices = take n (arange i) in
    guard (not (ltb (length indices) n)) buffer_full >>= λ _. ok indices

unfoldable pub put_begin : ℕ → List Sample → Buffer → Result (List ℕ × Buffer)
unfolding valid_indicator store choose
put_begin now samples b = guard (valid_indicator b) assertion_error >>= λ _.
    choose (length samples) b.slots >>= λ indices. ok (
      indices,
      record b {
        slots = store (length b.rpcs) now indices samples (update_at indices mark_put 0 b.slots);
      },
    )

-- `put_batch` from the second lock on. The warning at 95 % is a message only.
abbrev pub finish_put : List Rpc → Slot → Slot
finish_put rpcs s = record (refresh_ready rpcs s) { is_being_put = false; is_idle = true }

unfoldable pub put_end : List ℕ → Buffer → Result Buffer
unfolding refresh_ready
put_end indices b = guard (all_at indices has_entry 0 b.slots) attribute_error >>= λ _.
    ok (record b {
      slots = update_at indices (finish_put b.rpcs) 0 b.slots;
      buf_size = b.buf_size + length indices;
      load_data_requested = false;
    })
