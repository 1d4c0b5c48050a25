-- ===== src/Buffer/Amend.antt =====
-- realhf/system/buffer.py, `AsyncIOSequenceBuffer.amend_batch`, in two parts as `put_batch`.
use rea_lhf.Base.{Bool, List, false, length, ltb, not, true, ℕ, ◌+◌, ◌-◌, ◌==◌, ◌||◌}
use rea_lhf.Buffer.Errors.{Result, assertion_error, attribute_error, guard, ok, ◌>>=◌}
use rea_lhf.Buffer.Sample.{Sample}
use rea_lhf.Buffer.Slots.{Rpc, Slot, all_at, update_at}
use rea_lhf.Buffer.State.{Buffer, refresh_ready, valid_indicator}
use rea_lhf.Buffer.Storage.{amend, has_entry}

-- `amend_batch`. The condition that it waits for, and the part up to the second lock.
abbrev pub amendable : Slot → Bool
amendable s = s.is_idle || s.is_being_amended

abbrev pub mark_amend : Slot → Slot
mark_amend s = record s { is_idle = false; is_being_amended = true; n_amenders = s.n_amenders + 1 }

unfoldable pub amend_begin : List ℕ → List Sample → Buffer → Result Buffer
unfolding valid_indicator amend
amend_begin indices samples b = guard (valid_indicator b) assertion_error >>= λ _.
    guard (length indices == length samples) assertion_error >>= λ _.
    amend indices samples (update_at indices mark_amend 0 b.slots) >>= λ ss.
    ok (record b { slots = ss })

-- `n_amenders` is positive here, see `Buffer.Reach`; so the subtraction is that of the source.
abbrev pub finish_amend : List Rpc → Slot → Slot
finish_amend rpcs s =
    let n = s.n_amenders - 1 in
    record (refresh_ready rpcs s) {
      n_amenders = n;
      is_being_amended = ltb 0 n;
      is_idle = not (ltb 0 n);
    }

unfoldable pub amend_end : List ℕ → Buffer → Result Buffer
unfolding refresh_ready
amend_end indices b = guard (all_at indices has_entry 0 b.slots) attribute_error >>= λ _.
    ok (record b { slots = update_at indices (finish_amend b.rpcs) 0 b.slots })
