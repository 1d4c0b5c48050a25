-- ===== src/Buffer/Examples.antt =====
-- A buffer of three slots, with one call that reads the key 7 of two sequences at a time, and a put of
-- two samples into it.
use rea_lhf.Base.{List, [], all, false, get_elem?, mem, refl, some, sum_by, true, ℕ, ◌↔◌, ◌∷◌, ◌≡◌}
use rea_lhf.Buffer.Errors.{Result, assertion_error, index_error, ok, raise, ◌>>=◌}
use rea_lhf.Buffer.Intervals.{range}
use rea_lhf.Buffer.Put.{choose, put_begin, put_end}
use rea_lhf.Buffer.Put.Choice.{Chosen, choose-Chosen, put_begin-errors}
use rea_lhf.Buffer.Reach.{Reach, World, here, next, put_begins, putting}
use rea_lhf.Buffer.Reach.Assertion.{Reach-Inv, not_being_put, valid_indicator_iff}
use rea_lhf.Buffer.Reach.Invariant.{Inv}
use rea_lhf.Buffer.Sample.{Sample}
use rea_lhf.Buffer.Slots.{Rpc}
use rea_lhf.Buffer.State.{Buffer, empty_slot, init, keys_of, refresh_ready, vacant, valid_indicator}
use rea_lhf.Buffer.State.Readiness.{refresh_ready_lem}

abbrev generate : Rpc
generate = record { name = 0; input_keys = 7 ∷ []; n_seqs = 2; is_src = true }

abbrev rpcs : List Rpc
rpcs = generate ∷ []

abbrev two_samples : List Sample
two_samples = record { ids = 10 ∷ []; keys = 7 ∷ [] } ∷ record { ids = 11 ∷ []; keys = 8 ∷ [] } ∷ []

abbrev put_buffer : Result (List ℕ × Buffer) → Buffer
put_buffer (ok (idx, b)) = b
put_buffer (raise e) = init rpcs 3

abbrev during_put : World
during_put = record {
  buffer = put_buffer (put_begin 4 two_samples (init rpcs 3));
  pending = putting (0 ∷ 1 ∷ []) ∷ [];
}

put_runs : put_begin 4 two_samples (init rpcs 3) ≡ ok (0 ∷ 1 ∷ [], during_put.buffer)
unfolding put_begin init range
put_runs = refl

put_reachable : Reach rpcs 3 during_put
put_reachable = next here (put_begins 4 two_samples (0 ∷ 1 ∷ []) put_runs refl)

Reach-Inv_example : Inv during_put.buffer during_put.pending
Reach-Inv_example = Reach-Inv put_reachable

valid_indicator_iff_example :
    valid_indicator during_put.buffer ≡ all not_being_put during_put.buffer.slots
valid_indicator_iff_example = valid_indicator_iff put_reachable

chosen_slots : choose 2 (init rpcs 3).slots ≡ ok (0 ∷ 1 ∷ [])
unfolding choose init range
chosen_slots = refl

choose-Chosen_example : Chosen 2 (init rpcs 3).slots (0 ∷ 1 ∷ [])
choose-Chosen_example = choose-Chosen 2 (init rpcs 3).slots (0 ∷ 1 ∷ []) chosen_slots

-- A buffer of two slots after a put of two samples.
abbrev ended : List ℕ × Buffer → Result Buffer
ended (idx, b) = put_end idx b

abbrev buffer_of : Result Buffer → Buffer
buffer_of (ok b) = b
buffer_of (raise e) = init rpcs 2

abbrev full : Buffer
full = buffer_of (put_begin 4 two_samples (init rpcs 2) >>= ended)

full_is_valid : valid_indicator full ≡ true
unfolding valid_indicator put_begin put_end init range
full_is_valid = refl

full_raises : put_begin 5 two_samples full ≡ raise index_error
unfolding put_begin put_end init range
full_raises = refl

put_begin-errors_example :
    ((put_begin 5 two_samples full ≡ raise assertion_error) ↔ (valid_indicator full ≡ false))
    × ((put_begin 5 two_samples full ≡ raise index_error)
        ↔ ((valid_indicator full ≡ true) × (sum_by vacant full.slots ≡ 0)))
put_begin-errors_example = put_begin-errors 5 two_samples full

refresh_ready_lem_example :
    get_elem? (refresh_ready rpcs (empty_slot rpcs)).ready_for_rpcs 0
    ≡ some (all (λ k. mem k (keys_of (empty_slot rpcs))) (7 ∷ []))
refresh_ready_lem_example = refresh_ready_lem rpcs (empty_slot rpcs) 0 generate refl
