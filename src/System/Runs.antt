-- ===== src/System/Runs.antt =====
-- A dispatched batch and a throttled call, and the theorems at them.
use rea_lhf.Base.{
  List, [], arith, get_elem?, if◌then◌else◌, mem, none, refl, some, suc, true, zero, ℕ, ◌*◌, ◌+◌,
  ◌<◌, ◌==◌, ◌∷◌, ◌≡◌, ◌≤◌,
}
use rea_lhf.Packing.Partition.Balanced.{Blocks}
use rea_lhf.System.Dispatch.{DataOwner, dispatch, own_keys, target_mapping}
use rea_lhf.System.Dispatch.Flow.{dispatch_owner, dispatch_sources}
use rea_lhf.System.Dispatch.Inputs.{dispatch-received, mappings_in}
use rea_lhf.System.Dispatch.Sources.{has_at}
use rea_lhf.System.Throttle.{
  Flow, Reach-bounds, Successor, Throttled, here, next, request, request_step, start,
}
use rea_lhf.Topology.Grid.{filter_match, get_coord, get_dim, lookup}
use rea_lhf.Transfer.{Mapping, derive_data_transfer_plan, receiver, sender}
use rea_lhf.Transfer.Received.{received}
use rea_lhf.Transfer.Sets.{copies, owners}
use rea_lhf.Transfer.Setup.{Models, ranks_of, route}

-- Two samples, one for each data parallel rank; key 7 is read, and key 8 is produced.
abbrev before : DataOwner
before i k = if k == 7 then some (0, 0) else none

abbrev parts : List (ℕ × ℕ)
parts = (0, 1) ∷ (1, 2) ∷ []

abbrev batch : List ℕ
batch = 10 ∷ 11 ∷ []

abbrev owner_after : DataOwner
owner_after = own_keys 11 (8 ∷ []) (1, 1) (own_keys 10 (8 ∷ []) (1, 0) before)

abbrev sources_after : List (ℕ × (ℕ × Mapping))
sources_after = (7, (0, (0, 0 ∷ 1 ∷ []) ∷ [])) ∷ []

dispatch_run : dispatch 1 (7 ∷ []) (8 ∷ []) batch parts before ≡ some (owner_after, sources_after)
unfolding dispatch
dispatch_run = refl

parts-Blocks : Blocks 1 0 2 parts
parts-Blocks = (refl, omega arith, (refl, omega arith, refl))

only_second : (i : ℕ) → get_elem? batch i ≡ some 11 → i ≡ 1
only_second zero e = ground arith
only_second (suc zero) e = refl
only_second (suc (suc i)) e = cc

dispatch_owner_example : owner_after 11 8 ≡ (if mem 8 (8 ∷ []) then some (1, 1) else before 11 8)
dispatch_owner_example =
    dispatch_owner 1 1 2 1 1 2 1 11 8 (7 ∷ []) (8 ∷ []) batch parts before owner_after sources_after
      parts-Blocks dispatch_run refl only_second refl (omega arith) (omega arith)

dispatch_sources_example :
    (d : ℕ) × (owner_after 11 7 ≡ some (0, d))
    × ((e : ℕ) → has_at e 1 ((0, 0 ∷ 1 ∷ []) ∷ []) ≡ (d == e))
    × (owners 1 ((0, 0 ∷ 1 ∷ []) ∷ []) ≡ 1)
dispatch_sources_example =
    dispatch_sources 1 0 1 11 7 (7 ∷ []) (8 ∷ []) batch parts before owner_after sources_after
      ((0, 0 ∷ 1 ∷ []) ∷ []) dispatch_run refl refl

-- Model 0 has one rank, on worker 0; model 1 has two data parallel ranks, on workers 0 and 1.
abbrev models : Models
models = record {
  topo = λ m.
      if m == 0
      then record {
        axes = 0 ∷ 1 ∷ 2 ∷ [];
        dims = 1 ∷ 1 ∷ 1 ∷ [];
        mapping = (0 ∷ 0 ∷ 0 ∷ [], 0) ∷ [];
      }
      else record {
        axes = 0 ∷ 1 ∷ 2 ∷ [];
        dims = 1 ∷ 2 ∷ 1 ∷ [];
        mapping = (0 ∷ 0 ∷ 0 ∷ [], 0) ∷ (0 ∷ 1 ∷ 0 ∷ [], 1) ∷ [];
      };
  msid2mwid = λ m. (0 ∷ 0 ∷ 0 ∷ [], 0) ∷ (0 ∷ 1 ∷ 0 ∷ [], 1) ∷ [];
}

abbrev plan : List rea_lhf.Transfer.Step
plan =
    receiver 0 0 (0 ∷ []) (0 ∷ []) 7 (10 ∷ [])
    ∷ sender 0 (0 ∷ []) (0 ∷ []) 7 (10 ∷ [])
    ∷ receiver 1 0 (1 ∷ []) (0 ∷ 1 ∷ []) 7 (11 ∷ [])
    ∷ sender 0 (1 ∷ []) (0 ∷ 1 ∷ []) 7 (11 ∷ [])
    ∷ []

plan_run :
    derive_data_transfer_plan
      (route models ((0, 1) ∷ []))
      batch
      1
      (target_mapping 0 parts)
      (λ k. 0)
      (mappings_in sources_after)
      (7 ∷ [])
    ≡ some plan
unfolding derive_data_transfer_plan route filter_match get_dim get_coord lookup
plan_run = refl

dispatch-received_example : received 1 7 11 plan ≡ copies 1 (ranks_of models 1 1)
dispatch-received_example =
    dispatch-received models ((0, 1) ∷ []) (λ k. 0) 1 1 2 1 1 2 1 11 7 1 (7 ∷ []) (8 ∷ []) batch
      parts before owner_after sources_after plan parts-Blocks dispatch_run plan_run refl refl
      only_second refl (omega arith) (omega arith)

-- A call of two sequences at a time before a training step of four.
abbrev training : Successor
training = record { name = 5; n_seqs = 4; is_train_step = true; role = 1 }

abbrev throttled : Throttled
throttled = record { name = 3; role = 1; n_seqs = 2; successors = training ∷ [] }

abbrev under_way : Flow
under_way = record { consumed = 2; can_do_rpc = 0; in_flight = 1; rpc_traversal = λ c. 0 }

request_run : request throttled 2 (start throttled) ≡ some under_way
unfolding request
request_run = refl

Reach-bounds_example :
    (under_way.in_flight ≤ 1)
    × (under_way.consumed < (under_way.rpc_traversal 5 + 1) * 4 + throttled.n_seqs)
Reach-bounds_example =
    Reach-bounds throttled 0 training under_way refl refl refl (omega arith)
      (next here (request_step 2 request_run))
