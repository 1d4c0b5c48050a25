-- ===== src/Transfer/Plan.antt =====
-- A plan between two models delivers to each worker exactly the samples of its data parallel rank.
use rea_lhf.Base.{List, get_elem?, if◌then◌else◌, mem, some, sum_by, ℕ, ◌≡◌, ◌≤◌}
use rea_lhf.Transfer.{Mapping, Step, derive_data_transfer_plan}
use rea_lhf.Transfer.Received.{plan_received, received}
use rea_lhf.Transfer.Sets.{copies, owners}
use rea_lhf.Transfer.Setup.{Models, ranks_of, route, route_ranks}

-- In a plan that `derive_data_transfer_plan` derives from the routes of `setup_data_transfer`, a
-- worker receives a key of a sample as often as it is due: once for each data parallel rank of the
-- consumer that is to consume the sample and that the worker belongs to, and otherwise never. The conditions are that
-- the key is asked for once, that the sample stands once among the ids, and that no producer has it
-- at two data parallel ranks.
pub plan_received_lem :
    (m : Models) (pairs : List (ℕ × ℕ)) (global_ids : List ℕ) (consumer : ℕ)
    (consumer_mapping : Mapping) (producer_names : ℕ → ℕ) (producer_mappings : ℕ → ℕ → Mapping)
    (keys : List ℕ) (plan : List Step) (w k x p : ℕ)
    → derive_data_transfer_plan
        (route m pairs)
        global_ids
        consumer
        consumer_mapping
        producer_names
        producer_mappings
        keys
      ≡ some plan
    → copies k keys ≡ 1
    → get_elem? global_ids p ≡ some x
    → ((i : ℕ) → get_elem? global_ids i ≡ some x → i ≡ p)
    → ((key : ℕ) → owners p (producer_mappings (producer_names key) key) ≤ 1)
    → received w k x plan
      ≡ sum_by (λ b. if mem p b.1 then copies w (ranks_of m consumer b.0) else 0) consumer_mapping
plan_received_lem m pairs global_ids consumer consumer_mapping names mappings keys plan w k x p e c
      there only one =
    plan_received (route m pairs) (ranks_of m) global_ids consumer w k x p (route_ranks m pairs)
      there only consumer_mapping names mappings one keys plan e c
