-- ===== src/Transfer/Examples.antt =====
-- A transfer of two samples between two models, and the theorems at it.
use rea_lhf.Base.{
  List, Option, [], arith, get_elem?, if◌then◌else◌, mem, refl, some, suc, sum_by, true, zero, ℕ,
  ◌+◌, ◌==◌, ◌∷◌, ◌≡◌,
}
use rea_lhf.Topology.Grid.{filter_match, get_coord, get_dim, lookup}
use rea_lhf.Transfer.{Mapping, Step, derive_data_transfer_plan, receiver, sender}
use rea_lhf.Transfer.Cache.{Empty, never_cached, receipts, remote_steps, sender_steps, sends}
use rea_lhf.Transfer.Plan.{plan_received_lem}
use rea_lhf.Transfer.Received.{received}
use rea_lhf.Transfer.Run.{
  Data, Process, Table, World, data_sent, mark, metadata_sent, run_data_transfer,
}
use rea_lhf.Transfer.Sets.{copies}
use rea_lhf.Transfer.Setup.{Models, ranks_of, route}

-- Model 0 has one rank, on worker 0; model 1 has two data parallel ranks, on workers 0 and 1.
abbrev models : Models
models = record {
  topo = λ m.
      if m == 0
      then record {
        axes = 0 ∷ 1 ∷ 2 ∷ [];
        dims = 1 ∷ 1 ∷ 1 ∷ [];
        mapping = (0 ∷ 0 ∷ 0 ∷ [], 0) ∷ [];
      }
      else record {
        axes = 0 ∷ 1 ∷ 2 ∷ [];
        dims = 1 ∷ 2 ∷ 1 ∷ [];
        mapping = (0 ∷ 0 ∷ 0 ∷ [], 0) ∷ (0 ∷ 1 ∷ 0 ∷ [], 1) ∷ [];
      };
  msid2mwid = λ m. (0 ∷ 0 ∷ 0 ∷ [], 0) ∷ (0 ∷ 1 ∷ 0 ∷ [], 1) ∷ [];
}

abbrev consumed : Mapping
consumed = (0, 0 ∷ []) ∷ (1, 1 ∷ []) ∷ []

abbrev produced : Mapping
produced = (0, 0 ∷ 1 ∷ []) ∷ []

abbrev plan : List Step
plan =
    receiver 0 0 (0 ∷ []) (0 ∷ []) 7 (10 ∷ [])
    ∷ sender 0 (0 ∷ []) (0 ∷ []) 7 (10 ∷ [])
    ∷ receiver 1 0 (1 ∷ []) (0 ∷ 1 ∷ []) 7 (11 ∷ [])
    ∷ sender 0 (1 ∷ []) (0 ∷ 1 ∷ []) 7 (11 ∷ [])
    ∷ []

plan_run :
    derive_data_transfer_plan
      (route models ((0, 1) ∷ []))
      (10 ∷ 11 ∷ [])
      1
      consumed
      (λ k. 0)
      (λ m k. produced)
      (7 ∷ [])
    ≡ some plan
unfolding derive_data_transfer_plan route filter_match get_dim get_coord lookup
plan_run = refl

abbrev ids : List ℕ
ids = 10 ∷ 11 ∷ []

only_second : (i : ℕ) → get_elem? ids i ≡ some 11 → i ≡ 1
only_second zero e = ground arith
only_second (suc zero) e = refl
only_second (suc (suc i)) e = cc

plan_received_lem_example :
    received 1 7 11 plan
    ≡ sum_by (λ b. if mem 1 b.1 then copies 1 (ranks_of models 1 b.0) else 0) consumed
plan_received_lem_example =
    plan_received_lem models ((0, 1) ∷ []) (10 ∷ 11 ∷ []) 1 consumed (λ k. 0) (λ m k. produced)
      (7 ∷ []) plan 1 7 11 1 plan_run refl refl only_second (λ key. omega arith)

abbrev world : World
world = record {
  seqlens = λ i k. (2 ∷ []) ∷ [];
  has_shape = λ k. true;
  broadcast = λ src key ids. 5 ∷ 6 ∷ [];
  metadata_key = 0;
}

abbrev tokens_at : ℕ → Option Data
tokens_at i = some (λ k. some (some (i ∷ i ∷ [])))

abbrev process : Process
process = record {
  storage = tokens_at;
  sent_table = λ i k. [];
  received_table = λ i k. [];
  log = [];
}

abbrev nothing : Table
nothing i k = []

abbrev after : Process
after = record {
  storage = tokens_at;
  sent_table = mark world 7 (1 ∷ []) (11 ∷ []) (mark world 7 (0 ∷ []) (10 ∷ []) nothing);
  received_table = nothing;
  log =
      data_sent 7 (10 ∷ []) (10 ∷ 10 ∷ [])
      ∷ metadata_sent (10 ∷ [])
      ∷ data_sent 7 (11 ∷ []) (11 ∷ 11 ∷ [])
      ∷ metadata_sent (11 ∷ [])
      ∷ [];
}

process_run : run_data_transfer world 0 plan process ≡ some after
unfolding run_data_transfer
process_run = refl

never_cached_example :
    (sends after.log ≡ sends process.log + sender_steps 0 plan)
    × (receipts after.log ≡ receipts process.log + remote_steps 0 plan)
    × Empty after.sent_table
    × Empty after.received_table
never_cached_example =
    never_cached world 0 plan process after (λ i k. refl) (λ i k. refl) refl process_run
