-- ===== src/Transfer.antt =====
-- realhf/impl/model/comm/data_transfer.py and `pipeline_repartition_strategy` of
-- realhf/impl/model/nn/real_llm_parallel.py: which model worker sends which samples to which. A dict is
-- the list of its items; names of keys and models are numbers; a process group is the list of its ranks.
pub mod Sets
pub mod Received
pub mod Setup
pub mod Plan
pub mod Run
pub mod Cache
mod Examples
use mathlib.Core.Option
use rea_lhf.Base.{
  Bool, List, Option, [], all, assert, get_elem?, if◌then◌else◌, leb, ltb, mem, some, ℕ, ◌&&◌, ◌++◌,
  ◌==◌, ◌>>=◌, ◌∷◌,
}

-- `sorted(list(set(…)))`, one element at a time.
abbrev pub insert_sorted : ℕ → List ℕ → List ℕ
insert_sorted x [] = x ∷ []
insert_sorted x (y ∷ ys) =
    if ltb x y then x ∷ y ∷ ys else if x == y then y ∷ ys else y ∷ insert_sorted x ys

abbrev pub sorted_set : List ℕ → List ℕ
sorted_set [] = []
sorted_set (x ∷ xs) = insert_sorted x (sorted_set xs)

abbrev pub members_of : List ℕ → List ℕ → List ℕ
members_of ys [] = []
members_of ys (x ∷ xs) = if mem x ys then x ∷ members_of ys xs else members_of ys xs

-- `sorted(list(set(xs).intersection(set(ys))))`
abbrev pub intersection : List ℕ → List ℕ → List ℕ
intersection xs ys = sorted_set (members_of ys xs)

-- From a data parallel rank to the indices of its samples.
abbrev pub Mapping : Type 0
Mapping = List (ℕ × List ℕ)

-- `dict(sorted(m.items()))`; the keys of a dict are distinct.
abbrev pub insert_item : ℕ × List ℕ → Mapping → Mapping
insert_item x [] = x ∷ []
insert_item x (y ∷ m) = if leb x.0 y.0 then x ∷ y ∷ m else y ∷ insert_item x m

abbrev pub sort_items : Mapping → Mapping
sort_items [] = []
sort_items (x ∷ m) = insert_item x (sort_items m)

abbrev pub values_of : Mapping → List ℕ
values_of [] = []
values_of ((k, is) ∷ m) = is ++ values_of m

abbrev pub subset : List ℕ → List ℕ → Bool
subset xs ys = all (λ x. mem x ys) xs

-- Of two ranks the samples that both have.
pub record Slots : Type 0 where
  pub rank1 : ℕ
  pub rank2 : ℕ
  pub slots : List ℕ

abbrev pub with_rank : ℕ × List ℕ → Mapping → List Slots
with_rank b [] = []
with_rank b (a ∷ m) =
    record { rank1 = a.0; rank2 = b.0; slots = intersection a.1 b.1 } ∷ with_rank b m

abbrev pub all_ranks : Mapping → Mapping → List Slots
all_ranks m1 [] = []
all_ranks m1 (b ∷ m2) = with_rank b m1 ++ all_ranks m1 m2

-- `pipeline_repartition_strategy`; the assertion is that both mappings have the same samples.
unfoldable pub pipeline_repartition_strategy : Mapping → Mapping → Option (List Slots)
pipeline_repartition_strategy m1 m2 =
    assert (subset (values_of m1) (values_of m2) && subset (values_of m2) (values_of m1)) >>= λ _.
    some (all_ranks (sort_items m1) (sort_items m2))

-- `DataTransferInfo` at one `DataTransferPair`.
pub record Pair : Type 0 where
  pub src : ℕ
  pub src_dp_rank : ℕ
  pub dst : ℕ
  pub dst_dp_rank : ℕ

pub record Route : Type 0 where
  pub src_rank : ℕ
  pub dst_ranks : List ℕ
  pub group : List ℕ

-- `DataTransferReceiverStep` and `DataTransferSenderStep`
pub data Step : Type 0 where
  receiver : (rank src : ℕ) (dst_ranks group : List ℕ) (key : ℕ) (ids : List ℕ) → Step
  sender : (rank : ℕ) (dst_ranks group : List ℕ) (key : ℕ) (ids : List ℕ) → Step

-- `[global_ids[_i] for _i in comm_slots]`; none is an IndexError.
unfoldable pub pick : List ℕ → List ℕ → Option (List ℕ)
pick global_ids [] = some []
pick global_ids (i ∷ is) =
    get_elem? global_ids i >>= λ x. pick global_ids is >>= λ xs. some (x ∷ xs)

abbrev pub receivers : Route → ℕ → List ℕ → List ℕ → List Step
receivers r key ids [] = []
receivers r key ids (w ∷ ws) =
    receiver w r.src_rank r.dst_ranks r.group key ids ∷ receivers r key ids ws

abbrev pub transfer : Route → ℕ → List ℕ → List Step
transfer r key ids =
    receivers r key ids r.dst_ranks ++ sender r.src_rank r.dst_ranks r.group key ids ∷ []

module _ (routes : Pair → Option Route) (global_ids : List ℕ) (consumer_name : ℕ) where
  abbrev pub pair_of : ℕ → Slots → Pair
  pair_of producer s = record {
    src = producer;
    src_dp_rank = s.rank1;
    dst = consumer_name;
    dst_dp_rank = s.rank2;
  }

  -- One round of the inner loop, for samples that are there; an unknown pair is a KeyError.
  abbrev pub pair_steps : ℕ → ℕ → Slots → List ℕ → Option (List Step)
  pair_steps producer key s [] = some []
  pair_steps producer key s (i ∷ is) = routes (pair_of producer s) >>= λ r.
      pick global_ids (i ∷ is) >>= λ ids. some (transfer r key ids)

  unfoldable pub slots_steps : ℕ → ℕ → List Slots → Option (List Step)
  unfolding pick
  slots_steps producer key [] = some []
  slots_steps producer key (s ∷ ss) = pair_steps producer key s s.slots >>= λ now.
      slots_steps producer key ss >>= λ later. some (now ++ later)

  unfoldable pub key_steps : ℕ → ℕ → Mapping → Mapping → Option (List Step)
  unfolding slots_steps pipeline_repartition_strategy
  key_steps producer key producer_mapping consumer_mapping =
      pipeline_repartition_strategy producer_mapping consumer_mapping >>= slots_steps producer key

  -- `derive_data_transfer_plan`
  unfoldable pub derive_data_transfer_plan :
      Mapping → (ℕ → ℕ) → (ℕ → ℕ → Mapping) → List ℕ → Option (List Step)
  unfolding key_steps
  derive_data_transfer_plan consumer_mapping producer_names producer_mappings [] = some []
  derive_data_transfer_plan consumer_mapping producer_names producer_mappings (k ∷ ks) =
      let producer = producer_names k in
      key_steps producer k (producer_mappings producer k) consumer_mapping >>= λ now.
      derive_data_transfer_plan consumer_mapping producer_names producer_mappings ks >>= λ later.
      some (now ++ later)
