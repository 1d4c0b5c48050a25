-- ===== src/System/Dispatch.antt =====
-- realhf/system/master_worker.py, `model_rpc_request_func` from the split of a batch on: who owns the data
-- that a call produces, and who has the data that it reads.
pub mod Owners
pub mod Sources
pub mod Flow
pub mod Inputs
use rea_lhf.Base.{
  List, Option, [], all, assert, get_elem?, if◌then◌else◌, leb, none, some, suc, zero, ℕ, ◌&&◌,
  ◌++◌, ◌-◌, ◌==◌, ◌>>=◌, ◌∷◌,
}
use rea_lhf.Transfer.{Mapping}

-- `data_owner`: by id and key the model and its data parallel rank.
abbrev pub DataOwner : Type 0
DataOwner = ℕ → ℕ → Option (ℕ × ℕ)

abbrev pub set_owner : ℕ → ℕ → ℕ × ℕ → DataOwner → DataOwner
set_owner i k v o j l = if i == j && k == l then some v else o j l

-- `for k in rpc.output_keys`
abbrev pub own_keys : ℕ → List ℕ → ℕ × ℕ → DataOwner → DataOwner
own_keys i [] v o = o
own_keys i (k ∷ ks) v o = own_keys i ks v (set_owner i k v o)

-- `for i in range(st, ed)`, `n` rounds from `st`; none is an IndexError.
unfoldable pub own_range : List ℕ → List ℕ → ℕ × ℕ → ℕ → ℕ → DataOwner → Option DataOwner
own_range ids ks v zero st o = some o
own_range ids ks v (suc n) st o =
    get_elem? ids st >>= λ i. own_range ids ks v n (suc st) (own_keys i ks v o)

-- `for dp_idx, (st, ed) in enumerate(partitions)`
unfoldable pub own_parts : List ℕ → List ℕ → ℕ → ℕ → List (ℕ × ℕ) → DataOwner → Option DataOwner
unfolding own_range
own_parts ids ks model dp [] o = some o
own_parts ids ks model dp ((st, ed) ∷ ps) o =
    own_range ids ks (model, dp) (ed - st) st o >>= own_parts ids ks model (suc dp) ps

-- `target_mapping`
abbrev pub range_from : ℕ → ℕ → List ℕ
range_from zero st = []
range_from (suc n) st = st ∷ range_from n (suc st)

abbrev pub target_mapping : ℕ → List (ℕ × ℕ) → Mapping
target_mapping dp [] = []
target_mapping dp ((st, ed) ∷ ps) = (dp, range_from (ed - st) st) ∷ target_mapping (suc dp) ps

-- `data_owner[(sample_id, k)]` for each sample; none is a KeyError.
unfoldable pub owners_of_key : DataOwner → ℕ → List ℕ → Option (List (ℕ × ℕ))
owners_of_key o k [] = some []
owners_of_key o k (i ∷ is) = o i k >>= λ v. owners_of_key o k is >>= λ vs. some (v ∷ vs)

-- `len(set(names)) == 1`
abbrev pub one_name : List (ℕ × ℕ) → Option ℕ
one_name [] = none
one_name (v ∷ vs) = assert (all (λ u. u.0 == v.0) vs) >>= λ _. some v.0

-- `producer_mapping[dp_idx].append(i)`
abbrev pub add_index : ℕ → ℕ → Mapping → Mapping
add_index dp i [] = (dp, i ∷ []) ∷ []
add_index dp i ((d, is) ∷ m) = if d == dp then (d, is ++ i ∷ []) ∷ m else (d, is) ∷ add_index dp i m

unfoldable pub index_owners : ℕ → List (ℕ × ℕ) → Mapping → Mapping
index_owners i [] m = m
index_owners i (v ∷ vs) m = index_owners (suc i) vs (add_index v.1 i m)

-- `sorted(v)`
abbrev pub insert : ℕ → List ℕ → List ℕ
insert x [] = x ∷ []
insert x (y ∷ ys) = if leb x y then x ∷ y ∷ ys else y ∷ insert x ys

abbrev pub sorted : List ℕ → List ℕ
sorted [] = []
sorted (x ∷ xs) = insert x (sorted xs)

abbrev pub sort_values : Mapping → Mapping
sort_values [] = []
sort_values ((d, is) ∷ m) = (d, sorted is) ∷ sort_values m

-- One round of `for k in rpc.input_keys`: the name of the producer, and the mapping.
unfoldable pub producer_mapping : DataOwner → List ℕ → ℕ → Option (ℕ × Mapping)
unfolding owners_of_key index_owners
producer_mapping o ids k = owners_of_key o k ids >>= λ vs.
    one_name vs >>= λ name. some (name, sort_values (index_owners 0 vs []))

-- `producer_mappings`, by key.
unfoldable pub producer_mappings : DataOwner → List ℕ → List ℕ → Option (List (ℕ × (ℕ × Mapping)))
unfolding producer_mapping
producer_mappings o ids [] = some []
producer_mappings o ids (k ∷ ks) =
    producer_mapping o ids k >>= λ m. producer_mappings o ids ks >>= λ ms. some ((k, m) ∷ ms)

-- The new owners, and where the inputs are.
unfoldable pub dispatch :
    ℕ
    → List ℕ
    → List ℕ
    → List ℕ
    → List (ℕ × ℕ)
    → DataOwner
    → Option (DataOwner × List (ℕ × (ℕ × Mapping)))
unfolding own_parts producer_mappings
dispatch model input_keys output_keys ids partitions o =
    own_parts ids output_keys model 0 partitions o >>= λ o'.
    producer_mappings o' ids input_keys >>= λ ms. some (o', ms)
