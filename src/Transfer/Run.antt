-- ===== src/Transfer/Run.antt =====
-- `run_data_transfer` of realhf/impl/model/comm/data_transfer.py, as the process of one rank runs it.
-- A tensor is the list of its rows. What a broadcast brings is a parameter; what it sends is logged.
use mathlib.Core.Option
use rea_lhf.Base.{
  Bool, List, Option, [], all, assert, drop, false, if◌then◌else◌, none, not, some, sum_by, take,
  true, when, ℕ, ◌&&◌, ◌++◌, ◌+◌, ◌==◌, ◌>>=◌, ◌∷◌,
}
use rea_lhf.Transfer.{Step, receiver, sender, subset}

-- `sample.data`: no entry for a key, None, or a tensor.
abbrev pub Data : Type 0
Data = ℕ → Option (Option (List ℕ))

-- A `defaultdict` of dicts of sets: by id and key the ranks.
abbrev pub Table : Type 0
Table = ℕ → ℕ → List ℕ

pub data Event : Type 0 where
  data_sent : (key : ℕ) (ids tokens : List ℕ) → Event
  metadata_sent : (ids : List ℕ) → Event
  data_received : (src key : ℕ) (ids : List ℕ) → Event
  metadata_received : (src : ℕ) (ids : List ℕ) → Event

pub record Process : Type 0 where
  pub storage : ℕ → Option Data
  pub sent_table : Table
  pub received_table : Table
  pub log : List Event

-- What the process reads besides: the sequence lengths and the shapes of `meta_samples`, and what
-- `dist.broadcast` brings from a source. `metadata_key` is "__metadata__".
pub record World : Type 0 where
  pub seqlens : ℕ → ℕ → List (List ℕ)
  pub has_shape : ℕ → Bool
  pub broadcast : ℕ → ℕ → List ℕ → List ℕ
  pub metadata_key : ℕ

-- `all(set(dst_ranks).issubset(set(table[_id][key])) for _id in ids)`
abbrev pub all_cached : Table → ℕ → List ℕ → List ℕ → Bool
all_cached t key dst_ranks ids = all (λ i. subset dst_ranks (t i key)) ids

-- `table[_id][key].union(dst_ranks)`: the entry is there afterwards, and is what it was, since `union`
-- makes a new set, which is dropped.
abbrev pub union_entry : ℕ → ℕ → List ℕ → Table → Table
union_entry i key dst_ranks t j k = if i == j && key == k then t i key else t j k

unfoldable pub mark : World → ℕ → List ℕ → List ℕ → Table → Table
mark v key dst_ranks [] t = t
mark v key dst_ranks (i ∷ is) t =
    mark v key dst_ranks is (union_entry i v.metadata_key dst_ranks (union_entry i key dst_ranks t))

-- `storage[_id].data[key]`; a missing one is a KeyError.
abbrev pub data_at : (ℕ → Option Data) → ℕ → ℕ → Option (Option (List ℕ))
data_at storage i key = storage i >>= λ d. d key

-- `[storage[_id].data[key] for _id in ids]`
unfoldable pub data_of : (ℕ → Option Data) → ℕ → List ℕ → Option (List (Option (List ℕ)))
data_of storage key [] = some []
data_of storage key (i ∷ is) =
    data_at storage i key >>= λ d. data_of storage key is >>= λ ds. some (d ∷ ds)

abbrev pub set_data : Data → ℕ → Option (List ℕ) → Data
set_data d key v k = if key == k then some v else d k

abbrev pub no_data : Data
no_data k = none

-- `storage[_id].update_(s)`, or `storage[_id] = s`, for a sample `s` of one key.
abbrev pub merge : ℕ → ℕ → Option (List ℕ) → (ℕ → Option Data) → ℕ → Option Data
merge i key v storage j =
    if i == j
    then some (set_data (elim (storage i) [ none ↦ no_data | some d ↦ d ]) key v)
    else storage j

-- `seqlen = sum(seqlens[0])`, with the assertion that there is one sequence.
abbrev pub one_seqlen : List (List ℕ) → Option ℕ
one_seqlen (l ∷ []) = some (sum_by (λ n. n) l)
one_seqlen _ = none

abbrev pub piece : Option (List ℕ) → ℕ → ℕ → Option (List ℕ)
piece buf offset n = Option.map (λ (b : List ℕ). take n (drop offset b)) buf

-- The loop that splits the buffer, from `offset` on.
unfoldable pub split_buffer :
    World → ℕ → Option (List ℕ) → List ℕ → ℕ → (ℕ → Option Data) → Option (ℕ → Option Data)
split_buffer v key buf [] offset storage = some storage
split_buffer v key buf (i ∷ is) offset storage = one_seqlen (v.seqlens i key) >>= λ n.
    split_buffer v key buf is (offset + n) (merge i key (piece buf offset n) storage)

-- What a receiver does with what is not cached. With the metadata cached, `metadatas` is not bound.
unfoldable pub receive : World → ℕ → List ℕ → ℕ → List ℕ → Process → Option Process
unfolding mark split_buffer
receive v src dst_ranks key ids p =
    let buf = if v.has_shape key then some (v.broadcast src key ids) else none in
    assert (not (all_cached p.received_table v.metadata_key dst_ranks ids)) >>= λ _.
    split_buffer v key buf ids 0 p.storage >>= λ st. some (record p {
      storage = st;
      received_table = mark v key dst_ranks ids p.received_table;
      log =
          p.log
          ++ (when (v.has_shape key) (data_received src key ids) ++ metadata_received src ids ∷ []);
    })

-- The tensors in one, if none of them is None.
abbrev pub concat : List (Option (List ℕ)) → Option (List ℕ)
concat [] = some []
concat (none ∷ ds) = none
concat (some d ∷ ds) = Option.map (λ (e : List ℕ). d ++ e) (concat ds)

abbrev pub send_data : ℕ → List ℕ → Option (List ℕ) → List Event
send_data key ids none = []
send_data key ids (some tokens) = data_sent key ids tokens ∷ []

unfoldable pub send : World → List ℕ → ℕ → List ℕ → Process → Option Process
unfolding mark data_of
send v dst_ranks key ids p = data_of p.storage key ids >>= λ ds. some (record p {
  sent_table = mark v key dst_ranks ids p.sent_table;
  log =
      p.log
      ++ (send_data key ids (concat ds)
          ++ when (not (all_cached p.sent_table v.metadata_key dst_ranks ids)) (metadata_sent ids));
})

-- The receiver that is the sender needs no communication.
abbrev pub receive_step : World → Bool → ℕ → List ℕ → ℕ → List ℕ → Process → Option Process
unfolding receive data_of
receive_step v true src dst_ranks key ids p = data_of p.storage key ids >>= λ _. some p
receive_step v false src dst_ranks key ids p =
    if all_cached p.received_table key dst_ranks ids
    then some p
    else receive v src dst_ranks key ids p

abbrev pub send_step : World → List ℕ → ℕ → List ℕ → Process → Option Process
unfolding send
send_step v dst_ranks key ids p =
    if all_cached p.sent_table key dst_ranks ids then some p else send v dst_ranks key ids p

unfoldable pub run_step : World → ℕ → Step → Process → Option Process
unfolding receive data_of send
run_step v me (receiver rank src dst_ranks group key ids) p =
    if rank == me then receive_step v (src == me) src dst_ranks key ids p else some p
run_step v me (sender rank dst_ranks group key ids) p =
    if rank == me then send_step v dst_ranks key ids p else some p

unfoldable pub run_data_transfer : World → ℕ → List Step → Process → Option Process
unfolding run_step
run_data_transfer v me [] p = some p
run_data_transfer v me (s ∷ plan) p = run_step v me s p >>= run_data_transfer v me plan
