-- ===== src/Transfer/Setup.antt =====
-- `setup_data_transfer` of realhf/impl/model/comm/data_transfer.py, `filter_match_mwids` of
-- realhf/impl/model/comm/global_comm.py and `from_parallelism_rank` of realhf/api/core/config.py: the
-- routes between the data parallel ranks of two models.
use mathlib.Core.Option.{some-injective}
use rea_lhf.Base.{
  >>=-eq-some, Bool, List, Option, [], ap, assert, false, get_elem?, if◌then◌else◌, length, ltb,
  mem, none, some, sym, ℕ, ◌&&◌, ◌-◌, ◌==◌, ◌>>=◌, ◌||◌, ◌∙◌, ◌∷◌, ◌≡◌,
}
use rea_lhf.Topology.Grid.{ProcessTopology, filter_match, get_coord, get_dim, lookup}
use rea_lhf.Transfer.{Pair, Route, sorted_set}

-- The topology of each model, and the model worker of each of its ranks. A rank that has no shard is
-- a KeyError.
pub record Models : Type 0 where
  pub topo : ℕ → ProcessTopology
  pub msid2mwid : ℕ → List (List ℕ × ℕ)

-- The axes of `PipeModelDataParallelTopology`.
abbrev pub pipe : ℕ
pipe = 0

abbrev pub data_axis : ℕ
data_axis = 1

abbrev pub model_axis : ℕ
model_axis = 2

-- `msid2mwid[ModelShardID.from_parallelism_rank(model_name, topo, j)]`; a shard is its coordinate.
unfoldable pub mwid_of : Models → ℕ → ℕ → Option ℕ
mwid_of m model j = get_coord (m.topo model) j >>= λ c. lookup c (m.msid2mwid model)

unfoldable pub mwids_of : Models → ℕ → List ℕ → Option (List ℕ)
unfolding mwid_of
mwids_of m model [] = some []
mwids_of m model (j ∷ js) = mwid_of m model j >>= λ w. mwids_of m model js >>= λ ws. some (w ∷ ws)

-- The workers in order, with the assertion that none stands twice.
abbrev pub in_order : List ℕ → Option (List ℕ)
in_order ws = assert (length (sorted_set ws) == length ws) >>= λ _. some (sorted_set ws)

-- `filter_match_mwids`, with conditions.
unfoldable pub filter_match_mwids : Models → ℕ → List (ℕ × ℕ) → Option (List ℕ)
unfolding mwids_of
filter_match_mwids m model conditions =
    filter_match (m.topo model) conditions >>= λ js. mwids_of m model js >>= in_order

-- `mw_dp_head_ranks[model]` and `mw_dp_ranks[model, dp]`
abbrev pub mw_dp_head_ranks : Models → ℕ → Option (List ℕ)
mw_dp_head_ranks m model =
    filter_match_mwids m model ((pipe, get_dim (m.topo model) pipe - 1) ∷ (model_axis, 0) ∷ [])

abbrev pub mw_dp_ranks : Models → ℕ → ℕ → Option (List ℕ)
mw_dp_ranks m model dp = filter_match_mwids m model ((data_axis, dp) ∷ [])

abbrev pub paired : ℕ → ℕ → List (ℕ × ℕ) → Bool
paired src dst [] = false
paired src dst ((a, b) ∷ pairs) = a == src && b == dst || paired src dst pairs

abbrev pub route_to : ℕ → List ℕ → Route
route_to src dst_ranks = record {
  src_rank = src;
  dst_ranks = dst_ranks;
  group = if mem src dst_ranks then dst_ranks else src ∷ dst_ranks;
}

-- The entry of the three dicts at a `DataTransferPair`; none is a pair that is not there.
unfoldable pub route : Models → List (ℕ × ℕ) → Pair → Option Route
unfolding filter_match_mwids
route m pairs q =
    assert (
      paired q.src q.dst pairs
      && ltb q.src_dp_rank (get_dim (m.topo q.src) data_axis)
      && ltb q.dst_dp_rank (get_dim (m.topo q.dst) data_axis))
    >>= λ _. mw_dp_head_ranks m q.src >>= λ heads. get_elem? heads q.src_dp_rank >>= λ src.
        mw_dp_ranks m q.dst q.dst_dp_rank >>= λ dst_ranks. some (route_to src dst_ranks)

abbrev pub or_none : Option (List ℕ) → List ℕ
or_none none = []
or_none (some ws) = ws

-- The workers of a data parallel rank, where there are any.
abbrev pub ranks_of : Models → ℕ → ℕ → List ℕ
ranks_of m model dp = or_none (mw_dp_ranks m model dp)

pub route_ranks :
    (m : Models) (pairs : List (ℕ × ℕ)) (q : Pair) (r : Route)
    → route m pairs q ≡ some r
    → r.dst_ranks ≡ ranks_of m q.dst q.dst_dp_rank
unfolding route
route_ranks m pairs q r e =
    let (_, a, e1) =
      >>=-eq-some
        (assert (
          paired q.src q.dst pairs
          && ltb q.src_dp_rank (get_dim (m.topo q.src) data_axis)
          && ltb q.dst_dp_rank (get_dim (m.topo q.dst) data_axis)))
        _ e in
    let (heads, b, e2) = >>=-eq-some (mw_dp_head_ranks m q.src) _ e1 in
    let (src, c, e3) = >>=-eq-some (get_elem? heads q.src_dp_rank) _ e2 in
    let (ws, d, e4) = >>=-eq-some (mw_dp_ranks m q.dst q.dst_dp_rank) _ e3 in
    sym (ap (λ (x : Route). x.dst_ranks) (some-injective _ _ e4)) ∙ sym (ap or_none d)
