-- ===== src/Topology/Grid/Examples.antt =====
-- A grid of 2 pipeline stages, 3 data-parallel replicas and 2 tensor-parallel ranks.
use rea_lhf.Topology.Grid.Bijection
use rea_lhf.Topology.Grid.CommLists
use rea_lhf.Base.{List, Option, [], get_elem?, none, refl, some, ℕ, ◌↔◌, ◌∷◌, ◌≡◌}
use rea_lhf.Topology.Grid.{
  ProcessTopology, axis_index, get_axis_comm_lists, get_coord, get_rank, make,
}
use rea_lhf.Topology.Grid.Ranks.{position}

abbrev axes : List ℕ
axes = 0 ∷ 1 ∷ 2 ∷ []

abbrev dims : List ℕ
dims = 2 ∷ 3 ∷ 2 ∷ []

abbrev or_empty : Option ProcessTopology → ProcessTopology
or_empty (some t) = t
or_empty none = record { axes = []; dims = []; mapping = [] }

grid : ProcessTopology
unfolding make
grid = or_empty (make (axes ∷ []) axes dims)

grid_made : make (axes ∷ []) axes dims ≡ some grid
unfolding grid
grid_made = refl

rank_iff_coord_example :
    (get_rank grid (1 ∷ 0 ∷ 1 ∷ []) ≡ some 7) ↔ (get_coord grid 7 ≡ some (1 ∷ 0 ∷ 1 ∷ []))
rank_iff_coord_example =
    Bijection.rank_iff_coord (axes ∷ []) axes dims grid grid_made refl (1 ∷ 0 ∷ 1 ∷ []) 7

abbrev pipe_lists : List (List ℕ)
pipe_lists =
    (0 ∷ 6 ∷ []) ∷ (1 ∷ 7 ∷ []) ∷ (2 ∷ 8 ∷ []) ∷ (3 ∷ 9 ∷ []) ∷ (4 ∷ 10 ∷ []) ∷ (5 ∷ 11 ∷ []) ∷ []

comm_lists_member_example :
    (a : ℕ) × (l : List ℕ) × (position (3 ∷ 2 ∷ []) (1 ∷ 1 ∷ []) ≡ some a)
    × (get_elem? pipe_lists a ≡ some l)
    × (get_elem? l 1 ≡ some 9)
unfolding grid get_axis_comm_lists get_coord axis_index
comm_lists_member_example =
    CommLists.comm_lists_member (axes ∷ []) axes dims grid 0 0 9 (1 ∷ 1 ∷ 1 ∷ []) pipe_lists
      grid_made refl refl refl refl
