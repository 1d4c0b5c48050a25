-- ===== src/Topology/Grid.antt =====
-- realhf/base/topology.py, `ProcessTopology`. The names of axes are compared only, so they are
-- numbers; a coordinate is the list of its values in the order of the axes, as the named tuple is.
pub mod Ranks
pub mod Bijection
pub mod Filters
pub mod CommLists
mod Examples
use mathlib.Core.Option
use rea_lhf.Base.{
  Bool, List, Option, [], any, assert, false, get_or, if◌then◌else◌, length, list_eq, map, none,
  some, suc, true, zero, ℕ, ◌++◌, ◌==◌, ◌>>=◌, ◌∷◌,
}

-- `cartesian_product(*[range(d) for d in dims])`: the last axis runs fastest.
pub rows : ℕ → ℕ → List (List ℕ) → List (List ℕ)
rows zero i cs = []
rows (suc n) i cs = map (λ c. i ∷ c) cs ++ rows n (suc i) cs

pub cartesian : List ℕ → List (List ℕ)
unfolding rows
cartesian [] = [] ∷ []
cartesian (d ∷ ds) = rows d 0 (cartesian ds)

abbrev pub enumerate : ℕ → List (List ℕ) → List (List ℕ × ℕ)
enumerate k [] = []
enumerate k (c ∷ cs) = (c, k) ∷ enumerate (suc k) cs

pub record ProcessTopology : Type 0 where
  pub axes : List ℕ
  pub dims : List ℕ
  pub mapping : List (List ℕ × ℕ)

-- The keys of `PROCESS_COORD_REGISTRY` are the axes for which a named tuple is registered; for
-- others the constructor raises KeyError.
abbrev pub registered : List (List ℕ) → List ℕ → Bool
registered reg axes = any (list_eq axes) reg

pub make : List (List ℕ) → List ℕ → List ℕ → Option ProcessTopology
unfolding cartesian
make reg axes dims = assert (registered reg axes) >>= λ _.
    some (record { axes = axes; dims = dims; mapping = enumerate 0 (cartesian dims) })

-- `self.mapping[key]`, and the assertion that the key is there.
unfoldable pub lookup : List ℕ → List (List ℕ × ℕ) → Option ℕ
lookup c [] = none
lookup c ((k, r) ∷ m) = if list_eq k c then some r else lookup c m

-- `get_rank`. The first test is the ValueError for a wrong number of coordinates.
unfoldable pub get_rank : ProcessTopology → List ℕ → Option ℕ
unfolding lookup
get_rank t c = assert (length c == length t.axes) >>= λ _. lookup c t.mapping

-- `get_coord`; none is the ValueError.
pub find_rank : ℕ → List (List ℕ × ℕ) → Option (List ℕ)
find_rank r [] = none
find_rank r ((c, k) ∷ m) = if k == r then some c else find_rank r m

unfoldable pub get_coord : ProcessTopology → ℕ → Option (List ℕ)
unfolding find_rank
get_coord t r = find_rank r t.mapping

pub world_size : ProcessTopology → ℕ
world_size t = length t.mapping

-- `self.axes.index(axis)`
pub axis_index : ℕ → List ℕ → Option ℕ
axis_index a [] = none
axis_index a (x ∷ xs) = if x == a then some 0 else Option.map (λ n. suc n) (axis_index a xs)

unfoldable pub get_dim : ProcessTopology → ℕ → ℕ
unfolding axis_index
get_dim t axis = elim (axis_index axis t.axes) [ none ↦ 0 | some i ↦ get_or t.dims i 0 ]

-- `filter_match`: the filter is a list of axes and values; an unknown axis raises AttributeError.
pub matches : List ℕ → List (ℕ × ℕ) → List ℕ → Option Bool
unfolding axis_index
matches axes [] c = some true
matches axes ((a, v) ∷ f) c = axis_index a axes >>= λ i. elim (get_or c i 0 == v) [
  | true ↦ matches axes f c
  | false ↦ some false
]

pub filter_ranks : List ℕ → List (ℕ × ℕ) → List (List ℕ × ℕ) → Option (List ℕ)
unfolding matches
filter_ranks axes f [] = some []
filter_ranks axes f ((c, r) ∷ m) =
    matches axes f c >>= λ hit. filter_ranks axes f m >>= λ rs. some (if hit then r ∷ rs else rs)

unfoldable pub filter_match : ProcessTopology → List (ℕ × ℕ) → Option (List ℕ)
unfolding filter_ranks
filter_match t f = filter_ranks t.axes f t.mapping

-- `get_axis_list`
pub ranks_at : ℕ → ℕ → List (List ℕ × ℕ) → List ℕ
ranks_at i v [] = []
ranks_at i v ((c, r) ∷ m) = if get_or c i 0 == v then r ∷ ranks_at i v m else ranks_at i v m

pub get_axis_list : ProcessTopology → ℕ → ℕ → Option (List ℕ)
unfolding axis_index ranks_at
get_axis_list t axis v = axis_index axis t.axes >>= λ i. some (ranks_at i v t.mapping)

-- `get_axis_comm_lists`: the coordinates of the other axes, with one more value put in.
abbrev pub remove_at : ℕ → List ℕ → List ℕ
remove_at i [] = []
remove_at zero (x ∷ xs) = xs
remove_at (suc i) (x ∷ xs) = x ∷ remove_at i xs

abbrev pub insert_at : ℕ → ℕ → List ℕ → List ℕ
insert_at zero v xs = v ∷ xs
insert_at (suc i) v [] = v ∷ []
insert_at (suc i) v (x ∷ xs) = x ∷ insert_at i v xs

-- `[self.mapping[key] for axis_key in range(d)]`, `n` values from `v`; a missing key is a KeyError.
pub comm_list : List (List ℕ × ℕ) → ℕ → List ℕ → ℕ → ℕ → Option (List ℕ)
unfolding lookup
comm_list m i c zero v = some []
comm_list m i c (suc n) v =
    lookup (insert_at i v c) m >>= λ r. comm_list m i c n (suc v) >>= λ rs. some (r ∷ rs)

pub comm_lists : List (List ℕ × ℕ) → ℕ → ℕ → List (List ℕ) → Option (List (List ℕ))
unfolding comm_list
comm_lists m i d [] = some []
comm_lists m i d (c ∷ cs) = comm_list m i c d 0 >>= λ l. comm_lists m i d cs >>= λ ls. some (l ∷ ls)

pub get_axis_comm_lists : ProcessTopology → ℕ → Option (List (List ℕ))
unfolding comm_lists axis_index cartesian
get_axis_comm_lists t axis = elim (axis_index axis t.axes) [
  | none ↦ some []
  | some i ↦ comm_lists t.mapping i (get_or t.dims i 0) (cartesian (remove_at i t.dims))
]
