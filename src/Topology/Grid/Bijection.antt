-- ===== src/Topology/Grid/Bijection.antt =====
-- `get_rank` and `get_coord` are inverse to one another.
use mathlib.Core.Option
use mathlib.Core.Option.{some-injective}
use rea_lhf.Base.{
  ==_iff, Bool-cases, List, Option, [], ap, arith, dec_lt, eq_of_list_eq, get_elem?,
  get_elem?-append_left, get_elem?-append_right, get_elem?-map-some, get_elem?-some, inl, inr,
  length, length-map, map, none, refl, some, suc, sym, zero, ℕ, ◌*◌, ◌+◌, ◌-◌, ◌<◌, ◌==◌, ◌↔◌, ◌∙◌,
  ◌∷◌, ◌≡◌, ◌⊎◌,
}
use rea_lhf.Topology.Grid.{
  ProcessTopology, cartesian, enumerate, find_rank, get_coord, get_rank, lookup, make, rows,
  world_size,
}
use rea_lhf.Topology.Grid.Ranks.{
  index_in, index_in-cartesian, length-cartesian, lookup-enumerate, position, product,
}

find_rank-enumerate :
    (r k j : ℕ) (xs : List (List ℕ)) → k + j ≡ r → find_rank r (enumerate k xs) ≡ get_elem? xs j
unfolding find_rank
find_rank-enumerate r k j [] e = refl
find_rank-enumerate r k zero (x ∷ xs) e = ground arith
find_rank-enumerate r k (suc j) (x ∷ xs) e =
    ground (arith, find_rank-enumerate r (suc k) j xs (omega arith))

index_in_sound :
    (c : List ℕ) (xs : List (List ℕ)) (j : ℕ) → index_in c xs ≡ some j → get_elem? xs j ≡ some c
unfolding index_in
index_in_sound c [] j e = cc
index_in_sound c (x ∷ xs) zero e = ground (arith, eq_of_list_eq x c)
index_in_sound c (x ∷ xs) (suc j) e = ground (arith, index_in_sound c xs j)

get_elem?-rows :
    (n i j : ℕ) (cs : List (List ℕ)) (c : List ℕ)
    → get_elem? (rows n i cs) j ≡ some c
    → (q p : ℕ) × (c' : List ℕ) × (q < n)
      × (c ≡ (i + q) ∷ c')
      × (get_elem? cs p ≡ some c')
      × (j ≡ q * length cs + p)
unfolding rows
get_elem?-rows zero i j cs c e = cc
get_elem?-rows (suc n) i j cs c e = elim (dec_lt j (length cs)) [
  | yes h ↦
      let (c', found, same) =
        get_elem?-map-some (λ x. i ∷ x) cs j
          (sym (
              get_elem?-append_left (map (λ x. i ∷ x) cs) (rows n (suc i) cs) j
                (rw (length-map cs (λ x. i ∷ x)) h))
            ∙ e) in
      (0, j, c', omega arith, same ∙ ap (λ z. z ∷ c') (omega arith), found, omega arith)
  | no h ↦
      let k = j - length cs in
      let split : length (map (λ x. i ∷ x) cs) + k ≡ j =
        omega (arith, length-map cs (λ x. i ∷ x)) in
      let (q, p, c', lt, same, found, place) =
        get_elem?-rows n (suc i) k cs c
          (sym (get_elem?-append_right (map (λ x. i ∷ x) cs) (rows n (suc i) cs) k) ∙ rw split e) in
      (suc q, p, c', omega arith, same ∙ ap (λ z. z ∷ c') (omega arith), found, omega arith)
]

pub position_of_elem :
    (dims c : List ℕ) (j : ℕ) → get_elem? (cartesian dims) j ≡ some c → position dims c ≡ some j
unfolding cartesian
position_of_elem [] c zero e = rw (sym (some-injective _ _ e)) refl
position_of_elem [] c (suc j) e = cc
position_of_elem (d ∷ ds) c j e =
    let (q, p, c', lt, same, found, place) = get_elem?-rows d 0 j (cartesian ds) c e in
    let ih = position_of_elem ds c' p found in
    let z : 0 + q ≡ q = omega arith in
    let l = length-cartesian ds in rw (same, z) (ground (arith, ih, place, l))

pub elem_of_position :
    (dims c : List ℕ) (j : ℕ) → position dims c ≡ some j → get_elem? (cartesian dims) j ≡ some c
elem_of_position dims c j e = index_in_sound c (cartesian dims) j (index_in-cartesian dims c ∙ e)

position_arity : (dims c : List ℕ) → (length c ≡ length dims) ⊎ (position dims c ≡ none)
position_arity [] [] = inl refl
position_arity [] (x ∷ c) = inr refl
position_arity (d ∷ ds) [] = inr refl
position_arity (d ∷ ds) (x ∷ c) = elim (position_arity ds c) [
  | inl e ↦ inl (ap suc e)
  | inr e ↦ inr (rw e (ground arith))
]

module _ (reg : List (List ℕ)) (axes dims : List ℕ) (t : ProcessTopology)
    (made : make reg axes dims ≡ some t) (fits : length dims ≡ length axes) where
  made_mapping : t.mapping ≡ enumerate 0 (cartesian dims)
  unfolding make
  made_mapping = ground arith

  pub made_axes : t.axes ≡ axes
  unfolding make
  made_axes = ground arith

  pub made_dims : t.dims ≡ dims
  unfolding make
  made_dims = ground arith

  pub lookup-position : (c : List ℕ) → lookup c t.mapping ≡ position dims c
  lookup-position c =
      rw (made_mapping, lookup-enumerate c 0 (cartesian dims), index_in-cartesian dims c)
        (unshift (position dims c))
    where
      unshift : (o : Option ℕ) → Option.map (λ p. 0 + p) o ≡ o
      unshift none = refl
      unshift (some p) = ap some (omega arith)

  -- In a topology that was made with a dimension for each axis, `get_rank` is the row-major position
  -- of a coordinate, and fails exactly outside the grid.
  pub get_rank_lem : (c : List ℕ) → get_rank t c ≡ position dims c
  unfolding get_rank
  get_rank_lem c = elim (position_arity dims c) [
    | inl e ↦
        let f : length c ≡ length t.axes = e ∙ fits ∙ ap length (sym made_axes) in
        rw ((==_iff (length c) (length t.axes)).1 f) (lookup-position c)
    | inr e ↦ elim (Bool-cases (length c == length t.axes)) [
      | inl y ↦ rw y (lookup-position c)
      | inr n ↦ rw (n, e)
    ]
  ]

  get_coord_lem : (r : ℕ) → get_coord t r ≡ get_elem? (cartesian dims) r
  unfolding get_coord
  get_coord_lem r = rw made_mapping (find_rank-enumerate r 0 r (cartesian dims) (omega arith))

  -- In a topology that was made with a dimension for each axis, `get_rank` and `get_coord` are
  -- inverse: a coordinate has rank `r` if and only if rank `r` has
  -- that coordinate.
  pub rank_iff_coord : (c : List ℕ) (r : ℕ) → (get_rank t c ≡ some r) ↔ (get_coord t r ≡ some c)
  rank_iff_coord c r = (
    λ e. get_coord_lem r ∙ elem_of_position dims c r (sym (get_rank_lem c) ∙ e),
    λ e. get_rank_lem c ∙ position_of_elem dims c r (sym (get_coord_lem r) ∙ e),
  )

  length-enumerate : (k : ℕ) (xs : List (List ℕ)) → length (enumerate k xs) ≡ length xs
  length-enumerate k [] = refl
  length-enumerate k (x ∷ xs) = ap suc (length-enumerate (suc k) xs)

  -- A world that was made with a dimension for each axis has as many ranks as the product of the dimensions, and each rank below it has a
  -- coordinate.
  pub world_size_lem :
      (world_size t ≡ product dims)
      × ((r : ℕ) → r < world_size t → (c : List ℕ) × (get_coord t r ≡ some c))
  unfolding world_size
  world_size_lem =
      let size : length t.mapping ≡ length (cartesian dims) =
        ap length made_mapping ∙ length-enumerate 0 (cartesian dims) in
      (
        size ∙ length-cartesian dims,
        λ r h.
            let (c, e) = get_elem?-some (cartesian dims) r (omega (arith, size)) in
            (c, get_coord_lem r ∙ e),
      )
