-- ===== src/Topology/Grid/CommLists.antt =====
-- `get_axis_comm_lists` groups the ranks that differ in one coordinate only.
use mathlib.Core.Option.{some-injective}
use rea_lhf.Base.{
  >>=-eq-some, List, Option-cases, [], ap, arith, get_elem?, get_or, inl, inr, length, lt→ltb, refl,
  some, suc, sym, zero, ℕ, ◌*◌, ◌+◌, ◌<◌, ◌∙◌, ◌∷◌, ◌≡◌,
}
use rea_lhf.Topology.Grid.{
  ProcessTopology, axis_index, cartesian, comm_list, comm_lists, get_axis_comm_lists, get_coord,
  insert_at, lookup, make, remove_at,
}
use rea_lhf.Topology.Grid.Bijection.{
  elem_of_position, get_rank_lem, lookup-position, made_axes, made_dims, rank_iff_coord,
}
use rea_lhf.Topology.Grid.Ranks.{position, product}

comm_list_elem :
    (m : List (List ℕ × ℕ)) (i n v k : ℕ) (c l : List ℕ)
    → comm_list m i c n v ≡ some l
    → k < n
    → get_elem? l k ≡ lookup (insert_at i (v + k) c) m
unfolding comm_list
comm_list_elem m i zero v k c l e h = elim h [ ]
comm_list_elem m i (suc n) v k c l e h =
    let (r, now, e₁) = >>=-eq-some (lookup (insert_at i v c) m) _ e in
    let (rs, later, e₂) = >>=-eq-some (comm_list m i c n (suc v)) _ e₁ in
    rw (sym (some-injective _ _ e₂))
      (pick k r rs now (λ j lt. comm_list_elem m i n (suc v) j c rs later lt) h)
  where
    pick :
        (k r : ℕ) (rs : List ℕ)
        → lookup (insert_at i v c) m ≡ some r
        → ((j : ℕ) → j < n → get_elem? rs j ≡ lookup (insert_at i (suc v + j) c) m)
        → k < suc n
        → get_elem? (r ∷ rs) k ≡ lookup (insert_at i (v + k) c) m
    pick zero r rs now ih h = let z : v + 0 ≡ v = omega arith in rw z (sym now)
    pick (suc j) r rs now ih h =
        ih j (omega arith) ∙ ap (λ w. lookup (insert_at i w c) m) (omega arith)

comm_lists_elem :
    (m : List (List ℕ × ℕ)) (i d a : ℕ) (cs : List (List ℕ)) (c : List ℕ) (ls : List (List ℕ))
    → comm_lists m i d cs ≡ some ls
    → get_elem? cs a ≡ some c
    → (l : List ℕ) × (get_elem? ls a ≡ some l) × (comm_list m i c d 0 ≡ some l)
unfolding comm_lists
comm_lists_elem m i d a [] c ls e h = cc
comm_lists_elem m i d zero (c' ∷ cs) c ls e h =
    let (l, now, e₁) = >>=-eq-some (comm_list m i c' d 0) _ e in
    let (rest, later, e₂) = >>=-eq-some (comm_lists m i d cs) _ e₁ in
    (l, rw (sym (some-injective _ _ e₂)) refl, rw (sym (some-injective _ _ h)) now)
comm_lists_elem m i d (suc a) (c' ∷ cs) c ls e h =
    let (l, now, e₁) = >>=-eq-some (comm_list m i c' d 0) _ e in
    let (rest, later, e₂) = >>=-eq-some (comm_lists m i d cs) _ e₁ in
    let (l', found, made) = comm_lists_elem m i d a cs c rest later h in
    (l', rw (sym (some-injective _ _ e₂)) found, made)

insert-remove : (i : ℕ) (c : List ℕ) → i < length c → insert_at i (get_or c i 0) (remove_at i c) ≡ c
insert-remove i [] h = elim h [ ]
insert-remove zero (x ∷ c) h = refl
insert-remove (suc i) (x ∷ c) h = ap (λ l. x ∷ l) (insert-remove i c (omega arith))

position_cons :
    (d x : ℕ) (ds c : List ℕ) (r : ℕ)
    → position (d ∷ ds) (x ∷ c) ≡ some r
    → (p : ℕ) × (x < d) × (position ds c ≡ some p)
position_cons d x ds c r e = elim (Option-cases (position ds c)) [
  | inl n ↦ ground arith
  | inr (p, s) ↦ (p, ground arith, s)
]

position_remove :
    (i : ℕ) (dims c : List ℕ) (r : ℕ)
    → i < length dims
    → position dims c ≡ some r
    → (a : ℕ) × (position (remove_at i dims) (remove_at i c) ≡ some a)
      × (get_or c i 0 < get_or dims i 0)
      × (i < length c)
position_remove i [] c r h e = elim h [ ]
position_remove i (d ∷ ds) [] r h e = cc
position_remove zero (d ∷ ds) (x ∷ c) r h e =
    let (p, lt, q) = position_cons d x ds c r e in (p, q, lt, omega arith)
position_remove (suc i) (d ∷ ds) (x ∷ c) r h e =
    let (p, lt, q) = position_cons d x ds c r e in
    let (a, q', lt', in_range) = position_remove i ds c p (omega arith) q in
    (x * product (remove_at i ds) + a, rw (q', lt→ltb x d lt) (refl), lt', omega arith)

axis_index-lt : (a i : ℕ) (axes : List ℕ) → axis_index a axes ≡ some i → i < length axes
unfolding axis_index
axis_index-lt a i [] e = cc
axis_index-lt a zero (x ∷ axes) e = omega arith
axis_index-lt a (suc i) (x ∷ axes) e =
    let ih : axis_index a axes ≡ some i = ground arith in omega (arith, axis_index-lt a i axes ih)

-- Every rank stands in the list whose number is the row-major position of its other coordinates, at
-- the place of its coordinate on the axis. (For a topology that was made with a dimension for each
-- axis, and a call that raises nothing.)
pub comm_lists_member :
    (reg : List (List ℕ)) (axes dims : List ℕ) (t : ProcessTopology) (axis i r : ℕ) (c : List ℕ)
    (ls : List (List ℕ))
    → make reg axes dims ≡ some t
    → length dims ≡ length axes
    → axis_index axis t.axes ≡ some i
    → get_axis_comm_lists t axis ≡ some ls
    → get_coord t r ≡ some c
    → (a : ℕ) × (l : List ℕ) × (position (remove_at i dims) (remove_at i c) ≡ some a)
      × (get_elem? ls a ≡ some l)
      × (get_elem? l (get_or c i 0) ≡ some r)
unfolding get_axis_comm_lists
comm_lists_member reg axes dims t axis i r c ls made fits idx e h =
    let pos : position dims c ≡ some r =
      sym (get_rank_lem reg axes dims t made fits c)
      ∙ (rank_iff_coord reg axes dims t made fits c r).1 h in
    let shape = made_dims reg axes dims t made fits in
    let i_lt : i < length dims =
      omega
        (arith, axis_index-lt axis i t.axes idx, ap length (made_axes reg axes dims t made fits)) in
    let (a, q, lt, arity) = position_remove i dims c r i_lt pos in
    let all_lists : comm_lists t.mapping i (get_or t.dims i 0) (cartesian (remove_at i t.dims))
        ≡ some ls =
      ground arith in
    let (l, found, own) =
      comm_lists_elem t.mapping i (get_or dims i 0) a (cartesian (remove_at i dims)) (remove_at i c)
        ls (rw shape at all_lists) (elem_of_position (remove_at i dims) (remove_at i c) a q) in
    let z : 0 + get_or c i 0 ≡ get_or c i 0 = omega arith in
    (
      a,
      l,
      q,
      found,
      comm_list_elem t.mapping i (get_or dims i 0) 0 (get_or c i 0) (remove_at i c) l own lt
          ∙ rw (z, insert-remove i c arity) (lookup-position reg axes dims t made fits c ∙ pos),
    )
