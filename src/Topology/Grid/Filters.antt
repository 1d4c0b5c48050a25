-- ===== src/Topology/Grid/Filters.antt =====
-- The ranks that a filter or an axis value selects are those whose coordinates match.
use mathlib.Core.Option.{some-injective}
use rea_lhf.Base.{
  >>=-eq-some, Bool, List, [], ap, arith, false, get_or, if◌then◌else◌, mem, refl, some, suc, sym,
  true, ℕ, ℕ_discrete, ◌&&◌, ◌<◌, ◌==◌, ◌||◌, ◌∙◌, ◌∷◌, ◌≡◌,
}
use rea_lhf.Topology.Grid.{
  ProcessTopology, axis_index, cartesian, enumerate, filter_match, filter_ranks, find_rank,
  get_axis_list, get_coord, make, matches, ranks_at,
}

mem-hit :
    (hit : Bool) (r k : ℕ) (rs : List ℕ)
    → mem r (if hit then k ∷ rs else rs) ≡ (hit && r == k || mem r rs)
mem-hit true r k rs = refl
mem-hit false r k rs = refl

ranks_below :
    (axes : List ℕ) (f : List (ℕ × ℕ)) (k r : ℕ) (xs : List (List ℕ)) (rs : List ℕ)
    → r < k
    → filter_ranks axes f (enumerate k xs) ≡ some rs
    → mem r rs ≡ false
unfolding filter_ranks
ranks_below axes f k r [] rs h e = rw (sym (some-injective _ _ e)) refl
ranks_below axes f k r (c ∷ xs) rs h e =
    let (hit, _, e₁) = >>=-eq-some (matches axes f c) _ e in
    let (rest, below, e₂) = >>=-eq-some (filter_ranks axes f (enumerate (suc k) xs)) _ e₁ in
    let tail = ranks_below axes f (suc k) r xs rest (omega arith) below in
    let same = some-injective _ _ e₂ in rw (sym same) (mem-hit hit r k rest ∙ ground (arith, tail))

filter_found :
    (axes : List ℕ) (f : List (ℕ × ℕ)) (k r : ℕ) (xs : List (List ℕ)) (rs c : List ℕ)
    → filter_ranks axes f (enumerate k xs) ≡ some rs
    → find_rank r (enumerate k xs) ≡ some c
    → matches axes f c ≡ some (mem r rs)
unfolding filter_ranks find_rank
filter_found axes f k r [] rs c e h = cc
filter_found axes f k r (x ∷ xs) rs c e h =
    let (hit, now, e₁) = >>=-eq-some (matches axes f x) _ e in
    let (rest, below, e₂) = >>=-eq-some (filter_ranks axes f (enumerate (suc k) xs)) _ e₁ in
    let same = some-injective _ _ e₂ in
    let here = mem-hit hit r k rest in
    elim (ℕ_discrete k r) [
      | yes q ↦
          let tail = ranks_below axes f (suc k) r xs rest (omega arith) below in
          let found : x ≡ c = ground arith in
          rw (sym same, sym found) (now ∙ ap some (sym (here ∙ ground (arith, tail))))
      | no q ↦
          let found : find_rank r (enumerate (suc k) xs) ≡ some c = ground arith in
          let ih = filter_found axes f (suc k) r xs rest c below found in
          rw (sym same) (ih ∙ ap some (sym (here ∙ ground arith)))
    ]

-- In a topology that the constructor made, a call of `filter_match` that raises nothing returns the rank of a coordinate if and only if the coordinate satisfies each
-- condition of the filter.
pub filter_match_iff :
    (reg : List (List ℕ)) (axes dims : List ℕ) (t : ProcessTopology) (f : List (ℕ × ℕ))
    (rs : List ℕ) (r : ℕ) (c : List ℕ)
    → make reg axes dims ≡ some t
    → filter_match t f ≡ some rs
    → get_coord t r ≡ some c
    → matches t.axes f c ≡ some (mem r rs)
unfolding make filter_match get_coord
filter_match_iff reg axes dims t f rs r c made e h =
    let m : t.mapping ≡ enumerate 0 (cartesian dims) = ground arith in
    filter_found t.axes f 0 r (cartesian dims) rs c (rw m at e) (rw m at h)

axis_below :
    (i v k r : ℕ) (xs : List (List ℕ)) → r < k → mem r (ranks_at i v (enumerate k xs)) ≡ false
unfolding ranks_at
axis_below i v k r [] h = refl
axis_below i v k r (x ∷ xs) h = ground (arith, axis_below i v (suc k) r xs (omega arith))

axis_found :
    (i v k r : ℕ) (xs : List (List ℕ)) (c : List ℕ)
    → find_rank r (enumerate k xs) ≡ some c
    → mem r (ranks_at i v (enumerate k xs)) ≡ (get_or c i 0 == v)
unfolding ranks_at find_rank
axis_found i v k r [] c h = cc
axis_found i v k r (x ∷ xs) c h =
    ground (arith, axis_below i v (suc k) r xs, axis_found i v (suc k) r xs c)

-- In a topology that the constructor made, `get_axis_list` for an axis of it returns a rank if and only if its coordinate has the given value on the axis.
pub get_axis_list_iff :
    (reg : List (List ℕ)) (axes dims : List ℕ) (t : ProcessTopology) (axis i v r : ℕ)
    (rs c : List ℕ)
    → make reg axes dims ≡ some t
    → axis_index axis t.axes ≡ some i
    → get_axis_list t axis v ≡ some rs
    → get_coord t r ≡ some c
    → mem r rs ≡ (get_or c i 0 == v)
unfolding make get_axis_list get_coord
get_axis_list_iff reg axes dims t axis i v r rs c made a e h =
    let m : t.mapping ≡ enumerate 0 (cartesian dims) = ground arith in
    let same : rs ≡ ranks_at i v t.mapping = ground arith in
    rw (same, m) (axis_found i v 0 r (cartesian dims) c (rw m at h))
