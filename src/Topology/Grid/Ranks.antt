-- ===== src/Topology/Grid/Ranks.antt =====
-- Ranks are the row-major positions of coordinates.
use mathlib.Core.Option
use mathlib.Core.Path.{ap₂}
use rea_lhf.Base.{
  List, Option, [], ap, arith, dec_lt, if◌then◌else◌, leb, length, length-append, length-map,
  list_eq, ltb, map, none, refl, some, suc, zero, ℕ, ℕ_discrete, ◌&&◌, ◌*◌, ◌++◌, ◌+◌, ◌-◌, ◌==◌,
  ◌∙◌, ◌∷◌, ◌≡◌,
}
use rea_lhf.Topology.Grid.{cartesian, enumerate, lookup, rows}

abbrev pub product : List ℕ → ℕ
product [] = 1
product (d ∷ ds) = d * product ds

-- The row-major position of a coordinate, if it lies in the grid.
abbrev pub position : List ℕ → List ℕ → Option ℕ
position [] [] = some 0
position [] (c ∷ cs) = none
position (d ∷ ds) [] = none
position (d ∷ ds) (c ∷ cs) =
    if ltb c d then Option.map (λ p. c * product ds + p) (position ds cs) else none

length-rows : (n i : ℕ) (cs : List (List ℕ)) → length (rows n i cs) ≡ n * length cs
unfolding rows
length-rows zero i cs = omega arith
length-rows (suc n) i cs = omega (
  arith,
  length-append (map (λ c. i ∷ c) cs) (rows n (suc i) cs),
  length-map cs (λ c. i ∷ c),
  length-rows n (suc i) cs,
)

pub length-cartesian : (dims : List ℕ) → length (cartesian dims) ≡ product dims
unfolding cartesian
length-cartesian [] = refl
length-cartesian (d ∷ ds) = length-rows d 0 (cartesian ds) ∙ ap (λ n. d * n) (length-cartesian ds)

-- Where a coordinate stands in a list.
unfoldable pub index_in : List ℕ → List (List ℕ) → Option ℕ
index_in c [] = none
index_in c (x ∷ xs) = if list_eq x c then some 0 else Option.map (λ n. suc n) (index_in c xs)

abbrev shift : ℕ → Option ℕ → Option ℕ
shift k o = Option.map (λ p. k + p) o

pub lookup-enumerate :
    (c : List ℕ) (k : ℕ) (xs : List (List ℕ)) → lookup c (enumerate k xs) ≡ shift k (index_in c xs)
unfolding lookup index_in
lookup-enumerate c k [] = refl
lookup-enumerate c k (x ∷ xs) = ground (arith, lookup-enumerate c (suc k) xs)

abbrev or_else : Option ℕ → Option ℕ → Option ℕ
or_else (some a) b = some a
or_else none b = b

index_in-append :
    (c : List ℕ) (xs ys : List (List ℕ))
    → index_in c (xs ++ ys) ≡ or_else (index_in c xs) (shift (length xs) (index_in c ys))
unfolding index_in
index_in-append c [] ys = ground arith
index_in-append c (x ∷ xs) ys = ground (arith, index_in-append c xs ys)

index_in-map :
    (i c0 : ℕ) (c : List ℕ) (xs : List (List ℕ))
    → index_in (c0 ∷ c) (map (λ x. i ∷ x) xs) ≡ (if i == c0 then index_in c xs else none)
unfolding index_in
index_in-map i c0 c [] = ground arith
index_in-map i c0 c (x ∷ xs) = ground (arith, index_in-map i c0 c xs)

mul_step : (a b l : ℕ) → a ≡ suc b → a * l ≡ l + b * l
mul_step a b l e = rw e (omega arith)

row_split :
    (n i c0 l : ℕ) (o : Option ℕ)
    → or_else (if i == c0 then o else none) (
        shift l (if leb (suc i) c0 && ltb c0 (suc i + n) then shift ((c0 - suc i) * l) o else none))
      ≡ (if leb i c0 && ltb c0 (i + suc n) then shift ((c0 - i) * l) o else none)
row_split n i c0 l none = ground arith
row_split n i c0 l (some p) = elim (dec_lt i c0) [
  | yes h ↦ ground (arith, mul_step (c0 - i) (c0 - suc i) l (omega arith))
  | no h ↦ elim (ℕ_discrete i c0) [
    | yes e ↦ let z : c0 - i ≡ 0 = omega arith in rw z (ground arith)
    | no e ↦ ground arith
  ]
]

index_in-rows :
    (n i c0 : ℕ) (c : List ℕ) (cs : List (List ℕ))
    → index_in (c0 ∷ c) (rows n i cs)
      ≡ (if leb i c0 && ltb c0 (i + n) then shift ((c0 - i) * length cs) (index_in c cs) else none)
unfolding rows
index_in-rows zero i c0 c cs = unfold index_in in ground arith
index_in-rows (suc n) i c0 c cs =
    rw
      (
        index_in-append (c0 ∷ c) (map (λ x. i ∷ x) cs) (rows n (suc i) cs),
        index_in-map i c0 c cs,
        length-map cs (λ x. i ∷ x),
        index_in-rows n (suc i) c0 c cs,
      )
      (row_split n i c0 (length cs) (index_in c cs))

index_in-map_nil : (i : ℕ) (cs : List (List ℕ)) → index_in [] (map (λ x. i ∷ x) cs) ≡ none
unfolding index_in
index_in-map_nil i [] = refl
index_in-map_nil i (x ∷ cs) = rw (index_in-map_nil i cs)

index_in-rows_nil : (n i : ℕ) (cs : List (List ℕ)) → index_in [] (rows n i cs) ≡ none
unfolding rows index_in
index_in-rows_nil zero i cs = refl
index_in-rows_nil (suc n) i cs =
    index_in-append [] (map (λ x. i ∷ x) cs) (rows n (suc i) cs)
    ∙ rw (index_in-map_nil i cs, index_in-rows_nil n (suc i) cs)

first_row :
    (d c0 l : ℕ) (o : Option ℕ)
    → (if leb 0 c0 && ltb c0 (0 + d) then shift ((c0 - 0) * l) o else none)
      ≡ (if ltb c0 d then shift (c0 * l) o else none)
first_row d c0 l o =
    let z : 0 + d ≡ d = omega arith in let y : c0 - 0 ≡ c0 = omega arith in rw (z, y) (ground arith)

-- `cartesian_product` lists the coordinates in row-major order.
pub index_in-cartesian : (dims c : List ℕ) → index_in c (cartesian dims) ≡ position dims c
unfolding cartesian index_in
index_in-cartesian [] [] = refl
index_in-cartesian [] (c0 ∷ c) = refl
index_in-cartesian (d ∷ ds) [] = index_in-rows_nil d 0 (cartesian ds)
index_in-cartesian (d ∷ ds) (c0 ∷ c) =
    index_in-rows d 0 c0 c (cartesian ds)
    ∙ first_row d c0 (length (cartesian ds)) (index_in c (cartesian ds))
    ∙ ap₂ (λ l o. if ltb c0 d then shift (c0 * l) o else none) (length-cartesian ds)
        (index_in-cartesian ds c)
