-- ===== src/System/Dispatch/Sources.antt =====
-- Where the inputs of a call are: `producer_mappings` says it of each sample once.
use mathlib.Core.Option.{some-injective}
use rea_lhf.Base.{
  >>=-eq-some, Bool, List, [], all, ap, arith, false, get_elem?, inl, length, mem, refl, some, suc,
  sym, true, zero, ℕ, ℕ_discrete, ◌&&◌, ◌++◌, ◌+◌, ◌<◌, ◌==◌, ◌||◌, ◌∙◌, ◌∷◌, ◌≡◌, ◌≢◌, ◌≤◌, ◌⊎◌,
}
use rea_lhf.System.Dispatch.{
  DataOwner, add_index, index_owners, insert, owners_of_key, sort_values, sorted,
}
use rea_lhf.Transfer.{Mapping}
use rea_lhf.Transfer.Sets.{owners}

mem-insert : (p x : ℕ) (ys : List ℕ) → mem p (insert x ys) ≡ (p == x || mem p ys)
mem-insert p x [] = refl
mem-insert p x (y ∷ ys) = ground (arith, mem-insert p x ys)

mem-sorted : (p : ℕ) (xs : List ℕ) → mem p (sorted xs) ≡ mem p xs
mem-sorted p [] = refl
mem-sorted p (x ∷ xs) = mem-insert p x (sorted xs) ∙ ap (λ b. p == x || b) (mem-sorted p xs)

mem-append : (p : ℕ) (xs ys : List ℕ) → mem p (xs ++ ys) ≡ (mem p xs || mem p ys)
mem-append p [] ys = refl
mem-append p (x ∷ xs) ys = ground (arith, mem-append p xs ys)

-- Whether rank `d` has sample `p`.
abbrev pub has_at : ℕ → ℕ → Mapping → Bool
has_at d p [] = false
has_at d p ((e, is) ∷ m) = d == e && mem p is || has_at d p m

pub owners-sort_values : (p : ℕ) (m : Mapping) → owners p (sort_values m) ≡ owners p m
owners-sort_values p [] = refl
owners-sort_values p ((d, is) ∷ m) = ground (arith, mem-sorted p is, owners-sort_values p m)

pub has_at-sort_values : (d p : ℕ) (m : Mapping) → has_at d p (sort_values m) ≡ has_at d p m
has_at-sort_values d p [] = refl
has_at-sort_values d p ((e, is) ∷ m) = ground (arith, mem-sorted p is, has_at-sort_values d p m)

owners-add_index_other : (p d i : ℕ) (m : Mapping) → p ≢ i → owners p (add_index d i m) ≡ owners p m
owners-add_index_other p d i [] n = ground arith
owners-add_index_other p d i ((e, is) ∷ m) n =
    ground (arith, mem-append p is (i ∷ []), owners-add_index_other p d i m n)

owners-add_index_self : (d i : ℕ) (m : Mapping) → owners i m ≡ 0 → owners i (add_index d i m) ≡ 1
owners-add_index_self d i [] h = ground arith
owners-add_index_self d i ((e, is) ∷ m) h =
    ground (arith, mem-append i is (i ∷ []), owners-add_index_self d i m)

has_at-add_index :
    (d p e i : ℕ) (m : Mapping) → has_at d p (add_index e i m) ≡ (has_at d p m || d == e && p == i)
has_at-add_index d p e i [] = ground arith
has_at-add_index d p e i ((f, is) ∷ m) =
    ground (arith, mem-append p is (i ∷ []), has_at-add_index d p e i m)

pub owners-index_owners_other :
    (p i : ℕ) (vs : List (ℕ × ℕ)) (m : Mapping)
    → (p < i) ⊎ (i + length vs ≤ p)
    → owners p (index_owners i vs m) ≡ owners p m
unfolding index_owners
owners-index_owners_other p i [] m h = refl
owners-index_owners_other p i (v ∷ vs) m h =
    owners-index_owners_other p (suc i) vs (add_index v.1 i m) (ground arith)
    ∙ owners-add_index_other p v.1 i m (ground arith)

pub owners-index_owners_self :
    (p i : ℕ) (vs : List (ℕ × ℕ)) (m : Mapping)
    → i ≤ p
    → p < i + length vs
    → owners p m ≡ 0
    → owners p (index_owners i vs m) ≡ 1
unfolding index_owners
owners-index_owners_self p i [] m h g e = absurd (omega arith)
owners-index_owners_self p i (v ∷ vs) m h g e = elim (ℕ_discrete p i) [
  | yes q ↦
      owners-index_owners_other p (suc i) vs (add_index v.1 i m) (inl (omega (arith, q)))
      ∙ rw q (owners-add_index_self v.1 i m (rw q at e))
  | no n ↦
      owners-index_owners_self p (suc i) vs (add_index v.1 i m) (omega (arith, n)) (omega arith)
        (owners-add_index_other p v.1 i m n ∙ e)
]

has_at-index_owners_other :
    (d p i : ℕ) (vs : List (ℕ × ℕ)) (m : Mapping)
    → p < i
    → has_at d p (index_owners i vs m) ≡ has_at d p m
unfolding index_owners
has_at-index_owners_other d p i [] m h = refl
has_at-index_owners_other d p i (v ∷ vs) m h =
    has_at-index_owners_other d p (suc i) vs (add_index v.1 i m) (omega arith)
    ∙ ground (arith, has_at-add_index d p v.1 i m)

pub has_at-index_owners :
    (d i q : ℕ) (vs : List (ℕ × ℕ)) (m : Mapping) (v : ℕ × ℕ)
    → get_elem? vs q ≡ some v
    → has_at d (i + q) m ≡ false
    → has_at d (i + q) (index_owners i vs m) ≡ (v.1 == d)
unfolding index_owners
has_at-index_owners d i q [] m v e h = cc
has_at-index_owners d i zero (u ∷ vs) m v e h =
    has_at-index_owners_other d (i + 0) (suc i) vs (add_index u.1 i m) (omega arith)
    ∙ has_at-add_index d (i + 0) u.1 i m
    ∙ rw h (here (some-injective _ _ e))
  where
    here : u ≡ v → (d == u.1 && i + 0 == i) ≡ (v.1 == d)
    here s = rw s (ground arith)
has_at-index_owners d i (suc q) (u ∷ vs) m v e h =
    let move : i + suc q ≡ suc i + q = omega arith in
    rw move (
      has_at-index_owners d (suc i) q vs (add_index u.1 i m) v e
        (has_at-add_index d (suc i + q) u.1 i m ∙ ground (arith, rw move at h)))

pub get_elem?-owners_of_key :
    (o : DataOwner) (k p x : ℕ) (ids : List ℕ) (vs : List (ℕ × ℕ))
    → owners_of_key o k ids ≡ some vs
    → get_elem? ids p ≡ some x
    → get_elem? vs p ≡ o x k
unfolding owners_of_key
get_elem?-owners_of_key o k p x [] vs e h = cc
get_elem?-owners_of_key o k zero x (i ∷ ids) vs e h =
    let (v, a, e1) = >>=-eq-some (o i k) _ e in
    let (ws, b, e2) = >>=-eq-some (owners_of_key o k ids) _ e1 in
    rw (← (some-injective _ _ e2)) (sym a ∙ ap (λ j. o j k) (some-injective _ _ h))
get_elem?-owners_of_key o k (suc p) x (i ∷ ids) vs e h =
    let (v, a, e1) = >>=-eq-some (o i k) _ e in
    let (ws, b, e2) = >>=-eq-some (owners_of_key o k ids) _ e1 in
    rw (← (some-injective _ _ e2)) (get_elem?-owners_of_key o k p x ids ws b h)

pub length-owners_of_key :
    (o : DataOwner) (k : ℕ) (ids : List ℕ) (vs : List (ℕ × ℕ))
    → owners_of_key o k ids ≡ some vs
    → length vs ≡ length ids
unfolding owners_of_key
length-owners_of_key o k [] vs e = ap length (sym (some-injective _ _ e))
length-owners_of_key o k (i ∷ ids) vs e =
    let (v, a, e1) = >>=-eq-some (o i k) _ e in
    let (ws, b, e2) = >>=-eq-some (owners_of_key o k ids) _ e1 in
    rw (← (some-injective _ _ e2)) (ap suc (length-owners_of_key o k ids ws b))

pub one_name_all :
    (vs : List (ℕ × ℕ)) (u : ℕ × ℕ) (p : ℕ) (v : ℕ × ℕ)
    → all (λ w. w.0 == u.0) vs ≡ true
    → get_elem? vs p ≡ some v
    → v.0 ≡ u.0
one_name_all [] u p v a e = cc
one_name_all (w ∷ vs) u zero v a e =
    ap (λ (z : ℕ × ℕ). z.0) (sym (some-injective _ _ e)) ∙ ground arith
one_name_all (w ∷ vs) u (suc p) v a e = one_name_all vs u p v (ground arith) e
