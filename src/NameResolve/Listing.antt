-- ===== src/NameResolve/Listing.antt =====
-- `find_subtree`.
use rea_lhf.Base.{
  Bool, Bool-cases, List, [], any, ap, arith, eq_of_list_eq, false, if◌then◌else◌, inl, inr,
  list_eq, refl, starts_with, true, ◌&&◌, ◌||◌, ◌∙◌, ◌∷◌, ◌≡◌,
}
use rea_lhf.NameResolve.{
  Name, Repository, find_subtree, has_name, insert, name_le, names, sort, starting_with,
}

abbrev pub Sorted : List Name → Type 0
Sorted [] = Unit
Sorted (x ∷ []) = Unit
Sorted (x ∷ y ∷ ys) = (name_le x y ≡ true) × Sorted (y ∷ ys)

name_le_total : (xs ys : Name) → name_le xs ys ≡ false → name_le ys xs ≡ true
name_le_total [] ys e = cc
name_le_total (x ∷ xs) [] e = refl
name_le_total (x ∷ xs) (y ∷ ys) e = ground (arith, e, name_le_total xs ys)

Sorted-insert : (x : Name) (ys : List Name) → Sorted ys → Sorted (insert x ys)
Sorted-insert x [] h = tt
Sorted-insert x (y ∷ []) h = elim (Bool-cases (name_le x y)) [
  | inl e ↦ rw e (e, tt)
  | inr e ↦ rw e (name_le_total x y e, tt)
]
Sorted-insert x (y ∷ z ∷ ys) (h, k) = elim (Bool-cases (name_le x y)) [
  | inl e ↦ rw e (e, (h, k))
  | inr e ↦ rw e (elim (Bool-cases (name_le x z)) [
    | inl f ↦ rw f (name_le_total x y e, (f, k))
    | inr f ↦ let r : Sorted (z ∷ insert x ys) = rw f at (Sorted-insert x (z ∷ ys) k) in rw f (h, r)
  ])
]

Sorted-sort : (xs : List Name) → Sorted (sort xs)
Sorted-sort [] = tt
Sorted-sort (x ∷ xs) = Sorted-insert x (sort xs) (Sorted-sort xs)

abbrev pub listed : Name → List Name → Bool
listed n ns = any (λ m. list_eq m n) ns

listed-insert : (n x : Name) (ys : List Name) → listed n (insert x ys) ≡ list_eq x n || listed n ys
listed-insert n x [] = refl
listed-insert n x (y ∷ ys) = elim (Bool-cases (name_le x y)) [
  | inl e ↦ rw e
  | inr e ↦ rw e (ground (arith, listed-insert n x ys))
]

listed-sort : (n : Name) (xs : List Name) → listed n (sort xs) ≡ listed n xs
listed-sort n [] = refl
listed-sort n (x ∷ xs) = listed-insert n x (sort xs) ∙ rw (listed-sort n xs)

listed-starting_with :
    (root n : Name) (s : Repository)
    → listed n (starting_with root (names s)) ≡ has_name n s && starts_with root n
listed-starting_with root n [] = refl
listed-starting_with root n ((k, v) ∷ s) =
    pick (starts_with root k) (list_eq k n) (has_name n s) (starts_with root n)
      (starting_with root (names s)) refl (λ e. ap (starts_with root) (eq_of_list_eq k n e))
      (listed-starting_with root n s)
  where
    pick :
        (b l h r : Bool) (ns : List Name)
        → list_eq k n ≡ l
        → (l ≡ true → b ≡ r)
        → listed n ns ≡ h && r
        → listed n (if b then k ∷ ns else ns) ≡ (l || h) && r
    pick true l h r ns e f g = rw (e, g) (ground (arith, f))
    pick false l h r ns e f g = ground (arith, f, g)

-- `find_subtree` lists, in sorted order, exactly the names in the store that start with the characters
-- of the root, whether or not a slash follows.
pub find_subtree_lem :
    (root n : Name) (s : Repository)
    → Sorted (find_subtree root s)
      × (listed n (find_subtree root s) ≡ has_name n s && starts_with root n)
unfolding find_subtree
find_subtree_lem root n s = (
  Sorted-sort (starting_with root (names s)),
  listed-sort n (starting_with root (names s)) ∙ listed-starting_with root n s,
)
