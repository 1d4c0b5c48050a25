-- ===== src/Transfer/Sets.antt =====
-- The samples that two ranks share, each once; and the ranks that have a sample.
use rea_lhf.Base.{
  List, [], ap, arith, false, if◌then◌else◌, mem, refl, sum_by, true, ℕ, ℕ_discrete, ◌&&◌, ◌++◌,
  ◌+◌, ◌<◌, ◌==◌, ◌||◌, ◌∙◌, ◌∷◌, ◌≡◌, ◌≤◌,
}
use rea_lhf.Transfer.{
  Mapping, insert_item, insert_sorted, intersection, members_of, sort_items, sorted_set, subset,
  values_of,
}

-- How often `x` stands in a list.
abbrev pub copies : ℕ → List ℕ → ℕ
copies x xs = sum_by (λ y. if x == y then 1 else 0) xs

-- A strictly rising list of numbers over `b`.
abbrev Over : ℕ → List ℕ → Type 0
Over b [] = Unit
Over b (y ∷ ys) = (b < y) × Over y ys

abbrev Rising : List ℕ → Type 0
Rising [] = Unit
Rising (y ∷ ys) = Over y ys

copies_below : (x b : ℕ) (ys : List ℕ) → x ≤ b → Over b ys → copies x ys ≡ 0
copies_below x b [] h o = refl
copies_below x b (y ∷ ys) h o = ground (arith, copies_below x y ys)

Over-insert_sorted : (b x : ℕ) (ys : List ℕ) → b < x → Over b ys → Over b (insert_sorted x ys)
Over-insert_sorted b x [] h o = (h, tt)
Over-insert_sorted b x (y ∷ ys) h o = ground (arith, Over-insert_sorted y x ys)

Rising-insert_sorted : (x : ℕ) (ys : List ℕ) → Rising ys → Rising (insert_sorted x ys)
Rising-insert_sorted x [] o = tt
Rising-insert_sorted x (y ∷ ys) o = ground (arith, Over-insert_sorted y x ys)

copies-insert_sorted-Over :
    (p x b : ℕ) (ys : List ℕ)
    → Over b ys
    → copies p (insert_sorted x ys) ≡ (if p == x then 1 else copies p ys)
copies-insert_sorted-Over p x b [] o = ground arith
copies-insert_sorted-Over p x b (y ∷ ys) o =
    ground (arith, copies-insert_sorted-Over p x y ys, copies_below x y ys, copies_below y y ys)

copies-insert_sorted :
    (p x : ℕ) (ys : List ℕ)
    → Rising ys
    → copies p (insert_sorted x ys) ≡ (if p == x then 1 else copies p ys)
copies-insert_sorted p x [] o = ground arith
copies-insert_sorted p x (y ∷ ys) o =
    ground (arith, copies-insert_sorted-Over p x y ys, copies_below x y ys, copies_below y y ys)

Rising-sorted_set : (xs : List ℕ) → Rising (sorted_set xs)
Rising-sorted_set [] = tt
Rising-sorted_set (x ∷ xs) = Rising-insert_sorted x (sorted_set xs) (Rising-sorted_set xs)

copies-sorted_set : (p : ℕ) (xs : List ℕ) → copies p (sorted_set xs) ≡ (if mem p xs then 1 else 0)
copies-sorted_set p [] = refl
copies-sorted_set p (x ∷ xs) =
    ground (
      arith,
      copies-insert_sorted p x (sorted_set xs) (Rising-sorted_set xs),
      copies-sorted_set p xs,
    )

mem-members_of : (p : ℕ) (ys xs : List ℕ) → mem p (members_of ys xs) ≡ (mem p xs && mem p ys)
mem-members_of p ys [] = refl
mem-members_of p ys (x ∷ xs) = elim (ℕ_discrete p x) [
  | yes e ↦ rw e (ground (arith, ap (λ q. mem q (members_of ys xs)) e, mem-members_of x ys xs))
  | no n ↦ ground (arith, mem-members_of p ys xs)
]

pub copies-intersection :
    (p : ℕ) (xs ys : List ℕ)
    → copies p (intersection xs ys) ≡ (if mem p xs && mem p ys then 1 else 0)
copies-intersection p xs ys =
    copies-sorted_set p (members_of ys xs) ∙ ap (λ b. if b then 1 else 0) (mem-members_of p ys xs)

-- How many ranks have sample `p`.
abbrev pub owners : ℕ → Mapping → ℕ
owners p m = sum_by (λ a. if mem p a.1 then 1 else 0) m

-- Sorting the items changes no sum over them.
sum_by-insert_item :
    (f : ℕ × List ℕ → ℕ) (x : ℕ × List ℕ) (m : Mapping)
    → sum_by f (insert_item x m) ≡ f x + sum_by f m
sum_by-insert_item f x [] = omega arith
sum_by-insert_item f x (y ∷ m) = ground (arith, sum_by-insert_item f x m)

pub sum_by-sort_items : (f : ℕ × List ℕ → ℕ) (m : Mapping) → sum_by f (sort_items m) ≡ sum_by f m
sum_by-sort_items f [] = refl
sum_by-sort_items f (x ∷ m) =
    sum_by-insert_item f x (sort_items m) ∙ ap (λ n. f x + n) (sum_by-sort_items f m)

mem-append : (p : ℕ) (xs ys : List ℕ) → mem p (xs ++ ys) ≡ (mem p xs || mem p ys)
mem-append p [] ys = refl
mem-append p (x ∷ xs) ys = ground (arith, mem-append p xs ys)

pub owners_of_mem : (p : ℕ) (m : Mapping) → mem p (values_of m) ≡ true → 1 ≤ owners p m
owners_of_mem p [] e = cc
owners_of_mem p ((k, is) ∷ m) e = ground (arith, mem-append p is (values_of m), owners_of_mem p m)

pub mem_of_owners : (p : ℕ) (m : Mapping) → mem p (values_of m) ≡ false → owners p m ≡ 0
mem_of_owners p [] e = refl
mem_of_owners p ((k, is) ∷ m) e = ground (arith, mem-append p is (values_of m), mem_of_owners p m)

pub mem_of_subset :
    (p : ℕ) (xs ys : List ℕ) → subset xs ys ≡ true → mem p xs ≡ true → mem p ys ≡ true
mem_of_subset p [] ys s e = cc
mem_of_subset p (x ∷ xs) ys s e = elim (ℕ_discrete p x) [
  | yes q ↦ rw q (ground arith)
  | no q ↦ mem_of_subset p xs ys (ground arith) (ground arith)
]
