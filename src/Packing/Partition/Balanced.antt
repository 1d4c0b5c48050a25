-- ===== src/Packing/Partition/Balanced.antt =====
-- The partition that realhf/base/datapack.py returns.
use rea_lhf.Base.{
  List, [], ap, arith, false, get_or, inr, le_refl, length, ltb, none, refl, suc, sum_by, sym, zero,
  ℕ, ◌*◌, ◌+◌, ◌-◌, ◌<◌, ◌∙◌, ◌∷◌, ◌≡◌, ◌≤◌,
}
use rea_lhf.Packing.Partition.{
  cell, columns, cuts, far, first_column, first_error, min_abs_diff_partition, partition_balanced,
  prefix_sums, top, tuples,
}
use rea_lhf.Packing.Partition.Cells.{Reached}
use rea_lhf.Packing.Partition.Columns.{Sums}
use rea_lhf.Packing.Partition.Table.{cell_at-above, columns-Column, first-cell, next-cell}

-- Cut points, from `lo` to `hi`, at least `m` apart.
abbrev Ascends : ℕ → ℕ → ℕ → List ℕ → Type 0
Ascends m lo hi [] = ⊥
Ascends m lo hi (a ∷ []) = (a ≡ lo) × (a ≡ hi)
Ascends m lo hi (a ∷ b ∷ cs) = (a ≡ lo) × (a + m ≤ b) × Ascends m b hi (b ∷ cs)

module _ (sums : List ℕ) (n m : ℕ) (ok : Sums n sums) where
  next-cut :
      (r idx : ℕ)
      → suc (suc r) * m ≤ idx
      → idx ≤ n
      → Reached (suc r * m) (idx - m) (cell (top (columns sums n m (suc r))) idx)
  unfolding columns
  next-cut r idx h k = rw (next-cell sums n m ok (suc (suc r)) idx (top (columns sums n m r)) k) (
      cell_at-above sums n m ok (suc (suc r)) (suc r * m) idx (top (columns sums n m r))
        (omega arith) (omega arith) h k (columns-Column sums n m ok r))

  cuts-Ascends :
      (r idx : ℕ) (res : List ℕ)
      → suc r * m ≤ idx
      → idx ≤ n
      → Ascends m idx n (idx ∷ res)
      → Ascends m 0 n (cuts (columns sums n m r) idx (idx ∷ res))
        × (length (cuts (columns sums n m r) idx (idx ∷ res)) ≡ suc (suc r) + length res)
  unfolding columns cuts
  cuts-Ascends zero idx res h k a =
      let e : (cell (first_column sums n) idx).split ≡ 0 = rw (first-cell sums n m ok idx k) in
      rw e ((refl, omega arith, a), omega arith)
  cuts-Ascends (suc r) idx res h k a =
      let c = next-cut r idx h k in
      let p = (cell (top (columns sums n m (suc r))) idx).split in
      let lo : suc r * m ≤ p = c.lo_le in
      let hi : p ≤ idx - m = c.le_hi in
      let (x, y) = cuts-Ascends r p (idx ∷ res) lo (omega arith) (refl, omega arith, a) in
      (x, omega (arith, y))

get_or-prefix_sums :
    (s : ℕ) (xs : List ℕ) (i : ℕ)
    → i ≤ length xs
    → (s ≤ get_or (prefix_sums s xs) i 0) × (get_or (prefix_sums s xs) i 0 ≤ s + sum_by (λ x. x) xs)
get_or-prefix_sums s [] zero h = (le_refl s, omega arith)
get_or-prefix_sums s [] (suc i) h = elim h [ ]
get_or-prefix_sums s (x ∷ xs) zero h = (le_refl s, omega arith)
get_or-prefix_sums s (x ∷ xs) (suc i) h =
    let (a, b) = get_or-prefix_sums (s + x) xs i (omega arith) in (omega arith, omega arith)

prefix_sums_mono :
    (s : ℕ) (xs : List ℕ) (x i : ℕ)
    → x ≤ i
    → i ≤ length xs
    → get_or (prefix_sums s xs) x 0 ≤ get_or (prefix_sums s xs) i 0
prefix_sums_mono s [] zero zero h k = le_refl s
prefix_sums_mono s [] zero (suc i) h k = elim k [ ]
prefix_sums_mono s [] (suc x) zero h k = elim h [ ]
prefix_sums_mono s [] (suc x) (suc i) h k = elim k [ ]
prefix_sums_mono s (y ∷ xs) zero i h k = (get_or-prefix_sums s (y ∷ xs) i k).0
prefix_sums_mono s (y ∷ xs) (suc x) zero h k = elim h [ ]
prefix_sums_mono s (y ∷ xs) (suc x) (suc i) h k =
    prefix_sums_mono (s + y) xs x i (omega arith) (omega arith)

prefix_sums-Sums : (xs : List ℕ) → sum_by (λ x. x) xs < far → Sums (length xs) (prefix_sums 0 xs)
prefix_sums-Sums xs h = record {
  bound = λ i k. omega (arith, (get_or-prefix_sums 0 xs i k).1);
  rise = λ x i p k. prefix_sums_mono 0 xs x i p k;
}

-- Consecutive parts from `lo` to `hi`, each of at least `m` elements.
abbrev pub Blocks : ℕ → ℕ → ℕ → List (ℕ × ℕ) → Type 0
Blocks m lo hi [] = lo ≡ hi
Blocks m lo hi ((start, end) ∷ ps) = (start ≡ lo) × (start + m ≤ end) × Blocks m end hi ps

tuples-Blocks :
    (m lo hi a : ℕ) (cs : List ℕ)
    → Ascends m lo hi (a ∷ cs)
    → Blocks m lo hi (tuples (a ∷ cs)) × (length (tuples (a ∷ cs)) ≡ length cs)
tuples-Blocks m lo hi a [] h = (sym h.0 ∙ h.1, refl)
tuples-Blocks m lo hi a (b ∷ cs) h =
    let (x, y) = tuples-Blocks m b hi b cs h.2 in ((h.0, h.1, x), ap suc y)

no_error : (m lo hi : ℕ) (ps : List (ℕ × ℕ)) → 0 < m → Blocks m lo hi ps → first_error lo ps ≡ none
no_error m lo hi [] h b = refl
no_error m lo hi ((start, end) ∷ ps) h (p, q, b) = ground (arith, no_error m end hi ps h b)

verdict :
    (m hi k : ℕ) (lst : List ℕ)
    → 0 < m
    → Ascends m 0 hi lst
    → length lst ≡ suc k
    → (first_error 0 (tuples lst) ≡ none) × (length (tuples lst) ≡ k) × Blocks m 0 hi (tuples lst)
verdict m hi k [] g h e = elim h [ ]
verdict m hi k (a ∷ cs) g h e =
    let (b, l) = tuples-Blocks m 0 hi a cs h in
    (no_error m 0 hi (tuples (a ∷ cs)) g b, omega (arith, e, l), b)

le_mul : (a m : ℕ) → 0 < m → a ≤ a * m
le_mul zero m h = omega arith
le_mul (suc a) m h = omega (arith, le_mul a m h)

-- With at least one part, at least one element in each, and lengths that sum to less than 1e10, an
-- array that is long enough is partitioned: no error is raised, there are `k` parts, each starts where
-- the one before it ends, the first at 0, the last ends at the end of the array, and each has at least
-- `min_size` elements.
pub min_abs_diff_partition_lem :
    (arr : List ℕ) (k min_size : ℕ)
    → 0 < k
    → 0 < min_size
    → k * min_size ≤ length arr
    → sum_by (λ x. x) arr < far
    → (ps : List (ℕ × ℕ)) × (min_abs_diff_partition arr k min_size ≡ inr ps)
      × (length ps ≡ k)
      × Blocks min_size 0 (length arr) ps
unfolding min_abs_diff_partition partition_balanced
min_abs_diff_partition_lem arr zero m h g l s = elim h [ ]
min_abs_diff_partition_lem arr (suc r) m h g l s =
    let n = length arr in
    let (a, b) =
      cuts-Ascends (prefix_sums 0 arr) n m (prefix_sums-Sums arr s) r n [] l (le_refl n)
        (refl, refl) in
    let (none_raised, k_parts, blocks) = verdict m n (suc r) _ g a (omega (arith, b)) in
    let long : ltb n (suc r) ≡ false = ground (arith, le_mul (suc r) m g, l) in
    let enough : ltb n (suc r * m) ≡ false = ground (arith, l) in
    (_, rw (long, enough, none_raised), k_parts, blocks)
