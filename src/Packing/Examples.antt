-- ===== src/Packing/Examples.antt =====
-- Five lengths in two parts of at least two.
use rea_lhf.Base.{List, [], arith, inr, length, refl, sum_by, ℕ, ◌<◌, ◌∷◌, ◌≡◌}
use rea_lhf.Base.Int.{◌-ℤ◌}
use rea_lhf.Packing.Partition.{far, min_abs_diff_partition}
use rea_lhf.Packing.Partition.Balanced.{Blocks, min_abs_diff_partition_lem}

abbrev lengths : List ℕ
lengths = 3 ∷ 1 ∷ 4 ∷ 1 ∷ 5 ∷ []

abbrev Partitioned : List ℕ → ℕ → ℕ → Type 0
Partitioned arr k m =
    (ps : List (ℕ × ℕ)) × (min_abs_diff_partition arr k m ≡ inr ps)
    × (length ps ≡ k)
    × Blocks m 0 (length arr) ps

below_far : sum_by (λ x. x) lengths < far
unfolding far
below_far = omega arith

min_abs_diff_partition_lem_example : Partitioned lengths 2 2
min_abs_diff_partition_lem_example =
    min_abs_diff_partition_lem lengths 2 2 (omega arith) (omega arith) (omega arith) below_far

splits_at_three : min_abs_diff_partition lengths 2 2 ≡ inr ((0, 3) ∷ (3, 5) ∷ [])
unfolding min_abs_diff_partition ◌-ℤ◌ far
splits_at_three = refl
