-- ===== src/Packing/Partition.antt =====
-- realhf/base/datapack.py, the partition of an array of lengths into consecutive parts. Lengths are
-- natural numbers; the tables hold integers, below the range of int64 when the lengths sum to less
-- than 1e10.
pub mod Cells
pub mod Columns
pub mod Table
pub mod Balanced
use rea_lhf.Base.{
  Bool, List, Option, [], false, get_or, if◌then◌else◌, inl, inr, leb, length, ltb, none, some, suc,
  tabulate, zero, ℕ, ◌*◌, ◌+◌, ◌-◌, ◌==◌, ◌∷◌, ◌⊎◌,
}
use rea_lhf.Base.Int.{ltb_ℤ, negsuc, pos, sub_ℕ, ℤ, ◌-ℤ◌}

pub record Cell : Type 0 where
  pub dp : ℤ
  pub maxval : ℤ
  pub minval : ℤ
  pub split : ℕ

-- `int(1e10)`
unfoldable pub far : ℕ
far = 10000000000

unfoldable pub blank : Cell
unfolding far
blank = record { dp = pos far; maxval = negsuc (far - 1); minval = pos far; split = 0 }

abbrev pub max_ℤ : ℤ → ℤ → ℤ
max_ℤ a b = if ltb_ℤ a b then b else a

abbrev pub min_ℤ : ℤ → ℤ → ℤ
min_ℤ a b = if ltb_ℤ b a then b else a

abbrev pub eq_ℤ : ℤ → ℤ → Bool
eq_ℤ (pos a) (pos b) = a == b
eq_ℤ (pos a) (negsuc b) = false
eq_ℤ (negsuc a) (pos b) = false
eq_ℤ (negsuc a) (negsuc b) = a == b

-- `concatenate((zeros(1), cumsum(nums)))`
abbrev pub prefix_sums : ℕ → List ℕ → List ℕ
prefix_sums s [] = s ∷ []
prefix_sums s (x ∷ xs) = s ∷ prefix_sums (s + x) xs

abbrev pub cell : List Cell → ℕ → Cell
cell column i = get_or column i blank

-- The body of the innermost loop: `p` is the cell `[x, j - 1]`, `c` the cell `[i, j]`.
unfoldable pub min_diff : ℤ → Cell → ℤ
min_diff xx p = max_ℤ (max_ℤ p.dp (p.maxval -ℤ xx)) (xx -ℤ p.minval)

unfoldable pub split_at : ℕ → ℤ → Cell → ℤ → Cell
split_at x xx p d =
    if eq_ℤ d (p.maxval -ℤ xx)
    then record { dp = d; maxval = p.maxval; minval = xx; split = x }
    else if eq_ℤ d (xx -ℤ p.minval)
    then record { dp = d; maxval = xx; minval = p.minval; split = x }
    else record { dp = d; maxval = p.maxval; minval = p.minval; split = x }

unfoldable pub relax : ℤ → Cell → ℕ → Cell → Cell
unfolding min_diff split_at
relax xx p x c =
    let d = min_ℤ c.dp (min_diff xx p) in
    if eq_ℤ d (min_diff xx p) then split_at x xx p d else record c { dp = d }

-- The innermost loop: rounds left and `x`.
unfoldable pub scan : List ℕ → List Cell → ℕ → ℕ → ℕ → Cell → Cell
unfolding relax
scan sums prev i zero x c = c
scan sums prev i (suc n) x c =
    scan sums prev i n (suc x) (relax (sub_ℕ (get_or sums i 0) (get_or sums x 0)) (cell prev x) x c)

unfoldable pub cell_at : List ℕ → List Cell → ℕ → ℕ → ℕ → Cell
unfolding scan blank
cell_at sums prev min_size j i =
    if ltb i (j * min_size)
    then blank
    else scan sums prev i (i - min_size + 1 - min_size) min_size blank

-- Column 1, and column `j` from column `j - 1`.
unfoldable pub first_column : List ℕ → ℕ → List Cell
first_column sums n = tabulate (n + 1) 0 λ i.
    let s = sub_ℕ (get_or sums i 0) (get_or sums 0 0) in
    record { dp = pos 0; maxval = s; minval = s; split = 0 }

unfoldable pub next_column : List ℕ → ℕ → ℕ → ℕ → List Cell → List Cell
unfolding cell_at
next_column sums n min_size j prev = tabulate (n + 1) 0 (cell_at sums prev min_size j)

abbrev pub top : List (List Cell) → List Cell
top [] = []
top (c ∷ cs) = c

-- The columns `r + 1`, …, 1.
unfoldable pub columns : List ℕ → ℕ → ℕ → ℕ → List (List Cell)
unfolding first_column next_column
columns sums n min_size zero = first_column sums n ∷ []
columns sums n min_size (suc r) =
    let rest = columns sums n min_size r in
    next_column sums n min_size (suc (suc r)) (top rest) ∷ rest

-- The last loop, with `res` in the order it is returned in.
unfoldable pub cuts : List (List Cell) → ℕ → List ℕ → List ℕ
unfolding blank
cuts [] idx res = res
cuts (column ∷ cols) idx res = let next = (cell column idx).split in cuts cols next (next ∷ res)

-- Without a partition the column 1 does not exist.
unfoldable pub partition_balanced : List ℕ → ℕ → ℕ → Option (List ℕ)
unfolding columns cuts
partition_balanced nums zero min_size = none
partition_balanced nums (suc r) min_size =
    let n = length nums in some (cuts (columns (prefix_sums 0 nums) n min_size r) n (n ∷ []))

-- `[(lst[i], lst[i + 1]) for i in range(k)]`, for a list of `k + 1` numbers.
abbrev pub tuples : List ℕ → List (ℕ × ℕ)
tuples [] = []
tuples (a ∷ []) = []
tuples (a ∷ b ∷ cs) = (a, b) ∷ tuples (b ∷ cs)

pub data PartitionError : Type 0 where
  fewer_than_k fewer_than_min_size not_contiguous empty no_partition : PartitionError

-- The loop that tests the result. An empty part is called empty even if it is not contiguous.
abbrev pub first_error : ℕ → List (ℕ × ℕ) → Option PartitionError
first_error last_end [] = none
first_error last_end ((start, end) ∷ ps) =
    if leb end start
    then some empty
    else if start == last_end
    then first_error end ps
    else some not_contiguous

unfoldable pub min_abs_diff_partition : List ℕ → ℕ → ℕ → PartitionError ⊎ List (ℕ × ℕ)
unfolding partition_balanced
min_abs_diff_partition arr k min_size =
    if ltb (length arr) k
    then inl fewer_than_k
    else if ltb (length arr) (k * min_size)
    then inl fewer_than_min_size
    else elim (partition_balanced arr k min_size) [
      | none ↦ inl no_partition
      | some lst ↦ elim (first_error 0 (tuples lst)) [ none ↦ inr (tuples lst) | some e ↦ inl e ]
    ]
