-- ===== src/Packing/Partition/Table.antt =====
-- Every column of the tables holds what the next one reads.
use rea_lhf.Base.{
  List, arith, false, get_or, get_or-tabulate_zero, inl, le_refl, ltb, lt→ltb, refl, suc, zero, ℕ,
  ◌*◌, ◌+◌, ◌-◌, ◌<◌, ◌≡◌, ◌≤◌,
}
use rea_lhf.Base.Int.{pos, sub_ℕ}
use rea_lhf.Packing.Partition.{
  Cell, blank, cell, cell_at, columns, far, first_column, next_column, top,
}
use rea_lhf.Packing.Partition.Cells.{Reached, Unreached, Values, blank-Unreached}
use rea_lhf.Packing.Partition.Columns.{Column, Sums, scan-Reached}

module _ (sums : List ℕ) (n m : ℕ) (ok : Sums n sums) where
  pub first-cell :
      (i : ℕ)
      → i ≤ n
      → cell (first_column sums n) i ≡ record {
        dp = pos 0;
        maxval = sub_ℕ (get_or sums i 0) (get_or sums 0 0);
        minval = sub_ℕ (get_or sums i 0) (get_or sums 0 0);
        split = 0;
      }
  unfolding first_column
  first-cell i h = get_or-tabulate_zero (n + 1) i _ blank (omega arith)

  first-Column : Column m m n (first_column sums n)
  first-Column = record {
    below = λ x h k l. absurd (omega arith);
    above = λ x h k.
        rw (first-cell x k)
          (values (get_or sums x 0) (get_or sums 0 0) (ok.rise 0 x (omega arith) k) (ok.bound x k));
  }
    where
      values :
          (a b : ℕ)
          → b ≤ a
          → a < far
          → Values (record { dp = pos 0; maxval = sub_ℕ a b; minval = sub_ℕ a b; split = 0 })
      values a b h k = record {
        diff = 0;
        high = a - b;
        low = a - b;
        diff_is = refl;
        high_is = ground arith;
        low_is = ground arith;
        diff_lt = omega arith;
        high_lt = omega arith;
        low_lt = omega arith;
      }

  pub next-cell :
      (j i : ℕ) (prev : List Cell)
      → i ≤ n
      → cell (next_column sums n m j prev) i ≡ cell_at sums prev m j i
  unfolding next_column
  next-cell j i prev h = get_or-tabulate_zero (n + 1) i _ blank (omega arith)

  cell_at-below : (j i : ℕ) (prev : List Cell) → i < j * m → Unreached (cell_at sums prev m j i)
  unfolding cell_at
  cell_at-below j i prev h = rw (lt→ltb i (j * m) h) blank-Unreached

  pub cell_at-above :
      (j lo i : ℕ) (prev : List Cell)
      → lo + m ≡ j * m
      → m ≤ lo
      → j * m ≤ i
      → i ≤ n
      → Column lo m n prev
      → Reached lo (i - m) (cell_at sums prev m j i)
  unfolding cell_at
  cell_at-above j lo i prev e g h l col =
      let f : ltb i (j * m) ≡ false = ground arith in
      let rounds : i - m + 1 - m ≡ suc (i - m - m) = omega arith in
      rw (f, rounds)
        (scan-Reached sums n lo m prev ok col (i - m - m) m i (i - m) blank (omega arith)
          (le_refl m) (omega arith) (omega arith) l (inl blank-Unreached))

  next-Column :
      (j lo : ℕ) (prev : List Cell)
      → lo + m ≡ j * m
      → m ≤ lo
      → Column lo m n prev
      → Column (j * m) m n (next_column sums n m j prev)
  next-Column j lo prev e g col = record {
    below = λ x h k l. rw (next-cell j x prev l) (cell_at-below j x prev k);
    above = λ x h k. rw (next-cell j x prev k) ((cell_at-above j lo x prev e g h k col).values);
  }

  pub columns-Column : (r : ℕ) → Column (suc r * m) m n (top (columns sums n m r))
  unfolding columns
  columns-Column zero = let e : 1 * m ≡ m = omega arith in rw e first-Column
  columns-Column (suc r) =
      next-Column (suc (suc r)) (suc r * m) (top (columns sums n m r)) (omega arith) (omega arith)
        (columns-Column r)
