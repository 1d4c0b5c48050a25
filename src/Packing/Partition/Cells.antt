-- ===== src/Packing/Partition/Cells.antt =====
-- One update of a cell of the tables.
use rea_lhf.Base.{
  Bool, arith, dec_lt, false, if◌then◌else◌, le_refl, max, refl, true, ℕ, ◌-◌, ◌<◌, ◌≡◌, ◌≤◌,
}
use rea_lhf.Base.Int.{negsuc, pos, sub_ℕ, ℤ, ◌-ℤ◌}
use rea_lhf.Packing.Partition.{Cell, blank, eq_ℤ, far, max_ℤ, min_diff, min_ℤ, relax, split_at}

-- A cell that no partition has reached, but for its split.
pub record Unreached (c : Cell) : Type 0 where
  pub dp_far : c.dp ≡ pos far
  pub max_far : c.maxval ≡ negsuc (far - 1)
  pub min_far : c.minval ≡ pos far

pub record Values (c : Cell) : Type 0 where
  pub diff : ℕ
  pub high : ℕ
  pub low : ℕ
  pub diff_is : c.dp ≡ pos diff
  pub high_is : c.maxval ≡ pos high
  pub low_is : c.minval ≡ pos low
  pub diff_lt : diff < far
  pub high_lt : high < far
  pub low_lt : low < far

pub record Reached (lo hi : ℕ) (c : Cell) : Type 0 where
  pub values : Values c
  pub lo_le : lo ≤ c.split
  pub le_hi : c.split ≤ hi

pub far_pos : 0 < far
unfolding far
far_pos = omega arith

min_diff-Unreached : (v : ℕ) (p : Cell) → v < far → Unreached p → min_diff (pos v) p ≡ pos far
unfolding min_diff ◌-ℤ◌
min_diff-Unreached v p h u = rw (u.dp_far, u.max_far, u.min_far) (ground (arith, far_pos))

max-sub_ℕ : (d a b : ℕ) → max_ℤ (pos d) (sub_ℕ a b) ≡ pos (max d (a - b))
max-sub_ℕ d a b = ground arith

pos-pos : (a b : ℕ) → pos a -ℤ pos b ≡ sub_ℕ a b
unfolding ◌-ℤ◌
pos-pos a b = ground arith

min_diff-Values :
    (v : ℕ) (p : Cell) → v < far → Values p → (d : ℕ) × (min_diff (pos v) p ≡ pos d) × (d < far)
unfolding min_diff
min_diff-Values v p h u = (
  max (max u.diff (u.high - v)) (v - u.low),
  rw (
    u.diff_is,
    u.high_is,
    u.low_is,
    pos-pos u.high v,
    pos-pos v u.low,
    max-sub_ℕ u.diff u.high v,
    max-sub_ℕ (max u.diff (u.high - v)) v u.low,
  ),
  omega arith,
)

either {ℓ} : {A : Type ℓ} (P : A → Type 0) (b : Bool) {x y : A} → P x → P y → P (if b then x else y)
either P true p q = p
either P false p q = q

split_at-Values :
    (v x d : ℕ) (p : Cell) → v < far → d < far → Values p → Values (split_at x (pos v) p (pos d))
unfolding split_at
split_at-Values v x d p h l u =
    either Values (eq_ℤ (pos d) (p.maxval -ℤ pos v)) (values u.high v u.high_is refl u.high_lt h) (
      either Values (eq_ℤ (pos d) (pos v -ℤ p.minval)) (values v u.low refl u.low_is h u.low_lt)
        (values u.high u.low u.high_is u.low_is u.high_lt u.low_lt))
  where
    values :
        {a b : ℤ} (high low : ℕ)
        → a ≡ pos high
        → b ≡ pos low
        → high < far
        → low < far
        → Values (record { dp = pos d; maxval = a; minval = b; split = x })
    values high low e f hh hl = record {
      diff = d;
      high = high;
      low = low;
      diff_is = refl;
      high_is = e;
      low_is = f;
      diff_lt = l;
      high_lt = hh;
      low_lt = hl;
    }

split_at-split : (v x d : ℕ) (p : Cell) → (split_at x (pos v) p (pos d)).split ≡ x
unfolding split_at
split_at-split v x d p =
    either (λ (c : Cell). c.split ≡ x) (eq_ℤ (pos d) (p.maxval -ℤ pos v)) refl
      (either (λ (c : Cell). c.split ≡ x) (eq_ℤ (pos d) (pos v -ℤ p.minval)) refl refl)

high-differs : (v : ℕ) (p : Cell) → Unreached p → eq_ℤ (pos far) (p.maxval -ℤ pos v) ≡ false
unfolding ◌-ℤ◌
high-differs v p u = rw (u.max_far) (ground (arith, far_pos))

low-differs :
    (v : ℕ) (p : Cell) → v < far → Unreached p → eq_ℤ (pos far) (pos v -ℤ p.minval) ≡ false
unfolding ◌-ℤ◌
low-differs v p h u = rw (u.min_far) (ground (arith, far_pos))

split_at-Unreached :
    (v x : ℕ) (p : Cell) → v < far → Unreached p → Unreached (split_at x (pos v) p (pos far))
unfolding split_at
split_at-Unreached v x p h u =
    rw (high-differs v p u, low-differs v p h u)
      (record { dp_far = refl; max_far = u.max_far; min_far = u.min_far })

min-le : (a b : ℕ) → b ≤ a → min_ℤ (pos a) (pos b) ≡ pos b
min-le a b h = ground arith

eq_ℤ-refl : (d : ℕ) → eq_ℤ (pos d) (pos d) ≡ true
eq_ℤ-refl d = ground arith

pub relax-Unreached :
    (v x : ℕ) (p c : Cell) → v < far → Unreached p → Unreached c → Unreached (relax (pos v) p x c)
unfolding relax
relax-Unreached v x p c h up uc =
    rw (min_diff-Unreached v p h up, uc.dp_far, min-le far far (le_refl far), eq_ℤ-refl far)
      (split_at-Unreached v x p h up)

unchanged :
    (lo hi : ℕ) (c : Cell) (r : Reached lo hi c)
    → Reached lo hi (record c { dp = pos r.values.diff })
unchanged lo hi c r = record {
  values = record {
    diff = r.values.diff;
    high = r.values.high;
    low = r.values.low;
    diff_is = refl;
    high_is = r.values.high_is;
    low_is = r.values.low_is;
    diff_lt = r.values.diff_lt;
    high_lt = r.values.high_lt;
    low_lt = r.values.low_lt;
  };
  lo_le = r.lo_le;
  le_hi = r.le_hi;
}

split_at-Reached :
    (v x d lo hi : ℕ) (p : Cell)
    → v < far
    → lo ≤ x
    → x ≤ hi
    → Values p
    → d < far
    → Reached lo hi (split_at x (pos v) p (pos d))
split_at-Reached v x d lo hi p h l u vp b = record {
  values = split_at-Values v x d p h b vp;
  lo_le = rw (split_at-split v x d p) l;
  le_hi = rw (split_at-split v x d p) u;
}

min-lt : (a b : ℕ) → a < b → (min_ℤ (pos a) (pos b) ≡ pos a) × (eq_ℤ (pos a) (pos b) ≡ false)
min-lt a b h = ground arith

-- A cell that is reached is not changed by one that is not.
pub relax-kept :
    (v x lo hi : ℕ) (p c : Cell)
    → v < far
    → Unreached p
    → Reached lo hi c
    → Reached lo hi (relax (pos v) p x c)
unfolding relax
relax-kept v x lo hi p c h up r =
    let (small, differs) = min-lt r.values.diff far r.values.diff_lt in
    rw (min_diff-Unreached v p h up, r.values.diff_is, small, differs) (unchanged lo hi c r)

pub relax-first :
    (v x lo hi : ℕ) (p c : Cell)
    → v < far
    → lo ≤ x
    → x ≤ hi
    → Values p
    → Unreached c
    → Reached lo hi (relax (pos v) p x c)
unfolding relax
relax-first v x lo hi p c h l u vp uc =
    let (d, e, b) = min_diff-Values v p h vp in
    rw (e, uc.dp_far, min-le far d (omega (arith, b)), eq_ℤ-refl d)
      (split_at-Reached v x d lo hi p h l u vp b)

pub relax-Reached :
    (v x lo hi : ℕ) (p c : Cell)
    → v < far
    → lo ≤ x
    → x ≤ hi
    → Values p
    → Reached lo hi c
    → Reached lo hi (relax (pos v) p x c)
unfolding relax
relax-Reached v x lo hi p c h l u vp r =
    let (d, e, b) = min_diff-Values v p h vp in
    elim (dec_lt r.values.diff d) [
      | yes lt ↦
          let (small, differs) = min-lt r.values.diff d lt in
          rw (e, r.values.diff_is, small, differs) (unchanged lo hi c r)
      | no ge ↦
          rw (e, r.values.diff_is, min-le r.values.diff d (omega arith), eq_ℤ-refl d)
            (split_at-Reached v x d lo hi p h l u vp b)
    ]

pub blank-Unreached : Unreached blank
unfolding blank
blank-Unreached = record { dp_far = refl; max_far = refl; min_far = refl }
