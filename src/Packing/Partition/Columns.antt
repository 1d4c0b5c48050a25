-- ===== src/Packing/Partition/Columns.antt =====
-- The columns of the tables: which cells a partition has reached, and how their splits lie.
use rea_lhf.Base.{
  List, arith, dec_lt, get_or, inl, inr, le_refl, suc, sym, zero, ℕ, ◌+◌, ◌-◌, ◌<◌, ◌≡◌, ◌≤◌, ◌⊎◌,
}
use rea_lhf.Base.Int.{pos, sub_ℕ}
use rea_lhf.Packing.Partition.{Cell, cell, far, relax, scan}
use rea_lhf.Packing.Partition.Cells.{
  Reached, Unreached, Values, relax-Reached, relax-Unreached, relax-first, relax-kept,
}

abbrev pub Mixed : ℕ → ℕ → Cell → Type 0
Mixed lo hi c = Unreached c ⊎ Reached lo hi c

-- What the innermost loop reads of column `j - 1`, whose partitions need `lo` elements.
pub record Column (lo min_size n : ℕ) (prev : List Cell) : Type 0 where
  pub below : (x : ℕ) → min_size ≤ x → x < lo → x ≤ n → Unreached (cell prev x)
  pub above : (x : ℕ) → lo ≤ x → x ≤ n → Values (cell prev x)

-- The sums of prefixes are below 1e10 and rise.
pub record Sums (n : ℕ) (sums : List ℕ) : Type 0 where
  pub bound : (i : ℕ) → i ≤ n → get_or sums i 0 < far
  pub rise : (x i : ℕ) → x ≤ i → i ≤ n → get_or sums x 0 ≤ get_or sums i 0

module _ (sums : List ℕ) (n lo min_size : ℕ) (prev : List Cell) (ok : Sums n sums)
    (col : Column lo min_size n prev) where
  difference :
      (x i : ℕ)
      → x ≤ i
      → i ≤ n
      → (v : ℕ) × (sub_ℕ (get_or sums i 0) (get_or sums x 0) ≡ pos v) × (v < far)
  difference x i h k = (
    get_or sums i 0 - get_or sums x 0,
    ground (arith, ok.rise x i h k),
    omega (arith, ok.bound i k),
  )

  Mixed-relax :
      (x i hi : ℕ) (c : Cell)
      → min_size ≤ x
      → x ≤ hi
      → hi ≤ i
      → i ≤ n
      → Mixed lo hi c
      → Mixed lo hi (relax (sub_ℕ (get_or sums i 0) (get_or sums x 0)) (cell prev x) x c)
  Mixed-relax x i hi c g h k l m =
      let (v, e, b) = difference x i (omega arith) l in
      rw e (elim (dec_lt x lo) [
        | yes lt ↦
            let u = col.below x g lt (omega arith) in
            elim m [
              | inl uc ↦ inl (relax-Unreached v x (cell prev x) c b u uc)
              | inr r ↦ inr (relax-kept v x lo hi (cell prev x) c b u r)
            ]
        | no ge ↦ inr (Reached-relax v x hi c b (omega arith) h (omega arith) m)
      ])
    where
      Reached-relax :
          (v x hi : ℕ) (c : Cell)
          → v < far
          → lo ≤ x
          → x ≤ hi
          → x ≤ n
          → Mixed lo hi c
          → Reached lo hi (relax (pos v) (cell prev x) x c)
      Reached-relax v x hi c b h k l (inl uc) =
          relax-first v x lo hi (cell prev x) c b h k (col.above x h l) uc
      Reached-relax v x hi c b h k l (inr r) =
          relax-Reached v x lo hi (cell prev x) c b h k (col.above x h l) r

  Reached-last :
      (hi i : ℕ) (c : Cell)
      → lo ≤ hi
      → hi ≤ i
      → i ≤ n
      → Mixed lo hi c
      → Reached lo hi (relax (sub_ℕ (get_or sums i 0) (get_or sums hi 0)) (cell prev hi) hi c)
  Reached-last hi i c h k l m =
      let (v, e, b) = difference hi i (omega arith) l in
      let p = col.above hi h (omega arith) in
      rw e (elim m [
        | inl uc ↦ relax-first v hi lo hi (cell prev hi) c b h (le_refl hi) p uc
        | inr r ↦ relax-Reached v hi lo hi (cell prev hi) c b h (le_refl hi) p r
      ])

  pub scan-Reached :
      (r x i hi : ℕ) (c : Cell)
      → x + r ≡ hi
      → min_size ≤ x
      → lo ≤ hi
      → hi ≤ i
      → i ≤ n
      → Mixed lo hi c
      → Reached lo hi (scan sums prev i (suc r) x c)
  unfolding scan
  scan-Reached zero x i hi c e g h k l m =
      let q : hi ≡ x = omega arith in
      rw q (Reached-last x i c (omega arith) (omega arith) l (rw (sym q) m))
  scan-Reached (suc r) x i hi c e g h k l m =
      scan-Reached r (suc x) i hi _ (omega arith) (omega arith) h k l
        (Mixed-relax x i hi c g (omega arith) k l m)
