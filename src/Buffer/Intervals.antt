-- ===== src/Buffer/Intervals.antt =====
-- realhf/system/buffer.py, `_extract_intervals`: the runs of consecutive numbers of an array.
use mathlib.Core.List.{append-nil, append_assoc}
use mathlib.Core.Option.{some-injective}
use rea_lhf.Base.{
  ==_false, ==_iff, List, Option, [], ap, arith, false, le_refl, none, refl, some, suc, sym,
  tabulate, true, zero, ℕ, ℕ_discrete, ◌++◌, ◌+◌, ◌-◌, ◌==◌, ◌∙◌, ◌∷◌, ◌≡◌, ◌≢◌, ◌≤◌,
}

unfoldable pub range : ℕ → ℕ → List ℕ
range i n = tabulate n i (λ j. j)

-- The loop: the first and the last number of the current run, and the rest of the array.
pub intervals_from : ℕ → ℕ → List ℕ → List (ℕ × ℕ)
intervals_from start prev [] = (start, prev + 1) ∷ []
intervals_from start prev (x ∷ xs) = elim (x == prev + 1) [
  | true ↦ intervals_from start x xs
  | false ↦ (start, prev + 1) ∷ intervals_from x x xs
]

unfoldable pub extract_intervals : List ℕ → List (ℕ × ℕ)
unfolding intervals_from
extract_intervals [] = []
extract_intervals (x ∷ xs) = intervals_from x x xs

-- `np.arange(start, end)`
abbrev pub arange : ℕ × ℕ → List ℕ
arange (start, end) = range start (end - start)

abbrev pub expand : List (ℕ × ℕ) → List ℕ
expand [] = []
expand (i ∷ is) = arange i ++ expand is

range_snoc : (i n : ℕ) → range i (suc n) ≡ range i n ++ (i + n) ∷ []
unfolding range
range_snoc i zero = ap (λ j. j ∷ []) (omega arith)
range_snoc i (suc n) =
    rw (range_snoc (suc i) n) (ap (λ j. i ∷ (range (suc i) n ++ j ∷ [])) (omega arith))

module _ (start prev x : ℕ) (xs : List ℕ) where
  intervals_extend : x ≡ prev + 1 → intervals_from start prev (x ∷ xs) ≡ intervals_from start x xs
  unfolding intervals_from
  intervals_extend e = rw ((==_iff x (prev + 1)).1 e, intervals_from)

  intervals_break :
      x ≢ prev + 1 → intervals_from start prev (x ∷ xs) ≡ (start, prev + 1) ∷ intervals_from x x xs
  unfolding intervals_from
  intervals_break ne = rw (==_false x (prev + 1) ne, intervals_from)

range_one : (i : ℕ) → range i 1 ≡ i ∷ []
unfolding range
range_one i = refl

range-cong : (i n m : ℕ) (xs : List ℕ) → n ≡ m → range i n ++ xs ≡ range i m ++ xs
range-cong i n m xs e = ap (λ k. range i k ++ xs) e

expand-intervals_from :
    (start prev : ℕ) (xs : List ℕ)
    → start ≤ prev
    → expand (intervals_from start prev xs) ≡ range start (suc (prev - start)) ++ xs
expand-intervals_from start prev [] h =
    unfold intervals_from in
    range-cong start (prev + 1 - start) (suc (prev - start)) [] (omega arith)
expand-intervals_from start prev (x ∷ xs) h = elim (ℕ_discrete x (prev + 1)) [
  | yes e ↦
      ap expand (intervals_extend start prev x xs e)
      ∙ expand-intervals_from start x xs (omega arith)
      ∙ longer e
  | no ne ↦
      ap expand (intervals_break start prev x xs ne)
      ∙ rw (expand-intervals_from x x xs (le_refl x)) (shorter ne)
]
  where
    longer :
        x ≡ prev + 1
        → range start (suc (x - start)) ++ xs ≡ range start (suc (prev - start)) ++ x ∷ xs
    longer e =
        range-cong start (suc (x - start)) (suc (suc (prev - start))) xs (omega arith)
        ∙ rw (range_snoc start (suc (prev - start)), append_assoc)
            (ap (λ j. range start (suc (prev - start)) ++ j ∷ xs) (omega arith))

    shorter :
        x ≢ prev + 1
        → range start (prev + 1 - start) ++ (range x (suc (x - x)) ++ xs)
          ≡ range start (suc (prev - start)) ++ x ∷ xs
    shorter ne =
        let z : x - x ≡ 0 = omega arith in
        rw (z, range_one x)
          (range-cong start (prev + 1 - start) (suc (prev - start)) (x ∷ xs) (omega arith))

-- The intervals of `_extract_intervals`, written out one after the other, are the array: nothing is lost, added or moved.
pub expand-extract_intervals : (arr : List ℕ) → expand (extract_intervals arr) ≡ arr
unfolding extract_intervals
expand-extract_intervals [] = refl
expand-extract_intervals (x ∷ xs) =
    let z : x - x ≡ 0 = omega arith in
    expand-intervals_from x x xs (le_refl x) ∙ rw (z, range_one x)

-- No interval could be joined with the one behind it.
abbrev pub Apart : List (ℕ × ℕ) → Type 0
Apart [] = Unit
Apart (i ∷ []) = Unit
Apart (i ∷ j ∷ is) = (j.0 ≢ i.1) × Apart (j ∷ is)

intervals_from_head :
    (start prev : ℕ) (xs : List ℕ)
    → (e : ℕ) × (is : List (ℕ × ℕ)) × (intervals_from start prev xs ≡ (start, e) ∷ is)
intervals_from_head start prev [] = unfold intervals_from in (prev + 1, [], refl)
intervals_from_head start prev (x ∷ xs) = elim (ℕ_discrete x (prev + 1)) [
  | yes e ↦
      let (end, is, p) = intervals_from_head start x xs in
      (end, is, intervals_extend start prev x xs e ∙ p)
  | no ne ↦ (prev + 1, intervals_from x x xs, intervals_break start prev x xs ne)
]

Apart-intervals_from : (start prev : ℕ) (xs : List ℕ) → Apart (intervals_from start prev xs)
Apart-intervals_from start prev [] = unfold intervals_from in tt
Apart-intervals_from start prev (x ∷ xs) = elim (ℕ_discrete x (prev + 1)) [
  | yes e ↦ rw (intervals_extend start prev x xs e) (Apart-intervals_from start x xs)
  | no ne ↦
      let (end, is, p) = intervals_from_head x x xs in
      rw (intervals_break start prev x xs ne, p) (ne, rw p at (Apart-intervals_from x x xs))
]

-- No interval of `_extract_intervals` ends where the next one starts.
pub Apart-extract_intervals : (arr : List ℕ) → Apart (extract_intervals arr)
unfolding extract_intervals
Apart-extract_intervals [] = tt
Apart-extract_intervals (x ∷ xs) = Apart-intervals_from x x xs

-- `[-1]`: none is the IndexError of an empty list.
abbrev pub last? {ℓ} : {A : Type ℓ} → List A → Option A
last? [] = none
last? (x ∷ []) = some x
last? (x ∷ y ∷ xs) = last? (y ∷ xs)

pub expand-last? :
    (is : List (ℕ × ℕ)) (i : ℕ × ℕ)
    → last? is ≡ some i
    → (before : List ℕ) × (expand is ≡ before ++ arange i)
expand-last? [] i e = cc
expand-last? (j ∷ []) i e = ([], append-nil (arange j) ∙ ap arange (some-injective j i e))
expand-last? (j ∷ k ∷ is) i e =
    let (before, p) = expand-last? (k ∷ is) i e in
    (arange j ++ before, rw p (sym (append_assoc (arange j) before (arange i))))
