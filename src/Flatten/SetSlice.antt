-- ===== src/Flatten/SetSlice.antt =====
-- What is sliced from a flat array after intervals of it were set.
use mathlib.Core.List.{append-nil, append_assoc, flatten}
use rea_lhf.Base.{
  ==_refl, List, [], ap, arith, drop, inl, inr, leb, length, length-append, length-drop,
  length-take, refl, some, suc, sym, take, take-append-drop, true, zero, ℕ, ◌&&◌, ◌++◌, ◌+◌, ◌-◌,
  ◌∙◌, ◌∷◌, ◌≡◌, ◌≤◌, ◌⊎◌,
}
use rea_lhf.Flatten.Intervals.{
  cat_slices, overwrite, set_from, set_intervals, slice_intervals, slices, within,
}
use rea_lhf.Samples.{slice}
use rea_lhf.Samples.Regroup.{slice-middle}
use rea_lhf.Samples.Rejoin.{slice-all}
use rea_lhf.Samples.Splits.{slice-append, slice-nil}

-- Two intervals without a common position.
abbrev pub Disjoint : ℕ × ℕ → ℕ × ℕ → Type 0
Disjoint a b = (a.1 ≤ b.0) ⊎ (b.1 ≤ a.0)

abbrev pub AllDisjoint : ℕ × ℕ → List (ℕ × ℕ) → Type 0
AllDisjoint a [] = Unit
AllDisjoint a (b ∷ bs) = Disjoint a b × AllDisjoint a bs

-- Intervals in an array of `n` elements, no two of which have a common position.
abbrev pub Apart : ℕ → List (ℕ × ℕ) → Type 0
Apart n [] = Unit
Apart n (a ∷ bs) = (a.0 ≤ a.1) × (a.1 ≤ n) × AllDisjoint a bs × Apart n bs

abbrev pub sizes : List (ℕ × ℕ) → ℕ
sizes [] = 0
sizes (a ∷ bs) = a.1 - a.0 + sizes bs

drop-append {ℓ} :
    {A : Type ℓ} (n : ℕ) (xs ys : List A) → drop n (xs ++ ys) ≡ drop n xs ++ drop (n - length xs) ys
drop-append zero [] ys = refl
drop-append zero (x ∷ xs) ys = let e : 0 - suc (length xs) ≡ 0 = omega arith in rw e refl
drop-append (suc n) [] ys = let e : suc n - 0 ≡ suc n = omega arith in rw e refl
drop-append (suc n) (x ∷ xs) ys =
    let e : suc n - suc (length xs) ≡ n - length xs = omega arith in rw e (drop-append n xs ys)

take-zero {ℓ} : {A : Type ℓ} (xs : List A) → take 0 xs ≡ []
take-zero [] = refl
take-zero (x ∷ xs) = refl

take-append {ℓ} :
    {A : Type ℓ} (n : ℕ) (xs ys : List A) → take n (xs ++ ys) ≡ take n xs ++ take (n - length xs) ys
take-append zero [] ys = refl
take-append zero (x ∷ xs) ys =
    let e : 0 - suc (length xs) ≡ 0 = omega arith in rw e (sym (take-zero ys))
take-append (suc n) [] ys = let e : suc n - 0 ≡ suc n = omega arith in rw e refl
take-append (suc n) (x ∷ xs) ys =
    let e : suc n - suc (length xs) ≡ n - length xs = omega arith in
    rw e (ap (λ zs. x ∷ zs) (take-append n xs ys))

drop-all {ℓ} : {A : Type ℓ} (n : ℕ) (xs : List A) → length xs ≤ n → drop n xs ≡ []
drop-all zero [] h = refl
drop-all zero (x ∷ xs) h = absurd (omega (arith, h))
drop-all (suc n) [] h = refl
drop-all (suc n) (x ∷ xs) h = drop-all n xs (omega (arith, h))

slice-first {ℓ} :
    {A : Type ℓ} (a b : ℕ) (xs ys : List A) → b ≤ length xs → slice a b (xs ++ ys) ≡ slice a b xs
slice-first a b xs ys h =
    let none_left : b - a - length (drop a xs) ≡ 0 = rw (length-drop a xs) (omega (arith, h)) in
    rw
      (
        drop-append a xs ys,
        take-append (b - a) (drop a xs) (drop (a - length xs) ys),
        none_left,
        take-zero (drop (a - length xs) ys),
      )
      (append-nil _)

slice-past {ℓ} :
    {A : Type ℓ} (a b n : ℕ) (xs ys : List A)
    → length xs ≡ n
    → n ≤ a
    → slice a b (xs ++ ys) ≡ take (b - a) (drop (a - n) ys)
slice-past a b n xs ys e h = rw (drop-append a xs ys, drop-all a xs (omega (arith, e, h)), e) refl

module _ (i j : ℕ) (xs dst : List ℕ) (le : i ≤ j) (fits : j ≤ length dst)
    (size : length xs ≡ j - i) where
  length-overwrite : length (overwrite i j xs dst) ≡ length dst
  unfolding overwrite
  length-overwrite =
      rw
        (
          length-append (take i dst) (xs ++ drop j dst),
          length-append xs (drop j dst),
          length-take i dst,
          length-drop j dst,
        )
        (omega (arith, size))

  slice-overwrite : slice i j (overwrite i j xs dst) ≡ xs
  unfolding overwrite
  slice-overwrite =
      slice-middle (take i dst) xs (drop j dst) i j (rw (length-take i dst) (omega arith))
        (omega (arith, size))

  overwrite-Disjoint :
      (a b : ℕ) → Disjoint (a, b) (i, j) → slice a b (overwrite i j xs dst) ≡ slice a b dst
  unfolding overwrite
  overwrite-Disjoint a b (inl h) =
      let n : length (take i dst) ≡ i = rw (length-take i dst) (omega arith) in
      slice-first a b (take i dst) (xs ++ drop j dst) (omega (arith, n, h))
      ∙ sym (slice-first a b (take i dst) (drop i dst) (omega (arith, n, h)))
      ∙ ap (slice a b) (take-append-drop i dst)
  overwrite-Disjoint a b (inr h) =
      let m : length (take i dst ++ xs) ≡ j =
        rw (length-append (take i dst) xs, length-take i dst) (omega (arith, size)) in
      let n : length (take j dst) ≡ j = rw (length-take j dst) (omega arith) in
      ap (slice a b) (sym (append_assoc (take i dst) xs (drop j dst)))
      ∙ slice-past a b j (take i dst ++ xs) (drop j dst) m h
      ∙ sym (slice-past a b j (take j dst) (drop j dst) n h)
      ∙ ap (slice a b) (take-append-drop j dst)

pub set_from-sets :
    (src dst : List ℕ) (offset : ℕ) (bs : List (ℕ × ℕ))
    → Apart (length dst) bs
    → offset + sizes bs ≡ length src
    → (d : List ℕ) × (set_from src offset bs dst ≡ some d)
      × (length d ≡ length dst)
      × (flatten (slices d bs) ≡ slice offset (length src) src)
      × ((a b : ℕ) → AllDisjoint (a, b) bs → slice a b d ≡ slice a b dst)
unfolding set_from flatten
set_from-sets src dst offset [] h e =
    let same : offset ≡ length src = omega (arith, e) in
    (
      dst,
      rw (same, ==_refl (length src)) refl,
      refl,
      rw same (sym (slice-nil (length src) src)),
      λ a b x. refl,
    )
set_from-sets src dst offset ((i, j) ∷ bs) (le, fits, apart, h) e =
    let upto = offset + (j - i) in
    let piece = slice offset upto src in
    let size : length piece ≡ j - i =
      rw (length-take (upto - offset) (drop offset src), length-drop offset src)
        (omega (arith, e)) in
    let d1 = overwrite i j piece dst in
    let n : length d1 ≡ length dst = length-overwrite i j piece dst le fits size in
    let (d, run, m, back, kept) = set_from-sets src d1 upto bs (rw n h) (omega (arith, e)) in
    let checks : leb i j && leb j (length dst) && leb upto (length src) ≡ true =
      ground (arith, le, fits, e) in
    let here : slice i j d ≡ piece = kept i j apart ∙ slice-overwrite i j piece dst le fits size in
    (
      d,
      rw (checks, run) refl,
      m ∙ n,
      rw (here, back) (slice-append offset upto (length src) src (omega arith) (omega (arith, e))),
      λ a b x. kept a b x.1 ∙ overwrite-Disjoint i j piece dst le fits size a b x.0,
    )

within-Apart : (n : ℕ) (bs : List (ℕ × ℕ)) → Apart n bs → within n bs ≡ true
within-Apart n [] h = refl
within-Apart n ((i, j) ∷ bs) (le, fits, apart, h) = ground (arith, fits, within-Apart n bs h)

-- Where the intervals lie in the destination, no two of them have a common position, and their sizes
-- sum to the size of the source, `_set_intervals_py` raises nothing; what `_slice_intervals_py` then
-- takes from these intervals is the source; and every interval that has no position in common with
-- them is as it was before.
pub slice_intervals-set_intervals :
    (src dst : List ℕ) (s : ℕ × ℕ) (bs : List (ℕ × ℕ)) (a b : ℕ)
    → Apart (length dst) (s ∷ bs)
    → sizes (s ∷ bs) ≡ length src
    → AllDisjoint (a, b) (s ∷ bs)
    → (d : List ℕ) × (set_intervals src dst (s ∷ bs) ≡ some d)
      × (slice_intervals d (s ∷ bs) ≡ some src)
      × (slice a b d ≡ slice a b dst)
unfolding set_intervals slice_intervals cat_slices
slice_intervals-set_intervals src dst s bs a b h e x =
    let (d, run, n, back, kept) = set_from-sets src dst 0 (s ∷ bs) h (omega (arith, e)) in
    let inside : within (length d) (s ∷ bs) ≡ true =
      ap (λ m. within m (s ∷ bs)) n ∙ within-Apart (length dst) (s ∷ bs) h in
    (d, run, rw inside (ap some (back ∙ slice-all (length src) src refl)), kept a b x)
