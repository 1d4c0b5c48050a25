-- ===== src/Flatten/Intervals.antt =====
-- realhf/impl/model/nn/flatten_param.py, `_slice_intervals_py` and `_set_intervals_py`. An interval
-- whose end is before its start, which would move the offset back, is none here.
use mathlib.Core.List.{flatten}
use rea_lhf.Base.{
  Bool, List, Option, [], assert, drop, leb, length, none, some, take, true, ℕ, ◌&&◌, ◌++◌, ◌+◌,
  ◌-◌, ◌==◌, ◌>>=◌, ◌∷◌,
}
use rea_lhf.Samples.{slice}

-- `slices.append(src[i:j])`
abbrev pub slices : List ℕ → List (ℕ × ℕ) → List (List ℕ)
slices src [] = []
slices src ((i, j) ∷ is) = slice i j src ∷ slices src is

abbrev pub within : ℕ → List (ℕ × ℕ) → Bool
within n [] = true
within n ((i, j) ∷ is) = leb j n && within n is

-- `torch.cat` of no tensors is an error.
unfoldable pub cat_slices : List (List ℕ) → Option (List ℕ)
cat_slices [] = none
cat_slices (xs ∷ xss) = some (flatten (xs ∷ xss))

unfoldable pub slice_intervals : List ℕ → List (ℕ × ℕ) → Option (List ℕ)
unfolding cat_slices
slice_intervals src is = assert (within (length src) is) >>= λ _. cat_slices (slices src is)

-- `dst[i:j] = xs`
unfoldable pub overwrite : ℕ → ℕ → List ℕ → List ℕ → List ℕ
overwrite i j xs dst = take i dst ++ (xs ++ drop j dst)

-- The loop of `_set_intervals_py` from an offset.
unfoldable pub set_from : List ℕ → ℕ → List (ℕ × ℕ) → List ℕ → Option (List ℕ)
unfolding overwrite
set_from src offset [] dst = assert (offset == length src) >>= λ _. some dst
set_from src offset ((i, j) ∷ is) dst =
    assert (leb i j && leb j (length dst) && leb (offset + (j - i)) (length src)) >>= λ _.
    set_from src (offset + (j - i)) is (overwrite i j (slice offset (offset + (j - i)) src) dst)

unfoldable pub set_intervals : List ℕ → List ℕ → List (ℕ × ℕ) → Option (List ℕ)
unfolding set_from
set_intervals src dst is = set_from src 0 is dst
