-- ===== src/Samples/Gather.antt =====
-- realhf/api/core/data_api.py, `SequenceSample.gather`, `unpack` and the sizes of a
-- `SequenceSplitSpec`. The keys are keys of every sample; the types, shapes and the metadata are left
-- out as they are for a split.
use mathlib.Core.List.{flatten}
use rea_lhf.Base.{
  Bool, List, Option, [], assert, false, if◌then◌else◌, length, map, mem, none, some, suc, true,
  zero, ℕ, ◌&&◌, ◌++◌, ◌+◌, ◌==◌, ◌>>=◌, ◌∷◌,
}
use rea_lhf.Samples.{SequenceSample, SequenceSplitSpec, spec_of_partitions, split_with_spec}

-- `offsets` and `partitions`, from the sizes.
unfoldable pub ranges : ℕ → List ℕ → List (ℕ × ℕ)
ranges lo [] = []
ranges lo (n ∷ ns) = (lo, lo + n) ∷ ranges (lo + n) ns

abbrev pub spec_of_sizes : List ℕ → SequenceSplitSpec
spec_of_sizes ns = record { partitions = ranges 0 ns; sizes = ns }

abbrev pub same : List ℕ → List ℕ → Bool
same [] [] = true
same [] (y ∷ ys) = false
same (x ∷ xs) [] = false
same (x ∷ xs) (y ∷ ys) = x == y && same xs ys

-- `SequenceSplitSpec(partitions=…, sizes=…)`; none is a ValueError.
unfoldable pub split_spec : Option (List (ℕ × ℕ)) → Option (List ℕ) → Option SequenceSplitSpec
unfolding spec_of_partitions
split_spec none none = none
split_spec none (some ns) = some (spec_of_sizes ns)
split_spec (some ps) none = spec_of_partitions ps
split_spec (some ps) (some ns) =
    spec_of_partitions ps >>= λ spec. assert (same ns spec.sizes) >>= λ _. some spec

-- `s.data[k]`; none where there is no data, and where it is None, which `torch.cat` does not take.
abbrev pub held : ℕ → SequenceSample → Option (List ℕ)
held k s = s.data_of >>= λ d. d k

-- `torch.cat([s.data[k] for s in samples])`
unfoldable pub cat : ℕ → List SequenceSample → Option (List ℕ)
cat k [] = some []
cat k (s ∷ ss) = held k s >>= λ v. cat k ss >>= λ vs. some (v ++ vs)

abbrev pub cat_if : Option (List ℕ) → ℕ → List SequenceSample → Option (Option (List ℕ))
cat_if none k ss = some none
cat_if (some v) k ss = cat k ss >>= λ vs. some (some vs)

-- The dict of the data, key by key, where `d` is that of the first sample.
unfoldable pub gather_data :
    (ℕ → Option (List ℕ)) → List SequenceSample → List ℕ → Option (ℕ → Option (List ℕ))
unfolding cat
gather_data d ss [] = some (λ j. none)
gather_data d ss (k ∷ ks) =
    cat_if (d k) k ss >>= λ v. gather_data d ss ks >>= λ f. some (λ j. if j == k then v else f j)

unfoldable pub gather_all :
    Option (ℕ → Option (List ℕ))
    → List SequenceSample
    → List ℕ
    → Option (Option (ℕ → Option (List ℕ)))
unfolding gather_data
gather_all none ss ks = some none
gather_all (some d) ss ks = gather_data d ss ks >>= λ f. some (some f)

-- `gather`, whose keys are those of the first sample unless they are given; none is an IndexError
-- where there is no sample, or the TypeError of `torch.cat`.
unfoldable pub gather : List ℕ → List SequenceSample → Option SequenceSample
unfolding gather_all
gather keys [] = none
gather keys (s ∷ ss) = gather_all s.data_of (s ∷ ss) keys >>= λ d. some (record {
  ids = flatten (map (λ x. x.ids) (s ∷ ss));
  seqlens = λ k. if mem k keys then flatten (map (λ x. x.seqlens k) (s ∷ ss)) else [];
  data_of = d;
})

-- `[(i, i + 1) for i in range(self.bs)]`
abbrev pub singles : ℕ → ℕ → List (ℕ × ℕ)
singles zero i = []
singles (suc n) i = (i, i + 1) ∷ singles n (i + 1)

unfoldable pub unpack : SequenceSample → Option (List SequenceSample)
unfolding split_spec split_with_spec
unpack s =
    split_spec (some (singles (length s.ids) 0)) none >>= λ spec. some (split_with_spec spec s)
