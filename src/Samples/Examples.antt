-- ===== src/Samples/Examples.antt =====
-- Three prompts of lengths 2, 1 and 2, split in two parts.
use mathlib.Core.List.{flatten}
use mathlib.Core.Path.{subst}
use rea_lhf.Base.{
  List, Option, [], arith, if◌then◌else◌, length, map, mem, none, refl, some, sym, true, ℕ, ◌<◌,
  ◌==◌, ◌∷◌, ◌≡◌,
}
use rea_lhf.Packing.Partition.{far}
use rea_lhf.Samples.{SequenceSample, SequenceSplitSpec, split, split_with_spec, total}
use rea_lhf.Samples.Gather.{gather, split_spec, unpack}
use rea_lhf.Samples.Regroup.{AllFit, Restored}
use rea_lhf.Samples.Rejoin.{split_lem}
use rea_lhf.Samples.Splits.{tokens}
use rea_lhf.Samples.Unpack.{split-gather, unpack-gather}

abbrev prompt : ℕ → Option (List ℕ)
prompt k = some (5 ∷ 6 ∷ 7 ∷ 8 ∷ 9 ∷ [])

abbrev batch : SequenceSample
batch = record {
  ids = 0 ∷ 1 ∷ 2 ∷ [];
  seqlens = λ k. (2 ∷ []) ∷ (1 ∷ []) ∷ (2 ∷ []) ∷ [];
  data_of = some prompt;
}

batch_below_far : total (batch.seqlens 0) < far
unfolding far
batch_below_far = omega arith

split_lem_example :
    (parts : List SequenceSample) × (split 2 0 1 batch ≡ some parts)
    × (length parts ≡ 2)
    × (flatten (map (λ x. x.ids) parts) ≡ 0 ∷ 1 ∷ 2 ∷ [])
    × (flatten (map (λ x. x.seqlens 0) parts) ≡ (2 ∷ []) ∷ (1 ∷ []) ∷ (2 ∷ []) ∷ [])
    × (flatten (map (tokens 0) parts) ≡ 5 ∷ 6 ∷ 7 ∷ 8 ∷ 9 ∷ [])
split_lem_example =
    split_lem 2 0 1 0 batch prompt (5 ∷ 6 ∷ 7 ∷ 8 ∷ 9 ∷ []) (omega arith) (omega arith)
      (omega arith) refl batch_below_far refl refl refl refl

-- Two samples that are gathered under the key 4, the first of them with two sequences.
abbrev first_data : ℕ → Option (List ℕ)
first_data k = if k == 4 then some (7 ∷ 8 ∷ 9 ∷ []) else none

abbrev second_data : ℕ → Option (List ℕ)
second_data k = if k == 4 then some (5 ∷ []) else none

abbrev first_sample : SequenceSample
first_sample = record { ids = 10 ∷ []; seqlens = λ k. (2 ∷ 1 ∷ []) ∷ []; data_of = some first_data }

abbrev second_sample : SequenceSample
second_sample = record { ids = 11 ∷ []; seqlens = λ k. (1 ∷ []) ∷ []; data_of = some second_data }

both_fit : (j : ℕ) → mem j (4 ∷ []) ≡ true → AllFit j (first_sample ∷ second_sample ∷ [])
both_fit j m =
    let e : j ≡ 4 = ground (arith, m) in
    subst (λ i. AllFit i (first_sample ∷ second_sample ∷ [])) (sym e)
      ((refl, refl, refl), ((refl, refl, refl), tt))

gather-IndexError : gather (4 ∷ []) [] ≡ none
unfolding gather
gather-IndexError = refl

split-gather_example :
    (g : SequenceSample) × (spec : SequenceSplitSpec) × (gather
        (4 ∷ [])
        (first_sample ∷ second_sample ∷ [])
      ≡ some g)
    × (split_spec none (some (1 ∷ 1 ∷ [])) ≡ some spec)
    × Restored (4 ∷ []) 4 (first_sample ∷ second_sample ∷ []) (split_with_spec spec g)
split-gather_example = split-gather (4 ∷ []) 4 first_sample (second_sample ∷ []) refl both_fit

unpack-gather_example :
    (g : SequenceSample) × (parts : List SequenceSample) × (gather
        (4 ∷ [])
        (first_sample ∷ second_sample ∷ [])
      ≡ some g)
    × (unpack g ≡ some parts)
    × Restored (4 ∷ []) 4 (first_sample ∷ second_sample ∷ []) parts
unpack-gather_example =
    unpack-gather (4 ∷ []) 4 first_sample (second_sample ∷ []) refl both_fit refl
