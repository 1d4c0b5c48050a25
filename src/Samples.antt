-- ===== src/Samples.antt =====
-- realhf/api/core/data_api.py, how a `SequenceSample` is split. A dict is a function of the key; data is
-- the flat array of all tokens of a key. Shapes, types and the metadata go along unchanged or are
-- sliced as the ids are, and are left out.
pub mod Splits
pub mod Rejoin
pub mod Gather
pub mod Regroup
pub mod Unpack
mod Examples
use mathlib.Core.Option
use rea_lhf.Base.{
  Bool, List, Option, [], assert, drop, inl, inr, ltb, map, none, some, sum_by, take, true, ℕ, ◌&&◌,
  ◌+◌, ◌-◌, ◌==◌, ◌>>=◌, ◌∷◌, ◌⊎◌,
}
use rea_lhf.Packing.Partition.{PartitionError, min_abs_diff_partition}

pub record SequenceSplitSpec : Type 0 where
  pub partitions : List (ℕ × ℕ)
  pub sizes : List ℕ

abbrev pub size_of : ℕ × ℕ → ℕ
size_of (start, end) = end - start

-- The loop over the partitions of `_validate_partitions`.
abbrev pub contiguous : ℕ → List (ℕ × ℕ) → Bool
contiguous bound [] = true
contiguous bound ((start, end) ∷ ps) = ltb start end && start == bound && contiguous end ps

-- `SequenceSplitSpec(partitions=…)`; none is a ValueError.
unfoldable pub spec_of_partitions : List (ℕ × ℕ) → Option SequenceSplitSpec
spec_of_partitions ps =
    assert (contiguous 0 ps) >>= λ _. some (record { partitions = ps; sizes = map size_of ps })

-- `[start:end]`
abbrev pub slice {ℓ} : {A : Type ℓ} → ℕ → ℕ → List A → List A
slice start end xs = take (end - start) (drop start xs)

-- `sum(sum(lens) for lens in lens_list)`
abbrev pub total : List (List ℕ) → ℕ
total lens = sum_by (λ l. sum_by (λ x. x) l) lens

pub record SequenceSample : Type 0 where
  pub ids : List ℕ
  pub seqlens : ℕ → List (List ℕ)
  -- The outer none is a sample without data, the inner none a key without data.
  pub data_of : Option (ℕ → Option (List ℕ))

-- The data of one part: `offset` is `data_offset`, `len` is `_data_len`.
abbrev pub slice_data : (ℕ → ℕ) → (ℕ → ℕ) → (ℕ → Option (List ℕ)) → ℕ → Option (List ℕ)
slice_data offset len d k = Option.map (slice (offset k) (len k + offset k)) (d k)

unfoldable pub part : ℕ → ℕ → (ℕ → ℕ) → SequenceSample → SequenceSample
part start end offset s =
    let lens : ℕ → List (List ℕ) = λ k. slice start end (s.seqlens k) in
    record {
      ids = slice start end s.ids;
      seqlens = lens;
      data_of = Option.map (slice_data offset (λ k. total (lens k))) s.data_of;
    }

unfoldable pub split_from : List (ℕ × ℕ) → (ℕ → ℕ) → SequenceSample → List SequenceSample
unfolding part
split_from [] offset s = []
split_from ((start, end) ∷ ps) offset s =
    part start end offset s
    ∷ split_from ps (λ k. offset k + total (slice start end (s.seqlens k))) s

unfoldable pub split_with_spec : SequenceSplitSpec → SequenceSample → List SequenceSample
unfolding split_from
split_with_spec spec s = split_from spec.partitions (λ k. 0) s

abbrev pub spec_of_result : PartitionError ⊎ List (ℕ × ℕ) → Option SequenceSplitSpec
spec_of_result (inl e) = none
spec_of_result (inr ps) = spec_of_partitions ps

-- `get_split_spec` for a given key; none is a ValueError.
unfoldable pub get_split_spec : ℕ → ℕ → ℕ → SequenceSample → Option SequenceSplitSpec
unfolding spec_of_partitions
get_split_spec k key min_size s =
    spec_of_result
      (min_abs_diff_partition (map (λ l. sum_by (λ x. x) l) (s.seqlens key)) k min_size)

unfoldable pub split : ℕ → ℕ → ℕ → SequenceSample → Option (List SequenceSample)
unfolding get_split_spec split_with_spec
split k key min_size s = get_split_spec k key min_size s >>= λ spec. some (split_with_spec spec s)
