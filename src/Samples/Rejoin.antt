-- ===== src/Samples/Rejoin.antt =====
-- `SequenceSample.split` loses nothing.
use mathlib.Core.List.{flatten}
use rea_lhf.Base.{
  List, Option, [], ap, arith, assert, inr, length, length-map, map, refl, some, suc, sum_by, sym,
  true, ℕ, ◌*◌, ◌+◌, ◌-◌, ◌<◌, ◌>>=◌, ◌∙◌, ◌∷◌, ◌≡◌, ◌≤◌,
}
use rea_lhf.Packing.Partition.{far, min_abs_diff_partition}
use rea_lhf.Packing.Partition.Balanced.{Blocks, min_abs_diff_partition_lem}
use rea_lhf.Samples.{
  SequenceSample, contiguous, get_split_spec, size_of, slice, spec_of_partitions, spec_of_result,
  split, split_from, split_with_spec, total,
}
use rea_lhf.Samples.Splits.{
  ids-split_from, seqlens-split_from, slices, take-all, tokens, tokens-split_from,
}

contiguous-Blocks :
    (m lo hi : ℕ) (ps : List (ℕ × ℕ)) → 0 < m → Blocks m lo hi ps → contiguous lo ps ≡ true
contiguous-Blocks m lo hi [] h b = refl
contiguous-Blocks m lo hi ((start, end) ∷ ps) h (p, q, b) =
    ground (arith, contiguous-Blocks m end hi ps h b)

length-split_from :
    (ps : List (ℕ × ℕ)) (offset : ℕ → ℕ) (s : SequenceSample)
    → length (split_from ps offset s) ≡ length ps
unfolding split_from
length-split_from [] offset s = refl
length-split_from ((start, end) ∷ ps) offset s = ap suc (length-split_from ps _ s)

sum_by-map :
    (lens : List (List ℕ)) → sum_by (λ x. x) (map (λ l. sum_by (λ x. x) l) lens) ≡ total lens
sum_by-map [] = refl
sum_by-map (l ∷ lens) = omega (arith, sum_by-map lens)

pub slice-all {ℓ} : {A : Type ℓ} (n : ℕ) (xs : List A) → length xs ≡ n → slice 0 n xs ≡ xs
slice-all n xs e = let z : n - 0 ≡ n = omega arith in rw (z, sym e) (take-all xs)

pub spec-some :
    (ps : List (ℕ × ℕ))
    → contiguous 0 ps ≡ true
    → spec_of_partitions ps ≡ some (record { partitions = ps; sizes = map size_of ps })
unfolding spec_of_partitions
spec-some ps c =
    ap (λ b. assert b >>= λ _. some (record { partitions = ps; sizes = map size_of ps })) c

split-parts :
    (k key m : ℕ) (s : SequenceSample) (ps : List (ℕ × ℕ))
    → min_abs_diff_partition (map (λ l. sum_by (λ x. x) l) (s.seqlens key)) k m ≡ inr ps
    → contiguous 0 ps ≡ true
    → split k key m s ≡ some (split_from ps (λ j. 0) s)
unfolding split get_split_spec split_with_spec
split-parts k key m s ps e c =
    ap (λ o. o >>= λ spec. some (split_with_spec spec s)) (ap spec_of_result e ∙ spec-some ps c)

-- A sample is split into `k` parts by the lengths of a key, without an error, where there are enough
-- sequences for `k` parts of `min_size` and the lengths sum to less than 1e10; and the parts put one
-- after the other have the ids of the sample, and for each key with as many sequence lengths as there
-- are ids, and with as many tokens as the lengths say, they have its lengths and its tokens.
pub split_lem :
    (k key min_size j : ℕ) (s : SequenceSample) (d : ℕ → Option (List ℕ)) (v : List ℕ)
    → 0 < k
    → 0 < min_size
    → k * min_size ≤ length s.ids
    → length (s.seqlens key) ≡ length s.ids
    → total (s.seqlens key) < far
    → length (s.seqlens j) ≡ length s.ids
    → s.data_of ≡ some d
    → d j ≡ some v
    → length v ≡ total (s.seqlens j)
    → (parts : List SequenceSample) × (split k key min_size s ≡ some parts)
      × (length parts ≡ k)
      × (flatten (map (λ x. x.ids) parts) ≡ s.ids)
      × (flatten (map (λ x. x.seqlens j) parts) ≡ s.seqlens j)
      × (flatten (map (tokens j) parts) ≡ v)
split_lem k key m j s d v h g enough same small same_j e f whole =
    let lens = map (λ l. sum_by (λ x. x) l) (s.seqlens key) in
    let n : length lens ≡ length s.ids = length-map (s.seqlens key) _ ∙ same in
    let (ps, run, count, blocks) =
      min_abs_diff_partition_lem lens k m h g (omega (arith, n))
        (omega (arith, sum_by-map (s.seqlens key))) in
    let b : Blocks m 0 (length s.ids) ps = rw n at blocks in
    let all_j : slice 0 (length s.ids) (s.seqlens j) ≡ s.seqlens j =
      slice-all (length s.ids) (s.seqlens j) same_j in
    (
      split_from ps (λ i. 0) s,
      split-parts k key m s ps run (contiguous-Blocks m 0 (length s.ids) ps g b),
      length-split_from ps _ s ∙ count,
      ap flatten (ids-split_from ps _ s)
          ∙ slices m 0 (length s.ids) ps s.ids b
          ∙ slice-all _ s.ids refl,
      ap flatten (seqlens-split_from j ps _ s)
          ∙ slices m 0 (length s.ids) ps (s.seqlens j) b
          ∙ all_j,
      tokens-split_from j m 0 (length s.ids) ps (λ i. 0) s d v b e f
          ∙ rw all_j (slice-all (0 + total (s.seqlens j)) v (omega (arith, whole))),
    )
