-- ===== src/Samples/Unpack.antt =====
-- What `split_with_spec` and `unpack` of realhf/api/core/data_api.py return for a gathered batch.
use mathlib.Core.List.{flatten}
use rea_lhf.Base.{
  List, [], ap, arith, length, length-append, map, mem, none, refl, replicate, some, suc, true,
  zero, ℕ, ◌+◌, ◌∙◌, ◌∷◌, ◌≡◌,
}
use rea_lhf.Samples.{SequenceSample, SequenceSplitSpec, contiguous, split_from, split_with_spec}
use rea_lhf.Samples.Gather.{gather, ranges, singles, split_spec, unpack}
use rea_lhf.Samples.Regroup.{AllFit, Gathered, Gathered-Restored, Restored, gather-fit}
use rea_lhf.Samples.Rejoin.{spec-some}

contiguous-singles : (n i : ℕ) → contiguous i (singles n i) ≡ true
contiguous-singles zero i = refl
contiguous-singles (suc n) i = ground (arith, contiguous-singles n (i + 1))

singles-ranges : (n i : ℕ) → singles n i ≡ ranges i (replicate n 1)
unfolding ranges
singles-ranges zero i = refl
singles-ranges (suc n) i = rw (singles-ranges n (i + 1)) refl

ones-flatten :
    (ss : List SequenceSample)
    → map (λ x. length x.ids) ss ≡ replicate (length ss) 1
    → length (flatten (map (λ x. x.ids) ss)) ≡ length ss
unfolding flatten
ones-flatten [] e = refl
ones-flatten (s ∷ ss) e =
    let one : length s.ids ≡ 1 = cc in
    let ones : map (λ x. length x.ids) ss ≡ replicate (length ss) 1 = cc in
    rw (length-append s.ids (flatten (map (λ x. x.ids) ss)))
      (omega (arith, one, ones-flatten ss ones))

unpack-ranges :
    (g : SequenceSample) (n : ℕ)
    → length g.ids ≡ n
    → unpack g ≡ some (split_from (ranges 0 (replicate n 1)) (λ j. 0) g)
unfolding unpack split_spec split_with_spec
unpack-ranges g n e =
    rw (e, spec-some (singles n 0) (contiguous-singles n 0), singles-ranges n 0) refl

module _ (keys : List ℕ) (k : ℕ) (s : SequenceSample) (ss : List SequenceSample) where
  gather-Gathered :
      mem k keys ≡ true
      → ((j : ℕ) → mem j keys ≡ true → AllFit j (s ∷ ss))
      → (g : SequenceSample) × (gather keys (s ∷ ss) ≡ some g) × Gathered keys k (s ∷ ss) g
  gather-Gathered m h =
      let (d, run, all_d) = gather-fit keys k s ss m h in
      (_, run, (refl, rw m refl, d, refl, all_d k m))

  -- Samples that have data under the keys that are gathered, with as many sequence lengths as ids and
  -- as many tokens as the lengths say, are gathered without an error; and the batch, split by the sizes
  -- of the samples, has their ids, their lengths and their tokens again, under each of the keys.
  pub split-gather :
      mem k keys ≡ true
      → ((j : ℕ) → mem j keys ≡ true → AllFit j (s ∷ ss))
      → (g : SequenceSample) × (spec : SequenceSplitSpec) × (gather keys (s ∷ ss) ≡ some g)
        × (split_spec none (some (map (λ x. length x.ids) (s ∷ ss))) ≡ some spec)
        × Restored keys k (s ∷ ss) (split_with_spec spec g)
  unfolding split_spec split_with_spec
  split-gather m h =
      let (g, run, gathered) = gather-Gathered m h in
      (g, _, run, refl, Gathered-Restored keys k (s ∷ ss) g (h k m) gathered)

  -- Samples of one id each, that have data under the keys that are gathered, with as many sequence
  -- lengths as ids and as many tokens as the lengths say, are gathered and unpacked without an error;
  -- and what is unpacked has their ids, and under each of the keys their lengths and their tokens.
  pub unpack-gather :
      mem k keys ≡ true
      → ((j : ℕ) → mem j keys ≡ true → AllFit j (s ∷ ss))
      → map (λ x. length x.ids) (s ∷ ss) ≡ replicate (length (s ∷ ss)) 1
      → (g : SequenceSample) × (parts : List SequenceSample) × (gather keys (s ∷ ss) ≡ some g)
        × (unpack g ≡ some parts)
        × Restored keys k (s ∷ ss) parts
  unpack-gather m h ones =
      let (g, run, gathered) = gather-Gathered m h in
      (
        g,
        _,
        run,
        rw ones
            (unpack-ranges g (length (s ∷ ss)) (ap length gathered.0 ∙ ones-flatten (s ∷ ss) ones)),
        Gathered-Restored keys k (s ∷ ss) g (h k m) gathered,
      )
