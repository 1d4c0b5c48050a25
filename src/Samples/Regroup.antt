-- ===== src/Samples/Regroup.antt =====
-- Samples that are gathered, and split again by their sizes.
use mathlib.Core.List.{append_assoc, flatten}
use rea_lhf.Base.{
  ==_false, ==_refl, >>=-eq-some, List, Option, [], ap, arith, drop, if◌then◌else◌, length,
  length-append, map, mem, none, refl, some, sym, take, true, ℕ, ℕ_discrete, ◌++◌, ◌+◌, ◌-◌, ◌==◌,
  ◌∙◌, ◌∷◌, ◌≡◌,
}
use rea_lhf.Samples.{SequenceSample, part, slice, split_from, total}
use rea_lhf.Samples.Gather.{cat, gather, gather_all, gather_data, held, ranges}
use rea_lhf.Samples.Splits.{ids-split_from, seqlens-split_from, tokens, tokens-part, values}

-- A sample has data under a key, with as many sequence lengths as ids and as many tokens as they say.
abbrev pub Fits : ℕ → SequenceSample → Type 0
Fits k s =
    (length (s.seqlens k) ≡ length s.ids)
    × (held k s ≡ some (tokens k s))
    × (length (tokens k s) ≡ total (s.seqlens k))

abbrev pub AllFit : ℕ → List SequenceSample → Type 0
AllFit k [] = Unit
AllFit k (s ∷ ss) = Fits k s × AllFit k ss

drop-before {ℓ} : {A : Type ℓ} (xs ys : List A) → drop (length xs) (xs ++ ys) ≡ ys
drop-before [] ys = refl
drop-before (x ∷ xs) ys = drop-before xs ys

take-before {ℓ} : {A : Type ℓ} (xs ys : List A) → take (length xs) (xs ++ ys) ≡ xs
take-before [] [] = refl
take-before [] (y ∷ ys) = refl
take-before (x ∷ xs) ys = ap (λ zs. x ∷ zs) (take-before xs ys)

pub slice-middle {ℓ} :
    {A : Type ℓ} (before xs after : List A) (lo hi : ℕ)
    → length before ≡ lo
    → lo + length xs ≡ hi
    → slice lo hi (before ++ (xs ++ after)) ≡ xs
slice-middle before xs after lo hi e f =
    let n : hi - lo ≡ length xs = omega (arith, e, f) in
    rw (n, sym e, drop-before before (xs ++ after)) (take-before xs after)

regroup {ℓ} :
    {A : Type ℓ} (whole before : List A) (xss : List (List A)) (lo : ℕ)
    → whole ≡ before ++ flatten xss
    → length before ≡ lo
    → map (λ p. slice p.0 p.1 whole) (ranges lo (map length xss)) ≡ xss
unfolding ranges flatten
regroup whole before [] lo w e = refl
regroup whole before (xs ∷ xss) lo w e =
    let ih =
      regroup whole (before ++ xs) xss (lo + length xs)
        (w ∙ sym (append_assoc before xs (flatten xss)))
        (length-append before xs ∙ omega (arith, e)) in
    rw (ih, w, slice-middle before xs (flatten xss) lo (lo + length xs) e refl) refl

sizes-ids :
    (ss : List SequenceSample) → map length (map (λ s. s.ids) ss) ≡ map (λ s. length s.ids) ss
sizes-ids [] = refl
sizes-ids (s ∷ ss) = rw (sizes-ids ss) refl

sizes-map :
    (k : ℕ) (ss : List SequenceSample)
    → AllFit k ss
    → map length (map (λ s. s.seqlens k) ss) ≡ map length (map (λ s. s.ids) ss)
sizes-map k [] h = refl
sizes-map k (s ∷ ss) ((e, _, _), h) = rw (e, sizes-map k ss h) refl

cat-fit :
    (k : ℕ) (ss : List SequenceSample) → AllFit k ss → cat k ss ≡ some (flatten (map (tokens k) ss))
unfolding cat flatten
cat-fit k [] h = refl
cat-fit k (s ∷ ss) ((_, e, _), h) = rw (e, cat-fit k ss h) refl

-- The tokens of the parts.
regroup-tokens :
    (k : ℕ) (g : SequenceSample) (d : ℕ → Option (List ℕ)) (v before : List ℕ)
    (lens : List (List ℕ)) (ss : List SequenceSample) (lo : ℕ) (offset : ℕ → ℕ)
    → g.data_of ≡ some d
    → d k ≡ some v
    → g.seqlens k ≡ lens ++ flatten (map (λ s. s.seqlens k) ss)
    → v ≡ before ++ flatten (map (tokens k) ss)
    → length lens ≡ lo
    → length before ≡ offset k
    → AllFit k ss
    → map (tokens k) (split_from (ranges lo (map (λ s. length s.ids) ss)) offset g)
      ≡ map (tokens k) ss
unfolding ranges split_from flatten
regroup-tokens k g d v before lens [] lo offset gd dk gl w e f h = refl
regroup-tokens k g d v before lens (s ∷ ss) lo offset gd dk gl w e f ((a, b, c), h) =
    let hi = lo + length s.ids in
    let mine : slice lo hi (g.seqlens k) ≡ s.seqlens k = rw gl (
      slice-middle lens (s.seqlens k) (flatten (map (λ x. x.seqlens k) ss)) lo hi e
        (omega (arith, a))) in
    let head : tokens k (part lo hi offset g) ≡ tokens k s =
      tokens-part k lo hi offset g d v gd dk
      ∙ rw w (
          slice-middle before (tokens k s) (flatten (map (tokens k) ss)) (offset k) _ f
            (rw mine (omega (arith, c)))) in
    let ih =
      regroup-tokens k g d v (before ++ tokens k s) (lens ++ s.seqlens k) ss hi
        (λ j. offset j + total (slice lo hi (g.seqlens j))) gd dk
        (gl ∙ sym (append_assoc lens (s.seqlens k) _))
        (w ∙ sym (append_assoc before (tokens k s) _))
        (length-append lens (s.seqlens k) ∙ omega (arith, e, a))
        (length-append before (tokens k s) ∙ rw mine (omega (arith, f, c))) h in
    rw (head, ih) refl

gather_data-fit :
    (d : ℕ → Option (List ℕ)) (ss : List SequenceSample) (ks : List ℕ)
    → ((j : ℕ) → mem j ks ≡ true → AllFit j ss × (v : List ℕ) × (d j ≡ some v))
    → (f : ℕ → Option (List ℕ)) × (gather_data d ss ks ≡ some f)
      × ((j : ℕ) → mem j ks ≡ true → f j ≡ some (flatten (map (tokens j) ss)))
unfolding gather_data
gather_data-fit d ss [] h = (λ j. none, refl, λ j m. cc)
gather_data-fit d ss (k ∷ ks) h =
    let (fit, v, e) = h k (ground arith) in
    let (f, run, all_f) = gather_data-fit d ss ks (λ j m. h j (ground (arith, m))) in
    (
      λ j. if j == k then some (flatten (map (tokens k) ss)) else f j,
      rw (e, cat-fit k ss fit, run) refl,
      λ j m. elim (ℕ_discrete j k) [
        | yes p ↦ rw (p, ==_refl k) refl
        | no p ↦ rw (==_false j k p) (all_f j (ground (arith, m, p)))
      ],
    )

held-data :
    (k : ℕ) (s : SequenceSample) {v : List ℕ}
    → held k s ≡ some v
    → (d : ℕ → Option (List ℕ)) × (s.data_of ≡ some d) × (d k ≡ some v)
held-data k s e = >>=-eq-some s.data_of (λ d. d k) e

gather_all-some :
    (o : Option (ℕ → Option (List ℕ))) (d f : ℕ → Option (List ℕ)) (ss : List SequenceSample)
    (ks : List ℕ)
    → o ≡ some d
    → gather_data d ss ks ≡ some f
    → gather_all o ss ks ≡ some (some f)
unfolding gather_all
gather_all-some o d f ss ks e run = rw (e, run) refl

pub gather-fit :
    (keys : List ℕ) (k : ℕ) (s : SequenceSample) (ss : List SequenceSample)
    → mem k keys ≡ true
    → ((j : ℕ) → mem j keys ≡ true → AllFit j (s ∷ ss))
    → (d : ℕ → Option (List ℕ)) × (gather keys (s ∷ ss)
        ≡ some (record {
          ids = flatten (map (λ x. x.ids) (s ∷ ss));
          seqlens = λ j. if mem j keys then flatten (map (λ x. x.seqlens j) (s ∷ ss)) else [];
          data_of = some d;
        }))
      × ((j : ℕ) → mem j keys ≡ true → d j ≡ some (flatten (map (tokens j) (s ∷ ss))))
unfolding gather
gather-fit keys k s ss m h =
    let (d, e, _) = held-data k s (h k m).0.1 in
    let at_first : (j : ℕ) → mem j keys ≡ true → (v : List ℕ) × (d j ≡ some v) =
      λ j n. (values (d j), rw e at (h j n).0.1) in
    let (f, run, all_f) =
      gather_data-fit d (s ∷ ss) keys (λ j n. (h j n, (at_first j n).0, (at_first j n).1)) in
    (f, rw (gather_all-some s.data_of d f (s ∷ ss) keys e run) refl, all_f)

module _ (keys : List ℕ) (k : ℕ) (ss : List SequenceSample) where
  -- A batch with the ids, the lengths and the tokens of samples.
  abbrev pub Gathered : SequenceSample → Type 0
  Gathered g =
      (g.ids ≡ flatten (map (λ x. x.ids) ss))
      × (g.seqlens k ≡ flatten (map (λ x. x.seqlens k) ss))
      × (d : ℕ → Option (List ℕ)) × (g.data_of ≡ some d)
      × (d k ≡ some (flatten (map (tokens k) ss)))

  abbrev pub Restored : List SequenceSample → Type 0
  Restored parts =
      (map (λ x. x.ids) parts ≡ map (λ x. x.ids) ss)
      × (map (λ x. x.seqlens k) parts ≡ map (λ x. x.seqlens k) ss)
      × (map (tokens k) parts ≡ map (tokens k) ss)

  pub Gathered-Restored :
      (g : SequenceSample)
      → AllFit k ss
      → Gathered g
      → Restored (split_from (ranges 0 (map (λ x. length x.ids) ss)) (λ j. 0) g)
  Gathered-Restored g h (gi, gl, d, gd, dk) =
      let by_ids = sizes-ids ss in
      let by_lens = sizes-map k ss h ∙ by_ids in
      (
        ids-split_from _ _ g ∙ rw (← by_ids) (regroup g.ids [] (map (λ x. x.ids) ss) 0 gi refl),
        seqlens-split_from k _ _ g
            ∙ rw (← by_lens) (regroup (g.seqlens k) [] (map (λ x. x.seqlens k) ss) 0 gl refl),
        regroup-tokens k g d _ [] [] ss 0 (λ j. 0) gd dk gl refl refl refl h,
      )
