-- ===== src/Samples/Splits.antt =====
-- The parts of a split, put together again, are the sample.
use mathlib.Core.Option
use mathlib.Core.List.{flatten}
use rea_lhf.Base.{
  List, Option, [], ap, arith, drop, length, map, none, refl, some, suc, sym, take, zero, ℕ, ◌++◌,
  ◌+◌, ◌-◌, ◌∙◌, ◌∷◌, ◌≡◌, ◌≤◌,
}
use rea_lhf.Packing.Partition.Balanced.{Blocks}
use rea_lhf.Samples.{SequenceSample, part, slice, slice_data, split_from, total}

drop-nil {ℓ} : {A : Type ℓ} (n : ℕ) → drop {A = A} n [] ≡ []
drop-nil zero = refl
drop-nil (suc n) = refl

take-nil {ℓ} : {A : Type ℓ} (n : ℕ) → take {A = A} n [] ≡ []
take-nil zero = refl
take-nil (suc n) = refl

drop-drop {ℓ} : {A : Type ℓ} (a b : ℕ) (xs : List A) → drop b (drop a xs) ≡ drop (a + b) xs
drop-drop zero b xs = let e : 0 + b ≡ b = omega arith in rw e
drop-drop (suc a) b [] = drop-nil b ∙ sym (drop-nil (suc a + b))
drop-drop (suc a) b (x ∷ xs) =
    let e : suc a + b ≡ suc (a + b) = omega arith in rw e (drop-drop a b xs)

take-add {ℓ} :
    {A : Type ℓ} (a b : ℕ) (xs : List A) → take a xs ++ take b (drop a xs) ≡ take (a + b) xs
take-add zero b xs = let e : 0 + b ≡ b = omega arith in rw e
take-add (suc a) b [] = take-nil b ∙ sym (take-nil (suc a + b))
take-add (suc a) b (x ∷ xs) =
    let e : suc a + b ≡ suc (a + b) = omega arith in rw e (ap (λ ys. x ∷ ys) (take-add a b xs))

pub slice-append {ℓ} :
    {A : Type ℓ} (lo mid hi : ℕ) (xs : List A)
    → lo ≤ mid
    → mid ≤ hi
    → slice lo mid xs ++ slice mid hi xs ≡ slice lo hi xs
slice-append lo mid hi xs h k =
    let e : lo + (mid - lo) ≡ mid = omega arith in
    let f : mid - lo + (hi - mid) ≡ hi - lo = omega arith in
    let g : drop mid xs ≡ drop (mid - lo) (drop lo xs) =
      sym (drop-drop lo (mid - lo) xs ∙ ap (λ n. drop n xs) e) in
    rw g (take-add (mid - lo) (hi - mid) (drop lo xs) ∙ ap (λ n. take n (drop lo xs)) f)

pub slice-nil {ℓ} : {A : Type ℓ} (lo : ℕ) (xs : List A) → slice lo lo xs ≡ []
slice-nil lo xs = let e : lo - lo ≡ 0 = omega arith in rw e

pub take-all {ℓ} : {A : Type ℓ} (xs : List A) → take (length xs) xs ≡ xs
take-all [] = refl
take-all (x ∷ xs) = ap (λ ys. x ∷ ys) (take-all xs)

Blocks-le : (m lo hi : ℕ) (ps : List (ℕ × ℕ)) → Blocks m lo hi ps → lo ≤ hi
Blocks-le m lo hi [] h = omega (arith, h)
Blocks-le m lo hi ((start, end) ∷ ps) (p, q, b) = omega (arith, p, q, Blocks-le m end hi ps b)

total-append : (xs ys : List (List ℕ)) → total (xs ++ ys) ≡ total xs + total ys
total-append [] ys = omega arith
total-append (x ∷ xs) ys = omega (arith, total-append xs ys)

pub slices {ℓ} :
    {A : Type ℓ} (m lo hi : ℕ) (ps : List (ℕ × ℕ)) (xs : List A)
    → Blocks m lo hi ps
    → flatten (map (λ p. slice p.0 p.1 xs) ps) ≡ slice lo hi xs
unfolding flatten
slices m lo hi [] xs h = rw h (sym (slice-nil hi xs))
slices m lo hi ((start, end) ∷ ps) xs (p, q, b) =
    rw (p, slices m end hi ps xs b)
      (slice-append lo end hi xs (omega (arith, p, q)) (Blocks-le m end hi ps b))

pub ids-split_from :
    (ps : List (ℕ × ℕ)) (offset : ℕ → ℕ) (s : SequenceSample)
    → map (λ x. x.ids) (split_from ps offset s) ≡ map (λ p. slice p.0 p.1 s.ids) ps
unfolding split_from part
ids-split_from [] offset s = refl
ids-split_from ((start, end) ∷ ps) offset s =
    ap (λ xs. slice start end s.ids ∷ xs) (ids-split_from ps _ s)

pub seqlens-split_from :
    (k : ℕ) (ps : List (ℕ × ℕ)) (offset : ℕ → ℕ) (s : SequenceSample)
    → map (λ x. x.seqlens k) (split_from ps offset s) ≡ map (λ p. slice p.0 p.1 (s.seqlens k)) ps
unfolding split_from part
seqlens-split_from k [] offset s = refl
seqlens-split_from k ((start, end) ∷ ps) offset s =
    ap (λ xs. slice start end (s.seqlens k) ∷ xs) (seqlens-split_from k ps _ s)

-- What a part holds of the tokens of a key.
abbrev pub values : Option (List ℕ) → List ℕ
values none = []
values (some v) = v

abbrev pub tokens_of : ℕ → Option (ℕ → Option (List ℕ)) → List ℕ
tokens_of k none = []
tokens_of k (some d) = values (d k)

abbrev pub tokens : ℕ → SequenceSample → List ℕ
tokens k s = tokens_of k s.data_of

pub tokens-part :
    (k start end : ℕ) (offset : ℕ → ℕ) (s : SequenceSample) (d : ℕ → Option (List ℕ)) (v : List ℕ)
    → s.data_of ≡ some d
    → d k ≡ some v
    → tokens k (part start end offset s)
      ≡ slice (offset k) (offset k + total (slice start end (s.seqlens k))) v
unfolding part
tokens-part k start end offset s d v e f =
    let len : ℕ → ℕ = λ j. total (slice start end (s.seqlens j)) in
    ap (λ o. tokens_of k (Option.map (slice_data offset len) o)) e
    ∙ ap (λ o. values (Option.map (slice (offset k) (len k + offset k)) o)) f
    ∙ ap (λ n. slice (offset k) n v) (omega arith)

pub tokens-split_from :
    (k m lo hi : ℕ) (ps : List (ℕ × ℕ)) (offset : ℕ → ℕ) (s : SequenceSample)
    (d : ℕ → Option (List ℕ)) (v : List ℕ)
    → Blocks m lo hi ps
    → s.data_of ≡ some d
    → d k ≡ some v
    → flatten (map (tokens k) (split_from ps offset s))
      ≡ slice (offset k) (offset k + total (slice lo hi (s.seqlens k))) v
unfolding split_from flatten
tokens-split_from k m lo hi [] offset s d v b e f =
    let c : offset k + 0 ≡ offset k = omega arith in
    rw (b, slice-nil hi (s.seqlens k), c) (sym (slice-nil (offset k) v))
tokens-split_from k m lo hi ((start, end) ∷ ps) offset s d v (p, q, b) e f =
    let head = total (slice start end (s.seqlens k)) in
    let tail = total (slice end hi (s.seqlens k)) in
    let whole : head + tail ≡ total (slice lo hi (s.seqlens k)) =
      sym (total-append (slice start end (s.seqlens k)) (slice end hi (s.seqlens k)))
      ∙ ap total (
          rw p (
            slice-append lo end hi (s.seqlens k) (omega (arith, p, q))
              (Blocks-le m end hi ps b))) in
    let ih =
      tokens-split_from k m end hi ps (λ j. offset j + total (slice start end (s.seqlens j))) s d v
        b e f in
    rw (tokens-part k start end offset s d v e f, ih)
      (slice-append (offset k) (offset k + head) (offset k + head + tail) v (omega arith)
          (omega arith)
        ∙ ap (λ n. slice (offset k) n v) {y = offset k + total (slice lo hi (s.seqlens k))}
            (omega (arith, whole)))
