-- ===== src/System/Dispatch/Owners.antt =====
-- After a call was dispatched its outputs belong to the data parallel ranks that got the samples.
use mathlib.Core.Option.{some-injective}
use rea_lhf.Base.{
  ==_false, ==_refl, >>=-eq-some, List, [], ap, arith, false, get_elem?, inl, inr, mem, refl, some,
  suc, sym, true, zero, ℕ, ℕ_discrete, ◌+◌, ◌-◌, ◌<◌, ◌∙◌, ◌∷◌, ◌≡◌, ◌≢◌, ◌≤◌, ◌⊎◌,
}
use rea_lhf.Packing.Partition.Balanced.{Blocks}
use rea_lhf.System.Dispatch.{DataOwner, own_keys, own_parts, own_range, set_owner}

own_keys_other :
    (i : ℕ) (ks : List ℕ) (v : ℕ × ℕ) (o : DataOwner) (x k : ℕ)
    → i ≢ x
    → own_keys i ks v o x k ≡ o x k
own_keys_other i [] v o x k n = refl
own_keys_other i (l ∷ ks) v o x k n =
    own_keys_other i ks v (set_owner i l v o) x k n ∙ rw (==_false i x n) refl

own_keys_absent :
    (i : ℕ) (ks : List ℕ) (v : ℕ × ℕ) (o : DataOwner) (x k : ℕ)
    → mem k ks ≡ false
    → own_keys i ks v o x k ≡ o x k
own_keys_absent i [] v o x k n = refl
own_keys_absent i (l ∷ ks) v o x k n =
    own_keys_absent i ks v (set_owner i l v o) x k (ground arith) ∙ ground arith

own_keys_self :
    (i : ℕ) (ks : List ℕ) (v : ℕ × ℕ) (o : DataOwner) (k : ℕ)
    → (mem k ks ≡ true) ⊎ (o i k ≡ some v)
    → own_keys i ks v o i k ≡ some v
own_keys_self i [] v o k (inl m) = cc
own_keys_self i [] v o k (inr e) = e
own_keys_self i (l ∷ ks) v o k h =
    own_keys_self i ks v (set_owner i l v o) k (step (ℕ_discrete k l) h)
  where
    step :
        Dec (k ≡ l)
        → (mem k (l ∷ ks) ≡ true) ⊎ (o i k ≡ some v)
        → (mem k ks ≡ true) ⊎ (set_owner i l v o i k ≡ some v)
    step (yes e) h = inr (rw (e, ==_refl i, ==_refl l) refl)
    step (no n) (inl m) = inl (ground arith)
    step (no n) (inr e) = inr (ground arith)

-- `x` is the sample at place `p`, and at no other.
module _ (ids ks : List ℕ) (x p k : ℕ) (there : get_elem? ids p ≡ some x)
    (only : (i : ℕ) → get_elem? ids i ≡ some x → i ≡ p) where
  own_range_other :
      (v : ℕ × ℕ) (n st : ℕ) (o o' : DataOwner)
      → own_range ids ks v n st o ≡ some o'
      → (p < st) ⊎ (st + n ≤ p)
      → o' x k ≡ o x k
  unfolding own_range
  own_range_other v zero st o o' e h = ap (λ f. f x k) (sym (some-injective _ _ e))
  own_range_other v (suc n) st o o' e h =
      let (i, a, e1) = >>=-eq-some (get_elem? ids st) _ e in
      let apart : i ≢ x = λ q. ground (arith, only st (rw q at a)) in
      own_range_other v n (suc st) (own_keys i ks v o) o' e1 (ground arith)
      ∙ own_keys_other i ks v o x k apart

  own_range_inside :
      (v : ℕ × ℕ) (n st : ℕ) (o o' : DataOwner)
      → own_range ids ks v n st o ≡ some o'
      → mem k ks ≡ true
      → st ≤ p
      → p < st + n
      → o' x k ≡ some v
  unfolding own_range
  own_range_inside v zero st o o' e m h g = absurd (omega arith)
  own_range_inside v (suc n) st o o' e m h g =
      let (i, a, e1) = >>=-eq-some (get_elem? ids st) _ e in
      elim (ℕ_discrete st p) [
        | yes q ↦
            let same : i ≡ x = some-injective _ _ (sym (rw q at a) ∙ there) in
            own_range_other v n (suc st) (own_keys i ks v o) o' e1 (inl (omega (arith, q)))
            ∙ rw same (own_keys_self x ks v o k (inl m))
        | no q ↦
            own_range_inside v n (suc st) (own_keys i ks v o) o' e1 m (omega (arith, q))
              (omega arith)
      ]

  own_parts_other :
      (model dp m lo hi : ℕ) (ps : List (ℕ × ℕ)) (o o' : DataOwner)
      → Blocks m lo hi ps
      → own_parts ids ks model dp ps o ≡ some o'
      → p < lo
      → o' x k ≡ o x k
  unfolding own_parts
  own_parts_other model dp m lo hi [] o o' b e h = ap (λ f. f x k) (sym (some-injective _ _ e))
  own_parts_other model dp m lo hi ((st, ed) ∷ ps) o o' b e h =
      let (o1, a, e1) = >>=-eq-some (own_range ids ks (model, dp) (ed - st) st o) _ e in
      own_parts_other model (suc dp) m ed hi ps o1 o' b.2 e1 (omega (arith, b.0, b.1))
      ∙ own_range_other (model, dp) (ed - st) st o o1 a (inl (omega (arith, b.0)))

  pub own_parts_inside :
      (model dp m lo hi j st ed : ℕ) (ps : List (ℕ × ℕ)) (o o' : DataOwner)
      → Blocks m lo hi ps
      → own_parts ids ks model dp ps o ≡ some o'
      → mem k ks ≡ true
      → get_elem? ps j ≡ some (st, ed)
      → st ≤ p
      → p < ed
      → o' x k ≡ some (model, dp + j)
  unfolding own_parts
  own_parts_inside model dp m lo hi j st ed [] o o' b e h g a c = cc
  own_parts_inside model dp m lo hi zero st ed ((s, t) ∷ ps) o o' b e h g a c =
      let same : ◌≡◌ {A = ℕ × ℕ} (s, t) (st, ed) = some-injective _ _ g in
      let s_st : s ≡ st = ap (λ (q : ℕ × ℕ). q.0) same in
      let t_ed : t ≡ ed = ap (λ (q : ℕ × ℕ). q.1) same in
      let (o1, r, e1) = >>=-eq-some (own_range ids ks (model, dp) (t - s) s o) _ e in
      own_parts_other model (suc dp) m t hi ps o1 o' b.2 e1 (omega (arith, t_ed))
      ∙ own_range_inside (model, dp) (t - s) s o o1 r h (omega (arith, s_st))
          (omega (arith, s_st, t_ed))
      ∙ ap (λ n. some (model, n)) (omega arith)
  own_parts_inside model dp m lo hi (suc j) st ed ((s, t) ∷ ps) o o' b e h g a c =
      let (o1, r, e1) = >>=-eq-some (own_range ids ks (model, dp) (t - s) s o) _ e in
      own_parts_inside model (suc dp) m t hi j st ed ps o1 o' b.2 e1 h g a c
      ∙ ap (λ n. some (model, n)) (omega arith)

own_range_absent :
    (ids ks : List ℕ) (v : ℕ × ℕ) (n st : ℕ) (o o' : DataOwner) (x k : ℕ)
    → own_range ids ks v n st o ≡ some o'
    → mem k ks ≡ false
    → o' x k ≡ o x k
unfolding own_range
own_range_absent ids ks v zero st o o' x k e h = ap (λ f. f x k) (sym (some-injective _ _ e))
own_range_absent ids ks v (suc n) st o o' x k e h =
    let (i, a, e1) = >>=-eq-some (get_elem? ids st) _ e in
    own_range_absent ids ks v n (suc st) (own_keys i ks v o) o' x k e1 h
    ∙ own_keys_absent i ks v o x k h

pub own_parts_absent :
    (ids ks : List ℕ) (model dp : ℕ) (ps : List (ℕ × ℕ)) (o o' : DataOwner) (x k : ℕ)
    → own_parts ids ks model dp ps o ≡ some o'
    → mem k ks ≡ false
    → o' x k ≡ o x k
unfolding own_parts
own_parts_absent ids ks model dp [] o o' x k e h = ap (λ f. f x k) (sym (some-injective _ _ e))
own_parts_absent ids ks model dp ((st, ed) ∷ ps) o o' x k e h =
    let (o1, a, e1) = >>=-eq-some (own_range ids ks (model, dp) (ed - st) st o) _ e in
    own_parts_absent ids ks model (suc dp) ps o1 o' x k e1 h
    ∙ own_range_absent ids ks (model, dp) (ed - st) st o o1 x k a h
