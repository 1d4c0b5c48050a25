-- ===== src/System/Dispatch/Flow.antt =====
-- The dispatch of a batch: ownership, sources, and what the transfer of the inputs delivers.
use rea_lhf.System.Dict
use mathlib.Core.Option.{some-injective}
use native.Mathlib.Nat.{zero-add}
use rea_lhf.Base.{
  ==_iff, >>=-eq-some, Bool-cases, List, [], all, ap, arith, assert, get_elem?, get_elem?-some,
  if◌then◌else◌, inl, inr, length, lt_of_get_elem?, mem, refl, some, sym, ℕ, ◌<◌, ◌==◌, ◌∙◌, ◌∷◌,
  ◌≡◌, ◌≤◌,
}
use rea_lhf.Packing.Partition.Balanced.{Blocks}
use rea_lhf.System.Dispatch.{
  DataOwner, Mapping, dispatch, index_owners, one_name, own_parts, owners_of_key, producer_mapping,
  producer_mappings, sort_values,
}
use rea_lhf.System.Dispatch.Owners.{own_parts_absent, own_parts_inside}
use rea_lhf.System.Dispatch.Sources.{
  get_elem?-owners_of_key, has_at, has_at-index_owners, has_at-sort_values, length-owners_of_key,
  one_name_all, owners-index_owners_self, owners-sort_values,
}
use rea_lhf.Transfer.Sets.{owners}

-- After a call was dispatched over contiguous parts of its batch, the sample at place `p`, in part
-- `j`, belongs to the call's model at data parallel rank `j` for each key that the call produces, and
-- to whom it belonged before for each other key. (The sample stands once in the batch.)
pub dispatch_owner :
    (model m n j st ed p x k : ℕ) (inputs outputs ids : List ℕ) (parts : List (ℕ × ℕ))
    (o o' : DataOwner) (ms : List (ℕ × (ℕ × Mapping)))
    → Blocks m 0 n parts
    → dispatch model inputs outputs ids parts o ≡ some (o', ms)
    → get_elem? ids p ≡ some x
    → ((i : ℕ) → get_elem? ids i ≡ some x → i ≡ p)
    → get_elem? parts j ≡ some (st, ed)
    → st ≤ p
    → p < ed
    → o' x k ≡ (if mem k outputs then some (model, j) else o x k)
unfolding dispatch
dispatch_owner model m n j st ed p x k inputs outputs ids parts o o' ms blocks e there only part lo
      hi =
    let (o1, a, e1) = >>=-eq-some (own_parts ids outputs model 0 parts o) _ e in
    let (ns, b, e2) = >>=-eq-some (producer_mappings o1 ids inputs) _ e1 in
    let same : o1 ≡ o' =
      ap (λ (r : DataOwner × List (ℕ × (ℕ × Mapping))). r.0) (some-injective _ _ e2) in
    elim (Bool-cases (mem k outputs)) [
      | inl y ↦
          rw (← same, y)
            (own_parts_inside ids outputs x p k there only model 0 m 0 n j st ed parts o o1 blocks a
                y part lo hi
              ∙ ap (λ i. some (model, i)) {y = j} (omega arith))
      | inr n ↦ rw (← same, n) (own_parts_absent ids outputs model 0 parts o o1 x k a n)
    ]

mapping_of :
    (o : DataOwner) (ids : List ℕ) (k name : ℕ) (m : Mapping) (inputs : List ℕ)
    (ms : List (ℕ × (ℕ × Mapping)))
    → producer_mappings o ids inputs ≡ some ms
    → Dict.get k ms ≡ some (name, m)
    → producer_mapping o ids k ≡ some (name, m)
unfolding producer_mappings
mapping_of o ids k name m [] ms e g = absurd (cc (g, ap (Dict.get k) (sym (some-injective _ _ e))))
mapping_of o ids k name m (l ∷ inputs) ms e g =
    let (v, a, e1) = >>=-eq-some (producer_mapping o ids l) _ e in
    let (vs, b, e2) = >>=-eq-some (producer_mappings o ids inputs) _ e1 in
    let found : (if l == k then some v else Dict.get k vs) ≡ some (name, m) =
      ap (Dict.get k) (some-injective _ _ e2) ∙ g in
    elim (Bool-cases (l == k)) [
      | inl y ↦ rw (← ((==_iff l k).0 y)) (a ∙ (rw y at found))
      | inr n ↦ mapping_of o ids k name m inputs vs b (rw n at found)
    ]

sources :
    (o : DataOwner) (ids : List ℕ) (k name p x : ℕ) (m : Mapping)
    → producer_mapping o ids k ≡ some (name, m)
    → get_elem? ids p ≡ some x
    → (d : ℕ) × (o x k ≡ some (name, d)) × ((e : ℕ) → has_at e p m ≡ (d == e)) × (owners p m ≡ 1)
unfolding producer_mapping
sources o ids k name p x m e there =
    let (vs, a, e1) = >>=-eq-some (owners_of_key o k ids) _ e in
    let (nm, b, e2) = >>=-eq-some (one_name vs) _ e1 in
    let same : ◌≡◌ {A = ℕ × Mapping} (nm, sort_values (index_owners 0 vs [])) (name, m) =
      some-injective _ _ e2 in
    let name_same : nm ≡ name = ap (λ (r : ℕ × Mapping). r.0) same in
    let map_same : sort_values (index_owners 0 vs []) ≡ m = ap (λ (r : ℕ × Mapping). r.1) same in
    let long : p < length vs =
      omega (arith, length-owners_of_key o k ids vs a, lt_of_get_elem? ids p there) in
    let (v, at) = get_elem?-some vs p long in
    let owned : o x k ≡ some v = sym (get_elem?-owners_of_key o k p x ids vs a there) ∙ at in
    (
      v.1,
      owned ∙ ap (λ c. some (c, v.1)) (first_name vs b at ∙ name_same),
      λ d. rw (← map_same) (
          has_at-sort_values d p (index_owners 0 vs [])
          ∙ rw zero-add at (has_at-index_owners d 0 p vs [] v at refl)),
      rw (← map_same) (
          owners-sort_values p (index_owners 0 vs [])
          ∙ owners-index_owners_self p 0 vs [] (omega arith) (omega arith) refl),
    )
  where
    first_name :
        (vs : List (ℕ × ℕ)) {nm : ℕ} {v : ℕ × ℕ}
        → one_name vs ≡ some nm
        → get_elem? vs p ≡ some v
        → v.0 ≡ nm
    first_name [] b at = cc
    first_name (u ∷ us) {v} b at =
        let (t, c, d) = >>=-eq-some (assert (all (λ w. w.0 == u.0) us)) _ b in
        one_name_all (u ∷ us) u p v (ground (arith, c)) at ∙ some-injective _ _ d

-- For each key that a dispatched call reads, the mapping of the producer has the sample at place `p`
-- at one data parallel rank and at no other: the one that `data_owner` says, of the model that the
-- mapping is filed under.
pub dispatch_sources :
    (model name p x k : ℕ) (inputs outputs ids : List ℕ) (parts : List (ℕ × ℕ)) (o o' : DataOwner)
    (ms : List (ℕ × (ℕ × Mapping))) (m : Mapping)
    → dispatch model inputs outputs ids parts o ≡ some (o', ms)
    → Dict.get k ms ≡ some (name, m)
    → get_elem? ids p ≡ some x
    → (d : ℕ) × (o' x k ≡ some (name, d)) × ((e : ℕ) → has_at e p m ≡ (d == e)) × (owners p m ≡ 1)
unfolding dispatch
dispatch_sources model name p x k inputs outputs ids parts o o' ms m e g there =
    let (o1, a, e1) = >>=-eq-some (own_parts ids outputs model 0 parts o) _ e in
    let (ns, b, e2) = >>=-eq-some (producer_mappings o1 ids inputs) _ e1 in
    let same = some-injective _ _ e2 in
    let o_same : o1 ≡ o' = ap (λ (r : DataOwner × List (ℕ × (ℕ × Mapping))). r.0) same in
    let ms_same : ns ≡ ms = ap (λ (r : DataOwner × List (ℕ × (ℕ × Mapping))). r.1) same in
    sources o' ids k name p x m
      (rw o_same at (mapping_of o1 ids k name m inputs ns b (rw (← ms_same) at g))) there
