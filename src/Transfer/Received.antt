-- ===== src/Transfer/Received.antt =====
-- What each rank receives by a plan.
use mathlib.Core.List.{append_assoc}
use mathlib.Core.Option.{some-injective}
use rea_lhf.Base.{
  >>=-eq-some, Bool, Bool-cases, List, Option, [], ap, arith, assert, false, get_elem?,
  if◌then◌else◌, inl, inr, mem, refl, some, sum_by, sym, true, ℕ, ℕ_discrete, ◌&&◌, ◌++◌, ◌+◌, ◌==◌,
  ◌>>=◌, ◌∙◌, ◌∷◌, ◌≡◌, ◌≢◌, ◌≤◌, ◌⊎◌,
}
use rea_lhf.Transfer.{
  Mapping, Pair, Route, Slots, Step, all_ranks, derive_data_transfer_plan, intersection, key_steps,
  pair_of, pair_steps, pick, pipeline_repartition_strategy, receiver, receivers, sender,
  slots_steps, sort_items, subset, transfer, values_of, with_rank,
}
use rea_lhf.Transfer.Sets.{
  copies, copies-intersection, mem_of_owners, mem_of_subset, owners, owners_of_mem,
  sum_by-sort_items,
}

-- How often rank `w` receives key `k` of the sample with id `x`.
abbrev pub received : ℕ → ℕ → ℕ → List Step → ℕ
received w k x [] = 0
received w k x (receiver rank src dst_ranks group key ids ∷ plan) =
    (if rank == w && key == k then copies x ids else 0) + received w k x plan
received w k x (sender rank dst_ranks group key ids ∷ plan) = received w k x plan

pub received-append :
    (w k x : ℕ) (ps qs : List Step)
    → received w k x (ps ++ qs) ≡ received w k x ps + received w k x qs
received-append w k x [] qs = omega arith
received-append w k x (receiver rank src dst_ranks group key ids ∷ ps) qs =
    omega (arith, received-append w k x ps qs)
received-append w k x (sender rank dst_ranks group key ids ∷ ps) qs = received-append w k x ps qs

received-receivers :
    (w k x : ℕ) (c : Bool) (r : Route) (key : ℕ) (ids ws : List ℕ)
    → copies x ids ≡ (if c then 1 else 0)
    → received w k x (receivers r key ids ws) ≡ (if key == k && c then copies w ws else 0)
received-receivers w k x c r key ids [] e = ground arith
received-receivers w k x c r key ids (v ∷ ws) e =
    ground (arith, received-receivers w k x c r key ids ws e)

received-transfer :
    (w k x : ℕ) (c : Bool) (r : Route) (key : ℕ) (ids : List ℕ)
    → copies x ids ≡ (if c then 1 else 0)
    → received w k x (transfer r key ids) ≡ (if key == k && c then copies w r.dst_ranks else 0)
received-transfer w k x c r key ids e = omega (
  arith,
  received-append w k x (receivers r key ids r.dst_ranks)
      (sender r.src_rank r.dst_ranks r.group key ids ∷ []),
  received-receivers w k x c r key ids r.dst_ranks e,
)

-- `x` stands in `global_ids` at place `p` only, and the ranks of a route are those of the consumer's
-- data parallel rank.
module _ (routes : Pair → Option Route) (ranks : ℕ → ℕ → List ℕ) (global_ids : List ℕ)
    (consumer_name : ℕ) (w k x p : ℕ)
    (route_ranks : (q : Pair) (r : Route)
      → routes q ≡ some r
      → r.dst_ranks ≡ ranks q.dst q.dst_dp_rank)
    (there : get_elem? global_ids p ≡ some x)
    (only : (i : ℕ) → get_elem? global_ids i ≡ some x → i ≡ p) where
  pick-copies : (is ids : List ℕ) → pick global_ids is ≡ some ids → copies x ids ≡ copies p is
  unfolding pick
  pick-copies [] ids e = rw (← (some-injective _ _ e)) refl
  pick-copies (i ∷ is) ids e =
      let (y, a, e1) = >>=-eq-some (get_elem? global_ids i) _ e in
      let (ys, b, e2) = >>=-eq-some (pick global_ids is) _ e1 in
      rw (← (some-injective _ _ e2)) (elim (ℕ_discrete i p) [
        | yes q ↦
            let same : x ≡ y = some-injective _ _ (sym there ∙ (rw q at a)) in
            ground (arith, pick-copies is ys b)
        | no n ↦
            let apart : x ≢ y = λ q. n (only i (rw (← q) at a)) in
            ground (arith, pick-copies is ys b)
      ])

  pair_received :
      (producer key : ℕ) (s : Slots) (is : List ℕ) (now : List Step) (c : Bool)
      → pair_steps routes global_ids consumer_name producer key s is ≡ some now
      → copies p is ≡ (if c then 1 else 0)
      → received w k x now ≡ (if key == k && c then copies w (ranks consumer_name s.rank2) else 0)
  pair_received producer key s [] now c e f = rw (← (some-injective _ _ e)) (ground (arith, f))
  pair_received producer key s (i ∷ is) now c e f =
      let q : Pair = pair_of routes global_ids consumer_name producer s in
      let (r, a, e1) = >>=-eq-some (routes q) _ e in
      let (ids, b, e2) = >>=-eq-some (pick global_ids (i ∷ is)) _ e1 in
      rw (← (some-injective _ _ e2), ← (route_ranks q r a))
        (received-transfer w k x c r key ids (pick-copies (i ∷ is) ids b ∙ f))

  abbrev steps : ℕ → ℕ → List Slots → Option (List Step)
  steps = slots_steps routes global_ids consumer_name

  -- What `b`'s ranks get of the ranks in `m`.
  abbrev from_owners : ℕ × List ℕ → Mapping → ℕ
  from_owners b m = sum_by (λ a. if mem p a.1 then copies w (ranks consumer_name b.0) else 0) m

  received-with_rank :
      (producer key : ℕ) (b : ℕ × List ℕ) (m : Mapping) (plan : List Step)
      → steps producer key (with_rank b m) ≡ some plan
      → received w k x plan ≡ (if key == k && mem p b.1 then from_owners b m else 0)
  unfolding slots_steps
  received-with_rank producer key b [] plan e = rw (← (some-injective _ _ e)) (ground arith)
  received-with_rank producer key b (a ∷ m) plan e =
      let s : Slots = record { rank1 = a.0; rank2 = b.0; slots = intersection a.1 b.1 } in
      let (now, f, e1) =
        >>=-eq-some (pair_steps routes global_ids consumer_name producer key s s.slots) _ e in
      let (later, g, e2) = >>=-eq-some (steps producer key (with_rank b m)) _ e1 in
      let first =
        pair_received producer key s s.slots now (mem p a.1 && mem p b.1) f
          (copies-intersection p a.1 b.1) in
      let rest = received-with_rank producer key b m later g in
      rw (← (some-injective _ _ e2)) (ground (arith, received-append w k x now later, first, rest))

  slots_steps-append :
      (producer key : ℕ) (ss ts : List Slots) (plan : List Step)
      → steps producer key (ss ++ ts) ≡ some plan
      → (a : List Step) × (b : List Step) × (steps producer key ss ≡ some a)
        × (steps producer key ts ≡ some b)
        × (plan ≡ a ++ b)
  unfolding slots_steps
  slots_steps-append producer key [] ts plan e = ([], plan, refl, e, refl)
  slots_steps-append producer key (s ∷ ss) ts plan e =
      let (now, f, e1) =
        >>=-eq-some (pair_steps routes global_ids consumer_name producer key s s.slots) _ e in
      let (later, g, e2) = >>=-eq-some (steps producer key (ss ++ ts)) _ e1 in
      let (a, b, h, i, j) = slots_steps-append producer key ss ts later g in
      (
        now ++ a,
        b,
        rw (f, h) refl,
        i,
        sym (some-injective _ _ e2) ∙ rw j (sym (append_assoc now a b)),
      )

  from_no_owner : (b : ℕ × List ℕ) (m : Mapping) → owners p m ≡ 0 → from_owners b m ≡ 0
  from_no_owner b [] e = refl
  from_no_owner b (a ∷ m) e = ground (arith, from_no_owner b m)

  from_one_owner :
      (b : ℕ × List ℕ) (m : Mapping)
      → owners p m ≡ 1
      → from_owners b m ≡ copies w (ranks consumer_name b.0)
  from_one_owner b [] e = cc
  from_one_owner b (a ∷ m) e = ground (arith, from_one_owner b m, from_no_owner b m)

  -- What `w` should receive: `x` once for each data parallel rank that consumes it and has `w`.
  abbrev pub due : Mapping → ℕ
  due m = sum_by (λ b. if mem p b.1 then copies w (ranks consumer_name b.0) else 0) m

  received-all_ranks :
      (producer key : ℕ) (m1 m2 : Mapping) (plan : List Step)
      → (owners p m1 ≡ 1) ⊎ (owners p m2 ≡ 0)
      → steps producer key (all_ranks m1 m2) ≡ some plan
      → received w k x plan ≡ (if key == k then due m2 else 0)
  unfolding slots_steps
  received-all_ranks producer key m1 [] plan o e = rw (← (some-injective _ _ e)) (ground arith)
  received-all_ranks producer key m1 (b ∷ m2) plan o e =
      let (now, later, f, g, h) =
        slots_steps-append producer key (with_rank b m1) (all_ranks m1 m2) plan e in
      let first = received-with_rank producer key b m1 now f in
      rw h (elim o [
        | inl one ↦
            let rest = received-all_ranks producer key m1 m2 later (inl one) g in
            ground (arith, received-append w k x now later, first, rest, from_one_owner b m1 one)
        | inr absent ↦
            let rest = received-all_ranks producer key m1 m2 later (inr (ground arith)) g in
            ground (arith, received-append w k x now later, first, rest)
      ])

  key_received :
      (producer key : ℕ) (m1 m2 : Mapping) (plan : List Step)
      → owners p m1 ≤ 1
      → key_steps routes global_ids consumer_name producer key m1 m2 ≡ some plan
      → received w k x plan ≡ (if key == k then due m2 else 0)
  unfolding key_steps pipeline_repartition_strategy
  key_received producer key m1 m2 plan o e =
      let same = subset (values_of m1) (values_of m2) && subset (values_of m2) (values_of m1) in
      let (ss, f, e1) =
        >>=-eq-some (assert same >>= λ _. some (all_ranks (sort_items m1) (sort_items m2)))
          (steps producer key) e in
      let (u, g, f1) = >>=-eq-some (assert same) _ f in
      let covered : (owners p (sort_items m1) ≡ 1) ⊎ (owners p (sort_items m2) ≡ 0) =
        elim (Bool-cases (mem p (values_of m2))) [
          | inl y ↦ inl (
              omega (
                arith,
                o,
                sum_by-sort_items (λ a. if mem p a.1 then 1 else 0) m1,
                owners_of_mem p m1 (
                    mem_of_subset p (values_of m2) (values_of m1)
                      (and_right (subset (values_of m1) (values_of m2)) _ (asserted same g)) y),
              ))
          | inr n ↦
              inr (sum_by-sort_items (λ a. if mem p a.1 then 1 else 0) m2 ∙ mem_of_owners p m2 n)
        ] in
      received-all_ranks producer key (sort_items m1) (sort_items m2) plan covered
        (rw (← (some-injective _ _ f1)) at e1)
      ∙ ap (λ n. if key == k then n else 0)
          (sum_by-sort_items (λ b. if mem p b.1 then copies w (ranks consumer_name b.0) else 0) m2)
    where
      asserted : (b : Bool) {t : Unit {0}} → assert b ≡ some t → b ≡ true
      asserted true e = refl
      asserted false e = cc

      and_right : (a b : Bool) → (a && b) ≡ true → b ≡ true
      and_right true b e = e
      and_right false b e = cc

  abbrev plan_for : Mapping → (ℕ → ℕ) → (ℕ → ℕ → Mapping) → List ℕ → Option (List Step)
  plan_for = derive_data_transfer_plan routes global_ids consumer_name

  module _ (consumer_mapping : Mapping) (producer_names : ℕ → ℕ)
      (producer_mappings : ℕ → ℕ → Mapping)
      (one_owner : (key : ℕ) → owners p (producer_mappings (producer_names key) key) ≤ 1) where
    plan_steps :
        (key : ℕ) (keys : List ℕ) (plan : List Step)
        → plan_for consumer_mapping producer_names producer_mappings (key ∷ keys) ≡ some plan
        → (later : List Step) × (plan_for consumer_mapping producer_names producer_mappings keys
            ≡ some later)
          × (received w k x plan
              ≡ (if key == k then due consumer_mapping else 0) + received w k x later)
    unfolding derive_data_transfer_plan
    plan_steps key keys plan e =
        let m = producer_mappings (producer_names key) key in
        let (now, f, e1) =
          >>=-eq-some
            (key_steps routes global_ids consumer_name (producer_names key) key m consumer_mapping)
            _ e in
        let (later, g, e2) =
          >>=-eq-some (plan_for consumer_mapping producer_names producer_mappings keys) _ e1 in
        (
          later,
          g,
          rw (← (some-injective _ _ e2)) (
              omega (
                arith,
                received-append w k x now later,
                key_received (producer_names key) key m consumer_mapping now (one_owner key) f,
              )),
        )

    plan_without :
        (keys : List ℕ) (plan : List Step)
        → plan_for consumer_mapping producer_names producer_mappings keys ≡ some plan
        → copies k keys ≡ 0
        → received w k x plan ≡ 0
    unfolding derive_data_transfer_plan
    plan_without [] plan e c = rw (← (some-injective _ _ e)) refl
    plan_without (key ∷ keys) plan e c =
        let (later, f, g) = plan_steps key keys plan e in
        ground (arith, g, plan_without keys later f)

    pub plan_received :
        (keys : List ℕ) (plan : List Step)
        → plan_for consumer_mapping producer_names producer_mappings keys ≡ some plan
        → copies k keys ≡ 1
        → received w k x plan ≡ due consumer_mapping
    unfolding derive_data_transfer_plan
    plan_received [] plan e c = cc
    plan_received (key ∷ keys) plan e c =
        let (later, f, g) = plan_steps key keys plan e in
        ground (arith, g, plan_received keys later f, plan_without keys later f)
