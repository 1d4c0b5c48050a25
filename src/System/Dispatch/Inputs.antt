-- ===== src/System/Dispatch/Inputs.antt =====
-- A call from its dispatch to the transfer of its inputs: master worker and model workers together.
use rea_lhf.System.Dict
use mathlib.Core.Option.{some-injective}
use rea_lhf.Base.{
  List, Option, [], ap, arith, false, get_elem?, if◌then◌else◌, leb, ltb, mem, none, refl, some,
  suc, sum_by, true, zero, ℕ, ◌&&◌, ◌+◌, ◌-◌, ◌<◌, ◌==◌, ◌∙◌, ◌∷◌, ◌≡◌, ◌≤◌,
}
use rea_lhf.Packing.Partition.Balanced.{Blocks}
use rea_lhf.System.Dispatch.{DataOwner, dispatch, range_from, target_mapping}
use rea_lhf.System.Dispatch.Flow.{dispatch_sources}
use rea_lhf.Transfer.{Mapping, Step, derive_data_transfer_plan}
use rea_lhf.Transfer.Plan.{plan_received_lem}
use rea_lhf.Transfer.Received.{received}
use rea_lhf.Transfer.Sets.{copies, owners}
use rea_lhf.Transfer.Setup.{Models, ranks_of, route}

-- The mapping of the producer `name` of a key; where it is not there, the code raises a KeyError.
abbrev pub mapping_under : ℕ → Option (ℕ × Mapping) → Mapping
mapping_under name none = []
mapping_under name (some (n, m)) = if n == name then m else []

abbrev pub mappings_in : List (ℕ × (ℕ × Mapping)) → ℕ → ℕ → Mapping
mappings_in ms name key = mapping_under name (Dict.get key ms)

mem-range_from : (p n st : ℕ) → mem p (range_from n st) ≡ (leb st p && ltb p (st + n))
mem-range_from p zero st = ground arith
mem-range_from p (suc n) st = ground (arith, mem-range_from p n (suc st))

module _ (p w : ℕ) (ranks : ℕ → List ℕ) where
  abbrev due_from : Mapping → ℕ
  due_from t = sum_by (λ b. if mem p b.1 then copies w (ranks b.0) else 0) t

  due_none :
      (m lo hi dp : ℕ) (ps : List (ℕ × ℕ))
      → Blocks m lo hi ps
      → p < lo
      → due_from (target_mapping dp ps) ≡ 0
  due_none m lo hi dp [] b h = refl
  due_none m lo hi dp ((s, t) ∷ ps) b h = ground (
    arith,
    mem-range_from p (t - s) s,
    b.0,
    due_none m t hi (suc dp) ps b.2 (omega (arith, b.0, b.1)),
  )

  due_at :
      (m lo hi dp j st ed : ℕ) (ps : List (ℕ × ℕ))
      → Blocks m lo hi ps
      → get_elem? ps j ≡ some (st, ed)
      → st ≤ p
      → p < ed
      → due_from (target_mapping dp ps) ≡ copies w (ranks (dp + j))
  due_at m lo hi dp j st ed [] b g l h = cc
  due_at m lo hi dp zero st ed ((s, t) ∷ ps) b g l h =
      let same : ◌≡◌ {A = ℕ × ℕ} (s, t) (st, ed) = some-injective _ _ g in
      let s_st : s ≡ st = ap (λ (q : ℕ × ℕ). q.0) same in
      let t_ed : t ≡ ed = ap (λ (q : ℕ × ℕ). q.1) same in
      let inside : mem p (range_from (t - s) s) ≡ true =
        mem-range_from p (t - s) s ∙ ground (arith, s_st, t_ed) in
      rw inside (
        omega (
          arith,
          due_none m t hi (suc dp) ps b.2 (omega (arith, t_ed)),
          ap (λ d. copies w (ranks d)) {x = dp} {y = dp + 0} (omega arith),
        ))
  due_at m lo hi dp (suc j) st ed ((s, t) ∷ ps) b g l h =
      let after : t ≤ st = starts_after m t hi j st ed ps b.2 g in
      let outside : mem p (range_from (t - s) s) ≡ false =
        mem-range_from p (t - s) s ∙ ground (arith, b.1, after) in
      rw outside (
        omega (
          arith,
          due_at m t hi (suc dp) j st ed ps b.2 g l h,
          ap (λ d. copies w (ranks d)) {x = suc dp + j} {y = dp + suc j} (omega arith),
        ))
    where
      starts_after :
          (m lo hi j st ed : ℕ) (ps : List (ℕ × ℕ))
          → Blocks m lo hi ps
          → get_elem? ps j ≡ some (st, ed)
          → lo ≤ st
      starts_after m lo hi j st ed [] b g = cc
      starts_after m lo hi zero st ed ((s, t) ∷ ps) b g =
          omega (arith, b.0, ap (λ (q : ℕ × ℕ). q.0) (some-injective _ _ g))
      starts_after m lo hi (suc j) st ed ((s, t) ∷ ps) b g =
          omega (arith, b.0, b.1, starts_after m t hi j st ed ps b.2 g)

owners_under :
    (p name : ℕ) (o : Option (ℕ × Mapping))
    → ((n : ℕ) (m : Mapping) → o ≡ some (n, m) → owners p m ≡ 1)
    → owners p (mapping_under name o) ≤ 1
owners_under p name none h = omega arith
owners_under p name (some (n, m)) h = ground (arith, h n m refl)

-- Where a call was dispatched over contiguous parts of its batch, and the model workers derive the
-- plan of the transfer from the mappings that the dispatch made, a worker receives each key that the
-- call reads of the sample at place `p`, in part `j`, once if the worker belongs to data parallel
-- rank `j` of the call's model, and not at all otherwise. (The sample stands once in the batch, and
-- the key once among the inputs.)
pub dispatch-received :
    (models : Models) (pairs : List (ℕ × ℕ)) (names : ℕ → ℕ) (model m n j st ed p x k w : ℕ)
    (inputs outputs ids : List ℕ) (parts : List (ℕ × ℕ)) (o o' : DataOwner)
    (ms : List (ℕ × (ℕ × Mapping))) (plan : List Step)
    → Blocks m 0 n parts
    → dispatch model inputs outputs ids parts o ≡ some (o', ms)
    → derive_data_transfer_plan
        (route models pairs)
        ids
        model
        (target_mapping 0 parts)
        names
        (mappings_in ms)
        inputs
      ≡ some plan
    → copies k inputs ≡ 1
    → get_elem? ids p ≡ some x
    → ((i : ℕ) → get_elem? ids i ≡ some x → i ≡ p)
    → get_elem? parts j ≡ some (st, ed)
    → st ≤ p
    → p < ed
    → received w k x plan ≡ copies w (ranks_of models model j)
dispatch-received models pairs names model m n j st ed p x k w inputs outputs ids parts o o' ms plan
      blocks e derived once there only part lo hi =
    plan_received_lem models pairs ids model (target_mapping 0 parts) names (mappings_in ms) inputs
      plan w k x p derived once there only
      (λ key. owners_under p (names key) (Dict.get key ms) (λ c t g.
        (dispatch_sources model c p x key inputs outputs ids parts o o' ms t e g there).3))
    ∙ due_at p w (ranks_of models model) m 0 n 0 j st ed parts blocks part lo hi
    ∙ ap (λ d. copies w (ranks_of models model d)) {y = j} (omega arith)
