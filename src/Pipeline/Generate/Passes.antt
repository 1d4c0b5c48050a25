-- ===== src/Pipeline/Generate/Passes.antt =====
-- `GenerateSchedule` makes every token of every micro-batch once.
use native.Mathlib.Nat.{
  div-add-mod', div-eq_of_lt-le, mod-eq_of_lt, mul-add-mod_self_right, mul-le-mul_right,
}
use rea_lhf.Base.{
  Bool, List, [], ap, arith, dec_lt, false, if◌then◌else◌, leb, ltb, lt→ltb, refl, suc, sym, true,
  when, ℕ, ◌%◌, ◌&&◌, ◌*◌, ◌+◌, ◌-◌, ◌/◌, ◌<◌, ◌↔◌, ◌∙◌, ◌∷◌, ◌≡◌, ◌≢◌, ◌≤◌,
}
use rea_lhf.Base.Int.{pos, ℤ}
use rea_lhf.Pipeline.Generate.{
  GenerateSchedule, PipeInstruction, forward_pass, max_steps, micro_batch_id, period, token_id,
}
use rea_lhf.Pipeline.Generate.Parts.{
  active, cmds_at, cmds_at_cases, generate_step, step-Parts, works,
}

passes_step :
    (s : GenerateSchedule) (t : ℕ)
    → works forward_pass (cmds_at s t) ≡ (
        if ltb t (max_steps s)
        then when (active s s.base.stage_id t) (micro_batch_id s t, token_id s t)
        else [])
passes_step s t =
    ap (works forward_pass) (cmds_at_cases s t)
    ∙ inside (ltb t (max_steps s)) (generate_step s t).cmds
    ∙ rw ((step-Parts s t).passes)
  where
    inside :
        (l : Bool) (c : List PipeInstruction)
        → works forward_pass (if l then c else []) ≡ (if l then works forward_pass c else [])
    inside true c = refl
    inside false c = refl

passing :
    (l a : Bool) (x k b : ℕ) (i : ℤ)
    → ((if l then when {A = ℤ × ℤ} a (pos x, pos k) else []) ≡ (pos b, i) ∷ [])
      ↔ ((l ≡ true) × (a ≡ true) × (x ≡ b) × (i ≡ pos k))
passing true true x k b i = (λ e. (refl, refl, cc, cc), λ (_, _, e, f). cc)
passing true false x k b i = (λ e. cc, λ (_, e, _, _). cc)
passing false a x k b i = (λ e. cc, λ (e, _, _, _). cc)

resting : (l : Bool) (w v : ℤ × ℤ) → (if l then when false w else []) ≢ v ∷ []
resting true w v e = cc
resting false w v e = cc

late_batch :
    (s : GenerateSchedule) (t : ℕ)
    → ¬ (t < s.base.stage_id)
    → (micro_batch_id s t ≡ pos ((t - s.base.stage_id) % period s))
      × (token_id s t ≡ pos ((t - s.base.stage_id) / period s))
unfolding micro_batch_id token_id
late_batch s t g = let f : leb s.base.stage_id t ≡ true = ground (arith, g) in (rw f, rw f)

early_idle :
    (s : GenerateSchedule) (t : ℕ) → t < s.base.stage_id → active s s.base.stage_id t ≡ false
early_idle s t l = let f : leb s.base.stage_id t ≡ false = ground (arith, l) in rw f

active_iff :
    (l : Bool) (x y m n : ℕ) → ((l && ltb x m && ltb y n) ≡ true) ↔ ((l ≡ true) × (x < m) × (y < n))
active_iff l x y m n = ground arith

division : (p k b i : ℕ) → b < p → ((k * p + b + i - i) / p ≡ k) × ((k * p + b + i - i) % p ≡ b)
division p k b i h =
    let e : k * p + b + i - i ≡ k * p + b = omega arith in
    (
      rw e (div-eq_of_lt-le p (omega arith) (omega arith)),
      rw e (mul-add-mod_self_right k p b ∙ mod-eq_of_lt h),
    )

in_time :
    (s : GenerateSchedule) (k b : ℕ)
    → s.base.stage_id < s.base.stages
    → b < s.base.micro_batches
    → k < s.max_new_tokens
    → k * period s + b + s.base.stage_id < max_steps s
unfolding max_steps
in_time s k b h l m =
    let e : suc k * period s ≤ s.max_new_tokens * period s = mul-le-mul_right (period s) m in
    omega (arith, e)

made :
    (s : GenerateSchedule) (k b : ℕ)
    → s.base.stage_id < s.base.stages
    → b < s.base.micro_batches
    → k < s.max_new_tokens
    → let t = k * period s + b + s.base.stage_id in
      (ltb t (max_steps s) ≡ true)
      × (active s s.base.stage_id t ≡ true)
      × ((t - s.base.stage_id) % period s ≡ b)
made s k b h l m =
    let i = s.base.stage_id in
    let t = k * period s + b + i in
    let (d, r) = division (period s) k b i (omega arith) in
    let f : leb i t ≡ true = ground arith in
    (
      lt→ltb t _ (in_time s k b h l m),
      (active_iff (leb i t) _ _ s.base.micro_batches s.max_new_tokens).1 (f, rw r l, rw d m),
      r,
    )

-- In a generate schedule, the forward pass of stage `i` of the pipeline at a step is that of
-- micro-batch `b` with the token id `k` if and only if `k` is one of the tokens to be made, and the step
-- is k · max(micro_batches, stages) + b + i.
pub generate_passes :
    (s : GenerateSchedule) (t b : ℕ) (i : ℤ)
    → s.base.stage_id < s.base.stages
    → b < s.base.micro_batches
    → (works forward_pass (cmds_at s t) ≡ (pos b, i) ∷ [])
      ↔ ((k : ℕ) × (i ≡ pos k) × (k < s.max_new_tokens) × (t ≡ k * period s + b + s.base.stage_id))
generate_passes s t b i h l = rw (passes_step s t) (elim (dec_lt t s.base.stage_id) [
  | yes early ↦ rw (early_idle s t early) (
    λ e. absurd (resting (ltb t (max_steps s)) (micro_batch_id s t, token_id s t) (pos b, i) e),
    λ (k, _, m, e). absurd (omega arith),
  )
  | no g ↦
      let p = period s in
      let r =
        passing (ltb t (max_steps s)) (active s s.base.stage_id t) ((t - s.base.stage_id) % p)
          ((t - s.base.stage_id) / p) b i in
      let (x, y) = late_batch s t g in
      rw (x, y) (λ e. token g (r.0 e), λ (k, n, m, e). r.1 (back k n m e))
])
  where
    token :
        ¬ (t < s.base.stage_id)
        → (ltb t (max_steps s) ≡ true)
          × (active s s.base.stage_id t ≡ true)
          × ((t - s.base.stage_id) % period s ≡ b)
          × (i ≡ pos ((t - s.base.stage_id) / period s))
        → (k : ℕ) × (i ≡ pos k) × (k < s.max_new_tokens) × (t ≡ k * period s + b + s.base.stage_id)
    token g (q, a, e, n) = (
      (t - s.base.stage_id) / period s,
      n,
      ((active_iff (leb s.base.stage_id t) _ _ s.base.micro_batches s.max_new_tokens).0 a).2,
      omega (arith, div-add-mod' (t - s.base.stage_id) (period s)),
    )

    back :
        (k : ℕ)
        → i ≡ pos k
        → k < s.max_new_tokens
        → t ≡ k * period s + b + s.base.stage_id
        → (ltb t (max_steps s) ≡ true)
          × (active s s.base.stage_id t ≡ true)
          × ((t - s.base.stage_id) % period s ≡ b)
          × (i ≡ pos ((t - s.base.stage_id) / period s))
    back k n m e =
        let (x, y, z) = made s k b h l m in
        let (d, _) = division (period s) k b s.base.stage_id (omega arith) in
        (rw e x, rw e y, rw e z, n ∙ ap pos (sym (rw e d)))
