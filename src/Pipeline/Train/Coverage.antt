-- ===== src/Pipeline/Train/Coverage.antt =====
-- `TrainSchedule` runs each pass of each micro-batch at exactly one step.
use rea_lhf.Base.{
  ==_congr, Bool, ap, arith, dec_lt, if◌then◌else◌, inl, inr, not, parity, refl, ℕ, ◌&&◌, ◌*◌, ◌+◌,
  ◌<◌, ◌==◌, ◌∙◌, ◌≡◌, ◌⊎◌,
}
use rea_lhf.Base.Int.{pos, sub_ℕ, ℤ}
use rea_lhf.Pipeline.Channels.{occurrences, occurrences-append}
use rea_lhf.Pipeline.Instruction.{Name, backward_pass, forward_pass, int_eq}
use rea_lhf.Pipeline.Schedule.{PipeSchedule}
use rea_lhf.Pipeline.Train.{computation, exchange, model_step, total_steps}
use rea_lhf.Pipeline.Train.Ids.{
  is_forward, micro_batch, micro_batch_backward, micro_batch_forward, train_step,
}
use rea_lhf.Pipeline.Train.Pairing.{cmds_at, cmds_at_lem, cmds_at_none}

abbrev IsPass : Name → Type 0
IsPass n = (n ≡ forward_pass) ⊎ (n ≡ backward_pass)

exchange_passless :
    (n : Name) (s : PipeSchedule) (b : ℕ) (prev i : ℤ) (f : Bool)
    → IsPass n
    → occurrences n b (exchange s prev i f) ≡ 0
unfolding exchange
exchange_passless n s b prev i f h = ground arith

model_step_passless :
    (n : Name) (s : PipeSchedule) (t b : ℕ) (i : ℤ)
    → IsPass n
    → occurrences n b (model_step s t i) ≡ 0
unfolding model_step
model_step_passless n s t b i h = ground arith

only_computation :
    (n : Name) (s : PipeSchedule) (t b : ℕ)
    → IsPass n
    → occurrences n b (train_step s t).cmds
      ≡ occurrences n b (computation s (micro_batch s t) (is_forward s t))
only_computation n s t b h =
    rw
      (
        occurrences-append n b (exchange s _ _ _) _,
        occurrences-append n b (computation s _ _) _,
        exchange_passless n s b _ _ _ h,
        model_step_passless n s t b _ h,
      )
      (omega arith)

int_eq-sub : (x y b : ℕ) → int_eq (sub_ℕ x y) (pos b) ≡ (x == y + b)
int_eq-sub x y b = ground arith

computation_hit :
    (s : PipeSchedule) (b : ℕ) (i : ℤ) (f : Bool)
    → b < s.micro_batches
    → (occurrences forward_pass b (computation s i f) ≡ (if f && int_eq i (pos b) then 1 else 0))
      × (occurrences backward_pass b (computation s i f)
          ≡ (if not f && int_eq i (pos b) then 1 else 0))
unfolding computation
computation_hit s b i f h = ground arith

abbrev once : Bool → ℕ
once b = if b then 1 else 0

forward_step :
    (s : PipeSchedule) (t b : ℕ)
    → b < s.micro_batches
    → occurrences forward_pass b (train_step s t).cmds ≡ once (t == 2 * b + s.stage_id)
forward_step s t b h =
    only_computation forward_pass s t b (inl refl) ∙ (computation_hit s b _ _ h).0 ∙ split
  where
    split :
        once (is_forward s t && int_eq (micro_batch s t) (pos b)) ≡ once (t == 2 * b + s.stage_id)
    split = elim (parity (s.stage_id + t)) [
      | inl e ↦
          rw (micro_batch_forward s t e, int_eq-sub _ _ b, e)
            (ap once (==_congr _ _ _ _ (λ p. omega arith) (λ p. omega arith)))
      | inr e ↦ rw e (ground arith)
    ]

backward_step :
    (s : PipeSchedule) (t b : ℕ)
    → b < s.micro_batches
    → occurrences backward_pass b (train_step s t).cmds
      ≡ once (t + s.stage_id + 1 == 2 * (b + s.stages))
backward_step s t b h =
    only_computation backward_pass s t b (inr refl) ∙ (computation_hit s b _ _ h).1 ∙ split
  where
    split :
        once (not (is_forward s t) && int_eq (micro_batch s t) (pos b))
        ≡ once (t + s.stage_id + 1 == 2 * (b + s.stages))
    split = elim (parity (s.stage_id + t)) [
      | inl e ↦ rw e (ground arith)
      | inr e ↦
          rw (micro_batch_backward s t e, int_eq-sub _ _ b, e)
            (ap once (==_congr _ _ _ _ (λ p. omega arith) (λ p. omega arith)))
    ]

-- Stage `i` of a training schedule runs the forward pass of micro-batch `b` at step 2 b + i and
-- its backward pass at step 2 (b + stages) - 1 - i, each once, and at no other step.
pub passes :
    (s : PipeSchedule) (t b : ℕ)
    → b < s.micro_batches
    → s.stage_id < s.stages
    → (occurrences forward_pass b (cmds_at s t) ≡ (if t == 2 * b + s.stage_id then 1 else 0))
      × (occurrences backward_pass b (cmds_at s t)
          ≡ (if t + s.stage_id + 1 == 2 * (b + s.stages) then 1 else 0))
unfolding total_steps
passes s t b h k = elim (dec_lt t (total_steps s)) [
  | yes l ↦ rw (cmds_at_lem s t l) (forward_step s t b h, backward_step s t b h)
  | no g ↦ rw (cmds_at_none s t g) (ground arith, ground arith)
]
