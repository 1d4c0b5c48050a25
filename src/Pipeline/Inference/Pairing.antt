-- ===== src/Pipeline/Inference/Pairing.antt =====
-- Neighbouring stages of `InferenceSchedule` agree, and every micro-batch is run once.
use rea_lhf.Base.{
  Bool, Bool-cases, List, [], arith, dec_lt, get_elem?, get_elem?-tabulate-none,
  get_elem?-tabulate_zero, if◌then◌else◌, inl, inr, ltb, lt→ltb, refl, sym, when, ℕ, ◌++◌, ◌+◌, ◌<◌,
  ◌==◌, ◌∙◌, ◌≡◌,
}
use rea_lhf.Base.Int.{pos, sub_ℕ, ℤ, ◌-ℤ◌}
use rea_lhf.Pipeline.Channels.{
  cmds_of, next, next_valid, occurrences, partners, prev_valid, upstream,
}
use rea_lhf.Pipeline.Inference.{
  cmds, inference_step, instr, recv_activation, send_activation, steps, total_steps,
  valid_micro_batch,
}
use rea_lhf.Pipeline.Instruction.{PipeInstruction, forward_pass, int_eq}
use rea_lhf.Pipeline.Schedule.{PipeSchedule}

pub cmds_at : PipeSchedule → ℕ → List PipeInstruction
cmds_at s t = cmds_of (get_elem? (steps s) t)

cmds_at_cases :
    (s : PipeSchedule) (t : ℕ)
    → cmds_at s t ≡ (if ltb t (total_steps s) then cmds s (sub_ℕ t s.stage_id) else [])
unfolding cmds_at steps
cmds_at_cases s t = elim (dec_lt t (total_steps s)) [
  | yes l ↦ rw (get_elem?-tabulate_zero (total_steps s) t (inference_step s) l, lt→ltb _ _ l)
  | no g ↦ rw (get_elem?-tabulate-none (total_steps s) 0 t (inference_step s) g) (ground arith)
]

sub_one : (t i : ℕ) → sub_ℕ t i -ℤ pos 1 ≡ sub_ℕ t (i + 1)
unfolding ◌-ℤ◌
sub_one t i = ground arith

partners_send :
    (s : PipeSchedule) (t : ℕ)
    → s.stage_id + 1 < s.stages
    → partners (cmds s (sub_ℕ t s.stage_id))
      ≡ when
          (valid_micro_batch s (sub_ℕ t (s.stage_id + 1)))
          (instr recv_activation (s.stage_id + 1) (sub_ℕ t (s.stage_id + 1)) (pos 0))
unfolding cmds
partners_send s t h = rw (next_valid s h, sub_one t s.stage_id) (split _ _ _ _ _ _)
  where
    split :
        (u v w x : Bool) (b c : ℤ)
        → partners (
            (if u
              then when v (instr send_activation s.stage_id b (pos 0))
                ++ (if w then when x (instr recv_activation s.stage_id c (pos 0)) else [])
              else (if w then when x (instr recv_activation s.stage_id c (pos 0)) else [])
                ++ when v (instr send_activation s.stage_id b (pos 0)))
            ++ when x (instr forward_pass s.stage_id c (pos 0)))
          ≡ when v (instr recv_activation (s.stage_id + 1) b (pos 0))
    split u v w x b c = ground arith

upstream_recv :
    (s : PipeSchedule) (t : ℕ)
    → s.stage_id + 1 < s.stages
    → upstream (cmds (next s) (sub_ℕ t (s.stage_id + 1)))
      ≡ when
          (valid_micro_batch s (sub_ℕ t (s.stage_id + 1)))
          (instr recv_activation (s.stage_id + 1) (sub_ℕ t (s.stage_id + 1)) (pos 0))
unfolding cmds
upstream_recv s t h = rw (prev_valid s h) (split _ _ _ _ _ _)
  where
    split :
        (u v w x : Bool) (b c : ℤ)
        → upstream (
            (if u
              then (if w then when x (instr send_activation (s.stage_id + 1) c (pos 0)) else [])
                ++ when v (instr recv_activation (s.stage_id + 1) b (pos 0))
              else when v (instr recv_activation (s.stage_id + 1) b (pos 0))
                ++ (if w then when x (instr send_activation (s.stage_id + 1) c (pos 0)) else []))
            ++ when v (instr forward_pass (s.stage_id + 1) b (pos 0)))
          ≡ when v (instr recv_activation (s.stage_id + 1) b (pos 0))
    split u v w x b c = ground arith

total_steps-next : (s : PipeSchedule) → total_steps (next s) ≡ total_steps s
unfolding total_steps
total_steps-next s = refl

-- At every step of an inference schedule the activations that a stage sends to the next stage are
-- those that the next stage awaits from it.
pub inference_pairing :
    (s : PipeSchedule) (t : ℕ)
    → s.stage_id + 1 < s.stages
    → partners (cmds_at s t) ≡ upstream (cmds_at (next s) t)
inference_pairing s t h =
    rw (cmds_at_cases s t, cmds_at_cases (next s) t, total_steps-next s)
      (elim (Bool-cases (ltb t (total_steps s))) [
        | inl e ↦ rw e (partners_send s t h ∙ sym (upstream_recv s t h))
        | inr e ↦ rw e
      ])

forward_count :
    (s : PipeSchedule) (b : ℕ) (i : ℤ)
    → b < s.micro_batches
    → occurrences forward_pass b (cmds s i) ≡ (if int_eq i (pos b) then 1 else 0)
unfolding cmds
forward_count s b i h = ground arith

-- An inference schedule runs micro-batch `b` at stage `i` at step b + i, once and at no other step.
pub inference_passes :
    (s : PipeSchedule) (t b : ℕ)
    → b < s.micro_batches
    → s.stage_id < s.stages
    → occurrences forward_pass b (cmds_at s t) ≡ (if t == b + s.stage_id then 1 else 0)
unfolding total_steps
inference_passes s t b h k = rw (cmds_at_cases s t) (elim (dec_lt t (total_steps s)) [
  | yes l ↦ rw (lt→ltb _ _ l, forward_count s b (sub_ℕ t s.stage_id) h) (ground arith)
  | no g ↦ ground arith
])
