-- ===== src/Pipeline/Train.antt =====
-- static_schedule.py, `TrainSchedule`: one forward and one backward pass of every micro-batch
-- (1F1B). A step is a list of instructions; a schedule is the list of its steps.
pub mod Ids
pub mod Pairing
pub mod Coverage
pub mod Buffers
use rea_lhf.Base.{
  Bool, List, Option, [], assert, false, if◌then◌else◌, max, min, none, some, suc, true, when, zero,
  ℕ, ◌%◌, ◌&&◌, ◌*◌, ◌++◌, ◌+◌, ◌-◌, ◌/◌, ◌==◌, ◌>>=◌, ◌∷◌,
}
use rea_lhf.Base.Int.{negsuc, pos, pos_part, sub_ℕ, ℤ}
use rea_lhf.Pipeline.Instruction.{
  PipeInstruction, backward_pass, forward_pass, instr, optimizer_step, recv_activation, recv_grad,
  reduce_grads, send_activation, send_grad,
}
use rea_lhf.Pipeline.Schedule.{
  PipeSchedule, Step, is_even, is_odd, next_stage, prev_stage, valid_micro_batch, valid_stage,
}

-- On integers, as in Python: `t // 2 - stage_id // 2`.
pub even_step_forward_id : PipeSchedule → ℕ → ℤ
even_step_forward_id s t = sub_ℕ (t / 2) (s.stage_id / 2)

-- `(t - 1) // 2 - stage_id // 2`, where `(t - 1) // 2` is `(t + 1) // 2 - 1`, also at 0.
pub odd_step_forward_id : PipeSchedule → ℕ → ℤ
odd_step_forward_id s t = sub_ℕ ((t + 1) / 2) (1 + s.stage_id / 2)

-- `t // 2 - stages + (stage_id + 1) // 2`
pub even_step_backward_id : PipeSchedule → ℕ → ℤ
even_step_backward_id s t = sub_ℕ (t / 2 + (s.stage_id + 1) / 2) s.stages

-- `(t - 1) // 2 - stages + 1 + stage_id // 2`
pub odd_step_backward_id : PipeSchedule → ℕ → ℤ
odd_step_backward_id s t = sub_ℕ ((t + 1) / 2 + s.stage_id / 2) s.stages

-- `none` is the failed assertion of the last `else`.
pub step_to_micro_batch : PipeSchedule → ℕ → Option (ℤ × Bool)
unfolding even_step_forward_id odd_step_forward_id even_step_backward_id odd_step_backward_id
step_to_micro_batch s t =
    if is_even t && is_even s.stage_id
    then some (even_step_forward_id s t, true)
    else if is_odd t && is_odd s.stage_id
    then some (odd_step_forward_id s t, true)
    else if is_even t && is_odd s.stage_id
    then some (even_step_backward_id s t, false)
    else if is_odd t && is_even s.stage_id
    then some (odd_step_backward_id s t, false)
    else none

pub total_steps : PipeSchedule → ℕ
total_steps s = 2 * (s.micro_batches + s.stages - 1)

-- "Exchange activations"
pub exchange : PipeSchedule → ℤ → ℤ → Bool → List PipeInstruction
exchange s prev b is_forward =
    if is_forward
    then when (valid_micro_batch s prev && valid_stage s (prev_stage s))
        (instr send_grad s.stage_id prev (pos 0))
      ++ when (valid_micro_batch s b && valid_stage s (prev_stage s))
          (instr recv_activation s.stage_id b (pos 0))
    else when (valid_micro_batch s b && valid_stage s (next_stage s))
        (instr recv_grad s.stage_id b (pos 0))
      ++ when (valid_micro_batch s prev && valid_stage s (next_stage s))
          (instr send_activation s.stage_id prev (pos 0))

-- "Computation"
pub computation : PipeSchedule → ℤ → Bool → List PipeInstruction
computation s b is_forward =
    when (valid_micro_batch s b)
      (instr (if is_forward then forward_pass else backward_pass) s.stage_id b (pos 0))

-- "Model step at the end of the batch"
pub model_step : PipeSchedule → ℕ → ℤ → List PipeInstruction
unfolding total_steps
model_step s t b =
    if t + 1 == total_steps s
    then instr reduce_grads s.stage_id b (pos 0) ∷ instr optimizer_step s.stage_id b (pos 0) ∷ []
    else []

abbrev pub step_at : PipeSchedule → ℕ → ℤ → ℤ → Bool → Step
step_at s t prev b is_forward = record {
  step_id = t;
  micro_batch_id = b;
  cmds = exchange s prev b is_forward ++ (computation s b is_forward ++ model_step s t b);
}

-- The `for` loop of `steps`: rounds left, `step_id` and `prev_micro_batch_id`.
pub steps_from : PipeSchedule → ℕ → ℕ → ℤ → Option (List Step)
unfolding step_to_micro_batch exchange computation model_step
steps_from s zero t prev = some []
steps_from s (suc n) t prev = step_to_micro_batch s t >>= λ (b, is_forward).
    steps_from s n (t + 1) b >>= λ rest. some (step_at s t prev b is_forward ∷ rest)

pub steps : PipeSchedule → Option (List Step)
unfolding steps_from total_steps
steps s = steps_from s (total_steps s) 0 (negsuc 0)

-- `num_pipe_buffers` and `_buffer_idx`
pub num_pipe_buffers : PipeSchedule → ℕ
num_pipe_buffers s = max 2 (min (s.stages - s.stage_id) s.micro_batches)

pub buffer_idx : PipeSchedule → ℤ → Option ℕ
unfolding num_pipe_buffers
buffer_idx s b = assert (valid_micro_batch s b) >>= λ _. some (pos_part b % num_pipe_buffers s)
