-- ===== src/Pipeline/Inference.antt =====
-- static_schedule.py, `InferenceSchedule`: the forward passes of all micro-batches.
pub mod Pairing
use rea_lhf.Base.{List, [], if◌then◌else◌, tabulate, when, ℕ, ◌++◌, ◌+◌, ◌-◌}
use rea_lhf.Base.Int.{pos, sub_ℕ, ℤ, ◌-ℤ◌}
use rea_lhf.Pipeline.Instruction.{
  PipeInstruction, forward_pass, instr, recv_activation, send_activation,
}
use rea_lhf.Pipeline.Schedule.{
  PipeSchedule, Step, is_even, next_stage, prev_stage, valid_micro_batch, valid_stage,
}

abbrev pub send : PipeSchedule → ℤ → List PipeInstruction
send s b =
    if valid_stage s (next_stage s)
    then when (valid_micro_batch s (b -ℤ pos 1))
        (instr send_activation s.stage_id (b -ℤ pos 1) (pos 0))
    else []

abbrev pub recv : PipeSchedule → ℤ → List PipeInstruction
recv s b =
    if valid_stage s (prev_stage s)
    then when (valid_micro_batch s b) (instr recv_activation s.stage_id b (pos 0))
    else []

-- Even stages send first, odd stages receive first.
pub cmds : PipeSchedule → ℤ → List PipeInstruction
cmds s b =
    (if is_even s.stage_id then send s b ++ recv s b else recv s b ++ send s b)
    ++ when (valid_micro_batch s b) (instr forward_pass s.stage_id b (pos 0))

abbrev pub inference_step : PipeSchedule → ℕ → Step
inference_step s t =
    let b = sub_ℕ t s.stage_id in record { step_id = t; micro_batch_id = b; cmds = cmds s b }

pub total_steps : PipeSchedule → ℕ
total_steps s = s.micro_batches + s.stages - 1

pub steps : PipeSchedule → List Step
unfolding cmds total_steps
steps s = tabulate (total_steps s) 0 (inference_step s)
