-- ===== src/Pipeline/Schedule.antt =====
-- pipeline_parallel/static_schedule.py, the base class `PipeSchedule`.
use rea_lhf.Base.{Bool, List, not, ℕ, ◌%◌, ◌&&◌, ◌+◌, ◌==◌}
use rea_lhf.Base.Int.{ltb_ℤ, pos, sub_ℕ, ℤ}
use rea_lhf.Pipeline.Instruction.{PipeInstruction}

pub record PipeSchedule : Type 0 where
  pub micro_batches : ℕ
  pub stages : ℕ
  pub stage_id : ℕ

-- What a schedule yields at each step.
pub record Step : Type 0 where
  pub step_id : ℕ
  pub micro_batch_id : ℤ
  pub cmds : List PipeInstruction

-- `0 <= i < n`
abbrev pub in_range : ℕ → ℤ → Bool
in_range n i = not (ltb_ℤ i (pos 0)) && ltb_ℤ i (pos n)

abbrev pub valid_micro_batch : PipeSchedule → ℤ → Bool
valid_micro_batch s i = in_range s.micro_batches i

abbrev pub valid_stage : PipeSchedule → ℤ → Bool
valid_stage s i = in_range s.stages i

abbrev pub prev_stage : PipeSchedule → ℤ
prev_stage s = sub_ℕ s.stage_id 1

abbrev pub next_stage : PipeSchedule → ℤ
next_stage s = pos (s.stage_id + 1)

abbrev pub is_even : ℕ → Bool
is_even x = x % 2 == 0

abbrev pub is_odd : ℕ → Bool
is_odd x = not (x % 2 == 0)
