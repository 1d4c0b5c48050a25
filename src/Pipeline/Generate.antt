-- ===== src/Pipeline/Generate.antt =====
-- static_schedule.py, `GenerateSchedule`: each round of the pipeline makes one more token for every
-- micro-batch, and the last stage hands the tokens to the first stage for the next round.
pub mod Parts
pub mod Tokens
mod Examples
pub mod Passes
use rea_lhf.Base.{
  Bool, List, [], if◌then◌else◌, leb, max, not, suc, when, zero, ℕ, ◌%◌, ◌&&◌, ◌*◌, ◌++◌, ◌+◌, ◌-◌,
  ◌/◌, ◌==◌, ◌∷◌,
}
use rea_lhf.Base.Int.{ltb_ℤ, negsuc, pos, ℤ}
use rea_lhf.Pipeline.Instruction.{
  PipeInstruction, forward_pass, instr, recv_activation, recv_next_tokens, send_activation,
  send_next_tokens,
}
use rea_lhf.Pipeline.Schedule.{PipeSchedule, Step, is_even, valid_micro_batch}

pub record GenerateSchedule : Type 0 where
  pub base : PipeSchedule
  pub max_new_tokens : ℕ

-- The steps of one round: a stage works on one micro-batch after the other, and idles if there are
-- more stages than micro-batches.
abbrev pub period : GenerateSchedule → ℕ
period s = max s.base.micro_batches s.base.stages

unfoldable pub max_steps : GenerateSchedule → ℕ
max_steps s = s.max_new_tokens * period s + s.base.micro_batches - 1

-- The ids of a step that is a number of steps ahead of the stage it is about, or -1.
abbrev pub round_robin : ℕ → ℕ → ℕ → ℤ
round_robin period start t = if leb start t then pos ((t - start) % period) else negsuc 0

unfoldable pub micro_batch_id : GenerateSchedule → ℕ → ℤ
micro_batch_id s t = round_robin (period s) s.base.stage_id t

unfoldable pub last_stage_last_mbid : GenerateSchedule → ℕ → ℤ
last_stage_last_mbid s t = round_robin (period s) s.base.stages t

-- `(step_id - stage_id) // period`, rounded down also below zero.
unfoldable pub token_id : GenerateSchedule → ℕ → ℤ
token_id s t =
    if leb s.base.stage_id t
    then pos ((t - s.base.stage_id) / period s)
    else negsuc ((s.base.stage_id - t - 1) / period s)

abbrev pub valid_token_id : GenerateSchedule → ℤ → Bool
valid_token_id s i = ltb_ℤ i (pos s.max_new_tokens)

abbrev pub is_first_stage : GenerateSchedule → Bool
is_first_stage s = s.base.stage_id == 0

abbrev pub is_last_stage : GenerateSchedule → Bool
is_last_stage s = s.base.stage_id + 1 == s.base.stages

-- Whether there is work for a micro-batch and a token.
abbrev pub valid : GenerateSchedule → ℤ → ℤ → Bool
valid s b k = valid_micro_batch s.base b && valid_token_id s k

abbrev pub send : GenerateSchedule → ℤ → ℤ → ℤ → List PipeInstruction
send s last_b last_k k =
    when (valid s last_b last_k && not (is_last_stage s))
      (instr send_activation s.base.stage_id last_b k)

-- An even stage receives before its forward pass unless it is the first.
unfoldable pub exchange : GenerateSchedule → ℤ → ℤ → ℤ → ℤ → List PipeInstruction
exchange s b k last_b last_k =
    if is_even s.base.stage_id
    then send s last_b last_k k
      ++ when (valid s b k && not (is_first_stage s)) (instr recv_activation s.base.stage_id b k)
    else when (valid s b k) (instr recv_activation s.base.stage_id b k) ++ send s last_b last_k k

unfoldable pub next_tokens : GenerateSchedule → ℕ → ℤ → ℤ → ℤ → List PipeInstruction
next_tokens s t k last_b last_k =
    when (is_last_stage s && valid s last_b last_k)
      (instr send_next_tokens s.base.stage_id last_b last_k)
    ++ when (is_first_stage s && valid_micro_batch s.base (last_stage_last_mbid s t))
        (instr recv_next_tokens s.base.stage_id (last_stage_last_mbid s t) k)

unfoldable pub step_at : GenerateSchedule → ℕ → ℤ → ℤ → Step
unfolding exchange next_tokens micro_batch_id token_id
step_at s t last_b last_k =
    let b = micro_batch_id s t in
    let k = token_id s t in
    record {
      step_id = t;
      micro_batch_id = b;
      cmds =
          exchange s b k last_b last_k
          ++ (next_tokens s t k last_b last_k
              ++ when (valid s b k) (instr forward_pass s.base.stage_id b k));
    }

-- The `for` loop of `steps`: rounds left, `step_id`, `last_micro_batch_id` and `last_token_id`.
unfoldable pub steps_from : GenerateSchedule → ℕ → ℕ → ℤ → ℤ → List Step
unfolding step_at
steps_from s zero t last_b last_k = []
steps_from s (suc n) t last_b last_k =
    step_at s t last_b last_k ∷ steps_from s n (t + 1) (micro_batch_id s t) (token_id s t)

unfoldable pub steps : GenerateSchedule → List Step
unfolding steps_from max_steps
steps s = steps_from s (max_steps s) 0 (negsuc 0) (negsuc 0)
