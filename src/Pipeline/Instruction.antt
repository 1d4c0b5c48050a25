-- ===== src/Pipeline/Instruction.antt =====
-- pipeline_parallel/instruction.py. The class of an instruction is its `name`. The fields `deps`,
-- `bind` and `schedule_id` are left out: no schedule sets them, and no comparison reads them.
pub mod Order
use rea_lhf.Base.{Bool, false, ltb, true, ℕ, ◌&&◌, ◌==◌, ◌||◌}
use rea_lhf.Base.Int.{ltb_ℤ, negsuc, pos, ℤ}

pub data Name : Type 0 where
  optimizer_step reduce_grads forward_pass backward_pass : Name
  send_activation recv_activation send_grad recv_grad : Name
  send_next_tokens recv_next_tokens : Name

pub record PipeInstruction : Type 0 where
  pub name : Name
  pub stage_id : ℕ
  pub micro_batch_id : ℤ
  pub step_id : ℤ

abbrev pub instr : Name → ℕ → ℤ → ℤ → PipeInstruction
instr n s b t = record { name = n; stage_id = s; micro_batch_id = b; step_id = t }

abbrev pub name_eq : Name → Name → Bool
name_eq optimizer_step optimizer_step = true
name_eq reduce_grads reduce_grads = true
name_eq forward_pass forward_pass = true
name_eq backward_pass backward_pass = true
name_eq send_activation send_activation = true
name_eq recv_activation recv_activation = true
name_eq send_grad send_grad = true
name_eq recv_grad recv_grad = true
name_eq send_next_tokens send_next_tokens = true
name_eq recv_next_tokens recv_next_tokens = true
name_eq _ _ = false

abbrev pub int_eq : ℤ → ℤ → Bool
int_eq (pos a) (pos b) = a == b
int_eq (negsuc a) (negsuc b) = a == b
int_eq (pos a) (negsuc b) = false
int_eq (negsuc a) (pos b) = false

-- `PipeInstruction.__eq__`
unfoldable pub eq : PipeInstruction → PipeInstruction → Bool
eq a b =
    a.stage_id == b.stage_id
    && int_eq a.micro_batch_id b.micro_batch_id
    && int_eq a.step_id b.step_id
    && name_eq a.name b.name

-- `PipeInstruction.__lt__`
unfoldable pub lt : PipeInstruction → PipeInstruction → Bool
lt a b =
    ltb a.stage_id b.stage_id
    || a.stage_id == b.stage_id && ltb_ℤ a.micro_batch_id b.micro_batch_id
    || a.stage_id == b.stage_id
      && int_eq a.micro_batch_id b.micro_batch_id
      && ltb_ℤ a.step_id b.step_id
