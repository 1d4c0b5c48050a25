-- ===== src/Pipeline/DataParallel.antt =====
-- static_schedule.py, `DataParallelSchedule`: every micro-batch forward and backward, then one update.
use rea_lhf.Base.{
  List, Option, [], arith, dec_lt, get_elem?, get_elem?-tabulate-none, get_elem?-tabulate_zero,
  if◌then◌else◌, ltb, lt→ltb, none, some, tabulate, ℕ, ◌&&◌, ◌+◌, ◌<◌, ◌==◌, ◌∷◌, ◌≡◌,
}
use rea_lhf.Base.Int.{pos}
use rea_lhf.Pipeline.Channels.{occurrences}
use rea_lhf.Pipeline.Instruction.{
  PipeInstruction, backward_pass, forward_pass, instr, optimizer_step, reduce_grads,
}
use rea_lhf.Pipeline.Schedule.{PipeSchedule}

unfoldable pub update : PipeSchedule → ℕ → List PipeInstruction
update s t =
    if t + 1 == s.micro_batches
    then instr reduce_grads s.stage_id (pos t) (pos 0)
      ∷ instr optimizer_step s.stage_id (pos t) (pos 0)
      ∷ []
    else []

unfoldable pub cmds : PipeSchedule → ℕ → List PipeInstruction
unfolding update
cmds s t =
    instr forward_pass s.stage_id (pos t) (pos 0)
    ∷ instr backward_pass s.stage_id (pos t) (pos 0)
    ∷ update s t

-- It yields the instructions of a step alone.
unfoldable pub steps : PipeSchedule → List (List PipeInstruction)
unfolding cmds
steps s = tabulate s.micro_batches 0 (cmds s)

abbrev pub of_step : Option (List PipeInstruction) → List PipeInstruction
of_step none = []
of_step (some is) = is

pub cmds_at : PipeSchedule → ℕ → List PipeInstruction
cmds_at s t = of_step (get_elem? (steps s) t)

cmds_at_cases :
    (s : PipeSchedule) (t : ℕ) → cmds_at s t ≡ (if ltb t s.micro_batches then cmds s t else [])
unfolding cmds_at steps
cmds_at_cases s t = elim (dec_lt t s.micro_batches) [
  | yes l ↦ rw (get_elem?-tabulate_zero s.micro_batches t (cmds s) l, lt→ltb _ _ l)
  | no g ↦ rw (get_elem?-tabulate-none s.micro_batches 0 t (cmds s) g) (ground arith)
]

-- A data parallel schedule runs the forward and the backward pass of each micro-batch once, at the step
-- of its number, and updates the parameters once, after the last micro-batch.
pub data_parallel_passes :
    (s : PipeSchedule) (t b : ℕ)
    → b < s.micro_batches
    → (occurrences forward_pass b (cmds_at s t) ≡ (if t == b then 1 else 0))
      × (occurrences backward_pass b (cmds_at s t) ≡ (if t == b then 1 else 0))
      × (occurrences optimizer_step b (cmds_at s t)
          ≡ (if t == b && b + 1 == s.micro_batches then 1 else 0))
unfolding cmds update
data_parallel_passes s t b h = rw (cmds_at_cases s t) (elim (dec_lt t s.micro_batches) [
  | yes l ↦ rw (lt→ltb _ _ l) (ground arith)
  | no g ↦ ground arith
])
