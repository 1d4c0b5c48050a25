-- ===== src/Pipeline/Examples.antt =====
-- The schedules of a pipeline of three stages and four micro-batches.
use rea_lhf.Pipeline.Train
use rea_lhf.Pipeline.Train.Ids
use rea_lhf.Pipeline.Train.Pairing
use rea_lhf.Pipeline.Train.Coverage
use rea_lhf.Pipeline.Train.Buffers
use rea_lhf.Base.{arith, some, tabulate, ℕ, ◌*◌, ◌+◌, ◌<◌, ◌∙◌, ◌≡◌, ◌≢◌}
use rea_lhf.Base.Int.{pos}
use rea_lhf.Pipeline.Channels.{next, occurrences, partners, upstream}
use rea_lhf.Pipeline.Inference.Pairing.{cmds_at as inference_cmds, inference_pairing}
use rea_lhf.Pipeline.Instruction.{
  PipeInstruction, backward_pass, forward_pass, instr, send_activation,
}
use rea_lhf.Pipeline.Schedule.{PipeSchedule}
use rea_lhf.Pipeline.Train.Buffers.{InFlight}

abbrev first : PipeSchedule
first = record { micro_batches = 4; stages = 3; stage_id = 0 }

steps_lem_example :
    Train.steps first ≡ some (tabulate (Train.total_steps first) 0 (Ids.train_step first))
steps_lem_example = Ids.steps_lem first

pairing_example : partners (Pairing.cmds_at first 1) ≡ upstream (Pairing.cmds_at (next first) 1)
pairing_example = Pairing.pairing first 1 (omega arith)

passes_example :
    (occurrences forward_pass 1 (Pairing.cmds_at first 2) ≡ 1)
    × (occurrences backward_pass 1 (Pairing.cmds_at first 2) ≡ 0)
passes_example = Coverage.passes first 2 1 (omega arith) (omega arith)

in_flight : (b : ℕ) → b < 2 → InFlight first 4 b
in_flight b h = record {
  valid = omega arith;
  start = 2 * b;
  started = (Coverage.passes first (2 * b) b (omega arith) (omega arith)).0 ∙ ground arith;
  start_le = omega arith;
  finish = 2 * b + 5;
  finishes = (Coverage.passes first (2 * b + 5) b (omega arith) (omega arith)).1 ∙ ground arith;
  le_finish = omega arith;
}

buffers_distinct_example : Train.buffer_idx first (pos 0) ≢ Train.buffer_idx first (pos 1)
buffers_distinct_example =
    Buffers.buffers_distinct first 4 0 1 (omega arith) (in_flight 0 (omega arith))
      (in_flight 1 (omega arith)) (omega arith)

inference_pairing_example :
    partners (inference_cmds first 2) ≡ upstream (inference_cmds (next first) 2)
inference_pairing_example = inference_pairing first 2 (omega arith)

abbrev early_send : PipeInstruction
early_send = instr send_activation 0 (pos 1) (pos 0)

abbrev late_send : PipeInstruction
late_send = instr send_activation 0 (pos 2) (pos 0)
