-- ===== src/Pipeline/Train/Buffers.antt =====
-- `num_pipe_buffers` is enough: micro-batches in flight at a stage never share a buffer.
use native.Mathlib.Nat.{div-add-mod}
use rea_lhf.Base.{arith, dec_lt, some, sym, ℕ, ◌%◌, ◌*◌, ◌+◌, ◌-◌, ◌<◌, ◌≡◌, ◌≢◌, ◌≤◌}
use rea_lhf.Base.Int.{pos}
use rea_lhf.Pipeline.Channels.{occurrences}
use rea_lhf.Pipeline.Instruction.{backward_pass, forward_pass}
use rea_lhf.Pipeline.Schedule.{PipeSchedule}
use rea_lhf.Pipeline.Train.{buffer_idx, num_pipe_buffers}
use rea_lhf.Pipeline.Train.Coverage.{passes}
use rea_lhf.Pipeline.Train.Pairing.{cmds_at}

-- Stage `s` has run the forward pass of `b` by step `t`, and its backward pass not before.
pub record InFlight (s : PipeSchedule) (t b : ℕ) : Type 0 where
  pub valid : b < s.micro_batches
  pub start : ℕ
  pub started : occurrences forward_pass b (cmds_at s start) ≡ 1
  pub start_le : start ≤ t
  pub finish : ℕ
  pub finishes : occurrences backward_pass b (cmds_at s finish) ≡ 1
  pub le_finish : t ≤ finish

InFlight-bounds :
    (s : PipeSchedule) (t b : ℕ)
    → s.stage_id < s.stages
    → InFlight s t b
    → (b < s.micro_batches) × (2 * b + s.stage_id ≤ t) × (t + s.stage_id + 1 ≤ 2 * (b + s.stages))
InFlight-bounds s t b h f =
    ground (arith, passes s f.start b f.valid h, passes s f.finish b f.valid h)

mod-ne : (a b n : ℕ) → a < b → b - a < n → a % n ≢ b % n
mod-ne a b n h k e = grind (arith, div-add-mod a n, div-add-mod b n)

buffer_idx_lem :
    (s : PipeSchedule) (b : ℕ)
    → b < s.micro_batches
    → buffer_idx s (pos b) ≡ some (b % num_pipe_buffers s)
unfolding buffer_idx
buffer_idx_lem s b h = ground arith

InFlight-close :
    (s : PipeSchedule) (t a b : ℕ)
    → s.stage_id < s.stages
    → InFlight s t a
    → InFlight s t b
    → a < b
    → b - a < num_pipe_buffers s
unfolding num_pipe_buffers
InFlight-close s t a b h f g l = omega (arith, InFlight-bounds s t a h f, InFlight-bounds s t b h g)

-- Two different micro-batches that are both in flight at a stage at the same step are given
-- different pipeline buffers by `_buffer_idx`.
pub buffers_distinct :
    (s : PipeSchedule) (t a b : ℕ)
    → s.stage_id < s.stages
    → InFlight s t a
    → InFlight s t b
    → a ≢ b
    → buffer_idx s (pos a) ≢ buffer_idx s (pos b)
buffers_distinct s t a b h f g ne e = elim (dec_lt a b) [
  | yes l ↦ mod-ne a b _ l (InFlight-close s t a b h f g l) same
  | no l ↦ mod-ne b a _ (omega arith) (InFlight-close s t b a h g f (omega arith)) (sym same)
]
  where
    same : a % num_pipe_buffers s ≡ b % num_pipe_buffers s
    same = cc (buffer_idx_lem s a f.valid, buffer_idx_lem s b g.valid)
