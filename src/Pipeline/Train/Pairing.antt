-- ===== src/Pipeline/Train/Pairing.antt =====
-- Neighbouring stages of `TrainSchedule` exchange the same data at every step.
use mathlib.Core.List.{append-nil}
use rea_lhf.Base.{
  Bool, List, [], arith, dec_lt, false, get_elem?, get_elem?-tabulate-none, get_elem?-tabulate_zero,
  inl, inr, parity, refl, suc, sym, true, when, zero, ℕ, ◌%◌, ◌&&◌, ◌++◌, ◌+◌, ◌/◌, ◌<◌, ◌>>=◌, ◌∙◌,
  ◌≡◌, ◌⊎◌,
}
use rea_lhf.Base.Int.{pos, sub_ℕ, sub_ℕ-eq, ℤ}
use rea_lhf.Pipeline.Channels.{
  cmds_of, next, next_valid, partners, partners-append, prev_valid, upstream, upstream-append,
}
use rea_lhf.Pipeline.Instruction.{
  PipeInstruction, instr, recv_activation, recv_grad, send_activation, send_grad,
}
use rea_lhf.Pipeline.Schedule.{PipeSchedule, in_range}
use rea_lhf.Pipeline.Train.{computation, exchange, model_step, steps, total_steps}
use rea_lhf.Pipeline.Train.Ids.{
  is_forward, micro_batch, micro_batch_backward, micro_batch_forward, prev_micro_batch, steps_lem,
  train_step,
}

pub cmds_at : PipeSchedule → ℕ → List PipeInstruction
cmds_at s t = cmds_of (steps s >>= λ l. get_elem? l t)

pub cmds_at_lem :
    (s : PipeSchedule) (t : ℕ) → t < total_steps s → cmds_at s t ≡ (train_step s t).cmds
unfolding cmds_at
cmds_at_lem s t h = rw (steps_lem s, get_elem?-tabulate_zero (total_steps s) t (train_step s) h)

computation_silent :
    (s : PipeSchedule) (b : ℤ) (f : Bool)
    → (partners (computation s b f) ≡ []) × (upstream (computation s b f) ≡ [])
unfolding computation
computation_silent s b f = ground arith

model_step_silent :
    (s : PipeSchedule) (t : ℕ) (b : ℤ)
    → (partners (model_step s t b) ≡ []) × (upstream (model_step s t b) ≡ [])
unfolding model_step
model_step_silent s t b = ground arith

when_pairing :
    (u v : Bool) (b c : ℤ) (i : ℕ)
    → partners (
        when (u && true) (instr recv_grad i b (pos 0))
        ++ when (v && true) (instr send_activation i c (pos 0)))
      ≡ upstream (
          when (u && true) (instr send_grad (i + 1) b (pos 0))
          ++ when (v && true) (instr recv_activation (i + 1) c (pos 0)))
when_pairing true true b c i = refl
when_pairing true false b c i = refl
when_pairing false true b c i = refl
when_pairing false false b c i = refl

-- A stage in a backward step has the next one in a forward step.
exchange_pairing :
    (s : PipeSchedule) (prev b prev' b' : ℤ)
    → s.stage_id + 1 < s.stages
    → (b ≡ prev') ⊎ (in_range s.micro_batches b ≡ false) × (in_range s.micro_batches prev' ≡ false)
    → (prev ≡ b') ⊎ (in_range s.micro_batches prev ≡ false) × (in_range s.micro_batches b' ≡ false)
    → partners (exchange s prev b false) ≡ upstream (exchange (next s) prev' b' true)
unfolding exchange
exchange_pairing s prev b prev' b' h p q = elim p [
  | inl e ↦ elim q [
    | inl d ↦ rw (next_valid s h, prev_valid s h, e, d) (when_pairing _ _ prev' b' s.stage_id)
    | inr (d, d') ↦
        rw (next_valid s h, prev_valid s h, e, d, d') (when_pairing _ false prev' b' s.stage_id)
  ]
  | inr (e, e') ↦ elim q [
    | inl d ↦
        rw (next_valid s h, prev_valid s h, e, e', d) (when_pairing false _ prev' b' s.stage_id)
    | inr (d, d') ↦ rw (next_valid s h, prev_valid s h, e, e', d, d')
  ]
]

exchange_forward : (s : PipeSchedule) (prev b : ℤ) → partners (exchange s prev b true) ≡ []
unfolding exchange
exchange_forward s prev b = ground arith

exchange_backward : (s : PipeSchedule) (prev b : ℤ) → upstream (exchange s prev b false) ≡ []
unfolding exchange
exchange_backward s prev b = ground arith

module _ (s : PipeSchedule) (t : ℕ) where
  forward_ids : (s.stage_id + t) % 2 ≡ 0 → micro_batch s t ≡ micro_batch (next s) (suc t)
  forward_ids e =
      micro_batch_forward s t e
      ∙ sub_ℕ-eq _ _ _ _ (omega arith)
      ∙ sym (micro_batch_forward (next s) (suc t) (omega arith))

  backward_ids : (s.stage_id + t) % 2 ≡ 0 → micro_batch s (suc t) ≡ micro_batch (next s) t
  backward_ids e =
      micro_batch_backward s (suc t) (omega arith)
      ∙ sub_ℕ-eq _ _ _ _ (omega arith)
      ∙ sym (micro_batch_backward (next s) t (omega arith))

in_range-negative : (m a b : ℕ) → a < b → in_range m (sub_ℕ a b) ≡ false
in_range-negative m a b h = ground arith

-- The exchange of a backward step meets that of the forward step below it.
backward_pairing :
    (s : PipeSchedule) (t : ℕ)
    → s.stage_id + 1 < s.stages
    → (s.stage_id + t) % 2 ≡ 1
    → partners (exchange s (prev_micro_batch s t) (micro_batch s t) false)
      ≡ upstream (exchange (next s) (prev_micro_batch (next s) t) (micro_batch (next s) t) true)
backward_pairing s zero h e =
    exchange_pairing s _ _ _ _ h
      (inr (
        rw (micro_batch_backward s 0 e)
            (in_range-negative s.micro_batches ((0 + s.stage_id + 1) / 2) s.stages (omega arith)),
        refl,
      ))
      (inr (
        refl,
        rw (micro_batch_forward (next s) 0 (omega arith)) (
            in_range-negative s.micro_batches ((0 + (next s).stage_id % 2) / 2)
              (((next s).stage_id + 1) / 2) (omega arith)),
      ))
backward_pairing s (suc t) h e =
    exchange_pairing s _ _ _ _ h (inl (backward_ids s t (omega arith)))
      (inl (forward_ids s t (omega arith)))

only_exchange :
    (s : PipeSchedule) (t : ℕ)
    → (partners (train_step s t).cmds
        ≡ partners (exchange s (prev_micro_batch s t) (micro_batch s t) (is_forward s t)))
      × (upstream (train_step s t).cmds
          ≡ upstream (exchange s (prev_micro_batch s t) (micro_batch s t) (is_forward s t)))
only_exchange s t = (
  rw
      (
        partners-append (exchange s _ _ _) _,
        partners-append (computation s _ _) _,
        (computation_silent s _ _).0,
        (model_step_silent s t _).0,
      )
      (append-nil _),
  rw
      (
        upstream-append (exchange s _ _ _) _,
        upstream-append (computation s _ _) _,
        (computation_silent s _ _).1,
        (model_step_silent s t _).1,
      )
      (append-nil _),
)

step_pairing :
    (s : PipeSchedule) (t : ℕ)
    → s.stage_id + 1 < s.stages
    → partners (train_step s t).cmds ≡ upstream (train_step (next s) t).cmds
step_pairing s t h = elim (parity (s.stage_id + t)) [
  | inl e ↦
      let f : (s.stage_id + 1 + t) % 2 ≡ 1 = omega arith in
      rw ((only_exchange s t).0, (only_exchange (next s) t).1, e, f)
        (exchange_forward s _ _ ∙ sym (exchange_backward (next s) _ _))
  | inr e ↦
      let f : (s.stage_id + 1 + t) % 2 ≡ 0 = omega arith in
      rw ((only_exchange s t).0, (only_exchange (next s) t).1)
        (rw (e, f) (rw (e, f) at (backward_pairing s t h e)))
]

pub cmds_at_none : (s : PipeSchedule) (t : ℕ) → ¬ (t < total_steps s) → cmds_at s t ≡ []
unfolding cmds_at
cmds_at_none s t h = rw (steps_lem s, get_elem?-tabulate-none (total_steps s) 0 t (train_step s) h)

total_steps-next : (s : PipeSchedule) → total_steps (next s) ≡ total_steps s
unfolding total_steps
total_steps-next s = refl

-- At every step of a schedule the messages that a stage sends to the next stage, or awaits from it,
-- are those that the next stage awaits from it or sends to it, with the same micro-batches and in
-- the same order, activations and gradients alike. (No condition but that there is a next stage.)
pub pairing :
    (s : PipeSchedule) (t : ℕ)
    → s.stage_id + 1 < s.stages
    → partners (cmds_at s t) ≡ upstream (cmds_at (next s) t)
pairing s t h = elim (dec_lt t (total_steps s)) [
  | yes l ↦
      rw (cmds_at_lem s t l, cmds_at_lem (next s) t (rw (total_steps-next s) l))
        (step_pairing s t h)
  | no g ↦ rw (cmds_at_none s t g, cmds_at_none (next s) t (rw (total_steps-next s) g))
]
