-- ===== src/Pipeline/Train/Ids.antt =====
-- The steps of `TrainSchedule` in closed form: the micro-batch of a step, and its instructions.
use native.Mathlib.Numerals.{add-one}
use rea_lhf.Base.{
  Bool, Option, arith, false, if◌then◌else◌, inl, inr, parity, refl, some, suc, tabulate, true,
  zero, ℕ, ◌%◌, ◌+◌, ◌/◌, ◌==◌, ◌≡◌,
}
use rea_lhf.Base.Int.{negsuc, sub_ℕ, ℤ}
use rea_lhf.Pipeline.Schedule.{PipeSchedule, Step}
use rea_lhf.Pipeline.Train.{step_at, step_to_micro_batch, steps, steps_from, total_steps}

-- Stage and step have the same parity.
abbrev pub is_forward : PipeSchedule → ℕ → Bool
is_forward s t = (s.stage_id + t) % 2 == 0

-- A forward pass of `b` stands at step 2 b + stage, its backward pass at 2 b + 2 stages - 1 - stage.
abbrev pub micro_batch : PipeSchedule → ℕ → ℤ
micro_batch s t =
    if is_forward s t
    then sub_ℕ ((t + s.stage_id % 2) / 2) ((s.stage_id + 1) / 2)
    else sub_ℕ ((t + s.stage_id + 1) / 2) s.stages

-- What `prev_micro_batch_id` holds at step `t`.
abbrev pub prev_micro_batch : PipeSchedule → ℕ → ℤ
prev_micro_batch s zero = negsuc 0
prev_micro_batch s (suc t) = micro_batch s t

sub_pair :
    {a b c d : ℕ} (x : Bool)
    → a ≡ c
    → b ≡ d
    → ◌≡◌ {A = Option (ℤ × Bool)} (some (sub_ℕ a b, x)) (some (sub_ℕ c d, x))
sub_pair x p q = λ i. some (sub_ℕ (p i) (q i), x)

pub micro_batch_forward :
    (s : PipeSchedule) (t : ℕ)
    → (s.stage_id + t) % 2 ≡ 0
    → micro_batch s t ≡ sub_ℕ ((t + s.stage_id % 2) / 2) ((s.stage_id + 1) / 2)
micro_batch_forward s t e = rw e

pub micro_batch_backward :
    (s : PipeSchedule) (t : ℕ)
    → (s.stage_id + t) % 2 ≡ 1
    → micro_batch s t ≡ sub_ℕ ((t + s.stage_id + 1) / 2) s.stages
micro_batch_backward s t e = rw e

-- The assertion of `_step_to_micro_batch` never fails, and the four cases are these two.
pub step_to_micro_batch_lem :
    (s : PipeSchedule) (t : ℕ) → step_to_micro_batch s t ≡ some (micro_batch s t, is_forward s t)
unfolding step_to_micro_batch
step_to_micro_batch_lem s t = elim (parity t) [
  | inl e ↦ elim (parity s.stage_id) [
    | inl d ↦
        let f : (s.stage_id + t) % 2 ≡ 0 = omega arith in
        rw (e, d, f) (sub_pair true (omega arith) (omega arith))
    | inr d ↦
        let f : (s.stage_id + t) % 2 ≡ 1 = omega arith in
        rw (e, d, f) (sub_pair false (omega arith) (omega arith))
  ]
  | inr e ↦ elim (parity s.stage_id) [
    | inl d ↦
        let f : (s.stage_id + t) % 2 ≡ 1 = omega arith in
        rw (e, d, f) (sub_pair false (omega arith) (omega arith))
    | inr d ↦
        let f : (s.stage_id + t) % 2 ≡ 0 = omega arith in
        rw (e, d, f) (sub_pair true (omega arith) (omega arith))
  ]
]

abbrev pub train_step : PipeSchedule → ℕ → Step
train_step s t = step_at s t (prev_micro_batch s t) (micro_batch s t) (is_forward s t)

steps_from_lem :
    (s : PipeSchedule) (n t : ℕ)
    → steps_from s n t (prev_micro_batch s t) ≡ some (tabulate n t (train_step s))
unfolding steps_from
steps_from_lem s zero t = refl
steps_from_lem s (suc n) t = rw (step_to_micro_batch_lem s t, add-one t, steps_from_lem s n (suc t))

-- No step of a training schedule fails its assertion: the schedule is the list of all its steps. Step
-- `t` of a stage is a forward pass where `t` has the parity of the stage, else a backward pass, and it is
-- for the micro-batch that the inverse of 2 b + stage, or of 2 b + 2 stages - 1 - stage, gives.
pub steps_lem : (s : PipeSchedule) → steps s ≡ some (tabulate (total_steps s) 0 (train_step s))
unfolding steps
steps_lem s = steps_from_lem s (total_steps s) 0
