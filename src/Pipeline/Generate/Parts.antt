-- ===== src/Pipeline/Generate/Parts.antt =====
-- The instructions of a step of `GenerateSchedule`, kind by kind.
use rea_lhf.Base.{
  Bool, List, Option, [], ap, arith, dec_lt, false, get_elem?, get_elem?-tabulate-none,
  get_elem?-tabulate_zero, if◌then◌else◌, leb, ltb, lt→ltb, none, not, refl, suc, tabulate, true,
  when, zero, ℕ, ◌%◌, ◌&&◌, ◌++◌, ◌+◌, ◌-◌, ◌/◌, ◌<◌, ◌||◌, ◌∙◌, ◌∷◌, ◌≡◌,
}
use rea_lhf.Base.Int.{negsuc, pos, ℤ}
use rea_lhf.Pipeline.Channels.{cmds_of, next}
use rea_lhf.Pipeline.Generate.{
  GenerateSchedule, PipeInstruction, Step, exchange, forward_pass, instr, is_even, is_first_stage,
  is_last_stage, last_stage_last_mbid, max_steps, micro_batch_id, next_tokens, period,
  recv_activation, recv_next_tokens, round_robin, send_activation, send_next_tokens, step_at, steps,
  steps_from, token_id, valid, valid_micro_batch,
}
use rea_lhf.Pipeline.Instruction.{Name, name_eq}

-- The ids of the step before.
abbrev pub before : (ℕ → ℤ) → ℕ → ℤ
before f zero = negsuc 0
before f (suc t) = f t

abbrev pub generate_step : GenerateSchedule → ℕ → Step
generate_step s t = step_at s t (before (micro_batch_id s) t) (before (token_id s) t)

steps_from_lem :
    (s : GenerateSchedule) (n t : ℕ)
    → steps_from s n t (before (micro_batch_id s) t) (before (token_id s) t)
      ≡ tabulate n t (generate_step s)
unfolding steps_from
steps_from_lem s zero t = refl
steps_from_lem s (suc n) t =
    let e : t + 1 ≡ suc t = omega arith in
    rw e (ap (λ xs. generate_step s t ∷ xs) (steps_from_lem s n (suc t)))

pub cmds_at : GenerateSchedule → ℕ → List PipeInstruction
cmds_at s t = cmds_of (get_elem? (steps s) t)

ltb_of_not_lt : (a b : ℕ) → ¬ (a < b) → ltb a b ≡ false
ltb_of_not_lt a b h = ground arith

cmds_of-none :
    (o : Option Step) (c : List PipeInstruction) → o ≡ none → cmds_of o ≡ (if false then c else [])
cmds_of-none o c e = rw e

pub cmds_at_cases :
    (s : GenerateSchedule) (t : ℕ)
    → cmds_at s t ≡ (if ltb t (max_steps s) then (generate_step s t).cmds else [])
unfolding cmds_at steps
cmds_at_cases s t =
    let c = (generate_step s t).cmds in
    rw (steps_from_lem s (max_steps s) 0) (elim (dec_lt t (max_steps s)) [
      | yes l ↦ rw (get_elem?-tabulate_zero (max_steps s) t (generate_step s) l, lt→ltb _ _ l)
      | no g ↦
          rw (ltb_of_not_lt t (max_steps s) g)
            (cmds_of-none _ c (get_elem?-tabulate-none (max_steps s) 0 t (generate_step s) g))
    ])

-- The micro-batches of the instructions with a name.
abbrev pub batches : Name → List PipeInstruction → List ℤ
batches n [] = []
batches n (i ∷ is) = if name_eq i.name n then i.micro_batch_id ∷ batches n is else batches n is

-- The micro-batches and the step ids of the instructions with a name.
abbrev pub works : Name → List PipeInstruction → List (ℤ × ℤ)
works n [] = []
works n (i ∷ is) =
    if name_eq i.name n then (i.micro_batch_id, i.step_id) ∷ works n is else works n is

abbrev pub next_stage_of : GenerateSchedule → GenerateSchedule
next_stage_of s = record s { base = next s.base }

-- Whether the stage that starts at step `start` works at step `t`.
abbrev pub active : GenerateSchedule → ℕ → ℕ → Bool
active s start t =
    leb start t
    && ltb ((t - start) % period s) s.base.micro_batches
    && ltb ((t - start) / period s) s.max_new_tokens

now_active :
    (s : GenerateSchedule) (t : ℕ)
    → valid s (micro_batch_id s t) (token_id s t) ≡ active s s.base.stage_id t
unfolding micro_batch_id token_id
now_active s t = elim (dec_lt t s.base.stage_id) [
  | yes l ↦ let f : leb s.base.stage_id t ≡ false = ground (arith, l) in rw f
  | no g ↦
      let f : leb s.base.stage_id t ≡ true = ground (arith, g) in
      rw f (reading ((t - s.base.stage_id) % period s) ((t - s.base.stage_id) / period s))
]
  where
    reading :
        (b k : ℕ) → valid s (pos b) (pos k) ≡ (ltb b s.base.micro_batches && ltb k s.max_new_tokens)
    reading b k = ground arith

shifted : (i t : ℕ) → (leb (i + 1) (suc t) ≡ leb i t) × (suc t - (i + 1) ≡ t - i)
shifted i t = (ground arith, omega arith)

too_soon : (i : ℕ) → leb (i + 1) 0 ≡ false
too_soon i = ground arith

before-round_robin : (p i t : ℕ) → before (round_robin p i) t ≡ round_robin p (i + 1) t
before-round_robin p i zero = rw (too_soon i)
before-round_robin p i (suc t) = let (e, f) = shifted i t in rw (e, f)

before-micro_batch_id :
    (s : GenerateSchedule) (t : ℕ)
    → before (micro_batch_id s) t ≡ round_robin (period s) (s.base.stage_id + 1) t
unfolding micro_batch_id
before-micro_batch_id s zero = before-round_robin (period s) s.base.stage_id zero
before-micro_batch_id s (suc t) = before-round_robin (period s) s.base.stage_id (suc t)

last_active :
    (s : GenerateSchedule) (t : ℕ)
    → valid s (before (micro_batch_id s) t) (before (token_id s) t)
      ≡ active s (s.base.stage_id + 1) t
last_active s zero = rw (too_soon s.base.stage_id)
last_active s (suc t) = let (e, f) = shifted s.base.stage_id t in now_active s t ∙ rw (e, f)

-- The four kinds of exchange among the instructions of a step, and the forward pass.
pub record Parts (s : GenerateSchedule) (t : ℕ) (cmds : List PipeInstruction) : Type 0 where
  pub sends :
      batches send_activation cmds
      ≡ when
          (active s (s.base.stage_id + 1) t && not (is_last_stage s))
          (round_robin (period s) (s.base.stage_id + 1) t)
  pub receives :
      batches recv_activation cmds
      ≡ when
          (active s s.base.stage_id t && (not (is_even s.base.stage_id) || not (is_first_stage s)))
          (micro_batch_id s t)
  pub hands :
      batches send_next_tokens cmds
      ≡ when
          (is_last_stage s && active s (s.base.stage_id + 1) t)
          (round_robin (period s) (s.base.stage_id + 1) t)
  pub awaits :
      batches recv_next_tokens cmds
      ≡ when
          (is_first_stage s && valid_micro_batch s.base (last_stage_last_mbid s t))
          (last_stage_last_mbid s t)
  pub passes :
      works forward_pass cmds ≡ when (active s s.base.stage_id t) (micro_batch_id s t, token_id s t)

abbrev step_cmds :
    Bool → Bool → Bool → Bool → Bool → Bool → ℕ → ℤ → ℤ → ℤ → ℤ → ℤ → List PipeInstruction
step_cmds even x r other h a i lb lk b k m =
    (if even
      then when x (instr send_activation i lb k) ++ when (r && other) (instr recv_activation i b k)
      else when r (instr recv_activation i b k) ++ when x (instr send_activation i lb k))
    ++ ((when h (instr send_next_tokens i lb lk) ++ when a (instr recv_next_tokens i m k))
        ++ when r (instr forward_pass i b k))

split_cmds :
    (even x r other h a : Bool) (i : ℕ) (lb lk b k m : ℤ)
    → (batches send_activation (step_cmds even x r other h a i lb lk b k m) ≡ when x lb)
      × (batches recv_activation (step_cmds even x r other h a i lb lk b k m)
          ≡ when (r && (not even || other)) b)
      × (batches send_next_tokens (step_cmds even x r other h a i lb lk b k m) ≡ when h lb)
      × (batches recv_next_tokens (step_cmds even x r other h a i lb lk b k m) ≡ when a m)
      × (works forward_pass (step_cmds even x r other h a i lb lk b k m) ≡ when r (b, k))
split_cmds even x r other h a i lb lk b k m = ground arith

pub step-Parts : (s : GenerateSchedule) (t : ℕ) → Parts s t (generate_step s t).cmds
unfolding step_at exchange next_tokens
step-Parts s t =
    let i = s.base.stage_id in
    let (x, r, h, a, f) =
      split_cmds (is_even i) (active s (i + 1) t && not (is_last_stage s)) (active s i t)
        (not (is_first_stage s)) (is_last_stage s && active s (i + 1) t)
        (is_first_stage s && valid_micro_batch s.base (last_stage_last_mbid s t)) i
        (round_robin (period s) (i + 1) t) (before (token_id s) t) (micro_batch_id s t)
        (token_id s t) (last_stage_last_mbid s t) in
    rw (last_active s t, now_active s t, before-micro_batch_id s t)
      (record { sends = x; receives = r; hands = h; awaits = a; passes = f })
