-- ===== src/Pipeline/Channels.antt =====
-- How the instructions of a step are read: the two ends of the channel between a stage and the next
-- one, and how often an instruction occurs. `PipeInstruction` calls the send
-- and the receive that belong together bound instructions.
use mathlib.Core.List.{append_assoc}
use rea_lhf.Base.{
  List, Option, [], arith, if◌then◌else◌, none, refl, some, sym, true, ℕ, ◌&&◌, ◌++◌, ◌+◌, ◌<◌, ◌∷◌,
  ◌≡◌,
}
use rea_lhf.Base.Int.{pos}
use rea_lhf.Pipeline.Instruction.{
  Name, PipeInstruction, instr, int_eq, name_eq, recv_activation, send_grad,
}
use rea_lhf.Pipeline.Schedule.{PipeSchedule, Step, next_stage, prev_stage, valid_stage}

-- What the next stage has to do at the same time: an instruction of it for each instruction here
-- that sends to the next stage or receives from it.
abbrev pub partner : PipeInstruction → List PipeInstruction
partner i = elim i.name [
  | Name.send_activation ↦ instr recv_activation (i.stage_id + 1) i.micro_batch_id i.step_id ∷ []
  | Name.recv_grad ↦ instr send_grad (i.stage_id + 1) i.micro_batch_id i.step_id ∷ []
  | _ ↦ []
]

-- The instruction itself, if it sends to the stage before or receives from it.
abbrev pub to_previous : PipeInstruction → List PipeInstruction
to_previous i = elim i.name [ Name.recv_activation ↦ i ∷ [] | Name.send_grad ↦ i ∷ [] | _ ↦ [] ]

abbrev pub partners : List PipeInstruction → List PipeInstruction
partners [] = []
partners (i ∷ is) = partner i ++ partners is

abbrev pub upstream : List PipeInstruction → List PipeInstruction
upstream [] = []
upstream (i ∷ is) = to_previous i ++ upstream is

pub partners-append :
    (xs ys : List PipeInstruction) → partners (xs ++ ys) ≡ partners xs ++ partners ys
partners-append [] ys = refl
partners-append (x ∷ xs) ys =
    rw (partners-append xs ys) (sym (append_assoc (partner x) (partners xs) (partners ys)))

pub upstream-append :
    (xs ys : List PipeInstruction) → upstream (xs ++ ys) ≡ upstream xs ++ upstream ys
upstream-append [] ys = refl
upstream-append (x ∷ xs) ys =
    rw (upstream-append xs ys) (sym (append_assoc (to_previous x) (upstream xs) (upstream ys)))

abbrev pub next : PipeSchedule → PipeSchedule
next s = record s { stage_id = s.stage_id + 1 }

-- The instructions that stage `s` runs at step `t`: none after the last step.
abbrev pub cmds_of : Option Step → List PipeInstruction
cmds_of none = []
cmds_of (some x) = x.cmds

abbrev pub hits : Name → ℕ → PipeInstruction → ℕ
hits n b i = if name_eq i.name n && int_eq i.micro_batch_id (pos b) then 1 else 0

-- How often a list of instructions holds the instruction `n` for micro-batch `b`.
abbrev pub occurrences : Name → ℕ → List PipeInstruction → ℕ
occurrences n b [] = 0
occurrences n b (i ∷ is) = hits n b i + occurrences n b is

pub occurrences-append :
    (n : Name) (b : ℕ) (xs ys : List PipeInstruction)
    → occurrences n b (xs ++ ys) ≡ occurrences n b xs + occurrences n b ys
occurrences-append n b [] ys = omega arith
occurrences-append n b (x ∷ xs) ys = omega (arith, occurrences-append n b xs ys)

pub next_valid :
    (s : PipeSchedule) → s.stage_id + 1 < s.stages → valid_stage s (next_stage s) ≡ true
next_valid s h = ground arith

pub prev_valid :
    (s : PipeSchedule)
    → s.stage_id + 1 < s.stages
    → valid_stage (next s) (prev_stage (next s)) ≡ true
prev_valid s h = ground arith
