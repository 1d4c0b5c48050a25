-- ===== src/Pipeline/Generate/Tokens.antt =====
-- The stages of `GenerateSchedule` agree, and every token of every micro-batch is made once.
use native.Mathlib.Nat.{div-eq_of_eq-mul_left, div-lt_iff_lt-mul, mul-mod_left}
use rea_lhf.Base.{
  Bool, Bool-cases, [], ap, arith, dec_lt, false, inl, inr, leb, ltb, ltb→lt, lt→ltb, not, refl,
  suc, sym, true, when, zero, ℕ, ◌%◌, ◌&&◌, ◌*◌, ◌+◌, ◌-◌, ◌/◌, ◌<◌, ◌||◌, ◌∙◌, ◌∷◌, ◌≡◌, ◌≤◌,
}
use rea_lhf.Base.Int.{pos, ℤ}
use rea_lhf.Pipeline.Generate.{
  GenerateSchedule, is_even, is_first_stage, is_last_stage, last_stage_last_mbid, max_steps,
  micro_batch_id, period, recv_activation, recv_next_tokens, round_robin, send_activation,
  send_next_tokens, valid_micro_batch,
}
use rea_lhf.Pipeline.Generate.Parts.{
  active, batches, cmds_at, cmds_at_cases, generate_step, next_stage_of, step-Parts,
}

abbrev pub IsLast : GenerateSchedule → Type 0
IsLast s = s.base.stage_id + 1 ≡ s.base.stages

-- The same schedule at the first stage.
abbrev pub first_stage_of : GenerateSchedule → GenerateSchedule
first_stage_of s = record s { base = record s.base { stage_id = 0 } }

max_steps-next : (s : GenerateSchedule) → max_steps (next_stage_of s) ≡ max_steps s
unfolding max_steps
max_steps-next s = refl

max_steps-first : (s : GenerateSchedule) → max_steps (first_stage_of s) ≡ max_steps s
unfolding max_steps
max_steps-first s = refl

sends_all :
    (s : GenerateSchedule) (a : Bool) (x : ℤ)
    → s.base.stage_id + 1 < s.base.stages
    → when (a && not (is_last_stage s)) x ≡ when a x
sends_all s a x h = ground arith

receives_all :
    (s : GenerateSchedule) (a e : Bool) (x : ℤ)
    → when (a && (not e || not (is_first_stage (next_stage_of s)))) x ≡ when a x
receives_all s a e x = ground arith

hands_all :
    (s : GenerateSchedule) (a : Bool) (x : ℤ) → IsLast s → when (is_last_stage s && a) x ≡ when a x
hands_all s a x h = ground arith

micro_batch_next :
    (s : GenerateSchedule) (t : ℕ)
    → micro_batch_id (next_stage_of s) t ≡ round_robin (period s) (s.base.stage_id + 1) t
unfolding micro_batch_id
micro_batch_next s t = refl

last_mbid :
    (s : GenerateSchedule) (t : ℕ)
    → last_stage_last_mbid (first_stage_of s) t ≡ round_robin (period s) s.base.stages t
unfolding last_stage_last_mbid
last_mbid s t = refl

awaited :
    (s : GenerateSchedule) (t : ℕ)
    → (s.base.stages ≤ t → t - s.base.stages < s.max_new_tokens * period s)
    → valid_micro_batch s.base (round_robin (period s) s.base.stages t) ≡ active s s.base.stages t
awaited s t h = elim (dec_lt t s.base.stages) [
  | yes l ↦ let f : leb s.base.stages t ≡ false = ground (arith, l) in rw f
  | no g ↦
      let f : leb s.base.stages t ≡ true = ground (arith, g) in
      let k =
        (div-lt_iff_lt-mul (pos_of_lt s.max_new_tokens (period s) _ (h (omega arith)))).1
          (h (omega arith)) in
      rw f (reading ((t - s.base.stages) % period s) ((t - s.base.stages) / period s) k)
]
  where
    pos_of_lt : (a b c : ℕ) → c < a * b → 0 < b
    pos_of_lt a zero c h = omega arith
    pos_of_lt a (suc b) c h = omega arith

    reading :
        (b k : ℕ)
        → k < s.max_new_tokens
        → valid_micro_batch s.base (pos b) ≡ (ltb b s.base.micro_batches && ltb k s.max_new_tokens)
    reading b k h = ground arith

step_pairing :
    (s : GenerateSchedule) (t : ℕ)
    → s.base.stage_id + 1 < s.base.stages
    → batches send_activation (generate_step s t).cmds
      ≡ batches recv_activation (generate_step (next_stage_of s) t).cmds
step_pairing s t h =
    let n = next_stage_of s in
    (step-Parts s t).sends
    ∙ sends_all s (active s (s.base.stage_id + 1) t) _ h
    ∙ sym (
        (step-Parts n t).receives
        ∙ receives_all s (active n n.base.stage_id t) (is_even n.base.stage_id) (micro_batch_id n t)
        ∙ ap (when (active s (s.base.stage_id + 1) t)) (micro_batch_next s t))

-- At every step of a generate schedule the micro-batches whose activations a stage sends to the next
-- stage are those that the next stage receives.
pub generate_pairing :
    (s : GenerateSchedule) (t : ℕ)
    → s.base.stage_id + 1 < s.base.stages
    → batches send_activation (cmds_at s t) ≡ batches recv_activation (cmds_at (next_stage_of s) t)
generate_pairing s t h =
    rw (cmds_at_cases s t, cmds_at_cases (next_stage_of s) t, max_steps-next s)
      (elim (Bool-cases (ltb t (max_steps s))) [ inl e ↦ rw e (step_pairing s t h) | inr e ↦ rw e ])

hands_step :
    (s : GenerateSchedule) (t : ℕ)
    → IsLast s
    → batches send_next_tokens (generate_step s t).cmds
      ≡ when (active s s.base.stages t) (round_robin (period s) s.base.stages t)
hands_step s t last =
    (step-Parts s t).hands ∙ hands_all s (active s (s.base.stage_id + 1) t) _ last ∙ rw last

awaits_step :
    (s : GenerateSchedule) (t : ℕ)
    → batches recv_next_tokens (generate_step (first_stage_of s) t).cmds
      ≡ when
          (valid_micro_batch s.base (round_robin (period s) s.base.stages t))
          (round_robin (period s) s.base.stages t)
awaits_step s t = (step-Parts (first_stage_of s) t).awaits ∙ rw (last_mbid s t)

max_steps-eq :
    (s : GenerateSchedule) → max_steps s ≡ s.max_new_tokens * period s + s.base.micro_batches - 1
unfolding max_steps
max_steps-eq s = refl

-- With at most one micro-batch more than stages, the last stage hands the tokens of a micro-batch over
-- at exactly the steps at which the first stage awaits them.
pub tokens_pairing :
    (s : GenerateSchedule) (t : ℕ)
    → IsLast s
    → s.base.micro_batches ≤ s.base.stages + 1
    → batches send_next_tokens (cmds_at s t)
      ≡ batches recv_next_tokens (cmds_at (first_stage_of s) t)
tokens_pairing s t last h =
    rw (cmds_at_cases s t, cmds_at_cases (first_stage_of s) t, max_steps-first s)
      (elim (Bool-cases (ltb t (max_steps s))) [
        | inl e ↦ rw e (hands_step s t last ∙ sym (awaits_step s t ∙ rw (awaited s t (early e))))
        | inr e ↦ rw e
      ])
  where
    early :
        ltb t (max_steps s) ≡ true
        → s.base.stages ≤ t
        → t - s.base.stages < s.max_new_tokens * period s
    early e l = omega (arith, h, max_steps-eq s, ltb→lt t _ e)

all_made :
    (k p start m : ℕ)
    → 0 < p
    → (leb start (k * p + start)
        && ltb ((k * p + start - start) % p) m
        && ltb ((k * p + start - start) / p) k)
      ≡ false
all_made k p start m h =
    let e : k * p + start - start ≡ k * p = omega arith in
    let f : k * p / p ≡ k = div-eq_of_eq-mul_left h refl in
    rw (e, f) (last_false (leb start (k * p + start)) (ltb (k * p % p) m) k)
  where
    last_false : (a b : Bool) (k : ℕ) → (a && b && ltb k k) ≡ false
    last_false a b k = ground arith

wrapped : (k p start : ℕ) → round_robin p start (k * p + start) ≡ pos 0
wrapped k p start =
    let e : k * p + start - start ≡ k * p = omega arith in
    let f : leb start (k * p + start) ≡ true = ground arith in rw (f, e, mul-mod_left k p)

first_valid :
    (s : GenerateSchedule)
    → s.base.stages + 1 < s.base.micro_batches
    → when (valid_micro_batch s.base (pos 0)) (pos 0) ≡ pos 0 ∷ []
first_valid s h = ground arith

-- With more than one micro-batch more than stages, the first stage still awaits the tokens of the first micro-batch
-- at a step at which the last stage has made all its tokens and hands none over.
pub tokens_unmatched :
    (s : GenerateSchedule)
    → IsLast s
    → s.base.stages + 1 < s.base.micro_batches
    → let t = s.max_new_tokens * period s + s.base.stages in
      (batches send_next_tokens (cmds_at s t) ≡ [])
      × (batches recv_next_tokens (cmds_at (first_stage_of s) t) ≡ pos 0 ∷ [])
tokens_unmatched s last h =
    let t = s.max_new_tokens * period s + s.base.stages in
    let e : ltb t (max_steps s) ≡ true = lt→ltb t _ (omega (arith, max_steps-eq s)) in
    (
      rw (cmds_at_cases s t, e)
          (hands_step s t last
            ∙ rw (
                all_made s.max_new_tokens (period s) s.base.stages s.base.micro_batches
                  (omega (arith, h)))),
      rw (cmds_at_cases (first_stage_of s) t, max_steps-first s, e)
          (awaits_step s t
            ∙ rw (wrapped s.max_new_tokens (period s) s.base.stages) (first_valid s h)),
    )
