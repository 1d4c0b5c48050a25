-- ===== src/Timer/Spacing.antt =====
-- When realhf/base/timeutil.py's `FrequencyControl` triggers.
use rea_lhf.Base.{
  Bool, Bool-cases, List, Option, [], all, arith, false, if◌then◌else◌, inl, inr, none, not, refl,
  some, sum_by, sym, true, ℕ, ◌&&◌, ◌+◌, ◌-◌, ◌↔◌, ◌∙◌, ◌∷◌, ◌≡◌, ◌≤◌,
}
use rea_lhf.Timer.{FrequencyControl, check, is_none, too_early, trigger}

-- Calls of `check`, with the clock's reading and the number of steps.
abbrev pub run : List (ℕ × ℕ) → FrequencyControl → List Bool × FrequencyControl
run [] c = ([], c)
run ((now, n) ∷ calls) c = let r = check now n c in let s = run calls r.1 in (r.0 ∷ s.0, s.1)

abbrev pub steps_in : List (ℕ × ℕ) → ℕ
steps_in calls = sum_by (λ (now, n). n) calls

-- The tests of `check` after the first call.
abbrev due : FrequencyControl → ℕ → ℕ → Bool
due c seconds since =
    not (is_none c.frequency_steps && is_none c.frequency_seconds)
    && not (too_early c.frequency_seconds seconds)
    && not (too_early c.frequency_steps since)

abbrev measure : ℕ → ℕ → FrequencyControl → FrequencyControl
measure now n c = record c {
  steps = c.steps + n;
  interval_seconds = some (now - c.last_time);
  interval_steps = some (c.steps + n - c.last_steps);
}

abbrev choice : FrequencyControl → FrequencyControl → Bool → Bool × FrequencyControl
choice x y true = (true, x)
choice x y false = (false, y)

three_tests :
    (a b c : Bool) (x y : FrequencyControl)
    → (if a then (false, x) else if b then (false, x) else if c then (false, x) else (true, y))
      ≡ choice y x (not a && not b && not c)
three_tests true b c x y = refl
three_tests false true c x y = refl
three_tests false false true x y = refl
three_tests false false false x y = refl

if-false : {A : Type 0} (b : Bool) (x : A) {y : A} → b ≡ false → (if b then x else y) ≡ y
if-false b x e = rw e

if-true : {A : Type 0} (b : Bool) {x : A} (y : A) → b ≡ true → (if b then x else y) ≡ x
if-true b y e = rw e

check-due :
    (now n : ℕ) (c : FrequencyControl)
    → c.initial_value ≡ false
    → check now n c
      ≡ choice
          (trigger now (measure now n c))
          (measure now n c)
          (due c (now - c.last_time) (c.steps + n - c.last_steps))
unfolding check
check-due now n c h =
    if-false c.initial_value _ h
    ∙ three_tests (is_none c.frequency_steps && is_none c.frequency_seconds)
        (too_early c.frequency_seconds (now - c.last_time))
        (too_early c.frequency_steps (c.steps + n - c.last_steps)) (measure now n c)
        (trigger now (measure now n c))

abbrev first_trigger : ℕ → ℕ → FrequencyControl → FrequencyControl
first_trigger now n c = record c {
  steps = c.steps + n;
  last_time = now;
  last_steps = c.steps + n;
  initial_value = false;
}

check-first :
    (now n : ℕ) (c : FrequencyControl)
    → c.initial_value ≡ true
    → check now n c ≡ (true, first_trigger now n c)
unfolding check
check-first now n c h = if-true c.initial_value _ h

-- What calls that do not trigger leave as it is.
record Quiet (c d : FrequencyControl) (n : ℕ) : Type 0 where
  pub seconds : d.frequency_seconds ≡ c.frequency_seconds
  pub steps : d.frequency_steps ≡ c.frequency_steps
  pub time : d.last_time ≡ c.last_time
  pub last : d.last_steps ≡ c.last_steps
  pub count : d.steps ≡ c.steps + n
  pub initial : d.initial_value ≡ false

choice-flag : (x y : FrequencyControl) (b : Bool) → (choice x y b).0 ≡ b
choice-flag x y true = refl
choice-flag x y false = refl

choice-false : (x y : FrequencyControl) (b : Bool) → b ≡ false → (choice x y b).1 ≡ y
choice-false x y b e = rw e

choice-true : (x y : FrequencyControl) (b : Bool) → b ≡ true → (choice x y b).1 ≡ x
choice-true x y b e = rw e

check-flag :
    (now n : ℕ) (c : FrequencyControl)
    → c.initial_value ≡ false
    → (check now n c).0 ≡ due c (now - c.last_time) (c.steps + n - c.last_steps)
check-flag now n c h = rw (check-due now n c h) (choice-flag _ _ _)

check-Quiet :
    (now n : ℕ) (c d : FrequencyControl) (m : ℕ)
    → Quiet c d m
    → (check now n d).0 ≡ false
    → Quiet c (check now n d).1 (m + n)
check-Quiet now n c d m q e =
    rw (check-due now n d q.initial, choice-false _ _ _ (sym (check-flag now n d q.initial) ∙ e))
      (record {
        seconds = q.seconds;
        steps = q.steps;
        time = q.time;
        last = q.last;
        count = omega (arith, q.count);
        initial = q.initial;
      })

run-Quiet :
    (calls : List (ℕ × ℕ)) (c d : FrequencyControl) (m : ℕ)
    → Quiet c d m
    → all not (run calls d).0 ≡ true
    → Quiet c (run calls d).1 (m + steps_in calls)
run-Quiet [] c d m q e = let z : m + 0 ≡ m = omega arith in rw z q
run-Quiet ((now, n) ∷ calls) c d m q e =
    let z : m + (n + steps_in calls) ≡ m + n + steps_in calls = omega arith in
    let (x, y) : ((check now n d).0 ≡ false) × (all not (run calls (check now n d).1).0 ≡ true) =
      ground (arith, e) in
    rw z (run-Quiet calls c (check now n d).1 (m + n) (check-Quiet now n c d m q x) y)

-- A control that has just triggered at `start`.
record Fresh (c d : FrequencyControl) (start : ℕ) : Type 0 where
  pub seconds : d.frequency_seconds ≡ c.frequency_seconds
  pub steps : d.frequency_steps ≡ c.frequency_steps
  pub time : d.last_time ≡ start
  pub last : d.last_steps ≡ d.steps
  pub initial : d.initial_value ≡ false

check-Fresh :
    (now n : ℕ) (c : FrequencyControl) → (check now n c).0 ≡ true → Fresh c (check now n c).1 now
check-Fresh now n c e = elim (Bool-cases c.initial_value) [
  | inl h ↦
      rw (check-first now n c h)
        (record { seconds = refl; steps = refl; time = refl; last = refl; initial = refl })
  | inr h ↦
      rw (check-due now n c h, choice-true _ _ _ (sym (check-flag now n c h) ∙ e))
        (record { seconds = refl; steps = refl; time = refl; last = refl; initial = h })
]

-- The condition, in terms of the frequencies that are given.
abbrev pub Given : Option ℕ → Option ℕ → Type 0
Given none none = ⊥
Given none (some f) = Unit
Given (some f) seconds = Unit

abbrev pub Reached : Option ℕ → ℕ → Type 0
Reached none interval = Unit
Reached (some f) interval = f ≤ interval

due_iff :
    (c : FrequencyControl) (seconds since : ℕ)
    → (due c seconds since ≡ true) ↔ (
        Given c.frequency_steps c.frequency_seconds
        × Reached c.frequency_seconds seconds
        × Reached c.frequency_steps since)
due_iff c seconds since = tests c.frequency_steps c.frequency_seconds
  where
    tests :
        (steps secs : Option ℕ)
        → ((not (is_none steps && is_none secs)
              && not (too_early secs seconds)
              && not (too_early steps since))
            ≡ true)
          ↔ (Given steps secs × Reached secs seconds × Reached steps since)
    tests none none = (λ e. cc, λ h. absurd h.0)
    tests none (some f) = ground arith
    tests (some f) none = ground arith
    tests (some f) (some g) = ground arith

trigger_due :
    (start first now n : ℕ) (calls : List (ℕ × ℕ)) (c : FrequencyControl)
    → (check start first c).0 ≡ true
    → all not (run calls (check start first c).1).0 ≡ true
    → (check now n (run calls (check start first c).1).1).0
      ≡ due c (now - start) (steps_in calls + n)
trigger_due start first now n calls c h q =
    let d = (check start first c).1 in
    let f = check-Fresh start first c h in
    let none_yet : Quiet d d 0 = record {
      seconds = refl;
      steps = refl;
      time = refl;
      last = refl;
      count = omega arith;
      initial = f.initial;
    } in
    let r = run-Quiet calls d d 0 none_yet q in
    let e = (run calls d).1 in
    let since : e.steps + n - e.last_steps ≡ steps_in calls + n =
      omega (arith, r.count, r.last, f.last) in
    check-flag now n e r.initial
    ∙ rw (since, r.time, f.time, r.seconds, f.seconds, r.steps, f.steps)

-- Once `check` has triggered at time `start`, and some further calls have not, the next call triggers
-- if and only if a frequency is given, the time since `start` is not less than the frequency in
-- seconds, if that is given, and the number of steps since then is not less than the frequency in
-- steps, if that is given.
pub trigger_iff :
    (start first now n : ℕ) (calls : List (ℕ × ℕ)) (c : FrequencyControl)
    → (check start first c).0 ≡ true
    → all not (run calls (check start first c).1).0 ≡ true
    → ((check now n (run calls (check start first c).1).1).0 ≡ true) ↔ (
        Given c.frequency_steps c.frequency_seconds
        × Reached c.frequency_seconds (now - start)
        × Reached c.frequency_steps (steps_in calls + n))
trigger_iff start first now n calls c h q =
    rw (trigger_due start first now n calls c h q) (due_iff c (now - start) (steps_in calls + n))
