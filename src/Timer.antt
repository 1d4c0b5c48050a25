-- ===== src/Timer.antt =====
-- realhf/base/timeutil.py, `FrequencyControl` and `EpochStepTimeFreqCtl`. A call gets the clock's
-- reading `now` as an argument; the clock never goes back, so the intervals are natural numbers.
pub mod Spacing
mod Examples
use rea_lhf.Base.{
  Bool, Option, false, if◌then◌else◌, ltb, none, some, true, ℕ, ◌&&◌, ◌+◌, ◌-◌, ◌||◌,
}

pub record FrequencyControl : Type 0 where
  pub frequency_seconds : Option ℕ
  pub frequency_steps : Option ℕ
  pub start_time : ℕ
  pub steps : ℕ
  pub last_time : ℕ
  pub last_steps : ℕ
  pub interval_seconds : Option ℕ
  pub interval_steps : Option ℕ
  pub initial_value : Bool

-- `__init__`
abbrev pub frequency_control : ℕ → Option ℕ → Option ℕ → Bool → FrequencyControl
frequency_control now seconds steps initial = record {
  frequency_seconds = seconds;
  frequency_steps = steps;
  start_time = now;
  steps = 0;
  last_time = now;
  last_steps = 0;
  interval_seconds = none;
  interval_steps = none;
  initial_value = initial;
}

abbrev pub is_none : Option ℕ → Bool
is_none none = true
is_none (some f) = false

-- `frequency is not None and interval < frequency`
abbrev pub too_early : Option ℕ → ℕ → Bool
too_early none interval = false
too_early (some f) interval = ltb interval f

abbrev pub trigger : ℕ → FrequencyControl → FrequencyControl
trigger now c = record c { last_time = now; last_steps = c.steps }

unfoldable pub check : ℕ → ℕ → FrequencyControl → Bool × FrequencyControl
check now steps c =
    let counted = record c { steps = c.steps + steps } in
    if c.initial_value
    then (true, record (trigger now counted) { initial_value = false })
    else (let seconds = now - c.last_time in
        let since = counted.steps - c.last_steps in
        let measured = record counted {
          interval_seconds = some seconds;
          interval_steps = some since;
        } in
        if is_none c.frequency_steps && is_none c.frequency_seconds
        then (false, measured)
        else if too_early c.frequency_seconds seconds
        then (false, measured)
        else if too_early c.frequency_steps since
        then (false, measured)
        else (true, trigger now measured))

unfoldable pub reset_time : ℕ → FrequencyControl → FrequencyControl
reset_time now c = record c { last_time = now }

pub record EpochStepTimeFreqCtl : Type 0 where
  pub epoch_ctl : FrequencyControl
  pub step_ctl : FrequencyControl
  pub time_ctl : FrequencyControl

-- `__post_init__`
abbrev pub epoch_step_time : ℕ → Option ℕ → Option ℕ → Option ℕ → EpochStepTimeFreqCtl
epoch_step_time now freq_epoch freq_step freq_sec = record {
  epoch_ctl = frequency_control now none freq_epoch false;
  step_ctl = frequency_control now none freq_step false;
  time_ctl = frequency_control now freq_sec none false;
}

-- All three are checked, so that each counts, whatever the others say. Each reads the clock itself;
-- one reading stands for the three.
unfoldable pub check_any : ℕ → ℕ → ℕ → EpochStepTimeFreqCtl → Bool × EpochStepTimeFreqCtl
unfolding check
check_any now epochs steps c =
    let (x, e) = check now epochs c.epoch_ctl in
    let (y, s) = check now steps c.step_ctl in
    let (z, t) = check now 1 c.time_ctl in
    (x || y || z, record { epoch_ctl = e; step_ctl = s; time_ctl = t })
