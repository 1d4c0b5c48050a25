-- ===== src/Timer/Examples.antt =====
-- A control with both frequencies, and a call that comes too early.
use rea_lhf.Base.{[], all, not, refl, some, true, ◌+◌, ◌-◌, ◌↔◌, ◌∷◌, ◌≡◌, ◌≤◌}
use rea_lhf.Timer.{FrequencyControl, check, frequency_control}
use rea_lhf.Timer.Spacing.{Given, run, steps_in, trigger_iff}

abbrev every_ten : FrequencyControl
every_ten = frequency_control 0 (some 10) (some 3) true

first_triggers : (check 1 1 every_ten).0 ≡ true
unfolding check
first_triggers = refl

then_waits : all not (run ((5, 1) ∷ []) (check 1 1 every_ten).1).0 ≡ true
unfolding check
then_waits = refl

trigger_iff_example :
    ((check 11 1 (run ((5, 1) ∷ []) (check 1 1 every_ten).1).1).0 ≡ true)
    ↔ (Given (some 3) (some 10) × (10 ≤ 11 - 1) × (3 ≤ steps_in ((5, 1) ∷ []) + 1))
trigger_iff_example = trigger_iff 1 1 11 1 ((5, 1) ∷ []) every_ten first_triggers then_waits
