-- ===== src/NameResolve/Waiting.antt =====
-- `wait`.
use rea_lhf.Base.{
  Bool-cases, List, Option, [], ap, arith, dec_lt, false, inl, inr, list_eq, none, refl, some, sym,
  true, ℕ, ◌++◌, ◌<◌, ◌↔◌, ◌∙◌, ◌∷◌, ◌≡◌, ◌≤◌, ◌⊎◌,
}
use rea_lhf.NameResolve.{
  Name, NameError, Repository, expired, get, name_entry_not_found, timeout, wait,
}

-- A time limit that is given and has passed, and one that has not.
abbrev pub Over : Option ℕ → ℕ → Type 0
Over none now = ⊥
Over (some limit) now = limit < now

abbrev pub InTime : Option ℕ → ℕ → Type 0
InTime none now = Unit
InTime (some limit) now = now ≤ limit

Over-expired : (limit : Option ℕ) (now : ℕ) → Over limit now → expired limit now ≡ true
Over-expired none now h = absurd h
Over-expired (some limit) now h = ground (arith, h)

InTime-expired : (limit : Option ℕ) (now : ℕ) → InTime limit now → expired limit now ≡ false
InTime-expired none now h = refl
InTime-expired (some limit) now h = ground (arith, h)

Over-cases : (limit : Option ℕ) (now : ℕ) → Over limit now ⊎ InTime limit now
Over-cases none now = inr tt
Over-cases (some limit) now = elim (dec_lt limit now) [
  | yes h ↦ inl h
  | no h ↦ inr (omega (arith, h))
]

-- The polls at which a waiter goes on: the name is not there, and the time is not over.
abbrev pub Patient : Name → Option ℕ → List (Repository × ℕ) → Type 0
Patient name limit [] = Unit
Patient name limit ((s, now) ∷ polls) =
    (get name s ≡ inl name_entry_not_found) × InTime limit now × Patient name limit polls

module _ (name : Name) (limit : Option ℕ) (s : Repository) (now : ℕ)
    (polls : List (Repository × ℕ)) where
  wait_found : (v : ℕ) → get name s ≡ inr v → wait name limit ((s, now) ∷ polls) ≡ some (inr v)
  unfolding wait
  wait_found v e = rw (e, wait)

  wait-Over :
      get name s ≡ inl name_entry_not_found
      → Over limit now
      → wait name limit ((s, now) ∷ polls) ≡ some (inl timeout)
  unfolding wait
  wait-Over e f = rw (e, Over-expired limit now f, wait)

  wait_on :
      get name s ≡ inl name_entry_not_found
      → InTime limit now
      → wait name limit ((s, now) ∷ polls) ≡ wait name limit polls
  unfolding wait
  wait_on e f = rw (e, InTime-expired limit now f, wait)

wait-Patient :
    (name : Name) (limit : Option ℕ) (before polls : List (Repository × ℕ))
    → Patient name limit before
    → wait name limit (before ++ polls) ≡ wait name limit polls
wait-Patient name limit [] polls h = refl
wait-Patient name limit ((s, now) ∷ before) polls (h, k, r) =
    wait_on name limit s now (before ++ polls) h k ∙ wait-Patient name limit before polls r

-- What a poll ends the wait with: the value of the name, or a TimeoutError.
abbrev pub Decides : Name → Option ℕ → Repository → ℕ → NameError ⊎ ℕ → Type 0
Decides name limit s now r =
    ((v : ℕ) × (get name s ≡ inr v) × (r ≡ inr v))
    ⊎ ((get name s ≡ inl name_entry_not_found) × Over limit now × (r ≡ inl timeout))

pub record Ends (name : Name) (limit : Option ℕ) (polls : List (Repository × ℕ)) (r : NameError ⊎ ℕ)
    : Type 0 where
  pub before : List (Repository × ℕ)
  pub store : Repository
  pub now : ℕ
  pub later : List (Repository × ℕ)
  pub polls_are : polls ≡ before ++ (store, now) ∷ later
  pub patient : Patient name limit before
  pub decides : Decides name limit store now r

same_result : {a b : NameError ⊎ ℕ} → some a ≡ some b → a ≡ b
same_result e = cc

get-cases :
    (name : Name) (s : Repository)
    → (get name s ≡ inl name_entry_not_found) ⊎ ((v : ℕ) × (get name s ≡ inr v))
unfolding get
get-cases name [] = inl refl
get-cases name ((k, v) ∷ s) = elim (Bool-cases (list_eq k name)) [
  | inl e ↦ inr (v, rw e)
  | inr e ↦ elim (get-cases name s) [ inl f ↦ inl (rw e f) | inr (u, f) ↦ inr (u, rw e f) ]
]

sound :
    (name : Name) (limit : Option ℕ) (polls : List (Repository × ℕ)) (r : NameError ⊎ ℕ)
    → wait name limit polls ≡ some r
    → Ends name limit polls r
unfolding wait
sound name limit [] r h = cc
sound name limit ((s, now) ∷ polls) r h = elim (get-cases name s) [
  | inr (v, e) ↦
      ended [] polls s now refl tt
        (inl (v, e, same_result (sym h ∙ wait_found name limit s now polls v e)))
  | inl e ↦ elim (Over-cases limit now) [
    | inl f ↦
        ended [] polls s now refl tt
          (inr (e, f, same_result (sym h ∙ wait-Over name limit s now polls e f)))
    | inr f ↦
        let t = sound name limit polls r (sym (wait_on name limit s now polls e f) ∙ h) in
        ended ((s, now) ∷ t.before) t.later t.store t.now (ap (λ ps. (s, now) ∷ ps) t.polls_are)
          (e, f, t.patient) t.decides
  ]
]
  where
    ended :
        {seen : List (Repository × ℕ)} (before later : List (Repository × ℕ)) (s : Repository)
        (now : ℕ)
        → seen ≡ before ++ (s, now) ∷ later
        → Patient name limit before
        → Decides name limit s now r
        → Ends name limit seen r
    ended before later s now e p d = record {
      before = before;
      store = s;
      now = now;
      later = later;
      polls_are = e;
      patient = p;
      decides = d;
    }

complete :
    (name : Name) (limit : Option ℕ) (s : Repository) (now : ℕ) (polls : List (Repository × ℕ))
    (r : NameError ⊎ ℕ)
    → Decides name limit s now r
    → wait name limit ((s, now) ∷ polls) ≡ some r
complete name limit s now polls r (inl (v, e, f)) =
    wait_found name limit s now polls v e ∙ ap some (sym f)
complete name limit s now polls r (inr (e, f, g)) =
    wait-Over name limit s now polls e f ∙ ap some (sym g)

waiting :
    (name : Name) (limit : Option ℕ) (polls : List (Repository × ℕ))
    → wait name limit polls ≡ none
    → Patient name limit polls
waiting name limit [] h = tt
waiting name limit ((s, now) ∷ polls) h = elim (get-cases name s) [
  | inr (v, e) ↦ absurd (cc (h, wait_found name limit s now polls v e))
  | inl e ↦ elim (Over-cases limit now) [
    | inl f ↦ absurd (cc (h, wait-Over name limit s now polls e f))
    | inr f ↦ (e, f, waiting name limit polls (sym (wait_on name limit s now polls e f) ∙ h))
  ]
]

wait-none :
    (name : Name) (limit : Option ℕ) (polls : List (Repository × ℕ))
    → Patient name limit polls
    → wait name limit polls ≡ none
unfolding wait
wait-none name limit [] h = refl
wait-none name limit ((s, now) ∷ polls) (h, k, r) =
    wait_on name limit s now polls h k ∙ wait-none name limit polls r

-- `wait` ends at the first poll that finds the name, or at which more time has passed than the limit
-- that is given: with the value that it finds there, or, if it does not find the name, with a
-- TimeoutError; and it has not ended after some polls if and only if the name was found at none of
-- them and the time that had passed was within the limit at all of them.
pub wait_iff :
    (name : Name) (limit : Option ℕ) (polls : List (Repository × ℕ)) (r : NameError ⊎ ℕ)
    → ((wait name limit polls ≡ some r) ↔ Ends name limit polls r)
      × ((wait name limit polls ≡ none) ↔ Patient name limit polls)
wait_iff name limit polls r = (
  (
    sound name limit polls r,
    λ t. rw t.polls_are (
        wait-Patient name limit t.before ((t.store, t.now) ∷ t.later) t.patient
        ∙ complete name limit t.store t.now t.later r t.decides),
  ),
  (waiting name limit polls, wait-none name limit polls),
)
