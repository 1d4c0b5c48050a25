-- ===== src/System/Throttle.antt =====
-- realhf/system/master_worker.py, what holds a call back: the semaphore of `model_rpc_request_func`
-- and its wait for the training steps that come after it, with the counters of
-- `model_rpc_reply_func`.
use mathlib.Core.Option.{some-injective}
use rea_lhf.Base.{
  >>=-eq-some, Bool, Bool-cases, List, Option, [], any, arith, assert, false, get_elem?,
  if◌then◌else◌, inl, inr, leb, ltb, not, refl, some, suc, true, zero, ℕ, ◌&&◌, ◌*◌, ◌+◌, ◌-◌, ◌<◌,
  ◌==◌, ◌>>=◌, ◌∙◌, ◌∷◌, ◌≡◌, ◌≤◌,
}

-- What the wait reads of a successor of the call.
pub record Successor : Type 0 where
  pub name : ℕ
  pub n_seqs : ℕ
  pub is_train_step : Bool
  pub role : ℕ

-- The call: its name, the role of its model and its batch size.
pub record Throttled : Type 0 where
  pub name : ℕ
  pub role : ℕ
  pub n_seqs : ℕ
  pub successors : List Successor

pub record Flow : Type 0 where
  pub consumed : ℕ
  pub can_do_rpc : ℕ
  pub in_flight : ℕ
  pub rpc_traversal : ℕ → ℕ

-- One element of the `any(…)` of the wait.
abbrev pub waits_for : Throttled → Flow → Successor → Bool
waits_for r f c =
    leb ((f.rpc_traversal c.name + 1) * c.n_seqs) f.consumed && c.is_train_step && c.role == r.role

unfoldable pub over_consumed : Throttled → Flow → Bool
over_consumed r f = any (waits_for r f) r.successors

abbrev pub one_more : ℕ → (ℕ → ℕ) → ℕ → ℕ
one_more c t d = if c == d then t d + 1 else t d

-- A round of the request coroutine, once it has its permit and waits no more, that has `bs` samples (at
-- most `n_seqs`, as `get_batch_for_rpc` of realhf/system/buffer.py takes no more), a round of the reply
-- coroutine, and a round of the reply coroutine of another call.
unfoldable pub request : Throttled → ℕ → Flow → Option Flow
unfolding over_consumed
request r bs f = assert (ltb 0 f.can_do_rpc && not (over_consumed r f) && leb bs r.n_seqs) >>= λ _.
    some (record f {
      consumed = f.consumed + bs;
      can_do_rpc = f.can_do_rpc - 1;
      in_flight = f.in_flight + 1;
    })

unfoldable pub reply : Throttled → Flow → Option Flow
reply r f = assert (ltb 0 f.in_flight) >>= λ _. some (record f {
  can_do_rpc = f.can_do_rpc + 1;
  in_flight = f.in_flight - 1;
  rpc_traversal = one_more r.name f.rpc_traversal;
})

pub data Step (r : Throttled) : Flow → Flow → Type 0 where
  request_step : {f g : Flow} (bs : ℕ) → request r bs f ≡ some g → Step r f g
  reply_step : {f g : Flow} → reply r f ≡ some g → Step r f g
  other_step :
      {f : Flow} (c : ℕ) → Step r f (record f { rpc_traversal = one_more c f.rpc_traversal })

abbrev pub start : Throttled → Flow
start r = record { consumed = 0; can_do_rpc = 1; in_flight = 0; rpc_traversal = λ c. 0 }

pub data Reach (r : Throttled) : Flow → Type 0 where
  here : Reach r (start r)
  next : {f g : Flow} → Reach r f → Step r f g → Reach r g

assert-true : (b : Bool) {t : Unit {0}} → assert b ≡ some t → b ≡ true
assert-true true e = refl
assert-true false e = cc

permits-Step :
    (r : Throttled) (f g : Flow)
    → Step r f g
    → g.can_do_rpc + g.in_flight ≡ f.can_do_rpc + f.in_flight
unfolding request reply
permits-Step r f g (request_step bs e) =
    let (_, a, e1) =
      >>=-eq-some (assert (ltb 0 f.can_do_rpc && not (over_consumed r f) && leb bs r.n_seqs)) _ e in
    rw (← (some-injective _ _ e1)) (ground (arith, assert-true _ a))
permits-Step r f g (reply_step e) =
    let (_, a, e1) = >>=-eq-some (assert (ltb 0 f.in_flight)) _ e in
    rw (← (some-injective _ _ e1)) (ground (arith, assert-true _ a))
permits-Step r f g (other_step c) = refl

not_waiting :
    (r : Throttled) (f : Flow) (cs : List Successor) (i : ℕ) (c : Successor)
    → any (waits_for r f) cs ≡ false
    → get_elem? cs i ≡ some c
    → waits_for r f c ≡ false
not_waiting r f [] i c e g = cc
not_waiting r f (d ∷ cs) zero c e g = rw (← (some-injective _ _ g)) (ground arith)
not_waiting r f (d ∷ cs) (suc i) c e g = not_waiting r f cs i c (ground arith) g

grows : (t n : ℕ) → (t + 1) * n ≤ (t + 1 + 1) * n
grows t n = grind arith

module _ (r : Throttled) (i : ℕ) (c : Successor) (at : get_elem? r.successors i ≡ some c)
    (train : c.is_train_step ≡ true) (same_role : c.role ≡ r.role) where
  abbrev Within : Flow → Type 0
  Within f = f.consumed < (f.rpc_traversal c.name + 1) * c.n_seqs + r.n_seqs

  one_more-Within :
      (d : ℕ) (f : Flow)
      → Within f
      → Within (record f { rpc_traversal = one_more d f.rpc_traversal })
  one_more-Within d f w = elim (Bool-cases (d == c.name)) [
    | inl y ↦ rw y (omega (arith, w, grows (f.rpc_traversal c.name) c.n_seqs))
    | inr n ↦ rw n w
  ]

  Step-Within : (f g : Flow) → Step r f g → Within f → Within g
  unfolding request reply over_consumed
  Step-Within f g (request_step bs e) w =
      let (_, a, e1) =
        >>=-eq-some (assert (ltb 0 f.can_do_rpc && not (over_consumed r f) && leb bs r.n_seqs)) _
          e in
      let free : over_consumed r f ≡ false = ground (arith, assert-true _ a) in
      let small : bs ≤ r.n_seqs = ground (arith, assert-true _ a) in
      let below = not_waiting r f r.successors i c free at in
      let room : f.consumed < (f.rpc_traversal c.name + 1) * c.n_seqs = ground (arith, below) in
      rw (← (some-injective _ _ e1)) (omega (arith, room, small))
  Step-Within f g (reply_step e) w =
      let (_, a, e1) = >>=-eq-some (assert (ltb 0 f.in_flight)) _ e in
      rw (← (some-injective _ _ e1)) (one_more-Within r.name f w)
  Step-Within f g (other_step d) w = one_more-Within d f w

-- However the coroutines interleave, a call is under way at most once at a time; and for each training
-- step that comes after it for a model of the same role, a call that takes a positive number of
-- sequences has consumed less than one of its own batches more than what the training steps that are
-- done and the one under way consume.
pub Reach-bounds :
    (r : Throttled) (i : ℕ) (c : Successor) (f : Flow)
    → get_elem? r.successors i ≡ some c
    → c.is_train_step ≡ true
    → c.role ≡ r.role
    → 0 < r.n_seqs
    → Reach r f
    → (f.in_flight ≤ 1) × (f.consumed < (f.rpc_traversal c.name + 1) * c.n_seqs + r.n_seqs)
Reach-bounds r i c f at train role positive reach = (omega (arith, permits f reach), within f reach)
  where
    permits : (f : Flow) → Reach r f → f.can_do_rpc + f.in_flight ≡ 1
    permits f here = omega arith
    permits f (next {f = e} reach step) = permits-Step r e f step ∙ permits e reach

    within :
        (f : Flow) → Reach r f → f.consumed < (f.rpc_traversal c.name + 1) * c.n_seqs + r.n_seqs
    within f here = omega (arith, positive)
    within f (next {f = e} reach step) = Step-Within r i c at train role e f step (within e reach)
