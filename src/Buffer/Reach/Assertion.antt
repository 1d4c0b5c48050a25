-- ===== src/Buffer/Reach/Assertion.antt =====
-- `_assert_valid_indicator` in every reachable state.
use rea_lhf.Base.{
  Bool, List, [], all, arith, false, length, map, not, refl, replicate, suc, sum_by, true, zero, ℕ,
  ◌+◌, ◌==◌, ◌∷◌, ◌≡◌,
}
use rea_lhf.Buffer.Reach.{
  Pending, Reach, Step, World, amend_begins, amend_ends, get_begins, get_ends, get_enters, here,
  next, put_begins, put_ends, start,
}
use rea_lhf.Buffer.Reach.Counts.{amends, puts, reads}
use rea_lhf.Buffer.Reach.Invariant.{Inv, placed}
use rea_lhf.Buffer.Reach.Readers.{get_begin-Inv, get_end-Inv, get_enter-Inv}
use rea_lhf.Buffer.Reach.Sections.{amend_begin-Inv, amend_end-Inv, put_begin-Inv, put_end-Inv}
use rea_lhf.Buffer.Reach.SlotOk.{SlotOk, any_set, bit}
use rea_lhf.Buffer.Slots.{Rpc, Slot}
use rea_lhf.Buffer.Slots.Positions.{AllFrom}
use rea_lhf.Buffer.State.{Buffer, empty_slot, init, occupied, slot_valid, vacant, valid_indicator}

Step-Inv : {v w : World} → Step v w → Inv v.buffer v.pending → Inv w.buffer w.pending
Step-Inv {v} {w} (put_begins now samples idx e p) h =
    rw p (put_begin-Inv now samples v.buffer w.buffer v.pending idx e h)
Step-Inv {v} {w} (put_ends idx xs ys q e p) h =
    rw p (put_end-Inv v.buffer w.buffer xs ys idx e (rw q at h))
Step-Inv {v} {w} (amend_begins idx samples g e p) h =
    rw p (amend_begin-Inv v.buffer w.buffer v.pending idx samples g e h)
Step-Inv {v} {w} (amend_ends idx xs ys q e p) h =
    rw p (amend_end-Inv v.buffer w.buffer xs ys idx e (rw q at h))
Step-Inv {v} {w} (get_enters k rpc e p) h = rw (e, p) (get_enter-Inv k rpc v.buffer v.pending h)
Step-Inv {v} {w} (get_begins k rpc r g e p) h =
    rw p (get_begin-Inv k rpc v.buffer v.pending h r w.buffer e)
Step-Inv {v} {w} (get_ends k rpc r x xs ys q e p) h =
    rw p (get_end-Inv k rpc r x v.buffer w.buffer xs ys e (rw q at h))

any_set-none {ℓ} : {A : Type ℓ} (xs : List A) → any_set (map (λ x. false) xs) ≡ false
any_set-none [] = refl
any_set-none (x ∷ xs) = any_set-none xs

start-slots :
    (rpcs : List Rpc) (n i : ℕ) → AllFrom (λ j s. SlotOk 0 0 0 s) i (replicate n (empty_slot rpcs))
start-slots rpcs zero i = tt
start-slots rpcs (suc n) i = (
  (refl, refl, refl, refl, refl, refl, any_set-none rpcs, any_set-none rpcs),
  start-slots rpcs n (suc i),
)

start-size : (rpcs : List Rpc) (n : ℕ) → sum_by placed (replicate n (empty_slot rpcs)) ≡ 0
start-size rpcs zero = refl
start-size rpcs (suc n) = omega (arith, start-size rpcs n)

start-Inv : (rpcs : List Rpc) (n : ℕ) → Inv (start rpcs n).buffer []
unfolding init
start-Inv rpcs n = record { slots = start-slots rpcs n 0; size = start-size rpcs n; pend = tt }

-- In every reachable state: each slot is in exactly one of the five states; `n_amenders` and
-- `n_readers` are the numbers of pending calls that hold the slot, and positive exactly where the
-- flags say so; an empty slot is ready for no call and completed by none; the size is the number of
-- slots that are neither empty nor being put.
pub Reach-Inv :
    {rpcs : List Rpc} {max_size : ℕ} {w : World} → Reach rpcs max_size w → Inv w.buffer w.pending
Reach-Inv {rpcs} {max_size} here = start-Inv rpcs max_size
Reach-Inv (next r st) = Step-Inv st (Reach-Inv r)

abbrev pub being_put : Slot → ℕ
being_put s = bit s.is_being_put

weights :
    (p a r : ℕ) (s : Slot)
    → SlotOk p a r s
    → (occupied s ≡ placed s + being_put s) × (vacant s + occupied s ≡ 1) × (slot_valid s ≡ true)
weights p a r s h = ground arith

sums :
    (ps : List Pending) (i : ℕ) (ss : List Slot)
    → AllFrom (λ j s. SlotOk (puts j ps) (amends j ps) (reads j ps) s) i ss
    → (sum_by occupied ss ≡ sum_by placed ss + sum_by being_put ss)
      × (sum_by vacant ss + sum_by occupied ss ≡ length ss)
      × (all slot_valid ss ≡ true)
sums ps i [] h = (refl, refl, refl)
sums ps i (s ∷ ss) h =
    let (a, b, c) = weights _ _ _ s h.0 in
    let (d, e, f) = sums ps (suc i) ss h.1 in (omega arith, omega arith, rw c f)

abbrev pub not_being_put : Slot → Bool
not_being_put s = not s.is_being_put

none_being_put : (ss : List Slot) → all not_being_put ss ≡ (sum_by being_put ss == 0)
none_being_put [] = refl
none_being_put (s ∷ ss) = ground (arith, none_being_put ss)

valid_indicator_lem :
    (b : Buffer) (ps : List Pending) → Inv b ps → valid_indicator b ≡ all not_being_put b.slots
unfolding valid_indicator
valid_indicator_lem b ps v =
    let (occ, vac, ok) = sums ps 0 b.slots v.slots in
    rw (none_being_put b.slots, ok) (ground (arith, v.size))

-- In every reachable state `_assert_valid_indicator` holds if and only if no slot is being put.
pub valid_indicator_iff :
    {rpcs : List Rpc} {max_size : ℕ} {w : World}
    → Reach rpcs max_size w
    → valid_indicator w.buffer ≡ all not_being_put w.buffer.slots
valid_indicator_iff {w = w} r = valid_indicator_lem w.buffer w.pending (Reach-Inv r)
