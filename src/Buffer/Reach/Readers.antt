-- ===== src/Buffer/Reach/Readers.antt =====
-- The locked sections of `get_batch_for_rpc` keep the invariant.
use rea_lhf.Base.{
  Bool, Bool-cases, List, [], arith, false, inl, inr, length, map, mem, refl, suc, sym, take, true,
  ℕ, ◌++◌, ◌-◌, ◌==◌, ◌∙◌, ◌∷◌, ◌≡◌,
}
use rea_lhf.Buffer.Errors.{assertion_error, guard, key_error, ok, or_raise}
use rea_lhf.Buffer.Get.{
  Read, clear, finish_read, get_begin, get_end, get_enter, mark_read, readable, ready_indices,
  request_load_data,
}
use rea_lhf.Buffer.Reach.{Pending, reading}
use rea_lhf.Buffer.Reach.Counts.{SlotOk-cast, amends, begin_slots, end_slots, puts, reads}
use rea_lhf.Buffer.Reach.Invariant.{AllPending, AllPending-middle, Inv, placed}
use rea_lhf.Buffer.Reach.Sections.{at_length, frame}
use rea_lhf.Buffer.Reach.SlotOk.{SlotOk, clear_ok, finish_read_ok, mark_read_ok}
use rea_lhf.Buffer.Sample.{Sample, gather}
use rea_lhf.Buffer.Slots.{Entry, Rpc, Slot, all_at, update_at, where_}
use rea_lhf.Buffer.Slots.Positions.{
  AllFrom, AllFrom-all_at, AllFrom-both, AllFrom-imp, AllFrom-update_at, Ascending, Ascending-lower,
  Ascending-take, marked-Ascending, mem-take, mem-where_, sum_by-update_at, sum_by-update_at_same,
  where_-Ascending,
}
use rea_lhf.Buffer.State.{Buffer, valid_indicator}
use rea_lhf.Buffer.Storage.{pop_indices, take_entries}
use rea_lhf.Buffer.Storage.Frame.{>>=-eq-ok, ok-eq-ok, strip-drop_entry, strip-take_entries}

Ascending-pop_indices :
    (lo hi : ℕ) (is : List ℕ) (es : List Entry)
    → Ascending lo hi is
    → Ascending lo hi (pop_indices is es)
Ascending-pop_indices lo hi [] es a = tt
Ascending-pop_indices lo hi (i ∷ is) [] a = tt
Ascending-pop_indices lo hi (i ∷ is) (e ∷ es) a = elim (Bool-cases (e.reuses_left == 0)) [
  | inl t ↦ rw t (a.0, a.1, Ascending-pop_indices (suc i) hi is es a.2)
  | inr t ↦
      rw t
        (Ascending-lower (suc i) lo hi _ (omega arith) (Ascending-pop_indices (suc i) hi is es a.2))
]

mem-pop_indices :
    (j : ℕ) (is : List ℕ) (es : List Entry) → mem j (pop_indices is es) ≡ true → mem j is ≡ true
mem-pop_indices j [] es h = cc
mem-pop_indices j (i ∷ is) [] h = cc
mem-pop_indices j (i ∷ is) (e ∷ es) h = ground (arith, mem-pop_indices j is es)

module _ (k : ℕ) (rpc : Rpc) (b : Buffer) (ps : List Pending) (v : Inv b ps) where
  abbrev chosen : List ℕ
  chosen = take rpc.n_seqs (where_ (readable k) 0 b.slots)

  chosen-Ascending : Ascending 0 (length b.slots) chosen
  chosen-Ascending =
      Ascending-take rpc.n_seqs 0 _ _
        (where_-Ascending (readable k) 0 (length b.slots) b.slots (omega arith))

  chosen-readable : AllFrom (λ j s. mem j chosen ≡ true → readable k s ≡ true) 0 b.slots
  chosen-readable =
      AllFrom-imp {P = λ j s. mem j (where_ (readable k) 0 b.slots) ≡ readable k s} 0 b.slots
        (λ j s q m. sym q ∙ mem-take j rpc.n_seqs (where_ (readable k) 0 b.slots) m)
        (mem-where_ (readable k) 0 b.slots)

  mark_read-Inv :
      (r : Read)
      → r.indices ≡ chosen
      → Ascending 0 (length b.slots) r.pops
      → ((j : ℕ) → mem j r.pops ≡ true → mem j r.indices ≡ true)
      → Inv (record b { slots = update_at r.indices mark_read 0 b.slots }) (reading k rpc r ∷ ps)
  mark_read-Inv r e a sub = record {
    slots =
        begin_slots (reading k rpc r) ps mark_read (readable k) b.slots
          (λ j p a r' s m g h.
            SlotOk-cast (mark_read s) (omega arith) (omega arith) (rw m)
              (mark_read_ok k p a r' s g h))
          (rw e chosen-readable) v.slots;
    size =
        sum_by-update_at_same placed r.indices mark_read 0 b.slots
          (AllFrom-imp 0 b.slots (λ j s h m. refl) v.slots)
        ∙ v.size;
    pend =
        at_length (λ n. AllPending n (reading k rpc r ∷ ps)) r.indices mark_read b.slots
          ((a, sub), v.pend);
  }

  pub get_begin-Inv :
      (r : Read) (c : Buffer) → get_begin k rpc b ≡ ok (r, c) → Inv c (reading k rpc r ∷ ps)
  unfolding get_begin ready_indices
  get_begin-Inv r c e =
      let (u, _, e₁) = >>=-eq-ok (guard (valid_indicator b) assertion_error) _ e in
      let (p, taken, e₂) =
        >>=-eq-ok (take_entries chosen (update_at chosen mark_read 0 b.slots)) _ e₁ in
      let (same, after) = ok-eq-ok e₂ in
      rw (← after, ← same)
        (frame _ _ _
          (strip-drop_entry (pop_indices chosen p.1) 0 p.0
            ∙ strip-take_entries chosen _ p.0 p.1 taken)
          (mark_read-Inv (record { indices = chosen; pops = pop_indices chosen p.1; entries = p.1 })
            refl (Ascending-pop_indices 0 _ chosen p.1 chosen-Ascending)
            (λ j m. mem-pop_indices j chosen p.1 m)))

get_enter_frame :
    (k : ℕ) (rpc : Rpc) (b : Buffer)
    → ((get_enter k rpc b).slots ≡ b.slots) × ((get_enter k rpc b).buf_size ≡ b.buf_size)
unfolding get_enter request_load_data
get_enter_frame k rpc b = ground arith

pub get_enter-Inv :
    (k : ℕ) (rpc : Rpc) (b : Buffer) (ps : List Pending) → Inv b ps → Inv (get_enter k rpc b) ps
get_enter-Inv k rpc b ps v =
    let (e, f) = get_enter_frame k rpc b in
    record { slots = rw e v.slots; size = rw (e, f) v.size; pend = rw e v.pend }

-- After `finish_read` a listed slot is idle as soon as nobody reads it.
read_slots :
    (k : ℕ) (rpc : Rpc) (r : Read) (b : Buffer) (xs ys : List Pending)
    → Inv b (xs ++ reading k rpc r ∷ ys)
    → Inv (record b { slots = update_at r.indices (finish_read k) 0 b.slots }) (xs ++ ys)
read_slots k rpc r b xs ys v = record {
  slots =
      end_slots (reading k rpc r) xs ys (finish_read k) b.slots
        (λ j p a n s m h.
          finish_read_ok k p a n s (SlotOk-cast s (omega arith) (omega arith) (rw m) h))
        v.slots;
  size =
      sum_by-update_at_same placed r.indices (finish_read k) 0 b.slots
        (AllFrom-imp 0 b.slots (λ j s h m. refl) v.slots)
      ∙ v.size;
  pend =
      at_length (λ n. AllPending n (xs ++ ys)) r.indices (finish_read k) b.slots
        (AllPending-middle (length b.slots) xs ys (reading k rpc r) v.pend).1;
}

idle_if_free :
    (k : ℕ) (idx : List ℕ) (i : ℕ) (ss : List Slot)
    → AllFrom
        (λ j s. mem j idx ≡ true → s.is_idle ≡ (s.n_readers == 0))
        i
        (update_at idx (finish_read k) i ss)
idle_if_free k idx i ss =
    AllFrom-update_at {P = λ j s. Unit {0}} idx (finish_read k) i ss (λ j s h m m'. refl)
      (λ j s h m m'. cc) (trivial i ss)
  where
    trivial : (i : ℕ) (ss : List Slot) → AllFrom (λ j s. Unit {0}) i ss
    trivial i [] = tt
    trivial i (s ∷ ss) = (tt, trivial (suc i) ss)

clear_slots :
    (b : Buffer) (ps : List Pending) (pops : List ℕ)
    → AllFrom (λ j s. mem j pops ≡ true → s.is_idle ≡ true) 0 b.slots
    → Ascending 0 (length b.slots) pops
    → Inv b ps
    → Inv
        (record b { slots = update_at pops clear 0 b.slots; buf_size = b.buf_size - length pops })
        ps
clear_slots b ps pops idle asc v =
    let both =
      AllFrom-both (λ j s. SlotOk (puts j ps) (amends j ps) (reads j ps) s)
        (λ j s. mem j pops ≡ true → s.is_idle ≡ true) 0 b.slots v.slots idle in
    let shrunk =
      sum_by-update_at placed 1 0 pops clear 0 b.slots
        (AllFrom-imp 0 b.slots (λ j s h m. clear_weights _ _ _ s h.0 (h.1 m)) both) in
    record {
      slots =
          AllFrom-update_at pops clear 0 b.slots (λ j s h m. clear_ok _ _ _ s (h.1 m) h.0)
            (λ j s h m. h.0) both;
      size = omega (
        arith,
        shrunk,
        marked-Ascending pops 0 (length b.slots) b.slots (omega arith) asc,
        v.size,
      );
      pend = at_length (λ n. AllPending n ps) pops clear b.slots v.pend;
    }
  where
    clear_weights :
        (p a r : ℕ) (s : Slot)
        → SlotOk p a r s
        → s.is_idle ≡ true
        → (placed s ≡ 1) × (placed (clear s) ≡ 0)
    clear_weights p a r s h e = ground arith

pub get_end-Inv :
    (k : ℕ) (rpc : Rpc) (r : Read) (x : Sample) (b c : Buffer) (xs ys : List Pending)
    → get_end k rpc r b ≡ ok (x, c)
    → Inv b (xs ++ reading k rpc r ∷ ys)
    → Inv c (xs ++ ys)
unfolding get_end
get_end-Inv k rpc r x b c xs ys e v =
    let ss = update_at r.indices (finish_read k) 0 b.slots in
    let (u, free, e₁) =
      >>=-eq-ok (guard (all_at r.pops (λ s. s.n_readers == 0) 0 ss) assertion_error) _ e in
    let (u', _, e₂) =
      >>=-eq-ok (guard (all_at r.pops (λ s. s.n_amenders == 0) 0 ss) assertion_error) _ e₁ in
    let (y, _, e₃) =
      >>=-eq-ok (or_raise (gather (map (λ e. e.sample) r.entries) rpc.input_keys) key_error) _ e₂ in
    let (asc, sub) = (AllPending-middle (length b.slots) xs ys (reading k rpc r) v.pend).0 in
    let nobody = AllFrom-all_at r.pops (λ s. s.n_readers == 0) 0 ss (guard-eq-ok _ free) in
    let idle =
      AllFrom-imp 0 ss (λ j s h m. h.0 (sub j m) ∙ h.1 m)
        (AllFrom-both (λ j s. mem j r.indices ≡ true → s.is_idle ≡ (s.n_readers == 0))
          (λ j s. mem j r.pops ≡ true → (s.n_readers == 0) ≡ true) 0 ss
          (idle_if_free k r.indices 0 b.slots) nobody) in
    rw (← (ok-eq-ok e₃).1) (
      clear_slots (record b { slots = ss }) (xs ++ ys) r.pops idle
        (at_length (λ n. Ascending 0 n r.pops) r.indices (finish_read k) b.slots asc)
        (read_slots k rpc r b xs ys v))
  where
    guard-eq-ok : (t : Bool) {u : Unit {0}} → guard t assertion_error ≡ ok u → t ≡ true
    guard-eq-ok true h = refl
    guard-eq-ok false h = cc
