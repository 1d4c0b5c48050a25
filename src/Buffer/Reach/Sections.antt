-- ===== src/Buffer/Reach/Sections.antt =====
-- Each locked section keeps the invariant.
use mathlib.Core.Path.{subst}
use rea_lhf.Base.{
  List, ap, arith, length, map, mem, refl, sum_by, sym, true, ℕ, ◌++◌, ◌==◌, ◌∙◌, ◌∷◌, ◌≡◌,
}
use rea_lhf.Buffer.Amend.{amend_begin, amend_end, amendable, finish_amend, mark_amend}
use rea_lhf.Buffer.Errors.{assertion_error, attribute_error, guard, ok}
use rea_lhf.Buffer.Put.{choose, finish_put, mark_put, put_begin, put_end}
use rea_lhf.Buffer.Put.Choice.{Chosen, choose-Chosen}
use rea_lhf.Buffer.Reach.{Pending, amending, putting}
use rea_lhf.Buffer.Reach.Counts.{
  SlotOk-cast, amends, begin_slots, end_slots, puts, puts_one, reads, sum_by-middle,
}
use rea_lhf.Buffer.Reach.Invariant.{AllPending, AllPending-middle, Inv, placed}
use rea_lhf.Buffer.Reach.SlotOk.{SlotOk, finish_amend_ok, finish_put_ok, mark_amend_ok, mark_put_ok}
use rea_lhf.Buffer.Sample.{Sample}
use rea_lhf.Buffer.Slots.{Rpc, Slot, all_at, update_at}
use rea_lhf.Buffer.Slots.Positions.{
  AllFrom-all_at, AllFrom-imp, Ascending, length-update_at, marked-Ascending, sum_by-update_at,
  sum_by-update_at_same,
}
use rea_lhf.Buffer.State.{Buffer, refresh_ready, valid_indicator}
use rea_lhf.Buffer.Storage.{amend, has_entry}
use rea_lhf.Buffer.Storage.Frame.{
  >>=-eq-ok, AllFrom-strip, length-strip, ok-eq-ok, strip, strip-amend, strip-store, sum_by-strip,
}

-- The storage may change between without harm.
pub frame :
    (b : Buffer) (ps : List Pending) (ss : List Slot)
    → map strip ss ≡ map strip b.slots
    → Inv b ps
    → Inv (record b { slots = ss }) ps
frame b ps ss e v = record {
  slots = AllFrom-strip 0 b.slots ss (λ j s h. h) (λ j s h. h) e v.slots;
  size =
      sym (sum_by-strip placed ss (λ s. refl))
      ∙ ap (sum_by placed) e
      ∙ sum_by-strip placed b.slots (λ s. refl)
      ∙ v.size;
  pend = rw (length-strip b.slots ss e) v.pend;
}

pub at_length :
    (P : ℕ → Type 0) (idx : List ℕ) (f : Slot → Slot) (ss : List Slot)
    → P (length ss)
    → P (length (update_at idx f 0 ss))
at_length P idx f ss h = subst P (sym (length-update_at idx f 0 ss)) h

mark_put-Inv :
    (b : Buffer) (ps : List Pending) (n : ℕ) (idx : List ℕ)
    → Chosen n b.slots idx
    → Inv b ps
    → Inv (record b { slots = update_at idx mark_put 0 b.slots }) (putting idx ∷ ps)
mark_put-Inv b ps n idx c v = record {
  slots =
      begin_slots (putting idx) ps mark_put (λ s. s.is_empty) b.slots
        (λ j p a r s m e h.
          SlotOk-cast (mark_put s) (rw m) (omega arith) (omega arith) (mark_put_ok p a r s e h))
        c.vacant_at v.slots;
  size =
      sum_by-update_at_same placed idx mark_put 0 b.slots (
        AllFrom-imp {P = λ j s. mem j idx ≡ true → s.is_empty ≡ true} 0 b.slots
          (λ j s h m. ground (arith, h m)) c.vacant_at)
      ∙ v.size;
  pend = (
    at_length (λ n. Ascending 0 n idx) idx mark_put b.slots c.ascending,
    at_length (λ n. AllPending n ps) idx mark_put b.slots v.pend,
  );
}

pub put_begin-Inv :
    (now : ℕ) (samples : List Sample) (b c : Buffer) (ps : List Pending) (idx : List ℕ)
    → put_begin now samples b ≡ ok (idx, c)
    → Inv b ps
    → Inv c (putting idx ∷ ps)
unfolding put_begin
put_begin-Inv now samples b c ps idx e v =
    let (u, _, e₁) = >>=-eq-ok (guard (valid_indicator b) assertion_error) _ e in
    let (is, picked, e₂) = >>=-eq-ok (choose (length samples) b.slots) _ e₁ in
    let (same, after) = ok-eq-ok e₂ in
    rw (← after, ← same)
      (frame _ _ _ (strip-store (length b.rpcs) now is samples _)
        (mark_put-Inv b ps _ is (choose-Chosen _ b.slots is picked) v))

pub ok-injective : {A : Type 0} {a b : A} → ok a ≡ ok b → a ≡ b
ok-injective e = cc

put_weights :
    (j : ℕ) (s : Slot) (rpcs : List Rpc) (idx : List ℕ) (xs ys : List Pending)
    → SlotOk
        (puts j (xs ++ putting idx ∷ ys))
        (amends j (xs ++ putting idx ∷ ys))
        (reads j (xs ++ putting idx ∷ ys))
        s
    → mem j idx ≡ true
    → (placed s ≡ 0) × (placed (finish_put rpcs s) ≡ 1)
unfolding refresh_ready
put_weights j s rpcs idx xs ys h m =
    let w = sum_by-middle (puts_one j) xs ys (putting idx) in ground (arith, w)

pub put_end-Inv :
    (b c : Buffer) (xs ys : List Pending) (idx : List ℕ)
    → put_end idx b ≡ ok c
    → Inv b (xs ++ putting idx ∷ ys)
    → Inv c (xs ++ ys)
unfolding put_end
put_end-Inv b c xs ys idx e v =
    let (u, _, e₁) = >>=-eq-ok (guard (all_at idx has_entry 0 b.slots) attribute_error) _ e in
    let (here, rest) = AllPending-middle (length b.slots) xs ys (putting idx) v.pend in
    let grown =
      sum_by-update_at placed 0 1 idx (finish_put b.rpcs) 0 b.slots
        (AllFrom-imp 0 b.slots (λ j s h m. put_weights j s b.rpcs idx xs ys h m) v.slots) in
    rw (← ok-injective e₁) (record {
      slots =
          end_slots (putting idx) xs ys (finish_put b.rpcs) b.slots
            (λ j p a r s m h.
              finish_put_ok b.rpcs p a r s (SlotOk-cast s (rw m) (omega arith) (omega arith) h))
            v.slots;
      size = omega (
        arith,
        grown,
        marked-Ascending idx 0 (length b.slots) b.slots (omega arith) here,
        v.size,
      );
      pend = at_length (λ n. AllPending n (xs ++ ys)) idx (finish_put b.rpcs) b.slots rest;
    })

pub amend_begin-Inv :
    (b c : Buffer) (ps : List Pending) (idx : List ℕ) (samples : List Sample)
    → all_at idx amendable 0 b.slots ≡ true
    → amend_begin idx samples b ≡ ok c
    → Inv b ps
    → Inv c (amending idx ∷ ps)
unfolding amend_begin
amend_begin-Inv b c ps idx samples w e v =
    let (u, _, e₁) = >>=-eq-ok (guard (valid_indicator b) assertion_error) _ e in
    let (u', _, e₂) = >>=-eq-ok (guard (length idx == length samples) assertion_error) _ e₁ in
    let (ss, amended, e₃) =
      >>=-eq-ok (amend idx samples (update_at idx mark_amend 0 b.slots)) _ e₂ in
    rw (← ok-injective e₃)
      (frame _ (amending idx ∷ ps) ss (strip-amend idx samples _ ss amended) marked_inv)
  where
    marked_inv : Inv (record b { slots = update_at idx mark_amend 0 b.slots }) (amending idx ∷ ps)
    marked_inv = record {
      slots =
          begin_slots (amending idx) ps mark_amend amendable b.slots
            (λ j p a r s m g h.
              SlotOk-cast (mark_amend s) (omega arith) (rw m) (omega arith)
                (mark_amend_ok p a r s g h))
            (AllFrom-all_at idx amendable 0 b.slots w) v.slots;
      size =
          sum_by-update_at_same placed idx mark_amend 0 b.slots
            (AllFrom-imp 0 b.slots (λ j s h m. refl) v.slots)
          ∙ v.size;
      pend = at_length (λ n. AllPending n (amending idx ∷ ps)) idx mark_amend b.slots (tt, v.pend);
    }

pub amend_end-Inv :
    (b c : Buffer) (xs ys : List Pending) (idx : List ℕ)
    → amend_end idx b ≡ ok c
    → Inv b (xs ++ amending idx ∷ ys)
    → Inv c (xs ++ ys)
unfolding amend_end
amend_end-Inv b c xs ys idx e v =
    let (u, _, e₁) = >>=-eq-ok (guard (all_at idx has_entry 0 b.slots) attribute_error) _ e in
    let (_, rest) = AllPending-middle (length b.slots) xs ys (amending idx) v.pend in
    rw (← ok-injective e₁) (record {
      slots =
          end_slots (amending idx) xs ys (finish_amend b.rpcs) b.slots
            (λ j p a r s m h.
              finish_amend_ok b.rpcs p a r s (SlotOk-cast s (omega arith) (rw m) (omega arith) h))
            v.slots;
      size =
          sum_by-update_at_same placed idx (finish_amend b.rpcs) 0 b.slots
            (AllFrom-imp 0 b.slots (λ j s h m. unfold refresh_ready in refl) v.slots)
          ∙ v.size;
      pend = at_length (λ n. AllPending n (xs ++ ys)) idx (finish_amend b.rpcs) b.slots rest;
    })
