-- ===== src/Buffer/Reach/SlotOk.antt =====
-- What each slot satisfies while `p` puts, `a` amends and `r` reads of it are pending, and how the
-- locked sections keep it.
use rea_lhf.Base.{
  Bool, List, [], any, arith, false, if◌then◌else◌, ltb, map, refl, true, ℕ, ◌&&◌, ◌+◌, ◌∷◌, ◌≡◌,
}
use rea_lhf.Buffer.Amend.{amendable, finish_amend, mark_amend}
use rea_lhf.Buffer.Get.{clear, finish_read, mark_read, readable}
use rea_lhf.Buffer.Put.{finish_put, mark_put}
use rea_lhf.Buffer.Slots.{Rpc, Slot}
use rea_lhf.Buffer.State.{refresh_ready}

abbrev pub bit : Bool → ℕ
bit b = if b then 1 else 0

abbrev pub any_set : List Bool → Bool
any_set bs = any (λ b. b) bs

-- The five states exclude one another, the two counters count the pending calls and agree with
-- their flags, and an empty slot is ready for no call and completed by none.
abbrev pub SlotOk : ℕ → ℕ → ℕ → Slot → Type 0
SlotOk p a r s =
    (bit s.is_being_put ≡ p)
    × (s.n_amenders ≡ a)
    × (s.n_readers ≡ r)
    × (s.is_being_amended ≡ ltb 0 s.n_amenders)
    × (s.is_being_read ≡ ltb 0 s.n_readers)
    × (bit s.is_being_put
          + bit s.is_being_amended
          + bit s.is_being_read
          + bit s.is_idle
          + bit s.is_empty
        ≡ 1)
    × ((s.is_empty && any_set s.ready_for_rpcs) ≡ false)
    × ((s.is_empty && any_set s.completed_rpc) ≡ false)

pub mark_put_ok :
    (p a r : ℕ) (s : Slot) → s.is_empty ≡ true → SlotOk p a r s → SlotOk (1 + p) a r (mark_put s)
mark_put_ok p a r s e h = ground arith

pub finish_put_ok :
    (rpcs : List Rpc) (p a r : ℕ) (s : Slot)
    → SlotOk (1 + p) a r s
    → SlotOk p a r (finish_put rpcs s)
unfolding refresh_ready
finish_put_ok rpcs p a r s h = ground arith

pub mark_amend_ok :
    (p a r : ℕ) (s : Slot) → amendable s ≡ true → SlotOk p a r s → SlotOk p (1 + a) r (mark_amend s)
mark_amend_ok p a r s e h = ground arith

pub finish_amend_ok :
    (rpcs : List Rpc) (p a r : ℕ) (s : Slot)
    → SlotOk p (1 + a) r s
    → SlotOk p a r (finish_amend rpcs s)
unfolding refresh_ready
finish_amend_ok rpcs p a r s h = ground arith

pub mark_read_ok :
    (k p a r : ℕ) (s : Slot)
    → readable k s ≡ true
    → SlotOk p a r s
    → SlotOk p a (1 + r) (mark_read s)
mark_read_ok k p a r s e h = ground arith

pub finish_read_ok :
    (k p a r : ℕ) (s : Slot) → SlotOk p a (1 + r) s → SlotOk p a r (finish_read k s)
finish_read_ok k p a r s h = ground arith

any_set-clear : (bs : List Bool) → any_set (map (λ c. false) bs) ≡ false
any_set-clear [] = refl
any_set-clear (b ∷ bs) = any_set-clear bs

pub clear_ok : (p a r : ℕ) (s : Slot) → s.is_idle ≡ true → SlotOk p a r s → SlotOk p a r (clear s)
clear_ok p a r s e h = ground (arith, any_set-clear s.ready_for_rpcs, any_set-clear s.completed_rpc)
