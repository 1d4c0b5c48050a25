-- ===== src/Buffer/Reach/Counts.antt =====
-- How many pending calls put, amend or read a slot, and the locked sections on all slots at once.
use rea_lhf.Base.{
  Bool, List, [], arith, false, mem, refl, sum_by, true, ℕ, ◌++◌, ◌+◌, ◌∙◌, ◌∷◌, ◌≡◌,
}
use rea_lhf.Buffer.Reach.{Pending, amending, putting, reading}
use rea_lhf.Buffer.Reach.SlotOk.{SlotOk, bit}
use rea_lhf.Buffer.Slots.{Slot, update_at}
use rea_lhf.Buffer.Slots.Positions.{AllFrom, AllFrom-both, AllFrom-update_at}

module _ (j : ℕ) where
  abbrev pub puts_one : Pending → ℕ
  puts_one (putting idx) = bit (mem j idx)
  puts_one (amending idx) = 0
  puts_one (reading k rpc r) = 0

  abbrev pub amends_one : Pending → ℕ
  amends_one (putting idx) = 0
  amends_one (amending idx) = bit (mem j idx)
  amends_one (reading k rpc r) = 0

  abbrev pub reads_one : Pending → ℕ
  reads_one (putting idx) = 0
  reads_one (amending idx) = 0
  reads_one (reading k rpc r) = bit (mem j r.indices)

  abbrev pub puts : List Pending → ℕ
  puts ps = sum_by puts_one ps

  abbrev pub amends : List Pending → ℕ
  amends ps = sum_by amends_one ps

  abbrev pub reads : List Pending → ℕ
  reads ps = sum_by reads_one ps

abbrev pub indices_of : Pending → List ℕ
indices_of (putting idx) = idx
indices_of (amending idx) = idx
indices_of (reading k rpc r) = r.indices

abbrev pub SlotsOk : List Pending → List Slot → Type 0
SlotsOk ps ss = AllFrom (λ j s. SlotOk (puts j ps) (amends j ps) (reads j ps) s) 0 ss

pub sum_by-middle {ℓ} :
    {A : Type ℓ} (f : A → ℕ) (xs ys : List A) (q : A)
    → sum_by f (xs ++ q ∷ ys) ≡ f q + sum_by f (xs ++ ys)
sum_by-middle f [] ys q = refl
sum_by-middle f (x ∷ xs) ys q = omega (arith, sum_by-middle f xs ys q)

pub SlotOk-cast :
    {p p' a a' r r' : ℕ} (s : Slot) → p ≡ p' → a ≡ a' → r ≡ r' → SlotOk p a r s → SlotOk p' a' r' s
SlotOk-cast s e f g h = (h.0 ∙ e, h.1 ∙ f, h.2 ∙ g, h.3, h.4, h.5, h.6, h.7)

-- A pending call that leaves a slot out does not count for it.
outside :
    (q : Pending) (j : ℕ)
    → mem j (indices_of q) ≡ false
    → (puts_one j q ≡ 0) × (amends_one j q ≡ 0) × (reads_one j q ≡ 0)
outside (putting idx) j e = ground arith
outside (amending idx) j e = ground arith
outside (reading k rpc r) j e = ground arith

pub begin_slots :
    (q : Pending) (ps : List Pending) (f : Slot → Slot) (g : Slot → Bool) (ss : List Slot)
    → ((j p a r : ℕ) (s : Slot)
        → mem j (indices_of q) ≡ true
        → g s ≡ true
        → SlotOk p a r s
        → SlotOk (puts_one j q + p) (amends_one j q + a) (reads_one j q + r) (f s))
    → AllFrom (λ j s. mem j (indices_of q) ≡ true → g s ≡ true) 0 ss
    → SlotsOk ps ss
    → SlotsOk (q ∷ ps) (update_at (indices_of q) f 0 ss)
begin_slots q ps f g ss step guard ok =
    AllFrom-update_at (indices_of q) f 0 ss (λ j s h m. step j _ _ _ s m (h.1 m) h.0)
      (λ j s h m.
        let o = outside q j m in SlotOk-cast s (omega arith) (omega arith) (omega arith) h.0)
      (AllFrom-both (λ j s. SlotOk (puts j ps) (amends j ps) (reads j ps) s)
        (λ j s. mem j (indices_of q) ≡ true → g s ≡ true) 0 ss ok guard)

pub end_slots :
    (q : Pending) (xs ys : List Pending) (f : Slot → Slot) (ss : List Slot)
    → ((j p a r : ℕ) (s : Slot)
        → mem j (indices_of q) ≡ true
        → SlotOk (puts_one j q + p) (amends_one j q + a) (reads_one j q + r) s
        → SlotOk p a r (f s))
    → SlotsOk (xs ++ q ∷ ys) ss
    → SlotsOk (xs ++ ys) (update_at (indices_of q) f 0 ss)
end_slots q xs ys f ss step ok =
    AllFrom-update_at (indices_of q) f 0 ss
      (λ j s h m. step j _ _ _ s m (
        SlotOk-cast s (sum_by-middle (puts_one j) xs ys q) (sum_by-middle (amends_one j) xs ys q)
          (sum_by-middle (reads_one j) xs ys q) h))
      (λ j s h m.
        let o = outside q j m in
        SlotOk-cast s (omega (arith, sum_by-middle (puts_one j) xs ys q))
          (omega (arith, sum_by-middle (amends_one j) xs ys q))
          (omega (arith, sum_by-middle (reads_one j) xs ys q)) h)
      ok
