-- ===== src/Buffer/Reach/Invariant.antt =====
-- The invariant of the buffer and its pending calls.
use rea_lhf.Base.{List, [], if◌then◌else◌, length, mem, sum_by, true, ℕ, ◌++◌, ◌||◌, ◌∷◌, ◌≡◌}
use rea_lhf.Buffer.Reach.{Pending, amending, putting, reading}
use rea_lhf.Buffer.Reach.Counts.{SlotsOk}
use rea_lhf.Buffer.Slots.{Slot}
use rea_lhf.Buffer.Slots.Positions.{Ascending}
use rea_lhf.Buffer.State.{Buffer}

-- A slot that counts for the size of the buffer.
abbrev pub placed : Slot → ℕ
placed s = if s.is_empty || s.is_being_put then 0 else 1

abbrev pub PendingOk : ℕ → Pending → Type 0
PendingOk n (putting idx) = Ascending 0 n idx
PendingOk n (amending idx) = Unit
PendingOk n (reading k rpc r) =
    Ascending 0 n r.pops × ((j : ℕ) → mem j r.pops ≡ true → mem j r.indices ≡ true)

abbrev pub AllPending : ℕ → List Pending → Type 0
AllPending n [] = Unit
AllPending n (q ∷ ps) = PendingOk n q × AllPending n ps

pub record Inv (b : Buffer) (ps : List Pending) : Type 0 where
  pub slots : SlotsOk ps b.slots
  pub size : sum_by placed b.slots ≡ b.buf_size
  pub pend : AllPending (length b.slots) ps

pub AllPending-middle :
    (n : ℕ) (xs ys : List Pending) (q : Pending)
    → AllPending n (xs ++ q ∷ ys)
    → PendingOk n q × AllPending n (xs ++ ys)
AllPending-middle n [] ys q h = h
AllPending-middle n (x ∷ xs) ys q h = let r = AllPending-middle n xs ys q h.1 in (r.0, (h.0, r.1))
