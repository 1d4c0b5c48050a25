-- ===== src/Buffer/Slots/Positions.antt =====
-- Statements about every slot with its index, and what the index operations do to them.
use rea_lhf.Base.{
  Bool, Bool-cases, List, [], ap, arith, false, if◌then◌else◌, inl, inr, length, mem, refl, suc,
  sum_by, take, true, zero, ℕ, ℕ_discrete, ◌*◌, ◌+◌, ◌<◌, ◌∷◌, ◌≡◌, ◌≤◌,
}
use rea_lhf.Buffer.Slots.{Slot, all_at, update_at, where_}

abbrev pub AllFrom : (ℕ → Slot → Type 0) → ℕ → List Slot → Type 0
AllFrom P i [] = Unit
AllFrom P i (s ∷ ss) = P i s × AllFrom P (suc i) ss

pub AllFrom-imp :
    {P Q : ℕ → Slot → Type 0} (i : ℕ) (ss : List Slot)
    → ((j : ℕ) (s : Slot) → P j s → Q j s)
    → AllFrom P i ss
    → AllFrom Q i ss
AllFrom-imp i [] h a = tt
AllFrom-imp i (s ∷ ss) h a = (h i s a.0, AllFrom-imp (suc i) ss h a.1)

pub AllFrom-both :
    (P Q : ℕ → Slot → Type 0) (i : ℕ) (ss : List Slot)
    → AllFrom P i ss
    → AllFrom Q i ss
    → AllFrom (λ j s. P j s × Q j s) i ss
AllFrom-both P Q i [] a b = tt
AllFrom-both P Q i (s ∷ ss) a b = ((a.0, b.0), AllFrom-both P Q (suc i) ss a.1 b.1)

pub AllFrom-update_at :
    {P Q : ℕ → Slot → Type 0} (idx : List ℕ) (f : Slot → Slot) (i : ℕ) (ss : List Slot)
    → ((j : ℕ) (s : Slot) → P j s → mem j idx ≡ true → Q j (f s))
    → ((j : ℕ) (s : Slot) → P j s → mem j idx ≡ false → Q j s)
    → AllFrom P i ss
    → AllFrom Q i (update_at idx f i ss)
AllFrom-update_at idx f i [] h k a = tt
AllFrom-update_at idx f i (s ∷ ss) h k a = elim (Bool-cases (mem i idx)) [
  | inl e ↦ rw e (h i s a.0 e, AllFrom-update_at idx f (suc i) ss h k a.1)
  | inr e ↦ rw e (k i s a.0 e, AllFrom-update_at idx f (suc i) ss h k a.1)
]

pub AllFrom-all_at :
    (idx : List ℕ) (p : Slot → Bool) (i : ℕ) (ss : List Slot)
    → all_at idx p i ss ≡ true
    → AllFrom (λ j s. mem j idx ≡ true → p s ≡ true) i ss
AllFrom-all_at idx p i [] e = tt
AllFrom-all_at idx p i (s ∷ ss) e =
    (λ m. ground arith, AllFrom-all_at idx p (suc i) ss (ground arith))

pub length-update_at :
    (idx : List ℕ) (f : Slot → Slot) (i : ℕ) (ss : List Slot)
    → length (update_at idx f i ss) ≡ length ss
length-update_at idx f i [] = refl
length-update_at idx f i (s ∷ ss) = ap suc (length-update_at idx f (suc i) ss)

-- How many slots have their index in the list.
abbrev pub marked : List ℕ → ℕ → List Slot → ℕ
marked idx i [] = 0
marked idx i (s ∷ ss) = (if mem i idx then 1 else 0) + marked idx (suc i) ss

-- Where each listed slot weighs `a` before and `b` after.
pub sum_by-update_at :
    (w : Slot → ℕ) (a b : ℕ) (idx : List ℕ) (f : Slot → Slot) (i : ℕ) (ss : List Slot)
    → AllFrom (λ j s. mem j idx ≡ true → (w s ≡ a) × (w (f s) ≡ b)) i ss
    → sum_by w (update_at idx f i ss) + a * marked idx i ss ≡ sum_by w ss + b * marked idx i ss
sum_by-update_at w a b idx f i [] h = omega arith
sum_by-update_at w a b idx f i (s ∷ ss) h = elim (Bool-cases (mem i idx)) [
  | inl e ↦ rw e (omega (arith, sum_by-update_at w a b idx f (suc i) ss h.1, (h.0 e).0, (h.0 e).1))
  | inr e ↦ rw e (omega (arith, sum_by-update_at w a b idx f (suc i) ss h.1))
]

-- The listed indices rise, and lie between `lo` and `hi`.
abbrev pub Ascending : ℕ → ℕ → List ℕ → Type 0
Ascending lo hi [] = Unit
Ascending lo hi (x ∷ xs) = (lo ≤ x) × (x < hi) × Ascending (suc x) hi xs

pub Ascending-lower :
    (lo lo' hi : ℕ) (xs : List ℕ) → lo' ≤ lo → Ascending lo hi xs → Ascending lo' hi xs
Ascending-lower lo lo' hi [] h a = tt
Ascending-lower lo lo' hi (x ∷ xs) h a = (omega arith, a.1, a.2)

pub mem-Ascending_below :
    (i lo hi : ℕ) (xs : List ℕ) → i < lo → Ascending lo hi xs → mem i xs ≡ false
mem-Ascending_below i lo hi [] h a = refl
mem-Ascending_below i lo hi (x ∷ xs) h a =
    ground (arith, mem-Ascending_below i (suc x) hi xs (omega arith) a.2)

marked-cons :
    (x lo : ℕ) (xs : List ℕ) (i : ℕ) (ss : List Slot)
    → x < i
    → marked (x ∷ xs) i ss ≡ marked xs i ss
marked-cons x lo xs i [] h = refl
marked-cons x lo xs i (s ∷ ss) h = ground (arith, marked-cons x lo xs (suc i) ss (omega arith))

marked_nil : (i : ℕ) (ss : List Slot) → marked [] i ss ≡ 0
marked_nil i [] = refl
marked_nil i (s ∷ ss) = omega (arith, marked_nil (suc i) ss)

pub marked-Ascending :
    (idx : List ℕ) (i hi : ℕ) (ss : List Slot)
    → i + length ss ≡ hi
    → Ascending i hi idx
    → marked idx i ss ≡ length idx
marked-Ascending [] i hi ss e a = marked_nil i ss
marked-Ascending (x ∷ xs) i hi [] e a = absurd (omega arith)
marked-Ascending (x ∷ xs) i hi (s ∷ ss) e a = elim (ℕ_discrete i x) [
  | yes p ↦ ground (
    arith,
    marked-cons x i xs (suc i) ss (omega arith),
    marked-Ascending xs (suc i) hi ss (omega arith)
        (Ascending-lower (suc x) (suc i) hi xs (omega arith) a.2),
  )
  | no p ↦ ground (
    arith,
    mem-Ascending_below i (suc i) hi (x ∷ xs) (omega arith) (omega arith, a.1, a.2),
    marked-Ascending (x ∷ xs) (suc i) hi ss (omega arith) (omega arith, a.1, a.2),
  )
]

-- What `where_` finds.
pub where_-Ascending :
    (p : Slot → Bool) (i hi : ℕ) (ss : List Slot)
    → i + length ss ≡ hi
    → Ascending i hi (where_ p i ss)
where_-Ascending p i hi [] e = tt
where_-Ascending p i hi (s ∷ ss) e = elim (Bool-cases (p s)) [
  | inl t ↦ rw t (omega arith, omega arith, where_-Ascending p (suc i) hi ss (omega arith))
  | inr t ↦ rw t (
      Ascending-lower (suc i) i hi (where_ p (suc i) ss) (omega arith)
        (where_-Ascending p (suc i) hi ss (omega arith)))
]

AllFrom-imp_above :
    {P Q : ℕ → Slot → Type 0} (lo i : ℕ) (ss : List Slot)
    → lo < i
    → ((j : ℕ) (s : Slot) → lo < j → P j s → Q j s)
    → AllFrom P i ss
    → AllFrom Q i ss
AllFrom-imp_above lo i [] l h a = tt
AllFrom-imp_above lo i (s ∷ ss) l h a =
    (h i s l a.0, AllFrom-imp_above lo (suc i) ss (omega arith) h a.1)

pub mem-where_ :
    (p : Slot → Bool) (i : ℕ) (ss : List Slot) → AllFrom (λ j s. mem j (where_ p i ss) ≡ p s) i ss
mem-where_ p i [] = tt
mem-where_ p i (s ∷ ss) = elim (Bool-cases (p s)) [
  | inl t ↦ rw t (
    ground arith,
    AllFrom-imp_above {P = λ j s'. mem j (where_ p (suc i) ss) ≡ p s'} i (suc i) ss (omega arith)
        (λ j s' l e. ground arith) (mem-where_ p (suc i) ss),
  )
  | inr t ↦ (
    rw t (
        mem-Ascending_below i (suc i) (suc i + length ss) _ (omega arith)
          (where_-Ascending p (suc i) _ ss refl)),
    AllFrom-imp {P = λ j s'. mem j (where_ p (suc i) ss) ≡ p s'} (suc i) ss (λ j s' e. ground arith)
        (mem-where_ p (suc i) ss),
  )
]

pub Ascending-take : (n lo hi : ℕ) (xs : List ℕ) → Ascending lo hi xs → Ascending lo hi (take n xs)
Ascending-take zero lo hi xs a = tt
Ascending-take (suc n) lo hi [] a = tt
Ascending-take (suc n) lo hi (x ∷ xs) a = (a.0, a.1, Ascending-take n (suc x) hi xs a.2)

pub mem-take : (j n : ℕ) (xs : List ℕ) → mem j (take n xs) ≡ true → mem j xs ≡ true
mem-take j zero xs e = cc
mem-take j (suc n) [] e = cc
mem-take j (suc n) (x ∷ xs) e = ground (arith, mem-take j n xs)

pub sum_by-update_at_same :
    (w : Slot → ℕ) (idx : List ℕ) (f : Slot → Slot) (i : ℕ) (ss : List Slot)
    → AllFrom (λ j s. mem j idx ≡ true → w (f s) ≡ w s) i ss
    → sum_by w (update_at idx f i ss) ≡ sum_by w ss
sum_by-update_at_same w idx f i [] h = refl
sum_by-update_at_same w idx f i (s ∷ ss) h = elim (Bool-cases (mem i idx)) [
  | inl e ↦ rw e (omega (arith, sum_by-update_at_same w idx f (suc i) ss h.1, h.0 e))
  | inr e ↦ rw e (omega (arith, sum_by-update_at_same w idx f (suc i) ss h.1))
]
