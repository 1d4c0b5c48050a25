-- ===== src/Pipeline/Instruction/Order.antt =====
-- Equality and order of instructions.
use rea_lhf.Base.{==_iff, ==_refl, Bool, arith, ltb, not, refl, true, ℕ, ◌&&◌, ◌==◌, ◌||◌, ◌↔◌, ◌≡◌}
use rea_lhf.Base.Int.{ltb_ℤ, ℤ}
use rea_lhf.Pipeline.Instruction.{Name, PipeInstruction, eq, int_eq, lt, name_eq}

int_eq_iff : (a b : ℤ) → (int_eq a b ≡ true) ↔ (a ≡ b)
int_eq_iff a b = ground arith

name_eq_sound : (a b : Name) → name_eq a b ≡ true → a ≡ b
name_eq_sound a b e = ground arith

name_eq_refl : (a : Name) → name_eq a a ≡ true
name_eq_refl a = ground arith

parts :
    (a b c d : Bool) → a && b && c && d ≡ true → (a ≡ true) × (b ≡ true) × (c ≡ true) × (d ≡ true)
parts a b c d e = ground arith

all_true : (a b c d : Bool) → a ≡ true → b ≡ true → c ≡ true → d ≡ true → a && b && c && d ≡ true
all_true a b c d e f g h = rw (e, f, g, h)

same :
    (a b : PipeInstruction)
    → a.stage_id ≡ b.stage_id
    → a.micro_batch_id ≡ b.micro_batch_id
    → a.step_id ≡ b.step_id
    → a.name ≡ b.name
    → a ≡ b
same a b s m t n = cc

-- `__eq__` holds if and only if two instructions agree in their name and in all three ids.
pub eq_iff : (a b : PipeInstruction) → (eq a b ≡ true) ↔ (a ≡ b)
unfolding eq
eq_iff a b = (
  λ e.
      let (s, m, t, n) = parts _ _ _ _ e in
      same a b ((==_iff a.stage_id b.stage_id).0 s) ((int_eq_iff _ _).0 m) ((int_eq_iff _ _).0 t)
        (name_eq_sound _ _ n),
  λ p. rw p (
      all_true _ _ _ _ (==_refl b.stage_id) ((int_eq_iff b.micro_batch_id b.micro_batch_id).1 refl)
        ((int_eq_iff b.step_id b.step_id).1 refl) (name_eq_refl b.name)),
)

-- Exactly one of three tests holds.
abbrev pub one_of : Bool → Bool → Bool → Bool
one_of l e g = (l && not e && not g) || (not l && e && not g) || (not l && not e && g)

one_of-lex :
    (l₁ e₁ g₁ l₂ e₂ g₂ l₃ e₃ g₃ n : Bool)
    → one_of l₁ e₁ g₁ ≡ true
    → one_of l₂ e₂ g₂ ≡ true
    → one_of l₃ e₃ g₃ ≡ true
    → n ≡ true
    → one_of
        (l₁ || e₁ && l₂ || e₁ && e₂ && l₃)
        (e₁ && e₂ && e₃ && n)
        (g₁ || e₁ && g₂ || e₁ && e₂ && g₃)
      ≡ true
one_of-lex l₁ e₁ g₁ l₂ e₂ g₂ l₃ e₃ g₃ n h i j k = ground (arith, h, i, j, k)

stage_one_of : (a b : ℕ) → one_of (ltb a b) (a == b) (ltb b a) ≡ true
stage_one_of a b = ground arith

id_one_of : (a b : ℤ) → one_of (ltb_ℤ a b) (int_eq a b) (ltb_ℤ b a) ≡ true
id_one_of a b = ground arith

==_sym : (a b : ℕ) → (b == a) ≡ (a == b)
==_sym a b = ground arith

int_eq_sym : (a b : ℤ) → int_eq b a ≡ int_eq a b
int_eq_sym a b = ground arith

-- Of two instructions of the same name exactly one holds: the first is less by `__lt__`, they are equal
-- by `__eq__`, or the second is less.
pub one_of-lt : (a b : PipeInstruction) → a.name ≡ b.name → one_of (lt a b) (eq a b) (lt b a) ≡ true
unfolding lt eq
one_of-lt a b h =
    rw (==_sym a.stage_id b.stage_id, int_eq_sym a.micro_batch_id b.micro_batch_id)
      (one_of-lex (ltb a.stage_id b.stage_id) (a.stage_id == b.stage_id) (ltb b.stage_id a.stage_id)
        (ltb_ℤ a.micro_batch_id b.micro_batch_id) (int_eq a.micro_batch_id b.micro_batch_id)
        (ltb_ℤ b.micro_batch_id a.micro_batch_id) (ltb_ℤ a.step_id b.step_id)
        (int_eq a.step_id b.step_id) (ltb_ℤ b.step_id a.step_id) (name_eq a.name b.name)
        (stage_one_of a.stage_id b.stage_id) (id_one_of a.micro_batch_id b.micro_batch_id)
        (id_one_of a.step_id b.step_id) (rw h (name_eq_refl b.name)))
