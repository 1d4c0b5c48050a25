-- ===== src/Base/Names.antt =====
-- Sequences of numbers that are compared as wholes: coordinates, and strings as lists of characters.
use Prim.Native.Nat.{ℕ}
use mathlib.Core.Bool.{Bool, false, true, ◌&&◌}
use mathlib.Core.List.{List, [], ◌++◌, ◌∷◌}
use mathlib.Core.Path.{refl, ◌≡◌}
use native.Mathlib.Omega.{arith}
use rea_lhf.Base.Tests.{◌==◌}

abbrev pub list_eq : List ℕ → List ℕ → Bool
list_eq [] [] = true
list_eq [] (y ∷ ys) = false
list_eq (x ∷ xs) [] = false
list_eq (x ∷ xs) (y ∷ ys) = x == y && list_eq xs ys

pub eq_of_list_eq : (xs ys : List ℕ) → list_eq xs ys ≡ true → xs ≡ ys
eq_of_list_eq [] [] e = refl
eq_of_list_eq [] (y ∷ ys) e = cc
eq_of_list_eq (x ∷ xs) [] e = cc
eq_of_list_eq (x ∷ xs) (y ∷ ys) e = ground (arith, eq_of_list_eq xs ys)

pub list_eq_refl : (xs : List ℕ) → list_eq xs xs ≡ true
list_eq_refl [] = refl
list_eq_refl (x ∷ xs) = ground (arith, list_eq_refl xs)

-- `ys.startswith(xs)`
abbrev pub starts_with : List ℕ → List ℕ → Bool
starts_with [] ys = true
starts_with (x ∷ xs) [] = false
starts_with (x ∷ xs) (y ∷ ys) = x == y && starts_with xs ys

pub starts_with-append :
    (xs zs ys : List ℕ) → starts_with (xs ++ zs) ys ≡ true → starts_with xs ys ≡ true
starts_with-append [] zs ys e = refl
starts_with-append (x ∷ xs) zs [] e = cc
starts_with-append (x ∷ xs) zs (y ∷ ys) e = ground (arith, starts_with-append xs zs ys)
