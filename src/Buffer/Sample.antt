-- ===== src/Buffer/Sample.antt =====
-- realhf/api/core/data_api.py, as far as the buffer reads a `SequenceSample`: its ids and its keys.
-- The tensors, their lengths, types and shapes are indexed by the same keys and are left out.
use mathlib.Core.List.{flatten}
use rea_lhf.Base.{
  Bool, List, Option, [], all, arith, assert, false, if◌then◌else◌, map, mem, some, true, ℕ, ◌&&◌,
  ◌==◌, ◌>>=◌, ◌||◌, ◌∷◌, ◌≡◌,
}

pub record Sample : Type 0 where
  pub ids : List ℕ
  pub keys : List ℕ

abbrev pub ids_eq : List ℕ → List ℕ → Bool
ids_eq [] [] = true
ids_eq [] (y ∷ ys) = false
ids_eq (x ∷ xs) [] = false
ids_eq (x ∷ xs) (y ∷ ys) = x == y && ids_eq xs ys

-- A set union; a set has no order, so the new keys may stand anywhere.
abbrev pub union : List ℕ → List ℕ → List ℕ
union xs [] = xs
union xs (y ∷ ys) = if mem y xs then union xs ys else union (y ∷ xs) ys

-- `update_`. It asserts that both samples have the same ids.
unfoldable pub update : Sample → Sample → Option Sample
update s other =
    assert (ids_eq s.ids other.ids) >>= λ _. some (record s { keys = union s.keys other.keys })

-- `gather`. Each key is looked up in each sample, and a missing one raises KeyError.
unfoldable pub gather : List Sample → List ℕ → Option Sample
gather samples keys = assert (all (λ s. all (λ k. mem k s.keys) keys) samples) >>= λ _.
    some (record { ids = flatten (map (λ s. s.ids) samples); keys = keys })

pub mem-union : (a : ℕ) (xs ys : List ℕ) → mem a (union xs ys) ≡ mem a xs || mem a ys
mem-union a xs [] = ground arith
mem-union a xs (y ∷ ys) = ground (arith, mem-union a xs ys, mem-union a (y ∷ xs) ys)
