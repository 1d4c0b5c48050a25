-- ===== src/System/Dict.antt =====
-- A Python dict with numbers as keys: the items in the order in which their keys were first set.
use rea_lhf.Base.{
  Bool, List, Option, [], arith, false, if◌then◌else◌, mem, none, not, refl, some, true, ℕ, ◌&&◌,
  ◌++◌, ◌==◌, ◌||◌, ◌∷◌, ◌≡◌,
}

abbrev pub is_some {ℓ} : {A : Type ℓ} → Option A → Bool
is_some none = false
is_some (some a) = true

module _ {ℓ} {V : Type ℓ} where
  abbrev pub has : ℕ → List (ℕ × V) → Bool
  has k [] = false
  has k ((j, v) ∷ m) = j == k || has k m

  abbrev pub get : ℕ → List (ℕ × V) → Option V
  get k [] = none
  get k ((j, v) ∷ m) = if j == k then some v else get k m

  -- `m[k] = v`
  abbrev pub put : ℕ → V → List (ℕ × V) → List (ℕ × V)
  put k v [] = (k, v) ∷ []
  put k v ((j, w) ∷ m) = if j == k then (k, v) ∷ m else (j, w) ∷ put k v m

  -- `m.pop(k)`, where the key is there. (It is there once.)
  abbrev pub pop : ℕ → List (ℕ × V) → List (ℕ × V)
  pop k [] = []
  pop k ((j, w) ∷ m) = if j == k then pop k m else (j, w) ∷ pop k m

  abbrev pub keys : List (ℕ × V) → List ℕ
  keys [] = []
  keys ((j, w) ∷ m) = j ∷ keys m

  pub get-put :
      (k j : ℕ) (v : V) (m : List (ℕ × V))
      → get j (put k v m) ≡ (if k == j then some v else get j m)
  get-put k j v [] = refl
  get-put k j v ((i, w) ∷ m) = ground (arith, get-put k j v m)

  pub put_new : (k : ℕ) (v : V) (m : List (ℕ × V)) → has k m ≡ false → put k v m ≡ m ++ (k, v) ∷ []
  put_new k v [] h = refl
  put_new k v ((j, w) ∷ m) h = ground (arith, put_new k v m)

  pub has-append : (k : ℕ) (xs ys : List (ℕ × V)) → has k (xs ++ ys) ≡ (has k xs || has k ys)
  has-append k [] ys = refl
  has-append k ((j, v) ∷ xs) ys = ground (arith, has-append k xs ys)

  pub get_of-not-has : (k : ℕ) (m : List (ℕ × V)) → has k m ≡ false → get k m ≡ none
  get_of-not-has k [] h = refl
  get_of-not-has k ((j, v) ∷ m) h = ground (arith, get_of-not-has k m)

  pub has_of-get : (k : ℕ) (m : List (ℕ × V)) (v : V) → get k m ≡ some v → has k m ≡ true
  has_of-get k [] v h = cc
  has_of-get k ((j, w) ∷ m) v h = ground (arith, has_of-get k m v)

  pub pop_absent : (k : ℕ) (m : List (ℕ × V)) → has k m ≡ false → pop k m ≡ m
  pop_absent k [] h = refl
  pop_absent k ((j, w) ∷ m) h = ground (arith, pop_absent k m)

  pub get-pop : (k j : ℕ) (m : List (ℕ × V)) → get j (pop k m) ≡ (if k == j then none else get j m)
  get-pop k j [] = ground arith
  get-pop k j ((i, w) ∷ m) = ground (arith, get-pop k j m)

  pub not-mem-keys : (k : ℕ) (m : List (ℕ × V)) → get k m ≡ none → mem k (keys m) ≡ false
  not-mem-keys k [] h = refl
  not-mem-keys k ((j, w) ∷ m) h = ground (arith, not-mem-keys k m)

  pub mem-keys : (k : ℕ) (m : List (ℕ × V)) {v : V} → get k m ≡ some v → mem k (keys m) ≡ true
  mem-keys k [] h = cc
  mem-keys k ((j, w) ∷ m) {v} h = ground (arith, mem-keys k m {v = v})

  pub has-put : (k i : ℕ) (v : V) (m : List (ℕ × V)) → has i (put k v m) ≡ (k == i || has i m)
  has-put k i v [] = refl
  has-put k i v ((j, w) ∷ m) = ground (arith, has-put k i v m)

  pub has-pop : (k i : ℕ) (m : List (ℕ × V)) → has i (pop k m) ≡ (not (k == i) && has i m)
  has-pop k i [] = ground arith
  has-pop k i ((j, w) ∷ m) = ground (arith, has-pop k i m)

  pub mem-keys-has : (k : ℕ) (m : List (ℕ × V)) → mem k (keys m) ≡ has k m
  mem-keys-has k [] = refl
  mem-keys-has k ((j, w) ∷ m) = ground (arith, mem-keys-has k m)

  -- `m[k].append(…)`: the value of a key that is there is changed in its place.
  abbrev pub modify : ℕ → (V → V) → List (ℕ × V) → List (ℕ × V)
  modify k f [] = []
  modify k f ((j, v) ∷ m) = if j == k then (j, f v) ∷ modify k f m else (j, v) ∷ modify k f m
