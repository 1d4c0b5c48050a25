-- ===== src/Base/Lists.antt =====
-- Lists measured and indexed by native numbers, under the library's names.
use mathlib.Core.Bool.{◌&&◌}
use mathlib.Core.Bool.{◌||◌}
use rea_lhf.Base.Tests.{◌==◌}
use Prim.Native.Nat.{min, suc, zero, ℕ, ◌+◌, ◌-◌, ◌<◌}
use mathlib.Core.Bool.{Bool, false, true}
use mathlib.Core.List.{List, [], map, ◌++◌, ◌∷◌}
use mathlib.Core.Logic.{◌≢◌}
use mathlib.Core.Option.{Option, none, some}
use mathlib.Core.Path.{ap, refl, ◌∙◌, ◌≡◌}
use native.Mathlib.Omega.{arith}

module _ {ℓ} {A : Type ℓ} where
  abbrev pub length : List A → ℕ
  length [] = 0
  length (x ∷ xs) = suc (length xs)

  abbrev pub get_elem? : List A → ℕ → Option A
  get_elem? [] i = none
  get_elem? (x ∷ xs) zero = some x
  get_elem? (x ∷ xs) (suc i) = get_elem? xs i

  -- A write out of bounds changes nothing.
  abbrev pub set : List A → ℕ → A → List A
  set [] i v = []
  set (x ∷ xs) zero v = v ∷ xs
  set (x ∷ xs) (suc i) v = x ∷ set xs i v

  pub length-append : (xs ys : List A) → length (xs ++ ys) ≡ length xs + length ys
  length-append [] ys = omega arith
  length-append (x ∷ xs) ys = omega (arith, length-append xs ys)

module _ {ℓ} {A : Type ℓ} where
  pub length-set : (xs : List A) (i : ℕ) (v : A) → length (set xs i v) ≡ length xs
  length-set [] i v = refl
  length-set (x ∷ xs) zero v = refl
  length-set (x ∷ xs) (suc i) v = ap suc (length-set xs i v)

  pub get_elem?-set_self :
      (xs : List A) (i : ℕ) (v : A) → i < length xs → get_elem? (set xs i v) i ≡ some v
  get_elem?-set_self [] i v h = elim h [ ]
  get_elem?-set_self (x ∷ xs) zero v h = refl
  get_elem?-set_self (x ∷ xs) (suc i) v h = get_elem?-set_self xs i v (omega arith)

  pub get_elem?-set_ne :
      (xs : List A) {i j : ℕ} (v : A) → i ≢ j → get_elem? (set xs i v) j ≡ get_elem? xs j
  get_elem?-set_ne [] v h = refl
  get_elem?-set_ne (x ∷ xs) {i = zero} {j = zero} v h = absurd (h refl)
  get_elem?-set_ne (x ∷ xs) {i = zero} {j = suc j} v h = refl
  get_elem?-set_ne (x ∷ xs) {i = suc i} {j = zero} v h = refl
  get_elem?-set_ne (x ∷ xs) {i = suc i} {j = suc j} v h = get_elem?-set_ne xs v (λ e. h (ap suc e))

module _ {ℓ} {A : Type ℓ} where
  abbrev pub get_or : List A → ℕ → A → A
  get_or [] i d = d
  get_or (x ∷ xs) zero d = x
  get_or (x ∷ xs) (suc i) d = get_or xs i d

  abbrev pub take : ℕ → List A → List A
  take zero xs = []
  take (suc n) [] = []
  take (suc n) (x ∷ xs) = x ∷ take n xs

  abbrev pub drop : ℕ → List A → List A
  drop zero xs = xs
  drop (suc n) [] = []
  drop (suc n) (x ∷ xs) = drop n xs

  abbrev pub replicate : ℕ → A → List A
  replicate zero a = []
  replicate (suc n) a = a ∷ replicate n a

  pub take-append-drop : (n : ℕ) (xs : List A) → take n xs ++ drop n xs ≡ xs
  take-append-drop zero xs = refl
  take-append-drop (suc n) [] = refl
  take-append-drop (suc n) (x ∷ xs) = rw (take-append-drop n xs)

  pub length-take : (n : ℕ) (xs : List A) → length (take n xs) ≡ min n (length xs)
  length-take zero xs = omega arith
  length-take (suc n) [] = omega arith
  length-take (suc n) (x ∷ xs) = omega (arith, length-take n xs)

  pub length-drop : (n : ℕ) (xs : List A) → length (drop n xs) ≡ length xs - n
  length-drop zero xs = omega arith
  length-drop (suc n) [] = omega arith
  length-drop (suc n) (x ∷ xs) = omega (arith, length-drop n xs)

  pub length-replicate : (n : ℕ) (a : A) → length (replicate n a) ≡ n
  length-replicate zero a = refl
  length-replicate (suc n) a = ap suc (length-replicate n a)

  pub length-map {κ} : {B : Type κ} (xs : List A) (f : A → B) → length (map f xs) ≡ length xs
  length-map [] f = refl
  length-map (x ∷ xs) f = ap suc (length-map xs f)

module _ {ℓ} {A : Type ℓ} where
  -- `if b: xs.append(a)`
  abbrev pub when : Bool → A → List A
  when true a = a ∷ []
  when false a = []

  -- `f i, f (i + 1), …`, `n` values: a `for` loop over a range that yields.
  abbrev pub tabulate : ℕ → ℕ → (ℕ → A) → List A
  tabulate zero i f = []
  tabulate (suc n) i f = f i ∷ tabulate n (suc i) f

  pub length-tabulate : (n i : ℕ) (f : ℕ → A) → length (tabulate n i f) ≡ n
  length-tabulate zero i f = refl
  length-tabulate (suc n) i f = ap suc (length-tabulate n (suc i) f)

  pub get_elem?-tabulate :
      (n i k : ℕ) (f : ℕ → A) → k < n → get_elem? (tabulate n i f) k ≡ some (f (i + k))
  get_elem?-tabulate zero i k f h = elim h [ ]
  get_elem?-tabulate (suc n) i zero f h = ap (λ j. some (f j)) (omega arith)
  get_elem?-tabulate (suc n) i (suc k) f h =
      get_elem?-tabulate n (suc i) k f (omega arith) ∙ ap (λ j. some (f j)) (omega arith)

  pub get_elem?-tabulate_zero :
      (n k : ℕ) (f : ℕ → A) → k < n → get_elem? (tabulate n 0 f) k ≡ some (f k)
  get_elem?-tabulate_zero n k f h =
      get_elem?-tabulate n 0 k f h ∙ ap (λ j. some (f j)) (omega arith)

  pub get_elem?-tabulate-none :
      (n i k : ℕ) (f : ℕ → A) → ¬ (k < n) → get_elem? (tabulate n i f) k ≡ none
  get_elem?-tabulate-none zero i k f h = refl
  get_elem?-tabulate-none (suc n) i zero f h = absurd (h (omega arith))
  get_elem?-tabulate-none (suc n) i (suc k) f h =
      get_elem?-tabulate-none n (suc i) k f (λ l. h (omega arith))

-- Membership of a number, as the Boolean test `x in xs`.
abbrev pub mem : ℕ → List ℕ → Bool
mem a [] = false
mem a (x ∷ xs) = a == x || mem a xs

module _ {ℓ} {A : Type ℓ} where
  abbrev pub all : (A → Bool) → List A → Bool
  all p [] = true
  all p (x ∷ xs) = p x && all p xs

  abbrev pub any : (A → Bool) → List A → Bool
  any p [] = false
  any p (x ∷ xs) = p x || any p xs

  abbrev pub sum_by : (A → ℕ) → List A → ℕ
  sum_by f [] = 0
  sum_by f (x ∷ xs) = f x + sum_by f xs

module _ {ℓ} {A : Type ℓ} where
  pub get_elem?-append_left :
      (xs ys : List A) (j : ℕ) → j < length xs → get_elem? (xs ++ ys) j ≡ get_elem? xs j
  get_elem?-append_left [] ys j h = elim h [ ]
  get_elem?-append_left (x ∷ xs) ys zero h = refl
  get_elem?-append_left (x ∷ xs) ys (suc j) h = get_elem?-append_left xs ys j (omega arith)

  pub get_elem?-append_right :
      (xs ys : List A) (j : ℕ) → get_elem? (xs ++ ys) (length xs + j) ≡ get_elem? ys j
  get_elem?-append_right [] ys j = ap (get_elem? ys) (omega arith)
  get_elem?-append_right (x ∷ xs) ys j =
      ap (get_elem? (x ∷ xs ++ ys)) {y = suc (length xs + j)} (omega arith)
      ∙ get_elem?-append_right xs ys j

  pub get_elem?-some : (xs : List A) (j : ℕ) → j < length xs → (x : A) × (get_elem? xs j ≡ some x)
  get_elem?-some [] j h = elim h [ ]
  get_elem?-some (x ∷ xs) zero h = (x, refl)
  get_elem?-some (x ∷ xs) (suc j) h = get_elem?-some xs j (omega arith)

  pub lt_of_get_elem? : (xs : List A) (j : ℕ) {x : A} → get_elem? xs j ≡ some x → j < length xs
  lt_of_get_elem? [] j h = cc
  lt_of_get_elem? (y ∷ xs) zero h = omega arith
  lt_of_get_elem? (y ∷ xs) (suc j) h = omega (arith, lt_of_get_elem? xs j h)

  pub get_elem?-map-some {κ} :
      {B : Type κ} (f : A → B) (xs : List A) (j : ℕ) {y : B}
      → get_elem? (map f xs) j ≡ some y
      → (x : A) × (get_elem? xs j ≡ some x) × (y ≡ f x)
  get_elem?-map-some f [] j h = cc
  get_elem?-map-some f (x ∷ xs) zero h = (x, refl, cc)
  get_elem?-map-some f (x ∷ xs) (suc j) h = get_elem?-map-some f xs j h

module _ {ℓ} {A : Type ℓ} where
  pub get_or-tabulate :
      (n i k : ℕ) (f : ℕ → A) (d : A) → k < n → get_or (tabulate n i f) k d ≡ f (i + k)
  get_or-tabulate zero i k f d h = elim h [ ]
  get_or-tabulate (suc n) i zero f d h = ap f (omega arith)
  get_or-tabulate (suc n) i (suc k) f d h =
      get_or-tabulate n (suc i) k f d (omega arith) ∙ ap f (omega arith)

  pub get_or-tabulate_zero :
      (n k : ℕ) (f : ℕ → A) (d : A) → k < n → get_or (tabulate n 0 f) k d ≡ f k
  get_or-tabulate_zero n k f d h = get_or-tabulate n 0 k f d h ∙ ap f (omega arith)
