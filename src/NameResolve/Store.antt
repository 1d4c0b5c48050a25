-- ===== src/NameResolve/Store.antt =====
-- Adding and deleting names.
use rea_lhf.Base.{
  Bool, Bool-cases, [], arith, eq_of_list_eq, false, if◌then◌else◌, inl, inr, list_eq, list_eq_refl,
  not, refl, sym, true, ℕ, ◌&&◌, ◌||◌, ◌∙◌, ◌∷◌, ◌≡◌,
}
use rea_lhf.NameResolve.{
  Name, Repository, add, assign, delete, get, has_name, name_entry_exists, name_entry_not_found,
  remove,
}

-- The names of a dict are distinct.
abbrev pub Distinct : Repository → Type 0
Distinct [] = Unit
Distinct ((k, v) ∷ s) = (has_name k s ≡ false) × Distinct s

pub differ : (a b c : Name) → list_eq a b ≡ true → list_eq a c ≡ false → list_eq c b ≡ false
differ a b c e f = elim (Bool-cases (list_eq c b)) [
  | inl g ↦
      let p : a ≡ c = eq_of_list_eq a b e ∙ sym (eq_of_list_eq c b g) in
      let q : list_eq a c ≡ true = rw p (list_eq_refl c) in cc
  | inr g ↦ g
]

same {ℓ} : {A : Type ℓ} (b : Bool) (x : A) → x ≡ (if b then x else x)
same true x = refl
same false x = refl

absorb {ℓ} :
    {A : Type ℓ} (b : Bool) (x y z : A)
    → (if b then x else z) ≡ (if b then x else if b then y else z)
absorb true x y z = refl
absorb false x y z = refl

swap {ℓ} :
    {A : Type ℓ} (a b : Bool) (x y z : A)
    → (a ≡ true → b ≡ false)
    → (if a then x else if b then y else z) ≡ (if b then y else if a then x else z)
swap a b x y z h = ground (arith, h)

get-assign :
    (n name : Name) (value : ℕ) (s : Repository)
    → get n (assign name value s) ≡ (if list_eq name n then inr value else get n s)
unfolding get
get-assign n name value [] = refl
get-assign n name value ((k, v) ∷ s) = elim (Bool-cases (list_eq k name)) [
  | inl e ↦
      rw (eq_of_list_eq k name e, list_eq_refl name)
        (absorb (list_eq name n) (inr value) (inr v) (get n s))
  | inr e ↦
      rw (e, get-assign n name value s)
        (swap (list_eq k n) (list_eq name n) (inr v) (inr value) (get n s)
          (λ f. differ k n name f e))
]

-- After a name is added without an error, `get` returns its new value, and for every other name what it returned
-- before.
pub get-add :
    (name : Name) (value : ℕ) (replace : Bool) (s t : Repository) (n : Name)
    → add name value replace s ≡ inr t
    → get n t ≡ (if list_eq name n then inr value else get n s)
unfolding add
get-add name value replace s t n e =
    let p : t ≡ assign name value s = done (has_name name s && not replace) e in
    rw p (get-assign n name value s)
  where
    done :
        (b : Bool)
        → (if b then inl name_entry_exists else inr (assign name value s)) ≡ inr t
        → t ≡ assign name value s
    done true e = cc
    done false e = cc

pub get-absent :
    (name : Name) (s : Repository) → has_name name s ≡ false → get name s ≡ inl name_entry_not_found
unfolding get
get-absent name [] h = refl
get-absent name ((k, v) ∷ s) h =
    let (e, f) : (list_eq k name ≡ false) × (has_name name s ≡ false) = ground (arith, h) in
    rw e (get-absent name s f)

pub get-remove :
    (n name : Name) (s : Repository)
    → Distinct s
    → get n (remove name s) ≡ (if list_eq name n then inl name_entry_not_found else get n s)
unfolding get
get-remove n name [] d = same (list_eq name n) (inl name_entry_not_found)
get-remove n name ((k, v) ∷ s) (h, d) = elim (Bool-cases (list_eq k name)) [
  | inl e ↦
      let q : has_name name s ≡ false = rw⁻¹ (eq_of_list_eq k name e) h in
      rw (e, eq_of_list_eq k name e) (gone v q)
  | inr e ↦
      rw (e, get-remove n name s d)
        (swap (list_eq k n) (list_eq name n) (inr v) (inl name_entry_not_found) (get n s)
          (λ f. differ k n name f e))
]
  where
    gone :
        (v : ℕ)
        → has_name name s ≡ false
        → get n s ≡ (
            if list_eq name n
            then inl name_entry_not_found
            else if list_eq name n
            then inr v
            else get n s)
    gone v q = elim (Bool-cases (list_eq name n)) [
      | inl f ↦
          let r : has_name n s ≡ false = rw⁻¹ (eq_of_list_eq name n f) q in rw f (get-absent n s r)
      | inr f ↦ rw f
    ]

has_name-remove :
    (n name : Name) (s : Repository) → has_name n s ≡ false → has_name n (remove name s) ≡ false
has_name-remove n name [] h = refl
has_name-remove n name ((k, v) ∷ s) h = elim (Bool-cases (list_eq k name)) [
  | inl e ↦ rw e (ground (arith, h))
  | inr e ↦ rw e (ground (arith, h, has_name-remove n name s))
]

pub Distinct-remove : (name : Name) (s : Repository) → Distinct s → Distinct (remove name s)
Distinct-remove name [] d = tt
Distinct-remove name ((k, v) ∷ s) (h, d) = elim (Bool-cases (list_eq k name)) [
  | inl e ↦ rw e d
  | inr e ↦ rw e (has_name-remove k name s h, Distinct-remove name s d)
]

has_name-assign :
    (n name : Name) (value : ℕ) (s : Repository)
    → has_name n (assign name value s) ≡ has_name n s || list_eq name n
has_name-assign n name value [] = ground arith
has_name-assign n name value ((k, v) ∷ s) = elim (Bool-cases (list_eq k name)) [
  | inl e ↦ rw (e, eq_of_list_eq k name e) (ground arith)
  | inr e ↦ rw e (ground (arith, has_name-assign n name value s))
]

Distinct-assign :
    (name : Name) (value : ℕ) (s : Repository) → Distinct s → Distinct (assign name value s)
Distinct-assign name value [] d = (refl, tt)
Distinct-assign name value ((k, v) ∷ s) (h, d) = elim (Bool-cases (list_eq k name)) [
  | inl e ↦ rw e (h, d)
  | inr e ↦ rw e (
    has_name-assign k name value s ∙ rw (h, differ k k name (list_eq_refl k) e),
    Distinct-assign name value s d,
  )
]

-- In a store of distinct names, after a name is deleted, `get` does not find it, and finds for every other name what it found before.
pub get-delete :
    (name : Name) (s t : Repository) (n : Name)
    → Distinct s
    → delete name s ≡ inr t
    → get n t ≡ (if list_eq name n then inl name_entry_not_found else get n s)
unfolding delete
get-delete name s t n d e =
    let p : t ≡ remove name s = done (has_name name s) e in rw p (get-remove n name s d)
  where
    done :
        (b : Bool)
        → (if b then inr (remove name s) else inl name_entry_not_found) ≡ inr t
        → t ≡ remove name s
    done true e = cc
    done false e = cc
