-- ===== src/NameResolve/Subtrees.antt =====
-- The subtrees of names.
use rea_lhf.Base.{
  Bool, Bool-cases, List, [], any, arith, eq_of_list_eq, false, if◌then◌else◌, inl, inr, list_eq,
  list_eq_refl, refl, starts_with, sym, true, ℕ, ◌&&◌, ◌++◌, ◌==◌, ◌||◌, ◌∙◌, ◌∷◌, ◌≡◌, ◌≢◌, ◌⊎◌,
}
use rea_lhf.NameResolve.{
  Name, NameError, Repository, clear_names, clear_subtree, get, get_subtree, has_name, in_subtree,
  name_entry_not_found, names, remove, rstrip, slash, values_below,
}
use rea_lhf.NameResolve.Store.{Distinct, Distinct-remove, get-absent, get-remove}

empty-cons : (c : ℕ) (cs : Name) → list_eq (c ∷ cs) (slash ∷ []) ≡ (c == slash && list_eq cs [])
empty-cons c cs = refl

-- A stripped root is never "/" itself, which `clear_subtree` and `get_subtree` test for.
rstrip-slash : (root : Name) → list_eq (rstrip root) (slash ∷ []) ≡ false
unfolding rstrip
rstrip-slash [] = refl
rstrip-slash (c ∷ cs) = elim (Bool-cases (c == slash && list_eq (rstrip cs) [])) [
  | inl e ↦ rw e
  | inr e ↦ rw e (empty-cons c (rstrip cs) ∙ e)
]

-- A name that is the root without the slashes at its end, or starts with that and a slash. (The
-- documentation says the first of the root itself.)
abbrev pub below : Name → Name → Bool
below root name = list_eq name (rstrip root) || starts_with (rstrip root ++ slash ∷ []) name

in_subtree_lem : (root name : Name) → in_subtree (rstrip root) name ≡ below root name
in_subtree_lem root name = rw (rstrip-slash root)

cleared {ℓ} :
    {A : Type ℓ} (a l t : Bool) (x y : A)
    → (l ≡ true → t ≡ true)
    → (if a && t then x else if l then x else y) ≡ (if (l || a) && t then x else y)
cleared a l t x y h = ground (arith, h)

kept {ℓ} :
    {A : Type ℓ} (a l t : Bool) (x y : A)
    → (l ≡ true → t ≡ false)
    → (if a && t then x else y) ≡ (if (l || a) && t then x else y)
kept a l t x y h = ground (arith, h)

get-clear_names :
    (root n : Name) (ns : List Name) (s : Repository)
    → Distinct s
    → get n (clear_names root ns s) ≡ (
        if any (λ m. list_eq m n) ns && in_subtree root n
        then inl name_entry_not_found
        else get n s)
unfolding clear_names
get-clear_names root n [] s d = refl
get-clear_names root n (m ∷ ns) s d = elim (Bool-cases (in_subtree root m)) [
  | inl e ↦
      rw (e, get-clear_names root n ns (remove m s) (Distinct-remove m s d), get-remove n m s d)
        (cleared (any (λ m. list_eq m n) ns) (list_eq m n) (in_subtree root n)
          (inl name_entry_not_found) (get n s) (λ f. rw⁻¹ (eq_of_list_eq m n f) e))
  | inr e ↦
      rw (e, get-clear_names root n ns s d)
        (kept (any (λ m. list_eq m n) ns) (list_eq m n) (in_subtree root n)
          (inl name_entry_not_found) (get n s) (λ f. rw⁻¹ (eq_of_list_eq m n f) e))
]

get-unnamed :
    (n : Name) (s : Repository)
    → any (λ m. list_eq m n) (names s) ≡ false
    → get n s ≡ inl name_entry_not_found
get-unnamed n s h = get-absent n s (unnamed s h)
  where
    unnamed : (s : Repository) → any (λ m. list_eq m n) (names s) ≡ false → has_name n s ≡ false
    unnamed [] h = refl
    unnamed ((k, v) ∷ s) h = ground (arith, h, unnamed s)

-- In a store of distinct names, `clear_subtree` deletes exactly the names that are the root, without the slashes at its end, or that
-- start with it and a slash; every other name keeps its value.
pub get-clear_subtree :
    (root n : Name) (s : Repository)
    → Distinct s
    → get n (clear_subtree root s) ≡ (if below root n then inl name_entry_not_found else get n s)
unfolding clear_subtree
get-clear_subtree root n s d =
    get-clear_names (rstrip root) n (names s) s d
    ∙ rw (in_subtree_lem root n)
        (named (any (λ m. list_eq m n) (names s)) (below root n) (get-unnamed n s))
  where
    named :
        (a b : Bool)
        → (a ≡ false → get n s ≡ inl name_entry_not_found)
        → (if a && b then inl name_entry_not_found else get n s)
          ≡ (if b then inl name_entry_not_found else get n s)
    named true b h = refl
    named false true h = h refl
    named false false h = refl

values_below-none :
    (root : Name) (s : Repository)
    → ((n : Name) → in_subtree root n ≡ true → get n s ≡ inl name_entry_not_found)
    → values_below root s ≡ []
unfolding values_below get
values_below-none root [] h = refl
values_below-none root ((k, v) ∷ s) h =
    rw (outside (in_subtree root k) (h k)) (values_below-none root s λ n e. rest n (h n e))
  where
    outside :
        (b : Bool)
        → (b ≡ true → (if list_eq k k then inr v else get k s) ≡ inl name_entry_not_found)
        → b ≡ false
    outside true h = absurd (found (rw (list_eq_refl k) at (h refl)))
      where
        found : ◌≢◌ {A = NameError ⊎ ℕ} (inr v) (inl name_entry_not_found)
        found e = cc
    outside false h = refl

    rest :
        (n : Name)
        → (if list_eq k n then inr v else get n s) ≡ inl name_entry_not_found
        → get n s ≡ inl name_entry_not_found
    rest n e = elim (Bool-cases (list_eq k n)) [ inl f ↦ cc | inr f ↦ rw f at e ]

-- In a store of distinct names, after a subtree is cleared, `get_subtree` finds nothing in it.
pub get_subtree-clear_subtree :
    (root : Name) (s : Repository) → Distinct s → get_subtree root (clear_subtree root s) ≡ []
unfolding get_subtree
get_subtree-clear_subtree root s d =
    values_below-none (rstrip root) (clear_subtree root s)
      λ n h. get-clear_subtree root n s d ∙ rw (sym (in_subtree_lem root n) ∙ h)
