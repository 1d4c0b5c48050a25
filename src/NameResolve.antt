-- ===== src/NameResolve.antt =====
-- realhf/base/name_resolve.py, `MemoryNameRecordRepository`, and `wait` of its base class. A name is
-- the list of its characters; a value is compared with nothing, so it is a number. The store keeps the
-- order in which names came, as a Python dict does.
pub mod Store
pub mod Subtrees
pub mod Listing
pub mod Waiting
mod Examples
use rea_lhf.Base.{
  Bool, List, Option, [], false, if◌then◌else◌, inl, inr, list_eq, ltb, map, none, not, some,
  starts_with, true, ℕ, ◌&&◌, ◌++◌, ◌==◌, ◌||◌, ◌∷◌, ◌⊎◌,
}

pub data NameError : Type 0 where
  name_entry_exists name_entry_not_found timeout : NameError

abbrev pub Name : Type 0
Name = List ℕ

abbrev pub Repository : Type 0
Repository = List (Name × ℕ)

-- `name in self.__store`
abbrev pub has_name : Name → Repository → Bool
has_name name [] = false
has_name name ((k, v) ∷ s) = list_eq k name || has_name name s

-- `self.__store[name] = value`: a name that is there keeps its place.
abbrev pub assign : Name → ℕ → Repository → Repository
assign name value [] = (name, value) ∷ []
assign name value ((k, v) ∷ s) =
    if list_eq k name then (k, value) ∷ s else (k, v) ∷ assign name value s

-- `del self.__store[name]`
abbrev pub remove : Name → Repository → Repository
remove name [] = []
remove name ((k, v) ∷ s) = if list_eq k name then s else (k, v) ∷ remove name s

unfoldable pub add : Name → ℕ → Bool → Repository → NameError ⊎ Repository
add name value replace s =
    if has_name name s && not replace then inl name_entry_exists else inr (assign name value s)

unfoldable pub delete : Name → Repository → NameError ⊎ Repository
delete name s = if has_name name s then inr (remove name s) else inl name_entry_not_found

unfoldable pub get : Name → Repository → NameError ⊎ ℕ
get name [] = inl name_entry_not_found
get name ((k, v) ∷ s) = if list_eq k name then inr v else get name s

abbrev pub slash : ℕ
slash = 47

-- `s.rstrip("/")`
unfoldable pub rstrip : Name → Name
rstrip [] = []
rstrip (c ∷ cs) = let rest = rstrip cs in if c == slash && list_eq rest [] then [] else c ∷ rest

-- The test of both subtree methods, where `root` is already stripped.
abbrev pub in_subtree : Name → Name → Bool
in_subtree root name =
    list_eq root (slash ∷ []) || list_eq name root || starts_with (root ++ slash ∷ []) name

abbrev pub names : Repository → List Name
names s = map (λ (k, v). k) s

-- The loop runs over a copy of the names.
unfoldable pub clear_names : Name → List Name → Repository → Repository
clear_names root [] s = s
clear_names root (name ∷ rest) s =
    let cleared = if in_subtree root name then remove name s else s in clear_names root rest cleared

unfoldable pub clear_subtree : Name → Repository → Repository
unfolding clear_names rstrip
clear_subtree root s = clear_names (rstrip root) (names s) s

unfoldable pub values_below : Name → Repository → List ℕ
values_below root [] = []
values_below root ((name, value) ∷ s) =
    let rest = values_below root s in if in_subtree root name then value ∷ rest else rest

unfoldable pub get_subtree : Name → Repository → List ℕ
unfolding values_below rstrip
get_subtree root s = values_below (rstrip root) s

-- `rs.sort()`: characters are compared by their numbers, a prefix comes first.
abbrev pub name_le : Name → Name → Bool
name_le [] ys = true
name_le (x ∷ xs) [] = false
name_le (x ∷ xs) (y ∷ ys) = ltb x y || x == y && name_le xs ys

abbrev pub insert : Name → List Name → List Name
insert x [] = x ∷ []
insert x (y ∷ ys) = if name_le x y then x ∷ y ∷ ys else y ∷ insert x ys

abbrev pub sort : List Name → List Name
sort [] = []
sort (x ∷ xs) = insert x (sort xs)

abbrev pub starting_with : Name → List Name → List Name
starting_with root [] = []
starting_with root (x ∷ xs) =
    if starts_with root x then x ∷ starting_with root xs else starting_with root xs

unfoldable pub find_subtree : Name → Repository → List Name
find_subtree root s = sort (starting_with root (names s))

abbrev pub reset : Repository → Repository
reset s = []

-- `wait`: what it reads at each poll is the time since it started, after the sleep, and the store.
-- The list of polls stands for the course of time; none is a wait that is not over at its end.
abbrev pub expired : Option ℕ → ℕ → Bool
expired none now = false
expired (some limit) now = ltb limit now

unfoldable pub wait : Name → Option ℕ → List (Repository × ℕ) → Option (NameError ⊎ ℕ)
unfolding get
wait name limit [] = none
wait name limit ((s, now) ∷ polls) =
    let later = wait name limit polls in
    elim (get name s) [
      | inr v ↦ some (inr v)
      | inl e ↦ if expired limit now then some (inl timeout) else later
    ]
