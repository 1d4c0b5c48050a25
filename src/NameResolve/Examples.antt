-- ===== src/NameResolve/Examples.antt =====
-- Names as "a", "a/b" and "ab", with their characters' codes.
use rea_lhf.Base.{
  [], if◌then◌else◌, inl, inr, none, refl, some, starts_with, true, ◌&&◌, ◌↔◌, ◌∷◌, ◌≡◌,
}
use rea_lhf.NameResolve.{
  Name, Repository, add, clear_subtree, delete, find_subtree, get, has_name, name_entry_not_found,
  timeout, wait,
}
use rea_lhf.NameResolve.Listing.{Sorted, find_subtree_lem, listed}
use rea_lhf.NameResolve.Subtrees.{below, get-clear_subtree}
use rea_lhf.NameResolve.Waiting.{Ends, Patient, wait_iff}

abbrev a : Name
a = 97 ∷ []

abbrev a_b : Name
a_b = 97 ∷ 47 ∷ 98 ∷ []

abbrev ab : Name
ab = 97 ∷ 98 ∷ []

abbrev three : Repository
three = (a, 1) ∷ (a_b, 2) ∷ (ab, 3) ∷ []

abbrev four : Repository
four = (a, 1) ∷ (a_b, 7) ∷ (ab, 3) ∷ []

abbrev two : Repository
two = (a, 1) ∷ (ab, 3) ∷ []

added : add a_b 7 true three ≡ inr four
unfolding add
added = refl

deleted : delete a_b three ≡ inr two
unfolding delete
deleted = refl

get-clear_subtree_example :
    get ab (clear_subtree (97 ∷ 47 ∷ []) three)
    ≡ (if below (97 ∷ 47 ∷ []) ab then inl name_entry_not_found else get ab three)
get-clear_subtree_example = get-clear_subtree (97 ∷ 47 ∷ []) ab three (refl, (refl, (refl, tt)))

find_subtree_lem_example :
    Sorted (find_subtree a three)
    × (listed ab (find_subtree a three) ≡ has_name ab three && starts_with a ab)
find_subtree_lem_example = find_subtree_lem a ab three

wait_iff_example :
    ((wait a_b (some 5) ((two, 5) ∷ (two, 6) ∷ []) ≡ some (inl timeout))
      ↔ Ends a_b (some 5) ((two, 5) ∷ (two, 6) ∷ []) (inl timeout))
    × ((wait a_b (some 5) ((two, 5) ∷ (two, 6) ∷ []) ≡ none)
        ↔ Patient a_b (some 5) ((two, 5) ∷ (two, 6) ∷ []))
wait_iff_example = wait_iff a_b (some 5) ((two, 5) ∷ (two, 6) ∷ []) (inl timeout)

-- The limit itself is in time.
wait_times_out : wait a_b (some 5) ((two, 5) ∷ (two, 6) ∷ []) ≡ some (inl timeout)
unfolding wait
wait_times_out = refl
