-- ===== src/Buffer/Put/Choice.antt =====
-- The slots that `put_batch` picks.
use mathlib.Core.List.{cons≢nil}
use rea_lhf.Base.{
  Bool-cases, List, Option-cases, [], ap, arith, dec_lt, false, inl, inr, length, length-tabulate,
  length-take, mem, none, refl, some, suc, sum_by, sym, take, true, zero, ℕ, ◌++◌, ◌-◌, ◌<◌, ◌↔◌,
  ◌∙◌, ◌∷◌, ◌≡◌, ◌≢◌, ◌≤◌,
}
use rea_lhf.Buffer.Errors.{Error, Result, assertion_error, index_error, ok, raise, ◌>>=◌}
use rea_lhf.Buffer.Intervals.{
  arange, expand, expand-extract_intervals, expand-last?, extract_intervals, last?, range,
}
use rea_lhf.Buffer.Put.{Buffer, Sample, choose, put_begin, valid_indicator}
use rea_lhf.Buffer.Slots.{Slot, where_}
use rea_lhf.Buffer.Slots.Positions.{
  AllFrom, AllFrom-imp, Ascending, Ascending-lower, Ascending-take, mem-take, mem-where_,
  where_-Ascending,
}
use rea_lhf.Buffer.State.{vacant}

abbrev empties : List Slot → List ℕ
empties ss = where_ (λ s. s.is_empty) 0 ss

-- The chosen indices follow one another, are as many as asked for, lie in the buffer, and belong to
-- empty slots.
pub record Chosen (n : ℕ) (ss : List Slot) (idx : List ℕ) : Type 0 where
  pub start : ℕ
  pub consecutive : idx ≡ range start n
  pub count : length idx ≡ n
  pub ascending : Ascending 0 (length ss) idx
  pub vacant_at : AllFrom (λ j s. mem j idx ≡ true → s.is_empty ≡ true) 0 ss

Ascending-append_right :
    (lo hi : ℕ) (xs ys : List ℕ) → Ascending lo hi (xs ++ ys) → Ascending lo hi ys
Ascending-append_right lo hi [] ys a = a
Ascending-append_right lo hi (x ∷ xs) ys a =
    Ascending-lower (suc x) lo hi ys (omega arith) (Ascending-append_right (suc x) hi xs ys a.2)

mem-append_right : (j : ℕ) (xs ys : List ℕ) → mem j ys ≡ true → mem j (xs ++ ys) ≡ true
mem-append_right j [] ys e = e
mem-append_right j (x ∷ xs) ys e = ground (arith, mem-append_right j xs ys e)

take-range : (n m i : ℕ) → n ≤ m → take n (range i m) ≡ range i n
unfolding range
take-range zero m i h = refl
take-range (suc n) zero i h = absurd (omega arith)
take-range (suc n) (suc m) i h = ap (λ xs. i ∷ xs) (take-range n m (suc i) (omega arith))

length-range : (i n : ℕ) → length (range i n) ≡ n
unfolding range
length-range i n = length-tabulate n i (λ j. j)

chosen :
    (n : ℕ) (ss : List Slot) (i : ℕ × ℕ)
    → last? (extract_intervals (empties ss)) ≡ some i
    → ¬ (length (take n (arange i)) < n)
    → Chosen n ss (take n (arange i))
chosen n ss i e enough =
    let (before, p) = expand-last? _ i e in
    let whole : empties ss ≡ before ++ arange i = sym (expand-extract_intervals (empties ss)) ∙ p in
    let fits : n ≤ i.1 - i.0 =
      omega (arith, length-take n (arange i), length-range i.0 (i.1 - i.0)) in
    record {
      start = i.0;
      consecutive = take-range n (i.1 - i.0) i.0 fits;
      count = omega (arith, length-take n (arange i), length-range i.0 (i.1 - i.0));
      ascending = Ascending-take n 0 (length ss) (arange i) (
          Ascending-append_right 0 (length ss) before (arange i)
            (rw whole at (where_-Ascending (λ s. s.is_empty) 0 (length ss) ss (omega arith))));
      vacant_at =
          AllFrom-imp {P = λ j s. mem j (empties ss) ≡ s.is_empty} 0 ss
            (λ j s q m.
              sym q ∙ rw whole (mem-append_right j before (arange i) (mem-take j n (arange i) m)))
            (mem-where_ (λ s. s.is_empty) 0 ss);
    }

-- Where `put_batch` raises nothing, it picks consecutive empty slots, as many as there are samples.
pub choose-Chosen : (n : ℕ) (ss : List Slot) (idx : List ℕ) → choose n ss ≡ ok idx → Chosen n ss idx
unfolding choose
choose-Chosen n ss idx e = elim (Option-cases (last? (extract_intervals (empties ss)))) [
  | inl p ↦ ground arith
  | inr (i, p) ↦ elim (dec_lt (length (take n (arange i))) n) [
    | yes l ↦ ground arith
    | no g ↦ let q : idx ≡ take n (arange i) = ground arith in rw q (chosen n ss i p g)
  ]
]

last?-none : (is : List (ℕ × ℕ)) → last? is ≡ none → is ≡ []
last?-none [] e = refl
last?-none (i ∷ []) e = cc
last?-none (i ∷ j ∷ is) e = absurd (cons≢nil (last?-none (j ∷ is) e))

extract_intervals_empty : (xs : List ℕ) → extract_intervals xs ≡ [] → xs ≡ []
extract_intervals_empty xs e = sym (expand-extract_intervals xs) ∙ ap expand e

empties_none :
    (i : ℕ) (ss : List Slot) → (where_ (λ s. s.is_empty) i ss ≡ []) ↔ (sum_by vacant ss ≡ 0)
empties_none i [] = (λ e. refl, λ e. refl)
empties_none i (s ∷ ss) = elim (Bool-cases s.is_empty) [
  | inl t ↦ rw t (λ e. cc, λ e. absurd (omega arith))
  | inr t ↦ rw t (
    λ e. omega (arith, (empties_none (suc i) ss).0 e),
    λ e. (empties_none (suc i) ss).1 (omega arith),
  )
]

choose-index_error :
    (n : ℕ) (ss : List Slot) → (choose n ss ≡ raise index_error) ↔ (sum_by vacant ss ≡ 0)
unfolding choose
choose-index_error n ss = (
  λ e. (empties_none 0 ss).0 (extract_intervals_empty _ (last?-none _ (none_of e))),
  λ z. rw ((empties_none 0 ss).1 z, choose) (unfold extract_intervals in refl),
)
  where
    none_of : choose n ss ≡ raise index_error → last? (extract_intervals (empties ss)) ≡ none
    none_of e = elim (Option-cases (last? (extract_intervals (empties ss)))) [
      | inl p ↦ p
      | inr (i, p) ↦ elim (dec_lt (length (take n (arange i))) n) [
        | yes l ↦ ground arith
        | no g ↦ ground arith
      ]
    ]

choose-assertion_error : (n : ℕ) (ss : List Slot) → choose n ss ≢ raise assertion_error
unfolding choose
choose-assertion_error n ss e = elim (Option-cases (last? (extract_intervals (empties ss)))) [
  | inl p ↦ ground arith
  | inr (i, p) ↦ elim (dec_lt (length (take n (arange i))) n) [
    | yes l ↦ ground arith
    | no g ↦ ground arith
  ]
]

after_choice :
    (r : Result (List ℕ)) (f : List ℕ → List ℕ × Buffer) (e : Error)
    → ((r >>= λ idx. ok (f idx)) ≡ raise e) ↔ (r ≡ raise e)
after_choice (raise d) f e = (λ h. cc, λ h. cc)
after_choice (ok idx) f e = (λ h. cc, λ h. cc)

-- Up to its second locked section, `put_batch` raises AssertionError exactly when
-- `_assert_valid_indicator` fails; and it raises IndexError exactly when that assertion holds and no
-- slot of the buffer is empty, however many samples there are.
pub put_begin-errors :
    (now : ℕ) (samples : List Sample) (b : Buffer)
    → ((put_begin now samples b ≡ raise assertion_error) ↔ (valid_indicator b ≡ false))
      × ((put_begin now samples b ≡ raise index_error)
          ↔ ((valid_indicator b ≡ true) × (sum_by vacant b.slots ≡ 0)))
unfolding put_begin
put_begin-errors now samples b = elim (Bool-cases (valid_indicator b)) [
  | inl t ↦
      let chosen = choose (length samples) b.slots in
      let index = choose-index_error (length samples) b.slots in
      rw t (
        (
          λ e. absurd (
              choose-assertion_error (length samples) b.slots
                ((after_choice chosen _ assertion_error).0 e)),
          λ e. cc,
        ),
        (
          λ e. (refl, index.0 ((after_choice chosen _ index_error).0 e)),
          λ h. (after_choice chosen _ index_error).1 (index.1 h.1),
        ),
      )
  | inr f ↦ rw f ((λ e. refl, λ e. refl), (λ e. cc, λ h. cc))
]
