-- ===== src/Buffer/Storage/Frame.antt =====
-- The storage methods change samples and has_keys, and no indicator of any slot.
use mathlib.Core.Option.{some-injective}
use mathlib.Core.Path.{subst}
use rea_lhf.Base.{
  Bool-cases, List, Option, [], ap, arith, get_elem?, inl, inr, length, length-map, ltb, map, mem,
  none, refl, set, some, suc, sum_by, sym, zero, ℕ, ◌∙◌, ◌∷◌, ◌≡◌,
}
use rea_lhf.Buffer.Errors.{
  Error, Result, assertion_error, attribute_error, guard, index_error, ok, or_raise, raise, ◌>>=◌,
}
use rea_lhf.Buffer.Sample.{Sample, update}
use rea_lhf.Buffer.Slots.{Entry, Slot, modify_at, update_at}
use rea_lhf.Buffer.Slots.Positions.{AllFrom}
use rea_lhf.Buffer.Storage.{amend, amend_entry, drop_entry, store, take_entries}

-- A slot without what the storage holds.
abbrev pub strip : Slot → Slot
strip s = record s { entry = none; has_keys = [] }

pub AllFrom-strip :
    {P : ℕ → Slot → Type 0} (i : ℕ) (ss ts : List Slot)
    → ((j : ℕ) (s : Slot) → P j s → P j (strip s))
    → ((j : ℕ) (s : Slot) → P j (strip s) → P j s)
    → map strip ts ≡ map strip ss
    → AllFrom P i ss
    → AllFrom P i ts
AllFrom-strip {P} i ss ts there back e a = down i ts (subst (AllFrom P i) (sym e) (up i ss a))
  where
    up : (i : ℕ) (ss : List Slot) → AllFrom P i ss → AllFrom P i (map strip ss)
    up i [] a = tt
    up i (s ∷ ss) a = (there i s a.0, up (suc i) ss a.1)

    down : (i : ℕ) (ss : List Slot) → AllFrom P i (map strip ss) → AllFrom P i ss
    down i [] a = tt
    down i (s ∷ ss) a = (back i s a.0, down (suc i) ss a.1)

pub sum_by-strip :
    (w : Slot → ℕ) (ss : List Slot)
    → ((s : Slot) → w (strip s) ≡ w s)
    → sum_by w (map strip ss) ≡ sum_by w ss
sum_by-strip w [] h = refl
sum_by-strip w (s ∷ ss) h = omega (arith, h s, sum_by-strip w ss h)

pub length-strip : (ss ts : List Slot) → map strip ts ≡ map strip ss → length ts ≡ length ss
length-strip ss ts e = sym (length-map ts strip) ∙ ap length e ∙ length-map ss strip

strip-modify_at :
    (i : ℕ) (e : Option Entry) (ss : List Slot)
    → map strip (modify_at i (λ s. record s { entry = e }) ss) ≡ map strip ss
strip-modify_at i e [] = refl
strip-modify_at zero e (s ∷ ss) = refl
strip-modify_at (suc i) e (s ∷ ss) = ap (λ ts. strip s ∷ ts) (strip-modify_at i e ss)

strip-set :
    (ss : List Slot) (i : ℕ) (s : Slot) (e : Option Entry)
    → get_elem? ss i ≡ some s
    → map strip (set ss i (record s { entry = e })) ≡ map strip ss
strip-set [] i s e h = refl
strip-set (t ∷ ss) zero s e h = ap (λ x. strip x ∷ map strip ss) (sym (some-injective t s h))
strip-set (t ∷ ss) (suc i) s e h = ap (λ ts. strip t ∷ ts) (strip-set ss i s e h)

pub strip-store :
    (reuses now : ℕ) (is : List ℕ) (xs : List Sample) (ss : List Slot)
    → map strip (store reuses now is xs ss) ≡ map strip ss
unfolding store
strip-store reuses now [] xs ss = refl
strip-store reuses now (i ∷ is) [] ss = refl
strip-store reuses now (i ∷ is) (x ∷ xs) ss =
    strip-store reuses now is xs _ ∙ strip-modify_at i _ ss

pub strip-drop_entry :
    (idx : List ℕ) (i : ℕ) (ss : List Slot)
    → map strip (update_at idx drop_entry i ss) ≡ map strip ss
strip-drop_entry idx i [] = refl
strip-drop_entry idx i (s ∷ ss) = elim (Bool-cases (mem i idx)) [
  | inl e ↦ rw e (ap (λ ts. strip s ∷ ts) (strip-drop_entry idx (suc i) ss))
  | inr e ↦ rw e (ap (λ ts. strip s ∷ ts) (strip-drop_entry idx (suc i) ss))
]

pub >>=-eq-ok :
    {A B : Type 0} {b : B} (m : Result A) (f : A → Result B)
    → (m >>= f) ≡ ok b
    → (a : A) × (m ≡ ok a) × (f a ≡ ok b)
>>=-eq-ok (raise e) f h = cc
>>=-eq-ok (ok a) f h = (a, refl, h)

pub or_raise-eq-ok :
    {A : Type 0} (o : Option A) (e : Error) {a : A} → or_raise o e ≡ ok a → o ≡ some a
or_raise-eq-ok (some b) e h = cc
or_raise-eq-ok none e h = cc

amend_entry_frame :
    (x : Sample) (s t : Slot)
    → amend_entry x s ≡ ok t
    → (e : Option Entry) × (t ≡ record s { entry = e })
amend_entry_frame x s t h =
    let (e, _, h₁) = >>=-eq-ok (or_raise s.entry attribute_error) _ h in
    let (y, _, h₂) = >>=-eq-ok (or_raise (update e.sample x) assertion_error) _ h₁ in
    (some (record e { sample = y }), cc)

pub strip-amend :
    (is : List ℕ) (xs : List Sample) (ss ts : List Slot)
    → amend is xs ss ≡ ok ts
    → map strip ts ≡ map strip ss
unfolding amend
strip-amend [] xs ss ts h = ap (map strip) (cc)
strip-amend (i ∷ is) [] ss ts h = ap (map strip) (cc)
strip-amend (i ∷ is) (x ∷ xs) ss ts h =
    let (s, found, h₁) = >>=-eq-ok (or_raise (get_elem? ss i) index_error) _ h in
    let (t, amended, h₂) = >>=-eq-ok (amend_entry x s) _ h₁ in
    let (e, same) = amend_entry_frame x s t amended in
    strip-amend is xs (set ss i t) ts h₂
    ∙ rw same (strip-set ss i s e (or_raise-eq-ok (get_elem? ss i) index_error found))

pub ok-eq-ok :
    {A B : Type 0} {a a' : A} {b b' : B}
    → ◌≡◌ {A = Result (A × B)} (ok (a, b)) (ok (a', b'))
    → (a ≡ a') × (b ≡ b')
ok-eq-ok e = (cc, cc)

pub strip-take_entries :
    (is : List ℕ) (ss ts : List Slot) (es : List Entry)
    → take_entries is ss ≡ ok (ts, es)
    → map strip ts ≡ map strip ss
unfolding take_entries
strip-take_entries [] ss ts es h = ap (map strip) (cc)
strip-take_entries (i ∷ is) ss ts es h =
    let (s, found, h₁) = >>=-eq-ok (or_raise (get_elem? ss i) index_error) _ h in
    let (e, _, h₂) = >>=-eq-ok (or_raise s.entry attribute_error) _ h₁ in
    let (u, _, h₃) = >>=-eq-ok (guard (ltb 0 e.reuses_left) assertion_error) _ h₂ in
    let (p, taken, h₄) = >>=-eq-ok (take_entries is _) _ h₃ in
    let (s₁, s₂) = ok-eq-ok h₄ in
    ap (map strip) (sym s₁)
    ∙ strip-take_entries is _ p.0 p.1 taken
    ∙ strip-set ss i s _ (or_raise-eq-ok (get_elem? ss i) index_error found)
