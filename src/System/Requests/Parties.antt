-- ===== src/System/Requests/Parties.antt =====
-- The payload of each model worker, and the hooks in it.
use rea_lhf.System.Dict
use mathlib.Core.List.{append-nil, append_assoc}
use rea_lhf.Base.{
  ==_false, ==_iff, ==_refl, Bool-cases, List, [], ap, arith, false, if◌then◌else◌, inl, inr, mem,
  refl, some, sym, true, ℕ, ℕ_discrete, ◌++◌, ◌+◌, ◌==◌, ◌∷◌, ◌≡◌, ◌≤◌, ◌⊎◌,
}
use rea_lhf.System.Requests.{Cluster, Draft, Message, Payloads, handler_on}

module _ (c : Cluster) where
  -- How many payloads go to worker `w`.
  abbrev pub load : ℕ → Payloads → ℕ
  load w [] = 0
  load w ((h, p) ∷ ps) = (if c.mwid h == w then 1 else 0) + load w ps

  -- There is one payload for each worker of `mwids`, and none for another.
  abbrev pub OnePerWorker : Draft → Type 0
  OnePerWorker d = (w : ℕ) → load w d.0 ≡ (if mem w d.1 then 1 else 0)

  pub has-load : (h : ℕ) (ps : Payloads) → Dict.has h ps ≡ true → 1 ≤ load (c.mwid h) ps
  has-load h [] e = cc
  has-load h ((j, p) ∷ ps) e = ground (arith, has-load h ps)

  pub not-has-load : (h : ℕ) (ps : Payloads) → load (c.mwid h) ps ≡ 0 → Dict.has h ps ≡ false
  not-has-load h [] e = refl
  not-has-load h ((j, p) ∷ ps) e = ground (arith, not-has-load h ps)

  pub load-append : (w : ℕ) (ps qs : Payloads) → load w (ps ++ qs) ≡ load w ps + load w qs
  load-append w [] qs = omega arith
  load-append w ((j, p) ∷ ps) qs = omega (arith, load-append w ps qs)

  pub load-modify :
      (w h : ℕ) (f : Message → Message) (ps : Payloads) → load w (Dict.modify h f ps) ≡ load w ps
  load-modify w h f [] = refl
  load-modify w h f ((j, p) ∷ ps) = ground (arith, load-modify w h f ps)

  pub has-modify :
      (k h : ℕ) (f : Message → Message) (ps : Payloads)
      → Dict.has k (Dict.modify h f ps) ≡ Dict.has k ps
  has-modify k h f [] = refl
  has-modify k h f ((j, p) ∷ ps) = ground (arith, has-modify k h f ps)

  pub handler_on_lem :
      (w : ℕ) (ps : Payloads)
      → 1 ≤ load w ps
      → (h : ℕ) × (handler_on c w ps ≡ some h) × (c.mwid h ≡ w) × (Dict.has h ps ≡ true)
  unfolding handler_on
  handler_on_lem w [] l = elim l [ ]
  handler_on_lem w ((j, p) ∷ ps) l = elim (Bool-cases (c.mwid j == w)) [
    | inl e ↦ (j, rw e, (==_iff _ w).0 e, rw (==_refl j) refl)
    | inr e ↦ let (h, f, g, k) = handler_on_lem w ps (ground arith) in (h, rw e f, g, ground arith)
  ]

  -- What `proj` sees of the payloads of worker `w`: its hooks, or their data.
  module _ {X : Type 0} (proj : Message → List X) where
    abbrev pub at : ℕ → Payloads → List X
    at w [] = []
    at w ((h, p) ∷ ps) = if c.mwid h == w then proj p ++ at w ps else at w ps

    at_of_load : (w : ℕ) (ps : Payloads) → load w ps ≡ 0 → at w ps ≡ []
    at_of_load w [] e = refl
    at_of_load w ((h, p) ∷ ps) e = ground (arith, at_of_load w ps)

    pub at-append : (w : ℕ) (ps qs : Payloads) → at w (ps ++ qs) ≡ at w ps ++ at w qs
    at-append w [] qs = refl
    at-append w ((h, p) ∷ ps) qs = elim (Bool-cases (c.mwid h == w)) [
      | inl e ↦ rw e (rw (at-append w ps qs) (sym (append_assoc (proj p) (at w ps) (at w qs))))
      | inr e ↦ rw e (at-append w ps qs)
    ]

    modify_absent :
        (h : ℕ) (f : Message → Message) (ps : Payloads)
        → Dict.has h ps ≡ false
        → Dict.modify h f ps ≡ ps
    modify_absent h f [] e = refl
    modify_absent h f ((j, p) ∷ ps) e = ground (arith, modify_absent h f ps)

    -- Where one payload goes to the worker of `h`, what is added to it is added at this worker.
    pub at-modify :
        (w h : ℕ) (f : Message → Message) (v : List X) (ps : Payloads)
        → ((p : Message) → proj (f p) ≡ proj p ++ v)
        → Dict.has h ps ≡ true
        → load (c.mwid h) ps ≡ 1
        → at w (Dict.modify h f ps) ≡ at w ps ++ (if c.mwid h == w then v else [])
    at-modify w h f v [] law e l = cc
    at-modify w h f v ((j, p) ∷ ps) law e l = elim (ℕ_discrete j h) [
      | yes same ↦
          let alone : load (c.mwid h) ps ≡ 0 = ground (arith, ap c.mwid same) in
          rw (same, ==_refl h, modify_absent h f ps (not-has-load h ps alone))
            (here (Bool-cases (c.mwid h == w)) alone)
      | no other ↦
          let there : Dict.has h ps ≡ true = ground (arith, ==_false j h other) in
          let apart : (c.mwid j == c.mwid h) ≡ false = ground (arith, has-load h ps there) in
          rw (==_false j h other) (
            later (Bool-cases (c.mwid j == w)) apart
              (at-modify w h f v ps law there (ground arith)))
    ]
      where
        here :
            ((c.mwid h == w) ≡ true) ⊎ ((c.mwid h == w) ≡ false)
            → load (c.mwid h) ps ≡ 0
            → (if c.mwid h == w then proj (f p) ++ at w ps else at w ps)
              ≡ (if c.mwid h == w then proj p ++ at w ps else at w ps)
                ++ (if c.mwid h == w then v else [])
        here (inl y) alone =
            let gone : at w ps ≡ [] = at_of_load w ps (rw ((==_iff _ w).0 y) at alone) in
            rw (y, gone, law p, append-nil (proj p), append-nil (proj p ++ v)) refl
        here (inr n) alone = rw n (sym (append-nil (at w ps)))

        later :
            ((c.mwid j == w) ≡ true) ⊎ ((c.mwid j == w) ≡ false)
            → (c.mwid j == c.mwid h) ≡ false
            → at w (Dict.modify h f ps) ≡ at w ps ++ (if c.mwid h == w then v else [])
            → (if c.mwid j == w
                then proj p ++ at w (Dict.modify h f ps)
                else at w (Dict.modify h f ps))
              ≡ (if c.mwid j == w then proj p ++ at w ps else at w ps)
                ++ (if c.mwid h == w then v else [])
        later (inl y) apart ih = rw (y, ih) (sym (append_assoc (proj p) (at w ps) _))
        later (inr n) apart ih = rw n ih
