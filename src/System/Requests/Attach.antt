-- ===== src/System/Requests/Attach.antt =====
-- The loops of `_attach_payloads_with_hooks`: a hook reaches each of its parties once.
use rea_lhf.System.Dict
use mathlib.Core.Path.{fun_ext}
use rea_lhf.Base.{
  ==_false, Bool, Bool-cases, List, [], ap, arith, false, inl, inr, map, mem, none, not, refl, some,
  true, ℕ, ℕ_discrete, ◌&&◌, ◌++◌, ◌==◌, ◌||◌, ◌∙◌, ◌∷◌, ◌≡◌,
}
use rea_lhf.System.Requests.{
  Cluster, Draft, HandleName, HookData, HookName, HookType, Message, Payloads, append_hook,
  blank_payload, distinct, hook_all, hook_mains, hook_other, hook_others,
}
use rea_lhf.System.Requests.Extend.{Extended, Extended-trans, add_payload, touch, unchanged}
use rea_lhf.System.Requests.Parties.{OnePerWorker, handler_on_lem}

abbrev pub on_worker : Cluster → ℕ → List ℕ → Bool
on_worker c w hs = mem w (map c.mwid hs)

-- A worker of the main handlers, or of the other ones.
abbrev pub among : Cluster → List ℕ → List ℕ → ℕ → Bool
among c mains others w = on_worker c w mains || on_worker c w others

abbrev pub AllHave : List ℕ → Payloads → Type 0
AllHave [] ps = Unit
AllHave (h ∷ hs) ps = (Dict.has h ps ≡ true) × AllHave hs ps

pub AllHave-mono :
    (hs : List ℕ) (ps qs : Payloads)
    → ((k : ℕ) → Dict.has k ps ≡ true → Dict.has k qs ≡ true)
    → AllHave hs ps
    → AllHave hs qs
AllHave-mono [] ps qs f a = tt
AllHave-mono (h ∷ hs) ps qs f a = (f h a.0, AllHave-mono hs ps qs f a.1)

pub apart_of_distinct :
    (w x : ℕ) (xs : List ℕ) → distinct (x ∷ xs) ≡ true → (x == w && mem w xs) ≡ false
apart_of_distinct w x xs e = elim (ℕ_discrete x w) [
  | yes p ↦ rw (← p) (ground arith)
  | no p ↦ rw (==_false x w p) refl
]

module _ (c : Cluster) {X : Type 0} (proj : Message → List X) (v : List X) (t : HookType)
    (n : HookName) (x : HookData) (grows : (p : Message) → proj (append_hook t n x p) ≡ proj p ++ v)
    (blank : (h : ℕ) → proj (append_hook t n x (blank_payload c h HandleName.empty none)) ≡ v) where
  hook_mains_lem :
      (hs : List ℕ) (d : Draft)
      → OnePerWorker c d
      → AllHave hs d.0
      → distinct (map c.mwid hs) ≡ true
      → (ps : Payloads) × (hook_mains t n x hs d.0 ≡ some ps)
        × Extended c proj v d (ps, d.1) (λ w. on_worker c w hs)
  unfolding hook_mains
  hook_mains_lem [] d one a e = (d.0, refl, unchanged c proj v d _ one (λ w. refl))
  hook_mains_lem (h ∷ hs) d one a e =
      let step = touch c proj v h (append_hook t n x) d grows one a.0 in
      let (ps, f, r) =
        hook_mains_lem hs (Dict.modify h (append_hook t n x) d.0, d.1) step.one
          (AllHave-mono hs d.0 _ step.keys a.1) (ground arith) in
      (
        ps,
        rw a.0 f,
        Extended-trans c proj v d _ _ _ _ _ step r
            (λ w. apart_of_distinct w (c.mwid h) (map c.mwid hs) e) (λ w. ground arith),
      )

  hook_other_lem :
      (main_mwids : List ℕ) (h : ℕ) (d : Draft)
      → OnePerWorker c d
      → ((w : ℕ) → mem w main_mwids ≡ true → mem w d.1 ≡ true)
      → (d' : Draft) × (hook_other c t n x main_mwids h d ≡ some d')
        × Extended c proj v d d' (λ w. c.mwid h == w && not (mem w main_mwids))
  unfolding hook_other
  hook_other_lem main_mwids h d one inside = elim (Bool-cases (mem (c.mwid h) d.1)) [
    | inl y ↦ elim (Bool-cases (mem (c.mwid h) main_mwids)) [
      | inl m ↦
          (d, rw (y, m) refl, unchanged c proj v d _ one (λ w. skip w (ℕ_discrete (c.mwid h) w) m))
      | inr m ↦
          let (hh, f, g, k) = handler_on_lem c (c.mwid h) d.0 (ground (arith, one (c.mwid h))) in
          let step = touch c proj v hh (append_hook t n x) d grows one k in
          (
            _,
            rw (y, m, f) refl,
            same_workers _ _ (λ w. ap (λ j. j == w) g ∙ other w (ℕ_discrete (c.mwid h) w) m) step,
          )
    ]
    | inr y ↦
        let m : mem (c.mwid h) main_mwids ≡ false = ground (arith, inside (c.mwid h)) in
        (
          _,
          rw y refl,
          same_workers _ _ (λ w. other w (ℕ_discrete (c.mwid h) w) m)
              (add_payload c proj v h _ d (blank h) one y),
        )
  ]
    where
      skip :
          (w : ℕ)
          → Dec (c.mwid h ≡ w)
          → mem (c.mwid h) main_mwids ≡ true
          → (c.mwid h == w && not (mem w main_mwids)) ≡ false
      skip w (yes p) m = rw (← p) (ground arith)
      skip w (no p) m = rw (==_false (c.mwid h) w p) refl

      other :
          (w : ℕ)
          → Dec (c.mwid h ≡ w)
          → mem (c.mwid h) main_mwids ≡ false
          → (c.mwid h == w) ≡ (c.mwid h == w && not (mem w main_mwids))
      other w (yes p) m = rw (← p) (ground arith)
      other w (no p) m = rw (==_false (c.mwid h) w p) refl

      same_workers :
          (a b : ℕ → Bool)
          → ((w : ℕ) → a w ≡ b w)
          → {d' : Draft} → Extended c proj v d d' a
          → Extended c proj v d d' b
      same_workers a b e r = rw (← (fun_ext e)) r

  hook_others_lem :
      (main_mwids hs : List ℕ) (d : Draft)
      → OnePerWorker c d
      → ((w : ℕ) → mem w main_mwids ≡ true → mem w d.1 ≡ true)
      → distinct (map c.mwid hs) ≡ true
      → (d' : Draft) × (hook_others c t n x main_mwids hs d ≡ some d')
        × Extended c proj v d d' (λ w. on_worker c w hs && not (mem w main_mwids))
  unfolding hook_others
  hook_others_lem main_mwids [] d one inside e = (d, refl, unchanged c proj v d _ one (λ w. refl))
  hook_others_lem main_mwids (h ∷ hs) d one inside e =
      let (d', f, step) = hook_other_lem main_mwids h d one inside in
      let (d'', g, r) =
        hook_others_lem main_mwids hs d' step.one
          (λ w m. ground (arith, inside w m, step.workers w)) (ground arith) in
      (
        d'',
        rw f g,
        Extended-trans c proj v d d' d'' _ _ _ step r
            (λ w. ground (arith, apart_of_distinct w (c.mwid h) (map c.mwid hs) e))
            (λ w. ground arith),
      )

  pub hook_all_lem :
      (mains others : List ℕ) (d : Draft)
      → OnePerWorker c d
      → AllHave mains d.0
      → ((w : ℕ) → on_worker c w mains ≡ true → mem w d.1 ≡ true)
      → distinct (map c.mwid mains) ≡ true
      → distinct (map c.mwid others) ≡ true
      → (d' : Draft) × (hook_all c t n x mains others d ≡ some d')
        × Extended c proj v d d' (among c mains others)
  unfolding hook_all
  hook_all_lem mains others d one have inside e f =
      let (ps, g, step) = hook_mains_lem mains d one have e in
      let (d', k, r) = hook_others_lem (map c.mwid mains) others (ps, d.1) step.one inside f in
      (
        d',
        rw g k,
        Extended-trans c proj v d _ d' _ _ _ step r (λ w. ground arith) (λ w. ground arith),
      )
