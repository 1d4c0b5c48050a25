-- ===== src/System/Requests/Extend.antt =====
-- One step of the loops over handlers: some workers get an entry, and the others get none.
use rea_lhf.System.Dict
use mathlib.Core.List.{append-nil}
use rea_lhf.Base.{
  Bool, List, [], ap, arith, false, if◌then◌else◌, mem, refl, sym, true, ℕ, ◌&&◌, ◌++◌, ◌==◌, ◌||◌,
  ◌∙◌, ◌∷◌, ◌≡◌,
}
use rea_lhf.System.Requests.{Cluster, Draft, Message}
use rea_lhf.System.Requests.Parties.{
  OnePerWorker, at, at-append, at-modify, has-load, has-modify, load, load-append, load-modify,
  not-has-load,
}

module _ (c : Cluster) {X : Type 0} (proj : Message → List X) (v : List X) where
  -- From draft `d` to `d'` exactly the workers of `who` got `v`.
  pub record Extended (d d' : Draft) (who : ℕ → Bool) : Type 0 where
    pub one : OnePerWorker c d'
    pub hooks : (w : ℕ) → at c proj w d'.0 ≡ at c proj w d.0 ++ (if who w then v else [])
    pub keys : (k : ℕ) → Dict.has k d.0 ≡ true → Dict.has k d'.0 ≡ true
    pub workers : (w : ℕ) → mem w d'.1 ≡ (mem w d.1 || who w)

  join :
      (xs : List X) (a b : Bool)
      → (a && b) ≡ false
      → (xs ++ (if a then v else [])) ++ (if b then v else []) ≡ xs ++ (if a || b then v else [])
  join xs true true e = cc
  join xs true false e = append-nil (xs ++ v)
  join xs false b e = rw (append-nil xs) refl

  -- Two steps, for different workers.
  pub Extended-trans :
      (d d' d'' : Draft) (a b who : ℕ → Bool)
      → Extended d d' a
      → Extended d' d'' b
      → ((w : ℕ) → (a w && b w) ≡ false)
      → ((w : ℕ) → who w ≡ (a w || b w))
      → Extended d d'' who
  Extended-trans d d' d'' a b who p q apart both = record {
    one = q.one;
    hooks = λ w. rw (q.hooks w, p.hooks w, both w) (join (at c proj w d.0) (a w) (b w) (apart w));
    keys = λ k h. q.keys k (p.keys k h);
    workers = λ w. rw (q.workers w, p.workers w, both w) (ground arith);
  }

  pub unchanged :
      (d : Draft) (who : ℕ → Bool) → OnePerWorker c d → ((w : ℕ) → who w ≡ false) → Extended d d who
  unchanged d who one e = record {
    one = one;
    hooks = λ w. rw (e w) (sym (append-nil (at c proj w d.0)));
    keys = λ k h. h;
    workers = λ w. rw (e w) (ground arith);
  }

  -- A hook is added to the payload of `h`.
  pub touch :
      (h : ℕ) (f : Message → Message) (d : Draft)
      → ((p : Message) → proj (f p) ≡ proj p ++ v)
      → OnePerWorker c d
      → Dict.has h d.0 ≡ true
      → Extended d (Dict.modify h f d.0, d.1) (λ w. c.mwid h == w)
  touch h f d law one there =
      let single : load c (c.mwid h) d.0 ≡ 1 =
        ground (arith, one (c.mwid h), has-load c h d.0 there) in
      record {
        one = λ w. load-modify c w h f d.0 ∙ one w;
        hooks = λ w. at-modify c proj w h f v d.0 law there single;
        keys = λ k e. has-modify c k h f d.0 ∙ e;
        workers = λ w. ground (arith, one (c.mwid h), single);
      }

  mem-append_one : (w x : ℕ) (xs : List ℕ) → mem w (xs ++ x ∷ []) ≡ (mem w xs || x == w)
  mem-append_one w x [] = ground arith
  mem-append_one w x (y ∷ ys) = ground (arith, mem-append_one w x ys)

  -- A payload is added for a worker that has none.
  pub add_payload :
      (h : ℕ) (p : Message) (d : Draft)
      → proj p ≡ v
      → OnePerWorker c d
      → mem (c.mwid h) d.1 ≡ false
      → Extended d (Dict.put h p d.0, d.1 ++ c.mwid h ∷ []) (λ w. c.mwid h == w)
  add_payload h p d law one fresh =
      let new : Dict.has h d.0 ≡ false = not-has-load c h d.0 (ground (arith, one (c.mwid h))) in
      rw (Dict.put_new h p d.0 new) (record {
        one = λ w. ground (
          arith,
          one w,
          one (c.mwid h),
          load-append c w d.0 ((h, p) ∷ []),
          mem-append_one w (c.mwid h) d.1,
        );
        hooks = λ w.
            at-append c proj w d.0 ((h, p) ∷ [])
            ∙ ap (λ l. at c proj w d.0 ++ l) (rw (append-nil (proj p), law) refl);
        keys = λ k e. rw (Dict.has-append k d.0 ((h, p) ∷ []), e) refl;
        workers = λ w. mem-append_one w (c.mwid h) d.1;
      })
