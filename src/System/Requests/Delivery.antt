-- ===== src/System/Requests/Delivery.antt =====
-- Who gets which payload of a model function call.
use rea_lhf.System.Dict
use mathlib.Core.List.{append-nil, append_assoc}
use mathlib.Core.Path.{fun_ext}
use rea_lhf.Base.{
  ==_false, Bool, Bool-cases, List, [], all, arith, false, if◌then◌else◌, inl, inr, map, mem, none,
  not, refl, some, true, ℕ, ℕ_discrete, ◌&&◌, ◌++◌, ◌==◌, ◌||◌, ◌∙◌, ◌∷◌, ◌≡◌,
}
use rea_lhf.System.Payload.{HandleName, data_transfer}
use rea_lhf.System.Requests.{
  Call, Cluster, Draft, Message, Payloads, RpcHook, add_producer, add_producers, append_hook,
  blank_payload, distinct, main_payload, main_payloads, post, pre, producer_shards,
  request_payloads, transfer_data,
}
use rea_lhf.System.Requests.Attach.{AllHave, AllHave-mono, apart_of_distinct, on_worker}
use rea_lhf.System.Requests.Extend.{Extended, Extended-trans, add_payload, unchanged}
use rea_lhf.System.Requests.Parties.{OnePerWorker, at, load}
use rea_lhf.System.Requests.Payloads.{
  attach_hooks_lem, expected, hook_data, hook_name, takes_part, well_formed,
}

-- The workers of the call's own model, and those that produced its data.
abbrev pub transfers : Cluster → Call → ℕ → Bool
transfers c r w =
    on_worker c w (c.shards r.model_name) || on_worker c w (producer_shards c r.producer_names)

module _ (c : Cluster) (r : Call) {X : Type 0} (proj : Message → List X) (first : List X)
    (main : (h : ℕ) → proj (main_payload c r h) ≡ first)
    (producer : (h : ℕ)
      → proj (append_hook pre data_transfer transfer_data (blank_payload c h HandleName.empty none))
        ≡ first) where
  main_payloads_keep :
      (k : ℕ) (hs : List ℕ) (ps : Payloads)
      → Dict.has k ps ≡ true
      → Dict.has k (main_payloads c r hs ps) ≡ true
  main_payloads_keep k [] ps e = e
  main_payloads_keep k (h ∷ hs) ps e =
      main_payloads_keep k hs (Dict.put h (main_payload c r h) ps)
        (ground (arith, Dict.has-put h k (main_payload c r h) ps))

  main_payloads_have : (hs : List ℕ) (ps : Payloads) → AllHave hs (main_payloads c r hs ps)
  main_payloads_have [] ps = tt
  main_payloads_have (h ∷ hs) ps = (
    main_payloads_keep h hs (Dict.put h (main_payload c r h) ps)
        (ground (arith, Dict.has-put h h (main_payload c r h) ps)),
    main_payloads_have hs (Dict.put h (main_payload c r h) ps),
  )

  main_payloads_lem :
      (hs : List ℕ) (d : Draft)
      → OnePerWorker c d
      → distinct (map c.mwid hs) ≡ true
      → ((w : ℕ) → on_worker c w hs ≡ true → mem w d.1 ≡ false)
      → Extended c proj first d
          (main_payloads c r hs d.0, d.1 ++ map c.mwid hs)
          (λ w. on_worker c w hs)
  main_payloads_lem [] d one e f = rw (append-nil d.1) (unchanged c proj first d _ one (λ w. refl))
  main_payloads_lem (h ∷ hs) d one e f =
      let step =
        add_payload c proj first h (main_payload c r h) d (main h) one
          (f (c.mwid h) (ground arith)) in
      let rest =
        main_payloads_lem hs (Dict.put h (main_payload c r h) d.0, d.1 ++ c.mwid h ∷ []) step.one
          (ground arith)
          (λ w m.
            ground
              (arith, step.workers w, f w, apart_of_distinct w (c.mwid h) (map c.mwid hs) e)) in
      Extended-trans c proj first d _ _ _ _ _ step
        (rw (append_assoc d.1 (c.mwid h ∷ []) (map c.mwid hs)) at rest)
        (λ w. apart_of_distinct w (c.mwid h) (map c.mwid hs) e) (λ w. ground arith)

  add_producer_lem :
      (h : ℕ) (d : Draft)
      → OnePerWorker c d
      → Extended c proj first d (add_producer c h d) (λ w. c.mwid h == w && not (mem w d.1))
  add_producer_lem h d one = elim (Bool-cases (mem (c.mwid h) d.1)) [
    | inl y ↦ rw y (unchanged c proj first d _ one (λ w. skip w (ℕ_discrete (c.mwid h) w) y))
    | inr n ↦ rw n (
        rw (fun_ext (λ w. other w (ℕ_discrete (c.mwid h) w) n))
          (add_payload c proj first h _ d (producer h) one n))
  ]
    where
      skip :
          (w : ℕ)
          → Dec (c.mwid h ≡ w)
          → mem (c.mwid h) d.1 ≡ true
          → (c.mwid h == w && not (mem w d.1)) ≡ false
      skip w (yes p) m = rw (← p) (ground arith)
      skip w (no p) m = rw (==_false (c.mwid h) w p) refl

      other :
          (w : ℕ)
          → Dec (c.mwid h ≡ w)
          → mem (c.mwid h) d.1 ≡ false
          → (c.mwid h == w && not (mem w d.1)) ≡ (c.mwid h == w)
      other w (yes p) m = rw (← p) (ground arith)
      other w (no p) m = rw (==_false (c.mwid h) w p) refl

  add_producers_lem :
      (hs : List ℕ) (d : Draft)
      → OnePerWorker c d
      → Extended c proj first d (add_producers c hs d) (λ w. on_worker c w hs && not (mem w d.1))
  unfolding add_producers
  add_producers_lem [] d one = unchanged c proj first d _ one (λ w. refl)
  add_producers_lem (h ∷ hs) d one =
      let step = add_producer_lem h d one in
      let rest = add_producers_lem hs (add_producer c h d) step.one in
      Extended-trans c proj first d _ _ _ _ _ step rest (λ w. ground (arith, step.workers w))
        (λ w. ground (arith, step.workers w))

  module _ (valpre valpost : RpcHook → List X)
      (pre_grows : (k : RpcHook) (p : Message)
        → proj (append_hook pre (hook_name k) (hook_data r.model_name k) p) ≡ proj p ++ valpre k)
      (post_grows : (k : RpcHook) (p : Message)
        → proj (append_hook post (hook_name k) (hook_data r.model_name k) p) ≡ proj p ++ valpost k)
      (pre_blank : (k : RpcHook) (h : ℕ)
        → proj (
            append_hook pre
              (hook_name k)
              (hook_data r.model_name k)
              (blank_payload c h HandleName.empty none))
          ≡ valpre k)
      (post_blank : (k : RpcHook) (h : ℕ)
        → proj (
            append_hook post
              (hook_name k)
              (hook_data r.model_name k)
              (blank_payload c h HandleName.empty none))
          ≡ valpost k)
      (e : distinct (map c.mwid (c.shards r.model_name)) ≡ true)
      (f : all (well_formed c) r.pre_hooks ≡ true)
      (g : all (well_formed c) r.post_hooks ≡ true) where
    -- One payload for each worker that takes part, and what `proj` sees of it.
    abbrev pub Delivered : Draft → Type 0
    Delivered d =
        ((w : ℕ)
          → load c w d.0 ≡ (
              if transfers c r w
                || takes_part c (c.shards r.model_name) r.pre_hooks w
                || takes_part c (c.shards r.model_name) r.post_hooks w
              then 1
              else 0))
        × ((w : ℕ)
            → at c proj w d.0
              ≡ (if transfers c r w then first else [])
                ++ expected c (c.shards r.model_name) valpre r.pre_hooks w
                ++ expected c (c.shards r.model_name) valpost r.post_hooks w)

    pub delivered_lem : (d : Draft) × (request_payloads c r ≡ some d) × Delivered d
    unfolding request_payloads
    delivered_lem =
        let mains = c.shards r.model_name in
        let prods = producer_shards c r.producer_names in
        let d1 : Draft = (main_payloads c r mains [], map c.mwid mains) in
        let one = main_payloads_lem mains ([], []) (λ w. refl) e (λ w m. refl) in
        let two = add_producers_lem prods d1 one.one in
        let d2 = add_producers c prods d1 in
        let both : Extended c proj first ([], []) d2 (transfers c r) =
          Extended-trans c proj first _ _ _ _ _ _ one two (λ w. ground arith) (λ w. ground arith) in
        let (d3, a, x) =
          attach_hooks_lem c proj r.model_name mains pre valpre pre_grows pre_blank e r.pre_hooks d2
            two.one (AllHave-mono mains d1.0 d2.0 two.keys (main_payloads_have mains []))
            (λ w m. ground (arith, both.workers w, m)) f in
        let (d4, b, y) =
          attach_hooks_lem c proj r.model_name mains post valpost post_grows post_blank e
            r.post_hooks d3 x.one
            (AllHave-mono mains d2.0 d3.0 x.keys
              (AllHave-mono mains d1.0 d2.0 two.keys (main_payloads_have mains [])))
            (λ w m. ground (arith, both.workers w, x.workers w, m)) g in
        (
          d4,
          rw (e, a) b,
          (
            λ w. ground (arith, y.one w, y.workers w, x.workers w, both.workers w),
            λ w. y.hooks w ∙ rw (x.hooks w, both.hooks w) refl,
          ),
        )
