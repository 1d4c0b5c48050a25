-- ===== src/System/Requests/Payloads.antt =====
-- The payloads of a whole call: one for each model worker that takes part, with its hooks in order.
use rea_lhf.System.Dict
use mathlib.Core.List.{append-nil, append_assoc}
use rea_lhf.Base.{
  Bool, List, [], all, arith, false, if◌then◌else◌, map, mem, none, refl, some, sym, true, ℕ, ◌++◌,
  ◌||◌, ◌∙◌, ◌∷◌, ◌≡◌,
}
use rea_lhf.System.Payload.{offload, param_realloc}
use rea_lhf.System.Requests.{
  Cluster, Draft, HandleName, HookData, HookName, HookType, Message, RpcHook, append_hook,
  attach_hook, attach_hooks, blank_payload, distinct, offload_data, offload_hook,
  param_realloc_hook, realloc_data,
}
use rea_lhf.System.Requests.Attach.{AllHave, AllHave-mono, among, hook_all_lem, on_worker}
use rea_lhf.System.Requests.Extend.{Extended}
use rea_lhf.System.Requests.Parties.{OnePerWorker, at}

-- The name of a hook, its data for a call of `model`, and the handlers besides the main ones.
abbrev pub hook_name : RpcHook → HookName
hook_name (param_realloc_hook source target) = param_realloc
hook_name offload_hook = offload

abbrev pub hook_data : ℕ → RpcHook → HookData
hook_data model (param_realloc_hook none none) = offload_data model
hook_data model (param_realloc_hook none (some target)) = realloc_data model target
hook_data model (param_realloc_hook (some source) target) = realloc_data source model
hook_data model offload_hook = offload_data model

abbrev pub others_of : Cluster → RpcHook → List ℕ
others_of c (param_realloc_hook none none) = []
others_of c (param_realloc_hook none (some target)) = c.shards target
others_of c (param_realloc_hook (some source) target) = c.shards source
others_of c offload_hook = []

-- A hook has either a source or a target, and the shards of its model are on different workers.
abbrev pub well_formed : Cluster → RpcHook → Bool
well_formed c (param_realloc_hook none none) = false
well_formed c (param_realloc_hook (some source) (some target)) = false
well_formed c k = distinct (map c.mwid (others_of c k))

module _ (c : Cluster) (mains : List ℕ) where
  abbrev pub takes_part : List RpcHook → ℕ → Bool
  takes_part [] w = false
  takes_part (k ∷ ks) w = among c mains (others_of c k) w || takes_part ks w

  -- What worker `w` should find of the hooks: of each in turn its value, if `w` takes part.
  abbrev pub expected : {X : Type 0} → (RpcHook → List X) → List RpcHook → ℕ → List X
  expected value [] w = []
  expected value (k ∷ ks) w =
      (if among c mains (others_of c k) w then value k else []) ++ expected value ks w

module _ (c : Cluster) {X : Type 0} (proj : Message → List X) (model : ℕ) (mains : List ℕ)
    (t : HookType) (value : RpcHook → List X) where
  pub record Attached (ks : List RpcHook) (d d' : Draft) : Type 0 where
    pub one : OnePerWorker c d'
    pub hooks : (w : ℕ) → at c proj w d'.0 ≡ at c proj w d.0 ++ expected c mains value ks w
    pub keys : (k : ℕ) → Dict.has k d.0 ≡ true → Dict.has k d'.0 ≡ true
    pub workers : (w : ℕ) → mem w d'.1 ≡ (mem w d.1 || takes_part c mains ks w)

  module _
      (grows : (k : RpcHook) (p : Message)
        → proj (append_hook t (hook_name k) (hook_data model k) p) ≡ proj p ++ value k)
      (blank : (k : RpcHook) (h : ℕ)
        → proj (
            append_hook t
              (hook_name k)
              (hook_data model k)
              (blank_payload c h HandleName.empty none))
          ≡ value k)
      (e : distinct (map c.mwid mains) ≡ true) where
    attach_hook_lem :
        (k : RpcHook) (d : Draft)
        → OnePerWorker c d
        → AllHave mains d.0
        → ((w : ℕ) → on_worker c w mains ≡ true → mem w d.1 ≡ true)
        → well_formed c k ≡ true
        → (d' : Draft) × (attach_hook c t model mains k d ≡ some d')
          × Extended c proj (value k) d d' (among c mains (others_of c k))
    unfolding attach_hook
    attach_hook_lem (param_realloc_hook none none) d one have inside f = cc
    attach_hook_lem (param_realloc_hook none (some target)) d one have inside f =
        let k = param_realloc_hook none (some target) in
        hook_all_lem c proj (value k) t (hook_name k) (hook_data model k) (grows k) (blank k) mains
          (others_of c k) d one have inside e f
    attach_hook_lem (param_realloc_hook (some source) none) d one have inside f =
        let k = param_realloc_hook (some source) none in
        hook_all_lem c proj (value k) t (hook_name k) (hook_data model k) (grows k) (blank k) mains
          (others_of c k) d one have inside e f
    attach_hook_lem (param_realloc_hook (some source) (some target)) d one have inside f = cc
    attach_hook_lem offload_hook d one have inside f =
        let k = offload_hook in
        hook_all_lem c proj (value k) t (hook_name k) (hook_data model k) (grows k) (blank k) mains
          [] d one have inside e f

    pub attach_hooks_lem :
        (ks : List RpcHook) (d : Draft)
        → OnePerWorker c d
        → AllHave mains d.0
        → ((w : ℕ) → on_worker c w mains ≡ true → mem w d.1 ≡ true)
        → all (well_formed c) ks ≡ true
        → (d' : Draft) × (attach_hooks c t model mains ks d ≡ some d') × Attached ks d d'
    unfolding attach_hooks
    attach_hooks_lem [] d one have inside f = (
      d,
      refl,
      record {
        one = one;
        hooks = λ w. sym (append-nil (at c proj w d.0));
        keys = λ k h. h;
        workers = λ w. ground arith;
      },
    )
    attach_hooks_lem (k ∷ ks) d one have inside f =
        let (d', g, step) = attach_hook_lem k d one have inside (ground arith) in
        let (d'', h, rest) =
          attach_hooks_lem ks d' step.one (AllHave-mono mains d.0 d'.0 step.keys have)
            (λ w m. ground (arith, inside w m, step.workers w)) (ground arith) in
        (
          d'',
          rw g h,
          record {
            one = rest.one;
            hooks = λ w.
                rest.hooks w
                ∙ rw (step.hooks w)
                    (append_assoc (at c proj w d.0) _ (expected c mains value ks w));
            keys = λ j y. rest.keys j (step.keys j y);
            workers = λ w. rw (rest.workers w, step.workers w) (ground arith);
          },
        )
