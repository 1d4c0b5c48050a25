-- ===== src/System/Requests/Outcome.antt =====
-- What the model workers receive of a call: `_request_model_function_call` as a whole.
use mathlib.Core.List.{append-nil}
use mathlib.Core.Option.{some-injective}
use rea_lhf.Base.{
  Bool, Bool-cases, List, [], all, false, if◌then◌else◌, inl, inr, map, refl, some, sym, true, ℕ,
  ◌++◌, ◌||◌, ◌∙◌, ◌∷◌, ◌≡◌,
}
use rea_lhf.System.Payload.{HookName, data_transfer}
use rea_lhf.System.Requests.{
  Call, Cluster, Draft, HookData, RpcHook, distinct, request_payloads, transfer_data,
}
use rea_lhf.System.Requests.Attach.{among}
use rea_lhf.System.Requests.Delivery.{delivered_lem, transfers}
use rea_lhf.System.Requests.Parties.{at, load}
use rea_lhf.System.Requests.Payloads.{
  expected, hook_data, hook_name, others_of, takes_part, well_formed,
}

expected-none :
    {X : Type 0} (c : Cluster) (mains : List ℕ) (ks : List RpcHook) (w : ℕ)
    → expected c mains {X = X} (λ k. []) ks w ≡ []
expected-none c mains [] w = refl
expected-none c mains (k ∷ ks) w = elim (Bool-cases (among c mains (others_of c k) w)) [
  | inl e ↦ rw e (expected-none c mains ks w)
  | inr e ↦ rw e (expected-none c mains ks w)
]

if-nil : {X : Type 0} (b : Bool) (xs : List X) → (if b then [] else []) ++ xs ≡ xs
if-nil true xs = refl
if-nil false xs = refl

-- Whether worker `w` takes part in a call: in its transfer of data, or in one of its hooks.
abbrev pub is_party : Cluster → Call → ℕ → Bool
is_party c r w =
    transfers c r w
    || takes_part c (c.shards r.model_name) r.pre_hooks w
    || takes_part c (c.shards r.model_name) r.post_hooks w

-- The entries for the hooks `ks` at worker `w`.
abbrev pub data_for : Cluster → Call → List RpcHook → ℕ → List HookData
data_for c r ks w = expected c (c.shards r.model_name) (λ k. hook_data r.model_name k ∷ []) ks w

abbrev pub names_for : Cluster → Call → List RpcHook → ℕ → List HookName
names_for c r ks w = expected c (c.shards r.model_name) (λ k. hook_name k ∷ []) ks w

-- A model function call raises no error, and builds one payload for each model worker that takes part and
-- none for another. The pre-hooks that a worker finds in its payload are the data transfer, if it has a
-- shard of the call's model or of a producer of its data, and then, in the order of the call, each pre-hook
-- that involves a model of which it has a shard; the post-hooks likewise; each once, by name and data alike. So all
-- workers meet in the same order at the hooks that they share. The conditions are that the shards of
-- the call's model are on different workers, and that each hook has a source or a target and not
-- both, with the shards of that model on different workers.
pub request_payloads_lem :
    (c : Cluster) (r : Call)
    → distinct (map c.mwid (c.shards r.model_name)) ≡ true
    → all (well_formed c) r.pre_hooks ≡ true
    → all (well_formed c) r.post_hooks ≡ true
    → (d : Draft) × (request_payloads c r ≡ some d)
      × ((w : ℕ) → load c w d.0 ≡ (if is_party c r w then 1 else 0))
      × ((w : ℕ)
          → at c (λ p. p.pre_hook_data) w d.0
            ≡ (if transfers c r w then transfer_data ∷ [] else []) ++ data_for c r r.pre_hooks w)
      × ((w : ℕ)
          → at c (λ p. p.pre_hooks) w d.0
            ≡ (if transfers c r w then data_transfer ∷ [] else []) ++ names_for c r r.pre_hooks w)
      × ((w : ℕ) → at c (λ p. p.post_hook_data) w d.0 ≡ data_for c r r.post_hooks w)
      × ((w : ℕ) → at c (λ p. p.post_hooks) w d.0 ≡ names_for c r r.post_hooks w)
request_payloads_lem c r e f g =
    let model = r.model_name in
    let mains = c.shards model in
    let (d, q, (l, a)) =
      delivered_lem c r (λ p. p.pre_hook_data) (transfer_data ∷ []) (λ h. refl) (λ h. refl)
        (λ k. hook_data model k ∷ []) (λ k. []) (λ k p. refl)
        (λ k p. sym (append-nil p.pre_hook_data)) (λ k h. refl) (λ k h. refl) e f g in
    let (d2, q2, (_, a2)) =
      delivered_lem c r (λ p. p.pre_hooks) (data_transfer ∷ []) (λ h. refl) (λ h. refl)
        (λ k. hook_name k ∷ []) (λ k. []) (λ k p. refl) (λ k p. sym (append-nil p.pre_hooks))
        (λ k h. refl) (λ k h. refl) e f g in
    let (d3, q3, (_, a3)) =
      delivered_lem c r (λ p. p.post_hook_data) [] (λ h. refl) (λ h. refl) (λ k. [])
        (λ k. hook_data model k ∷ []) (λ k p. sym (append-nil p.post_hook_data)) (λ k p. refl)
        (λ k h. refl) (λ k h. refl) e f g in
    let (d4, q4, (_, a4)) =
      delivered_lem c r (λ p. p.post_hooks) [] (λ h. refl) (λ h. refl) (λ k. [])
        (λ k. hook_name k ∷ []) (λ k p. sym (append-nil p.post_hooks)) (λ k p. refl) (λ k h. refl)
        (λ k h. refl) e f g in
    (
      d,
      q,
      l,
      λ w. a w ∙ rw (expected-none c mains r.post_hooks w) (append-nil _),
      λ w.
          rw (some-injective _ _ (sym q2 ∙ q)) at (a2 w)
          ∙ rw (expected-none c mains r.post_hooks w) (append-nil _),
      λ w.
          rw (some-injective _ _ (sym q3 ∙ q)) at (a3 w)
          ∙ rw (expected-none c mains r.pre_hooks w)
              (rw (append-nil (if transfers c r w then [] else [])) (if-nil (transfers c r w) _)),
      λ w.
          rw (some-injective _ _ (sym q4 ∙ q)) at (a4 w)
          ∙ rw (expected-none c mains r.pre_hooks w)
              (rw (append-nil (if transfers c r w then [] else [])) (if-nil (transfers c r w) _)),
    )
