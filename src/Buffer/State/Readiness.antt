-- ===== src/Buffer/State/Readiness.antt =====
-- The mask computation of `put_batch` and `amend_batch` says for which calls a slot has the keys.
use mathlib.Core.Option.{some-injective}
use rea_lhf.Base.{
  ==_false, ==_refl, Bool, Bool-cases, List, [], all, ap, arith, false, get_elem?, inl, inr, map,
  mem, not, refl, some, suc, sym, true, zero, ℕ, ℕ_discrete, ◌||◌, ◌∙◌, ◌∷◌, ◌≡◌,
}
use rea_lhf.Buffer.Sample.{mem-union}
use rea_lhf.Buffer.Slots.{Rpc, Slot}
use rea_lhf.Buffer.State.{covers, keys_of, refresh_ready, rpc_data_keys}

covers-map :
    (h m : ℕ → Bool) (ks : List ℕ) → covers (map h ks) (map m ks) ≡ all (λ k. h k || not (m k)) ks
covers-map h m [] = refl
covers-map h m (k ∷ ks) = ground (arith, covers-map h m ks)

all_of_mem :
    (p : ℕ → Bool) (xs : List ℕ) → ((k : ℕ) → mem k xs ≡ true → p k ≡ true) → all p xs ≡ true
all_of_mem p [] h = refl
all_of_mem p (x ∷ xs) h =
    rw (h x (rw (==_refl x)), all_of_mem p xs (λ k m. h k (ground (arith, m))))

mem_of_all : (p : ℕ → Bool) (xs : List ℕ) (k : ℕ) → all p xs ≡ true → mem k xs ≡ true → p k ≡ true
mem_of_all p [] k h m = cc
mem_of_all p (x ∷ xs) k h m = elim (ℕ_discrete k x) [
  | yes e ↦ rw e (ground arith)
  | no ne ↦ mem_of_all p xs k (ground arith) (ground (arith, ==_false k x ne))
]

mem-rpc_data_keys :
    (rpcs : List Rpc) (i x : ℕ) (r : Rpc)
    → get_elem? rpcs i ≡ some r
    → mem x r.input_keys ≡ true
    → mem x (rpc_data_keys rpcs) ≡ true
mem-rpc_data_keys [] i x r e m = cc
mem-rpc_data_keys (q ∷ rpcs) zero x r e m =
    let same : r ≡ q = sym (some-injective q r e) in
    rw (mem-union x q.input_keys (rpc_data_keys rpcs)) (rw (rw same at m))
mem-rpc_data_keys (q ∷ rpcs) (suc i) x r e m =
    rw (mem-union x q.input_keys (rpc_data_keys rpcs), mem-rpc_data_keys rpcs i x r e m)
      (ground arith)

eq_of_iff : (a b : Bool) → (a ≡ true → b ≡ true) → (b ≡ true → a ≡ true) → a ≡ b
eq_of_iff true b f g = sym (f refl)
eq_of_iff false true f g = g refl
eq_of_iff false false f g = refl

nth-map :
    (f : Rpc → Bool) (rpcs : List Rpc) (i : ℕ) (r : Rpc)
    → get_elem? rpcs i ≡ some r
    → get_elem? (map f rpcs) i ≡ some (f r)
nth-map f [] i r e = cc
nth-map f (q ∷ rpcs) zero r e = ap (λ x. some (f x)) (some-injective q r e)
nth-map f (q ∷ rpcs) (suc i) r e = nth-map f rpcs i r e

-- After `_ready_for_rpcs` is computed anew, the flag of the `i`-th call is set if and only if each of its input keys is a key of the sample
-- of the slot.
pub refresh_ready_lem :
    (rpcs : List Rpc) (s : Slot) (i : ℕ) (r : Rpc)
    → get_elem? rpcs i ≡ some r
    → get_elem? (refresh_ready rpcs s).ready_for_rpcs i
      ≡ some (all (λ k. mem k (keys_of s)) r.input_keys)
unfolding refresh_ready
refresh_ready_lem rpcs s i r e =
    nth-map _ rpcs i r e
    ∙ ap some (
        covers-map (λ k. mem k (keys_of s)) (λ k. mem k r.input_keys) (rpc_data_keys rpcs)
        ∙ eq_of_iff _ _
            (λ h. all_of_mem _ r.input_keys λ k m.
              let c = mem_of_all _ (rpc_data_keys rpcs) k h (mem-rpc_data_keys rpcs i k r e m) in
              ground (arith, c, m))
            (λ h. all_of_mem _ (rpc_data_keys rpcs) λ k m. implied k h))
  where
    implied :
        (k : ℕ)
        → all (λ k. mem k (keys_of s)) r.input_keys ≡ true
        → (mem k (keys_of s) || not (mem k r.input_keys)) ≡ true
    implied k h = elim (Bool-cases (mem k r.input_keys)) [
      | inl t ↦ rw (mem_of_all _ r.input_keys k h t) refl
      | inr t ↦ rw t (ground arith)
    ]
