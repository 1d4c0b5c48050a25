-- ===== src/Flatten/Stored.antt =====
-- A parameter that is written to its place in the flat array.
use rea_lhf.Base.{
  List, Option, [], arith, get_elem?, inl, inr, length, set, some, ℕ, ◌+◌, ◌<◌, ◌∷◌, ◌≡◌, ◌⊎◌,
}
use rea_lhf.Flatten.Intervals.{set_intervals, slice_intervals}
use rea_lhf.Flatten.Keys.{Key}
use rea_lhf.Flatten.Params.{build_param_spec_lem}
use rea_lhf.Flatten.SetSlice.{Apart, Disjoint, sizes, slice_intervals-set_intervals}
use rea_lhf.Flatten.Spec.{Arguments, ContiguousParamSpec, build_param_spec}
use rea_lhf.Samples.{slice}

swap : {a b : ℕ × ℕ} → Disjoint a b → Disjoint b a
swap (inl h) = inr h
swap (inr h) = inl h

-- Where `build_param_spec` has laid out the parameters and the flat array has the total size, values of
-- the size of the interval of one parameter are set in it without an error; they are what is then
-- sliced from it; and the interval of any other parameter is the same one, or holds what it did.
pub set_intervals-build_param_spec :
    (numel : Key → Option ℕ) (a : Arguments) (is : List ℕ) (m : List (Key × ContiguousParamSpec))
    (n i j : ℕ) (e f : Key × ContiguousParamSpec) (v flat : List ℕ)
    → 0 < a.dp_size
    → build_param_spec numel a is ≡ some (m, n)
    → get_elem? m i ≡ some e
    → get_elem? m j ≡ some f
    → length flat ≡ n
    → e.1.start_idx + length v ≡ e.1.end_idx
    → (d : List ℕ) × (set_intervals v flat ((e.1.start_idx, e.1.end_idx) ∷ []) ≡ some d)
      × (slice_intervals d ((e.1.start_idx, e.1.end_idx) ∷ []) ≡ some v)
      × (((e.1.start_idx ≡ f.1.start_idx) × (e.1.end_idx ≡ f.1.end_idx))
          ⊎ (slice f.1.start_idx f.1.end_idx d ≡ slice f.1.start_idx f.1.end_idx flat))
set_intervals-build_param_spec numel a is m n i j e f v flat h run at to size fits =
    let (padded, below, own, apart) = build_param_spec_lem numel a is m n i j e f h run at to in
    let inside : Apart (length flat) ((e.1.start_idx, e.1.end_idx) ∷ []) =
      (omega (arith, fits), omega (arith, below, size), tt, tt) in
    let whole : sizes ((e.1.start_idx, e.1.end_idx) ∷ []) ≡ length v = omega (arith, fits) in
    elim apart [
      | inl same ↦
          let (d, set, sliced, _) =
            slice_intervals-set_intervals v flat (e.1.start_idx, e.1.end_idx) [] 0 0 inside whole
              (inl (omega arith), tt) in
          (d, set, sliced, inl same)
      | inr other ↦
          let (d, set, sliced, kept) =
            slice_intervals-set_intervals v flat (e.1.start_idx, e.1.end_idx) [] f.1.start_idx
              f.1.end_idx inside whole (swap other, tt) in
          (d, set, sliced, inr kept)
    ]
