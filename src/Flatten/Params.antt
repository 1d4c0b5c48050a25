-- ===== src/Flatten/Params.antt =====
-- What `build_param_spec` returns.
use mathlib.Core.List.{reverse}
use mathlib.Core.Option.{some-injective}
use mathlib.Core.Path.{subst}
use rea_lhf.Base.{
  >>=-eq-some, Bool, Bool-cases, List, Option, [], any, ap, arith, false, get_elem?, inl, inr, mem,
  none, not, refl, some, suc, sym, true, zero, ℕ, ◌%◌, ◌&&◌, ◌<◌, ◌>>=◌, ◌∙◌, ◌∷◌, ◌≡◌, ◌≤◌, ◌⊎◌,
}
use rea_lhf.Flatten.Keys.{Key, key_eq, keys_from_layer_indices}
use rea_lhf.Flatten.Layout.{
  Down, Down-le, Laid, Laid-layout_params, Sized, pad_to_multiple-some, padded, padded-le,
  padded-mod,
}
use rea_lhf.Flatten.SetSlice.{Disjoint}
use rea_lhf.Flatten.Spec.{
  Arguments, ContiguousParamSpec, Layout, build_from, build_param_spec, empty_layout, head_key,
  is_empty, layout_params, share_embedding, spec_of, total_size, wte_key,
}

-- The same interval, or no common position.
abbrev pub Separate : ContiguousParamSpec → ContiguousParamSpec → Type 0
Separate x y =
    ((x.start_idx ≡ y.start_idx) × (x.end_idx ≡ y.end_idx))
    ⊎ Disjoint (x.start_idx, x.end_idx) (y.start_idx, y.end_idx)

module _ (numel : Key → Option ℕ) (a : Arguments) where
  Down-entry :
      (b i : ℕ) (m : List (Key × ContiguousParamSpec)) (e : Key × ContiguousParamSpec)
      → Down numel a b m
      → get_elem? m i ≡ some e
      → Sized numel a e.0 e.1 × (e.1.end_idx ≤ b)
  Down-entry b i [] e d at = cc
  Down-entry b zero ((k, x) ∷ m) e (s, l, d) at =
      let same : (k, x) ≡ e = some-injective _ _ at in rw (← same) (s, l)
  Down-entry b (suc i) ((k, x) ∷ m) e (s, l, d) at =
      let (t, below) = Down-entry x.start_idx i m e d at in (t, omega (arith, s.2, l, below))

  Down-Separate :
      (b i j : ℕ) (m : List (Key × ContiguousParamSpec)) (e f : Key × ContiguousParamSpec)
      → Down numel a b m
      → get_elem? m i ≡ some e
      → get_elem? m j ≡ some f
      → Separate e.1 f.1
  Down-Separate b i j [] e f d at to = cc
  Down-Separate b zero zero ((k, x) ∷ m) e f d at to =
      let same : e ≡ f = some-injective _ _ (sym at ∙ to) in rw same (inl (refl, refl))
  Down-Separate b zero (suc j) ((k, x) ∷ m) e f (s, l, d) at to =
      let same : (k, x) ≡ e = some-injective _ _ at in
      rw (← same) (inr (inr (Down-entry x.start_idx j m f d to).1))
  Down-Separate b (suc i) zero ((k, x) ∷ m) e f (s, l, d) at to =
      let same : (k, x) ≡ f = some-injective _ _ to in
      rw (← same) (inr (inl (Down-entry x.start_idx i m e d at).1))
  Down-Separate b (suc i) (suc j) ((k, x) ∷ m) e f (s, l, d) at to =
      Down-Separate x.start_idx i j m e f d at to

  spec_of-entry :
      (k : Key) (m : List (Key × ContiguousParamSpec)) (x : ContiguousParamSpec)
      → spec_of k m ≡ some x
      → (i : ℕ) × (j : Key) × (get_elem? m i ≡ some (j, x))
  spec_of-entry k [] x e = cc
  spec_of-entry k ((j, y) ∷ m) x e = elim (Bool-cases (key_eq j k)) [
    | inl t ↦ let same : some y ≡ some x = rw t at e in (0, j, rw (some-injective _ _ same) refl)
    | inr f ↦
        let later : spec_of k m ≡ some x = rw f at e in
        let (i, l, at) = spec_of-entry k m x later in (suc i, l, at)
  ]

  -- An entry of the result, by one that the loop made.
  abbrev Made : List (Key × ContiguousParamSpec) → Key × ContiguousParamSpec → Type 0
  Made m e =
      (i : ℕ) × (k : Key) × (get_elem? m i ≡ some (k, e.1))
      × ((k ≡ e.0) ⊎ ((a.head_param_point_to_embedding ≡ true) × (e.0 ≡ head_key a.config)))

  Made-shared :
      (m m' : List (Key × ContiguousParamSpec)) (e : Key × ContiguousParamSpec)
      (x : ContiguousParamSpec)
      → spec_of wte_key m ≡ some x
      → (head_key a.config, x) ∷ m ≡ m'
      → a.head_param_point_to_embedding ≡ true
      → (i : ℕ) → get_elem? m' i ≡ some e
      → Made m e
  Made-shared m m' e x found eq points zero at =
      let first : get_elem? ((head_key a.config, x) ∷ m) 0 ≡ some e =
        subst (λ l. get_elem? l 0 ≡ some e) (sym eq) at in
      let same : (head_key a.config, x) ≡ e = some-injective _ _ first in
      let (i, k, there) = spec_of-entry wte_key m x found in
      rw (← same) (i, k, there, inr (points, refl))
  Made-shared m m' e x found eq points (suc i) at =
      let later : get_elem? ((head_key a.config, x) ∷ m) (suc i) ≡ some e =
        subst (λ l. get_elem? l (suc i) ≡ some e) (sym eq) at in
      (i, e.0, later, inl refl)

  Made-share_embedding :
      (ks : List Key) (m m' : List (Key × ContiguousParamSpec)) (i : ℕ)
      (e : Key × ContiguousParamSpec)
      → share_embedding numel a ks m ≡ some m'
      → get_elem? m' i ≡ some e
      → Made m e
  Made-share_embedding ks m m' i e run at =
      elim (Bool-cases (a.head_param_point_to_embedding && any (key_eq (head_key a.config)) ks)) [
        | inl t ↦
            let shared : (spec_of wte_key m >>= λ x. some ((head_key a.config, x) ∷ m)) ≡ some m' =
              rw t at run in
            let (x, found, eq) = >>=-eq-some (spec_of wte_key m) _ shared in
            Made-shared m m' e x found (some-injective _ _ eq) (ground (arith, t)) i at
        | inr f ↦
            let same : some m ≡ some m' = rw f at run in
            let at' : get_elem? m i ≡ some e = rw (some-injective _ _ same) at in
            (i, e.0, at', inl refl)
      ]

  total_size-padded :
      (s : Layout) (n : ℕ)
      → 0 < a.dp_size
      → Down numel a s.data_start_index s.param_spec
      → s.data_end_index ≡ some s.data_start_index
      → is_empty s.bucket_params ≡ false
      → total_size numel a s ≡ some n
      → Down numel a n s.param_spec × (n % a.dp_size ≡ 0)
  total_size-padded s n h d end some_left e =
      let same : some (padded s.data_start_index a.dp_size) ≡ some n =
        rw (end, some_left, pad_to_multiple-some s.data_start_index a.dp_size h) at e in
      rw (← (some-injective _ _ same)) (
        Down-le numel a s.data_start_index _ s.param_spec (padded-le s.data_start_index a.dp_size h)
            d,
        padded-mod s.data_start_index a.dp_size,
      )

  total_size-bounds :
      (s : Layout) (n : ℕ)
      → 0 < a.dp_size
      → Laid numel a s
      → total_size numel a s ≡ some n
      → Down numel a n s.param_spec × (n % a.dp_size ≡ 0)
  total_size-bounds s n h (d, inl none_yet) e = let never : none ≡ some n = rw none_yet at e in cc
  total_size-bounds s n h (d, inr (end, inl some_left)) e =
      total_size-padded s n h d end some_left e
  total_size-bounds s n h (d, inr (end, inr padded)) e =
      elim (Bool-cases (is_empty s.bucket_params)) [
        | inl t ↦
            let same : some s.data_start_index ≡ some n = rw (end, t) at e in
            rw (← (some-injective _ _ same)) (d, padded)
        | inr f ↦ total_size-padded s n h d end f e
      ]

  abbrev Fine : ℕ → (e f : Key × ContiguousParamSpec) → Type 0
  Fine n e f =
      (n % a.dp_size ≡ 0)
      × (e.1.end_idx ≤ n)
      × (Sized numel a e.0 e.1
          ⊎ ((a.head_param_point_to_embedding ≡ true) × (e.0 ≡ head_key a.config)))
      × Separate e.1 f.1

  Made-Fine :
      (n : ℕ) (m : List (Key × ContiguousParamSpec)) (e f : Key × ContiguousParamSpec)
      → Down numel a n m
      → n % a.dp_size ≡ 0
      → Made m e
      → Made m f
      → Fine n e f
  Made-Fine n m e f d padded (i, k, at, inl same) (j, l, to, _) =
      let (size, below) = Down-entry n i m (k, e.1) d at in
      (padded, below, inl (rw (← same) size), Down-Separate n i j m (k, e.1) (l, f.1) d at to)
  Made-Fine n m e f d padded (i, k, at, inr points) (j, l, to, _) =
      let (size, below) = Down-entry n i m (k, e.1) d at in
      (padded, below, inr points, Down-Separate n i j m (k, e.1) (l, f.1) d at to)

  build_from_lem :
      (b : Bool) (ks : List Key) (m : List (Key × ContiguousParamSpec)) (n i j : ℕ)
      (e f : Key × ContiguousParamSpec)
      → 0 < a.dp_size
      → build_from numel a b ks ≡ some (m, n)
      → get_elem? m i ≡ some e
      → get_elem? m j ≡ some f
      → Fine n e f
  build_from_lem b ks m n i j e f h run at to =
      let (s, laid_out, run1) =
        >>=-eq-some (layout_params numel a b ks (empty_layout numel a)) _ run in
      let (n', total, run2) = >>=-eq-some (total_size numel a s) _ run1 in
      let (m', shared, run3) = >>=-eq-some (share_embedding numel a ks s.param_spec) _ run2 in
      let same : (m', n') ≡ (m, n) = some-injective (m', n') (m, n) run3 in
      let e1 : m' ≡ m = ap (λ p. p.0) same in
      let e2 : n' ≡ n = ap (λ p. p.1) same in
      let laid =
        Laid-layout_params numel a b ks (empty_layout numel a) s h laid_out (tt, inl refl) in
      let (d, whole) = total_size-bounds s n' h laid total in
      rw (← e2) (
        Made-Fine n' s.param_spec e f d whole
          (Made-share_embedding ks s.param_spec m' i e shared (rw e1 at))
          (Made-share_embedding ks s.param_spec m' j f shared (rw e1 to)))

  -- Any two of the parameters that are laid out have the same interval or no common position; each lies
  -- within the total size, which is a multiple of the data parallel size, and has as many positions as
  -- the parameter has elements, unless it is the head that points to the embedding. (The data parallel
  -- size is positive.)
  pub build_param_spec_lem :
      (is : List ℕ) (m : List (Key × ContiguousParamSpec)) (n i j : ℕ)
      (e f : Key × ContiguousParamSpec)
      → 0 < a.dp_size
      → build_param_spec numel a is ≡ some (m, n)
      → get_elem? m i ≡ some e
      → get_elem? m j ≡ some f
      → (n % a.dp_size ≡ 0)
        × (e.1.end_idx ≤ n)
        × (Sized numel a e.0 e.1
            ⊎ ((a.head_param_point_to_embedding ≡ true) × (e.0 ≡ head_key a.config)))
        × Separate e.1 f.1
  unfolding build_param_spec
  build_param_spec_lem [] m n i j e f h run at to =
      let same : m ≡ [] = ap (λ p. p.0) (sym (some-injective ([], 0) (m, n) run)) in
      let never : get_elem? {A = Key × ContiguousParamSpec} [] i ≡ some e =
        subst (λ l. get_elem? l i ≡ some e) same at in
      cc
  build_param_spec_lem (x ∷ xs) m n i j e f h run at to =
      let (ks, _, run1) = >>=-eq-some (keys_from_layer_indices a.config (x ∷ xs)) _ run in
      build_from_lem (not (mem 0 (x ∷ xs))) (reverse ks) m n i j e f h run1 at to
