-- ===== src/Flatten/Total.antt =====
-- `build_param_spec` lays out every list of layers of a model that is rightly configured.
use mathlib.Core.List.{reverse, reverse-cons}
use rea_lhf.Base.{
  Bool, Bool-cases, List, Option, [], all, arith, false, inl, inr, mem, none, not, refl, some, true,
  ℕ, ◌&&◌, ◌++◌, ◌<◌, ◌∷◌, ◌≡◌, ◌≢◌,
}
use rea_lhf.Flatten.Keys.{Key, ReaLModelConfig, key_eq, unknown}
use rea_lhf.Flatten.Keys.Layers.{keys_from_layer_indices-some}
use rea_lhf.Flatten.Layout.{Laid, Yields, layout_param-Laid, pad_to_multiple-some, padded}
use rea_lhf.Flatten.Shapes.{numel}
use rea_lhf.Flatten.Shapes.Sizes.{Divisible, numel-proper, proper}
use rea_lhf.Flatten.Spec.{
  Arguments, ContiguousParamSpec, Layout, build_from, build_param_spec, empty_layout, head_key,
  is_empty, layout_param, layout_params, share_embedding, total_size,
}
use rea_lhf.System.Dict.{is_some}

all-append :
    (f : Key → Bool) (xs ys : List Key)
    → all f xs ≡ true
    → all f ys ≡ true
    → all f (xs ++ ys) ≡ true
all-append f [] ys e g = g
all-append f (x ∷ xs) ys e g = ground (arith, all-append f xs ys)

all-reverse : (f : Key → Bool) (xs : List Key) → all f xs ≡ true → all f (reverse xs) ≡ true
all-reverse f [] e = refl
all-reverse f (x ∷ xs) e =
    let (now, later) : (f x ≡ true) × (all f xs ≡ true) = ground (arith, e) in
    rw (reverse-cons x xs)
      (all-append f (reverse xs) (x ∷ []) (all-reverse f xs later) (rw now refl))

last_full : (xs : List Key) (k : Key) → is_empty (xs ++ k ∷ []) ≡ false
last_full [] k = refl
last_full (x ∷ xs) k = refl

reverse_full : (xs : List Key) → is_empty xs ≡ false → is_empty (reverse xs) ≡ false
reverse_full [] e = cc
reverse_full (x ∷ xs) e = rw (reverse-cons x xs) (last_full (reverse xs) x)

some_of : {A : Type 0} (o : Option A) → is_some o ≡ true → (x : A) × (o ≡ some x)
some_of none e = cc
some_of (some x) e = (x, refl)

module _ (size : Key → Option ℕ) (a : Arguments) (positive : 0 < a.dp_size)
    (apart : a.head_param_point_to_embedding ≡ false) where
  abbrev sized : Key → Bool
  sized k = is_some (size k)

  -- The parameters are laid out as `Laid` says, and the size is set.
  abbrev Ends : Layout → Type 0
  Ends s = Laid size a s × (n : ℕ) × (s.data_end_index ≡ some n)

  layout_param-some :
      (b : Bool) (k : Key) (s : Layout)
      → sized k ≡ true
      → Laid size a s
      → Yields size a Ends (layout_param size a b k s)
  layout_param-some b k s h l =
      let (n, e) = some_of (size k) h in
      let skip : (a.head_param_point_to_embedding && key_eq k (head_key a.config)) ≡ false =
        rw apart refl in
      layout_param-Laid size a b k n s positive e skip l.0

  layout_params-some :
      (b : Bool) (ks : List Key) (s : Layout)
      → all sized ks ≡ true
      → Ends s
      → Yields size a Ends (layout_params size a b ks s)
  unfolding layout_params
  layout_params-some b [] s h e = (s, refl, e)
  layout_params-some b (k ∷ ks) s h e =
      let (now, later) : (sized k ≡ true) × (all sized ks ≡ true) = ground (arith, h) in
      let (t, run, e') = layout_param-some b k s now e.0 in
      rw run (layout_params-some b ks t later e')

  layout_params-start :
      (b : Bool) (ks : List Key)
      → all sized ks ≡ true
      → is_empty ks ≡ false
      → Yields size a Ends (layout_params size a b ks (empty_layout size a))
  unfolding layout_params
  layout_params-start b [] h full = cc
  layout_params-start b (k ∷ ks) h full =
      let (now, later) : (sized k ≡ true) × (all sized ks ≡ true) = ground (arith, h) in
      let (t, run, e) = layout_param-some b k (empty_layout size a) now (tt, inl refl) in
      rw run (layout_params-some b ks t later e)

  total_size-some :
      (s : Layout) (n : ℕ)
      → s.data_end_index ≡ some n
      → (size_of : ℕ) × (total_size size a s ≡ some size_of)
  total_size-some s n e = elim (Bool-cases (is_empty s.bucket_params)) [
    | inl t ↦ (n, rw (e, t) refl)
    | inr f ↦ (padded n a.dp_size, rw (e, f) (pad_to_multiple-some n a.dp_size positive))
  ]

  build_from-some :
      (b : Bool) (ks : List Key)
      → all sized ks ≡ true
      → is_empty ks ≡ false
      → (m : List (Key × ContiguousParamSpec)) × (n : ℕ) × (build_from size a b ks ≡ some (m, n))
  build_from-some b ks h full =
      let (s, run, (_, n, end)) = layout_params-start b ks h full in
      let (total, e) = total_size-some s n end in
      let shared : share_embedding size a ks s.param_spec ≡ some s.param_spec = rw apart refl in
      (s.param_spec, total, rw (run, e, shared) refl)

sized-proper :
    (c : ReaLModelConfig) (mp_size : ℕ) (ks : List Key)
    → Divisible c mp_size
    → all (proper c) ks ≡ true
    → all (λ k. is_some (numel c mp_size k)) ks ≡ true
sized-proper c mp_size [] d h = refl
sized-proper c mp_size (k ∷ ks) d h =
    let (now, later) : (proper c k ≡ true) × (all (proper c) ks ≡ true) = ground (arith, h) in
    rw (numel-proper c mp_size d k now) (sized-proper c mp_size ks d later)

-- Where the MLP is of a known kind, the head does not point to the embedding, the data and the tensor
-- parallel size are positive, and the latter divides the vocabulary size, the number of positions, also with
-- its offset, and the number of query heads, `build_param_spec` raises nothing, whatever the layers are,
-- and neither does `get_real_model_param_shape`, from which it has the sizes of the parameters.
pub build_param_spec-some :
    (a : Arguments) (mp_size : ℕ) (is : List ℕ)
    → a.config.mlp_type ≢ unknown
    → a.head_param_point_to_embedding ≡ false
    → 0 < a.dp_size
    → Divisible a.config mp_size
    → (m : List (Key × ContiguousParamSpec)) × (n : ℕ) × (build_param_spec
          (numel a.config mp_size)
          a
          is
        ≡ some (m, n))
unfolding build_param_spec
build_param_spec-some a mp_size [] h apart positive d = ([], 0, refl)
build_param_spec-some a mp_size (i ∷ is) h apart positive d =
    let (ks, e, full, proper_keys) = keys_from_layer_indices-some a.config i is h in
    let sizes = sized-proper a.config mp_size ks d proper_keys in
    let (m, n, run) =
      build_from-some (numel a.config mp_size) a positive apart (not (mem 0 (i ∷ is))) (reverse ks)
        (all-reverse (λ k. is_some (numel a.config mp_size k)) ks sizes) (reverse_full ks full) in
    (m, n, rw e run)
