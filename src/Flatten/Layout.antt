-- ===== src/Flatten/Layout.antt =====
-- Where `build_param_spec` puts the parameters.
use mathlib.Core.Option.{some-injective}
use mathlib.Core.Path.{subst}
use native.Mathlib.Nat.{lt-div-mul-add, mul-mod_left}
use rea_lhf.Base.{
  >>=-eq-some, Bool, Bool-cases, List, Option, [], ap, arith, false, inl, inr, none, not, refl,
  some, sym, ℕ, ◌%◌, ◌&&◌, ◌*◌, ◌+◌, ◌-◌, ◌/◌, ◌<◌, ◌==◌, ◌∙◌, ◌∷◌, ◌≡◌, ◌≤◌, ◌⊎◌,
}
use rea_lhf.Flatten.Keys.{Key, key_eq}
use rea_lhf.Flatten.Spec.{
  Arguments, ContiguousParamSpec, Layout, add_param, after_param, before_param, bucket_full,
  head_key, is_empty, layout_param, layout_params, pad_to_multiple, requires_new_allreduce_bucket,
}

-- What `pad_to_multiple` returns for a positive multiple.
abbrev pub padded : ℕ → ℕ → ℕ
padded x m = (x + m - 1) / m * m

pub pad_to_multiple-some : (x m : ℕ) → 0 < m → pad_to_multiple x m ≡ some (padded x m)
unfolding pad_to_multiple
pad_to_multiple-some x m h = let e : (m == 0) ≡ false = ground (arith, h) in rw e refl

pub padded-le : (x m : ℕ) → 0 < m → x ≤ padded x m
padded-le x m h =
    let below : x + m - 1 < (x + m - 1) / m * m + m = lt-div-mul-add h in omega (arith, h, below)

pub padded-mod : (x m : ℕ) → padded x m % m ≡ 0
padded-mod x m = mul-mod_left ((x + m - 1) / m) m

module _ (numel : Key → Option ℕ) (a : Arguments) where
  -- An interval of the size that the parameter has.
  abbrev pub Sized : Key → ContiguousParamSpec → Type 0
  Sized k x = (n : ℕ) × (numel k ≡ some n) × (x.start_idx + n ≡ x.end_idx)

  -- Parameters that lie one below the other, with the sizes of their keys, from `bound` down.
  abbrev pub Down : ℕ → List (Key × ContiguousParamSpec) → Type 0
  Down bound [] = Unit
  Down bound ((k, x) ∷ m) = Sized k x × (x.end_idx ≤ bound) × Down x.start_idx m

  pub Down-le : (b c : ℕ) (m : List (Key × ContiguousParamSpec)) → b ≤ c → Down b m → Down c m
  Down-le b c [] h d = tt
  Down-le b c ((k, x) ∷ m) h (e, f, d) = (e, omega (arith, f, h), d)

  abbrev pub Padded : Layout → Type 0
  Padded s =
      (s.data_end_index ≡ none)
      ⊎ ((s.data_end_index ≡ some s.data_start_index)
          × ((is_empty s.bucket_params ≡ false) ⊎ (s.data_start_index % a.dp_size ≡ 0)))

  abbrev pub Laid : Layout → Type 0
  Laid s = Down s.data_start_index s.param_spec × Padded s

  -- A step that succeeds, with what holds of its result.
  abbrev pub Yields : (Layout → Type 0) → Option Layout → Type 0
  Yields P o = (t : Layout) × (o ≡ some t) × P t

  Laid-after :
      (b : Bool) (k : Key) (end : ℕ) (s : Layout)
      → 0 < a.dp_size
      → Down end s.param_spec
      → is_empty s.bucket_params ≡ false
      → Yields (λ t. Laid t × (n : ℕ) × (t.data_end_index ≡ some n)) (after_param a b k end s)
  Laid-after b k end s h d e = elim (Bool-cases (bucket_full a b k end s)) [
    | inl t ↦
        rw (t, pad_to_multiple-some end a.dp_size h)
          (
            _,
            refl,
            (
              (
                Down-le end _ s.param_spec (padded-le end a.dp_size h) d,
                inr (refl, inr (padded-mod end a.dp_size)),
              ),
              _,
              refl,
            ),
          )
    | inr f ↦ rw f (_, refl, ((d, inr (refl, inl e)), _, refl))
  ]

  before-same :
      (k : Key) (s : Layout)
      → 0 < a.dp_size
      → Yields
          (λ t. (t.param_spec ≡ s.param_spec) × (t.data_start_index ≡ s.data_start_index))
          (before_param a k s)
  before-same k s h =
      elim (Bool-cases (requires_new_allreduce_bucket a k && not (is_empty s.bucket_params))) [
        | inl t ↦
            rw (t, pad_to_multiple-some s.data_start_index a.dp_size h) (_, refl, (refl, refl))
        | inr f ↦ rw f (_, refl, (refl, refl))
      ]

  -- The round of a parameter that is laid out.
  pub layout_param-Laid :
      (b : Bool) (k : Key) (n : ℕ) (s : Layout)
      → 0 < a.dp_size
      → numel k ≡ some n
      → (a.head_param_point_to_embedding && key_eq k (head_key a.config)) ≡ false
      → Down s.data_start_index s.param_spec
      → Yields (λ t. Laid t × (e : ℕ) × (t.data_end_index ≡ some e)) (layout_param numel a b k s)
  unfolding layout_param
  layout_param-Laid b k n s h e f d =
      let (t, run, (p, q)) = before-same k s h in
      let under : Down t.data_start_index t.param_spec = rw (p, q) d in
      let end = s.data_start_index + n in
      rw (f, e, run)
        (Laid-after b k end (add_param k end t) h ((n, e, ap (λ i. i + n) q), omega arith, under)
          refl)

  Laid-layout_param :
      (b : Bool) (k : Key) (s t : Layout)
      → 0 < a.dp_size
      → layout_param numel a b k s ≡ some t
      → Laid s
      → Laid t
  unfolding layout_param
  Laid-layout_param b k s t h run (d, e) =
      elim (Bool-cases (a.head_param_point_to_embedding && key_eq k (head_key a.config))) [
        | inl x ↦
            let same : some s ≡ some t = rw x at run in rw (← (some-injective _ _ same)) (d, e)
        | inr x ↦
            let (n, size, _) = >>=-eq-some (numel k) _ (rw x at run) in
            let (u, run', (l, _, _)) = layout_param-Laid b k n s h size x d in
            subst Laid (some-injective _ _ (sym run' ∙ run)) l
      ]

  pub Laid-layout_params :
      (b : Bool) (ks : List Key) (s t : Layout)
      → 0 < a.dp_size
      → layout_params numel a b ks s ≡ some t
      → Laid s
      → Laid t
  unfolding layout_params
  Laid-layout_params b [] s t h run l = rw (← (some-injective _ _ run)) l
  Laid-layout_params b (k ∷ ks) s t h run l =
      let (u, now, later) = >>=-eq-some (layout_param numel a b k s) _ run in
      Laid-layout_params b ks u t h later (Laid-layout_param b k s u h now l)
