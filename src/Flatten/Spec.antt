-- ===== src/Flatten/Spec.antt =====
-- realhf/impl/model/nn/flatten_param.py, `build_param_spec`. How many elements a parameter has, the
-- product of `get_real_model_param_shape`, is a parameter; none is an error that is raised there. `ceil(x / m)` is taken of the exact quotient.
use mathlib.Core.List.{reverse}
use rea_lhf.Base.{
  Bool, List, Option, [], any, false, if◌then◌else◌, leb, mem, none, not, some, true, ℕ, ◌&&◌, ◌*◌,
  ◌+◌, ◌-◌, ◌/◌, ◌==◌, ◌>>=◌, ◌||◌, ◌∷◌,
}
use rea_lhf.Flatten.Keys.{Key, ReaLModelConfig, key_eq, keys_from_layer_indices, weight, wte_weight}

-- `ContiguousParamSpec`; the shape goes along.
pub record ContiguousParamSpec : Type 0 where
  pub start_idx : ℕ
  pub end_idx : ℕ

-- The variables of `build_param_spec`. `param_spec` has the newest assignment first; `data_end_index`
-- is none until it is set.
pub record Layout : Type 0 where
  pub param_spec : List (Key × ContiguousParamSpec)
  pub data_start_index : ℕ
  pub data_end_index : Option ℕ
  pub bucket_data_start_index : ℕ
  pub bucket_params : List Key

-- `_pad_to_multiple`; none is a ZeroDivisionError.
unfoldable pub pad_to_multiple : ℕ → ℕ → Option ℕ
pad_to_multiple x m = if m == 0 then none else some ((x + m - 1) / m * m)

-- The arguments of `build_param_spec` that it only reads.
pub record Arguments : Type 0 where
  pub config : ReaLModelConfig
  pub dp_size : ℕ
  pub pp_size : ℕ
  pub head_param_point_to_embedding : Bool
  pub bucket_size : ℕ

abbrev pub head_key : ReaLModelConfig → Key
head_key c = record { layer = c.n_layers + 1; param = weight }

abbrev pub wte_key : Key
wte_key = record { layer = 0; param = wte_weight }

-- `_requires_new_allreduce_bucket`
unfoldable pub requires_new_allreduce_bucket : Arguments → Key → Bool
requires_new_allreduce_bucket a k =
    not (a.pp_size == 1)
    && not a.config.is_critic
    && a.config.tied_embedding
    && (key_eq k (head_key a.config) || key_eq k wte_key)

abbrev pub is_empty {ℓ} : {A : Type ℓ} → List A → Bool
is_empty [] = true
is_empty (x ∷ xs) = false

-- `_create_fake_bucket`, with what it returns.
abbrev pub create_fake_bucket : ℕ → ℕ → Layout → Option (ℕ × Layout)
create_fake_bucket dp_size data_end_index s = pad_to_multiple data_end_index dp_size >>= λ n.
    some (n, record s { bucket_data_start_index = n; bucket_params = [] })

-- The new bucket before a parameter, whose start is not used for the parameter.
abbrev pub before_param : Arguments → Key → Layout → Option Layout
before_param a k s =
    if requires_new_allreduce_bucket a k && not (is_empty s.bucket_params)
    then (create_fake_bucket a.dp_size s.data_start_index s >>= λ (n, t). some t)
    else some s

-- `param_spec[k] = …` and `bucket_params.add(k)`, where `end` is `data_end_index`.
abbrev pub add_param : Key → ℕ → Layout → Layout
add_param k end s = record s {
  param_spec = (k, record { start_idx = s.data_start_index; end_idx = end }) ∷ s.param_spec;
  bucket_params = k ∷ s.bucket_params;
}

-- The end of a round.
abbrev pub set_end : ℕ → Layout → Layout
set_end end s = record s { data_end_index = some end; data_start_index = end }

abbrev pub bucket_full : Arguments → Bool → Key → ℕ → Layout → Bool
bucket_full a disable_bucketing k end s =
    not disable_bucketing && leb (a.bucket_size + s.bucket_data_start_index) end
    || requires_new_allreduce_bucket a k

abbrev pub after_param : Arguments → Bool → Key → ℕ → Layout → Option Layout
after_param a disable_bucketing k end s =
    if bucket_full a disable_bucketing k end s
    then (create_fake_bucket a.dp_size end s >>= λ (n, t). some (set_end n t))
    else some (set_end end s)

-- `param_spec[k]`; none is a KeyError.
abbrev pub spec_of : Key → List (Key × ContiguousParamSpec) → Option ContiguousParamSpec
spec_of k [] = none
spec_of k ((j, x) ∷ m) = if key_eq j k then some x else spec_of k m

module _ (numel : Key → Option ℕ) (a : Arguments) where
  -- One round of the loop.
  unfoldable pub layout_param : Bool → Key → Layout → Option Layout
  unfolding requires_new_allreduce_bucket pad_to_multiple
  layout_param disable_bucketing k s =
      if a.head_param_point_to_embedding && key_eq k (head_key a.config)
      then some s
      else (numel k >>= λ n.
          let end = s.data_start_index + n in
          before_param a k s >>= λ t. after_param a disable_bucketing k end (add_param k end t))

  unfoldable pub layout_params : Bool → List Key → Layout → Option Layout
  unfolding layout_param
  layout_params disable_bucketing [] s = some s
  layout_params disable_bucketing (k ∷ ks) s =
      layout_param disable_bucketing k s >>= layout_params disable_bucketing ks

  abbrev pub empty_layout : Layout
  empty_layout = record {
    param_spec = [];
    data_start_index = 0;
    data_end_index = none;
    bucket_data_start_index = 0;
    bucket_params = [];
  }

  -- The bucket after the loop; a size that was never set is an UnboundLocalError.
  abbrev pub total_size : Layout → Option ℕ
  total_size s = s.data_end_index >>= λ end.
      if is_empty s.bucket_params then some end else pad_to_multiple end a.dp_size

  abbrev pub share_embedding :
      List Key → List (Key × ContiguousParamSpec) → Option (List (Key × ContiguousParamSpec))
  share_embedding ks m =
      if a.head_param_point_to_embedding && any (key_eq (head_key a.config)) ks
      then (spec_of wte_key m >>= λ x. some ((head_key a.config, x) ∷ m))
      else some m

  abbrev pub build_from : Bool → List Key → Option (List (Key × ContiguousParamSpec) × ℕ)
  build_from disable_bucketing ks = layout_params disable_bucketing ks empty_layout >>= λ s.
      total_size s >>= λ n. share_embedding ks s.param_spec >>= λ m. some (m, n)

  -- `build_param_spec`
  unfoldable pub build_param_spec : List ℕ → Option (List (Key × ContiguousParamSpec) × ℕ)
  unfolding layout_params keys_from_layer_indices pad_to_multiple
  build_param_spec [] = some ([], 0)
  build_param_spec (i ∷ is) = keys_from_layer_indices a.config (i ∷ is) >>= λ ks.
      build_from (not (mem 0 (i ∷ is))) (reverse ks)
