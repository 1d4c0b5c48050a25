-- ===== src/Flatten/Examples.antt =====
-- The embeddings and the head of a model, laid out; the head points to the embedding.
use rea_lhf.Base.{
  List, [], arith, false, inl, inr, refl, some, true, ℕ, ◌%◌, ◌+◌, ◌∷◌, ◌≡◌, ◌≢◌, ◌≤◌, ◌⊎◌,
}
use rea_lhf.Flatten.Intervals.{set_intervals, slice_intervals}
use rea_lhf.Flatten.Keys.{Key, ReaLModelConfig, llama, unknown, wpe_weight}
use rea_lhf.Flatten.Params.{Separate, build_param_spec_lem}
use rea_lhf.Flatten.SetSlice.{slice_intervals-set_intervals}
use rea_lhf.Flatten.Shapes.{numel}
use rea_lhf.Flatten.Shapes.Sizes.{Divisible}
use rea_lhf.Flatten.Spec.{Arguments, ContiguousParamSpec, build_param_spec, head_key, wte_key}
use rea_lhf.Flatten.Stored.{set_intervals-build_param_spec}
use rea_lhf.Flatten.Total.{build_param_spec-some}
use rea_lhf.Samples.{slice}

abbrev config : ReaLModelConfig
config = record {
  n_layers = 1;
  apply_rotary = false;
  layer_norm_type_is_none = false;
  use_attention_bias = false;
  use_attn_proj_bias = false;
  mlp_type = llama;
  num_experts = 0;
  tied_embedding = true;
  is_critic = false;
  vocab_size = 1;
  n_positions = 1;
  abs_position_embedding_offset = 0;
  hidden_dim = 3;
  intermediate_dim = 4;
  n_kv_heads = 1;
  n_q_heads = 1;
  head_dim = 2;
}

abbrev arguments : Arguments
arguments = record {
  config = config;
  dp_size = 4;
  pp_size = 1;
  head_param_point_to_embedding = true;
  bucket_size = 8;
}

abbrev spec : ℕ → ℕ → ContiguousParamSpec
spec start end = record { start_idx = start; end_idx = end }

abbrev wpe_key : Key
wpe_key = record { layer = 0; param = wpe_weight }

abbrev layout : List (Key × ContiguousParamSpec)
layout = (head_key config, spec 3 6) ∷ (wte_key, spec 3 6) ∷ (wpe_key, spec 0 3) ∷ []

layout_run : build_param_spec (numel config 1) arguments (0 ∷ 2 ∷ []) ≡ some (layout, 8)
unfolding build_param_spec numel
layout_run = refl

build_param_spec_lem_example :
    (8 % 4 ≡ 0)
    × (6 ≤ 8)
    × (((n : ℕ) × (numel config 1 wte_key ≡ some n) × (3 + n ≡ 6))
        ⊎ ((true ≡ true) × (wte_key ≡ head_key config)))
    × Separate (spec 3 6) (spec 0 3)
build_param_spec_lem_example =
    build_param_spec_lem (numel config 1) arguments (0 ∷ 2 ∷ []) layout 8 1 2 (wte_key, spec 3 6)
      (wpe_key, spec 0 3) (omega arith) layout_run refl refl

abbrev flat : List ℕ
flat = 0 ∷ 1 ∷ 2 ∷ 3 ∷ 4 ∷ 5 ∷ 6 ∷ 7 ∷ []

set_intervals-build_param_spec_example :
    (d : List ℕ) × (set_intervals (20 ∷ 21 ∷ 22 ∷ []) flat ((3, 6) ∷ []) ≡ some d)
    × (slice_intervals d ((3, 6) ∷ []) ≡ some (20 ∷ 21 ∷ 22 ∷ []))
    × ((((spec 3 6).start_idx ≡ (spec 0 3).start_idx) × ((spec 3 6).end_idx ≡ (spec 0 3).end_idx))
        ⊎ (slice 0 3 d ≡ slice 0 3 flat))
set_intervals-build_param_spec_example =
    set_intervals-build_param_spec (numel config 1) arguments (0 ∷ 2 ∷ []) layout 8 1 2
      (wte_key, spec 3 6) (wpe_key, spec 0 3) (20 ∷ 21 ∷ 22 ∷ []) flat (omega arith) layout_run refl
      refl refl refl

slice_intervals-set_intervals_example :
    (d : List ℕ) × (set_intervals (20 ∷ 21 ∷ 22 ∷ []) flat ((6, 8) ∷ (1, 2) ∷ []) ≡ some d)
    × (slice_intervals d ((6, 8) ∷ (1, 2) ∷ []) ≡ some (20 ∷ 21 ∷ 22 ∷ []))
    × (slice 2 6 d ≡ slice 2 6 flat)
slice_intervals-set_intervals_example =
    slice_intervals-set_intervals (20 ∷ 21 ∷ 22 ∷ []) flat (6, 8) ((1, 2) ∷ []) 2 6
      (omega arith, omega arith, (inr (omega arith), tt), (omega arith, omega arith, tt, tt)) refl
      (inl (omega arith), (inr (omega arith), tt))

llama≢unknown : llama ≢ unknown
llama≢unknown e = cc

abbrev arguments_without_head : Arguments
arguments_without_head = record arguments { head_param_point_to_embedding = false }

divisible : Divisible config 1
divisible = record {
  positive = omega arith;
  vocabulary = refl;
  positions = refl;
  all_positions = refl;
  heads = refl;
}

build_param_spec-some_example :
    (m : List (Key × ContiguousParamSpec)) × (n : ℕ) × (build_param_spec
        (numel config 1)
        arguments_without_head
        (0 ∷ 1 ∷ 2 ∷ [])
      ≡ some (m, n))
build_param_spec-some_example =
    build_param_spec-some arguments_without_head 1 (0 ∷ 1 ∷ 2 ∷ []) llama≢unknown refl (omega arith)
      divisible
