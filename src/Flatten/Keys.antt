-- ===== src/Flatten/Keys.antt =====
-- realhf/impl/model/nn/real_llm_base.py, `ReaLModelParamKeys`: the names of the parameters of a model,
-- in the order of its layers. A key like "3.mlp.c_fc.bias" is its layer and the name within the layer.
pub mod Layers
use rea_lhf.Base.{
  Bool, List, Option, [], if◌then◌else◌, none, not, some, suc, zero, ℕ, ◌&&◌, ◌++◌, ◌+◌, ◌==◌,
  ◌>>=◌, ◌∷◌,
}
use rea_lhf.System.Dispatch.{sorted}

-- The names within a layer, with dots as underscores; those of experts have the expert's number.
pub data Param : Type 0 where
  wte_weight : Param
  wpe_weight : Param
  attn_c_attn_ln_weight : Param
  attn_c_attn_ln_bias : Param
  attn_c_attn_q_attn_weight : Param
  attn_c_attn_q_attn_bias : Param
  attn_c_attn_k_attn_weight : Param
  attn_c_attn_k_attn_bias : Param
  attn_c_attn_v_attn_weight : Param
  attn_c_attn_v_attn_bias : Param
  attn_c_proj_weight : Param
  attn_c_proj_bias : Param
  mlp_ln_weight : Param
  mlp_ln_bias : Param
  mlp_c_fc_weight : Param
  mlp_c_fc_bias : Param
  mlp_c_proj_weight : Param
  mlp_c_proj_bias : Param
  mlp_gate_proj_weight : Param
  mlp_up_proj_weight : Param
  mlp_down_proj_weight : Param
  mlp_router_weight : Param
  local_experts_gate_proj_weight : ℕ → Param
  local_experts_up_proj_weight : ℕ → Param
  local_experts_down_proj_weight : ℕ → Param
  ln_f_weight : Param
  ln_f_bias : Param
  weight : Param

pub record Key : Type 0 where
  pub layer : ℕ
  pub param : Param

-- A number for each name, by which keys are compared.
abbrev pub code : Param → ℕ × ℕ
code wte_weight = (0, 0)
code wpe_weight = (1, 0)
code attn_c_attn_ln_weight = (2, 0)
code attn_c_attn_ln_bias = (3, 0)
code attn_c_attn_q_attn_weight = (4, 0)
code attn_c_attn_q_attn_bias = (5, 0)
code attn_c_attn_k_attn_weight = (6, 0)
code attn_c_attn_k_attn_bias = (7, 0)
code attn_c_attn_v_attn_weight = (8, 0)
code attn_c_attn_v_attn_bias = (9, 0)
code attn_c_proj_weight = (10, 0)
code attn_c_proj_bias = (11, 0)
code mlp_ln_weight = (12, 0)
code mlp_ln_bias = (13, 0)
code mlp_c_fc_weight = (14, 0)
code mlp_c_fc_bias = (15, 0)
code mlp_c_proj_weight = (16, 0)
code mlp_c_proj_bias = (17, 0)
code mlp_gate_proj_weight = (18, 0)
code mlp_up_proj_weight = (19, 0)
code mlp_down_proj_weight = (20, 0)
code mlp_router_weight = (21, 0)
code (local_experts_gate_proj_weight j) = (22, j)
code (local_experts_up_proj_weight j) = (23, j)
code (local_experts_down_proj_weight j) = (24, j)
code ln_f_weight = (25, 0)
code ln_f_bias = (26, 0)
code weight = (27, 0)

abbrev pub pair_eq : ℕ × ℕ → ℕ × ℕ → Bool
pair_eq a b = a.0 == b.0 && a.1 == b.1

abbrev pub key_eq : Key → Key → Bool
key_eq k j = k.layer == j.layer && pair_eq (code k.param) (code j.param)

-- `mlp_type`; any other one raises NotImplementedError.
pub data MlpType : Type 0 where
  no_type : MlpType
  llama : MlpType
  moe : MlpType
  unknown : MlpType

-- What is read of a `ReaLModelConfig`; `layer_norm_type` by whether it is None.
pub record ReaLModelConfig : Type 0 where
  pub n_layers : ℕ
  pub apply_rotary : Bool
  pub layer_norm_type_is_none : Bool
  pub use_attention_bias : Bool
  pub use_attn_proj_bias : Bool
  pub mlp_type : MlpType
  pub num_experts : ℕ
  pub tied_embedding : Bool
  pub is_critic : Bool
  pub vocab_size : ℕ
  pub n_positions : ℕ
  pub abs_position_embedding_offset : ℕ
  pub hidden_dim : ℕ
  pub intermediate_dim : ℕ
  pub n_kv_heads : ℕ
  pub n_q_heads : ℕ
  pub head_dim : ℕ

abbrev pub key : ℕ → Param → List Key
key layer param = record { layer = layer; param = param } ∷ []

abbrev pub key_if : Bool → ℕ → Param → List Key
key_if test layer param = if test then key layer param else []

unfoldable pub embed : ReaLModelConfig → List Key
embed c = key 0 wte_weight ++ key_if (not c.apply_rotary) 0 wpe_weight

abbrev pub experts : ℕ → ℕ → ℕ → List Key
experts i zero j = []
experts i (suc n) j =
    key i (local_experts_gate_proj_weight j)
    ++ (key i (local_experts_up_proj_weight j)
        ++ (key i (local_experts_down_proj_weight j) ++ experts i n (suc j)))

abbrev pub mlp : MlpType → ℕ → ℕ → Option (List Key)
mlp no_type experts_count i = some (
    key i mlp_c_fc_weight
    ++ (key i mlp_c_fc_bias ++ (key i mlp_c_proj_weight ++ key i mlp_c_proj_bias)))
mlp llama experts_count i =
    some (key i mlp_gate_proj_weight ++ (key i mlp_up_proj_weight ++ key i mlp_down_proj_weight))
mlp moe experts_count i = some (key i mlp_router_weight ++ experts i experts_count 0)
mlp unknown experts_count i = none

abbrev pub attention : ReaLModelConfig → ℕ → List Key
attention c i =
    key i attn_c_attn_ln_weight
    ++ (key_if c.layer_norm_type_is_none i attn_c_attn_ln_bias
        ++ (key i attn_c_attn_q_attn_weight
            ++ (key_if c.use_attention_bias i attn_c_attn_q_attn_bias
                ++ (key i attn_c_attn_k_attn_weight
                    ++ (key_if c.use_attention_bias i attn_c_attn_k_attn_bias
                        ++ (key i attn_c_attn_v_attn_weight
                            ++ (key_if c.use_attention_bias i attn_c_attn_v_attn_bias
                                ++ (key i attn_c_proj_weight
                                    ++ (key_if c.use_attn_proj_bias i attn_c_proj_bias
                                        ++ (key i mlp_ln_weight
                                            ++ key_if c.layer_norm_type_is_none i
                                                mlp_ln_bias))))))))))

abbrev pub last_norm : ReaLModelConfig → ℕ → List Key
last_norm c i =
    if i == c.n_layers
    then key i ln_f_weight ++ key_if c.layer_norm_type_is_none i ln_f_bias
    else []

-- `tblock(config, i - 1)`, for a layer `i` from 1.
unfoldable pub tblock : ReaLModelConfig → ℕ → Option (List Key)
tblock c i = mlp c.mlp_type c.num_experts i >>= λ ks. some (attention c i ++ (ks ++ last_norm c i))

unfoldable pub head : ReaLModelConfig → List Key
head c = key (c.n_layers + 1) weight

unfoldable pub layer_keys : ReaLModelConfig → ℕ → Option (List Key)
unfolding embed tblock head
layer_keys c i =
    if i == 0 then some (embed c) else if i == c.n_layers + 1 then some (head c) else tblock c i

unfoldable pub keys_of_layers : ReaLModelConfig → List ℕ → Option (List Key)
unfolding layer_keys
keys_of_layers c [] = some []
keys_of_layers c (i ∷ is) =
    layer_keys c i >>= λ ks. keys_of_layers c is >>= λ rest. some (ks ++ rest)

-- `keys_from_layer_indices`
unfoldable pub keys_from_layer_indices : ReaLModelConfig → List ℕ → Option (List Key)
unfolding keys_of_layers
keys_from_layer_indices c is = keys_of_layers c (sorted is)
