-- ===== src/Flatten/Shapes.antt =====
-- realhf/impl/model/nn/real_llm_parallel.py, `get_real_model_param_shape`, where `use_te_impl` is off.
-- Its tests for parts of a key are written out for each of the names; `n_positions` is given.
pub mod Sizes
use rea_lhf.Base.{
  Bool, List, Option, [], assert, if◌then◌else◌, ltb, none, some, ℕ, ◌%◌, ◌*◌, ◌+◌, ◌/◌, ◌==◌,
  ◌>>=◌, ◌∷◌,
}
use rea_lhf.Flatten.Keys.{
  Key, Param, ReaLModelConfig, attn_c_attn_k_attn_bias, attn_c_attn_k_attn_weight,
  attn_c_attn_ln_bias, attn_c_attn_ln_weight, attn_c_attn_q_attn_bias, attn_c_attn_q_attn_weight,
  attn_c_attn_v_attn_bias, attn_c_attn_v_attn_weight, attn_c_proj_bias, attn_c_proj_weight,
  ln_f_bias, ln_f_weight, local_experts_down_proj_weight, local_experts_gate_proj_weight,
  local_experts_up_proj_weight, mlp_c_fc_bias, mlp_c_fc_weight, mlp_c_proj_bias, mlp_c_proj_weight,
  mlp_down_proj_weight, mlp_gate_proj_weight, mlp_ln_bias, mlp_ln_weight, mlp_router_weight,
  mlp_up_proj_weight, weight, wpe_weight, wte_weight,
}

-- `x // m` and `x % m`; none is a ZeroDivisionError.
abbrev pub quotient : ℕ → ℕ → Option ℕ
quotient x m = if m == 0 then none else some (x / m)

abbrev pub divides : ℕ → ℕ → Option Bool
divides m x = if m == 0 then none else some (x % m == 0)

-- `assert x % m == 0`
abbrev pub assert_divides : ℕ → ℕ → Option (Unit {0})
assert_divides m x = divides m x >>= assert

abbrev pub matrix : ℕ → ℕ → Option (List ℕ)
matrix rows cols = some (rows ∷ cols ∷ [])

abbrev pub vector : ℕ → Option (List ℕ)
vector n = some (n ∷ [])

abbrev pub product : List ℕ → ℕ
product [] = 1
product (n ∷ ns) = n * product ns

module _ (c : ReaLModelConfig) (mp_size : ℕ) where
  abbrev pub embedding_shape : Option (List ℕ)
  embedding_shape = assert_divides mp_size c.vocab_size >>= λ _.
      quotient c.vocab_size mp_size >>= λ n. matrix n c.hidden_dim

  -- The last test raises a ValueError.
  abbrev pub position_shape : Option (List ℕ)
  position_shape = assert_divides mp_size c.n_positions >>= λ _.
      assert_divides mp_size (c.n_positions + c.abs_position_embedding_offset) >>= λ _.
      quotient (c.n_positions + c.abs_position_embedding_offset) mp_size >>= λ n.
      matrix n c.hidden_dim

  abbrev pub head_shape : Option (List ℕ)
  head_shape =
      if c.is_critic
      then matrix 1 c.hidden_dim
      else if ltb 1 mp_size
      then embedding_shape
      else matrix c.vocab_size c.hidden_dim

  abbrev pub kv_rows : Option ℕ
  kv_rows = divides mp_size c.n_kv_heads >>= λ even.
      if even
      then quotient (c.head_dim * c.n_kv_heads) mp_size
      else some (c.head_dim * c.n_kv_heads)

  abbrev pub query_rows : Option ℕ
  query_rows = quotient (c.n_q_heads * c.head_dim) mp_size

  abbrev pub mlp_rows : Option ℕ
  mlp_rows = quotient c.intermediate_dim mp_size

  abbrev pub rows_of : Option ℕ → Option (List ℕ)
  rows_of o = o >>= λ n. matrix n c.hidden_dim

  abbrev pub columns_of : Option ℕ → Option (List ℕ)
  columns_of o = o >>= λ n. matrix c.hidden_dim n

  abbrev pub bias_of : Option ℕ → Option (List ℕ)
  bias_of o = o >>= λ n. vector n

  abbrev pub shape_of : ℕ → Param → Option (List ℕ)
  shape_of i wte_weight = embedding_shape
  shape_of i wpe_weight = position_shape
  shape_of i attn_c_attn_ln_weight = vector c.hidden_dim
  shape_of i attn_c_attn_ln_bias = vector c.hidden_dim
  shape_of i attn_c_attn_q_attn_weight =
      assert_divides mp_size c.n_q_heads >>= λ _. rows_of query_rows
  shape_of i attn_c_attn_q_attn_bias = bias_of query_rows
  shape_of i attn_c_attn_k_attn_weight = rows_of kv_rows
  shape_of i attn_c_attn_k_attn_bias = bias_of kv_rows
  shape_of i attn_c_attn_v_attn_weight = rows_of kv_rows
  shape_of i attn_c_attn_v_attn_bias = bias_of kv_rows
  shape_of i attn_c_proj_weight = columns_of query_rows
  shape_of i attn_c_proj_bias = vector c.hidden_dim
  shape_of i mlp_ln_weight = vector c.hidden_dim
  shape_of i mlp_ln_bias = vector c.hidden_dim
  shape_of i mlp_c_fc_weight = rows_of mlp_rows
  shape_of i mlp_c_fc_bias = bias_of mlp_rows
  shape_of i mlp_c_proj_weight = columns_of mlp_rows
  shape_of i mlp_c_proj_bias = vector c.hidden_dim
  shape_of i mlp_gate_proj_weight = rows_of mlp_rows
  shape_of i mlp_up_proj_weight = rows_of mlp_rows
  shape_of i mlp_down_proj_weight = columns_of mlp_rows
  shape_of i mlp_router_weight = matrix c.num_experts c.hidden_dim
  shape_of i (local_experts_gate_proj_weight j) = rows_of mlp_rows
  shape_of i (local_experts_up_proj_weight j) = rows_of mlp_rows
  shape_of i (local_experts_down_proj_weight j) = columns_of mlp_rows
  shape_of i ln_f_weight = vector c.hidden_dim
  shape_of i ln_f_bias = vector c.hidden_dim
  shape_of i weight = if i == c.n_layers + 1 then head_shape else none

  unfoldable pub get_real_model_param_shape : Key → Option (List ℕ)
  get_real_model_param_shape k = shape_of k.layer k.param

  -- `int(np.prod(shape))`
  unfoldable pub numel : Key → Option ℕ
  unfolding get_real_model_param_shape
  numel k = get_real_model_param_shape k >>= λ shape. some (product shape)
