-- ===== src/Flatten/Shapes/Sizes.antt =====
-- Every parameter of a model has a size where its dimensions can be divided.
use rea_lhf.Base.{
  Bool, Bool-cases, List, Option, arith, false, inl, inr, ltb, none, refl, some, true, ℕ, ◌%◌, ◌*◌,
  ◌+◌, ◌/◌, ◌<◌, ◌==◌, ◌>>=◌, ◌≡◌,
}
use rea_lhf.Flatten.Keys.{
  Key, Param, ReaLModelConfig, attn_c_attn_k_attn_bias, attn_c_attn_k_attn_weight,
  attn_c_attn_ln_bias, attn_c_attn_ln_weight, attn_c_attn_q_attn_bias, attn_c_attn_q_attn_weight,
  attn_c_attn_v_attn_bias, attn_c_attn_v_attn_weight, attn_c_proj_bias, attn_c_proj_weight,
  ln_f_bias, ln_f_weight, local_experts_down_proj_weight, local_experts_gate_proj_weight,
  local_experts_up_proj_weight, mlp_c_fc_bias, mlp_c_fc_weight, mlp_c_proj_bias, mlp_c_proj_weight,
  mlp_down_proj_weight, mlp_gate_proj_weight, mlp_ln_bias, mlp_ln_weight, mlp_router_weight,
  mlp_up_proj_weight, weight, wpe_weight, wte_weight,
}
use rea_lhf.Flatten.Shapes.{
  assert_divides, divides, embedding_shape, get_real_model_param_shape, head_shape, kv_rows,
  mlp_rows, numel, position_shape, product, query_rows, quotient, shape_of,
}
use rea_lhf.System.Dict.{is_some}

-- The dimensions that `get_real_model_param_shape` wants to divide.
pub record Divisible (c : ReaLModelConfig) (mp_size : ℕ) : Type 0 where
  pub positive : 0 < mp_size
  pub vocabulary : c.vocab_size % mp_size ≡ 0
  pub positions : c.n_positions % mp_size ≡ 0
  pub all_positions : (c.n_positions + c.abs_position_embedding_offset) % mp_size ≡ 0
  pub heads : c.n_q_heads % mp_size ≡ 0

-- The head is found in the last layer only.
abbrev pub proper_param : ReaLModelConfig → ℕ → Param → Bool
proper_param c i weight = i == c.n_layers + 1
proper_param c i p = true

abbrev pub proper : ReaLModelConfig → Key → Bool
proper c k = proper_param c k.layer k.param

quotient-some : (x m : ℕ) → 0 < m → quotient x m ≡ some (x / m)
quotient-some x m h = let e : (m == 0) ≡ false = ground (arith, h) in rw e refl

divides-some : (m x : ℕ) → 0 < m → divides m x ≡ some (x % m == 0)
divides-some m x h = let e : (m == 0) ≡ false = ground (arith, h) in rw e refl

assert_divides-some : (m x : ℕ) → 0 < m → x % m ≡ 0 → assert_divides m x ≡ some tt
assert_divides-some m x h e = rw (divides-some m x h, e) refl

module _ (c : ReaLModelConfig) (mp_size : ℕ) (d : Divisible c mp_size) where
  embedding_lem : is_some (embedding_shape c mp_size) ≡ true
  embedding_lem =
      rw
        (
          assert_divides-some mp_size c.vocab_size d.positive d.vocabulary,
          quotient-some c.vocab_size mp_size d.positive,
        )
        refl

  position_lem : is_some (position_shape c mp_size) ≡ true
  position_lem =
      rw
        (
          assert_divides-some mp_size c.n_positions d.positive d.positions,
          assert_divides-some mp_size (c.n_positions + c.abs_position_embedding_offset) d.positive
              d.all_positions,
          quotient-some (c.n_positions + c.abs_position_embedding_offset) mp_size d.positive,
        )
        refl

  head_lem : is_some (head_shape c mp_size) ≡ true
  head_lem = elim (Bool-cases c.is_critic) [
    | inl t ↦ rw t refl
    | inr f ↦ elim (Bool-cases (ltb 1 mp_size)) [
      | inl t ↦ rw (f, t) embedding_lem
      | inr g ↦ rw (f, g) refl
    ]
  ]

  kv_lem : (n : ℕ) × (kv_rows c mp_size ≡ some n)
  kv_lem = elim (Bool-cases (c.n_kv_heads % mp_size == 0)) [
    | inl t ↦ (
      c.head_dim * c.n_kv_heads / mp_size,
      rw
          (
            divides-some mp_size c.n_kv_heads d.positive,
            t,
            quotient-some (c.head_dim * c.n_kv_heads) mp_size d.positive,
          )
          refl,
    )
    | inr f ↦ (c.head_dim * c.n_kv_heads, rw (divides-some mp_size c.n_kv_heads d.positive, f) refl)
  ]

  abbrev heads : query_rows c mp_size ≡ some (c.n_q_heads * c.head_dim / mp_size)
  heads = quotient-some (c.n_q_heads * c.head_dim) mp_size d.positive

  abbrev inner : mlp_rows c mp_size ≡ some (c.intermediate_dim / mp_size)
  inner = quotient-some c.intermediate_dim mp_size d.positive

  shape_lem :
      (i : ℕ) (p : Param) → proper_param c i p ≡ true → is_some (shape_of c mp_size i p) ≡ true
  shape_lem i wte_weight h = embedding_lem
  shape_lem i wpe_weight h = position_lem
  shape_lem i attn_c_attn_ln_weight h = refl
  shape_lem i attn_c_attn_ln_bias h = refl
  shape_lem i attn_c_attn_q_attn_weight h =
      rw (assert_divides-some mp_size c.n_q_heads d.positive d.heads, heads) refl
  shape_lem i attn_c_attn_q_attn_bias h = rw heads refl
  shape_lem i attn_c_attn_k_attn_weight h = rw kv_lem.1 refl
  shape_lem i attn_c_attn_k_attn_bias h = rw kv_lem.1 refl
  shape_lem i attn_c_attn_v_attn_weight h = rw kv_lem.1 refl
  shape_lem i attn_c_attn_v_attn_bias h = rw kv_lem.1 refl
  shape_lem i attn_c_proj_weight h = rw heads refl
  shape_lem i attn_c_proj_bias h = refl
  shape_lem i mlp_ln_weight h = refl
  shape_lem i mlp_ln_bias h = refl
  shape_lem i mlp_c_fc_weight h = rw inner refl
  shape_lem i mlp_c_fc_bias h = rw inner refl
  shape_lem i mlp_c_proj_weight h = rw inner refl
  shape_lem i mlp_c_proj_bias h = refl
  shape_lem i mlp_gate_proj_weight h = rw inner refl
  shape_lem i mlp_up_proj_weight h = rw inner refl
  shape_lem i mlp_down_proj_weight h = rw inner refl
  shape_lem i mlp_router_weight h = refl
  shape_lem i (local_experts_gate_proj_weight j) h = rw inner refl
  shape_lem i (local_experts_up_proj_weight j) h = rw inner refl
  shape_lem i (local_experts_down_proj_weight j) h = rw inner refl
  shape_lem i ln_f_weight h = refl
  shape_lem i ln_f_bias h = refl
  shape_lem i weight h = rw h head_lem

  numel_some :
      (o : Option (List ℕ))
      → is_some o ≡ true
      → is_some (o >>= λ shape. some (product shape)) ≡ true
  numel_some none e = cc
  numel_some (some shape) e = refl

  pub numel-proper : (k : Key) → proper c k ≡ true → is_some (numel c mp_size k) ≡ true
  unfolding numel get_real_model_param_shape
  numel-proper k h = numel_some (shape_of c mp_size k.layer k.param) (shape_lem k.layer k.param h)
