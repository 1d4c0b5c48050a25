-- ===== src/Flatten/Keys/Layers.antt =====
-- The keys of a list of layers of a model with a known kind of MLP.
use rea_lhf.Base.{
  ==_refl, Bool, Bool-cases, List, [], all, arith, false, inl, inr, leb, not, refl, some, suc, true,
  zero, ℕ, ◌++◌, ◌+◌, ◌==◌, ◌∷◌, ◌≡◌, ◌≢◌,
}
use rea_lhf.Flatten.Keys.{
  Key, MlpType, Param, ReaLModelConfig, attention, attn_c_attn_k_attn_bias, attn_c_attn_ln_bias,
  attn_c_attn_q_attn_bias, attn_c_attn_v_attn_bias, attn_c_proj_bias, embed, experts, head, key_if,
  keys_from_layer_indices, keys_of_layers, last_norm, layer_keys, llama, ln_f_bias, mlp,
  mlp_ln_bias, moe, no_type, tblock, unknown, wpe_weight,
}
use rea_lhf.Flatten.Shapes.Sizes.{proper, proper_param}
use rea_lhf.Flatten.Spec.{is_empty}
use rea_lhf.System.Dispatch.{insert, sorted}

insert-cons : (x : ℕ) (ys : List ℕ) → (j : ℕ) × (js : List ℕ) × (insert x ys ≡ j ∷ js)
insert-cons x [] = (x, [], refl)
insert-cons x (y ∷ ys) = elim (Bool-cases (leb x y)) [
  | inl t ↦ (x, y ∷ ys, rw t refl)
  | inr f ↦ (y, insert x ys, rw f refl)
]

module _ (c : ReaLModelConfig) where
  -- Keys that may stand in a model.
  abbrev pub Proper : List Key → Type 0
  Proper ks = all (proper c) ks ≡ true

  Proper-append : (xs ys : List Key) → Proper xs → Proper ys → Proper (xs ++ ys)
  Proper-append [] ys e f = f
  Proper-append (x ∷ xs) ys e f = ground (arith, Proper-append xs ys)

  Proper-key_if : (b : Bool) (i : ℕ) (p : Param) → proper_param c i p ≡ true → Proper (key_if b i p)
  Proper-key_if true i p e = rw e refl
  Proper-key_if false i p e = refl

  Proper-after :
      (b : Bool) (i : ℕ) (p : Param) (ks : List Key)
      → proper_param c i p ≡ true
      → Proper ks
      → Proper (key_if b i p ++ ks)
  Proper-after b i p ks e f = Proper-append (key_if b i p) ks (Proper-key_if b i p e) f

  Proper-attention : (i : ℕ) → Proper (attention c i)
  Proper-attention i = Proper-after c.layer_norm_type_is_none i attn_c_attn_ln_bias _ refl (
      Proper-after c.use_attention_bias i attn_c_attn_q_attn_bias _ refl (
        Proper-after c.use_attention_bias i attn_c_attn_k_attn_bias _ refl (
          Proper-after c.use_attention_bias i attn_c_attn_v_attn_bias _ refl (
            Proper-after c.use_attn_proj_bias i attn_c_proj_bias _ refl
              (Proper-key_if c.layer_norm_type_is_none i mlp_ln_bias refl)))))

  Proper-experts : (i n j : ℕ) → Proper (experts i n j)
  Proper-experts i zero j = refl
  Proper-experts i (suc n) j = Proper-experts i n (suc j)

  Proper-last_norm : (i : ℕ) → Proper (last_norm c i)
  Proper-last_norm i = elim (Bool-cases (i == c.n_layers)) [
    | inl t ↦ rw t (Proper-key_if c.layer_norm_type_is_none i ln_f_bias refl)
    | inr f ↦ rw f refl
  ]

  mlp-some :
      (t : MlpType) (n i : ℕ) → t ≢ unknown → (ks : List Key) × (mlp t n i ≡ some ks) × Proper ks
  mlp-some no_type n i h = (_, refl, refl)
  mlp-some llama n i h = (_, refl, refl)
  mlp-some moe n i h = (_, refl, Proper-experts i n 0)
  mlp-some unknown n i h = absurd (h refl)

  is_empty-append : (xs ys : List Key) → is_empty xs ≡ false → is_empty (xs ++ ys) ≡ false
  is_empty-append [] ys h = cc
  is_empty-append (x ∷ xs) ys h = refl

  layer_keys-some :
      (i : ℕ)
      → c.mlp_type ≢ unknown
      → (ks : List Key) × (layer_keys c i ≡ some ks) × (is_empty ks ≡ false) × Proper ks
  unfolding layer_keys embed tblock
  layer_keys-some i h = elim (Bool-cases (i == 0)) [
    | inl t ↦ (embed c, rw t refl, refl, Proper-key_if (not c.apply_rotary) 0 wpe_weight refl)
    | inr f ↦ elim (Bool-cases (i == c.n_layers + 1)) [
      | inl t ↦ (head c, rw (f, t) refl, refl, rw (==_refl (c.n_layers + 1)) refl)
      | inr g ↦
          let (ks, e, p) = mlp-some c.mlp_type c.num_experts i h in
          (
            attention c i ++ (ks ++ last_norm c i),
            rw (f, g, e) refl,
            refl,
            Proper-append (attention c i) (ks ++ last_norm c i) (Proper-attention i)
                (Proper-append ks (last_norm c i) p (Proper-last_norm i)),
          )
    ]
  ]

  keys_of_layers-some :
      (is : List ℕ)
      → c.mlp_type ≢ unknown
      → (ks : List Key) × (keys_of_layers c is ≡ some ks) × Proper ks
  unfolding keys_of_layers
  keys_of_layers-some [] h = ([], refl, refl)
  keys_of_layers-some (i ∷ is) h =
      let (ks, e, _, p) = layer_keys-some i h in
      let (rest, f, q) = keys_of_layers-some is h in
      (ks ++ rest, rw (e, f) refl, Proper-append ks rest p q)

  pub keys_from_layer_indices-some :
      (i : ℕ) (is : List ℕ)
      → c.mlp_type ≢ unknown
      → (ks : List Key) × (keys_from_layer_indices c (i ∷ is) ≡ some ks)
        × (is_empty ks ≡ false)
        × Proper ks
  unfolding keys_from_layer_indices keys_of_layers
  keys_from_layer_indices-some i is h =
      let (j, js, e) = insert-cons i (sorted is) in
      let (ks, f, full, p) = layer_keys-some j h in
      let (rest, g, q) = keys_of_layers-some js h in
      (ks ++ rest, rw (e, f, g) refl, is_empty-append ks rest full, Proper-append ks rest p q)
