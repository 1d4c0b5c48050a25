-- ===== src/Dataflow.antt =====
-- realhf/api/core/dfg.py, `build_graph` and what an `MFCDef` reads of the graph. Names, roles and keys
-- are compared only, so they are numbers. The graph itself is networkx's: `DiGraph` has the operations
-- that the code uses, with what their documentation says of them.
pub mod Edges
mod Examples
use rea_lhf.Base.{
  Bool, List, Option, [], any, assert, if◌then◌else◌, none, not, some, true, ℕ, ◌&&◌, ◌++◌, ◌==◌,
  ◌>>=◌, ◌∷◌, ◌≡◌,
}

pub record MfcDef : Type 0 where
  pub name : ℕ
  pub model_name : ℕ
  pub input_keys : List ℕ
  pub output_keys : List ℕ

-- The edges of a directed graph of which the keys of each are read: none is no edge.
pub record DiGraph (G : Type 0) : Type 0 where
  pub no_edges : G
  pub edge : G → ℕ → ℕ → Option (List ℕ)
  pub add_edge : ℕ → ℕ → List ℕ → G → G
  pub append_key : ℕ → ℕ → ℕ → G → G
  pub edge-no_edges : (u v : ℕ) → edge no_edges u v ≡ none
  pub edge-add_edge :
      (u v : ℕ) (ks : List ℕ) (g : G) (a b : ℕ)
      → edge (add_edge u v ks g) a b ≡ (if u == a && v == b then some ks else edge g a b)
  pub edge-append_key :
      (u v k : ℕ) (g : G) (ks : List ℕ) (a b : ℕ)
      → edge g u v ≡ some ks
      → edge (append_key u v k g) a b
        ≡ (if u == a && v == b then some (ks ++ k ∷ []) else edge g a b)

-- `len(set(names)) != len(nodes)`
abbrev pub unique : List MfcDef → Bool
unique [] = true
unique (n ∷ ns) = not (any (λ m. m.name == n.name) ns) && unique ns

-- The dict of producers, as an association list with the newest entry first.
abbrev pub Producers : Type 0
Producers = List (ℕ × MfcDef)

abbrev pub produced_by : Producers → ℕ → Option MfcDef
produced_by [] k = none
produced_by ((j, n) ∷ ps) k = if j == k then some n else produced_by ps k

unfoldable pub add_outputs : MfcDef → List ℕ → Producers → Producers
add_outputs n [] ps = ps
add_outputs n (k ∷ ks) ps = add_outputs n ks ((k, n) ∷ ps)

unfoldable pub producers : List MfcDef → Producers → Producers
unfolding add_outputs
producers [] ps = ps
producers (n ∷ ns) ps = producers ns (add_outputs n n.output_keys ps)

module _ {G : Type 0} (graph : DiGraph G) where
  -- The body of the inner loop, with the producers that the first loop has found.
  unfoldable pub add_key : Producers → MfcDef → ℕ → G → G
  add_key ps n k g = elim (produced_by ps k) [
    | none ↦ g
    | some src ↦ elim (graph.edge g src.name n.name) [
      | some ks ↦ graph.append_key src.name n.name k g
      | none ↦ graph.add_edge src.name n.name (k ∷ []) g
    ]
  ]

  unfoldable pub add_inputs : Producers → MfcDef → List ℕ → G → G
  unfolding add_key
  add_inputs ps n [] g = g
  add_inputs ps n (k ∷ ks) g = add_inputs ps n ks (add_key ps n k g)

  unfoldable pub add_edges : Producers → List MfcDef → G → G
  unfolding add_inputs
  add_edges ps [] g = g
  add_edges ps (n ∷ ns) g = add_edges ps ns (add_inputs ps n n.input_keys g)

  -- none is the ValueError for names that are not unique.
  unfoldable pub build_graph : List MfcDef → Option G
  unfolding producers add_edges
  build_graph nodes =
      assert (unique nodes) >>= λ _. some (add_edges (producers nodes []) nodes graph.no_edges)
