-- ===== src/Dataflow/Examples.antt =====
-- A generation whose responses are rewarded, and a training that reads both, on a graph that is a
-- function from pairs of names to edges.
use rea_lhf.Base.{List, Option, [], if◌then◌else◌, none, refl, some, ℕ, ◌&&◌, ◌++◌, ◌==◌, ◌∷◌, ◌≡◌}
use rea_lhf.Dataflow.{DiGraph, MfcDef, add_edges, build_graph, producers}
use rea_lhf.Dataflow.Edges.{edge-build_graph, extended, last_producer, links}

abbrev Edges : Type 0
Edges = ℕ → ℕ → Option (List ℕ)

abbrev appended : Option (List ℕ) → ℕ → Option (List ℕ)
appended none k = none
appended (some ks) k = some (ks ++ k ∷ [])

abbrev function_graph : DiGraph Edges
function_graph = record {
  no_edges = λ u v. none;
  edge = λ g u v. g u v;
  add_edge = λ u v ks g a b. if u == a && v == b then some ks else g a b;
  append_key = λ u v k g a b. if u == a && v == b then appended (g u v) k else g a b;
  edge-no_edges = λ u v. refl;
  edge-add_edge = λ u v ks g a b. refl;
  edge-append_key = λ u v k g ks a b e. rw e;
}

abbrev calls : List MfcDef
calls =
    record { name = 0; model_name = 0; input_keys = 10 ∷ []; output_keys = 11 ∷ 12 ∷ [] }
    ∷ record { name = 1; model_name = 1; input_keys = 11 ∷ []; output_keys = 13 ∷ [] }
    ∷ record { name = 2; model_name = 0; input_keys = 11 ∷ 13 ∷ 12 ∷ []; output_keys = [] }
    ∷ []

abbrev call_graph : Edges
call_graph = add_edges function_graph (producers calls []) calls function_graph.no_edges

builds : build_graph function_graph calls ≡ some call_graph
unfolding build_graph
builds = refl

edge-build_graph_example : call_graph 0 2 ≡ extended none (links (last_producer calls) calls 0 2)
edge-build_graph_example = edge-build_graph function_graph calls call_graph 0 2 builds

two_keys : call_graph 0 2 ≡ some (11 ∷ 12 ∷ [])
unfolding add_edges producers
two_keys = refl
