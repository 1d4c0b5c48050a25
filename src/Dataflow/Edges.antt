-- ===== src/Dataflow/Edges.antt =====
-- Which edges `build_graph` makes.
use mathlib.Core.List.{append-nil, append_assoc}
use mathlib.Core.Path.{fun_ext}
use rea_lhf.Base.{
  ==_iff, Bool, List, Option, Option-cases, [], ap, arith, assert, false, if◌then◌else◌, inl, inr,
  mem, none, refl, some, sym, true, ℕ, ◌&&◌, ◌++◌, ◌==◌, ◌>>=◌, ◌∙◌, ◌∷◌, ◌≡◌,
}
use rea_lhf.Dataflow.{
  DiGraph, MfcDef, Producers, add_edges, add_inputs, add_key, add_outputs, build_graph, produced_by,
  producers, unique,
}

abbrev pub first_some : Option MfcDef → Option MfcDef → Option MfcDef
first_some (some m) o = some m
first_some none o = o

-- The last call that has the key among its outputs.
abbrev pub last_producer : List MfcDef → ℕ → Option MfcDef
last_producer [] k = none
last_producer (n ∷ ns) k =
    first_some (last_producer ns k) (if mem k n.output_keys then some n else none)

produced_by-add_outputs :
    (n : MfcDef) (ks : List ℕ) (ps : Producers) (k : ℕ)
    → produced_by (add_outputs n ks ps) k ≡ (if mem k ks then some n else produced_by ps k)
unfolding add_outputs
produced_by-add_outputs n [] ps k = refl
produced_by-add_outputs n (j ∷ ks) ps k =
    rw (produced_by-add_outputs n ks ((j, n) ∷ ps) k) (ground arith)

first_some-if :
    (o p : Option MfcDef) (b : Bool) (n : MfcDef)
    → first_some o (if b then some n else p)
      ≡ first_some (first_some o (if b then some n else none)) p
first_some-if (some m) p b n = refl
first_some-if none p true n = refl
first_some-if none p false n = refl

produced_by-producers :
    (ns : List MfcDef) (ps : Producers) (k : ℕ)
    → produced_by (producers ns ps) k ≡ first_some (last_producer ns k) (produced_by ps k)
unfolding producers
produced_by-producers [] ps k = refl
produced_by-producers (n ∷ ns) ps k =
    produced_by-producers ns (add_outputs n n.output_keys ps) k
    ∙ rw (produced_by-add_outputs n n.output_keys ps k)
        (first_some-if (last_producer ns k) (produced_by ps k) (mem k n.output_keys) n)

-- The keys that a call reads and call `u` is the last to produce, in the order in which they are read.
abbrev pub linked_key : Option MfcDef → ℕ → ℕ → List ℕ → List ℕ
linked_key none u k ks = ks
linked_key (some p) u k ks = if p.name == u then k ∷ ks else ks

abbrev pub linked : (ℕ → Option MfcDef) → ℕ → List ℕ → List ℕ
linked src u [] = []
linked src u (k ∷ ks) = linked_key (src k) u k (linked src u ks)

abbrev pub links : (ℕ → Option MfcDef) → List MfcDef → ℕ → ℕ → List ℕ
links src [] u v = []
links src (n ∷ ns) u v =
    if n.name == v then linked src u n.input_keys ++ links src ns u v else links src ns u v

-- An edge with keys `before`, none if there are none, after further keys came.
abbrev pub extended : Option (List ℕ) → List ℕ → Option (List ℕ)
extended none [] = none
extended none (k ∷ ks) = some (k ∷ ks)
extended (some before) ks = some (before ++ ks)

extended-append :
    (o : Option (List ℕ)) (xs ys : List ℕ) → extended (extended o xs) ys ≡ extended o (xs ++ ys)
extended-append none [] ys = refl
extended-append none (x ∷ xs) ys = refl
extended-append (some ks) xs ys = ap some (append_assoc ks xs ys)

extended-nil : (o : Option (List ℕ)) → o ≡ extended o []
extended-nil none = refl
extended-nil (some ks) = ap some (sym (append-nil ks))

one_key :
    (a b : Bool) (k : ℕ) (o r : Option (List ℕ))
    → (a ≡ true → b ≡ true → r ≡ extended o (k ∷ []))
    → (if a && b then r else o) ≡ extended o (if b then (if a then k ∷ [] else []) else [])
one_key true true k o r h = h refl refl
one_key true false k o r h = extended-nil o
one_key false true k o r h = extended-nil o
one_key false false k o r h = extended-nil o

more_keys :
    (b : Bool) (xs ys : List ℕ)
    → (if b then xs else []) ++ (if b then ys else []) ≡ (if b then xs ++ ys else [])
more_keys true xs ys = refl
more_keys false xs ys = refl

linked-cons :
    (src : ℕ → Option MfcDef) (u k : ℕ) (ks : List ℕ)
    → linked src u (k ∷ []) ++ linked src u ks ≡ linked src u (k ∷ ks)
linked-cons src u k ks = split (src k)
  where
    split :
        (o : Option MfcDef)
        → linked_key o u k [] ++ linked src u ks ≡ linked_key o u k (linked src u ks)
    split none = refl
    split (some p) = ground arith

no_keys : (b : Bool) (o : Option (List ℕ)) → o ≡ extended o (if b then [] else [])
no_keys true o = extended-nil o
no_keys false o = extended-nil o

module _ {G : Type 0} (graph : DiGraph G) (ps : Producers) where
  abbrev here : MfcDef → List ℕ → ℕ → ℕ → List ℕ
  here n ks u v = if n.name == v then linked (produced_by ps) u ks else []

  edge-add_key :
      (n : MfcDef) (k : ℕ) (g : G) (u v : ℕ)
      → graph.edge (add_key graph ps n k g) u v ≡ extended (graph.edge g u v) (here n (k ∷ []) u v)
  unfolding add_key
  edge-add_key n k g u v = elim (Option-cases (produced_by ps k)) [
    | inl e ↦ rw (e, add_key) (no_keys (n.name == v) (graph.edge g u v))
    | inr (p, e) ↦ elim (Option-cases (graph.edge g p.name n.name)) [
      | inl f ↦
          rw (e, add_key, f)
            (graph.edge-add_edge p.name n.name (k ∷ []) g u v
              ∙ one_key (p.name == u) (n.name == v) k (graph.edge g u v) (some (k ∷ []))
                  (λ a b. sym (ap (λ o. extended o (k ∷ [])) (at_edge p a b f))))
      | inr (ks, f) ↦
          rw (e, add_key, f)
            (graph.edge-append_key p.name n.name k g ks u v f
              ∙ one_key (p.name == u) (n.name == v) k (graph.edge g u v) (some (ks ++ k ∷ []))
                  (λ a b. sym (ap (λ o. extended o (k ∷ [])) (at_edge p a b f))))
    ]
  ]
    where
      at_edge :
          (p : MfcDef) {o : Option (List ℕ)}
          → (p.name == u) ≡ true
          → (n.name == v) ≡ true
          → graph.edge g p.name n.name ≡ o
          → graph.edge g u v ≡ o
      at_edge p a b f = rw⁻¹ ((==_iff p.name u).0 a, (==_iff n.name v).0 b) f

  edge-add_inputs :
      (n : MfcDef) (ks : List ℕ) (g : G) (u v : ℕ)
      → graph.edge (add_inputs graph ps n ks g) u v ≡ extended (graph.edge g u v) (here n ks u v)
  unfolding add_inputs
  edge-add_inputs n [] g u v = no_keys (n.name == v) (graph.edge g u v)
  edge-add_inputs n (k ∷ ks) g u v =
      edge-add_inputs n ks (add_key graph ps n k g) u v
      ∙ rw (edge-add_key n k g u v) (
          extended-append (graph.edge g u v) (here n (k ∷ []) u v) (here n ks u v)
          ∙ ap (extended (graph.edge g u v)) (
              more_keys (n.name == v) (linked (produced_by ps) u (k ∷ []))
                (linked (produced_by ps) u ks)
              ∙ ap (λ xs. if n.name == v then xs else []) (linked-cons (produced_by ps) u k ks)))

  edge-add_edges :
      (ns : List MfcDef) (g : G) (u v : ℕ)
      → graph.edge (add_edges graph ps ns g) u v
        ≡ extended (graph.edge g u v) (links (produced_by ps) ns u v)
  unfolding add_edges
  edge-add_edges [] g u v = extended-nil (graph.edge g u v)
  edge-add_edges (n ∷ ns) g u v =
      edge-add_edges ns (add_inputs graph ps n n.input_keys g) u v
      ∙ rw (edge-add_inputs n n.input_keys g u v) (
          extended-append (graph.edge g u v) (here n n.input_keys u v)
            (links (produced_by ps) ns u v)
          ∙ ap (extended (graph.edge g u v)) (split (n.name == v)))
    where
      split :
          (b : Bool)
          → (if b then linked (produced_by ps) u n.input_keys else [])
              ++ links (produced_by ps) ns u v
            ≡ (if b
                then linked (produced_by ps) u n.input_keys ++ links (produced_by ps) ns u v
                else links (produced_by ps) ns u v)
      split true = refl
      split false = refl

built : {G : Type 0} (b : Bool) (x g : G) → (assert b >>= λ _. some x) ≡ some g → g ≡ x
built true x g e = cc
built false x g e = cc

first_some-none : (o : Option MfcDef) → first_some o none ≡ o
first_some-none none = refl
first_some-none (some m) = refl

-- Where the names of the calls are unique, the graph has an edge from call `u` to call `v` if and only if `v` reads a key of which `u` is the
-- last call to produce it; the edge then lists these keys, in the order in which `v` reads them.
pub edge-build_graph :
    {G : Type 0} (graph : DiGraph G) (nodes : List MfcDef) (g : G) (u v : ℕ)
    → build_graph graph nodes ≡ some g
    → graph.edge g u v ≡ extended none (links (last_producer nodes) nodes u v)
unfolding build_graph
edge-build_graph graph nodes g u v e =
    let ps = producers nodes [] in
    let same : produced_by ps ≡ last_producer nodes =
      fun_ext (λ k. produced_by-producers nodes [] k ∙ first_some-none (last_producer nodes k)) in
    ap (λ h. graph.edge h u v) (built (unique nodes) (add_edges graph ps nodes graph.no_edges) g e)
    ∙ edge-add_edges graph ps nodes graph.no_edges u v
    ∙ rw (graph.edge-no_edges u v) (ap (λ src. extended none (links src nodes u v)) same)
