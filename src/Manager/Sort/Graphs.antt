-- ===== src/Manager/Sort/Graphs.antt =====
-- internal/process/process.go: the second loop of `topologicalSort`: its degrees and edges.
use gosupervisor.Prelude.{
  ℕ, ◌+◌, ◌≤◌, ◌<◌, ◌≡◌, ◌↔◌, refl, ap, sym, ◌∙◌, inl, inr, true, false, List, [], ◌∷◌, ◌++◌, none,
  some, arith, if◌then◌else◌, Text, text_eq, text_eq_iff, text_eq_refl, text_in, lookup, keys,
  IsMap, Bool-cases, Option-cases,
}
use gosupervisor.Manager.Sort.{Graph, neighbors, add_edges, all_nodes, link, no_degrees, Degrees}
use gosupervisor.Manager.Sort.Counting.{occ, occ_iff, open_edges}
use gosupervisor.Manager.Sort.Nodes.{is_dep, text_in-all_nodes}

-- `n` stands in the graph, with `c` among those it depends on.
abbrev pub Depends : Graph → Text → Text → Type 0
Depends graph n c = (deps : List Text) × (lookup n graph ≡ some deps) × (text_in c deps ≡ true)

-- All that a name of the graph depends on stands in the graph.
abbrev pub IsClosed : Graph → Type 0
IsClosed graph = (n c : Text) → Depends graph n c → text_in c (keys graph) ≡ true

-- How often `c` stands among the dependencies of `n`.
depends : Graph → Text → Text → ℕ
depends [] n c = 0
depends ((node, deps) ∷ g) n c =
    if text_eq n node then occ c deps + depends g n c else depends g n c

-- The degrees and the edges that the second loop builds.
neighbors-append :
    (n c : Text) (es fs : List (Text × Text))
    → occ n (neighbors c (es ++ fs)) ≡ occ n (neighbors c es) + occ n (neighbors c fs)
unfolding neighbors occ
neighbors-append n c [] fs = omega arith
neighbors-append n c ((dep, node) ∷ es) fs = ground (arith, neighbors-append n c es fs)

open_edges-append :
    (es fs : List (Text × Text)) (r : List Text) (n : Text)
    → open_edges (es ++ fs) r n ≡ open_edges es r n + open_edges fs r n
unfolding open_edges
open_edges-append [] fs r n = omega arith
open_edges-append ((dep, node) ∷ es) fs r n = ground (arith, open_edges-append es fs r n)

IsCounted : Degrees → Text → Type 0
IsCounted s n = s.in_degree n ≡ open_edges s.reverse_graph [] n

add_edges_lem :
    (node n c : Text) (deps : List Text) (s : Degrees)
    → IsCounted s n
    → IsCounted (add_edges node deps s) n
      × (occ n (neighbors c (add_edges node deps s).reverse_graph)
          ≡ occ n (neighbors c s.reverse_graph) + (if text_eq n node then occ c deps else 0))
unfolding add_edges IsCounted occ neighbors open_edges text_in
add_edges_lem node n c [] s h = (h, ground arith)
add_edges_lem node n c (dep ∷ deps) s h =
    let s' : Degrees = record {
      in_degree = λ k. if text_eq k node then s.in_degree k + 1 else s.in_degree k;
      reverse_graph = s.reverse_graph ++ (dep, node) ∷ [];
    } in
    let counted : IsCounted s' n =
      ground (arith, h, open_edges-append s.reverse_graph ((dep, node) ∷ []) [] n) in
    let (k, e) = add_edges_lem node n c deps s' counted in
    (k, ground (arith, e, neighbors-append n c s.reverse_graph ((dep, node) ∷ [])))

link_lem :
    (n c : Text) (g : Graph) (s : Degrees)
    → IsCounted s n
    → IsCounted (link g s) n
      × (occ n (neighbors c (link g s).reverse_graph)
          ≡ occ n (neighbors c s.reverse_graph) + depends g n c)
unfolding link depends
link_lem n c [] s h = (h, omega arith)
link_lem n c ((node, deps) ∷ g) s h =
    let (h', e) = add_edges_lem node n c deps s h in
    let (k, e') = link_lem n c g (add_edges node deps s) h' in (k, ground (arith, e, e'))

pub lookup-keys {ℓ} :
    {A : Type ℓ} (n : Text) (g : List (Text × A))
    → (lookup n g ≡ none) ↔ (text_in n (keys g) ≡ false)
unfolding lookup keys text_in
lookup-keys n [] = (λ _. refl, λ _. refl)
lookup-keys n ((m, v) ∷ g) = ground (arith, lookup-keys n g, text_eq_iff n m, text_eq_iff m n)

depends_lem :
    (n c : Text) (g : Graph)
    → IsMap g
    → depends g n c ≡ elim (lookup n g) [ none ↦ 0 | some deps ↦ occ c deps ]
unfolding depends lookup
depends_lem n c [] h = refl
depends_lem n c ((node, deps) ∷ g) h = ground (
  arith,
  depends_lem n c g h.1,
  text_eq_iff n node,
  text_eq_iff node n,
  λ (e : text_eq n node ≡ true). ap (λ k. lookup k g) ((text_eq_iff n node).0 e) ∙ h.0,
)

-- What the second loop leaves: on a graph with each name once, the degrees count the edges, and the
-- edges are the dependencies.
pub linked :
    (graph : Graph) (n : Text)
    → IsMap graph
    → (link graph no_degrees).in_degree n ≡ open_edges (link graph no_degrees).reverse_graph [] n
unfolding IsCounted no_degrees open_edges
linked graph n h = (link_lem n n graph no_degrees refl).0

edges_lem :
    (graph : Graph) (n c : Text)
    → occ n (neighbors c (link graph no_degrees).reverse_graph) ≡ depends graph n c
unfolding IsCounted no_degrees open_edges neighbors occ
edges_lem graph n c = (link_lem n c graph no_degrees refl).1 ∙ (omega arith)

pub edge_iff :
    (graph : Graph) (n c : Text)
    → IsMap graph
    → (0 < occ n (neighbors c (link graph no_degrees).reverse_graph)) ↔ Depends graph n c
edge_iff graph n c h = elim (Option-cases (lookup n graph)) [
  | inl e ↦ (
    λ p. absurd (ground (arith, edges_lem graph n c, depends_lem n c graph h)),
    λ (deps, found, is). cc,
  )
  | inr (deps, e) ↦ (
    λ p. (deps, e, ground (arith, edges_lem graph n c, depends_lem n c graph h, occ_iff c deps)),
    λ (deps', found, is).
        let same : deps' ≡ deps = cc in
        let there : text_in c deps ≡ true = ap (λ k. text_in c k) (sym same) ∙ is in
        ground (arith, edges_lem graph n c, depends_lem n c graph h, occ_iff c deps),
  )
]

is_dep_lem : (n : Text) (g : Graph) → is_dep n g ≡ true → (m : Text) × (0 < depends g m n)
unfolding is_dep depends
is_dep_lem n [] h = cc h
is_dep_lem n ((node, deps) ∷ g) h = elim (Bool-cases (text_in n deps)) [
  | inl e ↦ (node, ground (arith, occ_iff n deps, text_eq_refl node))
  | inr e ↦ let (m, p) = is_dep_lem n g (ground arith) in (m, ground arith)
]

-- In a closed graph the nodes are the names of the graph.
pub text_in-nodes :
    (graph : Graph) (n : Text)
    → IsMap graph
    → IsClosed graph
    → text_in n (all_nodes graph []) ≡ text_in n (keys graph)
text_in-nodes graph n h closed = elim (Bool-cases (is_dep n graph)) [
  | inl e ↦
      let (m, p) = is_dep_lem n graph e in
      let on = closed m n ((edge_iff graph m n h).0 (ground (arith, edges_lem graph m n))) in
      ground (arith, text_in-all_nodes n graph [])
  | inr e ↦ unfold text_in in ground (arith, text_in-all_nodes n graph [])
]

pub keys-once {ℓ} :
    {A : Type ℓ} (graph : List (Text × A)) (n : Text) → IsMap graph → occ n (keys graph) ≤ 1
unfolding keys occ
keys-once [] n h = omega arith
keys-once ((m, v) ∷ g) n h = ground (
  arith,
  keys-once g n h.1,
  (lookup-keys m g).0 h.0,
  occ_iff m (keys g),
  λ (e : text_eq n m ≡ true). ap (λ k. occ k (keys g)) ((text_eq_iff n m).0 e),
)

pub node_of_edge :
    (graph : Graph) (n c : Text) → Depends graph n c → text_in n (all_nodes graph []) ≡ true
node_of_edge graph n c (deps, found, is) = elim (Bool-cases (text_in n (keys graph))) [
  | inl e ↦ unfold text_in in ground (arith, text_in-all_nodes n graph [])
  | inr e ↦ cc ((lookup-keys n graph).1 e)
]

pub key_of_edge : (graph : Graph) (n c : Text) → Depends graph n c → text_in n (keys graph) ≡ true
key_of_edge graph n c (deps, found, is) = elim (Bool-cases (text_in n (keys graph))) [
  | inl e ↦ e
  | inr e ↦ cc ((lookup-keys n graph).1 e)
]

pub node_of_key :
    (graph : Graph) (n : Text)
    → text_in n (keys graph) ≡ true
    → text_in n (all_nodes graph []) ≡ true
unfolding text_in
node_of_key graph n h = ground (arith, text_in-all_nodes n graph [])

is_dep-lookup :
    (g : Graph) (n c : Text) (deps : List Text)
    → lookup n g ≡ some deps
    → text_in c deps ≡ true
    → is_dep c g ≡ true
unfolding is_dep lookup
is_dep-lookup [] n c deps h e = cc h
is_dep-lookup ((m, v) ∷ g) n c deps h e = elim (Bool-cases (text_eq m n)) [
  | inl same ↦ let is : v ≡ deps = ground (arith, h, same) in ground (arith, e, ap (text_in c) is)
  | inr other ↦ ground (arith, is_dep-lookup g n c deps (ground (arith, h, other)) e)
]

pub node_of_dep :
    (graph : Graph) (n c : Text) → Depends graph n c → text_in c (all_nodes graph []) ≡ true
unfolding text_in
node_of_dep graph n c (deps, found, is) =
    ground (arith, text_in-all_nodes c graph [], is_dep-lookup graph n c deps found is)
