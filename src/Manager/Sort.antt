-- ===== src/Manager/Sort.antt =====
-- internal/process/process.go: `topologicalSort` and `sortByPriority`. A Go map is a list in the order
-- in which it is visited. `sort.Slice` is free to order equal priorities as it likes: the sort is an
-- argument, and `sort_by_priority` is one such.
pub mod Counting
pub mod Relaxing
pub mod Loop
pub mod Nodes
pub mod Graphs
pub mod Ending
pub mod Order
use gosupervisor.Prelude.{
  ℕ, zero, suc, ◌+◌, ◌-◌, ℤ, int_lt, Bool, true, false, List, [], ◌∷◌, ◌++◌, Option, none, some,
  ◌==◌, if◌then◌else◌, Text, text_eq, text_in, lookup, length,
}
use gosupervisor.Process.{Process}

-- The names of a graph, each with those it depends on.
abbrev pub Graph : Type 0
Graph = List (Text × List Text)

-- The keys of `inDegree`: the entries of the first loop.
unfoldable pub add_node : Text → List Text → List Text
add_node n ns = if text_in n ns then ns else ns ++ n ∷ []

unfoldable pub add_nodes : List Text → List Text → List Text
unfolding add_node
add_nodes [] ns = ns
add_nodes (dep ∷ deps) ns = add_nodes deps (add_node dep ns)

unfoldable pub all_nodes : Graph → List Text → List Text
unfolding add_nodes
all_nodes [] ns = ns
all_nodes ((node, deps) ∷ g) ns = all_nodes g (add_nodes deps (add_node node ns))

-- `inDegree`, and `reverseGraph` as its pairs of a dependency and a dependent, in order.
pub record Degrees : Type 0 where
  pub in_degree : Text → ℕ
  pub reverse_graph : List (Text × Text)

unfoldable pub add_edges : Text → List Text → Degrees → Degrees
add_edges node [] s = s
add_edges node (dep ∷ deps) s = add_edges node deps (record {
  in_degree = λ n. if text_eq n node then s.in_degree n + 1 else s.in_degree n;
  reverse_graph = s.reverse_graph ++ (dep, node) ∷ [];
})

unfoldable pub link : Graph → Degrees → Degrees
unfolding add_edges
link [] s = s
link ((node, deps) ∷ g) s = link g (add_edges node deps s)

unfoldable pub no_degrees : Degrees
no_degrees = record { in_degree = λ n. 0; reverse_graph = [] }

-- `reverseGraph[current]`
unfoldable pub neighbors : Text → List (Text × Text) → List Text
neighbors current [] = []
neighbors current ((dep, node) ∷ es) =
    let rest = neighbors current es in if text_eq current dep then node ∷ rest else rest

unfoldable pub zero_degree : (Text → ℕ) → List Text → List Text
zero_degree in_degree [] = []
zero_degree in_degree (n ∷ ns) =
    let rest = zero_degree in_degree ns in if in_degree n == 0 then n ∷ rest else rest

-- `inDegree[neighbor]--`; it is positive there, as the invariant of the loop says.
unfoldable pub decrement : Text → (Text → ℕ) → Text → ℕ
decrement m d n = if text_eq n m then d n - 1 else d n

-- The loop over the neighbors, with `nextBatch`.
unfoldable pub relax : List Text → (Text → ℕ) → List Text → (Text → ℕ) × List Text
unfolding decrement
relax [] d batch = (d, batch)
relax (m ∷ ms) d batch =
    let d' = decrement m d in relax ms d' (if d' m == 0 then batch ++ m ∷ [] else batch)

pub data SortResult : Type 0 where
  sorted : List Text → SortResult
  circular out_of_fuel : SortResult

-- `len(result) != len(graph)` is the error.
unfoldable pub check_size : Graph → SortResult → SortResult
check_size graph (sorted result) = if length result == length graph then sorted result else circular
check_size graph r = r

module _ (sort : List Text → List Text) where
  unfoldable pub kahn :
      ℕ → List (Text × Text) → (Text → ℕ) → (queue result : List Text) → SortResult
  unfolding relax neighbors
  kahn fuel es d [] result = sorted result
  kahn zero es d (current ∷ queue) result = out_of_fuel
  kahn (suc fuel) es d (current ∷ queue) result =
      let (d', batch) = relax (neighbors current es) d [] in
      kahn fuel es d' (queue ++ sort batch) (result ++ current ∷ [])

  unfoldable pub topological_sort : Graph → SortResult
  unfolding link all_nodes zero_degree no_degrees kahn check_size
  topological_sort graph =
      let ns = all_nodes graph [] in
      let s = link graph no_degrees in
      check_size graph
        (kahn (length ns) s.reverse_graph s.in_degree (sort (zero_degree s.in_degree ns)) [])

-- The order of `sortByPriority`: a name without a process comes before no other.
unfoldable pub less : List (Text × Process) → Text → Text → Bool
less ps a b = elim (lookup a ps) [
  | none ↦ false
  | some p ↦ elim (lookup b ps) [
    | none ↦ false
    | some q ↦ int_lt p.config.priority q.config.priority
  ]
]

unfoldable pub insert_name : List (Text × Process) → Text → List Text → List Text
unfolding less
insert_name ps n [] = n ∷ []
insert_name ps n (m ∷ ms) =
    let rest = insert_name ps n ms in if less ps n m then n ∷ m ∷ ms else m ∷ rest

unfoldable pub sort_by_priority : List (Text × Process) → List Text → List Text
unfolding insert_name
sort_by_priority ps [] = []
sort_by_priority ps (n ∷ ns) = insert_name ps n (sort_by_priority ps ns)
