-- ===== src/Manager/Sort/Order.antt =====
-- internal/process/process.go: what `topologicalSort` returns, and when it reports a cycle.
use gosupervisor.Prelude.{
  sym, ℕ, suc, ◌≤◌, ◌≡◌, ◌≢◌, ◌↔◌, refl, ap, subst, ◌∙◌, inl, inr, true, false, List, [], ◌∷◌, ◌++◌,
  arith, ◌==◌, if◌then◌else◌, length, Text, text_eq, text_eq_iff, text_in, keys, IsMap, Bool-cases,
}
use gosupervisor.Manager.Sort.{
  Graph, all_nodes, check_size, topological_sort, sorted, circular, out_of_fuel,
}
use gosupervisor.Manager.Sort.Counting.{
  occ, occ_iff, same_length, sub_length, find_missing, open-zero,
}
use gosupervisor.Manager.Sort.Ending.{
  Knot, prefix_done, avoids, edges_of, nodes_once, known, ends, returned, left_over,
}
use gosupervisor.Manager.Sort.Loop.{IsOrdered, Inv}
use gosupervisor.Manager.Sort.Graphs.{
  Depends, IsClosed, edge_iff, text_in-nodes, keys-once, key_of_edge, node_of_key, node_of_dep,
}

length-keys : (graph : Graph) → length (keys graph) ≡ length graph
unfolding keys
length-keys [] = refl
length-keys ((n, deps) ∷ g) = ap suc (length-keys g)

module _ (sort : List Text → List Text)
    (permutes : (n : Text) (xs : List Text) → occ n (sort xs) ≡ occ n xs) (graph : Graph)
    (map : IsMap graph) where
  abbrev Ended : (Text → ℕ) → List Text → Type 0
  Ended d result =
      Inv sort permutes (all_nodes graph []) (nodes_once sort permutes graph map) (edges_of graph)
        (known sort permutes graph map) d [] result

  node_left_over :
      (d : Text → ℕ) (result : List Text)
      → Ended d result
      → (m : Text) → text_in m (all_nodes graph []) ≡ true
      → text_in m result ≡ false
      → Knot (Depends graph)
  node_left_over =
      left_over sort permutes graph map (all_nodes graph []) (nodes_once sort permutes graph map)
        (known sort permutes graph map) (node_of_dep graph)

  module _ (closed : IsClosed graph) where
    occ-nodes : (n : Text) → occ n (all_nodes graph []) ≡ occ n (keys graph)
    occ-nodes n = ground (
      arith,
      text_in-nodes graph n map closed,
      occ_iff n (keys graph),
      occ_iff n (all_nodes graph []),
      nodes_once sort permutes graph map n,
      keys-once graph n map,
    )

    below :
        (d : Text → ℕ) (result : List Text)
        → Ended d result
        → (n : Text) → occ n result ≤ occ n (keys graph)
    unfolding occ
    below d result i n = ground (arith, i.placed n, occ-nodes n)

    -- A result of the right length misses no name.
    complete :
        (d : Text → ℕ) (result : List Text)
        → Ended d result
        → length result ≡ length graph
        → (n : Text) → text_in n (keys graph) ≡ true
        → text_in n result ≡ true
    complete d result i size = elim (find_missing (keys graph) result) [
      | inl all ↦ all
      | inr (m, key, gone) ↦
          let longer : length (m ∷ result) ≤ length (keys graph) =
            sub_length (m ∷ result) (keys graph) (λ n.
              unfold occ in
              ground (
                arith,
                below d result i n,
                keys-once graph m map,
                occ_iff m result,
                occ_iff m (keys graph),
                λ (e : text_eq n m ≡ true). ap (λ k. occ k result) ((text_eq_iff n m).0 e),
                λ (e : text_eq n m ≡ true). ap (λ k. occ k (keys graph)) ((text_eq_iff n m).0 e),
              )) in
          absurd (omega (arith, longer, size, length-keys graph))
    ]

    no_knot :
        (result : List Text) → topological_sort sort graph ≡ sorted result → ¬ Knot (Depends graph)
    no_knot result h knot =
        let (d, i, size) = returned sort permutes graph map result h in
        let (c, dep, also) = knot.each knot.one knot.inside in
        let out =
          avoids (edges_of graph) knot.members [] result
            (λ n m. let (c, dep, also) = knot.each n m in (c, (edge_iff graph n c map).1 dep, also))
            i.ordered (λ c k. unfold text_in in cc) knot.one
            (complete d result i size knot.one (key_of_edge graph knot.one c dep)) in
        absurd (ground (arith, knot.inside, out))

    size_left :
        (d : Text → ℕ) (result : List Text)
        → Ended d result
        → length result ≢ length graph
        → Knot (Depends graph)
    size_left d result i size = elim (find_missing (keys graph) result) [
      | inl all ↦ absurd (
          size (
            same_length result (keys graph) (λ n. ground (
              arith,
              below d result i n,
              keys-once graph n map,
              all n,
              occ_iff n result,
              occ_iff n (keys graph),
            ))
            ∙ length-keys graph))
      | inr (m, key, gone) ↦
          node_left_over d result i m (text_in-nodes graph m map closed ∙ key) gone
    ]

-- The fuel of the sort is enough on any graph that holds each name once.
pub topological_sort_ends :
    (sort : List Text → List Text) (graph : Graph)
    → ((n : Text) (xs : List Text) → occ n (sort xs) ≡ occ n xs)
    → IsMap graph
    → topological_sort sort graph ≢ out_of_fuel
topological_sort_ends sort graph permutes map bad =
    let (d, result, e, i) = ends sort permutes graph map in
    absurd (unfold check_size in ground (arith, sym e ∙ bad))

-- For any order in which equal priorities are left, on a graph that holds each name once and all the
-- names that its names depend on: where the sort returns names, each name of the graph stands among
-- them once and no other name does, and before each name stands all that it depends on.
pub topological_sort-sorted :
    (sort : List Text → List Text) (graph : Graph) (result : List Text)
    → ((n : Text) (xs : List Text) → occ n (sort xs) ≡ occ n xs)
    → IsMap graph
    → IsClosed graph
    → topological_sort sort graph ≡ sorted result
    → ((n : Text) → occ n result ≡ (if text_in n (keys graph) then 1 else 0))
      × ((pre post : List Text) (n c : Text)
          → result ≡ pre ++ n ∷ post
          → Depends graph n c
          → text_in c pre ≡ true)
topological_sort-sorted sort graph result permutes map closed h =
    let (d, i, size) = returned sort permutes graph map result h in
    (
      λ n. ground (
        arith,
        below sort permutes graph map closed d result i n,
        complete sort permutes graph map closed d result i size n,
        keys-once graph n map,
        occ_iff n result,
        occ_iff n (keys graph),
      ),
      λ pre post n c split dep.
          open-zero (edges_of graph) pre n c
            (prefix_done (edges_of graph) [] pre post n
              (subst (λ r. IsOrdered (edges_of graph) [] r) split i.ordered))
            ((edge_iff graph n c map).1 dep),
    )

-- On such a graph the sort always ends, and it reports a cycle exactly if there are names of the
-- graph each of which depends on one of them.
pub topological_sort_circular_iff :
    (sort : List Text → List Text) (graph : Graph)
    → ((n : Text) (xs : List Text) → occ n (sort xs) ≡ occ n xs)
    → IsMap graph
    → IsClosed graph
    → (topological_sort sort graph ≢ out_of_fuel)
      × ((topological_sort sort graph ≡ circular) ↔ Knot (Depends graph))
topological_sort_circular_iff sort graph permutes map closed =
    let (d, result, e, i) = ends sort permutes graph map in
    elim (Bool-cases (length result == length graph)) [
      | inl fits ↦
          let good : topological_sort sort graph ≡ sorted result =
            e ∙ (unfold check_size in rw fits refl) in
          (
            λ bad. cc,
            (λ bad. cc, λ knot. absurd (no_knot sort permutes graph map closed result good knot)),
          )
      | inr short ↦
          let bad : topological_sort sort graph ≡ circular =
            e ∙ (unfold check_size in rw short refl) in
          (
            λ fuel. cc,
            (
              λ _. size_left sort permutes graph map closed d result i (ground (arith, short)),
              λ knot. bad,
            ),
          )
    ]

keys_fit :
    (graph : Graph) (result : List Text) (c : Text)
    → IsMap graph
    → text_in c (keys graph) ≡ false
    → text_in c (all_nodes graph []) ≡ true
    → ((n : Text) → text_in n (all_nodes graph []) ≡ true → text_in n result ≡ true)
    → length (c ∷ keys graph) ≤ length result
keys_fit graph result c map out node all = sub_length (c ∷ keys graph) result (λ n.
    unfold occ in
    ground (
      arith,
      keys-once graph n map,
      occ_iff n (keys graph),
      occ_iff n result,
      all n,
      node_of_key graph n,
      text_eq_iff n c,
      λ (e : text_eq n c ≡ true). ap (λ k. text_in k (keys graph)) ((text_eq_iff n c).0 e),
      λ (e : text_eq n c ≡ true). ap (λ k. text_in k (all_nodes graph [])) ((text_eq_iff n c).0 e),
    ))

-- For any order in which equal priorities are left, on a graph that holds each name once, where some
-- name depends on one that does not stand in the graph, the sort reports a cycle, although there are
-- no names of which each depends on one of them.
pub topological_sort-outside :
    (sort : List Text → List Text) (graph : Graph) (n c : Text)
    → ((n : Text) (xs : List Text) → occ n (sort xs) ≡ occ n xs)
    → IsMap graph
    → Depends graph n c
    → text_in c (keys graph) ≡ false
    → ¬ Knot (Depends graph)
    → topological_sort sort graph ≡ circular
topological_sort-outside sort graph n c permutes map dep out acyclic =
    let (d, result, e, i) = ends sort permutes graph map in
    elim (find_missing (all_nodes graph []) result) [
      | inr (m, node, gone) ↦
          absurd (acyclic (node_left_over sort permutes graph map d result i m node gone))
      | inl all ↦
          let long = keys_fit graph result c map out (node_of_dep graph n c dep) all in
          e ∙ (unfold check_size in ground (arith, long, length-keys graph))
    ]
