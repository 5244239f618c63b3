-- ===== src/Manager/Sort/Ending.antt =====
-- internal/process/process.go: how the loop of `topologicalSort` ends.
use mathlib.Core.List.{append_assoc, append-nil}
use gosupervisor.Prelude.{
  ℕ, ◌≤◌, ◌<◌, ◌≡◌, refl, ap, sym, subst, ◌∙◌, inl, inr, true, false, ◌&&◌, not, List, [], ◌∷◌,
  ◌++◌, arith, if◌then◌else◌, length, Text, text_eq, text_eq_iff, text_in, IsMap, Bool-cases,
}
use gosupervisor.Manager.Sort.{
  Graph, neighbors, all_nodes, link, no_degrees, zero_degree, check_size, topological_sort, sorted,
}
use gosupervisor.Manager.Sort.Counting.{
  occ, occ_iff, open_edges, occ-zero_degree, open-zero, open-pos, text_in-append,
}
use gosupervisor.Manager.Sort.Loop.{IsOrdered, Inv, remaining-nil, kahn_ends}
use gosupervisor.Manager.Sort.Nodes.{all_nodes-once}
use gosupervisor.Manager.Sort.Graphs.{Depends, linked, edge_iff, node_of_edge}

-- Names each of which needs one of them: what holds of any cycle.
pub record Knot (Needs : Text → Text → Type 0) : Type 0 where
  pub members : List Text
  pub one : Text
  pub inside : text_in one members ≡ true
  pub each :
      (n : Text) → text_in n members ≡ true → (c : Text) × Needs n c × (text_in c members ≡ true)

pub prefix_done :
    (es : List (Text × Text)) (seen pre post : List Text) (n : Text)
    → IsOrdered es seen (pre ++ n ∷ post)
    → open_edges es (seen ++ pre) n ≡ 0
unfolding IsOrdered
prefix_done es seen [] post n o = ap (λ r. open_edges es r n) (append-nil seen) ∙ o.0
prefix_done es seen (p ∷ pre) post n o =
    ap (λ r. open_edges es r n) (sym (append_assoc seen (p ∷ []) pre))
    ∙ prefix_done es (seen ++ p ∷ []) pre post n o.1

pub avoids :
    (es : List (Text × Text)) (members seen ns : List Text)
    → ((n : Text)
        → text_in n members ≡ true
        → (c : Text) × (0 < occ n (neighbors c es)) × (text_in c members ≡ true))
    → IsOrdered es seen ns
    → ((c : Text) → text_in c seen ≡ true → text_in c members ≡ false)
    → (n : Text) → text_in n ns ≡ true
    → text_in n members ≡ false
unfolding IsOrdered text_in
avoids es members seen [] each o clean n h = cc h
avoids es members seen (m ∷ ns) each o clean n h =
    let out : text_in m members ≡ false = elim (Bool-cases (text_in m members)) [
      | inl e ↦ let (c, edge, in_knot) = each m e in cc (clean c (open-zero es seen m c o.0 edge))
      | inr e ↦ e
    ] in
    elim (Bool-cases (text_eq n m)) [
      | inl e ↦ ap (λ k. text_in k members) ((text_eq_iff n m).0 e) ∙ out
      | inr e ↦
          avoids es members (seen ++ m ∷ []) ns each o.1
            (λ c k. ground (
              arith,
              clean c,
              out,
              text_in-append c seen (m ∷ []),
              λ (e : text_eq c m ≡ true). ap (λ k. text_in k members) ((text_eq_iff c m).0 e),
            ))
            n (ground arith)
    ]

-- The names of a list that are not in another.
without : List Text → List Text → List Text
without done [] = []
without done (n ∷ ns) = let rest = without done ns in if text_in n done then rest else n ∷ rest

text_in-without :
    (n : Text) (done ns : List Text)
    → text_in n (without done ns) ≡ (text_in n ns && not (text_in n done))
unfolding without text_in
text_in-without n done [] = refl
text_in-without n done (m ∷ ns) = ground (
  arith,
  text_in-without n done ns,
  λ (e : text_eq n m ≡ true). ap (λ k. text_in k done) ((text_eq_iff n m).0 e),
)

abbrev pub edges_of : Graph → List (Text × Text)
edges_of graph = (link graph no_degrees).reverse_graph

module _ (sort : List Text → List Text)
    (permutes : (n : Text) (xs : List Text) → occ n (sort xs) ≡ occ n xs) (graph : Graph)
    (map : IsMap graph) where
  abbrev pub es : List (Text × Text)
  es = edges_of graph

  pub nodes_once : (n : Text) → occ n (all_nodes graph []) ≤ 1
  unfolding occ
  nodes_once n = all_nodes-once n graph [] (omega arith)

  pub known : (c n : Text) → 0 < occ n (neighbors c es) → occ n (all_nodes graph []) ≡ 1
  known c n p = ground (
    arith,
    nodes_once n,
    occ_iff n (all_nodes graph []),
    node_of_edge graph n c ((edge_iff graph n c map).0 p),
  )

  -- The loop as a whole.
  pub ends :
      (d : Text → ℕ) × (result : List Text) × (topological_sort sort graph
        ≡ check_size graph (sorted result))
      × Inv sort permutes (all_nodes graph []) nodes_once es known d [] result
  unfolding topological_sort
  ends =
      let ns = all_nodes graph [] in
      let d = (link graph no_degrees).in_degree in
      let first : Inv sort permutes ns nodes_once es known d (sort (zero_degree d ns)) [] = record {
        degrees = λ n. linked graph n map;
        placed = λ n.
            unfold occ in ground (arith, permutes n (zero_degree d ns), occ-zero_degree d n ns);
        ordered = unfold IsOrdered in tt;
      } in
      let (d', result, e, i) =
        kahn_ends sort permutes ns nodes_once es known (length ns) d (sort (zero_degree d ns)) []
          first (omega (arith, remaining-nil ns)) in
      (d', result, ap (check_size graph) e, i)

  checked :
      (r result : List Text)
      → check_size graph (sorted r) ≡ sorted result
      → (r ≡ result) × (length r ≡ length graph)
  unfolding check_size
  checked r result h = ground arith

  pub returned :
      (result : List Text)
      → topological_sort sort graph ≡ sorted result
      → (d : Text → ℕ) × Inv sort permutes (all_nodes graph []) nodes_once es known d [] result
        × (length result ≡ length graph)
  returned result h =
      let (d, r, e, i) = ends in
      let (same, size) = checked r result (sym e ∙ h) in
      subst
        (λ x.
          (d : Text → ℕ) × Inv sort permutes (all_nodes graph []) nodes_once es known d [] x
          × (length x ≡ length graph))
        same (d, i, size)

module _ (sort : List Text → List Text)
    (permutes : (n : Text) (xs : List Text) → occ n (sort xs) ≡ occ n xs) (graph : Graph)
    (map : IsMap graph) (ns : List Text) (once : (n : Text) → occ n ns ≤ 1)
    (among : (c n : Text) → 0 < occ n (neighbors c (edges_of graph)) → occ n ns ≡ 1)
    (deps_among : (n c : Text) → Depends graph n c → text_in c ns ≡ true) where
  waits :
      (d : Text → ℕ) (result : List Text)
      → Inv sort permutes ns once (edges_of graph) among d [] result
      → (n : Text) → text_in n (without result ns) ≡ true
      → (c : Text) × Depends graph n c × (text_in c (without result ns) ≡ true)
  waits d result i n here =
      let stuck : 0 < open_edges (edges_of graph) result n =
        unfold occ in
        ground (
          arith,
          text_in-without n result ns,
          i.placed n,
          i.degrees n,
          occ_iff n result,
          occ_iff n ns,
        ) in
      let (c, edge, out) = open-pos (edges_of graph) result n stuck in
      let dep = (edge_iff graph n c map).0 edge in
      (c, dep, ground (arith, out, deps_among n c dep, text_in-without c result ns))

  -- The names that the loop has not reached.
  pub left_over :
      (d : Text → ℕ) (result : List Text)
      → Inv sort permutes ns once (edges_of graph) among d [] result
      → (m : Text) → text_in m ns ≡ true
      → text_in m result ≡ false
      → Knot (Depends graph)
  left_over d result i m node gone = record {
    members = without result ns;
    one = m;
    inside = ground (arith, text_in-without m result ns);
    each = λ n here. waits d result i n here;
  }
