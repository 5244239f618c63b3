-- ===== src/Manager/Sort/Nodes.antt =====
-- internal/process/process.go: the first loop of `topologicalSort`: the names that it finds.
use gosupervisor.Prelude.{
  ◌≤◌, ◌≡◌, ap, Bool, true, false, ◌||◌, List, [], ◌∷◌, arith, Text, text_eq, text_eq_iff, text_in,
  keys,
}
use gosupervisor.Manager.Sort.{Graph, add_node, add_nodes, all_nodes}
use gosupervisor.Manager.Sort.Counting.{occ, occ-append, occ_iff, text_in-append}

add_node-once : (m n : Text) (ns : List Text) → occ n ns ≤ 1 → occ n (add_node m ns) ≤ 1
unfolding add_node occ
add_node-once m n ns h = ground (
  arith,
  h,
  occ-append n ns (m ∷ []),
  occ_iff m ns,
  text_eq_iff n m,
  λ (e : text_eq n m ≡ true). ap (λ k. occ k ns) ((text_eq_iff n m).0 e),
)

text_in-add_node :
    (m n : Text) (ns : List Text) → text_in n (add_node m ns) ≡ (text_in n ns || text_eq n m)
unfolding add_node text_in
text_in-add_node m n ns = ground (
  arith,
  text_in-append n ns (m ∷ []),
  λ (e : text_eq n m ≡ true). ap (λ k. text_in k ns) ((text_eq_iff n m).0 e),
)

add_nodes-once : (n : Text) (ms ns : List Text) → occ n ns ≤ 1 → occ n (add_nodes ms ns) ≤ 1
unfolding add_nodes
add_nodes-once n [] ns h = h
add_nodes-once n (m ∷ ms) ns h = add_nodes-once n ms (add_node m ns) (add_node-once m n ns h)

text_in-add_nodes :
    (n : Text) (ms ns : List Text) → text_in n (add_nodes ms ns) ≡ (text_in n ns || text_in n ms)
unfolding add_nodes text_in
text_in-add_nodes n [] ns = ground arith
text_in-add_nodes n (m ∷ ms) ns =
    ground (arith, text_in-add_nodes n ms (add_node m ns), text_in-add_node m n ns)

pub all_nodes-once :
    (n : Text) (g : Graph) (ns : List Text) → occ n ns ≤ 1 → occ n (all_nodes g ns) ≤ 1
unfolding all_nodes
all_nodes-once n [] ns h = h
all_nodes-once n ((node, deps) ∷ g) ns h =
    all_nodes-once n g (add_nodes deps (add_node node ns))
      (add_nodes-once n deps (add_node node ns) (add_node-once node n ns h))

-- Whether a name stands among the dependencies of some entry.
unfoldable pub is_dep : Text → Graph → Bool
is_dep n [] = false
is_dep n ((node, deps) ∷ g) = text_in n deps || is_dep n g

pub text_in-all_nodes :
    (n : Text) (g : Graph) (ns : List Text)
    → text_in n (all_nodes g ns) ≡ (text_in n ns || (text_in n (keys g) || is_dep n g))
unfolding all_nodes text_in keys is_dep
text_in-all_nodes n [] ns = ground arith
text_in-all_nodes n ((node, deps) ∷ g) ns = ground (
  arith,
  text_in-all_nodes n g (add_nodes deps (add_node node ns)),
  text_in-add_nodes n deps (add_node node ns),
  text_in-add_node node n ns,
)
