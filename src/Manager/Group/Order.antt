-- ===== src/Manager/Group/Order.antt =====
-- internal/process/process.go: the order that `topologicalSortForGroup` returns.
use gosupervisor.Prelude.{
  ℕ, ◌≤◌, ◌<◌, ◌≡◌, ◌⊎◌, inl, inr, refl, ap, sym, subst, ◌∙◌, true, List, [], ◌∷◌, ◌++◌, none, some,
  arith, if◌then◌else◌, length, Text, text_eq, text_in, lookup, IsMap, Option-cases,
}
use gosupervisor.Process.{Process}
use gosupervisor.Manager.Sort.{Graph, neighbors, link, no_degrees, zero_degree}
use gosupervisor.Manager.Sort.Counting.{occ, occ_iff, occ-zero_degree, find_missing, open-zero}
use gosupervisor.Manager.Sort.Graphs.{Depends, linked, edge_iff, keys-once, key_of_edge}
use gosupervisor.Manager.Sort.Loop.{Inv, IsOrdered, remaining-nil}
use gosupervisor.Manager.Sort.Ending.{Knot, edges_of, prefix_done, left_over}
use gosupervisor.Manager.Group.{
  in_group, deps_within, group_graph, append_missing, group_result, topological_sort_for_group,
}
use gosupervisor.Manager.Group.Loop.{group_kahn_ends}
use gosupervisor.Manager.Group.Members.{
  is_member, Needs, text_in-in_group, keys-group, text_in-deps_within, lookup-group,
  group_graph-IsMap, append_missing_lem, append_missing-all,
}

module _ (group : Text) (ps : List (Text × Process)) (map : IsMap ps) where
  abbrev members : List Text
  members = in_group group ps

  abbrev graph : Graph
  graph = group_graph group members ps

  graph-IsMap : IsMap graph
  graph-IsMap = group_graph-IsMap group members ps map

  members_once : (n : Text) → occ n members ≤ 1
  members_once n =
      ground (arith, keys-once graph n graph-IsMap, ap (occ n) (keys-group group members ps))

  Depends-Needs : (n c : Text) → Depends graph n c → Needs group ps n c
  Depends-Needs n c (deps, found, is) = elim (Option-cases (lookup n ps)) [
    | inl e ↦ ground (arith, lookup-group group n members ps map, e, found)
    | inr (p, e) ↦
        let look : lookup n graph ≡ (
            if text_eq p.config.group group
            then some (deps_within members p.config.depends_on)
            else none) =
          lookup-group group n members ps map ∙ (rw e refl) in
        let same : (text_eq p.config.group group ≡ true)
            × (deps_within members p.config.depends_on ≡ deps) =
          ground (arith, look, found) in
        let both =
          sym (text_in-deps_within members p.config.depends_on c) ∙ ap (text_in c) same.1 ∙ is in
        record {
          process = p;
          there = e;
          on = ground (arith, both);
          member = unfold is_member in ground (arith, e, same.0);
          dep_member = ground (arith, both, text_in-in_group group c ps map);
        }
  ]

  Needs-Depends : (n c : Text) → Needs group ps n c → Depends graph n c
  Needs-Depends n c need =
      let p = need.process in
      let own : text_eq p.config.group group ≡ true =
        let m = need.member in unfold is_member in ground (arith, m, need.there) in
      (
        deps_within members p.config.depends_on,
        lookup-group group n members ps map ∙ (rw (need.there, own) refl),
        ground (
          arith,
          text_in-deps_within members p.config.depends_on c,
          need.on,
          need.dep_member,
          text_in-in_group group c ps map,
        ),
      )

  among : (c n : Text) → 0 < occ n (neighbors c (edges_of graph)) → occ n members ≡ 1
  among c n p = ground (
    arith,
    members_once n,
    occ_iff n members,
    key_of_edge graph n c ((edge_iff graph n c graph-IsMap).0 p),
    ap (text_in n) (keys-group group members ps),
  )

  deps_among : (n c : Text) → Depends graph n c → text_in c members ≡ true
  deps_among n c dep = text_in-in_group group c ps map ∙ (Depends-Needs n c dep).dep_member

  module _ (sort : List Text → List Text)
      (permutes : (n : Text) (xs : List Text) → occ n (sort xs) ≡ occ n xs) where
    abbrev Ended : (Text → ℕ) → List Text → Type 0
    Ended d result = Inv sort permutes members members_once (edges_of graph) among d [] result

    group_ends :
        (d : Text → ℕ) × (result : List Text) × (topological_sort_for_group sort group ps
          ≡ append_missing members result)
        × Ended d result
    unfolding topological_sort_for_group
    group_ends =
        let d = (link graph no_degrees).in_degree in
        let first : Inv sort permutes members members_once (edges_of graph) among d
            (sort (zero_degree d members)) [] =
          record {
            degrees = λ n. linked graph n graph-IsMap;
            placed = λ n.
                unfold occ in
                ground (arith, permutes n (zero_degree d members), occ-zero_degree d n members);
            ordered = unfold IsOrdered in tt;
          } in
        let (d', result, e, i) =
          group_kahn_ends sort permutes members members_once (edges_of graph) among (length members)
            d (sort (zero_degree d members)) [] first (omega (arith, remaining-nil members)) in
        (d', result, ap (group_result sort members) e ∙ (unfold group_result in refl), i)

    counts :
        (d : Text → ℕ) (result : List Text)
        → Ended d result
        → (n : Text)
        → occ n (append_missing members result) ≡ (if is_member group ps n then 1 else 0)
    unfolding occ
    counts d result i n = ground (
      arith,
      append_missing_lem members result n (members_once n),
      i.placed n,
      members_once n,
      text_in-in_group group n ps map,
      occ_iff n members,
      occ_iff n result,
    )

    in_order :
        (d : Text → ℕ) (result : List Text)
        → Ended d result
        → Knot (Needs group ps)
          ⊎ ((pre post : List Text) (n c : Text)
              → append_missing members result ≡ pre ++ n ∷ post
              → Needs group ps n c
              → text_in c pre ≡ true)
    in_order d result i = elim (find_missing members result) [
      | inl all ↦ inr (λ pre post n c split need.
          open-zero (edges_of graph) pre n c
            (prefix_done (edges_of graph) [] pre post n (
              subst (λ r. IsOrdered (edges_of graph) [] r)
                (sym (append_missing-all members result all) ∙ split) i.ordered))
            ((edge_iff graph n c graph-IsMap).1 (Needs-Depends n c need)))
      | inr (m, mem, gone) ↦
          let knot =
            left_over sort permutes graph graph-IsMap members members_once among deps_among d result
              i m mem gone in
          inl (record {
            members = knot.members;
            one = knot.one;
            inside = knot.inside;
            each =
                λ n here. let (c, dep, also) = knot.each n here in (c, Depends-Needs n c dep, also);
          })
    ]

-- For any order of the names of a queue, the sort of a group ends and returns each member of the
-- group once and no other name, a cycle among the dependencies or not. Either it returns before each
-- member all the members that it depends on, or there are members each of which depends on one of
-- them.
pub topological_sort_for_group-order :
    (sort : List Text → List Text) (group : Text) (ps : List (Text × Process))
    → ((n : Text) (xs : List Text) → occ n (sort xs) ≡ occ n xs)
    → IsMap ps
    → let result = topological_sort_for_group sort group ps in
      ((n : Text) → occ n result ≡ (if is_member group ps n then 1 else 0))
      × (Knot (Needs group ps)
          ⊎ ((pre post : List Text) (n c : Text)
              → result ≡ pre ++ n ∷ post
              → Needs group ps n c
              → text_in c pre ≡ true))
topological_sort_for_group-order sort group ps permutes map =
    let (d, result, e, i) = group_ends group ps map sort permutes in
    rw e
      (counts group ps map sort permutes d result i, in_order group ps map sort permutes d result i)
