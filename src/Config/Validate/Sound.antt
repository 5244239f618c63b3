-- ===== src/Config/Validate/Sound.antt =====
-- internal/config/config.go: what a configuration without warnings is.
use gosupervisor.Prelude.{
  ◌≡◌, ◌≢◌, ◌⊎◌, inl, inr, refl, ap, sym, ◌∙◌, true, ◌||◌, List, [], ◌∷◌, ◌++◌, none, some, arith,
  if◌then◌else◌, Text, text_eq, text_eq_iff, text_in, lookup, keys, IsMap, Bool-cases, Option-cases,
}
use gosupervisor.Manager.Sort.{Graph, SortResult, topological_sort, sorted, circular, out_of_fuel}
use gosupervisor.Manager.Sort.Counting.{occ}
use gosupervisor.Manager.Sort.Graphs.{Depends, IsClosed, lookup-keys}
use gosupervisor.Manager.Sort.Ending.{Knot}
use gosupervisor.Manager.Sort.Order.{topological_sort-sorted, topological_sort_circular_iff}
use gosupervisor.Config.Cycle.{find_dependency_cycle}
use gosupervisor.Config.Cycle.Correct.{find_dependency_cycle_branches}
use gosupervisor.Config.Validate.Merge.{
  lookup-merge_programs, merge_programs-IsMap, lookup-dependencies, dependencies-IsMap,
}
use gosupervisor.Config.Validate.{
  Program, Config, Warning, warn_if, check_depends_on, check_programs, check_listeners,
  check_fcgi_depends_on, check_fcgi_programs, merge_programs, all_programs, dependencies,
  cycle_warning, validate_config, is_odd, check_socket,
}

append_nil : (xs ys : List Warning) → xs ++ ys ≡ [] → (xs ≡ []) × (ys ≡ [])
append_nil [] ys h = (refl, h)
append_nil (x ∷ xs) ys h = cc h

check_depends_on_lem :
    (programs : List Text) (name : Text) (deps : List Text) (c : Text)
    → check_depends_on programs name deps ≡ []
    → text_in c deps ≡ true
    → text_in c programs ≡ true
unfolding check_depends_on text_in warn_if
check_depends_on_lem programs name [] c h is = cc is
check_depends_on_lem programs name (dep ∷ deps) c h is = ground (
  arith,
  h,
  is,
  check_depends_on_lem programs name deps c,
  λ (e : text_eq c dep ≡ true). ap (λ k. text_in k programs) ((text_eq_iff c dep).0 e),
)

check_programs_lem :
    (programs : List Text) (ps : List (Text × Program)) (n c : Text) (p : Program)
    → check_programs programs ps ≡ []
    → lookup n ps ≡ some p
    → text_in c p.depends_on ≡ true
    → text_in c programs ≡ true
unfolding check_programs lookup
check_programs_lem programs [] n c p h found is = cc found
check_programs_lem programs ((name, q) ∷ rest) n c p h found is =
    let (a, h1) = append_nil (warn_if (text_eq q.command []) (Warning.no_command name)) _ h in
    let (b, h2) = append_nil (check_depends_on programs name q.depends_on) _ h1 in
    let (d, h3) = append_nil (warn_if (text_eq q.name []) (Warning.no_name name)) _ h2 in
    let (f, h4) =
      append_nil (warn_if (is_odd q.stop_signal) (Warning.odd_signal name q.stop_signal)) _ h3 in
    elim (Bool-cases (text_eq name n)) [
      | inl e ↦
          let same : q ≡ p = ground (arith, e, found) in
          check_depends_on_lem programs name q.depends_on c b
            (ap (λ r. text_in c r.depends_on) same ∙ is)
      | inr e ↦ check_programs_lem programs rest n c p h4 (ground (arith, e, found)) is
    ]

check_fcgi_depends_on_lem :
    (programs fcgi : List Text) (name : Text) (deps : List Text) (c : Text)
    → check_fcgi_depends_on programs fcgi name deps ≡ []
    → text_in c deps ≡ true
    → (text_in c programs ≡ true) ⊎ (text_in c fcgi ≡ true)
unfolding check_fcgi_depends_on text_in warn_if
check_fcgi_depends_on_lem programs fcgi name [] c h is = cc is
check_fcgi_depends_on_lem programs fcgi name (dep ∷ deps) c h is = ground (
  arith,
  h,
  is,
  check_fcgi_depends_on_lem programs fcgi name deps c,
  λ (e : text_eq c dep ≡ true). ap (λ k. text_in k programs) ((text_eq_iff c dep).0 e),
  λ (e : text_eq c dep ≡ true). ap (λ k. text_in k fcgi) ((text_eq_iff c dep).0 e),
)

check_fcgi_programs_lem :
    (programs fcgi : List Text) (ps : List (Text × Program)) (n c : Text) (p : Program)
    → check_fcgi_programs programs fcgi ps ≡ []
    → lookup n ps ≡ some p
    → text_in c p.depends_on ≡ true
    → (text_in c programs ≡ true) ⊎ (text_in c fcgi ≡ true)
unfolding check_fcgi_programs lookup
check_fcgi_programs_lem programs fcgi [] n c p h found is = cc found
check_fcgi_programs_lem programs fcgi ((name, q) ∷ rest) n c p h found is =
    let (a, h1) = append_nil (check_socket name q.socket) _ h in
    let (b, h2) = append_nil (warn_if (text_eq q.command []) (Warning.fcgi_no_command name)) _ h1 in
    let (d, h3) = append_nil (check_fcgi_depends_on programs fcgi name q.depends_on) _ h2 in
    elim (Bool-cases (text_eq name n)) [
      | inl e ↦
          let same : q ≡ p = ground (arith, e, found) in
          check_fcgi_depends_on_lem programs fcgi name q.depends_on c d
            (ap (λ r. text_in c r.depends_on) same ∙ is)
      | inr e ↦ check_fcgi_programs_lem programs fcgi rest n c p h3 (ground (arith, e, found)) is
    ]

record Parts (c : Config) : Type 0 where
  programs_ok : check_programs (keys c.programs) c.programs ≡ []
  fcgi_ok : check_fcgi_programs (keys c.programs) (keys c.fcgi_programs) c.fcgi_programs ≡ []
  acyclic : cycle_warning (find_dependency_cycle (dependencies (all_programs c))) ≡ []

parts : (c : Config) → validate_config c ≡ [] → Parts c
unfolding validate_config
parts c h =
    let (a, h1) = append_nil (check_programs (keys c.programs) c.programs) _ h in
    let (b, h2) = append_nil (check_listeners c.event_listeners) _ h1 in
    let (d, h3) =
      append_nil (check_fcgi_programs (keys c.programs) (keys c.fcgi_programs) c.fcgi_programs) _
        h2 in
    record { programs_ok = a; fcgi_ok = d; acyclic = h3 }

module _ (c : Config) (map : IsMap c.programs) (fcgi_map : IsMap c.fcgi_programs) where
  lookup-all_programs :
      (k : Text)
      → lookup k (all_programs c)
        ≡ elim (lookup k c.fcgi_programs) [ none ↦ lookup k c.programs | some p ↦ some p ]
  unfolding all_programs
  lookup-all_programs k =
      let h = lookup-merge_programs (merge_programs [] c.programs) c.fcgi_programs k fcgi_map in
      let e = lookup-merge_programs [] c.programs k map in unfold lookup in ground (arith, h, e)

  all_programs-IsMap : IsMap (all_programs c)
  unfolding all_programs
  all_programs-IsMap =
      merge_programs-IsMap (merge_programs [] c.programs) c.fcgi_programs
        (merge_programs-IsMap [] c.programs tt)

  in_all :
      (k : Text)
      → text_in k (keys (dependencies (all_programs c)))
        ≡ (text_in k (keys c.programs) || text_in k (keys c.fcgi_programs))
  in_all k = ground (
    arith,
    lookup-all_programs k,
    lookup-dependencies (all_programs c) k,
    lookup-keys k c.programs,
    lookup-keys k c.fcgi_programs,
    lookup-keys k (dependencies (all_programs c)),
  )

  -- Without warnings every dependency is a program.
  validate_config-IsClosed : validate_config c ≡ [] → IsClosed (dependencies (all_programs c))
  validate_config-IsClosed h n d (deps, found, is) =
      let ok = parts c h in
      elim (Option-cases (lookup n c.fcgi_programs)) [
        | inl e ↦ elim (Option-cases (lookup n c.programs)) [
          | inl e' ↦
              ground
                (arith, found, lookup-dependencies (all_programs c) n, lookup-all_programs n, e, e')
          | inr (p, e') ↦
              let same : p.depends_on ≡ deps = ground (
                arith,
                found,
                lookup-dependencies (all_programs c) n,
                lookup-all_programs n,
                e,
                e',
              ) in
              let known =
                check_programs_lem (keys c.programs) c.programs n d p ok.programs_ok e'
                  (ap (text_in d) same ∙ is) in
              ground (arith, known, in_all d)
        ]
        | inr (p, e) ↦
            let same : p.depends_on ≡ deps =
              ground
                (arith, found, lookup-dependencies (all_programs c) n, lookup-all_programs n, e) in
            let known =
              check_fcgi_programs_lem (keys c.programs) (keys c.fcgi_programs) c.fcgi_programs n d p
                ok.fcgi_ok e (ap (text_in d) same ∙ is) in
            ground (arith, known, in_all d)
      ]

  validate_config-Knot : validate_config c ≡ [] → ¬ Knot (Depends (dependencies (all_programs c)))
  unfolding cycle_warning
  validate_config-Knot h = elim (find_dependency_cycle_branches (dependencies (all_programs c))) [
    | inl (after, free) ↦ free
    | inr (a, b, e, dep, knot) ↦ cc (ap cycle_warning (sym e) ∙ (parts c h).acyclic)
  ]

sorted_or :
    (sort : List Text → List Text) (graph : Graph) (r : SortResult)
    → topological_sort sort graph ≡ r
    → r ≢ circular
    → r ≢ out_of_fuel
    → (result : List Text) × (topological_sort sort graph ≡ sorted result)
sorted_or sort graph (sorted result) e a b = (result, e)
sorted_or sort graph circular e a b = absurd (a refl)
sorted_or sort graph out_of_fuel e a b = absurd (b refl)

-- For any order in which equal priorities are left: where the validation of a configuration has no
-- warnings, the sort of the dependencies of all its programs returns names, each program once and
-- nothing else, and before each name stands all that it depends on.
pub validate_config-topological_sort :
    (sort : List Text → List Text) (c : Config)
    → ((n : Text) (xs : List Text) → occ n (sort xs) ≡ occ n xs)
    → IsMap c.programs
    → IsMap c.fcgi_programs
    → validate_config c ≡ []
    → (result : List Text) × (topological_sort sort (dependencies (all_programs c)) ≡ sorted result)
      × ((n : Text)
          → occ n result
            ≡ (if text_in n (keys c.programs) || text_in n (keys c.fcgi_programs) then 1 else 0))
      × ((pre post : List Text) (n d : Text)
          → result ≡ pre ++ n ∷ post
          → Depends (dependencies (all_programs c)) n d
          → text_in d pre ≡ true)
validate_config-topological_sort sort c permutes map fcgi_map h =
    let graph = dependencies (all_programs c) in
    let gmap = dependencies-IsMap (all_programs c) (all_programs-IsMap c map fcgi_map) in
    let closed = validate_config-IsClosed c map fcgi_map h in
    let (ends, iff) = topological_sort_circular_iff sort graph permutes gmap closed in
    let (result, e) =
      sorted_or sort graph (topological_sort sort graph) refl
        (λ bad. validate_config-Knot c map fcgi_map h (iff.0 bad)) ends in
    let (once, order) = topological_sort-sorted sort graph result permutes gmap closed e in
    (result, e, (λ n. once n ∙ ap (λ t. if t then 1 else 0) (in_all c map fcgi_map n)), order)
