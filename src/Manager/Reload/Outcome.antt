-- ===== src/Manager/Reload/Outcome.antt =====
-- cmd/gosupervisor/main.go: what `reloadConfiguration` leaves of each process.
use gosupervisor.Prelude.{
  ◌≡◌, ◌≢◌, refl, ap, sym, ◌∙◌, inl, inr, Bool, true, List, [], Option, none, some, arith,
  if◌then◌else◌, Text, text_in, lookup, keys, IsMap, Bool-cases,
}
use gosupervisor.Process.{ProgramConfig, Process}
use gosupervisor.Manager.{ProcessManager, compare_configs}
use gosupervisor.Manager.Diff.{change_of, is_added, is_removed, is_modified, compare_configs-change}
use gosupervisor.Manager.Batch.{Env}
use gosupervisor.Manager.Batch.Outcome.{occ-sort_by_priority}
use gosupervisor.Manager.Sort.{
  SortResult, sorted, circular, out_of_fuel, topological_sort, sort_by_priority,
}
use gosupervisor.Manager.Sort.Counting.{occ_iff}
use gosupervisor.Manager.Sort.Graphs.{Depends, IsClosed}
use gosupervisor.Manager.Sort.Ending.{Knot}
use gosupervisor.Manager.Sort.Order.{
  topological_sort-sorted, topological_sort-outside, topological_sort_ends,
}
use gosupervisor.Manager.Reload.{
  Step, remove_each, replace_each, add_each, mod_dep_graph, mod_ordered, reload_configuration,
}
use gosupervisor.Manager.Reload.Steps.{
  fresh, remove_each_lem, replace_each_lem, add_each_lem, keys-mod_dep_graph, mod_dep_graph-IsMap,
}

-- What a reload is to make of the process of a name, given the process and the new configuration.
pub reconciled :
    (same : ProgramConfig → ProgramConfig → Bool)
    → Env
    → Text
    → Option Process
    → Option ProgramConfig
    → Option Process
reconciled same env k old none = none
reconciled same env k none (some cfg) = some (fresh env k cfg)
reconciled same env k (some p) (some cfg) =
    if same p.config cfg then some p else some (fresh env k cfg)

module _ (cfgs : List (Text × ProgramConfig)) (modified : List Text)
    (known : (m : Text) → text_in m modified ≡ true → lookup m cfgs ≢ none)
    (ps : List (Text × Process)) (acyclic : ¬ Knot (Depends (mod_dep_graph cfgs modified))) where
  closed :
      (names : List Text)
      → topological_sort (sort_by_priority ps) (mod_dep_graph cfgs modified) ≡ sorted names
      → IsClosed (mod_dep_graph cfgs modified)
  closed names e n c dep = elim (Bool-cases (text_in c (keys (mod_dep_graph cfgs modified)))) [
    | inl here ↦ here
    | inr out ↦
        let bad =
          topological_sort-outside (sort_by_priority ps) (mod_dep_graph cfgs modified) n c
            (occ-sort_by_priority ps) (mod_dep_graph-IsMap cfgs modified) dep out acyclic in
        cc
  ]

  ordered :
      (r : SortResult) (k : Text)
      → topological_sort (sort_by_priority ps) (mod_dep_graph cfgs modified) ≡ r
      → text_in k (mod_ordered r modified) ≡ text_in k modified
  unfolding mod_ordered
  ordered (sorted names) k e =
      let all =
        (topological_sort-sorted (sort_by_priority ps) (mod_dep_graph cfgs modified) names
            (occ-sort_by_priority ps) (mod_dep_graph-IsMap cfgs modified) (closed names e) e).0
          k in
      ground (arith, all, occ_iff k names, keys-mod_dep_graph cfgs modified k known)
  ordered circular k e = refl
  ordered out_of_fuel k e = absurd (
      topological_sort_ends (sort_by_priority ps) (mod_dep_graph cfgs modified)
        (occ-sort_by_priority ps) (mod_dep_graph-IsMap cfgs modified) e)

has_config :
    (same : ProgramConfig → ProgramConfig → Bool) (old : Option Process)
    (new : Option ProgramConfig)
    → (is_added (change_of same old new) ≡ true → new ≢ none)
      × (is_modified (change_of same old new) ≡ true → new ≢ none)
unfolding change_of
has_config same none none = ((λ e. cc), (λ e. cc))
has_config same (some p) none = ((λ e. cc), (λ e. cc))
has_config same old (some cfg) = ((λ e f. cc), (λ e f. cc))

-- The three loops at a name.
pieces :
    (same : ProgramConfig → ProgramConfig → Bool) (env : Env) (k : Text) (old : Option Process)
    (new : Option ProgramConfig)
    → (if is_added (change_of same old new)
        then elim new [ none ↦ none | some cfg ↦ some (fresh env k cfg) ]
        else if is_modified (change_of same old new)
        then elim new [ none ↦ none | some cfg ↦ some (fresh env k cfg) ]
        else if is_removed (change_of same old new)
        then none
        else old)
      ≡ reconciled same env k old new
unfolding change_of reconciled
pieces same env k none none = refl
pieces same env k none (some cfg) = refl
pieces same env k (some p) none = refl
pieces same env k (some p) (some cfg) = ground arith

reload_runs :
    (same : ProgramConfig → ProgramConfig → Bool) (env : Env) (cfgs : List (Text × ProgramConfig))
    (pm : ProcessManager) (mid after : Step)
    → let (added, removed, modified) = compare_configs same cfgs pm in
      let s = remove_each env removed (record { manager = pm; told = [] }) in
      let r =
        topological_sort (sort_by_priority s.manager.processes) (mod_dep_graph cfgs modified) in
      replace_each env cfgs (mod_ordered r modified) s ≡ some mid
      → add_each env cfgs (compare_configs same cfgs pm).0 mid ≡ some after
      → reload_configuration same env cfgs pm ≡ some after
unfolding reload_configuration
reload_runs same env cfgs pm mid after is is' =
    let rest : Option Step → Option Step =
      λ o. elim o [ none ↦ none | some s ↦ add_each env cfgs (compare_configs same cfgs pm).0 s ] in
    ap rest is ∙ is'

-- Of two maps whose configurations stand under their own names, a reload without a cycle among the
-- modified programs ends without a panic, and leaves under each name what the maps alone say:
-- nothing where there is no new configuration; the process as it was where the configuration is the
-- same; and else a process made anew from the new configuration, started if that says so.
pub reload_configuration-reconciled :
    (same : ProgramConfig → ProgramConfig → Bool) (env : Env) (cfgs : List (Text × ProgramConfig))
    (pm : ProcessManager)
    → IsMap cfgs
    → IsMap pm.processes
    → ((k : Text) (cfg : ProgramConfig) → lookup k cfgs ≡ some cfg → cfg.name ≡ k)
    → ¬ Knot (Depends (mod_dep_graph cfgs (compare_configs same cfgs pm).2))
    → (after : Step) × (reload_configuration same env cfgs pm ≡ some after)
      × ((k : Text)
          → lookup k after.manager.processes
            ≡ reconciled same env k (lookup k pm.processes) (lookup k cfgs))
reload_configuration-reconciled same env cfgs pm new old named acyclic =
    let (added, removed, modified) = compare_configs same cfgs pm in
    let known_added : (m : Text) → text_in m added ≡ true → lookup m cfgs ≢ none = λ m h.
      (has_config same (lookup m pm.processes) (lookup m cfgs)).0
        (sym (compare_configs-change same cfgs pm m new old).0 ∙ h) in
    let known_modified : (m : Text) → text_in m modified ≡ true → lookup m cfgs ≢ none = λ m h.
      (has_config same (lookup m pm.processes) (lookup m cfgs)).1
        (sym (compare_configs-change same cfgs pm m new old).2 ∙ h) in
    let s = remove_each env removed (record { manager = pm; told = [] }) in
    let r = topological_sort (sort_by_priority s.manager.processes) (mod_dep_graph cfgs modified) in
    let order = mod_ordered r modified in
    let same_names : (k : Text) → text_in k order ≡ text_in k modified =
      λ k. ordered cfgs modified known_modified s.manager.processes acyclic r k refl in
    let (mid, is, at_mid) =
      replace_each_lem env cfgs named order s (λ m h. known_modified m (sym (same_names m) ∙ h)) in
    let (after, is', at_after) = add_each_lem env cfgs named added mid known_added in
    (
      after,
      reload_runs same env cfgs pm mid after is is',
      λ k.
          let gone = remove_each_lem env removed k (record { manager = pm; told = [] }) in
          let p = pieces same env k (lookup k pm.processes) (lookup k cfgs) in
          ground (
            arith,
            at_after k,
            at_mid k,
            same_names k,
            compare_configs-change same cfgs pm k new old,
            gone,
            p,
          ),
    )
