-- ===== src/Manager/Reload.antt =====
-- cmd/gosupervisor/main.go: `reloadConfiguration` from the expanded configurations on, up to the
-- processes it leaves. `same` is `reflect.DeepEqual`; what each call meets outside is given for each
-- name. What is logged is left out, and the cancelling of a context that no modelled method reads.
pub mod Steps
pub mod Outcome
use gosupervisor.Prelude.{
  ℕ, Bool, true, false, List, [], ◌∷◌, ◌++◌, Option, none, some, Text, lookup, insert,
  if◌then◌else◌,
}
use gosupervisor.Process.{ProgramConfig, Process, Effect}
use gosupervisor.Process.Start.{start}
use gosupervisor.Process.Stop.{stop}
use gosupervisor.Manager.{ProcessManager, add_process, remove_process, get_process, compare_configs}
use gosupervisor.Manager.Batch.{Env}
use gosupervisor.Manager.Sort.{
  Graph, SortResult, sorted, circular, out_of_fuel, topological_sort, sort_by_priority,
}

-- The manager, and what was told, of whom, in order.
pub record Step : Type 0 where
  pub manager : ProcessManager
  pub told : List (Text × List Effect)

-- The body of the first loop, which the second begins with.
unfoldable pub stop_and_remove : Env → Text → Step → Step
stop_and_remove env name s = record {
  manager = remove_process name s.manager;
  told = s.told ++ elim (get_process name s.manager) [
    | none ↦ []
    | some p ↦ (name, (stop (env.halt name) p).1) ∷ []
  ];
}

unfoldable pub remove_each : Env → List Text → Step → Step
unfolding stop_and_remove
remove_each env [] s = s
remove_each env (name ∷ names) s = remove_each env names (stop_and_remove env name s)

-- `AddProcess`, and `Start` where the configuration says so.
unfoldable pub add_and_start : Env → Text → ProgramConfig → Step → Step
add_and_start env name cfg s =
    let pm = add_process cfg s.manager in
    if cfg.auto_start
    then elim (get_process name pm) [
      | none ↦ record { manager = pm; told = s.told }
      | some p ↦
          let (q, told, e) = start (env.launch name) p in
          record {
            manager = record { processes = insert name q pm.processes };
            told = s.told ++ (name, told) ∷ [];
          }
    ]
    else (record { manager = pm; told = s.told })

-- `none` where the code meets a configuration that is not there, and panics.
unfoldable pub replace_each : Env → List (Text × ProgramConfig) → List Text → Step → Option Step
unfolding stop_and_remove add_and_start
replace_each env new_configs [] s = some s
replace_each env new_configs (name ∷ names) s = elim (lookup name new_configs) [
  | none ↦ none
  | some cfg ↦
      replace_each env new_configs names (add_and_start env name cfg (stop_and_remove env name s))
]

unfoldable pub add_each : Env → List (Text × ProgramConfig) → List Text → Step → Option Step
unfolding add_and_start
add_each env new_configs [] s = some s
add_each env new_configs (name ∷ names) s = elim (lookup name new_configs) [
  | none ↦ none
  | some cfg ↦ add_each env new_configs names (add_and_start env name cfg s)
]

-- Each name comes from `newConfigs`, so that it has a configuration there.
unfoldable pub mod_dep_graph : List (Text × ProgramConfig) → List Text → Graph
mod_dep_graph new_configs [] = []
mod_dep_graph new_configs (name ∷ names) = elim (lookup name new_configs) [
  | none ↦ mod_dep_graph new_configs names
  | some cfg ↦ insert name cfg.depends_on (mod_dep_graph new_configs names)
]

unfoldable pub mod_ordered : SortResult → List Text → List Text
mod_ordered (sorted names) modified = names
mod_ordered circular modified = modified
mod_ordered out_of_fuel modified = []

unfoldable pub reload_configuration :
    (same : ProgramConfig → ProgramConfig → Bool)
    → Env
    → List (Text × ProgramConfig)
    → ProcessManager
    → Option Step
unfolding remove_each replace_each add_each mod_dep_graph mod_ordered
reload_configuration same env new_configs pm =
    let (new, removed, modified) = compare_configs same new_configs pm in
    let s = remove_each env removed (record { manager = pm; told = [] }) in
    let order =
      mod_ordered
        (topological_sort (sort_by_priority s.manager.processes)
          (mod_dep_graph new_configs modified))
        modified in
    elim (replace_each env new_configs order s) [
      | none ↦ none
      | some after ↦ add_each env new_configs new after
    ]
