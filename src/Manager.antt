-- ===== src/Manager.antt =====
-- internal/process/process.go: `ProcessManager` as a map of processes. The lock makes each method
-- one step; the logger and the sockets of the struct are not read by these methods.
pub mod Diff
pub mod Sort
pub mod Batch
pub mod Group
pub mod Names
pub mod Saved
pub mod Reload
use gosupervisor.Prelude.{
  ℕ, Bool, true, false, List, [], ◌∷◌, Option, none, some, Text, lookup, insert, delete, length,
  if◌then◌else◌,
}
use gosupervisor.Process.{ProgramConfig, Process, new_process}

pub record ProcessManager : Type 0 where
  pub processes : List (Text × Process)

unfoldable pub new_process_manager : ProcessManager
new_process_manager = record { processes = [] }

unfoldable pub add_process : ProgramConfig → ProcessManager → ProcessManager
add_process cfg pm = record { processes = insert cfg.name (new_process cfg) pm.processes }

unfoldable pub remove_process : Text → ProcessManager → ProcessManager
remove_process name pm = record { processes = delete name pm.processes }

unfoldable pub replace_processes : List (Text × Process) → ProcessManager → ProcessManager
replace_processes new_map pm = record { processes = new_map }

unfoldable pub get_process : Text → ProcessManager → Option Process
get_process name pm = lookup name pm.processes

unfoldable pub len : ProcessManager → ℕ
len pm = length pm.processes

-- The first loop of `CompareConfigs`.
unfoldable pub removed_names : List (Text × ProgramConfig) → List (Text × Process) → List Text
removed_names new_configs [] = []
removed_names new_configs ((name, p) ∷ ps) = elim (lookup name new_configs) [
  | none ↦ name ∷ removed_names new_configs ps
  | some cfg ↦ removed_names new_configs ps
]

-- The second loop: the added names and the modified ones. `same` is `reflect.DeepEqual`.
unfoldable pub added_modified :
    (same : ProgramConfig → ProgramConfig → Bool)
    → List (Text × Process)
    → List (Text × ProgramConfig)
    → List Text × List Text
added_modified same ps [] = ([], [])
added_modified same ps ((name, cfg) ∷ cfgs) =
    let (added, modified) = added_modified same ps cfgs in
    elim (lookup name ps) [
      | none ↦ (name ∷ added, modified)
      | some p ↦ if same p.config cfg then (added, modified) else (added, name ∷ modified)
    ]

unfoldable pub compare_configs :
    (same : ProgramConfig → ProgramConfig → Bool)
    → List (Text × ProgramConfig)
    → ProcessManager
    → List Text × List Text × List Text
unfolding removed_names added_modified
compare_configs same new_configs pm =
    let (added, modified) = added_modified same pm.processes new_configs in
    (added, removed_names new_configs pm.processes, modified)
