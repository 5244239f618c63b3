-- ===== src/Manager/Batch.antt =====
-- internal/process/process.go: `StartAll` and `StopAll`. What each `Start` and `Stop` meets outside
-- is given for each name. The lines that are printed are left out.
pub mod Each
pub mod Outcome
use gosupervisor.Prelude.{
  ℕ, Bool, true, false, ◌||◌, List, [], ◌∷◌, ◌++◌, Option, none, some, Text, lookup, insert,
  if◌then◌else◌,
}
use gosupervisor.Process.{
  ProcessState, stopped, starting, running, exited, fatal, state_eq, Process, Effect,
}
use gosupervisor.Process.Start.{Launch, start}
use gosupervisor.Process.Stop.{Halt, stop}
use gosupervisor.Manager.{ProcessManager}
use gosupervisor.Manager.Sort.{
  Graph, SortResult, sorted, circular, out_of_fuel, topological_sort, sort_by_priority,
}

pub record Env : Type 0 where
  pub launch : Text → Launch
  pub halt : Text → Halt

-- What a batch leaves: the processes, the names that failed, and what was told, of whom, in order.
pub record Batch : Type 0 where
  pub processes : List (Text × Process)
  pub failed : List Text
  pub told : List (Text × List Effect)

-- The names of two processes differ, as they are the keys of the map.
unfoldable pub dependency_graph : List (Text × Process) → Graph
dependency_graph [] = []
dependency_graph ((key, p) ∷ ps) = (p.name, p.config.depends_on) ∷ dependency_graph ps

unfoldable pub process_names : List (Text × Process) → List Text
process_names [] = []
process_names ((key, p) ∷ ps) = p.name ∷ process_names ps

-- The order of the sort, or that of the map where the sort fails.
unfoldable pub batch_order : SortResult → List (Text × Process) → List Text
unfolding process_names
batch_order (sorted names) ps = names
batch_order circular ps = process_names ps
batch_order out_of_fuel ps = []

unfoldable pub ordered_processes : List (Text × Process) → List Text
unfolding batch_order dependency_graph
ordered_processes ps = batch_order (topological_sort (sort_by_priority ps) (dependency_graph ps)) ps

unfoldable pub start_one : Env → Text → List (Text × Process) → Batch
start_one env name ps = elim (lookup name ps) [
  | none ↦ record { processes = ps; failed = []; told = [] }
  | some p ↦
      let (q, told, e) = start (env.launch name) p in
      record {
        processes = insert name q ps;
        failed = elim e [ none ↦ [] | some _ ↦ name ∷ [] ];
        told = (name, told) ∷ [];
      }
]

unfoldable pub start_each : Env → List Text → List (Text × Process) → Batch
unfolding start_one
start_each env [] ps = record { processes = ps; failed = []; told = [] }
start_each env (name ∷ names) ps =
    let first = start_one env name ps in
    let rest = start_each env names first.processes in
    record {
      processes = rest.processes;
      failed = first.failed ++ rest.failed;
      told = first.told ++ rest.told;
    }

unfoldable pub start_all : Env → ProcessManager → Batch
unfolding start_each ordered_processes
start_all env pm = start_each env (ordered_processes pm.processes) pm.processes

unfoldable pub is_stoppable : ProcessState → Bool
is_stoppable s =
    state_eq s running || (state_eq s starting || (state_eq s exited || state_eq s fatal))

unfoldable pub stop_one : Env → Text → List (Text × Process) → Batch
unfolding is_stoppable
stop_one env name ps = elim (lookup name ps) [
  | none ↦ record { processes = ps; failed = []; told = [] }
  | some p ↦
      if is_stoppable p.state
      then (let (q, told) = stop (env.halt name) p in
          record { processes = insert name q ps; failed = []; told = (name, told) ∷ [] })
      else record { processes = ps; failed = []; told = [] }
]

-- The loop from the last name to the first.
unfoldable pub stop_each : Env → List Text → List (Text × Process) → Batch
unfolding stop_one
stop_each env [] ps = record { processes = ps; failed = []; told = [] }
stop_each env (name ∷ names) ps =
    let later = stop_each env names ps in
    let this = stop_one env name later.processes in
    record { processes = this.processes; failed = []; told = later.told ++ this.told }

unfoldable pub stop_all : Env → ProcessManager → Batch
unfolding stop_each ordered_processes
stop_all env pm = stop_each env (ordered_processes pm.processes) pm.processes
