-- ===== src/Manager/Group.antt =====
-- internal/process/process.go: `topologicalSortForGroup`, `StartGroup`, `StopGroup` and
-- `RestartGroup`. `sort` is `sort.Strings`. What each call meets outside is given for each name.
pub mod Loop
pub mod Members
pub mod Order
pub mod Effects
use gosupervisor.Prelude.{
  ℕ, zero, suc, Bool, true, false, List, [], ◌∷◌, ◌++◌, Option, none, some, ◌==◌, if◌then◌else◌,
  Text, text_eq, text_in, lookup, insert, keys, length,
}
use gosupervisor.Process.{Process, Effect, Error}
use gosupervisor.Process.Start.{start}
use gosupervisor.Process.Stop.{stop}
use gosupervisor.Process.Restart.{restart}
use gosupervisor.Manager.{ProcessManager}
use gosupervisor.Manager.Batch.{Env}
use gosupervisor.Manager.Sort.{
  Graph, link, no_degrees, neighbors, zero_degree, decrement, SortResult, sorted, circular,
  out_of_fuel,
}

-- The keys of `inGroup`.
unfoldable pub in_group : Text → List (Text × Process) → List Text
in_group group [] = []
in_group group ((name, p) ∷ ps) =
    let rest = in_group group ps in if text_eq p.config.group group then name ∷ rest else rest

-- The dependencies for which `inGroup[dep]` holds.
unfoldable pub deps_within : List Text → List Text → List Text
deps_within members [] = []
deps_within members (dep ∷ deps) =
    let rest = deps_within members deps in if text_in dep members then dep ∷ rest else rest

unfoldable pub group_graph : Text → List Text → List (Text × Process) → Graph
unfolding deps_within
group_graph group members [] = []
group_graph group members ((name, p) ∷ ps) =
    let rest = group_graph group members ps in
    if text_eq p.config.group group
    then (name, deps_within members p.config.depends_on) ∷ rest
    else rest

-- The names in group order that `result` lacks: the last loop.
unfoldable pub append_missing : List Text → List Text → List Text
append_missing [] result = result
append_missing (name ∷ names) result =
    append_missing names (if text_in name result then result else result ++ name ∷ [])

module _ (sort : List Text → List Text) where
  -- The loop over the dependents, which sorts the queue at each that is added.
  unfoldable pub group_relax : List Text → (Text → ℕ) → List Text → (Text → ℕ) × List Text
  unfolding decrement
  group_relax [] d queue = (d, queue)
  group_relax (m ∷ ms) d queue =
      let d' = decrement m d in
      group_relax ms d' (if d' m == 0 then sort (queue ++ m ∷ []) else queue)

  unfoldable pub group_kahn :
      ℕ → List (Text × Text) → (Text → ℕ) → (queue result : List Text) → SortResult
  unfolding group_relax neighbors
  group_kahn fuel es d [] result = sorted result
  group_kahn zero es d (name ∷ queue) result = out_of_fuel
  group_kahn (suc fuel) es d (name ∷ queue) result =
      let (d', queue') = group_relax (neighbors name es) d queue in
      group_kahn fuel es d' queue' (result ++ name ∷ [])

  unfoldable pub group_result : List Text → SortResult → List Text
  unfolding append_missing
  group_result members (sorted result) = append_missing members result
  group_result members r = []

  unfoldable pub topological_sort_for_group : Text → List (Text × Process) → List Text
  unfolding in_group group_graph link no_degrees zero_degree group_kahn group_result
  topological_sort_for_group group ps =
      let members = in_group group ps in
      let s = link (group_graph group members ps) no_degrees in
      group_result members (
        group_kahn (length members) s.reverse_graph s.in_degree
          (sort (zero_degree s.in_degree members)) [])

-- What a loop over a group leaves: the processes, the names that succeeded and that failed, and what
-- was told, of whom, in order.
pub record GroupResult : Type 0 where
  pub processes : List (Text × Process)
  pub succeeded : List Text
  pub failed : List Text
  pub told : List (Text × List Effect)

-- A method on one process, of the given name.
abbrev pub Action : Type 0
Action = Text → Process → Process × List Effect × Option Error

unfoldable pub group_one : Action → Text → List (Text × Process) → GroupResult
group_one act name ps = elim (lookup name ps) [
  | none ↦ record { processes = ps; succeeded = []; failed = []; told = [] }
  | some p ↦
      let (q, told, e) = act name p in
      record {
        processes = insert name q ps;
        succeeded = elim e [ none ↦ p.name ∷ [] | some _ ↦ [] ];
        failed = elim e [ none ↦ [] | some _ ↦ name ∷ [] ];
        told = (name, told) ∷ [];
      }
]

unfoldable pub group_each : Action → List Text → List (Text × Process) → GroupResult
unfolding group_one
group_each act [] ps = record { processes = ps; succeeded = []; failed = []; told = [] }
group_each act (name ∷ names) ps =
    let first = group_one act name ps in
    let rest = group_each act names first.processes in
    record {
      processes = rest.processes;
      succeeded = first.succeeded ++ rest.succeeded;
      failed = first.failed ++ rest.failed;
      told = first.told ++ rest.told;
    }

unfoldable pub start_action : Env → Action
start_action env name p = start (env.launch name) p

-- `Stop` returns no error.
unfoldable pub stop_action : Env → Action
stop_action env name p = let (q, told) = stop (env.halt name) p in (q, told, none)

unfoldable pub restart_action : Env → Action
restart_action env name p = restart (env.halt name) (env.launch name) p

-- The order of a loop from the last index to the first.
unfoldable pub last_first : List Text → List Text
last_first [] = []
last_first (name ∷ names) = last_first names ++ name ∷ []

module _ (sort : List Text → List Text) (env : Env) (group : Text) (pm : ProcessManager) where
  unfoldable pub start_group : GroupResult
  unfolding group_each topological_sort_for_group start_action
  start_group =
      group_each (start_action env) (topological_sort_for_group sort group pm.processes)
        pm.processes

  unfoldable pub stop_group : GroupResult
  unfolding group_each topological_sort_for_group stop_action last_first
  stop_group =
      group_each (stop_action env) (last_first (topological_sort_for_group sort group pm.processes))
        pm.processes

  unfoldable pub restart_group : GroupResult
  unfolding group_each topological_sort_for_group restart_action
  restart_group =
      group_each (restart_action env) (topological_sort_for_group sort group pm.processes)
        pm.processes
