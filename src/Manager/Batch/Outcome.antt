-- ===== src/Manager/Batch/Outcome.antt =====
-- internal/process/process.go: what `StartAll` and `StopAll` leave of each process.
use gosupervisor.Prelude.{
  ◌≡◌, ◌≢◌, ◌↔◌, refl, ap, ◌∙◌, inl, inr, ◌⊎◌, true, List, [], ◌∷◌, none, some, arith,
  if◌then◌else◌, Text, text_eq, text_in, lookup, keys, IsMap, Bool-cases,
}
use gosupervisor.Process.{Process, stopped, stopping, state_eq}
use gosupervisor.Process.Start.{start}
use gosupervisor.Process.Stop.{stop}
use gosupervisor.Process.Stop.Outcome.{stop-stopped}
use gosupervisor.Manager.{ProcessManager}
use gosupervisor.Manager.Names.{AllNamed, all_named}
use gosupervisor.Manager.Sort.{
  SortResult, sorted, circular, out_of_fuel, topological_sort, sort_by_priority, insert_name,
}
use gosupervisor.Manager.Sort.Counting.{occ, occ_iff}
use gosupervisor.Manager.Sort.Graphs.{IsClosed, keys-once, lookup-keys}
use gosupervisor.Manager.Sort.Order.{topological_sort-sorted, topological_sort_circular_iff}
use gosupervisor.Manager.Batch.{
  Env, dependency_graph, process_names, batch_order, ordered_processes, start_all, stop_all,
  is_stoppable,
}
use gosupervisor.Manager.Batch.Each.{started, start_failed, halted, start_each_lem, stop_each_lem}

-- Each process stands once, under its own name, and no process depends on one that is not there.
pub record IsManaged (ps : List (Text × Process)) : Type 0 where
  pub map : IsMap ps
  pub named : (k : Text) (p : Process) → lookup k ps ≡ some p → p.name ≡ k
  pub present :
      (k c : Text) (p : Process)
      → lookup k ps ≡ some p
      → text_in c p.config.depends_on ≡ true
      → text_in c (keys ps) ≡ true

occ-insert_name :
    (ps : List (Text × Process)) (k n : Text) (ns : List Text)
    → occ k (insert_name ps n ns) ≡ occ k (n ∷ ns)
unfolding insert_name occ
occ-insert_name ps k n [] = refl
occ-insert_name ps k n (m ∷ ns) = ground (arith, occ-insert_name ps k n ns)

pub occ-sort_by_priority :
    (ps : List (Text × Process)) (k : Text) (ns : List Text)
    → occ k (sort_by_priority ps ns) ≡ occ k ns
unfolding sort_by_priority occ
occ-sort_by_priority ps k [] = refl
occ-sort_by_priority ps k (n ∷ ns) =
    ground (arith, occ-insert_name ps k n (sort_by_priority ps ns), occ-sort_by_priority ps k ns)

names-keys : (ps : List (Text × Process)) → AllNamed ps → process_names ps ≡ keys ps
unfolding process_names keys
names-keys [] h = refl
names-keys ((k, p) ∷ ps) h = cc (h.0, names-keys ps h.1)

graph-keys : (ps : List (Text × Process)) → AllNamed ps → keys (dependency_graph ps) ≡ keys ps
unfolding dependency_graph keys
graph-keys [] h = refl
graph-keys ((k, p) ∷ ps) h = cc (h.0, graph-keys ps h.1)

lookup-graph :
    (ps : List (Text × Process)) (k : Text) (deps : List Text)
    → AllNamed ps
    → lookup k (dependency_graph ps) ≡ some deps
    → (p : Process) × (lookup k ps ≡ some p) × (p.config.depends_on ≡ deps)
unfolding dependency_graph lookup
lookup-graph [] k deps h e = cc e
lookup-graph ((j, p) ∷ ps) k deps h e = elim (Bool-cases (text_eq j k)) [
  | inl same ↦
      (p, rw same refl, ground (arith, e, h.0, same, λ (n : p.name ≡ j). ap (λ x. text_eq x k) n))
  | inr other ↦
      let (q, found, is) =
        lookup-graph ps k deps h.1
          (ground (arith, e, h.0, other, λ (n : p.name ≡ j). ap (λ x. text_eq x k) n)) in
      (q, rw other found, is)
]

lookup-graph_none :
    (ps : List (Text × Process)) (k : Text)
    → AllNamed ps
    → lookup k ps ≡ none
    → lookup k (dependency_graph ps) ≡ none
unfolding dependency_graph lookup
lookup-graph_none [] k h e = refl
lookup-graph_none ((j, p) ∷ ps) k h e =
    ground (arith, h.0, lookup-graph_none ps k h.1, λ (n : p.name ≡ j). ap (λ x. text_eq x k) n)

dependency_graph-IsMap :
    (ps : List (Text × Process)) → AllNamed ps → IsMap ps → IsMap (dependency_graph ps)
unfolding dependency_graph
dependency_graph-IsMap [] h map = tt
dependency_graph-IsMap ((k, p) ∷ ps) h map = (
  ap (λ n. lookup n (dependency_graph ps)) h.0 ∙ lookup-graph_none ps k h.1 map.0,
  dependency_graph-IsMap ps h.1 map.1,
)

module _ (ps : List (Text × Process)) (managed : IsManaged ps) where
  named : AllNamed ps
  named = all_named ps managed.map managed.named

  graph-IsMap : IsMap (dependency_graph ps)
  graph-IsMap = dependency_graph-IsMap ps named managed.map

  graph-IsClosed : IsClosed (dependency_graph ps)
  graph-IsClosed n c (deps, found, is) =
      let (p, here, e) = lookup-graph ps n deps named found in
      rw (graph-keys ps named) (managed.present n c p here (rw e is))

  key : (k : Text) (p : Process) → lookup k ps ≡ some p → occ k (keys ps) ≡ 1
  key k p h = elim (Bool-cases (text_in k (keys ps))) [
    | inl e ↦ ground (arith, keys-once ps k managed.map, occ_iff k (keys ps))
    | inr e ↦ cc ((lookup-keys k ps).1 e)
  ]

  order_by :
      (r : SortResult) (k : Text) (p : Process)
      → lookup k ps ≡ some p
      → topological_sort (sort_by_priority ps) (dependency_graph ps) ≡ r
      → occ k (batch_order r ps) ≡ 1
  unfolding batch_order
  order_by (sorted names) k p h e =
      let all =
        (topological_sort-sorted (sort_by_priority ps) (dependency_graph ps) names
            (occ-sort_by_priority ps) graph-IsMap graph-IsClosed e).0
          k in
      ground (arith, all, key k p h, occ_iff k (keys ps), ap (text_in k) (graph-keys ps named))
  order_by circular k p h e = rw (names-keys ps named) (key k p h)
  order_by out_of_fuel k p h e = absurd (
      (topological_sort_circular_iff (sort_by_priority ps) (dependency_graph ps)
          (occ-sort_by_priority ps) graph-IsMap graph-IsClosed).0
        e)

  ordered_once : (k : Text) (p : Process) → lookup k ps ≡ some p → occ k (ordered_processes ps) ≡ 1
  unfolding ordered_processes
  ordered_once k p h =
      order_by (topological_sort (sort_by_priority ps) (dependency_graph ps)) k p h refl

-- Where each process stands once, under its own name, and no process depends on one that is not
-- there, `StartAll` starts each process exactly once, a cycle among the dependencies or not: it
-- leaves of each what one start leaves, and its name is among the failed exactly if its start
-- failed.
start_all-start :
    (env : Env) (pm : ProcessManager) (k : Text) (p : Process)
    → IsManaged pm.processes
    → lookup k pm.processes ≡ some p
    → (lookup k (start_all env pm).processes ≡ some (start (env.launch k) p).0)
      × ((text_in k (start_all env pm).failed ≡ true) ↔ ((start (env.launch k) p).2 ≢ none))
unfolding start_all started start_failed
start_all-start env pm k p managed h =
    let (left, failed) =
      (start_each_lem env (ordered_processes pm.processes) k p pm.processes h).1
        (ordered_once pm.processes managed k p h) in
    (left, ground (arith, failed))

-- Under the same conditions `StopAll` stops each process that is RUNNING, STARTING, EXITED or FATAL
-- exactly once, and leaves any other as it was, so that afterwards each process is STOPPED, or
-- STOPPING if it was so before.
stop_all-stop :
    (env : Env) (pm : ProcessManager) (k : Text) (p : Process)
    → IsManaged pm.processes
    → lookup k pm.processes ≡ some p
    → (q : Process) × (lookup k (stop_all env pm).processes ≡ some q)
      × (q ≡ (if is_stoppable p.state then (stop (env.halt k) p).0 else p))
      × ((q.state ≡ stopped) ⊎ ((q.state ≡ stopping) × (p.state ≡ stopping)))
unfolding stop_all
stop_all-stop env pm k p managed h = (
  halted env k p,
  (stop_each_lem env (ordered_processes pm.processes) k p pm.processes h).1
      (ordered_once pm.processes managed k p h),
  unfold halted in refl,
  unfold halted is_stoppable state_eq in ground (arith, stop-stopped (env.halt k) p),
)

-- Where each process stands once, under its own name, and no process depends on one that is not
-- there, a cycle among the dependencies or not: `StartAll` leaves of each process what one start
-- leaves, and its name is among the failed exactly if its start failed; `StopAll` leaves of each that
-- is RUNNING, STARTING, EXITED or FATAL what one stop leaves, and any other as it was, so that
-- afterwards it is STOPPED, or STOPPING if it was so before.
pub start_all-stop_all-each :
    (env : Env) (pm : ProcessManager) (k : Text) (p : Process)
    → IsManaged pm.processes
    → lookup k pm.processes ≡ some p
    → (lookup k (start_all env pm).processes ≡ some (start (env.launch k) p).0)
      × ((text_in k (start_all env pm).failed ≡ true) ↔ ((start (env.launch k) p).2 ≢ none))
      × ((q : Process) × (lookup k (stop_all env pm).processes ≡ some q)
          × (q ≡ (if is_stoppable p.state then (stop (env.halt k) p).0 else p))
          × ((q.state ≡ stopped) ⊎ ((q.state ≡ stopping) × (p.state ≡ stopping))))
start_all-stop_all-each env pm k p managed h =
    let (left, failed) = start_all-start env pm k p managed h in
    (left, failed, stop_all-stop env pm k p managed h)
