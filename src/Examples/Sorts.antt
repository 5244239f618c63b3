-- ===== src/Examples/Sorts.antt =====
-- Runs of the dependency order, of the batches and of the groups.
use gosupervisor.Prelude.{
  ◌≡◌, ◌≢◌, ◌↔◌, ◌⊎◌, refl, sym, ◌∙◌, true, List, [], ◌∷◌, ◌++◌, none, some, arith, if◌then◌else◌,
  Text, codes, lookup, keys, text_eq, text_eq_iff, text_in, IsMap,
}
use gosupervisor.Process.{Process, stopped, stopping}
use gosupervisor.Process.Start.{start}
use gosupervisor.Process.Stop.{stop}
use gosupervisor.Process.Restart.{restart}
use gosupervisor.Manager.{ProcessManager}
use gosupervisor.Manager.Sort.{
  Graph, topological_sort, sort_by_priority, sorted, circular, out_of_fuel,
}
use gosupervisor.Manager.Sort.Counting.{occ}
use gosupervisor.Manager.Sort.Graphs.{Depends, IsClosed}
use gosupervisor.Manager.Sort.Ending.{Knot}
use gosupervisor.Manager.Sort.Order.{
  topological_sort-sorted, topological_sort_circular_iff, topological_sort-outside,
}
use gosupervisor.Manager.Batch.{Env, start_all, stop_all, is_stoppable}
use gosupervisor.Manager.Batch.Outcome.{IsManaged, occ-sort_by_priority, start_all-stop_all-each}
use gosupervisor.Manager.Group.{topological_sort_for_group, start_group, stop_group, restart_group}
use gosupervisor.Manager.Group.Members.{is_member, Needs}
use gosupervisor.Manager.Group.Order.{topological_sort_for_group-order}
use gosupervisor.Manager.Group.Effects.{told_of, start_group-act}
use gosupervisor.Examples.{sample_config, running_process, crashed_process, good_launch, quick_halt}

abbrev by_priority : List Text → List Text
by_priority = sort_by_priority []

by_priority_permutes : (n : Text) (xs : List Text) → occ n (by_priority xs) ≡ occ n xs
by_priority_permutes n xs = occ-sort_by_priority [] n xs

abbrev cat : Text
cat = codes "cat"

abbrev dog : Text
dog = codes "dog"

-- The cat needs the dog.
abbrev pets : Graph
pets = (cat, dog ∷ []) ∷ (dog, []) ∷ []

pets-IsMap : IsMap pets
pets-IsMap = unfold lookup text_eq in (refl, (refl, tt))

pets-IsClosed : IsClosed pets
unfolding lookup text_in keys
pets-IsClosed n c (deps, found, is) = ground (arith, found, is)

pets_sorted : topological_sort by_priority pets ≡ sorted (dog ∷ cat ∷ [])
unfolding topological_sort text_eq sort_by_priority text_in
pets_sorted = refl

topological_sort-sorted_example :
    ((n : Text) → occ n (dog ∷ cat ∷ []) ≡ (if text_in n (keys pets) then 1 else 0))
    × ((pre post : List Text) (n c : Text)
        → dog ∷ cat ∷ [] ≡ pre ++ n ∷ post
        → Depends pets n c
        → text_in c pre ≡ true)
topological_sort-sorted_example =
    topological_sort-sorted by_priority pets (dog ∷ cat ∷ []) by_priority_permutes pets-IsMap
      pets-IsClosed pets_sorted

topological_sort_circular_iff_example :
    (topological_sort by_priority pets ≢ out_of_fuel)
    × ((topological_sort by_priority pets ≡ circular) ↔ Knot (Depends pets))
topological_sort_circular_iff_example =
    topological_sort_circular_iff by_priority pets by_priority_permutes pets-IsMap pets-IsClosed

-- A graph where the cat needs a cow that is not there.
abbrev cow : Text
cow = codes "cow"

abbrev stray : Graph
stray = (cat, cow ∷ []) ∷ []

stray-IsMap : IsMap stray
stray-IsMap = unfold lookup in (refl, tt)

-- Only the cat depends on anything, and only on the cow.
stray_only : (n c : Text) → Depends stray n c → (text_eq n cat ≡ true) × (text_eq c cow ≡ true)
unfolding lookup text_in
stray_only n c (deps, found, is) = ground (arith, found, is, text_eq_iff n cat, text_eq_iff cat n)

stray_acyclic : ¬ Knot (Depends stray)
stray_acyclic knot =
    let (c, dep, in_knot) = knot.each knot.one knot.inside in
    let (b, dep', _) = knot.each c in_knot in
    let is_cow = (text_eq_iff c cow).0 (stray_only knot.one c dep).1 in
    let is_cat = (text_eq_iff c cat).0 (stray_only c b dep').0 in
    let same : text_eq cow cat ≡ true = (text_eq_iff cow cat).1 (sym is_cow ∙ is_cat) in
    unfold text_eq in cc same

topological_sort-outside_example : topological_sort by_priority stray ≡ circular
topological_sort-outside_example =
    topological_sort-outside by_priority stray cat cow by_priority_permutes stray-IsMap
      (cow ∷ [], (unfold lookup text_eq in refl), (unfold text_in text_eq in refl))
      (unfold text_in keys text_eq in refl) stray_acyclic

-- The cat and the dog as processes of one group.
abbrev cat_process : Process
cat_process = record crashed_process {
  config = record sample_config { depends_on = dog ∷ []; group = codes "pets" };
}

abbrev dog_process : Process
dog_process = record running_process {
  name = dog;
  config = record sample_config { name = dog; group = codes "pets" };
}

abbrev pet_manager : ProcessManager
pet_manager = record { processes = (cat, cat_process) ∷ (dog, dog_process) ∷ [] }

abbrev pet_env : Env
pet_env = record { launch = λ name. good_launch; halt = λ name. quick_halt }

processes-IsMap : IsMap pet_manager.processes
processes-IsMap = unfold lookup text_eq in (refl, (refl, tt))

pet_named : (k : Text) (p : Process) → lookup k pet_manager.processes ≡ some p → p.name ≡ k
unfolding lookup
pet_named k p h = ground (arith, h, text_eq_iff cat k, text_eq_iff dog k)

pet_present :
    (k c : Text) (p : Process)
    → lookup k pet_manager.processes ≡ some p
    → text_in c p.config.depends_on ≡ true
    → text_in c (keys pet_manager.processes) ≡ true
unfolding lookup text_in keys
pet_present k c p h is = ground (arith, h, is)

pets-IsManaged : IsManaged pet_manager.processes
pets-IsManaged = record { map = processes-IsMap; named = pet_named; present = pet_present }

cat_there : lookup cat pet_manager.processes ≡ some cat_process
cat_there = unfold lookup text_eq in refl

start_all-stop_all-each_example :
    (lookup cat (start_all pet_env pet_manager).processes ≡ some (start good_launch cat_process).0)
    × ((text_in cat (start_all pet_env pet_manager).failed ≡ true)
        ↔ ((start good_launch cat_process).2 ≢ none))
    × ((q : Process) × (lookup cat (stop_all pet_env pet_manager).processes ≡ some q)
        × (q ≡ (
            if is_stoppable cat_process.state
            then (stop quick_halt cat_process).0
            else cat_process))
        × ((q.state ≡ stopped) ⊎ ((q.state ≡ stopping) × (cat_process.state ≡ stopping))))
start_all-stop_all-each_example =
    start_all-stop_all-each pet_env pet_manager cat cat_process pets-IsManaged cat_there

abbrev pet_order : List Text
pet_order = topological_sort_for_group by_priority (codes "pets") pet_manager.processes

topological_sort_for_group-order_example :
    ((n : Text)
      → occ n pet_order ≡ (if is_member (codes "pets") pet_manager.processes n then 1 else 0))
    × (Knot (Needs (codes "pets") pet_manager.processes)
        ⊎ ((pre post : List Text) (n c : Text)
            → pet_order ≡ pre ++ n ∷ post
            → Needs (codes "pets") pet_manager.processes n c
            → text_in c pre ≡ true))
topological_sort_for_group-order_example =
    topological_sort_for_group-order by_priority (codes "pets") pet_manager.processes
      by_priority_permutes processes-IsMap

start_group-act_example :
    let member = text_eq cat_process.config.group (codes "pets") in
    let up = start good_launch cat_process in
    let again = restart quick_halt good_launch cat_process in
    let started = start_group by_priority pet_env (codes "pets") pet_manager in
    let halted = stop_group by_priority pet_env (codes "pets") pet_manager in
    let restarted = restart_group by_priority pet_env (codes "pets") pet_manager in
    (lookup cat started.processes ≡ some (if member then up.0 else cat_process))
    × ((text_in cat started.failed ≡ true) ↔ ((member ≡ true) × (up.2 ≢ none)))
    × (told_of cat started.told ≡ (if member then up.1 ∷ [] else []))
    × (lookup cat halted.processes
        ≡ some (if member then (stop quick_halt cat_process).0 else cat_process))
    × (told_of cat halted.told ≡ (if member then (stop quick_halt cat_process).1 ∷ [] else []))
    × (lookup cat restarted.processes ≡ some (if member then again.0 else cat_process))
    × ((text_in cat restarted.failed ≡ true) ↔ ((member ≡ true) × (again.2 ≢ none)))
    × (told_of cat restarted.told ≡ (if member then again.1 ∷ [] else []))
start_group-act_example =
    start_group-act by_priority pet_env (codes "pets") pet_manager cat cat_process
      by_priority_permutes processes-IsMap cat_there
