-- ===== src/Examples/Managers.antt =====
-- Runs of the process manager.
use gosupervisor.Prelude.{
  ◌≡◌, refl, subst, Bool, List, [], ◌∷◌, some, arith, pos, int_eq, Text, codes, lookup, insert,
  text_eq, text_eq_iff, text_in, IsMap,
}
use gosupervisor.Process.{ProgramConfig, new_process}
use gosupervisor.Manager.{ProcessManager, new_process_manager, add_process, compare_configs}
use gosupervisor.Manager.Batch.{Env}
use gosupervisor.Manager.Sort.Graphs.{Depends}
use gosupervisor.Manager.Sort.Ending.{Knot}
use gosupervisor.Manager.Reload.{Step, mod_dep_graph, reload_configuration}
use gosupervisor.Manager.Reload.Outcome.{reconciled, reload_configuration-reconciled}
use gosupervisor.Examples.{sample_config, good_launch, quick_halt}

abbrev same_priority : ProgramConfig → ProgramConfig → Bool
same_priority c d = int_eq c.priority d.priority

abbrev dog_config : ProgramConfig
dog_config = record sample_config { name = codes "dog" }

abbrev manager : ProcessManager
manager = record {
  processes = (add_process dog_config (add_process sample_config new_process_manager)).processes;
}

-- The cat is modified, the dog is removed and the cow is added.
abbrev new_configs : List (Text × ProgramConfig)
new_configs =
    (codes "cat", record sample_config { priority = pos 1 })
    ∷ (codes "cow", record sample_config { name = codes "cow" })
    ∷ []

abbrev env : Env
env = record { launch = λ name. good_launch; halt = λ name. quick_halt }

new_configs-IsMap : IsMap new_configs
new_configs-IsMap = unfold lookup text_eq in (refl, (refl, tt))

manager-IsMap : IsMap manager.processes
manager-IsMap = unfold lookup text_eq add_process new_process_manager insert in (refl, (refl, tt))

configs_named : (k : Text) (cfg : ProgramConfig) → lookup k new_configs ≡ some cfg → cfg.name ≡ k
unfolding lookup
configs_named k cfg h = ground (arith, h, text_eq_iff (codes "cat") k, text_eq_iff (codes "cow") k)

mod_graph :
    mod_dep_graph new_configs (compare_configs same_priority new_configs manager).2
    ≡ (codes "cat", []) ∷ []
unfolding compare_configs mod_dep_graph lookup text_eq add_process new_process_manager insert
    new_process
mod_graph = refl

no_needs : (n c : Text) → ¬ Depends ((codes "cat", []) ∷ []) n c
unfolding lookup text_in
no_needs n c (deps, found, is) = ground (arith, found, is)

acyclic :
    ¬ Knot
      (Depends (mod_dep_graph new_configs (compare_configs same_priority new_configs manager).2))
acyclic knot =
    let same : Knot (Depends ((codes "cat", []) ∷ [])) =
      subst (λ g. Knot (Depends g)) mod_graph knot in
    let (c, need, more) = same.each same.one same.inside in no_needs same.one c need

reload_configuration-reconciled_example :
    (after : Step) × (reload_configuration same_priority env new_configs manager ≡ some after)
    × ((k : Text)
        → lookup k after.manager.processes
          ≡ reconciled same_priority env k (lookup k manager.processes) (lookup k new_configs))
reload_configuration-reconciled_example =
    reload_configuration-reconciled same_priority env new_configs manager new_configs-IsMap
      manager-IsMap configs_named acyclic
