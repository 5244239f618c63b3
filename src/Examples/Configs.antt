-- ===== src/Examples/Configs.antt =====
-- Runs of the validation of a configuration and of the expansion of templates.
use gosupervisor.Prelude.{
  ℕ, pos, ◌≡◌, ◌⊎◌, refl, true, ◌||◌, List, [], ◌∷◌, ◌++◌, some, if◌then◌else◌, Text, codes, length,
  get_elem?, text_in, keys, lookup, text_eq, has_prefix,
}
use gosupervisor.Manager.Sort.{topological_sort, sorted}
use gosupervisor.Manager.Sort.Counting.{occ}
use gosupervisor.Manager.Sort.Graphs.{Depends}
use gosupervisor.Manager.Sort.Ending.{Knot}
use gosupervisor.Manager.Batch.Outcome.{occ-sort_by_priority}
use gosupervisor.Manager.Sort.{Graph, sort_by_priority}
use gosupervisor.Config.Cycle.{Colors, explored, cycle, find_dependency_cycle}
use gosupervisor.Config.Cycle.Correct.{find_dependency_cycle_branches}
use gosupervisor.Config.Validate.{Program, Config, all_programs, dependencies, validate_config}
use gosupervisor.Config.Validate.Sound.{validate_config-topological_sort}
use gosupervisor.Config.Expand.{
  ProgramTemplate, parse_width, expand_template, expand_program_config,
}
use gosupervisor.Config.Expand.Pieces.{
  Piece, literal, program_name, process_num, render, values, numbers, expand_template-render,
}
use gosupervisor.Config.Expand.Names.{expand_program_config-names}

abbrev by_name : List Text → List Text
by_name = sort_by_priority []

-- Two programs that wait for each other.
abbrev ring : Graph
ring = (codes "a", codes "b" ∷ []) ∷ (codes "b", codes "a" ∷ []) ∷ []

ring_cycle : find_dependency_cycle ring ≡ cycle (codes "b") (codes "a")
unfolding find_dependency_cycle keys lookup text_eq
ring_cycle = refl

find_dependency_cycle_branches_example :
    (((after : Colors) × (find_dependency_cycle ring ≡ explored after)) × (¬ Knot (Depends ring)))
    ⊎ ((name : Text) × (dep : Text) × (find_dependency_cycle ring ≡ cycle name dep)
        × Depends ring name dep
        × Knot (Depends ring))
find_dependency_cycle_branches_example = find_dependency_cycle_branches ring

abbrev shop : Program
shop = record {
  name = codes "shop";
  command = codes "./shop";
  depends_on = codes "till" ∷ [];
  stop_signal = codes "SIGTERM";
  socket = [];
}

abbrev till : Program
till = record {
  name = codes "till";
  command = codes "./till";
  depends_on = [];
  stop_signal = [];
  socket = codes "unix:///till.sock";
}

abbrev sound : Config
sound = record {
  programs = (codes "till", record till { socket = [] }) ∷ (codes "shop", shop) ∷ [];
  event_listeners = [];
  fcgi_programs = (codes "pay", till) ∷ [];
}

validate_config-topological_sort_example :
    (result : List Text) × (topological_sort by_name (dependencies (all_programs sound))
      ≡ sorted result)
    × ((n : Text)
        → occ n result ≡ (
            if text_in n (keys sound.programs) || text_in n (keys sound.fcgi_programs)
            then 1
            else 0))
    × ((pre post : List Text) (n d : Text)
        → result ≡ pre ++ n ∷ post
        → Depends (dependencies (all_programs sound)) n d
        → text_in d pre ≡ true)
unfolding validate_config text_eq lookup text_in keys has_prefix find_dependency_cycle
validate_config-topological_sort_example =
    validate_config-topological_sort by_name sound (λ n xs. occ-sort_by_priority [] n xs)
      ((refl, (refl, tt))) (refl, tt) refl

abbrev numbered : List Piece
numbered = program_name ∷ literal (codes "_") ∷ process_num (codes "02") ∷ []

expand_template-render_example :
    expand_template (codes "%(program_name)s_%(process_num)02d") (codes "svc") 3 ≡ codes "svc_03"
unfolding values render
expand_template-render_example =
    expand_template-render numbered (codes "svc") 3 (refl, (refl, (refl, tt)))
      ((refl, tt), (((refl, (refl, tt)), (2, refl)), tt))

abbrev worker : ProgramTemplate (Unit {0})
worker = record {
  name = codes "svc";
  command = codes "run %(process_num)d";
  directory = [];
  stdout_log_file = [];
  stderr_log_file = [];
  stdin_file = [];
  environment = [];
  num_procs = pos 3;
  process_name = codes "%(program_name)s_%(process_num)02d";
  rest = tt;
}

expand_program_config-names_example :
    (length (expand_program_config worker) ≡ 3)
    × ((i j : ℕ) (a b : ProgramTemplate (Unit {0}))
        → get_elem? (expand_program_config worker) i ≡ some a
        → get_elem? (expand_program_config worker) j ≡ some b
        → a.name ≡ b.name
        → i ≡ j)
unfolding render parse_width numbers
expand_program_config-names_example =
    expand_program_config-names worker 1 (codes "02") (program_name ∷ literal (codes "_") ∷ []) []
      refl refl (refl, (refl, (refl, tt))) ((refl, tt), (((refl, (refl, tt)), (2, refl)), tt)) refl
      refl
