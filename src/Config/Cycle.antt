-- ===== src/Config/Cycle.antt =====
-- internal/config/config.go: `findDependencyCycle`. The message names the two programs of the
-- outcome; the map `parent` is only written.
pub mod Search
pub mod Calls
pub mod Correct
use gosupervisor.Prelude.{
  ℕ, zero, suc, Bool, true, false, List, [], ◌∷◌, Option, none, some, if◌then◌else◌, Text, text_eq,
  lookup, keys, length,
}
use gosupervisor.Manager.Sort.{Graph}

pub data Color : Type 0 where
  white gray black : Color

-- A name without an entry is white, the zero value.
abbrev pub Colors : Type 0
Colors = Text → Color

unfoldable pub paint : Text → Color → Colors → Colors
paint name c color n = if text_eq n name then c else color n

pub data Outcome : Type 0 where
  explored : Colors → Outcome
  cycle : Text → Text → Outcome
  out_of_fuel : Outcome

unfoldable pub and_then : Outcome → (Colors → Outcome) → Outcome
and_then (explored color) go = go color
and_then (cycle name dep) go = cycle name dep
and_then out_of_fuel go = out_of_fuel

-- The loop over the dependencies, with `visit` the recursive call.
unfoldable pub visit_deps : (visit : Text → Colors → Outcome) → Text → List Text → Colors → Outcome
unfolding and_then
visit_deps visit name [] color = explored color
visit_deps visit name (dep ∷ deps) color = elim (color dep) [
  | gray ↦ cycle name dep
  | white ↦ and_then (visit dep color) (visit_deps visit name deps)
  | black ↦ visit_deps visit name deps color
]

unfoldable pub dfs : ℕ → Graph → Text → Colors → Outcome
unfolding visit_deps paint
dfs zero programs name color = out_of_fuel
dfs (suc fuel) programs name color = elim (lookup name programs) [
  | none ↦ explored (paint name black (paint name gray color))
  | some depends_on ↦
      and_then (visit_deps (dfs fuel programs) name depends_on (paint name gray color))
        (λ done. explored (paint name black done))
]

-- The last loop, over the names of the programs.
unfoldable pub search_each : (visit : Text → Colors → Outcome) → List Text → Colors → Outcome
unfolding and_then
search_each visit [] color = explored color
search_each visit (name ∷ names) color = elim (color name) [
  | gray ↦ search_each visit names color
  | white ↦ and_then (visit name color) (search_each visit names)
  | black ↦ search_each visit names color
]

unfoldable pub find_dependency_cycle : Graph → Outcome
unfolding dfs search_each
find_dependency_cycle programs =
    search_each (dfs (suc (length programs)) programs) (keys programs) (λ n. white)
