-- ===== src/Manager/Names.antt =====
-- internal/process/process.go: processes that stand in the map under their own names.
use gosupervisor.Prelude.{
  ◌≡◌, refl, ap, true, List, [], ◌∷◌, some, arith, Text, text_eq, text_eq_iff, text_eq_refl, lookup,
  IsMap,
}
use gosupervisor.Process.{Process}

-- The names of the processes are the keys of the map.
abbrev pub AllNamed : List (Text × Process) → Type 0
AllNamed [] = Unit
AllNamed ((k, p) ∷ ps) = (p.name ≡ k) × AllNamed ps

pub all_named :
    (ps : List (Text × Process))
    → IsMap ps
    → ((k : Text) (p : Process) → lookup k ps ≡ some p → p.name ≡ k)
    → AllNamed ps
unfolding lookup
all_named [] map h = tt
all_named ((k, p) ∷ ps) map h = (
  h k p (rw (text_eq_refl k) refl),
  all_named ps map.1 (λ j q e. h j q (
      ground (
        arith,
        e,
        map.0,
        text_eq_iff k j,
        λ (same : text_eq k j ≡ true). ap (λ n. lookup n ps) ((text_eq_iff k j).0 same),
      ))),
)
