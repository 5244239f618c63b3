-- ===== src/Config/Validate/Merge.antt =====
-- internal/config/config.go: the programs that the search for a cycle is given.
use gosupervisor.Prelude.{
  ◌≡◌, refl, ap, true, List, [], ◌∷◌, none, some, arith, Text, text_eq, text_eq_iff, lookup, insert,
  lookup-insert, IsMap, insert-IsMap,
}
use gosupervisor.Config.Validate.{Program, merge_programs, dependencies}

-- The later of two programs of one name is kept.
pub lookup-merge_programs :
    (all rest : List (Text × Program)) (k : Text)
    → IsMap rest
    → lookup k (merge_programs all rest)
      ≡ elim (lookup k rest) [ none ↦ lookup k all | some p ↦ some p ]
unfolding merge_programs lookup
lookup-merge_programs all [] k m = refl
lookup-merge_programs all ((j, v) ∷ rest) k m = ground (
  arith,
  m.0,
  lookup-merge_programs (insert j v all) rest k m.1,
  lookup-insert j k v all,
  λ (e : text_eq j k ≡ true). ap (λ n. lookup n rest) ((text_eq_iff j k).0 e),
)

pub merge_programs-IsMap :
    (all rest : List (Text × Program)) → IsMap all → IsMap (merge_programs all rest)
unfolding merge_programs
merge_programs-IsMap all [] m = m
merge_programs-IsMap all ((j, v) ∷ rest) m =
    merge_programs-IsMap (insert j v all) rest (insert-IsMap j v all m)

pub lookup-dependencies :
    (ps : List (Text × Program)) (n : Text)
    → lookup n (dependencies ps) ≡ elim (lookup n ps) [ none ↦ none | some p ↦ some p.depends_on ]
unfolding dependencies lookup
lookup-dependencies [] n = refl
lookup-dependencies ((m, p) ∷ ps) n = ground (arith, lookup-dependencies ps n)

pub dependencies-IsMap : (ps : List (Text × Program)) → IsMap ps → IsMap (dependencies ps)
unfolding dependencies
dependencies-IsMap [] m = tt
dependencies-IsMap ((n, p) ∷ ps) m =
    (ground (arith, lookup-dependencies ps n, m.0), dependencies-IsMap ps m.1)
