-- ===== src/Manager/Group/Members.antt =====
-- internal/process/process.go: the members of a group, the graph of their dependencies, and the last
-- loop of `topologicalSortForGroup`.
use gosupervisor.Prelude.{
  ◌+◌, ◌≤◌, ◌≡◌, inl, inr, refl, ap, ◌∙◌, Bool, true, false, ◌&&◌, List, [], ◌∷◌, ◌++◌, none, some,
  arith, if◌then◌else◌, Text, text_eq, text_eq_iff, text_eq_refl, text_in, lookup, keys, IsMap,
  Bool-cases,
}
use gosupervisor.Process.{Process}
use gosupervisor.Manager.Sort.Counting.{occ, occ-append, text_in-append}
use gosupervisor.Manager.Group.{in_group, deps_within, group_graph, append_missing}

-- Whether a process of that name is there and belongs to the group.
unfoldable pub is_member : Text → List (Text × Process) → Text → Bool
is_member group ps n = elim (lookup n ps) [ none ↦ false | some p ↦ text_eq p.config.group group ]

-- Both belong to the group, and the first depends on the second.
pub record Needs (group : Text) (ps : List (Text × Process)) (n c : Text) : Type 0 where
  pub process : Process
  pub there : lookup n ps ≡ some process
  pub on : text_in c process.config.depends_on ≡ true
  pub member : is_member group ps n ≡ true
  pub dep_member : is_member group ps c ≡ true

pub text_in-in_group :
    (group n : Text) (ps : List (Text × Process))
    → IsMap ps
    → text_in n (in_group group ps) ≡ is_member group ps n
unfolding in_group text_in is_member lookup
text_in-in_group group n [] map = refl
text_in-in_group group n ((k, p) ∷ ps) map = ground (
  arith,
  text_in-in_group group n ps map.1,
  map.0,
  text_eq_iff n k,
  text_eq_iff k n,
  λ (e : text_eq n k ≡ true). ap (λ m. lookup m ps) ((text_eq_iff n k).0 e),
)

pub keys-group :
    (group : Text) (ms : List Text) (ps : List (Text × Process))
    → keys (group_graph group ms ps) ≡ in_group group ps
unfolding keys group_graph in_group
keys-group group ms [] = refl
keys-group group ms ((k, p) ∷ ps) = ground (arith, keys-group group ms ps)

pub text_in-deps_within :
    (ms deps : List Text) (c : Text)
    → text_in c (deps_within ms deps) ≡ (text_in c deps && text_in c ms)
unfolding text_in deps_within
text_in-deps_within ms [] c = refl
text_in-deps_within ms (dep ∷ deps) c = ground (
  arith,
  text_in-deps_within ms deps c,
  λ (e : text_eq c dep ≡ true). ap (λ k. text_in k ms) ((text_eq_iff c dep).0 e),
)

pub lookup-group :
    (group n : Text) (ms : List Text) (ps : List (Text × Process))
    → IsMap ps
    → lookup n (group_graph group ms ps) ≡ elim (lookup n ps) [
      | none ↦ none
      | some p ↦
          if text_eq p.config.group group then some (deps_within ms p.config.depends_on) else none
    ]
unfolding lookup group_graph
lookup-group group n ms [] map = refl
lookup-group group n ms ((k, p) ∷ ps) map = ground (
  arith,
  lookup-group group n ms ps map.1,
  map.0,
  text_eq_iff k n,
  λ (e : text_eq k n ≡ true). ap (λ m. lookup m ps) ((text_eq_iff k n).0 e),
)

pub group_graph-IsMap :
    (group : Text) (ms : List Text) (ps : List (Text × Process))
    → IsMap ps
    → IsMap (group_graph group ms ps)
unfolding group_graph
group_graph-IsMap group ms [] map = tt
group_graph-IsMap group ms ((k, p) ∷ ps) map = elim (Bool-cases (text_eq p.config.group group)) [
  | inl e ↦
      rw e (lookup-group group k ms ps map.1 ∙ (rw map.0 refl), group_graph-IsMap group ms ps map.1)
  | inr e ↦ rw e (group_graph-IsMap group ms ps map.1)
]

pub append_missing_lem :
    (names result : List Text) (n : Text)
    → occ n names ≤ 1
    → occ n (append_missing names result)
      ≡ occ n result + (if text_in n result then 0 else occ n names)
unfolding append_missing occ text_in
append_missing_lem [] result n once = ground arith
append_missing_lem (m ∷ names) result n once = ground (
  arith,
  once,
  append_missing_lem names (if text_in m result then result else result ++ m ∷ []) n,
  occ-append n result (m ∷ []),
  text_in-append n result (m ∷ []),
  λ (e : text_eq n m ≡ true). ap (λ k. text_in k result) ((text_eq_iff n m).0 e),
)

pub append_missing-all :
    (names result : List Text)
    → ((n : Text) → text_in n names ≡ true → text_in n result ≡ true)
    → append_missing names result ≡ result
unfolding append_missing text_in
append_missing-all [] result h = refl
append_missing-all (m ∷ names) result h = ground (
  arith,
  append_missing-all names result (λ n k. h n (ground (arith, k))),
  h m (ground (arith, text_eq_refl m)),
)
