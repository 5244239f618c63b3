-- ===== src/Config/Cycle/Correct.antt =====
-- internal/config/config.go: when `findDependencyCycle` reports a cycle.
use gosupervisor.Prelude.{
  suc, ◌≡◌, ◌≢◌, ◌⊎◌, inl, inr, refl, ap, subst, ◌∙◌, true, List, [], ◌∷◌, arith, Text, text_eq_iff,
  text_in, keys, length,
}
use gosupervisor.Manager.Sort.{Graph}
use gosupervisor.Manager.Sort.Loop.{remaining-nil}
use gosupervisor.Manager.Sort.Graphs.{Depends, key_of_edge}
use gosupervisor.Manager.Sort.Ending.{Knot}
use gosupervisor.Config.Cycle.{
  white, Colors, Outcome, explored, cycle, out_of_fuel, dfs, search_each, find_dependency_cycle,
}
use gosupervisor.Config.Cycle.Calls.{dfs_lem}
use gosupervisor.Config.Cycle.Search.{Inv, Ends, Visits, color_cases, next, more}

length-keys : (programs : Graph) → length (keys programs) ≡ length programs
unfolding keys
length-keys [] = refl
length-keys ((n, deps) ∷ g) = ap suc (length-keys g)

module _ (programs : Graph) (knot : List Text)
    (each : (n : Text)
      → text_in n knot ≡ true
      → (c : Text) × Depends programs n c × (text_in c knot ≡ true)) where
  search_each_lem :
      (visit : Text → Colors → Outcome) (names : List Text) (color : Colors)
      → Visits programs knot each [] visit
      → Inv programs knot each [] color
      → Ends programs knot each [] color names (search_each visit names color)
  unfolding search_each text_in
  search_each_lem visit [] color v i = record {
    inv = i;
    black_stays = λ n b. b;
    all_black = λ n e. cc e;
  }
  search_each_lem visit (name ∷ names) color v i = elim (color_cases (color name)) [
    | inl e ↦ cc ((i.on_path name).0 e)
    | inr (inl e) ↦
        rw (e, search_each)
          (next programs knot each [] color name names (visit name color) (search_each visit names)
            (v name color i e (λ n h. cc h)) (λ mid im. search_each_lem visit names mid v im))
    | inr (inr e) ↦
        rw (e, search_each)
          (more programs knot each [] color color name names (search_each visit names color)
            (record {
              inv = i;
              black_stays = λ n b. b;
              all_black = λ n x. ap color ((text_eq_iff n name).0 (ground (arith, x))) ∙ e;
            })
            (search_each_lem visit names color v i))
  ]

  search_lem :
      Ends programs knot each [] (λ n. white) (keys programs) (find_dependency_cycle programs)
  unfolding find_dependency_cycle
  search_lem =
      search_each_lem (dfs (suc (length programs)) programs) (keys programs) (λ n. white)
        (dfs_lem programs knot each (suc (length programs)) []
          (omega (arith, remaining-nil (keys programs), length-keys programs)))
        (record { on_path = λ n. unfold text_in in (λ e. cc e, λ e. cc e); clean = λ n k e. cc e })

-- An outcome without a cycle leaves no knot.
no_knot :
    (programs : Graph) (knot : Knot (Depends programs)) (after : Colors)
    → find_dependency_cycle programs ≢ explored after
no_knot programs knot after e =
    let h : Ends programs knot.members knot.each [] (λ n. white) (keys programs) (explored after) =
      subst (Ends programs knot.members knot.each [] (λ n. white) (keys programs)) e
        (search_lem programs knot.members knot.each) in
    let (c, need, also) = knot.each knot.one knot.inside in
    h.inv.clean knot.one knot.inside (h.all_black knot.one (key_of_edge programs knot.one c need))

no_members :
    (programs : Graph) (n : Text)
    → text_in n [] ≡ true
    → (c : Text) × Depends programs n c × (text_in c [] ≡ true)
unfolding text_in
no_members programs n h = cc h

-- What the outcome says of the programs.
abbrev Verdict : Graph → Outcome → Type 0
Verdict programs r =
    (((after : Colors) × (r ≡ explored after)) × (¬ Knot (Depends programs)))
    ⊎ ((name : Text) × (dep : Text) × (r ≡ cycle name dep)
        × Depends programs name dep
        × Knot (Depends programs))

judge :
    (programs : Graph) (r : Outcome)
    → find_dependency_cycle programs ≡ r
    → Ends programs [] (no_members programs) [] (λ n. white) (keys programs) r
    → Verdict programs r
judge programs (explored after) e h = inl ((after, refl), λ k. no_knot programs k after e)
judge programs (cycle a b) e (need, knot) = inr (a, b, refl, need, knot)
judge programs out_of_fuel e h = absurd h

-- The search of any programs ends. Either it finds no cycle, and there is no list of programs, not
-- empty, each of which depends on one of the list; or it reports a cycle with two programs of which
-- the first depends on the second, and there is such a list.
pub find_dependency_cycle_branches :
    (programs : Graph)
    → (((after : Colors) × (find_dependency_cycle programs ≡ explored after))
        × (¬ Knot (Depends programs)))
      ⊎ ((name : Text) × (dep : Text) × (find_dependency_cycle programs ≡ cycle name dep)
          × Depends programs name dep
          × Knot (Depends programs))
find_dependency_cycle_branches programs =
    judge programs (find_dependency_cycle programs) refl
      (search_lem programs [] (no_members programs))
