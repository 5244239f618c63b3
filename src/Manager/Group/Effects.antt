-- ===== src/Manager/Group/Effects.antt =====
-- internal/process/process.go: what `StartGroup`, `StopGroup` and `RestartGroup` leave of each process.
use gosupervisor.Prelude.{
  ◌≡◌, ◌≢◌, ◌↔◌, refl, sym, ◌∙◌, inl, inr, Bool, true, false, List, [], ◌∷◌, ◌++◌, Option, none,
  some, arith, if◌then◌else◌, Text, text_eq, text_eq_iff, text_eq_refl, text_in, lookup,
  lookup-insert, IsMap, Option-cases, Bool-cases,
}
use gosupervisor.Process.{Process, Effect, Error}
use gosupervisor.Process.Start.{start}
use gosupervisor.Process.Stop.{stop}
use gosupervisor.Process.Restart.{restart}
use gosupervisor.Manager.{ProcessManager}
use gosupervisor.Manager.Batch.{Env}
use gosupervisor.Manager.Sort.Counting.{occ, occ-append, text_in-append}
use gosupervisor.Manager.Group.{
  Action, group_one, group_each, start_action, stop_action, restart_action, last_first,
  topological_sort_for_group, start_group, stop_group, restart_group,
}
use gosupervisor.Manager.Group.Members.{is_member}
use gosupervisor.Manager.Group.Order.{topological_sort_for_group-order}

failed_of : Option Error → Bool
failed_of none = false
failed_of (some e) = true

-- What is told of one process, a list for each call.
pub told_of : Text → List (Text × List Effect) → List (List Effect)
told_of k [] = []
told_of k ((name, told) ∷ rest) = if text_eq k name then told ∷ told_of k rest else told_of k rest

told_of-append :
    (k : Text) (xs ys : List (Text × List Effect))
    → told_of k (xs ++ ys) ≡ told_of k xs ++ told_of k ys
unfolding told_of
told_of-append k [] ys = refl
told_of-append k ((name, told) ∷ xs) ys = ground (arith, told_of-append k xs ys)

module _ (act : Action) where
  one_self :
      (k : Text) (p : Process) (ps : List (Text × Process))
      → lookup k ps ≡ some p
      → (lookup k (group_one act k ps).processes ≡ some (act k p).0)
        × (text_in k (group_one act k ps).failed ≡ failed_of (act k p).2)
        × (told_of k (group_one act k ps).told ≡ (act k p).1 ∷ [])
  unfolding group_one text_in failed_of told_of
  one_self k p ps h =
      rw (h, group_one)
        (
          lookup-insert k k (act k p).0 ps ∙ (rw (text_eq_refl k) refl),
          ground (arith, text_eq_refl k),
          rw (text_eq_refl k) refl,
        )

  one_other :
      (name k : Text) (ps : List (Text × Process))
      → text_eq name k ≡ false
      → (lookup k (group_one act name ps).processes ≡ lookup k ps)
        × (text_in k (group_one act name ps).failed ≡ false)
        × (told_of k (group_one act name ps).told ≡ [])
  unfolding group_one text_in told_of
  one_other name k ps h = elim (Option-cases (lookup name ps)) [
    | inl e ↦ rw (e, group_one) (refl, refl, refl)
    | inr (p, e) ↦
        rw (e, group_one)
          (
            lookup-insert name k (act name p).0 ps ∙ (rw h refl),
            ground (arith, text_eq_iff name k, text_eq_iff k name),
            ground (arith, text_eq_iff name k, text_eq_iff k name),
          )
  ]

  -- A loop over names that hold `k` once acts on it once, and one without it leaves it alone.
  group_each_lem :
      (names : List Text) (k : Text) (p : Process) (ps : List (Text × Process))
      → lookup k ps ≡ some p
      → (occ k names ≡ 0
          → (lookup k (group_each act names ps).processes ≡ some p)
            × (text_in k (group_each act names ps).failed ≡ false)
            × (told_of k (group_each act names ps).told ≡ []))
        × (occ k names ≡ 1
            → (lookup k (group_each act names ps).processes ≡ some (act k p).0)
              × (text_in k (group_each act names ps).failed ≡ failed_of (act k p).2)
              × (told_of k (group_each act names ps).told ≡ (act k p).1 ∷ []))
  unfolding group_each occ text_in told_of
  group_each_lem [] k p ps h = (λ _. (h, refl, refl), λ e. absurd (omega arith))
  group_each_lem (name ∷ names) k p ps h =
      let ps' = (group_one act name ps).processes in
      let fail =
        text_in-append k (group_one act name ps).failed (group_each act names ps').failed in
      let said = told_of-append k (group_one act name ps).told (group_each act names ps').told in
      elim (Bool-cases (text_eq k name)) [
        | inl e ↦
            let same : name ≡ k = sym ((text_eq_iff k name).0 e) in
            let self = one_self k p ps h in
            let at : (lookup k ps' ≡ some (act k p).0)
                × (text_in k (group_one act name ps).failed ≡ failed_of (act k p).2)
                × (told_of k (group_one act name ps).told ≡ (act k p).1 ∷ []) =
              rw same self in
            let rest = group_each_lem names k (act k p).0 ps' at.0 in
            ground (arith, rest.0, fail, said, at)
        | inr e ↦
            let other =
              one_other name k ps (ground (arith, text_eq_iff k name, text_eq_iff name k)) in
            let rest = group_each_lem names k p ps' (other.0 ∙ h) in
            ground (arith, rest, fail, said, other)
      ]

  -- Hence over names that hold the members of a group once.
  members_lem :
      (member : Bool) (names : List Text) (k : Text) (p : Process) (ps : List (Text × Process))
      → lookup k ps ≡ some p
      → occ k names ≡ (if member then 1 else 0)
      → (lookup k (group_each act names ps).processes ≡ some (if member then (act k p).0 else p))
        × (text_in k (group_each act names ps).failed
            ≡ (if member then failed_of (act k p).2 else false))
        × (told_of k (group_each act names ps).told ≡ (if member then (act k p).1 ∷ [] else []))
  members_lem true names k p ps h e = (group_each_lem names k p ps h).1 e
  members_lem false names k p ps h e = (group_each_lem names k p ps h).0 e

occ-last_first : (k : Text) (names : List Text) → occ k (last_first names) ≡ occ k names
unfolding last_first occ
occ-last_first k [] = refl
occ-last_first k (n ∷ ns) =
    ground (arith, occ-append k (last_first ns) (n ∷ []), occ-last_first k ns)

-- For any order of the names of a queue, where each process stands once, `StartGroup`, `StopGroup`
-- and `RestartGroup` start, stop and restart each process of the group exactly once, a cycle among
-- the dependencies or not, with all that is told of it that of this one call, and leave every other
-- process as it was, with nothing told of it; a name is among the failed exactly if it is that of a
-- process of the group whose start or restart failed.
pub start_group-act :
    (sort : List Text → List Text) (env : Env) (group : Text) (pm : ProcessManager) (k : Text)
    (p : Process)
    → ((n : Text) (xs : List Text) → occ n (sort xs) ≡ occ n xs)
    → IsMap pm.processes
    → lookup k pm.processes ≡ some p
    → let member = text_eq p.config.group group in
      let up = start (env.launch k) p in
      let again = restart (env.halt k) (env.launch k) p in
      (lookup k (start_group sort env group pm).processes ≡ some (if member then up.0 else p))
      × ((text_in k (start_group sort env group pm).failed ≡ true)
          ↔ ((member ≡ true) × (up.2 ≢ none)))
      × (told_of k (start_group sort env group pm).told ≡ (if member then up.1 ∷ [] else []))
      × (lookup k (stop_group sort env group pm).processes
          ≡ some (if member then (stop (env.halt k) p).0 else p))
      × (told_of k (stop_group sort env group pm).told
          ≡ (if member then (stop (env.halt k) p).1 ∷ [] else []))
      × (lookup k (restart_group sort env group pm).processes
          ≡ some (if member then again.0 else p))
      × ((text_in k (restart_group sort env group pm).failed ≡ true)
          ↔ ((member ≡ true) × (again.2 ≢ none)))
      × (told_of k (restart_group sort env group pm).told ≡ (if member then again.1 ∷ [] else []))
unfolding start_group stop_group restart_group start_action stop_action restart_action failed_of
start_group-act sort env group pm k p permutes map h =
    let ps = pm.processes in
    let names = topological_sort_for_group sort group ps in
    let member = text_eq p.config.group group in
    let once : occ k names ≡ (if member then 1 else 0) =
      (topological_sort_for_group-order sort group ps permutes map).0 k
      ∙ (unfold is_member in rw (h, is_member) refl) in
    let up = members_lem (start_action env) member names k p ps h once in
    let down =
      members_lem (stop_action env) member (last_first names) k p ps h
        (occ-last_first k names ∙ once) in
    let again = members_lem (restart_action env) member names k p ps h once in
    (up.0, ground (arith, up.1), up.2, down.0, down.2, again.0, ground (arith, again.1), again.2)
