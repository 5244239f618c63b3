-- ===== src/Manager/Batch/Each.antt =====
-- internal/process/process.go: what the loops of `StartAll` and `StopAll` do to one process.
use gosupervisor.Prelude.{
  ◌≡◌, refl, sym, ◌∙◌, inl, inr, Bool, true, false, List, [], ◌∷◌, none, some, arith, if◌then◌else◌,
  Text, text_eq, text_eq_iff, text_eq_refl, text_in, lookup, lookup-insert, Option-cases,
  Bool-cases,
}
use gosupervisor.Process.{Process}
use gosupervisor.Process.Start.{start}
use gosupervisor.Process.Stop.{stop}
use gosupervisor.Manager.Batch.{Env, start_one, start_each, is_stoppable, stop_one, stop_each}
use gosupervisor.Manager.Sort.Counting.{occ, text_in-append}

unfoldable pub started : Env → Text → Process → Process
started env k p = (start (env.launch k) p).0

unfoldable pub start_failed : Env → Text → Process → Bool
start_failed env k p = elim (start (env.launch k) p).2 [ none ↦ false | some e ↦ true ]

unfoldable pub halted : Env → Text → Process → Process
halted env k p = if is_stoppable p.state then (stop (env.halt k) p).0 else p

start_one_self :
    (env : Env) (k : Text) (p : Process) (ps : List (Text × Process))
    → lookup k ps ≡ some p
    → (lookup k (start_one env k ps).processes ≡ some (started env k p))
      × (text_in k (start_one env k ps).failed ≡ start_failed env k p)
unfolding start_one started start_failed text_in
start_one_self env k p ps h =
    rw (h, start_one)
      (
        lookup-insert k k (start (env.launch k) p).0 ps ∙ (rw (text_eq_refl k) refl),
        ground (arith, text_eq_refl k),
      )

start_one_other :
    (env : Env) (name k : Text) (ps : List (Text × Process))
    → text_eq name k ≡ false
    → (lookup k (start_one env name ps).processes ≡ lookup k ps)
      × (text_in k (start_one env name ps).failed ≡ false)
unfolding start_one text_in
start_one_other env name k ps h = elim (Option-cases (lookup name ps)) [
  | inl e ↦ rw (e, start_one) (refl, refl)
  | inr (p, e) ↦
      rw (e, start_one)
        (
          lookup-insert name k (start (env.launch name) p).0 ps ∙ (rw h refl),
          ground (arith, text_eq_iff name k, text_eq_iff k name),
        )
]

stop_one_self :
    (env : Env) (k : Text) (p : Process) (ps : List (Text × Process))
    → lookup k ps ≡ some p
    → lookup k (stop_one env k ps).processes ≡ some (halted env k p)
unfolding stop_one halted
stop_one_self env k p ps h =
    rw (h, stop_one)
      (ground (arith, h, lookup-insert k k (stop (env.halt k) p).0 ps, text_eq_refl k))

stop_one_other :
    (env : Env) (name k : Text) (ps : List (Text × Process))
    → text_eq name k ≡ false
    → lookup k (stop_one env name ps).processes ≡ lookup k ps
unfolding stop_one
stop_one_other env name k ps h = elim (Option-cases (lookup name ps)) [
  | inl e ↦ rw (e, stop_one) refl
  | inr (p, e) ↦
      rw (e, stop_one) (ground (arith, h, lookup-insert name k (stop (env.halt name) p).0 ps))
]

-- A loop over names that hold `k` once starts it once, and one without it leaves it alone.
pub start_each_lem :
    (env : Env) (names : List Text) (k : Text) (p : Process) (ps : List (Text × Process))
    → lookup k ps ≡ some p
    → (occ k names ≡ 0
        → (lookup k (start_each env names ps).processes ≡ some p)
          × (text_in k (start_each env names ps).failed ≡ false))
      × (occ k names ≡ 1
          → (lookup k (start_each env names ps).processes ≡ some (started env k p))
            × (text_in k (start_each env names ps).failed ≡ start_failed env k p))
unfolding start_each occ text_in
start_each_lem env [] k p ps h = (λ _. (h, refl), λ e. absurd (omega arith))
start_each_lem env (name ∷ names) k p ps h =
    let ps' = (start_one env name ps).processes in
    let fail = text_in-append k (start_one env name ps).failed (start_each env names ps').failed in
    elim (Bool-cases (text_eq k name)) [
      | inl e ↦
          let same : name ≡ k = sym ((text_eq_iff k name).0 e) in
          let self = start_one_self env k p ps h in
          let at : (lookup k ps' ≡ some (started env k p))
              × (text_in k (start_one env name ps).failed ≡ start_failed env k p) =
            rw same self in
          let rest = start_each_lem env names k (started env k p) ps' at.0 in
          ground (arith, rest.0, fail, at)
      | inr e ↦
          let other =
            start_one_other env name k ps
              (ground (arith, text_eq_iff k name, text_eq_iff name k)) in
          let rest = start_each_lem env names k p ps' (other.0 ∙ h) in
          ground (arith, rest, fail, other)
    ]

pub stop_each_lem :
    (env : Env) (names : List Text) (k : Text) (p : Process) (ps : List (Text × Process))
    → lookup k ps ≡ some p
    → (occ k names ≡ 0 → lookup k (stop_each env names ps).processes ≡ some p)
      × (occ k names ≡ 1 → lookup k (stop_each env names ps).processes ≡ some (halted env k p))
unfolding stop_each occ
stop_each_lem env [] k p ps h = (λ _. h, λ e. absurd (omega arith))
stop_each_lem env (name ∷ names) k p ps h =
    let ih = stop_each_lem env names k p ps h in
    let ps' = (stop_each env names ps).processes in
    elim (Bool-cases (text_eq k name)) [
      | inl e ↦
          let same : name ≡ k = sym ((text_eq_iff k name).0 e) in
          (
            λ z. absurd (ground arith),
            λ z. rw same (stop_one_self env k p ps' (ih.0 (ground arith))),
          )
      | inr e ↦
          let other =
            stop_one_other env name k ps'
              (ground (arith, text_eq_iff k name, text_eq_iff name k)) in
          (λ z. other ∙ ih.0 (ground arith), λ z. other ∙ ih.1 (ground arith))
    ]
