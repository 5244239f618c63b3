-- ===== src/Manager/Reload/Steps.antt =====
-- cmd/gosupervisor/main.go: what the loops of `reloadConfiguration` leave under each name.
use gosupervisor.Prelude.{
  ◌≡◌, ◌≢◌, ◌||◌, refl, ap, ◌∙◌, inl, inr, true, List, [], ◌∷◌, Option, none, some, arith,
  if◌then◌else◌, Text, text_eq, text_eq_iff, text_eq_refl, text_in, lookup, insert, keys,
  lookup-insert, lookup-delete, insert-IsMap, IsMap, Option-cases,
}
use gosupervisor.Process.{ProgramConfig, Process, new_process}
use gosupervisor.Process.Start.{start}
use gosupervisor.Manager.{add_process, remove_process, get_process}
use gosupervisor.Manager.Batch.{Env}
use gosupervisor.Manager.Reload.{
  Step, stop_and_remove, remove_each, add_and_start, replace_each, add_each, mod_dep_graph,
}

-- A process made anew from its configuration, and started if that says so.
pub fresh : Env → Text → ProgramConfig → Process
fresh env k cfg =
    if cfg.auto_start then (start (env.launch k) (new_process cfg)).0 else new_process cfg

abbrev pub at : Text → Step → Option Process
at k s = lookup k s.manager.processes

removed_at :
    (env : Env) (name k : Text) (s : Step)
    → at k (stop_and_remove env name s) ≡ (if text_eq name k then none else at k s)
unfolding stop_and_remove remove_process
removed_at env name k s = lookup-delete name k s.manager.processes

pub remove_each_lem :
    (env : Env) (names : List Text) (k : Text) (s : Step)
    → at k (remove_each env names s) ≡ (if text_in k names then none else at k s)
unfolding remove_each text_in
remove_each_lem env [] k s = refl
remove_each_lem env (name ∷ names) k s = ground (
  arith,
  remove_each_lem env names k (stop_and_remove env name s),
  removed_at env name k s,
  text_eq_iff k name,
  text_eq_iff name k,
)

added_at :
    (env : Env) (name k : Text) (cfg : ProgramConfig) (s : Step)
    → cfg.name ≡ name
    → at k (add_and_start env name cfg s)
      ≡ (if text_eq name k then some (fresh env name cfg) else at k s)
unfolding add_and_start add_process get_process fresh
added_at env name k cfg s h =
    let pm = s.manager.processes in
    let added = lookup-insert cfg.name k (new_process cfg) pm in
    let self : lookup name (insert cfg.name (new_process cfg) pm) ≡ some (new_process cfg) =
      lookup-insert cfg.name name (new_process cfg) pm ∙ (rw (h, text_eq_refl name) refl) in
    let other : lookup k (insert cfg.name (new_process cfg) pm)
        ≡ (if text_eq name k then some (new_process cfg) else lookup k pm) =
      added ∙ ap (λ n. if text_eq n k then some (new_process cfg) else lookup k pm) h in
    let q = (start (env.launch name) (new_process cfg)).0 in
    ground (arith, self, other, lookup-insert name k q (insert cfg.name (new_process cfg) pm))

module _ (env : Env) (cfgs : List (Text × ProgramConfig))
    (named : (k : Text) (cfg : ProgramConfig) → lookup k cfgs ≡ some cfg → cfg.name ≡ k) where
  -- What stands under a name that was made anew.
  abbrev pub renewed : Text → Option Process
  renewed k = elim (lookup k cfgs) [ none ↦ none | some cfg ↦ some (fresh env k cfg) ]

  pub replace_each_lem :
      (names : List Text) (s : Step)
      → ((n : Text) → text_in n names ≡ true → lookup n cfgs ≢ none)
      → (after : Step) × (replace_each env cfgs names s ≡ some after)
        × ((k : Text) → at k after ≡ (if text_in k names then renewed k else at k s))
  unfolding replace_each text_in
  replace_each_lem [] s known = (s, refl, λ k. refl)
  replace_each_lem (name ∷ names) s known = elim (Option-cases (lookup name cfgs)) [
    | inl e ↦ absurd (known name (ground (arith, text_eq_refl name)) e)
    | inr (cfg, e) ↦
        let s' = add_and_start env name cfg (stop_and_remove env name s) in
        let (after, is, h) = replace_each_lem names s' (λ n k. known n (ground (arith, k))) in
        (
          after,
          rw (e, replace_each) is,
          λ k. ground (
            arith,
            h k,
            added_at env name k cfg (stop_and_remove env name s) (named name cfg e),
            removed_at env name k s,
            text_eq_iff k name,
            text_eq_iff name k,
            e,
            λ (x : text_eq k name ≡ true). ap renewed ((text_eq_iff k name).0 x),
          ),
        )
  ]

  pub add_each_lem :
      (names : List Text) (s : Step)
      → ((n : Text) → text_in n names ≡ true → lookup n cfgs ≢ none)
      → (after : Step) × (add_each env cfgs names s ≡ some after)
        × ((k : Text) → at k after ≡ (if text_in k names then renewed k else at k s))
  unfolding add_each text_in
  add_each_lem [] s known = (s, refl, λ k. refl)
  add_each_lem (name ∷ names) s known = elim (Option-cases (lookup name cfgs)) [
    | inl e ↦ absurd (known name (ground (arith, text_eq_refl name)) e)
    | inr (cfg, e) ↦
        let s' = add_and_start env name cfg s in
        let (after, is, h) = add_each_lem names s' (λ n k. known n (ground (arith, k))) in
        (
          after,
          rw (e, add_each) is,
          λ k. ground (
            arith,
            h k,
            added_at env name k cfg s (named name cfg e),
            text_eq_iff k name,
            text_eq_iff name k,
            e,
            λ (x : text_eq k name ≡ true). ap renewed ((text_eq_iff k name).0 x),
          ),
        )
  ]

text_in-keys-insert {ℓ} :
    {A : Type ℓ} (k n : Text) (v : A) (m : List (Text × A))
    → text_in n (keys (insert k v m)) ≡ (text_eq n k || text_in n (keys m))
unfolding text_in keys insert
text_in-keys-insert k n v [] = ground arith
text_in-keys-insert k n v ((j, w) ∷ m) =
    ground (arith, text_in-keys-insert k n v m, text_eq_iff j k, text_eq_iff n j, text_eq_iff n k)

pub keys-mod_dep_graph :
    (cfgs : List (Text × ProgramConfig)) (names : List Text) (n : Text)
    → ((m : Text) → text_in m names ≡ true → lookup m cfgs ≢ none)
    → text_in n (keys (mod_dep_graph cfgs names)) ≡ text_in n names
unfolding mod_dep_graph text_in keys
keys-mod_dep_graph cfgs [] n known = refl
keys-mod_dep_graph cfgs (name ∷ names) n known = elim (Option-cases (lookup name cfgs)) [
  | inl e ↦ absurd (known name (ground (arith, text_eq_refl name)) e)
  | inr (cfg, e) ↦
      rw (e, mod_dep_graph, text_in)
        (text_in-keys-insert name n cfg.depends_on (mod_dep_graph cfgs names)
          ∙ ap (λ b. text_eq n name || b)
              (keys-mod_dep_graph cfgs names n (λ m k. known m (ground (arith, k)))))
]

pub mod_dep_graph-IsMap :
    (cfgs : List (Text × ProgramConfig)) (names : List Text) → IsMap (mod_dep_graph cfgs names)
unfolding mod_dep_graph
mod_dep_graph-IsMap cfgs [] = tt
mod_dep_graph-IsMap cfgs (name ∷ names) = elim (Option-cases (lookup name cfgs)) [
  | inl e ↦ rw (e, IsMap, mod_dep_graph) (mod_dep_graph-IsMap cfgs names)
  | inr (cfg, e) ↦
      rw (e, IsMap, mod_dep_graph)
        (insert-IsMap name cfg.depends_on (mod_dep_graph cfgs names)
          (mod_dep_graph-IsMap cfgs names))
]
