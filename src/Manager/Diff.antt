-- ===== src/Manager/Diff.antt =====
-- internal/process/process.go: what `CompareConfigs` tells of each name.
use gosupervisor.Prelude.{
  ◌≡◌, ap, sym, ◌∙◌, Bool, true, false, List, [], ◌∷◌, Option, none, some, arith, Text, text_eq,
  text_eq_iff, text_in, lookup, IsMap, if◌then◌else◌,
}
use gosupervisor.Process.{ProgramConfig, Process}
use gosupervisor.Manager.{ProcessManager, removed_names, added_modified, compare_configs}

-- What a name is to a reload, by the two maps alone.
pub data Change : Type 0 where
  unknown unchanged added removed modified : Change

unfoldable pub change_of :
    (same : ProgramConfig → ProgramConfig → Bool) → Option Process → Option ProgramConfig → Change
change_of same none none = unknown
change_of same none (some cfg) = added
change_of same (some p) none = removed
change_of same (some p) (some cfg) = if same p.config cfg then unchanged else modified

abbrev pub is_added : Change → Bool
is_added added = true
is_added _ = false

abbrev pub is_removed : Change → Bool
is_removed removed = true
is_removed _ = false

abbrev pub is_modified : Change → Bool
is_modified modified = true
is_modified _ = false

removed_lem :
    (same : ProgramConfig → ProgramConfig → Bool) (k : Text) (cfgs : List (Text × ProgramConfig))
    (ps : List (Text × Process))
    → IsMap ps
    → text_in k (removed_names cfgs ps) ≡ is_removed (change_of same (lookup k ps) (lookup k cfgs))
unfolding removed_names lookup text_in change_of
removed_lem same k cfgs [] h = ground arith
removed_lem same k cfgs ((name, p) ∷ ps) h =
    let same_key : text_eq name k ≡ true → lookup name cfgs ≡ lookup k cfgs =
      λ e. ap (λ n. lookup n cfgs) ((text_eq_iff name k).0 e) in
    let same_key' : text_eq name k ≡ true → lookup k ps ≡ none =
      λ e. ap (λ n. lookup n ps) (sym ((text_eq_iff name k).0 e)) ∙ h.0 in
    ground (
      arith,
      text_eq_iff name k,
      text_eq_iff k name,
      same_key,
      same_key',
      removed_lem same k cfgs ps h.1,
    )

changed_lem :
    (same : ProgramConfig → ProgramConfig → Bool) (k : Text) (ps : List (Text × Process))
    (cfgs : List (Text × ProgramConfig))
    → IsMap cfgs
    → let (new, changed) = added_modified same ps cfgs in
      (text_in k new ≡ is_added (change_of same (lookup k ps) (lookup k cfgs)))
      × (text_in k changed ≡ is_modified (change_of same (lookup k ps) (lookup k cfgs)))
unfolding added_modified lookup text_in change_of
changed_lem same k ps [] h = ground arith
changed_lem same k ps ((name, cfg) ∷ cfgs) h =
    let same_key : text_eq name k ≡ true → lookup name ps ≡ lookup k ps =
      λ e. ap (λ n. lookup n ps) ((text_eq_iff name k).0 e) in
    let same_key' : text_eq name k ≡ true → lookup k cfgs ≡ none =
      λ e. ap (λ n. lookup n cfgs) (sym ((text_eq_iff name k).0 e)) ∙ h.0 in
    ground (
      arith,
      text_eq_iff name k,
      text_eq_iff k name,
      same_key,
      same_key',
      changed_lem same k ps cfgs h.1,
    )

-- Of two maps, every name is reported as the maps alone say: as added exactly if only the new one
-- has it, as removed exactly if only the old one has it, as modified exactly if both have it with
-- configurations that differ, and never in two of the lists.
pub compare_configs-change :
    (same : ProgramConfig → ProgramConfig → Bool) (cfgs : List (Text × ProgramConfig))
    (pm : ProcessManager) (k : Text)
    → IsMap cfgs
    → IsMap pm.processes
    → let (new, gone, changed) = compare_configs same cfgs pm in
      let change = change_of same (lookup k pm.processes) (lookup k cfgs) in
      (text_in k new ≡ is_added change)
      × (text_in k gone ≡ is_removed change)
      × (text_in k changed ≡ is_modified change)
unfolding compare_configs
compare_configs-change same cfgs pm k new old =
    let (a, m) = changed_lem same k pm.processes cfgs new in
    (a, removed_lem same k cfgs pm.processes old, m)
