-- ===== src/Manager/Saved/Roundtrip.antt =====
-- internal/process/process.go: what `RestoreState` brings back of what `SaveState` wrote.
use gosupervisor.Prelude.{
  ℕ, ◌≡◌, ◌≢◌, ◌⊎◌, refl, ap, sym, ◌∙◌, inl, inr, true, false, List, [], ◌∷◌, ◌++◌, none, some,
  arith, ◌==◌, if◌then◌else◌, Text, text_eq, text_eq_iff, text_eq_refl, codes, lookup, insert,
  delete, lookup-insert, IsMap, Bool-cases, Option-cases,
}
use gosupervisor.Process.{Process}
use gosupervisor.Manager.{ProcessManager}
use gosupervisor.Manager.Names.{AllNamed, all_named}
use gosupervisor.Manager.Saved.{
  PersistentState, Disk, Json, Calls, state_of, saved_states, tmp_path, rename, save_state,
  restore_one, restore_each, restore_state,
}

abbrev step : PersistentState → List (Text × Process) → List (Text × Process)
step s ps = elim (lookup s.process_name ps) [
  | none ↦ ps
  | some p ↦ insert s.process_name (restore_one s p) ps
]

step_other :
    (s : PersistentState) (k : Text) (ps : List (Text × Process))
    → text_eq s.process_name k ≡ false
    → lookup k (step s ps) ≡ lookup k ps
step_other s k ps h = elim (Option-cases (lookup s.process_name ps)) [
  | inl e ↦ rw (e, step) refl
  | inr (p, e) ↦ rw (e, step) (lookup-insert s.process_name k (restore_one s p) ps ∙ (rw h refl))
]

step_self :
    (s : PersistentState) (k : Text) (p : Process) (ps : List (Text × Process))
    → s.process_name ≡ k
    → lookup k ps ≡ some p
    → lookup k (step s ps) ≡ some (restore_one s p)
step_self s k p ps same h =
    let e : lookup s.process_name ps ≡ some p = ap (λ n. lookup n ps) same ∙ h in
    rw (e, step)
      (lookup-insert s.process_name k (restore_one s p) ps ∙ (rw (same, text_eq_refl k) refl))

restore_absent :
    (olds : List (Text × Process)) (k : Text) (ps : List (Text × Process))
    → AllNamed olds
    → lookup k olds ≡ none
    → lookup k (restore_each (saved_states olds) ps) ≡ lookup k ps
unfolding restore_each saved_states state_of lookup
restore_absent [] k ps named h = refl
restore_absent ((j, p) ∷ olds) k ps named h =
    let other : text_eq p.name k ≡ false = ground (arith, h, ap (λ n. text_eq n k) named.0) in
    restore_absent olds k (step (state_of p) ps) named.1 (ground (arith, h))
    ∙ step_other (state_of p) k ps other

restore_present :
    (olds : List (Text × Process)) (k : Text) (old p : Process) (ps : List (Text × Process))
    → IsMap olds
    → AllNamed olds
    → lookup k olds ≡ some old
    → lookup k ps ≡ some p
    → lookup k (restore_each (saved_states olds) ps) ≡ some (restore_one (state_of old) p)
unfolding restore_each saved_states state_of lookup
restore_present [] k old p ps map named h there = cc h
restore_present ((j, q) ∷ olds) k old p ps map named h there = elim (Bool-cases (text_eq j k)) [
  | inl e ↦
      let is : q ≡ old = ground (arith, h, e) in
      let same : j ≡ k = (text_eq_iff j k).0 e in
      restore_absent olds k (step (state_of q) ps) named.1
        (ap (λ n. lookup n olds) (sym same) ∙ map.0)
      ∙ step_self (state_of q) k p ps (named.0 ∙ same) there
      ∙ ap (λ o. some (restore_one (state_of o) p)) is
  | inr e ↦
      let other : text_eq q.name k ≡ false = ap (λ n. text_eq n k) named.0 ∙ e in
      restore_present olds k old p (step (state_of q) ps) map.1 named.1 (ground (arith, h, e))
        (step_other (state_of q) k ps other ∙ there)
]

restored_lem :
    (olds : List (Text × Process)) (k : Text) (p : Process) (ps : List (Text × Process))
    → IsMap olds
    → AllNamed olds
    → lookup k ps ≡ some p
    → lookup k (restore_each (saved_states olds) ps) ≡ elim (lookup k olds) [
      | none ↦ some p
      | some old ↦ some (record p {
        restart_count = old.restart_count;
        start_retries = old.start_retries;
        last_restart = if old.last_restart == 0 then p.last_restart else old.last_restart;
      })
    ]
unfolding restore_one state_of
restored_lem olds k p ps map named here = elim (Option-cases (lookup k olds)) [
  | inl e ↦ rw e (restore_absent olds k ps named e ∙ here)
  | inr (old, e) ↦ rw e (restore_present olds k old p ps map named e here)
]

longer : (s t : Text) (c : ℕ) → text_eq (s ++ c ∷ t) s ≡ false
unfolding text_eq
longer [] t c = refl
longer (a ∷ s) t c = ground (arith, longer s t c)

-- A save without an error leaves the encoded states under the path, and one with an error leaves
-- the file as it was.
saved_file :
    (json : Json) (calls : Calls) (path : Text) (pm : ProcessManager) (disk : Disk)
    → let (after, e) = save_state json calls path pm disk in
      ((e ≡ none)
        × ((text : Text) × (json.marshal (saved_states pm.processes) ≡ some text)
            × (lookup path after ≡ some text)))
      ⊎ ((e ≢ none) × (lookup path after ≡ lookup path disk))
unfolding save_state rename
saved_file json calls path pm disk =
    elim (Option-cases (json.marshal (saved_states pm.processes))) [
      | inl e ↦ inr (rw (e, save_state) ((λ x. cc), refl))
      | inr (text, e) ↦
          let other : text_eq (tmp_path path) path ≡ false = longer path (codes "tmp") 46 in
          ground (
            arith,
            e,
            other,
            text_eq_refl (tmp_path path),
            text_eq_refl path,
            lookup-insert (tmp_path path) (tmp_path path) text disk,
            lookup-insert (tmp_path path) path text disk,
            lookup-insert path path text
                (delete (tmp_path path) (insert (tmp_path path) text disk)),
          )
    ]

restore_reads :
    (json : Json) (again : Calls) (path text : Text) (states : List PersistentState) (disk : Disk)
    (now : ProcessManager)
    → lookup path disk ≡ some text
    → again.reads ≡ true
    → json.unmarshal text ≡ some states
    → restore_state json again path disk now
      ≡ ((record { processes = restore_each states now.processes }), none)
unfolding restore_state restore_each
restore_reads json again path text states disk now there reads decoded =
    rw (there, restore_state) (rw (reads, decoded) refl)

-- Where package json reads back what it wrote, and each process stands once, under its own name:
-- after `SaveState` without an error, a `RestoreState` that can read the file ends without an error,
-- and of each saved process that is still there it brings back the counts of restarts and tries and
-- the time of the last restart, unless that is the zero time, and nothing else; a process that was
-- not saved stays as it was. After a `SaveState` with an error the file is as it was.
pub restore_state-save_state :
    (json : Json) (calls again : Calls) (path : Text) (pm now : ProcessManager) (disk : Disk)
    → ((states : List PersistentState) (text : Text)
        → json.marshal states ≡ some text
        → json.unmarshal text ≡ some states)
    → IsMap pm.processes
    → ((k : Text) (p : Process) → lookup k pm.processes ≡ some p → p.name ≡ k)
    → again.reads ≡ true
    → let (after, e) = save_state json calls path pm disk in
      let (next, e') = restore_state json again path after now in
      ((e ≡ none)
        × (e' ≡ none)
        × ((k : Text) (p : Process)
            → lookup k now.processes ≡ some p
            → lookup k next.processes ≡ elim (lookup k pm.processes) [
              | none ↦ some p
              | some old ↦ some (record p {
                restart_count = old.restart_count;
                start_retries = old.start_retries;
                last_restart = if old.last_restart == 0 then p.last_restart else old.last_restart;
              })
            ]))
      ⊎ ((e ≢ none) × (lookup path after ≡ lookup path disk))
restore_state-save_state json calls again path pm now disk reads_back map named reads =
    elim (saved_file json calls path pm disk) [
      | inr failed ↦ inr failed
      | inl (fine, (text, encoded, there)) ↦
          let decoded = reads_back (saved_states pm.processes) text encoded in
          let after = (save_state json calls path pm disk).0 in
          let is : restore_state json again path after now ≡ (
            (record { processes = restore_each (saved_states pm.processes) now.processes }),
            none,
          ) =
            restore_reads json again path text (saved_states pm.processes) after now there reads
              decoded in
          inl (
            fine,
            ap (λ r. r.1) is,
            λ k p here.
                ap (λ r. lookup k r.0.processes) is
                ∙ restored_lem pm.processes k p now.processes map (all_named pm.processes map named)
                    here,
          )
    ]
