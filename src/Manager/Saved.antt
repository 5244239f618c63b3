-- ===== src/Manager/Saved.antt =====
-- internal/process/process.go: `SaveState` and `RestoreState`. The two functions of package json are
-- parameters; whether a call of the file system succeeds is given. What a write that fails leaves
-- under the temporary path is left out, as is the fsync. A zero time is 0.
pub mod Roundtrip
use gosupervisor.Prelude.{
  ℕ, ℤ, not, Bool, true, false, List, [], ◌∷◌, ◌++◌, Option, none, some, ◌==◌, if◌then◌else◌, Text,
  codes, lookup, insert, delete,
}
use gosupervisor.Process.{Process, ProcessState}
use gosupervisor.Manager.{ProcessManager}

pub record PersistentState : Type 0 where
  pub process_name : Text
  pub state : ProcessState
  pub pid : ℕ
  pub exit_code : ℤ
  pub restart_count : ℕ
  pub start_retries : ℕ
  pub last_restart : ℕ

-- The contents of files by their paths.
abbrev pub Disk : Type 0
Disk = List (Text × Text)

pub record Json : Type 0 where
  pub marshal : List PersistentState → Option Text
  pub unmarshal : Text → Option (List PersistentState)

-- Whether reading, writing and renaming succeed.
pub record Calls : Type 0 where
  pub reads : Bool
  pub writes : Bool
  pub renames : Bool

pub data SaveError : Type 0 where
  not_serialized not_written not_renamed not_read not_parsed : SaveError

unfoldable pub state_of : Process → PersistentState
state_of p = record {
  process_name = p.name;
  state = p.state;
  pid = p.pid;
  exit_code = p.exit_code;
  restart_count = p.restart_count;
  start_retries = p.start_retries;
  last_restart = p.last_restart;
}

unfoldable pub saved_states : List (Text × Process) → List PersistentState
unfolding state_of
saved_states [] = []
saved_states ((name, p) ∷ ps) = state_of p ∷ saved_states ps

abbrev pub tmp_path : Text → Text
tmp_path path = path ++ codes ".tmp"

-- `os.Rename`
unfoldable pub rename : Text → Text → Disk → Disk
rename old new disk = elim (lookup old disk) [
  | none ↦ disk
  | some content ↦ insert new content (delete old disk)
]

unfoldable pub save_state : Json → Calls → Text → ProcessManager → Disk → Disk × Option SaveError
unfolding saved_states rename
save_state json calls path pm disk = elim (json.marshal (saved_states pm.processes)) [
  | none ↦ (disk, some not_serialized)
  | some text ↦
      if not calls.writes
      then (disk, some not_written)
      else (let written = insert (tmp_path path) text disk in
          if calls.renames
          then (rename (tmp_path path) path written, none)
          else (written, some not_renamed))
]

unfoldable pub restore_one : PersistentState → Process → Process
restore_one s p = record p {
  restart_count = s.restart_count;
  start_retries = s.start_retries;
  last_restart = if s.last_restart == 0 then p.last_restart else s.last_restart;
}

unfoldable pub restore_each : List PersistentState → List (Text × Process) → List (Text × Process)
unfolding restore_one
restore_each [] ps = ps
restore_each (s ∷ states) ps = restore_each states (elim (lookup s.process_name ps) [
  | none ↦ ps
  | some p ↦ insert s.process_name (restore_one s p) ps
])

-- A file that does not exist is no error.
unfoldable pub restore_state :
    Json → Calls → Text → Disk → ProcessManager → ProcessManager × Option SaveError
unfolding restore_each
restore_state json calls path disk pm = elim (lookup path disk) [
  | none ↦ (pm, none)
  | some text ↦ if not calls.reads then (pm, some not_read) else elim (json.unmarshal text) [
    | none ↦ (pm, some not_parsed)
    | some states ↦ ((record { processes = restore_each states pm.processes }), none)
  ]
]
