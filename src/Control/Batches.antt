-- ===== src/Control/Batches.antt =====
-- internal/socket/socket.go: the commands for all processes and for groups, and `events`.
use gosupervisor.Prelude.{
  ℕ, ◌+◌, ◌==◌, ℤ, pos, is_negative, Bool, true, false, ◌&&◌, not, List, [], ◌∷◌, ◌++◌, none, some,
  if◌then◌else◌, Text, codes, text_eq, length, decimal,
}
use gosupervisor.Events.{Event, event_snapshot}
use gosupervisor.Process.{Process, Effect}
use gosupervisor.Process.Stop.{Halt, stop, releases, before_release}
use gosupervisor.Process.Restart.{restart, restart_begin, proceed}
use gosupervisor.Manager.{ProcessManager}
use gosupervisor.Manager.Batch.{start_all, stop_all}
use gosupervisor.Manager.Group.{start_group, stop_group, restart_group}
use gosupervisor.Control.{World, Reply, answer, join, type_text}

-- The lock `pm.mu` of the manager, a `sync.RWMutex`: how many hold it for reading, and whether one
-- holds it for writing.
pub record RwMutex : Type 0 where
  pub readers : ℕ
  pub writer : Bool

abbrev pub free : RwMutex
free = record { readers = 0; writer = false }

-- `RLock`, where no writer holds the lock.
unfoldable pub r_lock : RwMutex → RwMutex
r_lock mu = record mu { readers = mu.readers + 1 }

-- Whether `Lock` returns at once; else it waits until all others have unlocked.
unfoldable pub can_lock : RwMutex → Bool
can_lock mu = mu.readers == 0 && not mu.writer

-- Whether `Restart`, called in the state `mu` of the lock, waits for it: its `Stop` locks the manager
-- to release a shared socket.
unfoldable pub restart_waits : RwMutex → Halt → Process → Bool
unfolding releases stop restart_begin
restart_waits mu halt p =
    let (q, go) = restart_begin p in
    elim go [ proceed ↦ releases (stop halt q).1 && not (can_lock mu) | _ ↦ false ]

pub record Round : Type 0 where
  pub processes : List (Text × Process)
  pub errs : List Text
  pub told : List (Text × List Effect)
  -- Whether the round waits for its own lock, for ever.
  pub waits : Bool

module _ (world : World) where
  -- The calls of `Restart` in a state of the lock that stays, as the caller holds it. Where one of
  -- them waits, the caller, for which it waits, never unlocks.
  unfoldable pub restart_each : RwMutex → List (Text × Process) → Round
  unfolding restart_waits before_release
  restart_each mu [] = record { processes = []; errs = []; told = []; waits = false }
  restart_each mu ((n, p) ∷ ps) =
      let rest = restart_each mu ps in
      if restart_waits mu (world.env.halt n) p
      then (let (q, told) = stop (world.env.halt n) (restart_begin p).0 in
          record {
            processes = (n, q) ∷ ps;
            errs = [];
            told = (n, before_release told) ∷ [];
            waits = true;
          })
      else (let (q, told, e) = restart (world.env.halt n) (world.env.launch n) p in
          record {
            processes = (n, q) ∷ rest.processes;
            errs = elim e [
              | none ↦ rest.errs
              | some err ↦ (n ++ codes ": " ++ world.error_text p err) ∷ rest.errs
            ];
            told = (n, told) ∷ rest.told;
            waits = rest.waits;
          })

  unfoldable pub restarted_text : List Text → Text
  unfolding join
  restarted_text [] = codes "OK all restarted"
  restarted_text errs = codes "OK restarted with errors: " ++ join (codes "; ") errs

  -- `RangeProcesses` holds the lock for reading during the calls.
  unfoldable pub restart_all : ProcessManager → Reply
  unfolding restart_each restarted_text r_lock
  restart_all pm =
      let round = restart_each (r_lock free) pm.processes in
      record {
        text = if round.waits then none else some (restarted_text round.errs);
        processes = round.processes;
        told = round.told;
      }

  unfoldable pub start_all_command : ProcessManager → Reply
  start_all_command pm =
      let batch = start_all world.env pm in
      record {
        text = some (codes "OK all started");
        processes = batch.processes;
        told = batch.told;
      }

  unfoldable pub stop_all_command : ProcessManager → Reply
  stop_all_command pm =
      let batch = stop_all world.env pm in
      record {
        text = some (codes "OK all stopped");
        processes = batch.processes;
        told = batch.told;
      }

  -- `"OK <what> <number>: <names>"`
  unfoldable pub listed : Text → List Text → Text
  unfolding join
  listed what names =
      codes "OK "
      ++ what
      ++ codes " "
      ++ decimal (length names)
      ++ codes ": "
      ++ join (codes ", ") names

  unfoldable pub failed_text : List Text → Text
  unfolding join
  failed_text [] = []
  failed_text names =
      codes "; failed " ++ decimal (length names) ++ codes ": " ++ join (codes ", ") names

  unfoldable pub group_start : Text → ProcessManager → Reply
  unfolding answer listed failed_text
  group_start name pm =
      let r = start_group world.sort world.env name pm in
      if text_eq name [] then answer (codes "ERR missing group name") pm else (record {
        text = some (listed (codes "started") r.succeeded ++ failed_text r.failed);
        processes = r.processes;
        told = r.told;
      })

  unfoldable pub group_stop : Text → ProcessManager → Reply
  unfolding answer listed
  group_stop name pm =
      let r = stop_group world.sort world.env name pm in
      if text_eq name [] then answer (codes "ERR missing group name") pm else (record {
        text = some (listed (codes "stopped") r.succeeded);
        processes = r.processes;
        told = r.told;
      })

  unfoldable pub group_restart : Text → ProcessManager → Reply
  unfolding answer listed
  group_restart name pm =
      let r = restart_group world.sort world.env name pm in
      if text_eq name [] then answer (codes "ERR missing group name") pm else (record {
        text = some (listed (codes "restarted") r.succeeded);
        processes = r.processes;
        told = r.told;
      })

  unfoldable pub event_lines : List Event → Text
  unfolding type_text
  event_lines [] = []
  event_lines (e ∷ es) =
      world.time_text e.timestamp
      ++ codes " "
      ++ type_text e.typ
      ++ codes " "
      ++ e.name
      ++ codes " pid="
      ++ decimal e.pid
      ++ codes " exit="
      ++ world.int_text e.exit_code
      ++ (if text_eq e.message [] then [] else codes " msg=" ++ e.message)
      ++ codes "\n"
      ++ event_lines es

  unfoldable pub event_limit : List Text → ℤ
  event_limit (cmd ∷ word ∷ more) = elim (world.scan_int word) [
    | none ↦ pos 50
    | some n ↦ if is_negative n then pos 50 else n
  ]
  event_limit parts = pos 50

  -- `none` where the buffer panics.
  unfoldable pub events_command : List Text → ProcessManager → Reply
  unfolding event_limit event_lines event_snapshot
  events_command parts pm = record {
    text = elim (event_snapshot (event_limit parts) world.events) [
      | none ↦ none
      | some events ↦
          some (codes "OK " ++ decimal (length events) ++ codes " events\n" ++ event_lines events)
    ];
    processes = pm.processes;
    told = [];
  }
