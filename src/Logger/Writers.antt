-- ===== src/Logger/Writers.antt =====
-- internal/logger/logger.go: how the streams of a process are opened and closed.
use gosupervisor.Prelude.{
  ℕ, ℤ, is_positive, nat_of, Bool, [], ◌∷◌, ◌++◌, Option, none, some, if◌then◌else◌, Text, codes,
  text_eq, lookup, insert, delete, length, get_elem?, set,
}
use gosupervisor.Logger.Disk.{Disk, Env, open_file}
use gosupervisor.Logger.Backups.{Sorting}
use gosupervisor.Logger.Streams.{Logger, move_aside, is_full, rotate_log_by_key}

-- `rotateFileOutsideLock`; none is an error.
unfoldable pub rotate_outside :
    Sorting → Env → (compress : Bool) → (path : Text) → (backup_count : ℕ) → Disk → Option Disk
unfolding move_aside lookup
rotate_outside sort env compress path backup_count disk = elim (lookup path disk.names) [
  | none ↦ some disk
  | some file ↦
      move_aside sort env compress
        (record {
          file = none;
          bytes_written = 0;
          path = path;
          max_size = 0;
          backup_count = backup_count;
        })
        disk
]

unfoldable pub create_stream :
    Env → (key path : Text) → (max_size backup_count : ℕ) → Logger → Disk → Logger × Disk × Option ℕ
unfolding open_file insert
create_stream env key path max_size backup_count l disk =
    if env.open_ok
    then (
      record l {
        process_logs = insert key (length l.streams) l.process_logs;
        streams =
            l.streams
            ++ record {
              file = some (open_file path disk).0;
              bytes_written = 0;
              path = path;
              max_size = max_size;
              backup_count = backup_count;
            }
              ∷ [];
      },
      (open_file path disk).1,
      some (length l.streams),
    )
    else (l, disk, none)

-- The outcome is the place of a stream; none is an error.
unfoldable pub get_or_create_writer :
    Sorting
    → Env
    → (key path : Text) → (max_size backup_count : ℕ) → Logger
    → Disk
    → Logger × Disk × Option ℕ
unfolding lookup is_full rotate_log_by_key rotate_outside create_stream
get_or_create_writer sort env key path max_size backup_count l disk =
    elim (lookup key l.process_logs) [
      | none ↦
          if is_full path max_size disk
          then elim (rotate_outside sort env l.compress path backup_count disk) [
            | none ↦ (l, disk, none)
            | some moved ↦ create_stream env key path max_size backup_count l moved
          ]
          else create_stream env key path max_size backup_count l disk
      | some i ↦ elim (get_elem? l.streams i) [
        | none ↦ (l, disk, none)
        | some s ↦
            if is_full path max_size disk
            then (let (l', disk', err) =
                  rotate_log_by_key sort env key s.path s.max_size s.backup_count l disk in
                elim err [ none ↦ (l', disk', some i) | some e ↦ (l', disk', none) ])
            else (l, disk, some i)
      ]
    ]

-- A setting that is not positive is replaced by the logger's own.
unfoldable pub resolve : ℤ → ℕ → ℕ
resolve setting default = if is_positive setting then nat_of setting else default

-- What is read of `ProgramConfig`.
pub record LogConfig : Type 0 where
  pub stdout_log_file : Text
  pub stdout_log_max_bytes : ℤ
  pub stdout_log_backup_count : ℤ
  pub stderr_log_file : Text
  pub stderr_log_max_bytes : ℤ
  pub stderr_log_backup_count : ℤ

-- `filepath.Join(l.logDir, name + ".log")` of a clean directory and a name without a slash.
unfoldable pub default_path : Logger → Text → Text
default_path l name = l.log_dir ++ (codes "/" ++ (name ++ codes ".log"))

unfoldable pub log_path : Logger → (name setting : Text) → Text
unfolding text_eq default_path
log_path l name setting = if text_eq setting [] then default_path l name else setting

abbrev pub stdout_key : Text → Text
stdout_key name = name ++ codes "/stdout"

abbrev pub stderr_key : Text → Text
stderr_key name = name ++ codes "/stderr"

-- The places of the two streams, unless one cannot be had.
unfoldable pub get_process_log_writers :
    Sorting
    → (env env' : Env) → (name : Text) → LogConfig
    → Logger
    → Disk
    → Logger × Disk × Option (ℕ × ℕ)
unfolding text_eq log_path resolve get_or_create_writer insert lookup
get_process_log_writers sort env env' name cfg l disk =
    let stdout_path = log_path l name cfg.stdout_log_file in
    let stderr_path = log_path l name cfg.stderr_log_file in
    let (l1, disk1, out) =
      get_or_create_writer sort env (stdout_key name) stdout_path
        (resolve cfg.stdout_log_max_bytes l.max_log_size)
        (resolve cfg.stdout_log_backup_count l.max_backup_count) l disk in
    elim out [
      | none ↦ (l1, disk1, none)
      | some i ↦
          if text_eq stdout_path stderr_path
          then (
            record l1 { process_logs = insert (stderr_key name) i l1.process_logs },
            disk1,
            some (i, i),
          )
          else (let (l2, disk2, err) =
                get_or_create_writer sort env' (stderr_key name) stderr_path
                  (resolve cfg.stderr_log_max_bytes l.max_log_size)
                  (resolve cfg.stderr_log_backup_count l.max_backup_count) l1 disk1 in
              elim err [ none ↦ (l2, disk2, none) | some j ↦ (l2, disk2, some (i, j)) ])
    ]

unfoldable close_at : Text → Logger → Logger
unfolding lookup delete
close_at key l = elim (lookup key l.process_logs) [
  | none ↦ l
  | some i ↦ elim (get_elem? l.streams i) [
    | none ↦ record l { process_logs = delete key l.process_logs }
    | some s ↦ record l {
      process_logs = delete key l.process_logs;
      streams = set l.streams i (record s { file = none });
    }
  ]
]

unfoldable pub close_process_log : Text → Logger → Logger
unfolding close_at
close_process_log name l = close_at (stderr_key name) (close_at (stdout_key name) l)
