-- ===== src/Logger/Streams.antt =====
-- internal/logger/logger.go: the streams of the processes: `Write`, rotation, opening and closing.
-- The `maxSize` of a writer and that of its stream are one, since they are only set together.
pub mod Rotation
pub mod Steps
pub mod Bound
use gosupervisor.Prelude.{
  ℕ, zero, suc, ◌+◌, ◌-◌, ℤ, is_positive, nat_of, Bool, true, false, ◌&&◌, List, [], ◌∷◌, ◌++◌,
  Option, none, some, if◌then◌else◌, leb, ltb, ◌==◌, Text, codes, text_eq, lookup, insert, delete,
  decimal, length, get_elem?, set,
}
use gosupervisor.Logger.Disk.{Disk, Env, size_of, open_file, append_to, rename, compress_log}
use gosupervisor.Logger.Backups.{Sorting, cleanup_backups}

-- `file` is none once it is closed.
pub record Stream : Type 0 where
  pub file : Option ℕ
  pub bytes_written : ℕ
  pub path : Text
  pub max_size : ℕ
  pub backup_count : ℕ

-- A stream is named by its place in `streams`, as the source names it by its address.
pub record Logger : Type 0 where
  pub log_dir : Text
  pub process_logs : List (Text × ℕ)
  pub streams : List Stream
  pub max_log_size : ℕ
  pub max_backup_count : ℕ
  pub compress : Bool

pub data Error : Type 0 where
  rename_failed open_failed write_failed : Error

-- The rest of `Write` after `n` bytes were taken: the counter, and whether it calls `onExceed`.
unfoldable pub count_bytes : ℕ → Stream → Stream × Bool
count_bytes n stream =
    let total = stream.bytes_written + n in
    let exceeds = ltb 0 stream.max_size && leb stream.max_size total in
    (record stream { bytes_written = if exceeds then total - stream.max_size else total }, exceeds)

-- What `Write` leaves: the stream, the disk, the error, and whether it calls `onExceed`.
unfoldable pub write : Text → Stream → Disk → Stream × Disk × Option Error × Bool
unfolding append_to count_bytes
write p stream disk = elim stream.file [
  | none ↦ ((count_bytes 0 stream).0, disk, some write_failed, (count_bytes 0 stream).1)
  | some file ↦ (
    (count_bytes (length p) stream).0,
    append_to file p disk,
    none,
    (count_bytes (length p) stream).1,
  )
]

-- From `newPath` to the cleanup; `none` where the file cannot be renamed.
unfoldable pub move_aside : Sorting → Env → (compress : Bool) → Stream → Disk → Option Disk
unfolding rename compress_log cleanup_backups decimal
move_aside sort env compress stream disk =
    let new_path = stream.path ++ (codes "." ++ decimal env.now) in
    elim (rename env stream.path new_path disk) [
      | none ↦ none
      | some moved ↦ some (
          cleanup_backups sort env stream.path stream.backup_count
            (if compress then compress_log env new_path moved else moved))
    ]

-- `rotateLogByKey` on a stream that exists.
unfoldable pub rotate :
    Sorting → Env → (compress : Bool) → Stream → Disk → Stream × Disk × Option Error
unfolding move_aside open_file
rotate sort env compress stream disk = elim (move_aside sort env compress stream disk) [
  | none ↦ (record stream { file = none }, disk, some rename_failed)
  | some moved ↦
      if env.open_ok
      then (
        record stream { file = some (open_file stream.path moved).0 },
        (open_file stream.path moved).1,
        none,
      )
      else (record stream { file = none }, moved, some open_failed)
]

-- Whether the file at the path has the size; false where it cannot be read.
unfoldable pub is_full : Text → ℕ → Disk → Bool
unfolding size_of
is_full path max_size disk = elim (size_of path disk) [
  | none ↦ false
  | some size ↦ leb max_size size
]

-- `rotateIfNeeded` on a stream that exists.
unfoldable pub rotate_if_full : Sorting → Env → (compress : Bool) → Stream → Disk → Stream × Disk
unfolding is_full rotate
rotate_if_full sort env compress stream disk =
    if is_full stream.path stream.max_size disk
    then ((rotate sort env compress stream disk).0, (rotate sort env compress stream disk).1)
    else (stream, disk)

unfoldable pub rotate_log_by_key :
    Sorting
    → Env
    → (key path : Text) → (max_size backup_count : ℕ) → Logger
    → Disk
    → Logger × Disk × Option Error
unfolding lookup insert rotate move_aside open_file
rotate_log_by_key sort env key path max_size backup_count l disk =
    let fresh : Stream = record {
      file = none;
      bytes_written = 0;
      path = path;
      max_size = max_size;
      backup_count = backup_count;
    } in
    elim (lookup key l.process_logs) [
      | none ↦
          let (stream, disk', err) = rotate sort env l.compress fresh disk in
          elim err [
            | some e ↦ (l, disk', some e)
            | none ↦ (
              record l {
                process_logs = insert key (length l.streams) l.process_logs;
                streams = l.streams ++ stream ∷ [];
              },
              disk',
              none,
            )
          ]
      | some i ↦ elim (get_elem? l.streams i) [
        | none ↦ (l, disk, none)
        | some old ↦
            let (stream, disk', err) =
              rotate sort env l.compress
                (record old { path = path; max_size = max_size; backup_count = backup_count })
                disk in
            elim err [
              | some e ↦ (
                record l { streams = set l.streams i (record old { file = none }) },
                disk',
                some e,
              )
              | none ↦ (
                record l {
                  streams = set l.streams i (record stream { backup_count = old.backup_count });
                },
                disk',
                none,
              )
            ]
      ]
    ]

unfoldable pub rotate_if_needed : Sorting → Env → (key : Text) → Logger → Disk → Logger × Disk
unfolding lookup is_full rotate_log_by_key
rotate_if_needed sort env key l disk = elim (lookup key l.process_logs) [
  | none ↦ (l, disk)
  | some i ↦ elim (get_elem? l.streams i) [
    | none ↦ (l, disk)
    | some s ↦
        if is_full s.path s.max_size disk
        then (let (l', disk', err) =
              rotate_log_by_key sort env key s.path s.max_size s.backup_count l disk in
            (l', disk'))
        else (l, disk)
  ]
]

-- A write and the rotation that it asks for; also the error of the write.
unfoldable pub write_and_rotate :
    Sorting → Env → (compress : Bool) → Text → Stream → Disk → Stream × Disk × Option Error
unfolding write rotate_if_full
write_and_rotate sort env compress p stream disk =
    let (s, d, err, exceeds) = write p stream disk in
    (
      if exceeds then (rotate_if_full sort env compress s d).0 else s,
      if exceeds then (rotate_if_full sort env compress s d).1 else d,
      err,
    )

unfoldable pub log_all :
    Sorting
    → (compress : Bool) → List (Env × Text)
    → Stream
    → Disk
    → Stream × Disk × List (Option Error)
unfolding write_and_rotate
log_all sort compress [] stream disk = (stream, disk, [])
log_all sort compress ((env, p) ∷ more) stream disk =
    let (s, d, err) = write_and_rotate sort env compress p stream disk in
    let (s', d', errs) = log_all sort compress more s d in (s', d', err ∷ errs)
