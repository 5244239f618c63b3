-- ===== src/Logger/Disk.antt =====
-- internal/logger/logger.go: the calls of package os that the logger makes, and `compressLog`.
use gosupervisor.Prelude.{
  ℕ, Bool, List, [], ◌∷◌, ◌++◌, Option, none, some, if◌then◌else◌, Text, codes, lookup, insert,
  delete, length, get_elem?, set,
}

-- The names of the files, and what the files hold.
pub record Disk : Type 0 where
  pub names : List (Text × ℕ)
  pub files : List Text

-- The outcome of `compressLog`: nothing done, a part written, all written but the source left, done.
pub data Compression : Type 0 where
  not_started : Compression
  partly : Text → Compression
  not_removed done : Compression

-- What the system does to one rotation: the time in its file name, whether calls succeed, and the
-- file times. `gzip` is what package gzip writes.
pub record Env : Type 0 where
  pub now : ℕ
  pub rename_ok : Bool
  pub compression : Compression
  pub gzip : Text → Text
  pub mod_time : Text → Option ℕ
  pub open_ok : Bool

-- `os.Stat(path)` and `info.Size()`
unfoldable pub size_of : Text → Disk → Option ℕ
unfolding lookup
size_of path disk = elim (lookup path disk.names) [
  | none ↦ none
  | some file ↦ elim (get_elem? disk.files file) [ none ↦ none | some text ↦ some (length text) ]
]

-- A file is made under a name, in place of the one that had it.
unfoldable pub create : Text → Text → Disk → Disk
unfolding insert
create path text disk = record {
  names = insert path (length disk.files) disk.names;
  files = disk.files ++ text ∷ [];
}

-- `os.OpenFile` with O_APPEND and O_CREATE.
unfoldable pub open_file : Text → Disk → ℕ × Disk
unfolding lookup create
open_file path disk = elim (lookup path disk.names) [
  | none ↦ (length disk.files, create path [] disk)
  | some file ↦ (file, disk)
]

-- `Write` on an open file; all of the bytes are taken.
unfoldable pub append_to : ℕ → Text → Disk → Disk
append_to file bytes disk = elim (get_elem? disk.files file) [
  | none ↦ disk
  | some text ↦ record disk { files = set disk.files file (text ++ bytes) }
]

unfoldable pub remove : Text → Disk → Disk
unfolding delete
remove path disk = record disk { names = delete path disk.names }

-- `os.Rename`; `none` is an error other than that of a missing file, with which the caller goes on.
unfoldable pub rename : Env → (old new : Text) → Disk → Option Disk
unfolding lookup insert delete
rename env old new disk = elim (lookup old disk.names) [
  | none ↦ some disk
  | some file ↦
      if env.rename_ok
      then some (record disk { names = insert new file (delete old disk.names) })
      else none
]

unfoldable pub compress_log : Env → Text → Disk → Disk
unfolding lookup create remove
compress_log env path disk = elim (lookup path disk.names) [
  | none ↦ disk
  | some file ↦ elim (get_elem? disk.files file) [
    | none ↦ disk
    | some text ↦ elim env.compression [
      | not_started ↦ disk
      | partly part ↦ create (path ++ codes ".gz") part disk
      | not_removed ↦ create (path ++ codes ".gz") (env.gzip text) disk
      | done ↦ remove path (create (path ++ codes ".gz") (env.gzip text) disk)
    ]
  ]
]
