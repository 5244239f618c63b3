-- ===== src/Logger/Backups.antt =====
-- internal/logger/logger.go: `cleanupBackups` and `parseBackupTimestamp`. The path of a log has none
-- of the characters that `filepath.Glob` reads as a pattern. A file's key is a function of its name, so
-- that `fileInfos` is a list of names.
pub mod Counts
pub mod Newest
use gosupervisor.Prelude.{
  ℕ, zero, suc, ◌-◌, ℤ, pos, negsuc, Bool, true, false, ◌&&◌, ◌||◌, not, List, [], ◌∷◌, ◌++◌,
  Option, none, some, if◌then◌else◌, ◌==◌, leb, ltb, Text, codes, text_eq, has_prefix, keys, length,
  drop, take, is_digit, byte_in, atoi,
}
use gosupervisor.Logger.Disk.{Disk, Env, remove}

abbrev pub starts_with_digit : Text → Bool
starts_with_digit [] = false
starts_with_digit (c ∷ s) = is_digit c

-- Matched by the pattern `basePath + ".[0-9]*"`.
unfoldable pub is_backup : (base name : Text) → Bool
unfolding has_prefix byte_in
is_backup base name =
    has_prefix name (base ++ codes ".")
    && (starts_with_digit (drop (length (base ++ codes ".")) name)
        && not (byte_in b'/' (drop (length (base ++ codes ".")) name)))

-- `strings.TrimSuffix` with ".gz"
unfoldable pub trim_gz : Text → Text
unfolding text_eq
trim_gz [] = []
trim_gz (c ∷ s) = let rest = trim_gz s in if text_eq (c ∷ s) (codes ".gz") then [] else c ∷ rest

unfoldable pub parse_backup_timestamp : (filename base : Text) → ℕ
unfolding has_prefix trim_gz atoi
parse_backup_timestamp filename base =
    if has_prefix filename (base ++ codes ".")
    then elim (atoi (trim_gz (drop (length (base ++ codes ".")) filename))) [
      | none ↦ 0
      | some (pos n) ↦ n
      | some (negsuc n) ↦ 0
    ]
    else 0

-- The key of a backup: the time in its name, or else that of its file.
unfoldable pub sort_key : Env → (base name : Text) → ℕ
unfolding parse_backup_timestamp
sort_key env base name =
    if parse_backup_timestamp name base == 0
    then elim (env.mod_time name) [ none ↦ 0 | some t ↦ t ]
    else parse_backup_timestamp name base

-- `filepath.Glob`
unfoldable pub glob : (base : Text) → List Text → List Text
unfolding is_backup
glob base [] = []
glob base (name ∷ names) =
    let rest = glob base names in if is_backup base name then name ∷ rest else rest

-- The loop that leaves out the files without a key.
unfoldable pub with_keys : Env → (base : Text) → List Text → List Text
unfolding sort_key
with_keys env base [] = []
with_keys env base (name ∷ names) =
    let rest = with_keys env base names in
    if ltb 0 (sort_key env base name) then name ∷ rest else rest

unfoldable pub remove_all : List Text → Disk → Disk
unfolding remove
remove_all [] disk = disk
remove_all (name ∷ rest) disk = remove_all rest (remove name disk)

-- `sort.Slice` by a key.
abbrev pub Sorting : Type 0
Sorting = (key : Text → ℕ) → List Text → List Text

unfoldable pub cleanup_backups : Sorting → Env → (base : Text) → (backup_count : ℕ) → Disk → Disk
unfolding glob with_keys sort_key remove_all
cleanup_backups sort env base backup_count disk =
    let files = glob base (keys disk.names) in
    if leb (length files) backup_count
    then disk
    else let infos = with_keys env base files in
      remove_all (take (length infos - backup_count) (sort (sort_key env base) infos)) disk
