-- ===== src/Logger/Streams/Rotation.antt =====
-- internal/logger/logger.go: what rotation leaves at the path of a log.
use mathlib.Core.List.{append_assoc}
use gosupervisor.Prelude.{
  ℕ, ◌-◌, ◌≡◌, refl, ap, ◌∙◌, Bool, true, false, List, [], ◌∷◌, ◌++◌, none, some, arith,
  if◌then◌else◌, Text, codes, text_eq, text_eq_refl, lookup, insert, lookup-insert, delete,
  lookup-delete, decimal, length, get_elem?, get_elem?-append_end, keys, take,
}
use gosupervisor.Logger.Disk.{Disk, Env, create, open_file, remove, rename, compress_log}
use gosupervisor.Logger.Backups.{Sorting, sort_key, glob, with_keys, remove_all, cleanup_backups}
use gosupervisor.Logger.Streams.{Stream, Error, move_aside, rotate}

longer : (s : Text) (c : ℕ) (t : Text) → text_eq (s ++ c ∷ t) s ≡ false
unfolding text_eq
longer [] c t = refl
longer (a ∷ s) c t = ground (arith, longer s c t)

remove_all-absent :
    (k : Text) (infos : List Text) (disk : Disk)
    → lookup k disk.names ≡ none
    → lookup k (remove_all infos disk).names ≡ none
unfolding remove_all remove
remove_all-absent k [] disk h = h
remove_all-absent k (name ∷ rest) disk h =
    remove_all-absent k rest (remove name disk) (ground (arith, h, lookup-delete name k disk.names))

cleanup_backups-absent :
    (sort : Sorting) (env : Env) (base k : Text) (count : ℕ) (disk : Disk)
    → lookup k disk.names ≡ none
    → lookup k (cleanup_backups sort env base count disk).names ≡ none
unfolding cleanup_backups
cleanup_backups-absent sort env base k count disk h =
    let infos = with_keys env base (glob base (keys disk.names)) in
    ground (
      arith,
      h,
      remove_all-absent k (take (length infos - count) (sort (sort_key env base) infos)) disk h,
    )

compress_log-absent :
    (env : Env) (path k : Text) (disk : Disk)
    → text_eq (path ++ codes ".gz") k ≡ false
    → lookup k disk.names ≡ none
    → lookup k (compress_log env path disk).names ≡ none
unfolding compress_log create remove
compress_log-absent env path k disk other h = ground (
  arith,
  other,
  h,
  lookup-insert (path ++ codes ".gz") k (length disk.files) disk.names,
  lookup-delete path k (insert (path ++ codes ".gz") (length disk.files) disk.names),
)

rename_lem :
    (env : Env) (old new : Text) (disk : Disk) (file : ℕ)
    → lookup old disk.names ≡ some file
    → rename env old new disk ≡ (
        if env.rename_ok
        then some (record disk { names = insert new file (delete old disk.names) })
        else none)
unfolding rename
rename_lem env old new disk file found = rw (found, rename) refl

rotate-moved :
    (sort : Sorting) (env : Env) (compress : Bool) (stream : Stream) (disk moved : Disk)
    → env.open_ok ≡ true
    → move_aside sort env compress stream disk ≡ some moved
    → rotate sort env compress stream disk ≡ (
      record stream { file = some (open_file stream.path moved).0 },
      (open_file stream.path moved).1,
      none,
    )
unfolding rotate
rotate-moved sort env compress stream disk moved opens e = ground (arith, opens, e)

open_file-absent :
    (path : Text) (disk : Disk)
    → lookup path disk.names ≡ none
    → open_file path disk ≡ (length disk.files, create path [] disk)
unfolding open_file
open_file-absent path disk gone = rw (gone, open_file) refl

-- Where the file can be renamed, no file is left at the path.
move_aside_lem :
    (sort : Sorting) (env : Env) (compress : Bool) (stream : Stream) (disk : Disk) (file : ℕ)
    → env.rename_ok ≡ true
    → lookup stream.path disk.names ≡ some file
    → (moved : Disk) × (move_aside sort env compress stream disk ≡ some moved)
      × (lookup stream.path moved.names ≡ none)
unfolding move_aside
move_aside_lem sort env compress stream disk file ok found =
    let tail = codes "." ++ decimal env.now in
    let new_path = stream.path ++ tail in
    let moved : Disk = record disk {
      names = insert new_path file (delete stream.path disk.names);
    } in
    let away : lookup stream.path moved.names ≡ none = ground (
      arith,
      longer stream.path b'.' (decimal env.now),
      lookup-insert new_path stream.path file (delete stream.path disk.names),
      lookup-delete stream.path stream.path disk.names,
      text_eq_refl stream.path,
    ) in
    let packed : Disk = if compress then compress_log env new_path moved else moved in
    let gone : lookup stream.path packed.names ≡ none = ground (
      arith,
      away,
      compress_log-absent env new_path stream.path moved
          (ap (λ t. text_eq t stream.path) (append_assoc stream.path tail (codes ".gz"))
            ∙ longer stream.path b'.' (decimal env.now ++ codes ".gz"))
          away,
    ) in
    (
      cleanup_backups sort env stream.path stream.backup_count packed,
      (let named = rename_lem env stream.path new_path disk file found in
          let e : rename env stream.path new_path disk ≡ some moved = ground (arith, named, ok) in
          rw (e, move_aside) refl),
      cleanup_backups-absent sort env stream.path stream.path stream.backup_count packed gone,
    )

-- Then the stream goes on with an empty file.
pub rotate_lem :
    (sort : Sorting) (env : Env) (compress : Bool) (stream : Stream) (disk : Disk) (file : ℕ)
    → env.rename_ok ≡ true
    → env.open_ok ≡ true
    → lookup stream.path disk.names ≡ some file
    → (file' : ℕ) × (disk' : Disk) × (rotate sort env compress stream disk
        ≡ (record stream { file = some file' }, disk', none))
      × (lookup stream.path disk'.names ≡ some file')
      × (get_elem? disk'.files file' ≡ some [])
unfolding create
rotate_lem sort env compress stream disk file ok opens found =
    let (moved, e, gone) = move_aside_lem sort env compress stream disk file ok found in
    (
      length moved.files,
      create stream.path [] moved,
      (let at = open_file-absent stream.path moved gone in
          rotate-moved sort env compress stream disk moved opens e
          ∙ ap (λ r. (record stream { file = some r.0 }, r.1, none)) at),
      ground (
        arith,
        lookup-insert stream.path stream.path (length moved.files) moved.names,
        text_eq_refl stream.path,
      ),
      get_elem?-append_end moved.files [],
    )

-- Where it cannot, the stream is left closed.
pub rotate-rename_failed :
    (sort : Sorting) (env : Env) (compress : Bool) (stream : Stream) (disk : Disk) (file : ℕ)
    → env.rename_ok ≡ false
    → lookup stream.path disk.names ≡ some file
    → rotate sort env compress stream disk
      ≡ (record stream { file = none }, disk, some Error.rename_failed)
unfolding rotate move_aside
rotate-rename_failed sort env compress stream disk file bad found =
    let named =
      rename_lem env stream.path (stream.path ++ (codes "." ++ decimal env.now)) disk file found in
    let e : rename env stream.path (stream.path ++ (codes "." ++ decimal env.now)) disk ≡ none =
      ground (arith, named, bad) in
    rw (e, move_aside, rotate) refl
