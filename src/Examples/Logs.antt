-- ===== src/Examples/Logs.antt =====
-- Runs of the log streams and of the cleanup of backups.
use gosupervisor.Prelude.{
  ℕ, ◌*◌, ◌≤◌, ◌<◌, ◌≡◌, refl, ap, inl, inr, true, false, List, [], ◌∷◌, none, some, arith,
  if◌then◌else◌, leb, Text, codes, lookup, keys, length, text_in, text_eq, text_eq_iff, Bool-cases,
}
use gosupervisor.Manager.Sort.Counting.{occ, occ_iff}
use gosupervisor.Logger.Disk.{Disk, Env, done, size_of}
use gosupervisor.Logger.Backups.{Sorting, is_backup, sort_key, glob, cleanup_backups}
use gosupervisor.Logger.Backups.Newest.{IsAscending, cleanup_backups-newest}
use gosupervisor.Logger.Streams.{Stream, write_failed, rotate, log_all}
use gosupervisor.Logger.Streams.Bound.{log_all-bounded, log_all-rename_failed}

-- Insertion by the key.
unfoldable put : (Text → ℕ) → Text → List Text → List Text
put key x [] = x ∷ []
put key x (y ∷ ys) = let rest = put key x ys in if leb (key x) (key y) then x ∷ y ∷ ys else y ∷ rest

unfoldable by_key : Sorting
unfolding put
by_key key [] = []
by_key key (x ∷ xs) = put key x (by_key key xs)

occ-put : (key : Text → ℕ) (x n : Text) (xs : List Text) → occ n (put key x xs) ≡ occ n (x ∷ xs)
unfolding put occ
occ-put key x n [] = refl
occ-put key x n (y ∷ ys) = ground (arith, occ-put key x n ys)

occ-by_key : (key : Text → ℕ) (n : Text) (xs : List Text) → occ n (by_key key xs) ≡ occ n xs
unfolding by_key occ
occ-by_key key n [] = refl
occ-by_key key n (x ∷ xs) = ground (arith, occ-put key x n (by_key key xs), occ-by_key key n xs)

put-IsAscending :
    (key : Text → ℕ) (x : Text) (xs : List Text)
    → IsAscending key xs
    → IsAscending key (put key x xs)
unfolding put text_in
put-IsAscending key x [] s = ((λ y h. cc h), tt)
put-IsAscending key x (y ∷ ys) s = elim (Bool-cases (leb (key x) (key y))) [
  | inl e ↦
      rw (e, put)
        (
          (λ z h. elim (Bool-cases (text_eq z y)) [
            | inl same ↦ ground (arith, e, ap key ((text_eq_iff z y).0 same))
            | inr other ↦ ground (arith, e, s.0 z (ground (arith, h, other)))
          ]),
          s,
        )
  | inr e ↦
      rw (e, put)
        (
          (λ z h. elim (Bool-cases (text_eq z x)) [
            | inl same ↦ ground (arith, e, ap key ((text_eq_iff z x).0 same))
            | inr other ↦ s.0 z (
                ground (
                  arith,
                  h,
                  other,
                  occ_iff z (put key x ys),
                  occ_iff z (x ∷ ys),
                  occ-put key x z ys,
                ))
          ]),
          put-IsAscending key x ys s.1,
        )
]

by_key-IsAscending : (key : Text → ℕ) (xs : List Text) → IsAscending key (by_key key xs)
unfolding by_key
by_key-IsAscending key [] = tt
by_key-IsAscending key (x ∷ xs) = put-IsAscending key x (by_key key xs) (by_key-IsAscending key xs)

abbrev now : ℕ → Env
now t = record {
  now = t;
  rename_ok = true;
  compression = done;
  gzip = λ text. text;
  mod_time = λ name. some 5;
  open_ok = true;
}

abbrev web_log : Text
web_log = codes "log/web.log"

abbrev disk : Disk
disk = record { names = (web_log, 0) ∷ []; files = codes "abc" ∷ [] }

abbrev stream : Stream
stream = record { file = some 0; bytes_written = 0; path = web_log; max_size = 8; backup_count = 2 }

abbrev two_writes : List (Env × Text)
two_writes = (now 100, codes "0123456789") ∷ (now 200, codes "abcdefg") ∷ []

log_all-bounded_example :
    (s' : Stream) × (d' : Disk) × (size : ℕ) × (log_all by_key true two_writes stream disk
      ≡ (s', d', none ∷ none ∷ []))
    × (size_of web_log d' ≡ some size)
    × (size < 2 * 8)
unfolding lookup text_eq
log_all-bounded_example =
    log_all-bounded by_key true two_writes stream disk 0 (codes "abc")
      (refl, refl, (refl, refl, tt)) refl refl refl refl (omega arith)

log_all-rename_failed_example :
    log_all by_key true two_writes
      (rotate by_key (record (now 50) { rename_ok = false }) true stream disk).0
      (rotate by_key (record (now 50) { rename_ok = false }) true stream disk).1
    ≡ (record stream { file = none }, disk, some write_failed ∷ some write_failed ∷ [])
unfolding lookup text_eq
log_all-rename_failed_example =
    log_all-rename_failed by_key true (record (now 50) { rename_ok = false }) two_writes stream disk
      0 refl refl (omega arith)

abbrev full_disk : Disk
full_disk = record {
  names =
      (web_log, 0)
      ∷ (codes "log/web.log.12.gz", 1)
      ∷ (codes "log/web.log.7", 2)
      ∷ (codes "log/web.log.9.gz", 3)
      ∷ [];
  files = [] ∷ [] ∷ [] ∷ [] ∷ [];
}

keyed : (n : Text) → is_backup web_log n ≡ true → 0 < sort_key (now 100) web_log n
unfolding sort_key
keyed n h = ground arith

cleanup_backups-newest_example :
    (length (glob web_log (keys (cleanup_backups by_key (now 100) web_log 2 full_disk).names)) ≡ 2)
    × ((old new : Text)
        → text_in old (glob web_log (keys full_disk.names)) ≡ true
        → text_in old
            (glob web_log (keys (cleanup_backups by_key (now 100) web_log 2 full_disk).names))
          ≡ false
        → text_in new
            (glob web_log (keys (cleanup_backups by_key (now 100) web_log 2 full_disk).names))
          ≡ true
        → sort_key (now 100) web_log old ≤ sort_key (now 100) web_log new)
    × ((n : Text)
        → is_backup web_log n ≡ false
        → lookup n (cleanup_backups by_key (now 100) web_log 2 full_disk).names
          ≡ lookup n full_disk.names)
unfolding lookup text_eq glob keys
cleanup_backups-newest_example =
    cleanup_backups-newest by_key (now 100) web_log 2 full_disk occ-by_key by_key-IsAscending
      (refl, (refl, (refl, (refl, tt)))) keyed
