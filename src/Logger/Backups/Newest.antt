-- ===== src/Logger/Backups/Newest.antt =====
-- internal/logger/logger.go: which backups `cleanupBackups` removes.
use gosupervisor.Prelude.{
  ℕ, ◌+◌, ◌-◌, ◌≤◌, ◌<◌, min, ◌≡◌, refl, ap, subst, sym, ◌∙◌, inl, inr, true, false, List, [], ◌∷◌,
  ◌++◌, arith, leb, Text, text_eq, text_eq_iff, text_in, lookup, keys, IsMap, length, length-drop,
  take, drop, take-append-drop, Bool-cases,
}
use gosupervisor.Manager.Sort.Counting.{occ, occ-append, occ_iff, same_length, text_in-append}
use gosupervisor.Manager.Sort.Graphs.{keys-once}
use gosupervisor.Logger.Disk.{Disk, Env}
use gosupervisor.Logger.Backups.Counts.{
  occ-glob, occ-with_keys, lookup-remove_all, occ-keys-remove_all,
}
use gosupervisor.Logger.Backups.{
  is_backup, sort_key, glob, with_keys, remove_all, Sorting, cleanup_backups,
}

-- No name stands behind one with a larger key.
abbrev pub IsAscending : (Text → ℕ) → List Text → Type 0
IsAscending key [] = Unit
IsAscending key (x ∷ xs) = ((y : Text) → text_in y xs ≡ true → key x ≤ key y) × IsAscending key xs

IsAscending-append :
    (key : Text → ℕ) (xs ys : List Text) (a b : Text)
    → IsAscending key (xs ++ ys)
    → text_in a xs ≡ true
    → text_in b ys ≡ true
    → key a ≤ key b
unfolding text_in
IsAscending-append key [] ys a b s in_xs in_ys = cc in_xs
IsAscending-append key (x ∷ xs) ys a b s in_xs in_ys = elim (Bool-cases (text_eq a x)) [
  | inl e ↦
      let there : text_in b (xs ++ ys) ≡ true = ground (arith, text_in-append b xs ys, in_ys) in
      omega (arith, s.0 b there, ap key ((text_eq_iff a x).0 e))
  | inr e ↦ IsAscending-append key xs ys a b s.1 (ground (arith, in_xs, e)) in_ys
]

module _ (sort : Sorting) (env : Env) (base : Text) (count : ℕ) (disk : Disk)
    (permutes : (key : Text → ℕ) (n : Text) (xs : List Text) → occ n (sort key xs) ≡ occ n xs)
    (ascends : (key : Text → ℕ) (xs : List Text) → IsAscending key (sort key xs))
    (map : IsMap disk.names)
    (keyed : (n : Text) → is_backup base n ≡ true → 0 < sort_key env base n) where
  abbrev files : List Text
  files = glob base (keys disk.names)

  abbrev sorted_files : List Text
  sorted_files = sort (sort_key env base) (with_keys env base files)

  abbrev old_files : List Text
  old_files = take (length (with_keys env base files) - count) sorted_files

  abbrev new_files : List Text
  new_files = drop (length (with_keys env base files) - count) sorted_files

  occ-sorted_files : (n : Text) → occ n sorted_files ≡ occ n files
  occ-sorted_files n = ground (
    arith,
    permutes (sort_key env base) n (with_keys env base files),
    occ-with_keys env base n files,
    occ-glob base n (keys disk.names),
    keyed n,
  )

  halves : (n : Text) → occ n old_files + occ n new_files ≡ occ n files
  halves n =
      sym (occ-append n old_files new_files)
      ∙ ap (occ n) (take-append-drop (length (with_keys env base files) - count) sorted_files)
      ∙ occ-sorted_files n

  files_once : (n : Text) → occ n files ≤ 1
  files_once n = ground (arith, occ-glob base n (keys disk.names), keys-once disk.names n map)

  abbrev left : Disk
  left = remove_all old_files disk

  occ-left : (n : Text) → occ n (glob base (keys left.names)) ≡ occ n new_files
  occ-left n = ground (
    arith,
    halves n,
    files_once n,
    occ-glob base n (keys disk.names),
    occ-glob base n (keys left.names),
    occ-keys-remove_all n old_files disk,
    occ_iff n old_files,
  )

  length-files : length (with_keys env base files) ≡ length files
  length-files = same_length (with_keys env base files) files (λ n.
      ground (arith, occ-with_keys env base n files, occ-glob base n (keys disk.names), keyed n))

  length-left : length (glob base (keys left.names)) ≡ min count (length files)
  length-left = omega (
    arith,
    same_length (glob base (keys left.names)) new_files occ-left,
    same_length sorted_files files occ-sorted_files,
    length-drop (length (with_keys env base files) - count) sorted_files,
    length-files,
  )

  newest :
      (old new : Text)
      → text_in old files ≡ true
      → text_in old (glob base (keys left.names)) ≡ false
      → text_in new (glob base (keys left.names)) ≡ true
      → sort_key env base old ≤ sort_key env base new
  newest old new was gone kept =
      IsAscending-append (sort_key env base) old_files new_files old new
        (subst (IsAscending (sort_key env base))
          (sym (take-append-drop (length (with_keys env base files) - count) sorted_files))
          (ascends (sort_key env base) (with_keys env base files)))
        (ground (
          arith,
          was,
          gone,
          halves old,
          occ-left old,
          occ_iff old files,
          occ_iff old old_files,
          occ_iff old (glob base (keys left.names)),
        ))
        (ground (
          arith,
          kept,
          occ-left new,
          occ_iff new new_files,
          occ_iff new (glob base (keys left.names)),
        ))

  others : (n : Text) → is_backup base n ≡ false → lookup n left.names ≡ lookup n disk.names
  others n other = ground (
    arith,
    other,
    lookup-remove_all n old_files disk,
    halves n,
    occ-glob base n (keys disk.names),
    occ_iff n old_files,
  )

-- For a sort that puts the files in the order of their keys, a disk that holds each name once and
-- backups that all have a key: after the cleanup there are as many backups as are to be kept, or all if
-- there were fewer; no backup that was removed has a later key than one that is left; and every name
-- that is not of a backup of this log is as it was.
pub cleanup_backups-newest :
    (sort : Sorting) (env : Env) (base : Text) (count : ℕ) (disk : Disk)
    → ((key : Text → ℕ) (n : Text) (xs : List Text) → occ n (sort key xs) ≡ occ n xs)
    → ((key : Text → ℕ) (xs : List Text) → IsAscending key (sort key xs))
    → IsMap disk.names
    → ((n : Text) → is_backup base n ≡ true → 0 < sort_key env base n)
    → (length (glob base (keys (cleanup_backups sort env base count disk).names))
        ≡ min count (length (glob base (keys disk.names))))
      × ((old new : Text)
          → text_in old (glob base (keys disk.names)) ≡ true
          → text_in old (glob base (keys (cleanup_backups sort env base count disk).names)) ≡ false
          → text_in new (glob base (keys (cleanup_backups sort env base count disk).names)) ≡ true
          → sort_key env base old ≤ sort_key env base new)
      × ((n : Text)
          → is_backup base n ≡ false
          → lookup n (cleanup_backups sort env base count disk).names ≡ lookup n disk.names)
unfolding cleanup_backups
cleanup_backups-newest sort env base count disk permutes ascends map keyed =
    elim (Bool-cases (leb (length (glob base (keys disk.names))) count)) [
      | inl few ↦
          rw (few, cleanup_backups)
            (ground (arith, few), (λ old new was gone kept. cc (sym was ∙ gone)), λ n other. refl)
      | inr many ↦
          rw (many, cleanup_backups)
            (
              length-left sort env base count disk permutes ascends map keyed,
              newest sort env base count disk permutes ascends map keyed,
              others sort env base count disk permutes ascends map keyed,
            )
    ]
