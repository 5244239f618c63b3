-- ===== src/Logger/Backups/Counts.antt =====
-- internal/logger/logger.go: how often a name stands among the names that the cleanup goes through.
use gosupervisor.Prelude.{
  ◌≡◌, refl, ap, true, List, [], ◌∷◌, none, arith, if◌then◌else◌, ltb, Text, text_eq, text_eq_iff,
  text_in, lookup, lookup-delete, delete, keys,
}
use gosupervisor.Manager.Sort.Counting.{occ}
use gosupervisor.Logger.Disk.{Disk, Env, remove}
use gosupervisor.Logger.Backups.{is_backup, sort_key, glob, with_keys, remove_all}

pub occ-glob :
    (base n : Text) (xs : List Text)
    → occ n (glob base xs) ≡ (if is_backup base n then occ n xs else 0)
unfolding glob occ
occ-glob base n [] = ground arith
occ-glob base n (x ∷ xs) = ground (
  arith,
  occ-glob base n xs,
  λ (e : text_eq n x ≡ true). ap (is_backup base) ((text_eq_iff n x).0 e),
)

pub occ-with_keys :
    (env : Env) (base n : Text) (xs : List Text)
    → occ n (with_keys env base xs) ≡ (if ltb 0 (sort_key env base n) then occ n xs else 0)
unfolding with_keys occ
occ-with_keys env base n [] = ground arith
occ-with_keys env base n (x ∷ xs) = ground (
  arith,
  occ-with_keys env base n xs,
  λ (e : text_eq n x ≡ true). ap (sort_key env base) ((text_eq_iff n x).0 e),
)

pub lookup-remove_all :
    (n : Text) (rs : List Text) (disk : Disk)
    → lookup n (remove_all rs disk).names ≡ (if text_in n rs then none else lookup n disk.names)
unfolding remove_all remove text_in
lookup-remove_all n [] disk = refl
lookup-remove_all n (r ∷ rs) disk = ground (
  arith,
  lookup-remove_all n rs (remove r disk),
  lookup-delete r n disk.names,
  text_eq_iff n r,
  text_eq_iff r n,
)

pub occ-keys-delete {ℓ} :
    {V : Type ℓ} (n k : Text) (m : List (Text × V))
    → occ n (keys (delete k m)) ≡ (if text_eq n k then 0 else occ n (keys m))
unfolding delete keys occ
occ-keys-delete n k [] = ground arith
occ-keys-delete n k ((j, w) ∷ m) =
    ground (arith, occ-keys-delete n k m, text_eq_iff n k, text_eq_iff j k, text_eq_iff n j)

pub occ-keys-remove_all :
    (n : Text) (rs : List Text) (disk : Disk)
    → occ n (keys (remove_all rs disk).names)
      ≡ (if text_in n rs then 0 else occ n (keys disk.names))
unfolding remove_all remove text_in
occ-keys-remove_all n [] disk = refl
occ-keys-remove_all n (r ∷ rs) disk =
    ground (arith, occ-keys-remove_all n rs (remove r disk), occ-keys-delete n r disk.names)
