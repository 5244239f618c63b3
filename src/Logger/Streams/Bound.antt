-- ===== src/Logger/Streams/Bound.antt =====
-- internal/logger/logger.go: how large the file of a stream can be, and what is lost after a failure.
use gosupervisor.Prelude.{
  ℕ, ◌*◌, ◌<◌, ◌≡◌, refl, ap, sym, ◌∙◌, Bool, true, false, List, [], ◌∷◌, Option, none, some, arith,
  Text, lookup, length, get_elem?, map,
}
use gosupervisor.Logger.Disk.{Disk, Env, size_of}
use gosupervisor.Logger.Backups.{Sorting}
use gosupervisor.Logger.Streams.{Stream, Error, write_failed, rotate, write_and_rotate, log_all}
use gosupervisor.Logger.Streams.Rotation.{rotate-rename_failed}
use gosupervisor.Logger.Streams.Steps.{IsWithin, size_of_lem, step_lem, closed_step}

-- No call of the rotations fails.
abbrev pub Succeed : List (Env × Text) → Type 0
Succeed [] = Unit
Succeed ((env, p) ∷ more) = (env.rename_ok ≡ true) × (env.open_ok ≡ true) × Succeed more

log_all-step :
    (sort : Sorting) (compress : Bool) (env : Env) (p : Text) (more : List (Env × Text))
    (s : Stream) (d : Disk) (s1 s2 : Stream) (d1 d2 : Disk) (err : Option Error)
    (errs : List (Option Error))
    → write_and_rotate sort env compress p s d ≡ (s1, d1, err)
    → log_all sort compress more s1 d1 ≡ (s2, d2, errs)
    → log_all sort compress ((env, p) ∷ more) s d ≡ (s2, d2, err ∷ errs)
unfolding log_all
log_all-step sort compress env p more s d s1 s2 d1 d2 err errs e f =
    let go : Stream × Disk × Option Error → Stream × Disk × List (Option Error) = λ r. (
      (log_all sort compress more r.0 r.1).0,
      (log_all sort compress more r.0 r.1).1,
      r.2 ∷ (log_all sort compress more r.0 r.1).2,
    ) in
    ap go e ∙ ap (λ r. (r.0, r.1, err ∷ r.2)) f

log_all_lem :
    (sort : Sorting) (compress : Bool) (writes : List (Env × Text)) (s : Stream) (d : Disk)
    → Succeed writes
    → IsWithin s d
    → (s' : Stream) × (d' : Disk) × (log_all sort compress writes s d
        ≡ (s', d', map (λ w. none) writes))
      × IsWithin s' d'
      × (s'.path ≡ s.path)
      × (s'.max_size ≡ s.max_size)
unfolding log_all
log_all_lem sort compress [] s d ok w = (s, d, refl, w, refl, refl)
log_all_lem sort compress ((env, p) ∷ more) s d (renames, opens, ok) w =
    let (s1, d1, e, w1, path, limit) = step_lem sort compress env renames opens p s d w in
    let (s2, d2, e', w2, path', limit') = log_all_lem sort compress more s1 d1 ok w1 in
    (
      s2,
      d2,
      log_all-step sort compress env p more s d s1 s2 d1 d2 none (map (λ w. none) more) e e',
      w2,
      path' ∙ path,
      limit' ∙ limit,
    )

-- For a stream that is open, whose counter is 0 and whose file is smaller than its limit: after any
-- writes, each of which is followed by the rotation that it asks for, where no call of the rotations
-- fails, no write has failed, and the file at the path is smaller than twice the limit, however large
-- the writes are.
pub log_all-bounded :
    (sort : Sorting) (compress : Bool) (writes : List (Env × Text)) (s : Stream) (d : Disk)
    (number : ℕ) (text : Text)
    → Succeed writes
    → s.file ≡ some number
    → lookup s.path d.names ≡ some number
    → get_elem? d.files number ≡ some text
    → s.bytes_written ≡ 0
    → length text < s.max_size
    → (s' : Stream) × (d' : Disk) × (size : ℕ) × (log_all sort compress writes s d
        ≡ (s', d', map (λ w. none) writes))
      × (size_of s.path d' ≡ some size)
      × (size < 2 * s.max_size)
log_all-bounded sort compress writes s d number text ok opened named holds zero_bytes small =
    let w : IsWithin s d = record {
      number = number;
      text = text;
      writes = opened;
      named = named;
      holds = holds;
      limited = omega (arith, small);
      counted = omega (arith, small);
      bounded = omega (arith, small);
    } in
    let (s', d', e, w', path, limit) = log_all_lem sort compress writes s d ok w in
    (
      s',
      d',
      length w'.text,
      e,
      ap (λ k. size_of k d') (sym path)
          ∙ size_of_lem s'.path d' w'.number w'.text w'.named w'.holds,
      omega (arith, w'.bounded, limit),
    )

closed_lem :
    (sort : Sorting) (compress : Bool) (writes : List (Env × Text)) (s : Stream) (d : Disk)
    → s.file ≡ none
    → s.bytes_written < s.max_size
    → log_all sort compress writes s d ≡ (s, d, map (λ w. some write_failed) writes)
unfolding log_all
closed_lem sort compress [] s d closed below = refl
closed_lem sort compress ((env, p) ∷ more) s d closed below =
    log_all-step sort compress env p more s d s s d d (some write_failed)
      (map (λ w. some write_failed) more) (closed_step sort env compress p s d closed below)
      (closed_lem sort compress more s d closed below)

-- For a stream whose counter is below its limit: after a rotation in which the file cannot be
-- renamed, the stream is closed and every later write to it fails and changes nothing, whether or not
-- the system would let a later rotation succeed.
pub log_all-rename_failed :
    (sort : Sorting) (compress : Bool) (env : Env) (writes : List (Env × Text)) (s : Stream)
    (d : Disk) (number : ℕ)
    → env.rename_ok ≡ false
    → lookup s.path d.names ≡ some number
    → s.bytes_written < s.max_size
    → log_all sort compress writes (rotate sort env compress s d).0 (rotate sort env compress s d).1
      ≡ (record s { file = none }, d, map (λ w. some write_failed) writes)
log_all-rename_failed sort compress env writes s d number bad named below =
    ap (λ r. log_all sort compress writes r.0 r.1)
      (rotate-rename_failed sort env compress s d number bad named)
    ∙ closed_lem sort compress writes (record s { file = none }) d refl below
