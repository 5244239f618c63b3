-- ===== src/Logger/Streams/Steps.antt =====
-- internal/logger/logger.go: one write and the rotation that it asks for.
use gosupervisor.Prelude.{
  ℕ, zero, suc, ◌+◌, ◌-◌, ◌*◌, ◌<◌, ◌≡◌, refl, ap, ◌∙◌, inl, inr, Bool, true, false, List, [], ◌∷◌,
  ◌++◌, Option, none, some, arith, if◌then◌else◌, leb, Text, lookup, length, length-append,
  get_elem?, set, get_elem?-set_self, Bool-cases,
}
use gosupervisor.Logger.Disk.{Disk, Env, size_of, append_to}
use gosupervisor.Logger.Backups.{Sorting}
use gosupervisor.Logger.Streams.{
  Stream, Error, write_failed, Sorting, count_bytes, write, rotate, is_full, rotate_if_full,
  write_and_rotate,
}
use gosupervisor.Logger.Streams.Rotation.{rotate_lem}

-- What holds between two writes.
pub record IsWithin (s : Stream) (d : Disk) : Type 0 where
  pub number : ℕ
  pub text : Text
  pub writes : s.file ≡ some number
  pub named : lookup s.path d.names ≡ some number
  pub holds : get_elem? d.files number ≡ some text
  pub limited : 0 < s.max_size
  pub counted : length text < s.max_size + s.bytes_written
  pub bounded : length text < 2 * s.max_size

get_elem?-below :
    (files : List Text) (i : ℕ) (t : Text) → get_elem? files i ≡ some t → i < length files
get_elem?-below [] i t h = cc h
get_elem?-below (f ∷ files) zero t h = omega arith
get_elem?-below (f ∷ files) (suc i) t h = omega (arith, get_elem?-below files i t h)

pub size_of_lem :
    (path : Text) (d : Disk) (number : ℕ) (text : Text)
    → lookup path d.names ≡ some number
    → get_elem? d.files number ≡ some text
    → size_of path d ≡ some (length text)
unfolding size_of
size_of_lem path d number text named holds = rw (named, size_of, holds) refl

is_full_lem :
    (path : Text) (max_size : ℕ) (d : Disk) (size : ℕ)
    → size_of path d ≡ some size
    → is_full path max_size d ≡ leb max_size size
unfolding is_full
is_full_lem path max_size d size e = rw (e, is_full) refl

append_to_lem :
    (d : Disk) (number : ℕ) (text p : Text)
    → get_elem? d.files number ≡ some text
    → append_to number p d ≡ record d { files = set d.files number (text ++ p) }
unfolding append_to
append_to_lem d number text p holds = rw (holds, append_to) refl

write_lem :
    (p : Text) (s : Stream) (d : Disk) (number : ℕ) (text : Text)
    → s.file ≡ some number
    → get_elem? d.files number ≡ some text
    → write p s d ≡ (
      (count_bytes (length p) s).0,
      record d { files = set d.files number (text ++ p) },
      none,
      (count_bytes (length p) s).1,
    )
unfolding write
write_lem p s d number text writes holds =
    ground (arith, writes, append_to_lem d number text p holds)

written_text :
    (d : Disk) (number : ℕ) (text p : Text)
    → get_elem? d.files number ≡ some text
    → get_elem? (set d.files number (text ++ p)) number ≡ some (text ++ p)
written_text d number text p holds =
    get_elem?-set_self d.files number (text ++ p) (get_elem?-below d.files number text holds)

-- An empty file is within the bound.
fresh_IsWithin :
    (s : Stream) (d : Disk) (number : ℕ)
    → s.file ≡ some number
    → lookup s.path d.names ≡ some number
    → get_elem? d.files number ≡ some []
    → 0 < s.max_size
    → IsWithin s d
fresh_IsWithin s d number writes named holds limited = record {
  number = number;
  text = [];
  writes = writes;
  named = named;
  holds = holds;
  limited = limited;
  counted = omega (arith, limited);
  bounded = omega (arith, limited);
}

count_bytes_lem :
    (n : ℕ) (s : Stream)
    → 0 < s.max_size
    → count_bytes n s ≡ (
        if leb s.max_size (s.bytes_written + n)
        then (record s { bytes_written = s.bytes_written + n - s.max_size }, true)
        else (record s { bytes_written = s.bytes_written + n }, false))
unfolding count_bytes
count_bytes_lem n s limited = ground (arith, limited)

module _ (sort : Sorting) (env : Env) (compress : Bool) (p : Text) (s : Stream) (d : Disk)
    (s1 : Stream) (d1 : Disk) (err : Option Error) where
  no_rotation :
      write p s d ≡ (s1, d1, err, false) → write_and_rotate sort env compress p s d ≡ (s1, d1, err)
  unfolding write_and_rotate
  no_rotation e = rw (e, write_and_rotate) refl

  rotation :
      (s2 : Stream) (d2 : Disk)
      → write p s d ≡ (s1, d1, err, true)
      → rotate_if_full sort env compress s1 d1 ≡ (s2, d2)
      → write_and_rotate sort env compress p s d ≡ (s2, d2, err)
  unfolding write_and_rotate
  rotation s2 d2 e f = rw (e, write_and_rotate) (ap (λ r. (r.0, r.1, err)) f)

rotate_if_full_lem :
    (sort : Sorting) (env : Env) (compress : Bool) (s : Stream) (d : Disk) (s' : Stream) (d' : Disk)
    (err : Option Error)
    → rotate sort env compress s d ≡ (s', d', err)
    → rotate_if_full sort env compress s d
      ≡ (if is_full s.path s.max_size d then (s', d') else (s, d))
unfolding rotate_if_full
rotate_if_full_lem sort env compress s d s' d' err e = rw (e, rotate_if_full) refl

module _ (sort : Sorting) (compress : Bool) (env : Env) (renames : env.rename_ok ≡ true)
    (opens : env.open_ok ≡ true) where
  -- One write keeps to the bound, whether or not it asks for a rotation.
  abbrev pub Steps : Text → Stream → Disk → Type 0
  Steps p s d =
      (s' : Stream) × (d' : Disk) × (write_and_rotate sort env compress p s d ≡ (s', d', none))
      × IsWithin s' d'
      × (s'.path ≡ s.path)
      × (s'.max_size ≡ s.max_size)

  -- The counter reaches the limit: the file is turned if it is full.
  full_step :
      (p : Text) (s : Stream) (d : Disk)
      → IsWithin s d
      → leb s.max_size (s.bytes_written + length p) ≡ true
      → Steps p s d
  full_step p s d w full =
      let d1 : Disk = record d { files = set d.files w.number (w.text ++ p) } in
      let s1 : Stream = record s { bytes_written = s.bytes_written + length p - s.max_size } in
      let holds = written_text d w.number w.text p w.holds in
      let (file', d2, turned, named, empty) =
        rotate_lem sort env compress s1 d1 w.number renames opens w.named in
      let s2 : Stream = record s1 { file = some file' } in
      let is = rotate_if_full_lem sort env compress s1 d1 s2 d2 none turned in
      let test =
        is_full_lem s.path s.max_size d1 (length (w.text ++ p))
          (size_of_lem s.path d1 w.number (w.text ++ p) w.named holds) in
      let pick : Bool → Stream × Disk = λ t. if t then (s2, d2) else (s1, d1) in
      let written : write p s d ≡ (s1, d1, none, true) =
        write_lem p s d w.number w.text w.writes w.holds
        ∙ ap (λ r. (r.0, d1, none, r.1)) (count_bytes_lem (length p) s w.limited ∙ rw full refl) in
      elim (Bool-cases (leb s.max_size (length (w.text ++ p)))) [
        | inl large ↦
            let e : write_and_rotate sort env compress p s d ≡ (s2, d2, none) =
              rotation sort env compress p s d s1 d1 none s2 d2 written
                (is ∙ ap pick (test ∙ large)) in
            (s2, d2, e, fresh_IsWithin s2 d2 file' refl named empty w.limited, refl, refl)
        | inr small ↦
            let e : write_and_rotate sort env compress p s d ≡ (s1, d1, none) =
              rotation sort env compress p s d s1 d1 none s1 d1 written
                (is ∙ ap pick (test ∙ small)) in
            let kept : IsWithin s1 d1 = record {
              number = w.number;
              text = w.text ++ p;
              writes = w.writes;
              named = w.named;
              holds = holds;
              limited = w.limited;
              counted = ground (arith, small);
              bounded = ground (arith, small, w.limited);
            } in
            (s1, d1, e, kept, refl, refl)
      ]

  room_step :
      (p : Text) (s : Stream) (d : Disk)
      → IsWithin s d
      → leb s.max_size (s.bytes_written + length p) ≡ false
      → Steps p s d
  room_step p s d w room =
      let d1 : Disk = record d { files = set d.files w.number (w.text ++ p) } in
      let s1 : Stream = record s { bytes_written = s.bytes_written + length p } in
      let size = length-append w.text p in
      let kept : IsWithin s1 d1 = record {
        number = w.number;
        text = w.text ++ p;
        writes = w.writes;
        named = w.named;
        holds = written_text d w.number w.text p w.holds;
        limited = w.limited;
        counted = omega (arith, size, w.counted);
        bounded = ground (arith, size, w.counted, room);
      } in
      let e = no_rotation sort env compress p s d s1 d1 none (
        write_lem p s d w.number w.text w.writes w.holds
        ∙ ap (λ r. (r.0, d1, none, r.1)) (count_bytes_lem (length p) s w.limited ∙ rw room refl)) in
      (s1, d1, e, kept, refl, refl)

  pub step_lem : (p : Text) (s : Stream) (d : Disk) → IsWithin s d → Steps p s d
  step_lem p s d w = elim (Bool-cases (leb s.max_size (s.bytes_written + length p))) [
    | inl full ↦ full_step p s d w full
    | inr room ↦ room_step p s d w room
  ]

-- A write to a closed stream with a counter below the limit changes nothing.
pub closed_step :
    (sort : Sorting) (env : Env) (compress : Bool) (p : Text) (s : Stream) (d : Disk)
    → s.file ≡ none
    → s.bytes_written < s.max_size
    → write_and_rotate sort env compress p s d ≡ (s, d, some write_failed)
closed_step sort env compress p s d closed below =
    let counts : count_bytes 0 s ≡ (s, false) = unfold count_bytes in ground (arith, below) in
    let written : write p s d ≡ (s, d, some write_failed, false) =
      unfold write in ground (arith, closed, counts) in
    no_rotation sort env compress p s d s d (some write_failed) written
