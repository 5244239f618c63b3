-- ===== src/Config/Expand/Pieces.antt =====
-- internal/config/config.go: what `expandTemplate` makes of a template that is given in pieces.
use mathlib.Core.List.{append_assoc, append-nil}
use gosupervisor.Prelude.{
  ℕ, zero, suc, ◌+◌, ◌-◌, ◌≤◌, ◌≡◌, refl, ap, sym, ◌∙◌, true, false, List, [], ◌∷◌, ◌++◌, none,
  some, arith, if◌then◌else◌, ◌==◌, Text, codes, has_prefix, length, length-append, take, drop,
  take-length-append, drop-length-append, IsFree, IsFree-append, AllDigits, decimal, decimal-IsFree,
  replicate, AllDigits-IsFree,
}
use gosupervisor.Config.Expand.{
  replace_from, replace_all, index, is_valid_int_format, parse_width, starts_with_zero, format_int,
  name_marker, marker, expand_round, expand_loop, expand_template,
}

-- Text as it is, the program's name, and the number of the process with its width.
pub data Piece : Type 0 where
  literal : Text → Piece
  program_name : Piece
  process_num : (digits : Text) → Piece

unfoldable pub render : List Piece → Text
render [] = []
render (literal t ∷ ps) = t ++ render ps
render (program_name ∷ ps) = name_marker ++ render ps
render (process_num digits ∷ ps) = marker ++ (digits ++ b'd' ∷ render ps)

-- What the pieces stand for.
unfoldable pub values : (name : Text) → (num : ℕ) → List Piece → Text
unfolding format_int
values name num [] = []
values name num (literal t ∷ ps) = t ++ values name num ps
values name num (program_name ∷ ps) = name ++ values name num ps
values name num (process_num digits ∷ ps) = format_int digits num ++ values name num ps

-- A width is written in digits and is small enough to be taken.
abbrev pub IsWidth : Text → Type 0
IsWidth digits = AllDigits digits × ((w : ℕ) × (parse_width 0 digits ≡ some w))

-- No literal has a percent sign, and the widths are widths.
abbrev pub ArePlain : List Piece → Type 0
ArePlain [] = Unit
ArePlain (literal t ∷ ps) = IsFree b'%' t × ArePlain ps
ArePlain (program_name ∷ ps) = ArePlain ps
ArePlain (process_num digits ∷ ps) = IsWidth digits × ArePlain ps

-- The text after the names are put in.
unfoldable render_named : Text → List Piece → Text
render_named name [] = []
render_named name (literal t ∷ ps) = t ++ render_named name ps
render_named name (program_name ∷ ps) = name ++ render_named name ps
render_named name (process_num digits ∷ ps) = marker ++ (digits ++ b'd' ∷ render_named name ps)

copy_lem :
    (new t s : Text)
    → IsFree b'%' t
    → replace_from name_marker new 0 (t ++ s) ≡ t ++ replace_from name_marker new 0 s
unfolding replace_from has_prefix
copy_lem new [] s f = refl
copy_lem new (c ∷ t) s f = rw (f.0) (ap (◌∷◌ c) (copy_lem new t s f.1))

replace_lem :
    (name : Text) (ps : List Piece)
    → ArePlain ps
    → replace_from name_marker name 0 (render ps) ≡ render_named name ps
unfolding replace_from has_prefix render render_named
replace_lem name [] p = refl
replace_lem name (literal t ∷ ps) p =
    copy_lem name t (render ps) p.0 ∙ ap (λ s. t ++ s) (replace_lem name ps p.1)
replace_lem name (program_name ∷ ps) p = ap (λ s. name ++ s) (replace_lem name ps p)
replace_lem name (process_num digits ∷ ps) p =
    ap (λ s. marker ++ s)
      (copy_lem name digits (b'd' ∷ render ps) (AllDigits-IsFree b'%' digits refl p.0.0)
        ∙ ap (λ s. digits ++ b'd' ∷ s) (replace_lem name ps p.1))

index_at : (t s : Text) → IsFree b'%' t → index (t ++ (marker ++ s)) marker ≡ some (length t)
unfolding index has_prefix
index_at [] s f = refl
index_at (c ∷ t) s f = rw (f.0, index, index_at t s f.1) refl

index_free : (t : Text) → IsFree b'%' t → index t marker ≡ none
unfolding index has_prefix
index_free [] f = refl
index_free (c ∷ t) f = rw (f.0, index, index_free t f.1) refl

index_d : (ds s : Text) → AllDigits ds → index (ds ++ b'd' ∷ s) (codes "d") ≡ some (length ds)
unfolding index has_prefix
index_d [] s d = refl
index_d (c ∷ ds) s d =
    let other : (c == b'd') ≡ false = ground (arith, d.0) in
    rw (other, index, index_d ds s d.1) refl

is_valid_int_format_lem : (ds : Text) → AllDigits ds → is_valid_int_format (ds ++ b'd' ∷ []) ≡ true
unfolding is_valid_int_format
is_valid_int_format_lem [] d = refl
is_valid_int_format_lem (c ∷ []) d = ground (arith, d.0)
is_valid_int_format_lem (c ∷ b ∷ ds) d = ground (arith, d.0, is_valid_int_format_lem (b ∷ ds) d.1)

replicate-IsFree : (n c : ℕ) → (c == b'%') ≡ false → IsFree b'%' (replicate n c)
replicate-IsFree zero c h = tt
replicate-IsFree (suc n) c h = (h, replicate-IsFree n c h)

format_int-IsFree : (digits : Text) (num : ℕ) → IsWidth digits → IsFree b'%' (format_int digits num)
unfolding format_int
format_int-IsFree digits num (d, (w, e)) =
    rw (e, format_int)
      (IsFree-append b'%'
        (replicate (w - length (decimal num)) (if starts_with_zero digits then b'0' else 32))
        (decimal num)
        (replicate-IsFree (w - length (decimal num)) (if starts_with_zero digits then b'0' else 32)
          (ground arith))
        (decimal-IsFree b'%' num refl))

drop_past : (t m s : Text) → drop (length t + length m) (t ++ (m ++ s)) ≡ s
drop_past [] m s = ap (λ n. drop n (m ++ s)) (omega arith) ∙ drop-length-append m s
drop_past (c ∷ t) m s =
    let e : suc (length t) + length m ≡ suc (length t + length m) = omega arith in
    ap (λ n. drop n (c ∷ (t ++ (m ++ s)))) e ∙ drop_past t m s

drop_after : (ds : Text) (c : ℕ) (s : Text) → drop (length ds + 1) (ds ++ c ∷ s) ≡ s
drop_after [] c s = refl
drop_after (b ∷ ds) c s =
    let e : suc (length ds) + 1 ≡ suc (length ds + 1) = omega arith in
    ap (λ n. drop n (b ∷ (ds ++ c ∷ s))) e ∙ drop_after ds c s

take_after : (ds : Text) (c : ℕ) (s : Text) → take (length ds + 1) (ds ++ c ∷ s) ≡ ds ++ c ∷ []
take_after [] c s = refl
take_after (b ∷ ds) c s =
    let e : suc (length ds) + 1 ≡ suc (length ds + 1) = omega arith in
    ap (λ n. take n (b ∷ (ds ++ c ∷ s))) e ∙ ap (◌∷◌ b) (take_after ds c s)

valid_at :
    (ds s : Text)
    → AllDigits ds
    → is_valid_int_format (take (length ds + 1) (ds ++ b'd' ∷ s)) ≡ true
valid_at ds s d = ap is_valid_int_format (take_after ds b'd' s) ∙ is_valid_int_format_lem ds d

round_lem :
    (t digits s : Text) (num : ℕ)
    → IsFree b'%' t
    → AllDigits digits
    → expand_round (t ++ (marker ++ (digits ++ b'd' ∷ s))) num
      ≡ some (t ++ (format_int digits num ++ s))
unfolding expand_round
round_lem t digits s num f d =
    rw
      (
        index_at t (digits ++ b'd' ∷ s) f,
        expand_round,
        drop_past t marker (digits ++ b'd' ∷ s),
        index_d digits s d,
        drop_past t marker (digits ++ b'd' ∷ s),
        valid_at digits s d,
        take-length-append t (marker ++ (digits ++ b'd' ∷ s)),
        take-length-append digits (b'd' ∷ s),
        drop_after digits b'd' s,
      )
      refl

-- The numbers that are to be put in.
unfoldable pub numbers : List Piece → ℕ
numbers [] = 0
numbers (process_num digits ∷ ps) = suc (numbers ps)
numbers (literal t ∷ ps) = numbers ps
numbers (program_name ∷ ps) = numbers ps

numbers-length : (name : Text) (ps : List Piece) → numbers ps ≤ length (render_named name ps)
unfolding numbers render_named
numbers-length name [] = omega arith
numbers-length name (literal t ∷ ps) =
    omega (arith, numbers-length name ps, length-append t (render_named name ps))
numbers-length name (program_name ∷ ps) =
    omega (arith, numbers-length name ps, length-append name (render_named name ps))
numbers-length name (process_num digits ∷ ps) =
    omega (arith, numbers-length name ps, length-append digits (b'd' ∷ render_named name ps))

stop_lem : (fuel : ℕ) (t : Text) (num : ℕ) → IsFree b'%' t → expand_loop fuel t num ≡ t
unfolding expand_loop expand_round
stop_lem zero t num f = refl
stop_lem (suc fuel) t num f = rw (index_free t f, expand_round, expand_loop) refl

loop_lem :
    (name : Text) (num : ℕ) (ps : List Piece) (fuel : ℕ) (t : Text)
    → IsFree b'%' name
    → ArePlain ps
    → IsFree b'%' t
    → numbers ps ≤ fuel
    → expand_loop fuel (t ++ render_named name ps) num ≡ t ++ values name num ps
unfolding expand_loop render_named values numbers
loop_lem name num [] fuel t n p f few = rw (append-nil t) (stop_lem fuel t num f)
loop_lem name num (literal u ∷ ps) fuel t n p f few =
    ap (λ s. expand_loop fuel s num) (sym (append_assoc t u (render_named name ps)))
    ∙ loop_lem name num ps fuel (t ++ u) n p.1 (IsFree-append b'%' t u f p.0) few
    ∙ append_assoc t u (values name num ps)
loop_lem name num (program_name ∷ ps) fuel t n p f few =
    ap (λ s. expand_loop fuel s num) (sym (append_assoc t name (render_named name ps)))
    ∙ loop_lem name num ps fuel (t ++ name) n p (IsFree-append b'%' t name f n) few
    ∙ append_assoc t name (values name num ps)
loop_lem name num (process_num digits ∷ ps) zero t n p f few = absurd (omega (arith, few))
loop_lem name num (process_num digits ∷ ps) (suc fuel) t n p f few =
    let out = format_int digits num in
    rw (round_lem t digits (render_named name ps) num f p.0.0, expand_loop)
      (ap (λ s. expand_loop fuel s num) (sym (append_assoc t out (render_named name ps)))
        ∙ loop_lem name num ps fuel (t ++ out) n p.1
            (IsFree-append b'%' t out f (format_int-IsFree digits num p.0)) (omega (arith, few))
        ∙ append_assoc t out (values name num ps))

-- For a program's name without a percent sign: a template of literals without one, of places for the
-- name and of places for the number, with widths up to a million, is expanded to what its pieces stand
-- for, in their order.
pub expand_template-render :
    (ps : List Piece) (name : Text) (num : ℕ)
    → IsFree b'%' name
    → ArePlain ps
    → expand_template (render ps) name num ≡ values name num ps
unfolding expand_template replace_all
expand_template-render ps name num n p =
    rw (replace_lem name ps p)
      (loop_lem name num ps (length (render_named name ps)) [] n p tt (numbers-length name ps))
