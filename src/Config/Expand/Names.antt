-- ===== src/Config/Expand/Names.antt =====
-- internal/config/config.go: the names of the processes that one configuration is expanded to.
use mathlib.Core.List.{append_assoc, append_cancel_left, append_cancel_right}
use gosupervisor.Prelude.{
  ℕ, pos, zero, suc, ◌+◌, ◌-◌, ◌≡◌, refl, ap, sym, ◌∙◌, inl, inr, true, false, List, [], ◌∷◌, ◌++◌,
  some, arith, ◌==◌, Text, length, get_elem?, replicate, IsFree, AllDigits, decimal,
  decimal-AllDigits, digits_value, digits_value-decimal, Bool-cases, nat_of, reaches,
}
use gosupervisor.Config.Expand.{
  starts_with_zero, format_int, expand_template, ProgramTemplate, instance_of, instances_from,
  expand_program_config,
}
use gosupervisor.Config.Expand.Pieces.{
  Piece, literal, program_name, process_num, render, values, IsWidth, ArePlain, numbers,
  expand_template-render,
}

-- The text without its leading spaces.
unfoldable unpad : Text → Text
unpad [] = []
unpad (c ∷ s) = elim (c == 32) [ true ↦ unpad s | false ↦ c ∷ s ]

unpad-AllDigits : (s : Text) → AllDigits s → unpad s ≡ s
unfolding unpad
unpad-AllDigits [] d = refl
unpad-AllDigits (c ∷ s) d =
    let other : (c == 32) ≡ false = ground (arith, d.0) in rw (other, unpad) refl

unpad-replicate : (n : ℕ) (s : Text) → unpad (replicate n 32 ++ s) ≡ unpad s
unfolding unpad
unpad-replicate zero s = refl
unpad-replicate (suc n) s = unpad-replicate n s

zeros-AllDigits : (n : ℕ) (s : Text) → AllDigits s → AllDigits (replicate n b'0' ++ s)
zeros-AllDigits zero s d = d
zeros-AllDigits (suc n) s d = (refl, zeros-AllDigits n s d)

digits_value-zeros : (n : ℕ) (s : Text) → digits_value 0 (replicate n b'0' ++ s) ≡ digits_value 0 s
unfolding digits_value
digits_value-zeros zero s = refl
digits_value-zeros (suc n) s = digits_value-zeros n s

-- The number can be read off.
format_int_lem :
    (digits : Text) (num : ℕ)
    → IsWidth digits
    → digits_value 0 (unpad (format_int digits num)) ≡ some num
unfolding format_int
format_int_lem digits num (d, (w, e)) = elim (Bool-cases (starts_with_zero digits)) [
  | inl z ↦
      let k = w - length (decimal num) in
      rw (e, format_int, z)
        (ap (digits_value 0) (
            unpad-AllDigits (replicate k b'0' ++ decimal num)
              (zeros-AllDigits k (decimal num) (decimal-AllDigits num)))
          ∙ digits_value-zeros k (decimal num)
          ∙ digits_value-decimal num)
  | inr z ↦
      let k = w - length (decimal num) in
      rw (e, format_int, z)
        (ap (digits_value 0) (
            unpad-replicate k (decimal num) ∙ unpad-AllDigits (decimal num) (decimal-AllDigits num))
          ∙ digits_value-decimal num)
]

format_int_inj :
    (digits : Text) (n m : ℕ) → IsWidth digits → format_int digits n ≡ format_int digits m → n ≡ m
format_int_inj digits n m w h =
    let same : some n ≡ some m =
      sym (format_int_lem digits n w)
      ∙ ap (λ s. digits_value 0 (unpad s)) h
      ∙ format_int_lem digits m w in
    cc

values-append :
    (name : Text) (num : ℕ) (ps qs : List Piece)
    → values name num (ps ++ qs) ≡ values name num ps ++ values name num qs
unfolding values
values-append name num [] qs = refl
values-append name num (literal t ∷ ps) qs =
    ap (λ s. t ++ s) (values-append name num ps qs)
    ∙ sym (append_assoc t (values name num ps) (values name num qs))
values-append name num (program_name ∷ ps) qs =
    ap (λ s. name ++ s) (values-append name num ps qs)
    ∙ sym (append_assoc name (values name num ps) (values name num qs))
values-append name num (process_num ds ∷ ps) qs =
    ap (λ s. format_int ds num ++ s) (values-append name num ps qs)
    ∙ sym (append_assoc (format_int ds num) (values name num ps) (values name num qs))

-- Without places for the number the text is the same for all.
values-fixed :
    (name : Text) (n m : ℕ) (ps : List Piece) → numbers ps ≡ 0 → values name n ps ≡ values name m ps
unfolding values numbers
values-fixed name n m [] h = refl
values-fixed name n m (literal t ∷ ps) h = ap (λ s. t ++ s) (values-fixed name n m ps h)
values-fixed name n m (program_name ∷ ps) h = ap (λ s. name ++ s) (values-fixed name n m ps h)
values-fixed name n m (process_num ds ∷ ps) h = absurd (omega (arith, h))

values_inj :
    (name ds : Text) (n m : ℕ) (pre post : List Piece)
    → IsWidth ds
    → numbers pre ≡ 0
    → numbers post ≡ 0
    → values name n (pre ++ process_num ds ∷ post) ≡ values name m (pre ++ process_num ds ∷ post)
    → n ≡ m
values_inj name ds n m pre post w a b h =
    let split = λ (k : ℕ). values-append name k pre (process_num ds ∷ post) in
    let tails : values name n pre ++ (format_int ds n ++ values name n post)
        ≡ values name n pre ++ (format_int ds m ++ values name n post) =
      unfold values in
      sym (split n)
      ∙ h
      ∙ split m
      ∙ ap (λ s. s ++ (format_int ds m ++ values name m post)) (values-fixed name m n pre a)
      ∙ ap (λ s. values name n pre ++ (format_int ds m ++ s)) (values-fixed name m n post b) in
    format_int_inj ds n m w (
      append_cancel_right (format_int ds n) (format_int ds m) (values name n post)
        (append_cancel_left (values name n pre) _ _ tails))

width :
    (pre : List Piece) (ds : Text) (post : List Piece)
    → ArePlain (pre ++ process_num ds ∷ post)
    → IsWidth ds
width [] ds post p = p.0
width (literal t ∷ pre) ds post p = width pre ds post p.1
width (program_name ∷ pre) ds post p = width pre ds post p
width (process_num es ∷ pre) ds post p = width pre ds post p.1

module _ {ℓ} {Rest : Type ℓ} where
  length-instances_from :
      (cfg : ProgramTemplate Rest) (i left : ℕ) → length (instances_from cfg i left) ≡ left
  unfolding instances_from
  length-instances_from cfg i zero = refl
  length-instances_from cfg i (suc left) = ap suc (length-instances_from cfg (i + 1) left)

  get_elem?-instances_from :
      (cfg : ProgramTemplate Rest) (i left j : ℕ) (a : ProgramTemplate Rest)
      → get_elem? (instances_from cfg i left) j ≡ some a
      → a.name ≡ expand_template cfg.process_name cfg.name (i + j + 1)
  unfolding instances_from instance_of
  get_elem?-instances_from cfg i zero j a h = cc h
  get_elem?-instances_from cfg i (suc left) zero a h =
      let same : instance_of cfg (i + 1) ≡ a = cc h in
      let e : i + 1 ≡ i + 0 + 1 = omega arith in
      sym (ap (λ r. r.name) same) ∙ ap (expand_template cfg.process_name cfg.name) e
  get_elem?-instances_from cfg i (suc left) (suc j) a h =
      let e : i + 1 + j + 1 ≡ i + suc j + 1 = omega arith in
      get_elem?-instances_from cfg (i + 1) left j a h
      ∙ ap (expand_template cfg.process_name cfg.name) e

  expanded :
      (cfg : ProgramTemplate Rest) (procs : ℕ)
      → cfg.num_procs ≡ pos (suc (suc procs))
      → expand_program_config cfg ≡ instances_from cfg 0 (suc (suc procs))
  unfolding expand_program_config
  expanded cfg procs many =
      let large : reaches 1 cfg.num_procs ≡ false = ap (reaches 1) many ∙ ground arith in
      rw (large) (ap (λ z. instances_from cfg 0 (nat_of z)) many)

  -- For a program of several processes, whose name has no percent sign: where the template of the
  -- process names has one place for the number, with literals without a percent sign and a width up to
  -- a million, the program is expanded to as many configurations as it has processes, and no two of
  -- them have the same name.
  pub expand_program_config-names :
      (cfg : ProgramTemplate Rest) (procs : ℕ) (ds : Text) (pre post : List Piece)
      → cfg.num_procs ≡ pos (suc (suc procs))
      → cfg.process_name ≡ render (pre ++ process_num ds ∷ post)
      → IsFree b'%' cfg.name
      → ArePlain (pre ++ process_num ds ∷ post)
      → numbers pre ≡ 0
      → numbers post ≡ 0
      → (length (expand_program_config cfg) ≡ suc (suc procs))
        × ((i j : ℕ) (a b : ProgramTemplate Rest)
            → get_elem? (expand_program_config cfg) i ≡ some a
            → get_elem? (expand_program_config cfg) j ≡ some b
            → a.name ≡ b.name
            → i ≡ j)
  expand_program_config-names cfg procs ds pre post many named free plain one_pre one_post =
      rw (expanded cfg procs many) (
        length-instances_from cfg 0 (suc (suc procs)),
        λ i j a b at_i at_j same.
            let name_of = λ (k : ℕ).
              ap (λ t. expand_template t cfg.name k) named
              ∙ expand_template-render (pre ++ process_num ds ∷ post) cfg.name k free plain in
            let e =
              values_inj cfg.name ds (0 + i + 1) (0 + j + 1) pre post (width pre ds post plain)
                one_pre one_post
                (sym (name_of (0 + i + 1))
                  ∙ sym (get_elem?-instances_from cfg 0 (suc (suc procs)) i a at_i)
                  ∙ same
                  ∙ get_elem?-instances_from cfg 0 (suc (suc procs)) j b at_j
                  ∙ name_of (0 + j + 1)) in
            omega (arith, e),
      )
