-- ===== src/Config/Expand.antt =====
-- internal/config/config.go: `expandTemplate`, `isValidIntFormat` and `ExpandProgramConfig`, with the
-- functions of packages `strings` and `fmt` that they call. `copyProgramConfig` is the identity here:
-- values are not shared.
pub mod Ending
pub mod Pieces
pub mod Names
use gosupervisor.Prelude.{
  ℕ, zero, suc, ◌+◌, ◌-◌, ◌*◌, ℤ, pos, Bool, true, false, ◌&&◌, List, [], ◌∷◌, ◌++◌, Option, none,
  some, if◌then◌else◌, ◌==◌, ltb, Text, codes, has_prefix, decimal, is_digit, length, take, drop,
  replicate, reaches, nat_of,
}

-- `strings.ReplaceAll` with an `old` that is not empty; `skip` bytes of a hit are still to pass.
unfoldable pub replace_from : (old new : Text) → (skip : ℕ) → Text → Text
unfolding has_prefix
replace_from old new skip [] = []
replace_from old new (suc skip) (c ∷ s) = replace_from old new skip s
replace_from old new zero (c ∷ s) =
    let hit = has_prefix (c ∷ s) old in
    let rest = replace_from old new (if hit then length old - 1 else 0) s in
    if hit then new ++ rest else c ∷ rest

unfoldable pub replace_all : Text → (old new : Text) → Text
unfolding replace_from
replace_all s old new = replace_from old new 0 s

-- `strings.Index`
unfoldable pub index : Text → Text → Option ℕ
unfolding has_prefix
index [] sub = if has_prefix [] sub then some 0 else none
index (c ∷ s) sub = elim (has_prefix (c ∷ s) sub) [
  | true ↦ some 0
  | false ↦ elim (index s sub) [ none ↦ none | some i ↦ some (suc i) ]
]

-- The last byte is a d, and those before it are digits.
unfoldable pub is_valid_int_format : Text → Bool
is_valid_int_format [] = false
is_valid_int_format (c ∷ []) = c == b'd'
is_valid_int_format (c ∷ b ∷ s) = is_digit c && is_valid_int_format (b ∷ s)

-- `parsenum` of package fmt: a number above a million stops at the next digit.
unfoldable pub parse_width : ℕ → Text → Option ℕ
parse_width num [] = some num
parse_width num (c ∷ s) = elim (ltb 1000000 num) [
  | true ↦ none
  | false ↦ parse_width (num * 10 + (c - 48)) s
]

abbrev pub starts_with_zero : Text → Bool
starts_with_zero [] = false
starts_with_zero (c ∷ s) = c == b'0'

-- `fmt.Sprintf("%"+digits+"d", n)`
unfoldable pub format_int : (digits : Text) → ℕ → Text
unfolding parse_width decimal
format_int digits n = elim (parse_width 0 digits) [
  | none ↦ codes "%!(NOVERB)%!(EXTRA int=" ++ (decimal n ++ codes ")")
  | some width ↦
      replicate (width - length (decimal n)) (if starts_with_zero digits then b'0' else 32)
      ++ decimal n
]

abbrev pub name_marker : Text
name_marker = codes "%(program_name)s"

abbrev pub marker : Text
marker = codes "%(process_num)"

-- One round of the loop; `none` is a `break`.
unfoldable pub expand_round : Text → ℕ → Option Text
unfolding index is_valid_int_format format_int
expand_round s process_num = elim (index s marker) [
  | none ↦ none
  | some start ↦
      let after_marker = drop (start + length marker) s in
      elim (index after_marker (codes "d")) [
        | none ↦ none
        | some d_idx ↦
            if is_valid_int_format (take (d_idx + 1) after_marker)
            then some (
                take start s
                ++ (format_int (take d_idx after_marker) process_num
                    ++ drop (d_idx + 1) after_marker))
            else none
      ]
]

unfoldable pub expand_loop : ℕ → Text → ℕ → Text
unfolding expand_round
expand_loop zero s process_num = s
expand_loop (suc fuel) s process_num = elim (expand_round s process_num) [
  | none ↦ s
  | some s' ↦ expand_loop fuel s' process_num
]

unfoldable pub expand_template : (tmpl program_name : Text) → (process_num : ℕ) → Text
unfolding replace_all expand_loop
expand_template tmpl program_name process_num =
    let s = replace_all tmpl name_marker program_name in expand_loop (length s) s process_num

-- What is expanded of `ProgramConfig`; `rest` is all the other fields, which are copied.
pub record ProgramTemplate {ℓ} (Rest : Type ℓ) : Type ℓ where
  pub name : Text
  pub command : Text
  pub directory : Text
  pub stdout_log_file : Text
  pub stderr_log_file : Text
  pub stdin_file : Text
  pub environment : List (Text × Text)
  pub num_procs : ℤ
  pub process_name : Text
  pub rest : Rest

unfoldable pub expand_values : Text → ℕ → List (Text × Text) → List (Text × Text)
unfolding expand_template
expand_values name num [] = []
expand_values name num ((k, v) ∷ env) = (k, expand_template v name num) ∷ expand_values name num env

module _ {ℓ} {Rest : Type ℓ} where
  -- The body of the loop for one number.
  unfoldable pub instance_of : ProgramTemplate Rest → ℕ → ProgramTemplate Rest
  unfolding expand_template expand_values
  instance_of cfg num = record {
    name = expand_template cfg.process_name cfg.name num;
    command = expand_template cfg.command cfg.name num;
    directory = expand_template cfg.directory cfg.name num;
    stdout_log_file = expand_template cfg.stdout_log_file cfg.name num;
    stderr_log_file = expand_template cfg.stderr_log_file cfg.name num;
    stdin_file = expand_template cfg.stdin_file cfg.name num;
    environment = expand_values cfg.name num cfg.environment;
    num_procs = pos 1;
    process_name = cfg.process_name;
    rest = cfg.rest;
  }

  -- The loop from `i` on, with `left` rounds to go.
  unfoldable pub instances_from : ProgramTemplate Rest → (i left : ℕ) → List (ProgramTemplate Rest)
  unfolding instance_of
  instances_from cfg i zero = []
  instances_from cfg i (suc left) = instance_of cfg (i + 1) ∷ instances_from cfg (i + 1) left

  unfoldable pub expand_program_config : ProgramTemplate Rest → List (ProgramTemplate Rest)
  unfolding instances_from
  expand_program_config cfg =
      if reaches 1 cfg.num_procs
      then record cfg { num_procs = pos 1 } ∷ []
      else instances_from cfg 0 (nat_of cfg.num_procs)
