-- ===== src/Fcgi/Quoting.antt =====
-- internal/fcgi/socket.go: what a POSIX shell reads where `Attach` has written quoted arguments.
use mathlib.Core.List.{append-nil, append_assoc}
use gosupervisor.Prelude.{
  ℕ, ◌≡◌, refl, ap, sym, ◌∙◌, inl, inr, Bool, true, false, ◌&&◌, ◌||◌, not, List, [], ◌∷◌, ◌++◌,
  Option, none, some, arith, ◌==◌, codes, ==_iff, if◌then◌else◌, Text, byte_in, contains_any,
  Bool-cases,
}
use gosupervisor.Fcgi.{special, replace_quotes, shell_escape, quote_args, join_blank}

-- A shell's word splitting, which does not tell keywords and assignments from other words: inside
-- single quotes all bytes but the quote are literal, a backslash makes the next byte literal, blanks
-- end a word. `meta` bytes have another meaning; `#` and `~` have one only where a word begins.
pub data Mode : Type 0 where
  bare quoted escaped : Mode

pub data Class : Type 0 where
  quote backslash blank meta plain : Class

-- The bytes that the POSIX shell gives a meaning in an unquoted word, beside blanks, quotes and the
-- backslash: the operators `|&;<>()`, the end of a line, `$`, a back quote, the double quote, the
-- patterns `*?[`, and `!` `{` `}` `]`, which bash or a pattern may read.
abbrev pub shell_specials : Text
shell_specials = codes "|&;<>()$*?[]!{}" ++ 96 ∷ 34 ∷ 10 ∷ []

abbrev begins_word : Option Text → Bool
begins_word none = true
begins_word (some w) = false

pub classify : Option Text → ℕ → Class
unfolding byte_in
classify cur c =
    if c == 39
    then quote
    else if c == 92
    then backslash
    else if c == 32 || c == 9
    then blank
    else if byte_in c shell_specials
    then meta
    else if begins_word cur && (c == b'#' || c == b'~')
    then meta
    else plain

abbrev pub word : Option Text → Text
word none = []
word (some w) = w

abbrev pub flush : Option Text → List Text → List Text
flush none ws = ws
flush (some w) ws = w ∷ ws

-- The words of a text; `none` if it has a meaning beyond words, or an open quote.
unfoldable pub read_words : Mode → Option Text → Text → Option (List Text)
read_words bare cur [] = some (flush cur [])
read_words quoted cur [] = none
read_words escaped cur [] = none
read_words quoted cur (c ∷ s) = elim (c == 39) [
  | true ↦ read_words bare cur s
  | false ↦ read_words quoted (some (word cur ++ c ∷ [])) s
]
read_words escaped cur (c ∷ s) = read_words bare (some (word cur ++ c ∷ [])) s
read_words bare cur (c ∷ s) = elim (classify cur c) [
  | quote ↦ read_words quoted (some (word cur)) s
  | backslash ↦ read_words escaped (some (word cur)) s
  | blank ↦ elim (read_words bare none s) [ none ↦ none | some ws ↦ some (flush cur ws) ]
  | meta ↦ none
  | plain ↦ read_words bare (some (word cur ++ c ∷ [])) s
]

read_quoted :
    (w s rest : Text)
    → read_words quoted (some w) (replace_quotes s ++ 39 ∷ rest)
      ≡ read_words bare (some (w ++ s)) rest
unfolding read_words replace_quotes classify
read_quoted w [] rest = rw (append-nil w)
read_quoted w (c ∷ s) rest = elim (Bool-cases (c == 39)) [
  | inl e ↦
      let is_quote = (==_iff c 39).0 e in
      rw (e, is_quote)
        (read_quoted (w ++ 39 ∷ []) s rest
          ∙ ap (λ v. read_words bare (some v) rest) (append_assoc w (39 ∷ []) s))
  | inr e ↦
      rw (e, read_words, e)
        (read_quoted (w ++ c ∷ []) s rest
          ∙ ap (λ v. read_words bare (some v) rest) (append_assoc w (c ∷ []) s))
]

classify_plain : (w : Text) (c : ℕ) → byte_in c special ≡ false → classify (some w) c ≡ plain
unfolding classify byte_in
classify_plain w c h = ground arith

-- A byte that may begin a word that is not quoted.
abbrev pub starts_plain : Text → Bool
starts_plain [] = true
starts_plain (c ∷ s) = not (c == b'#' || c == b'~')

classify_first :
    (c : ℕ) (s : Text)
    → byte_in c special ≡ false
    → starts_plain (c ∷ s) ≡ true
    → classify none c ≡ plain
unfolding classify byte_in
classify_first c s h k = ground arith

contains_any-cons :
    (c : ℕ) (s chars : Text)
    → contains_any (c ∷ s) chars ≡ false
    → (byte_in c chars ≡ false) × (contains_any s chars ≡ false)
unfolding contains_any
contains_any-cons c s chars h = ground arith

read_plain_byte :
    (cur : Option Text) (c : ℕ) (s : Text)
    → classify cur c ≡ plain
    → read_words bare cur (c ∷ s) ≡ read_words bare (some (word cur ++ c ∷ [])) s
unfolding read_words
read_plain_byte cur c s h = rw (h, read_words)

read_plain :
    (w s rest : Text)
    → contains_any s special ≡ false
    → read_words bare (some w) (s ++ rest) ≡ read_words bare (some (w ++ s)) rest
read_plain w [] rest h = rw (append-nil w)
read_plain w (c ∷ s) rest h =
    let (here, later) = contains_any-cons c s special h in
    read_plain_byte (some w) c (s ++ rest) (classify_plain w c here)
    ∙ read_plain (w ++ c ∷ []) s rest later
    ∙ ap (λ v. read_words bare (some v) rest) (append_assoc w (c ∷ []) s)

-- Read on its own, such an argument is either quoted or plain from its first byte on.
abbrev pub IsReadable : Text → Type 0
IsReadable s = (starts_plain s || contains_any s special) ≡ true

read_escape :
    (c : ℕ) (s rest : Text)
    → IsReadable (c ∷ s)
    → read_words bare none (shell_escape (c ∷ s) ++ rest) ≡ read_words bare (some (c ∷ s)) rest
unfolding shell_escape
read_escape c s rest ok = elim (Bool-cases (contains_any (c ∷ s) special)) [
  | inl e ↦
      rw (e, append_assoc (replace_quotes (c ∷ s)) (39 ∷ []) rest)
        (unfold read_words classify in read_quoted [] (c ∷ s) rest)
  | inr e ↦
      let (here, later) = contains_any-cons c s special e in
      rw e (
        read_plain_byte none c (s ++ rest) (classify_first c s here (ground arith))
        ∙ read_plain (c ∷ []) s rest later)
]

-- The arguments that are not empty.
pub kept : List Text → List Text
kept [] = []
kept ([] ∷ ts) = kept ts
kept ((c ∷ s) ∷ ts) = (c ∷ s) ∷ kept ts

abbrev pub AllReadable : List Text → Type 0
AllReadable [] = Unit
AllReadable (s ∷ ss) = IsReadable s × AllReadable ss

blank_after :
    (cur : Option Text) (s : Text) (ws : List Text)
    → read_words bare none s ≡ some ws
    → read_words bare cur (32 ∷ s) ≡ some (flush cur ws)
unfolding read_words classify
blank_after cur s ws h = rw h

-- A shell reads the joined, quoted arguments as the arguments themselves, in their order, each
-- whole, but for the empty ones, which are lost; each argument is to hold a byte that `shellEscape`
-- quotes, or not to begin with `#` or `~`.
pub read_words-quote_args :
    (args : List Text)
    → AllReadable args
    → read_words bare none (join_blank (quote_args args)) ≡ some (kept args)
unfolding quote_args join_blank kept
read_words-quote_args [] ok = unfold read_words in refl
read_words-quote_args ([] ∷ []) ok = unfold shell_escape contains_any read_words in refl
read_words-quote_args ((c ∷ s) ∷ []) ok =
    ap (read_words bare none) (sym (append-nil (shell_escape (c ∷ s))))
    ∙ read_escape c s [] ok.0
    ∙ (unfold read_words in refl)
read_words-quote_args ([] ∷ t ∷ ts) ok =
    unfold shell_escape contains_any in
    blank_after none (join_blank (quote_args (t ∷ ts))) (kept (t ∷ ts))
      (read_words-quote_args (t ∷ ts) ok.1)
read_words-quote_args ((c ∷ s) ∷ t ∷ ts) ok =
    read_escape c s (32 ∷ join_blank (quote_args (t ∷ ts))) ok.0
    ∙ blank_after (some (c ∷ s)) (join_blank (quote_args (t ∷ ts))) (kept (t ∷ ts))
        (read_words-quote_args (t ∷ ts) ok.1)
