-- ===== src/Prelude/Lines.antt =====
-- `bufio.Reader.ReadString('\n')` over the bytes that are still to come, and texts without a byte.
use mathlib.Core.List.{[], ◌∷◌, ◌++◌}
use mathlib.Core.Bool.{Bool, true, false, ◌||◌}
use mathlib.Core.Option.{Option, none, some}
use mathlib.Core.Path.{◌≡◌, refl}
use native.Mathlib.Omega.{arith}
use Prim.Native.Nat.{ℕ}
use gosupervisor.Prelude.Tests.{◌==◌, if◌then◌else◌}
use gosupervisor.Prelude.Strings.{Text}
use gosupervisor.Prelude.Format.{is_digit, AllDigits, decimal, decimal-AllDigits}

-- The line without its newline, and the rest; `none` at the end of the input.
unfoldable pub read_line : Text → Option (Text × Text)
read_line [] = none
read_line (c ∷ s) = elim (c == 10) [
  | true ↦ some ([], s)
  | false ↦ elim (read_line s) [ none ↦ none | some (line, more) ↦ some (c ∷ line, more) ]
]

-- The byte `b` does not stand in the text.
abbrev pub IsFree : ℕ → Text → Type 0
IsFree b [] = Unit
IsFree b (c ∷ s) = ((c == b) ≡ false) × IsFree b s

pub IsFree-append : (b : ℕ) (s t : Text) → IsFree b s → IsFree b t → IsFree b (s ++ t)
IsFree-append b [] t h k = k
IsFree-append b (c ∷ s) t h k = (h.0, IsFree-append b s t h.1 k)

pub AllDigits-IsFree : (b : ℕ) (s : Text) → is_digit b ≡ false → AllDigits s → IsFree b s
AllDigits-IsFree b [] h d = tt
AllDigits-IsFree b (c ∷ s) h d = (ground arith, AllDigits-IsFree b s h d.1)

pub decimal-IsFree : (b n : ℕ) → is_digit b ≡ false → IsFree b (decimal n)
decimal-IsFree b n h = AllDigits-IsFree b (decimal n) h (decimal-AllDigits n)

pub read_line-append : (s t : Text) → IsFree 10 s → read_line (s ++ 10 ∷ t) ≡ some (s, t)
unfolding read_line
read_line-append [] t h = refl
read_line-append (c ∷ s) t h = rw (h.0, read_line, read_line-append s t h.1)

unfoldable pub has : ℕ → Text → Bool
has b [] = false
has b (c ∷ s) = c == b || has b s

-- What follows the last byte `b` of a text; all of it if there is none.
unfoldable pub after_last : ℕ → Text → Text
unfolding has
after_last b [] = []
after_last b (c ∷ s) = elim (has b s) [
  | true ↦ after_last b s
  | false ↦ if c == b then s else c ∷ s
]

has_of_IsFree : (b : ℕ) (s : Text) → IsFree b s → has b s ≡ false
unfolding has
has_of_IsFree b [] h = refl
has_of_IsFree b (c ∷ s) h = ground (arith, has_of_IsFree b s h.1)

pub has-IsFree : (b : ℕ) (s : Text) → has b s ≡ false → IsFree b s
unfolding has
has-IsFree b [] h = tt
has-IsFree b (c ∷ s) h = (ground arith, has-IsFree b s (ground arith))

has-append : (b : ℕ) (s t : Text) → has b (s ++ b ∷ t) ≡ true
unfolding has
has-append b [] t = ground arith
has-append b (c ∷ s) t = ground (arith, has-append b s t)

pub after_last-append : (b : ℕ) (s t : Text) → IsFree b t → after_last b (s ++ b ∷ t) ≡ t
unfolding after_last
after_last-append b [] t h = ground (arith, has_of_IsFree b t h)
after_last-append b (c ∷ s) t h = rw (has-append b s t, after_last) (after_last-append b s t h)
