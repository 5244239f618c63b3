-- ===== src/Prelude/Format.antt =====
-- Decimal numbers and white space: `%d` of package fmt at a number that is not negative,
-- `strconv.Atoi` and `strings.TrimSpace`, over ASCII bytes.
use mathlib.Core.List.{[], ◌∷◌, ◌++◌}
use mathlib.Core.Bool.{Bool, true, false, ◌&&◌, ◌||◌}
use mathlib.Core.Logic.{◌≢◌, inl, inr}
use mathlib.Core.Option.{Option, none, some}
use mathlib.Core.Path.{◌≡◌, refl, ap, ◌∙◌}
use native.Mathlib.Omega.{arith}
use Prim.Native.Nat.{ℕ, zero, suc, ◌+◌, ◌-◌, ◌*◌, ◌/◌, ◌%◌, ◌<◌, ◌≤◌}
use gosupervisor.Prelude.Tests.{ltb, leb, ◌==◌, if◌then◌else◌, Bool-cases}
use gosupervisor.Prelude.Int.{ℤ, pos, negsuc}
use gosupervisor.Prelude.Strings.{Text}

-- The digits of `n`, the last one on the right; `f` bounds their number.
pub digits_of : ℕ → ℕ → Text
digits_of zero n = []
digits_of (suc f) n =
    let front = digits_of f (n / 10) in
    if ltb n 10 then (48 + n) ∷ [] else front ++ (48 + n % 10) ∷ []

unfoldable pub decimal : ℕ → Text
unfolding digits_of
decimal n = digits_of (suc n) n

abbrev pub is_digit : ℕ → Bool
is_digit c = leb b'0' c && leb c b'9'

unfoldable pub digits_value : ℕ → Text → Option ℕ
digits_value acc [] = some acc
digits_value acc (c ∷ s) = elim (is_digit c) [
  | true ↦ digits_value (acc * 10 + (c - 48)) s
  | false ↦ none
]

-- An `int` has 64 bits.
abbrev pub max_int : ℕ
max_int = 9223372036854775807

abbrev pub in_range : Option ℕ → Option ℤ
in_range none = none
in_range (some n) = if leb n max_int then some (pos n) else none

abbrev pub negated : Option ℕ → Option ℤ
negated none = none
negated (some zero) = some (pos zero)
negated (some (suc n)) = if leb n max_int then some (negsuc n) else none

-- A sign, and then at least one digit.
unfoldable pub atoi : Text → Option ℤ
unfolding digits_value
atoi [] = none
atoi (c ∷ []) = in_range (digits_value 0 (c ∷ []))
atoi (c ∷ d ∷ s) =
    if c == b'+'
    then in_range (digits_value 0 (d ∷ s))
    else if c == b'-'
    then negated (digits_value 0 (d ∷ s))
    else in_range (digits_value 0 (c ∷ d ∷ s))

abbrev pub is_space : ℕ → Bool
is_space c = c == 32 || (leb 9 c && leb c 13)

unfoldable pub trim_left : Text → Text
trim_left [] = []
trim_left (c ∷ s) = elim (is_space c) [ true ↦ trim_left s | false ↦ c ∷ s ]

unfoldable pub trim_right : Text → Text
trim_right [] = []
trim_right (c ∷ s) = elim (trim_right s) [
  | [] ↦ if is_space c then [] else c ∷ []
  | d ∷ r ↦ c ∷ d ∷ r
]

unfoldable pub trim_space : Text → Text
unfolding trim_left trim_right
trim_space s = trim_right (trim_left s)

abbrev pub AllDigits : Text → Type 0
AllDigits [] = Unit
AllDigits (c ∷ s) = (is_digit c ≡ true) × AllDigits s

AllDigits-append : (s t : Text) → AllDigits s → AllDigits t → AllDigits (s ++ t)
AllDigits-append [] t h k = k
AllDigits-append (c ∷ s) t h k = (h.0, AllDigits-append s t h.1 k)

digits_of-AllDigits : (f n : ℕ) → AllDigits (digits_of f n)
unfolding digits_of
digits_of-AllDigits zero n = tt
digits_of-AllDigits (suc f) n = elim (Bool-cases (ltb n 10)) [
  | inl e ↦ rw e (ground arith, tt)
  | inr e ↦ rw e (
      AllDigits-append (digits_of f (n / 10)) ((48 + n % 10) ∷ []) (digits_of-AllDigits f (n / 10))
        (ground arith, tt))
]

pub decimal-AllDigits : (n : ℕ) → AllDigits (decimal n)
unfolding decimal
decimal-AllDigits n = digits_of-AllDigits (suc n) n

digits_value-snoc :
    (acc v : ℕ) (s : Text) (c : ℕ)
    → digits_value acc s ≡ some v
    → is_digit c ≡ true
    → digits_value acc (s ++ c ∷ []) ≡ some (v * 10 + (c - 48))
unfolding digits_value
digits_value-snoc acc v [] c h d = ground arith
digits_value-snoc acc v (b ∷ s) c h d =
    ground (arith, digits_value-snoc (acc * 10 + (b - 48)) v s c)

digits_value-digits_of : (f n : ℕ) → n < f → digits_value 0 (digits_of f n) ≡ some n
unfolding digits_of
digits_value-digits_of zero n h = elim h [ ]
digits_value-digits_of (suc f) n h = elim (Bool-cases (ltb n 10)) [
  | inl e ↦ rw e (unfold digits_value in ground arith)
  | inr e ↦ rw e (
      digits_value-snoc 0 (n / 10) (digits_of f (n / 10)) (48 + n % 10)
        (digits_value-digits_of f (n / 10) (ground arith)) (ground arith)
      ∙ ap some (omega arith))
]

pub digits_value-decimal : (n : ℕ) → digits_value 0 (decimal n) ≡ some n
unfolding decimal
digits_value-decimal n = digits_value-digits_of (suc n) n (omega arith)

atoi_of_AllDigits :
    (s : Text) (n : ℕ)
    → AllDigits s
    → s ≢ []
    → digits_value 0 s ≡ some n
    → n ≤ max_int
    → atoi s ≡ some (pos n)
unfolding atoi
atoi_of_AllDigits [] n d h v k = absurd (h refl)
atoi_of_AllDigits (c ∷ []) n d h v k = ground arith
atoi_of_AllDigits (c ∷ b ∷ s) n d h v k = ground arith

snoc-ne-nil : (s : Text) (c : ℕ) → s ++ c ∷ [] ≢ []
snoc-ne-nil [] c e = cc
snoc-ne-nil (b ∷ s) c e = cc

pub decimal-ne-nil : (n : ℕ) → decimal n ≢ []
unfolding decimal digits_of
decimal-ne-nil n e = elim (Bool-cases (ltb n 10)) [
  | inl small ↦ cc (rw small at e)
  | inr large ↦ snoc-ne-nil (digits_of n (n / 10)) (48 + n % 10) (rw large at e)
]

-- Reading a printed number gives it back.
pub atoi-decimal : (n : ℕ) → n ≤ max_int → atoi (decimal n) ≡ some (pos n)
atoi-decimal n h =
    atoi_of_AllDigits (decimal n) n (decimal-AllDigits n) (decimal-ne-nil n)
      (digits_value-decimal n) h
