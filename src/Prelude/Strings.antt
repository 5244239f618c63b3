-- ===== src/Prelude/Strings.antt =====
-- Go strings as lists of bytes, their equality and the functions of package `strings` that the
-- source calls, and Go maps as association lists. A map's iteration order is the list's order.
use Prim.Native.Char.{code}
use Prim.Native.Nat.{ℕ}
use Prim.Native.String.{String}
use mathlib.Core.Bool.{Bool, true, false, ◌&&◌, ◌||◌}
use mathlib.Core.List.{List, [], ◌∷◌}
use mathlib.Core.Logic.{◌↔◌}
use mathlib.Core.Option.{Option, none, some}
use mathlib.Core.Path.{◌≡◌, refl}
use native.Mathlib.Omega.{arith}
use gosupervisor.Prelude.Tests.{◌==◌, if◌then◌else◌}

abbrev pub Text : Type 0
Text = List ℕ

-- The bytes of an ASCII literal.
abbrev pub codes : String → Text
codes String.[] = []
codes (String.◌∷◌ c s) = code c ∷ codes s

unfoldable pub text_eq : Text → Text → Bool
text_eq [] [] = true
text_eq (a ∷ s) (b ∷ t) = (a == b) && text_eq s t
text_eq _ _ = false

pub text_eq_refl : (s : Text) → text_eq s s ≡ true
unfolding text_eq
text_eq_refl [] = refl
text_eq_refl (a ∷ s) = ground (arith, text_eq_refl s)

pub eq_of_text_eq : (s t : Text) → text_eq s t ≡ true → s ≡ t
unfolding text_eq
eq_of_text_eq [] [] h = refl
eq_of_text_eq (a ∷ s) (b ∷ t) h = ground (arith, eq_of_text_eq s t)
eq_of_text_eq [] (b ∷ t) h = cc
eq_of_text_eq (a ∷ s) [] h = cc

pub text_eq_iff : (s t : Text) → (text_eq s t ≡ true) ↔ (s ≡ t)
text_eq_iff s t = (eq_of_text_eq s t, λ e. rw e (text_eq_refl t))

-- `strings.HasPrefix`
unfoldable pub has_prefix : Text → Text → Bool
has_prefix s [] = true
has_prefix [] (b ∷ p) = false
has_prefix (a ∷ s) (b ∷ p) = (a == b) && has_prefix s p

-- `slices.Contains` on bytes, as `strings.ContainsAny` uses it.
unfoldable pub byte_in : ℕ → Text → Bool
byte_in c [] = false
byte_in c (b ∷ s) = (c == b) || byte_in c s

-- `strings.ContainsAny`
unfoldable pub contains_any : Text → Text → Bool
unfolding byte_in
contains_any [] chars = false
contains_any (c ∷ s) chars = byte_in c chars || contains_any s chars

-- `strings.Contains`
unfoldable pub contains : Text → Text → Bool
unfolding has_prefix
contains [] sub = has_prefix [] sub
contains (c ∷ s) sub = has_prefix (c ∷ s) sub || contains s sub

unfoldable pub text_in : Text → List Text → Bool
text_in s [] = false
text_in s (t ∷ ts) = text_eq s t || text_in s ts

module _ {ℓ} {V : Type ℓ} where
  unfoldable pub lookup : Text → List (Text × V) → Option V
  lookup k [] = none
  lookup k ((j, v) ∷ m) = if text_eq j k then some v else lookup k m

  unfoldable pub insert : Text → V → List (Text × V) → List (Text × V)
  insert k v [] = (k, v) ∷ []
  insert k v ((j, w) ∷ m) = if text_eq j k then (k, v) ∷ m else (j, w) ∷ insert k v m

  unfoldable pub delete : Text → List (Text × V) → List (Text × V)
  delete k [] = []
  delete k ((j, w) ∷ m) = let rest = delete k m in if text_eq j k then rest else (j, w) ∷ rest

  unfoldable pub keys : List (Text × V) → List Text
  keys [] = []
  keys ((j, w) ∷ m) = j ∷ keys m

module _ {ℓ} {V : Type ℓ} where
  pub lookup-insert :
      (k j : Text) (v : V) (m : List (Text × V))
      → lookup j (insert k v m) ≡ (if text_eq k j then some v else lookup j m)
  unfolding lookup insert delete
  lookup-insert k j v [] = refl
  lookup-insert k j v ((i, w) ∷ m) =
      ground (arith, text_eq_iff k j, text_eq_iff i k, text_eq_iff i j, lookup-insert k j v m)

  pub lookup-delete :
      (k j : Text) (m : List (Text × V))
      → lookup j (delete k m) ≡ (if text_eq k j then none else lookup j m)
  unfolding lookup insert delete
  lookup-delete k j [] = ground arith
  lookup-delete k j ((i, w) ∷ m) =
      ground (arith, text_eq_iff k j, text_eq_iff i k, text_eq_iff i j, lookup-delete k j m)

module _ {ℓ} {V : Type ℓ} where
  -- Each key once: what makes an association list a map.
  abbrev pub IsMap : List (Text × V) → Type ℓ
  IsMap [] = Unit
  IsMap ((k, v) ∷ m) = (lookup k m ≡ none) × IsMap m

  pub insert-IsMap : (k : Text) (v : V) (m : List (Text × V)) → IsMap m → IsMap (insert k v m)
  unfolding insert lookup
  insert-IsMap k v [] h = (refl, tt)
  insert-IsMap k v ((j, w) ∷ m) h =
      ground
        (arith, text_eq_iff j k, text_eq_iff k j, lookup-insert k j v m, insert-IsMap k v m h.1)
