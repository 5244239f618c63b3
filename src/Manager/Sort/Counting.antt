-- ===== src/Manager/Sort/Counting.antt =====
-- internal/process/process.go: how often a name stands in a list, and how many edges to a name are
-- still open.
use gosupervisor.Prelude.{
  ℕ, suc, ◌+◌, ◌-◌, ◌≤◌, ◌<◌, ◌≡◌, refl, ap, inl, inr, ◌⊎◌, true, false, ◌||◌, ◌&&◌, not, List, [],
  ◌∷◌, ◌++◌, arith, ltb, ◌==◌, if◌then◌else◌, length, Text, text_eq, text_eq_iff, text_eq_refl,
  text_in, Bool-cases,
}
use gosupervisor.Manager.Sort.{neighbors, zero_degree}

unfoldable pub occ : Text → List Text → ℕ
occ n [] = 0
occ n (x ∷ xs) = if text_eq n x then suc (occ n xs) else occ n xs

pub occ-append : (n : Text) (xs ys : List Text) → occ n (xs ++ ys) ≡ occ n xs + occ n ys
unfolding occ
occ-append n [] ys = omega arith
occ-append n (x ∷ xs) ys = ground (arith, occ-append n xs ys)

pub occ_iff : (n : Text) (xs : List Text) → text_in n xs ≡ ltb 0 (occ n xs)
unfolding occ text_in
occ_iff n [] = refl
occ_iff n (x ∷ xs) = ground (arith, occ_iff n xs)

remove_one : Text → List Text → List Text
remove_one n [] = []
remove_one n (x ∷ xs) = let rest = remove_one n xs in if text_eq x n then xs else x ∷ rest

occ-remove_one :
    (n m : Text) (xs : List Text)
    → 0 < occ n xs
    → occ m (remove_one n xs) ≡ (if text_eq m n then occ m xs - 1 else occ m xs)
unfolding occ remove_one
occ-remove_one n m [] h = elim h [ ]
occ-remove_one n m (x ∷ xs) h = ground (
  arith,
  occ-remove_one n m xs,
  text_eq_iff x n,
  text_eq_iff n x,
  text_eq_iff m n,
  text_eq_iff m x,
)

length-remove_one :
    (n : Text) (xs : List Text) → 0 < occ n xs → suc (length (remove_one n xs)) ≡ length xs
unfolding occ remove_one
length-remove_one n [] h = elim h [ ]
length-remove_one n (x ∷ xs) h =
    ground (arith, length-remove_one n xs, text_eq_iff x n, text_eq_iff n x)

-- Lists with the same names, each as often, are equally long.
pub same_length : (xs ys : List Text) → ((n : Text) → occ n xs ≡ occ n ys) → length xs ≡ length ys
unfolding occ
same_length [] [] h = refl
same_length [] (y ∷ ys) h = ground (arith, h y, text_eq_refl y)
same_length (x ∷ xs) ys h =
    let there : 0 < occ x ys = ground (arith, h x, text_eq_refl x) in
    let ih =
      same_length xs (remove_one x ys) (λ n. ground (arith, h n, occ-remove_one x n ys there)) in
    omega (arith, ih, length-remove_one x ys there)

-- The edges to `n` from names outside `result`.
unfoldable pub open_edges : List (Text × Text) → List Text → Text → ℕ
open_edges [] result n = 0
open_edges ((dep, node) ∷ es) result n =
    let rest = open_edges es result n in
    if text_eq n node && not (text_in dep result) then suc rest else rest

pub text_in-append :
    (n : Text) (xs ys : List Text) → text_in n (xs ++ ys) ≡ (text_in n xs || text_in n ys)
unfolding text_in
text_in-append n [] ys = refl
text_in-append n (x ∷ xs) ys = ground (arith, text_in-append n xs ys)

pub open-pop :
    (es : List (Text × Text)) (result : List Text) (c n : Text)
    → text_in c result ≡ false
    → open_edges es result n ≡ occ n (neighbors c es) + open_edges es (result ++ c ∷ []) n
unfolding occ open_edges neighbors text_in
open-pop [] result c n h = refl
open-pop ((dep, node) ∷ es) result c n h = ground (
  arith,
  open-pop es result c n h,
  text_in-append dep result (c ∷ []),
  text_eq_iff c dep,
  text_eq_iff dep c,
)

pub occ-zero_degree :
    (d : Text → ℕ) (n : Text) (ns : List Text)
    → occ n (zero_degree d ns) ≡ (if d n == 0 then occ n ns else 0)
unfolding occ zero_degree
occ-zero_degree d n [] = ground arith
occ-zero_degree d n (m ∷ ns) =
    ground (arith, occ-zero_degree d n ns, λ (h : text_eq n m ≡ true). ap d ((text_eq_iff n m).0 h))

-- A list without more of any name than another is no longer.
pub sub_length : (xs ys : List Text) → ((n : Text) → occ n xs ≤ occ n ys) → length xs ≤ length ys
unfolding occ
sub_length [] ys h = omega arith
sub_length (x ∷ xs) ys h =
    let there : 0 < occ x ys = ground (arith, h x, text_eq_refl x) in
    let ih =
      sub_length xs (remove_one x ys) (λ n. ground (arith, h n, occ-remove_one x n ys there)) in
    omega (arith, ih, length-remove_one x ys there)

-- Either all names of a list are in another, or one is not.
pub find_missing :
    (xs ys : List Text)
    → ((n : Text) → text_in n xs ≡ true → text_in n ys ≡ true)
      ⊎ ((n : Text) × (text_in n xs ≡ true) × (text_in n ys ≡ false))
unfolding text_in
find_missing [] ys = inl (λ n h. cc)
find_missing (x ∷ xs) ys = elim (Bool-cases (text_in x ys)) [
  | inl here ↦ elim (find_missing xs ys) [
    | inl all ↦ inl (λ n h.
        ground (
          arith,
          all n,
          λ (e : text_eq n x ≡ true). ap (λ k. text_in k ys) ((text_eq_iff n x).0 e),
        ))
    | inr (n, is, gone) ↦ inr (n, ground arith, gone)
  ]
  | inr gone ↦ inr (x, ground (arith, text_eq_refl x), gone)
]

pub open-zero :
    (es : List (Text × Text)) (result : List Text) (n c : Text)
    → open_edges es result n ≡ 0
    → 0 < occ n (neighbors c es)
    → text_in c result ≡ true
unfolding open_edges occ neighbors
open-zero [] result n c h p = elim p [ ]
open-zero ((dep, node) ∷ es) result n c h p = ground (
  arith,
  open-zero es result n c,
  λ (e : text_eq c dep ≡ true). ap (λ k. text_in k result) ((text_eq_iff c dep).0 e),
)

pub open-pos :
    (es : List (Text × Text)) (result : List Text) (n : Text)
    → 0 < open_edges es result n
    → (c : Text) × (0 < occ n (neighbors c es)) × (text_in c result ≡ false)
unfolding open_edges occ neighbors
open-pos [] result n p = elim p [ ]
open-pos ((dep, node) ∷ es) result n p =
    elim (Bool-cases (text_eq n node && not (text_in dep result))) [
      | inl here ↦ (dep, ground (arith, text_eq_refl dep), ground arith)
      | inr later ↦ let (c, q, out) = open-pos es result n (ground arith) in (c, ground arith, out)
    ]
