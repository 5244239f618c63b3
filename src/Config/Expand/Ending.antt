-- ===== src/Config/Expand/Ending.antt =====
-- internal/config/config.go: the loop of `expandTemplate` ends at a `break`.
use gosupervisor.Prelude.{
  ℕ, zero, suc, ◌+◌, ◌-◌, ◌≤◌, ◌<◌, ◌≡◌, refl, ap, sym, ◌∙◌, inl, inr, true, false, [], ◌∷◌, ◌++◌,
  none, some, arith, if◌then◌else◌, ◌==◌, Text, codes, has_prefix, length, take, drop,
  take-append-drop, IsFree, decimal, decimal-IsFree, replicate, Bool-cases, Option-cases,
}
use gosupervisor.Config.Expand.{
  index, parse_width, starts_with_zero, format_int, marker, expand_round, expand_loop,
  expand_template, replace_all, name_marker,
}

-- How often the letter p stands in a text: once in each marker.
unfoldable count_p : Text → ℕ
count_p [] = 0
count_p (c ∷ s) = let rest = count_p s in if c == b'p' then suc rest else rest

count_p-append : (s t : Text) → count_p (s ++ t) ≡ count_p s + count_p t
unfolding count_p
count_p-append [] t = omega arith
count_p-append (c ∷ s) t = ground (arith, count_p-append s t)

count_p-IsFree : (s : Text) → IsFree b'p' s → count_p s ≡ 0
unfolding count_p
count_p-IsFree [] f = refl
count_p-IsFree (c ∷ s) f = ground (arith, f.0, count_p-IsFree s f.1)

count_p-length : (s : Text) → count_p s ≤ length s
unfolding count_p
count_p-length [] = omega arith
count_p-length (c ∷ s) = ground (arith, count_p-length s)

-- A hit of the search is a place where the text stands.
has_prefix_lem : (s sub : Text) → has_prefix s sub ≡ true → s ≡ sub ++ drop (length sub) s
unfolding has_prefix
has_prefix_lem s [] h = refl
has_prefix_lem [] (b ∷ sub) h = cc h
has_prefix_lem (a ∷ s) (b ∷ sub) h =
    let same : a ≡ b = ground (arith, h) in
    ap (◌∷◌ a) (has_prefix_lem s sub (ground (arith, h)))
    ∙ ap (λ c. c ∷ (sub ++ drop (length sub) s)) same

index_lem :
    (s : Text) (b : ℕ) (sub : Text) (i : ℕ)
    → index s (b ∷ sub) ≡ some i
    → drop i s ≡ (b ∷ sub) ++ drop (i + length (b ∷ sub)) s
unfolding index has_prefix
index_lem [] b sub i h = cc h
index_lem (c ∷ s) b sub i h = elim (Bool-cases (has_prefix (c ∷ s) (b ∷ sub))) [
  | inl e ↦
      let at : 0 ≡ i = ground (arith, h, e) in
      let far : length (b ∷ sub) ≡ i + length (b ∷ sub) = omega (arith, at) in
      ap (λ k. drop k (c ∷ s)) (sym at)
      ∙ has_prefix_lem (c ∷ s) (b ∷ sub) e
      ∙ ap (λ k. (b ∷ sub) ++ drop k (c ∷ s)) far
  | inr e ↦ elim (Option-cases (index s (b ∷ sub))) [
    | inl none_there ↦ ground (arith, h, e, none_there)
    | inr (j, there) ↦
        let at : suc j ≡ i = ground (arith, h, e, there) in
        let far : suc (j + length (b ∷ sub)) ≡ i + length (b ∷ sub) = omega (arith, at) in
        ap (λ k. drop k (c ∷ s)) (sym at)
        ∙ index_lem s b sub j there
        ∙ ap (λ k. (b ∷ sub) ++ drop k (c ∷ s)) far
  ]
]

-- What is put in for a number has no p.
replicate-IsFree : (n c : ℕ) → (c == b'p') ≡ false → IsFree b'p' (replicate n c)
replicate-IsFree zero c h = tt
replicate-IsFree (suc n) c h = (h, replicate-IsFree n c h)

count_p-format_int : (digits : Text) (num : ℕ) → count_p (format_int digits num) ≡ 0
unfolding format_int
count_p-format_int digits num =
    let plain : count_p (decimal num) ≡ 0 =
      count_p-IsFree (decimal num) (decimal-IsFree b'p' num refl) in
    elim (Option-cases (parse_width 0 digits)) [
      | inl e ↦
          let error : Text = codes "%!(NOVERB)%!(EXTRA int=" in
          rw (e, format_int)
            (unfold count_p in
              omega (
                arith,
                plain,
                count_p-append error (decimal num ++ codes ")"),
                count_p-append (decimal num) (codes ")"),
              ))
      | inr (w, e) ↦
          let fill : Text =
            replicate (w - length (decimal num)) (if starts_with_zero digits then b'0' else 32) in
          rw (e, format_int)
            (omega (
              arith,
              plain,
              count_p-append fill (decimal num),
              count_p-IsFree fill (
                  replicate-IsFree (w - length (decimal num))
                    (if starts_with_zero digits then b'0' else 32) (ground arith)),
            ))
    ]

count_p-take : (n : ℕ) (s : Text) → count_p s ≡ count_p (take n s) + count_p (drop n s)
count_p-take n s = ap count_p (sym (take-append-drop n s)) ∙ count_p-append (take n s) (drop n s)

after_marker : Text → ℕ → Text
after_marker s start = drop (start + length marker) s

round_shape :
    (s s' : Text) (num : ℕ)
    → expand_round s num ≡ some s'
    → (start : ℕ) × (d_idx : ℕ) × (index s marker ≡ some start)
      × (s'
          ≡ take start s
            ++ (format_int (take d_idx (after_marker s start)) num
                ++ drop (d_idx + 1) (after_marker s start)))
unfolding expand_round after_marker
round_shape s s' num h = elim (Option-cases (index s marker)) [
  | inl e ↦ ground (arith, h, e)
  | inr (start, e) ↦ elim (Option-cases (index (drop (start + length marker) s) (codes "d"))) [
    | inl f ↦ ground (arith, h, e, f)
    | inr (d_idx, f) ↦ (start, d_idx, e, ground (arith, h, e, f))
  ]
]

-- A round takes a marker away.
round_lem : (s s' : Text) (num : ℕ) → expand_round s num ≡ some s' → count_p s' < count_p s
unfolding after_marker
round_lem s s' num h =
    let (start, d_idx, found, shape) = round_shape s s' num h in
    let digits = take d_idx (after_marker s start) in
    let rest = drop (d_idx + 1) (after_marker s start) in
    let tail : count_p (drop start s) ≡ 1 + count_p (after_marker s start) =
      ap count_p (index_lem s b'%' (codes "(process_num)") start found)
      ∙ unfold count_p in omega (arith) in
    omega (
      arith,
      ap count_p shape,
      count_p-append (take start s) (format_int digits num ++ rest),
      count_p-append (format_int digits num) rest,
      count_p-format_int digits num,
      count_p-take (d_idx + 1) (after_marker s start),
      count_p-take start s,
      tail,
    )

loop_ends :
    (fuel : ℕ) (s : Text) (num : ℕ)
    → count_p s ≤ fuel
    → expand_round (expand_loop fuel s num) num ≡ none
unfolding expand_loop
loop_ends zero s num few = elim (Option-cases (expand_round s num)) [
  | inl e ↦ e
  | inr (s', e) ↦ absurd (omega (arith, few, round_lem s s' num e))
]
loop_ends (suc fuel) s num few = elim (Option-cases (expand_round s num)) [
  | inl e ↦ rw (e, expand_loop) e
  | inr (s', e) ↦
      rw (e, expand_loop) (loop_ends fuel s' num (omega (arith, few, round_lem s s' num e)))
]

-- Whatever the template, the loop does not stop for want of fuel: no round is left to be made.
pub expand_template_ends :
    (tmpl name : Text) (num : ℕ) → expand_round (expand_template tmpl name num) num ≡ none
unfolding expand_template
expand_template_ends tmpl name num =
    loop_ends (length (replace_all tmpl name_marker name)) (replace_all tmpl name_marker name) num
      (count_p-length (replace_all tmpl name_marker name))
