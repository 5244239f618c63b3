-- ===== src/Config/Cycle/Calls.antt =====
-- internal/config/config.go: a whole call of `dfs`, and how deep calls can go.
use gosupervisor.Prelude.{
  ℕ, zero, suc, ◌<◌, ◌≡◌, inl, inr, ap, sym, ◌∙◌, true, false, List, [], ◌∷◌, ◌++◌, none, some,
  arith, Text, text_eq, text_eq_iff, text_eq_refl, text_in, lookup, keys, Option-cases, Bool-cases,
}
use gosupervisor.Manager.Sort.{Graph}
use gosupervisor.Manager.Sort.Counting.{occ_iff, text_in-append}
use gosupervisor.Manager.Sort.Loop.{remaining, remaining-pop}
use gosupervisor.Manager.Sort.Graphs.{Depends, lookup-keys}
use gosupervisor.Config.Cycle.{
  white, gray, black, Colors, paint, Outcome, explored, cycle, out_of_fuel, and_then, visit_deps,
  dfs,
}
use gosupervisor.Config.Cycle.Search.{Inv, Done, Ends, Linked, Visits, visit_deps_lem}

module _ (programs : Graph) (knot : List Text)
    (each : (n : Text)
      → text_in n knot ≡ true
      → (c : Text) × Depends programs n c × (text_in c knot ≡ true)) where
  module _ (name : Text) (path : List Text) (color : Colors) (i : Inv programs knot each path color)
      (fresh : color name ≡ white) where
    off_path : text_in name path ≡ false
    off_path = elim (Bool-cases (text_in name path)) [
      | inl e ↦ cc (sym fresh ∙ (i.on_path name).1 e)
      | inr e ↦ e
    ]

    gray-Inv : Inv programs knot each (path ++ name ∷ []) (paint name gray color)
    unfolding paint text_in
    gray-Inv = record {
      on_path = λ n. ground (arith, i.on_path n, text_in-append n path (name ∷ []));
      clean = λ n k b. ground (arith, i.clean n k, b);
    }

    -- A name without a program is done at once.
    absent :
        lookup name programs ≡ none
        → Done programs knot each path color (paint name black (paint name gray color)) (name ∷ [])
    unfolding paint text_in
    absent e = record {
      inv = record {
        on_path = λ n. ground (
          arith,
          i.on_path n,
          off_path,
          λ (x : text_eq n name ≡ true). ap (λ k. text_in k path) ((text_eq_iff n name).0 x),
        );
        clean = λ n k b. elim (Bool-cases (text_eq n name)) [
          | inl x ↦
              let (c, (deps, found, is), also) = each n k in
              cc (sym found ∙ ap (λ m. lookup m programs) ((text_eq_iff n name).0 x) ∙ e)
          | inr x ↦ i.clean n k (ground (arith, b, x))
        ];
      };
      black_stays = λ n b. ground (arith, b);
      all_black = λ n x. ground (arith, x);
    }

    finish :
        (deps : List Text) (after : Colors)
        → lookup name programs ≡ some deps
        → Done programs knot each (path ++ name ∷ []) (paint name gray color) after deps
        → Done programs knot each path color (paint name black after) (name ∷ [])
    unfolding paint text_in
    finish deps after e h = record {
      inv = record {
        on_path = λ n. ground (
          arith,
          h.inv.on_path n,
          text_in-append n path (name ∷ []),
          off_path,
          λ (x : text_eq n name ≡ true). ap (λ k. text_in k path) ((text_eq_iff n name).0 x),
        );
        clean = λ n k b. elim (Bool-cases (text_eq n name)) [
          | inl x ↦
              let (c, (deps', found, is), also) = each n k in
              let same : some deps' ≡ some deps =
                sym found ∙ ap (λ m. lookup m programs) ((text_eq_iff n name).0 x) ∙ e in
              let list : deps' ≡ deps = cc same in
              h.inv.clean c also (h.all_black c (ap (text_in c) (sym list) ∙ is))
          | inr x ↦ h.inv.clean n k (ground (arith, b, x))
        ];
      };
      black_stays = λ n b. ground (
        arith,
        b,
        h.black_stays n,
        fresh,
        λ (x : text_eq n name ≡ true). ap color ((text_eq_iff n name).0 x),
      );
      all_black = λ n x. ground (arith, x);
    }

  and_black :
      (path : List Text) (color color' : Colors) (name : Text) (deps path' : List Text)
      (r : Outcome)
      → Ends programs knot each path' color' deps r
      → ((after : Colors)
          → Done programs knot each path' color' after deps
          → Done programs knot each path color (paint name black after) (name ∷ []))
      → Ends programs knot each path color
          (name ∷ [])
          (and_then r (λ done. explored (paint name black done)))
  unfolding and_then
  and_black path color color' name deps path' (explored after) h k = k after h
  and_black path color color' name deps path' (cycle a b) h k = h
  and_black path color color' name deps path' out_of_fuel h k = h

  at_end : (path : List Text) (name : Text) → text_in name (path ++ name ∷ []) ≡ true
  unfolding text_in
  at_end path name = ground (arith, text_in-append name path (name ∷ []), text_eq_refl name)

  one_on :
      (path : List Text) (name d : Text)
      → Linked programs knot each path name
      → Depends programs name d
      → Linked programs knot each (path ++ name ∷ []) d
  unfolding text_in
  one_on path name d linked dep n h = elim (Bool-cases (text_in n path)) [
    | inl e ↦
        let (c, need, there) = linked n e in
        (c, need, ground (arith, there, text_in-append c (path ++ name ∷ []) (d ∷ [])))
    | inr e ↦
        let same : n ≡ name =
          (text_eq_iff n name).0 (ground (arith, h, e, text_in-append n path (name ∷ []))) in
        (d, rw same dep, at_end (path ++ name ∷ []) d)
  ]

  -- With fuel for the names that are not on the path, a call ends.
  pub dfs_lem :
      (fuel : ℕ) (path : List Text)
      → remaining path (keys programs) < fuel
      → Visits programs knot each path (dfs fuel programs)
  unfolding dfs
  dfs_lem zero path few name color i fresh linked = absurd (omega (arith, few))
  dfs_lem (suc fuel) path few name color i fresh linked =
      elim (Option-cases (lookup name programs)) [
        | inl e ↦ rw (e, dfs) (absent name path color i fresh e)
        | inr (deps, e) ↦
            let off = off_path name path color i fresh in
            let key : text_in name (keys programs) ≡ true =
              elim (Bool-cases (text_in name (keys programs))) [
                | inl k ↦ k
                | inr k ↦ cc (sym e ∙ (lookup-keys name programs).1 k)
              ] in
            let fewer : remaining (path ++ name ∷ []) (keys programs) < fuel = omega (
              arith,
              few,
              remaining-pop path name (keys programs) off
                  (ground (arith, key, occ_iff name (keys programs))),
            ) in
            rw (e, dfs)
              (and_black path color (paint name gray color) name deps (path ++ name ∷ [])
                (visit_deps (dfs fuel programs) name deps (paint name gray color))
                (visit_deps_lem programs knot each (path ++ name ∷ []) (dfs fuel programs) name deps
                  (paint name gray color) (dfs_lem fuel (path ++ name ∷ []) fewer)
                  (gray-Inv name path color i fresh) (at_end path name)
                  (λ d dep. one_on path name d linked dep) (λ d is. (deps, e, is)))
                (λ after h. finish name path color i fresh deps after e h))
      ]
