-- ===== src/Config/Cycle/Search.antt =====
-- internal/config/config.go: what one call of `dfs` does.
use gosupervisor.Prelude.{
  ◌≡◌, ◌≢◌, ◌↔◌, ◌⊎◌, inl, inr, refl, ap, ◌∙◌, true, List, [], ◌∷◌, ◌++◌, arith, Text, text_eq,
  text_eq_iff, text_eq_refl, text_in, Bool-cases,
}
use gosupervisor.Manager.Sort.{Graph}
use gosupervisor.Manager.Sort.Counting.{text_in-append}
use gosupervisor.Manager.Sort.Graphs.{Depends}
use gosupervisor.Manager.Sort.Ending.{Knot}
use gosupervisor.Config.Cycle.{
  Color, white, gray, black, Colors, Outcome, explored, cycle, out_of_fuel, and_then, visit_deps,
}

pub color_cases : (c : Color) → (c ≡ gray) ⊎ (c ≡ white) ⊎ (c ≡ black)
color_cases white = inr (inl refl)
color_cases gray = inl refl
color_cases black = inr (inr refl)

module _ (programs : Graph) (knot : List Text)
    (each : (n : Text)
      → text_in n knot ≡ true
      → (c : Text) × Depends programs n c × (text_in c knot ≡ true)) where
  -- The gray names are those of the path, each of which but the last depends on one of them; the
  -- black ones keep to themselves and out of the knot.
  pub record Inv (path : List Text) (color : Colors) : Type 0 where
    pub on_path : (n : Text) → (color n ≡ gray) ↔ (text_in n path ≡ true)
    pub clean : (n : Text) → text_in n knot ≡ true → color n ≢ black

  -- After the names `done` were seen to.
  pub record Done (path : List Text) (before after : Colors) (done : List Text) : Type 0 where
    pub inv : Inv path after
    pub black_stays : (n : Text) → before n ≡ black → after n ≡ black
    pub all_black : (n : Text) → text_in n done ≡ true → after n ≡ black

  abbrev pub Ends : List Text → Colors → List Text → Outcome → Type 0
  Ends path before done (explored after) = Done path before after done
  Ends path before done (cycle name dep) = Depends programs name dep × Knot (Depends programs)
  Ends path before done out_of_fuel = ⊥

  abbrev pub Linked : List Text → Text → Type 0
  Linked path name =
      (n : Text)
      → text_in n path ≡ true
      → (c : Text) × Depends programs n c × (text_in c (path ++ name ∷ []) ≡ true)

  -- What a recursive call does.
  abbrev pub Visits : List Text → (Text → Colors → Outcome) → Type 0
  Visits path visit =
      (name : Text) (color : Colors)
      → Inv path color
      → color name ≡ white
      → Linked path name
      → Ends path color (name ∷ []) (visit name color)

  pub more :
      (path : List Text) (before mid : Colors) (d : Text) (ds : List Text) (r : Outcome)
      → Done path before mid (d ∷ [])
      → Ends path mid ds r
      → Ends path before (d ∷ ds) r
  unfolding text_in
  more path before mid d ds (explored after) h k = record {
    inv = k.inv;
    black_stays = λ n b. k.black_stays n (h.black_stays n b);
    all_black = λ n e. elim (Bool-cases (text_eq n d)) [
      | inl same ↦ k.black_stays n (h.all_black n (ground (arith, same)))
      | inr other ↦ k.all_black n (ground (arith, other, e))
    ];
  }
  more path before mid d ds (cycle a b) h k = k
  more path before mid d ds out_of_fuel h k = k

  pub next :
      (path : List Text) (before : Colors) (d : Text) (ds : List Text) (r : Outcome)
      (go : Colors → Outcome)
      → Ends path before (d ∷ []) r
      → ((mid : Colors) → Inv path mid → Ends path mid ds (go mid))
      → Ends path before (d ∷ ds) (and_then r go)
  unfolding and_then
  next path before d ds (explored mid) go h k = more path before mid d ds (go mid) h (k mid h.inv)
  next path before d ds (cycle a b) go h k = h
  next path before d ds out_of_fuel go h k = h

  pub visit_deps_lem :
      (path : List Text) (visit : Text → Colors → Outcome) (name : Text) (deps : List Text)
      (color : Colors)
      → Visits path visit
      → Inv path color
      → text_in name path ≡ true
      → ((d : Text) → Depends programs name d → Linked path d)
      → ((d : Text) → text_in d deps ≡ true → Depends programs name d)
      → Ends path color deps (visit_deps visit name deps color)
  unfolding visit_deps text_in
  visit_deps_lem path visit name [] color v i here link dep = record {
    inv = i;
    black_stays = λ n b. b;
    all_black = λ n e. cc e;
  }
  visit_deps_lem path visit name (d ∷ deps) color v i here link dep =
      let on = dep d (ground (arith, text_eq_refl d)) in
      let rest : (c : Text) → text_in c deps ≡ true → Depends programs name c =
        λ c e. dep c (ground (arith, e)) in
      elim (color_cases (color d)) [
        | inl e ↦
            rw (e, visit_deps)
              (
                on,
                record {
                  members = path;
                  one = name;
                  inside = here;
                  each = λ n m.
                      let (c, need, there) = link d on n m in
                      (
                        c,
                        need,
                        ground (
                          arith,
                          there,
                          text_in-append c path (d ∷ []),
                          (i.on_path d).0 e,
                          λ (x : text_eq c d ≡ true).
                              ap (λ k. text_in k path) ((text_eq_iff c d).0 x),
                        ),
                      );
                },
              )
        | inr (inl e) ↦
            rw (e, visit_deps)
              (next path color d deps (visit d color) (visit_deps visit name deps)
                (v d color i e (link d on))
                (λ mid im. visit_deps_lem path visit name deps mid v im here link rest))
        | inr (inr e) ↦
            rw (e, visit_deps)
              (more path color color d deps (visit_deps visit name deps color)
                (record {
                  inv = i;
                  black_stays = λ n b. b;
                  all_black = λ n x. ap color ((text_eq_iff n d).0 (ground (arith, x))) ∙ e;
                })
                (visit_deps_lem path visit name deps color v i here link rest))
      ]
