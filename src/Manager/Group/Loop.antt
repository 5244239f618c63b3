-- ===== src/Manager/Group/Loop.antt =====
-- internal/process/process.go: the loop of `topologicalSortForGroup`, beside that of `topologicalSort`.
use gosupervisor.Prelude.{
  ℕ, zero, suc, ◌+◌, ◌≤◌, ◌<◌, ◌≡◌, refl, ap, ◌∙◌, List, [], ◌∷◌, ◌++◌, arith, ◌==◌, if◌then◌else◌,
  Text,
}
use gosupervisor.Manager.Sort.{neighbors, decrement, relax, sorted}
use gosupervisor.Manager.Sort.Counting.{occ, occ-append}
use gosupervisor.Manager.Sort.Loop.{Inv, remaining, remaining-pop, popped, fresh, step-Inv}
use gosupervisor.Manager.Group.{group_relax, group_kahn}

none_in : (n : Text) → occ n [] ≡ 0
unfolding occ
none_in n = refl

module _ (sort : List Text → List Text)
    (permutes : (n : Text) (xs : List Text) → occ n (sort xs) ≡ occ n xs) where
  -- The degrees of the two loops agree, and the queue gains the names of the batch.
  group_relax_lem :
      (ms : List Text) (d : Text → ℕ) (queue batch : List Text) (n : Text)
      → ((group_relax sort ms d queue).0 ≡ (relax ms d batch).0)
        × (occ n (group_relax sort ms d queue).1 + occ n batch
            ≡ occ n queue + occ n (relax ms d batch).1)
  unfolding group_relax relax occ
  group_relax_lem [] d queue batch n = (refl, refl)
  group_relax_lem (m ∷ ms) d queue batch n =
      let d' = decrement m d in
      let queue' = if d' m == 0 then sort (queue ++ m ∷ []) else queue in
      let batch' = if d' m == 0 then batch ++ m ∷ [] else batch in
      let (same, more) = group_relax_lem ms d' queue' batch' n in
      (
        same,
        ground (
          arith,
          more,
          permutes n (queue ++ m ∷ []),
          occ-append n queue (m ∷ []),
          occ-append n batch (m ∷ []),
        ),
      )

  module _ (ns : List Text) (once : (n : Text) → occ n ns ≤ 1) (es : List (Text × Text))
      (known : (c n : Text) → 0 < occ n (neighbors c es) → occ n ns ≡ 1) where
    abbrev GroupInv : (Text → ℕ) → List Text → List Text → Type 0
    GroupInv d queue result = Inv sort permutes ns once es known d queue result

    shorter :
        (d : Text → ℕ) (c : Text) (queue result : List Text)
        → GroupInv d (c ∷ queue) result
        → remaining (result ++ c ∷ []) ns < remaining result ns
    shorter d c queue result i =
        remaining-pop result c ns (fresh sort permutes ns once es known d c queue result i)
          (omega (arith, (popped sort permutes ns once es known d c queue result i).2))

    group-step :
        (d : Text → ℕ) (c : Text) (queue result : List Text)
        → GroupInv d (c ∷ queue) result
        → let (d', queue') = group_relax sort (neighbors c es) d queue in
          GroupInv d' queue' (result ++ c ∷ [])
    group-step d c queue result i =
        let nb = neighbors c es in
        let s = step-Inv sort permutes ns once es known d c queue result i in
        let same : (group_relax sort nb d queue).0 ≡ (relax nb d []).0 =
          (group_relax_lem nb d queue [] c).0 in
        record {
          degrees = λ n. ap (λ f. f n) same ∙ s.degrees n;
          placed = λ n. ground (
            arith,
            s.placed n,
            ap (λ f. f n) same,
            (group_relax_lem nb d queue [] n).1,
            occ-append n queue (sort (relax nb d []).1),
            permutes n (relax nb d []).1,
            none_in n,
          );
          ordered = s.ordered;
        }

    -- With fuel for the names that are left, the loop ends with an empty queue.
    pub group_kahn_ends :
        (fuel : ℕ) (d : Text → ℕ) (queue result : List Text)
        → GroupInv d queue result
        → remaining result ns ≤ fuel
        → (d' : Text → ℕ) × (result' : List Text) × (group_kahn sort fuel es d queue result
            ≡ sorted result')
          × GroupInv d' [] result'
    unfolding group_kahn
    group_kahn_ends zero d [] result i h = (d, result, refl, i)
    group_kahn_ends (suc fuel) d [] result i h = (d, result, refl, i)
    group_kahn_ends zero d (c ∷ queue) result i h =
        absurd (omega (arith, h, shorter d c queue result i))
    group_kahn_ends (suc fuel) d (c ∷ queue) result i h =
        let (d', queue') = group_relax sort (neighbors c es) d queue in
        group_kahn_ends fuel d' queue' (result ++ c ∷ []) (group-step d c queue result i)
          (omega (arith, h, shorter d c queue result i))
