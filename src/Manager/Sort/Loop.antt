-- ===== src/Manager/Sort/Loop.antt =====
-- internal/process/process.go: the invariant of the loop of `topologicalSort`, and that it ends.
use mathlib.Core.List.{append_assoc, append-nil}
use gosupervisor.Prelude.{
  ℕ, zero, suc, ◌+◌, ◌≤◌, ◌<◌, ◌≡◌, refl, ap, sym, ◌∙◌, false, List, [], ◌∷◌, ◌++◌, arith, ◌==◌,
  if◌then◌else◌, length, Text, text_eq_iff, text_eq_refl, text_in,
}
use gosupervisor.Manager.Sort.{neighbors, relax, kahn, sorted}
use gosupervisor.Manager.Sort.Counting.{
  occ, occ-append, occ_iff, open_edges, open-pop, text_in-append,
}
use gosupervisor.Manager.Sort.Relaxing.{relax_lem}

-- Each name of the list comes after all that it depends on, those in `seen` being there already.
unfoldable pub IsOrdered : List (Text × Text) → List Text → List Text → Type 0
IsOrdered es seen [] = Unit
IsOrdered es seen (n ∷ ns) = (open_edges es seen n ≡ 0) × IsOrdered es (seen ++ n ∷ []) ns

IsOrdered-append :
    (es : List (Text × Text)) (seen ns : List Text) (c : Text)
    → IsOrdered es seen ns
    → open_edges es (seen ++ ns) c ≡ 0
    → IsOrdered es seen (ns ++ c ∷ [])
unfolding IsOrdered
IsOrdered-append es seen [] c o e = (ap (λ r. open_edges es r c) (sym (append-nil seen)) ∙ e, tt)
IsOrdered-append es seen (n ∷ ns) c o e = (
  o.0,
  IsOrdered-append es (seen ++ n ∷ []) ns c o.1
      (ap (λ r. open_edges es r c) (append_assoc seen (n ∷ []) ns) ∙ e),
)

-- The names that are not yet in the result.
pub remaining : List Text → List Text → ℕ
remaining result [] = 0
remaining result (n ∷ ns) =
    let rest = remaining result ns in if text_in n result then rest else suc rest

remaining-le :
    (result : List Text) (c : Text) (ns : List Text)
    → remaining (result ++ c ∷ []) ns ≤ remaining result ns
unfolding remaining
remaining-le result c [] = omega arith
remaining-le result c (n ∷ ns) =
    ground (arith, remaining-le result c ns, text_in-append n result (c ∷ []))

pub remaining-pop :
    (result : List Text) (c : Text) (ns : List Text)
    → text_in c result ≡ false
    → 0 < occ c ns
    → remaining (result ++ c ∷ []) ns < remaining result ns
unfolding remaining occ text_in
remaining-pop result c [] h k = elim k [ ]
remaining-pop result c (n ∷ ns) h k = ground (
  arith,
  remaining-pop result c ns h,
  remaining-le result c ns,
  text_in-append n result (c ∷ []),
  text_eq_iff n c,
  text_eq_iff c n,
)

pub remaining-nil : (ns : List Text) → remaining [] ns ≡ length ns
unfolding remaining text_in
remaining-nil [] = refl
remaining-nil (n ∷ ns) = ap suc (remaining-nil ns)

module _ (sort : List Text → List Text)
    (permutes : (n : Text) (xs : List Text) → occ n (sort xs) ≡ occ n xs) (ns : List Text)
    (once : (n : Text) → occ n ns ≤ 1) (es : List (Text × Text))
    (known : (c n : Text) → 0 < occ n (neighbors c es) → occ n ns ≡ 1) where
  -- A degree counts the edges from names outside the result; the names without any stand in the
  -- result or the queue, once; the result is in order.
  pub record Inv (d : Text → ℕ) (queue result : List Text) : Type 0 where
    pub degrees : (n : Text) → d n ≡ open_edges es result n
    pub placed : (n : Text) → occ n result + occ n queue ≡ (if d n == 0 then occ n ns else 0)
    pub ordered : IsOrdered es [] result

  module _ (d : Text → ℕ) (c : Text) (queue result : List Text) (i : Inv d (c ∷ queue) result) where
    pub popped : (occ c result ≡ 0) × (d c ≡ 0) × (occ c ns ≡ 1)
    unfolding occ
    popped = ground (arith, i.placed c, once c, text_eq_refl c)

    pub fresh : text_in c result ≡ false
    fresh = ground (arith, popped, occ_iff c result)

    covers : (m : Text) → occ m (neighbors c es) ≤ d m
    covers m = ground (arith, i.degrees m, open-pop es result c m fresh)

    pub step-Inv :
        let (d', batch) = relax (neighbors c es) d [] in
        Inv d' (queue ++ sort batch) (result ++ c ∷ [])
    step-Inv =
        let nb = neighbors c es in
        record {
          degrees = λ n.
              omega
                (arith, i.degrees n, (relax_lem nb d [] n covers).0, open-pop es result c n fresh);
          placed = λ n.
              unfold occ in
              ground (
                arith,
                i.placed n,
                relax_lem nb d [] n covers,
                occ-append n result (c ∷ []),
                occ-append n queue (sort (relax nb d []).1),
                permutes n (relax nb d []).1,
                known c n,
                covers n,
                popped,
                once n,
                text_eq_iff n c,
              );
          ordered = IsOrdered-append es [] result c i.ordered (sym (i.degrees c) ∙ popped.1);
        }

  -- With fuel for the names that are left, the loop ends with an empty queue.
  pub kahn_ends :
      (fuel : ℕ) (d : Text → ℕ) (queue result : List Text)
      → Inv d queue result
      → remaining result ns ≤ fuel
      → (d' : Text → ℕ) × (result' : List Text) × (kahn sort fuel es d queue result
          ≡ sorted result')
        × Inv d' [] result'
  unfolding kahn
  kahn_ends zero d [] result i h = (d, result, refl, i)
  kahn_ends (suc fuel) d [] result i h = (d, result, refl, i)
  kahn_ends zero d (c ∷ queue) result i h = absurd (
      omega (
        arith,
        h,
        remaining-pop result c ns (fresh d c queue result i)
            (omega (arith, (popped d c queue result i).2)),
      ))
  kahn_ends (suc fuel) d (c ∷ queue) result i h =
      let (d', batch) = relax (neighbors c es) d [] in
      kahn_ends fuel d' (queue ++ sort batch) (result ++ c ∷ []) (step-Inv d c queue result i) (
        omega (
          arith,
          h,
          remaining-pop result c ns (fresh d c queue result i)
              (omega (arith, (popped d c queue result i).2)),
        ))
