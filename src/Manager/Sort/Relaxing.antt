-- ===== src/Manager/Sort/Relaxing.antt =====
-- internal/process/process.go: what the loop over the neighbors does to the degrees and the batch.
use gosupervisor.Prelude.{
  ℕ, ◌+◌, ◌-◌, ◌≤◌, ◌≡◌, refl, ap, true, ◌&&◌, List, [], ◌∷◌, ◌++◌, arith, ltb, ◌==◌, if◌then◌else◌,
  Text, text_eq, text_eq_iff, text_eq_refl,
}
use gosupervisor.Manager.Sort.{decrement, relax}
use gosupervisor.Manager.Sort.Counting.{occ, occ-append}

-- A degree that covers its decrements is lowered by their number, and a name enters the batch, once,
-- exactly if its degree reaches 0 by them.
pub relax_lem :
    (ms : List Text) (d : Text → ℕ) (batch : List Text) (n : Text)
    → ((m : Text) → occ m ms ≤ d m)
    → let (d', batch') = relax ms d batch in
      (d' n ≡ d n - occ n ms)
      × (occ n batch' ≡ occ n batch + (if ltb 0 (occ n ms) && (d n == occ n ms) then 1 else 0))
unfolding relax occ
relax_lem [] d batch n h = ground arith
relax_lem (m ∷ ms) d batch n h =
    let d' = decrement m d in
    let batch' = if d' m == 0 then batch ++ m ∷ [] else batch in
    let at : (k : Text) → d' k ≡ (if text_eq k m then d k - 1 else d k) =
      λ k. unfold decrement in refl in
    let covers : (k : Text) → occ k ms ≤ d' k = λ k. ground (arith, at k, h k) in
    let (lower, more) = relax_lem ms d' batch' n covers in
    (
      ground (arith, lower, at n, h n),
      ground (
        arith,
        more,
        at n,
        at m,
        h n,
        h m,
        text_eq_iff n m,
        text_eq_refl m,
        occ-append n batch (m ∷ []),
        λ (e : text_eq n m ≡ true). ap d ((text_eq_iff n m).0 e),
        λ (e : text_eq n m ≡ true). ap (λ k. occ k ms) ((text_eq_iff n m).0 e),
      ),
    )
