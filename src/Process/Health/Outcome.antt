-- ===== src/Process/Health/Outcome.antt =====
-- internal/process/process.go: when a process counts as healthy.
use gosupervisor.Process.{Process, ProgramConfig}
use gosupervisor.Process.Health.{health_tick, health_ticks}
use gosupervisor.Prelude.{
  ◌==◌, Bool-cases, replicate, reaches, ℤ, ℕ, zero, suc, ◌+◌, ◌≡◌, refl, ap, ◌∙◌, inl, inr, Bool,
  true, false, ◌&&◌, ◌||◌, not, List, [], ◌∷◌, ◌++◌, arith, pos, negsuc,
}

health_ticks-append :
    (front back : List Bool) (p : Process)
    → health_ticks (front ++ back) p ≡ health_ticks back (health_ticks front p)
unfolding health_ticks
health_ticks-append [] back p = refl
health_ticks-append (ok ∷ front) back p = health_ticks-append front back (health_tick ok p).0

reaches-later : (z : ℤ) (a n : ℕ) → reaches a z ≡ true → reaches (a + n) z ≡ true
reaches-later (pos m) a n h = ground arith
reaches-later (negsuc m) a n h = refl

one_failure :
    (p : Process)
    → let q = (health_tick false p).0 in
      let threshold = p.config.health_check_unhealthy_threshold in
      (q.health_check_failures ≡ p.health_check_failures + 1)
      × (q.healthy ≡ (p.healthy && not (reaches (p.health_check_failures + 1) threshold)))
      × (q.config ≡ p.config)
      × (q.health_check_restart_fired ≡ p.health_check_restart_fired)
unfolding health_tick
one_failure p =
    elim (Bool-cases
      (reaches (p.health_check_failures + 1) p.config.health_check_unhealthy_threshold)) [
        | inl e ↦ rw e (refl, ground arith, refl, refl)
        | inr e ↦ rw e (refl, ground arith, refl, refl)
      ]

pub failing :
    (n : ℕ) (p : Process)
    → let q = health_ticks (replicate n false) p in
      let threshold = p.config.health_check_unhealthy_threshold in
      (q.health_check_failures ≡ p.health_check_failures + n)
      × (q.healthy
          ≡ (p.healthy && ((n == 0) || not (reaches (p.health_check_failures + n) threshold))))
      × (q.health_check_restart_fired ≡ p.health_check_restart_fired)
unfolding health_ticks
failing zero p = ground arith
failing (suc n) p =
    let q = (health_tick false p).0 in
    let threshold = p.config.health_check_unhealthy_threshold in
    let (f, h, c, r) = one_failure p in
    let (f', h', r') = failing n q in
    let e : p.health_check_failures + suc n ≡ p.health_check_failures + 1 + n = omega arith in
    let same : reaches (q.health_check_failures + n) q.config.health_check_unhealthy_threshold
        ≡ reaches (p.health_check_failures + 1 + n) threshold =
      cc in
    rw e (
      omega (arith, f, f'),
      ground (arith, h, h', same, reaches-later threshold (p.health_check_failures + 1) n),
      cc,
    )

health_ticks-config : (oks : List Bool) (p : Process) → (health_ticks oks p).config ≡ p.config
unfolding health_ticks health_tick
health_ticks-config [] p = refl
health_ticks-config (true ∷ oks) p = health_ticks-config oks (health_tick true p).0
health_ticks-config (false ∷ oks) p =
    health_ticks-config oks (health_tick false p).0 ∙ (one_failure p).2

after_success :
    (n : ℕ) (p : Process)
    → let q = health_ticks (true ∷ replicate n false) p in
      let threshold = p.config.health_check_unhealthy_threshold in
      (q.health_check_failures ≡ n) × (q.healthy ≡ ((n == 0) || not (reaches n threshold)))
unfolding health_ticks health_tick
after_success n p =
    let q = (health_tick true p).0 in
    let (f, h, r) = failing n q in
    let e : 0 + n ≡ n = omega arith in
    (f ∙ e, h ∙ ap (λ k. (n == 0) || not (reaches k p.config.health_check_unhealthy_threshold)) e)

-- Whatever the earlier checks were, after one that succeeded and `n` more that failed the process
-- has `n` failures, and it is healthy exactly if `n` is 0 or does not reach the configured
-- threshold.
pub health_ticks-threshold :
    (front : List Bool) (n : ℕ) (p : Process)
    → let q = health_ticks (front ++ true ∷ replicate n false) p in
      let threshold = p.config.health_check_unhealthy_threshold in
      (q.health_check_failures ≡ n) × (q.healthy ≡ ((n == 0) || not (reaches n threshold)))
health_ticks-threshold front n p =
    let (f, h) = after_success n (health_ticks front p) in
    rw (health_ticks-append front (true ∷ replicate n false) p) (
      f,
      h
          ∙ ap
              (λ (c : ProgramConfig).
                (n == 0) || not (reaches n c.health_check_unhealthy_threshold))
              (health_ticks-config front p),
    )
