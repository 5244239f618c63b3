-- ===== src/Process/Webhook/Attempts.antt =====
-- internal/process/process.go: which attempts `sendWebhook` makes.
use gosupervisor.Prelude.{
  sym, Option, none, some, ◌↔◌, ℕ, zero, suc, ◌+◌, ◌≤◌, ◌<◌, ◌≡◌, ◌⊎◌, inl, inr, refl, ap, ◌∙◌, ℤ,
  true, false, List, [], ◌∷◌, ◌==◌, text_eq, nat_of, arith, Bool-cases,
}
use gosupervisor.Process.Webhook.{
  WebhookConfig, Answers, is_taken, backoff, send_attempts, send_webhook,
}

-- An answer with a status below 500.
abbrev pub IsTaken : Option ℕ → Type 0
IsTaken none = ⊥
IsTaken (some status) = status < 500

is_taken-IsTaken : (o : Option ℕ) → (is_taken o ≡ true) ↔ IsTaken o
unfolding is_taken
is_taken-IsTaken none = ground arith
is_taken-IsTaken (some status) = ground arith

refused : (answer : Answers) (j : ℕ) → is_taken (answer j) ≡ false → ¬ IsTaken (answer j)
refused answer j e t = let both = sym e ∙ (is_taken-IsTaken (answer j)).1 t in cc both

-- No attempt from `m` on and before `n` is taken.
abbrev NoneTaken : Answers → ℕ → ℕ → Type 0
NoneTaken answer m n = (j : ℕ) → m ≤ j → j < n → is_taken (answer j) ≡ false

-- The waits before `count` attempts from `attempt` on.
pub pauses : ℕ → ℕ → List ℤ
pauses attempt zero = []
pauses attempt (suc count) = backoff attempt ∷ pauses (suc attempt) count

one_more :
    (answer : Answers) (m n : ℕ)
    → is_taken (answer m) ≡ false
    → NoneTaken answer (suc m) n
    → NoneTaken answer m n
one_more answer m n e h j low up = elim (Bool-cases (j == m)) [
  | inl same ↦ let is : j ≡ m = ground (arith, same) in ap (λ i. is_taken (answer i)) is ∙ e
  | inr other ↦ h j (ground (arith, other, low)) up
]

-- The attempts from a later one on.
attempts_lem :
    (answer : Answers) (left a : ℕ)
    → let r = send_attempts answer left (suc a) in
      ((k : ℕ) × (k < left)
        × (is_taken (answer (suc a + k)) ≡ true)
        × NoneTaken answer (suc a) (suc a + k)
        × (r ≡ record { waits = pauses (suc a) (suc k); posts = suc k; delivered = true }))
      ⊎ (NoneTaken answer (suc a) (suc a + left)
          × (r ≡ record { waits = pauses (suc a) left; posts = left; delivered = false }))
unfolding send_attempts pauses
attempts_lem answer zero a = inr ((λ j low up. absurd (omega (arith, low, up))), refl)
attempts_lem answer (suc left) a = elim (Bool-cases (is_taken (answer (suc a)))) [
  | inl e ↦ inl (
    0,
    omega arith,
    ap (λ i. is_taken (answer i)) (omega arith) ∙ e,
    (λ j low up. absurd (omega (arith, low, up))),
    ground (arith, e),
  )
  | inr e ↦ elim (attempts_lem answer left (suc a)) [
    | inl (k, small, taken, before, is) ↦ inl (
      suc k,
      omega (arith, small),
      ap (λ i. is_taken (answer i)) (omega arith) ∙ taken,
      one_more answer (suc a) (suc a + suc k) e (λ j low up. before j low (omega (arith, up))),
      ground (arith, e, is),
    )
    | inr (before, is) ↦ inr (
      one_more answer (suc a) (suc a + suc left) e (λ j low up. before j low (omega (arith, up))),
      ground (arith, e, is),
    )
  ]
]

sent :
    (answer : Answers) (cfg : WebhookConfig)
    → text_eq cfg.url [] ≡ false
    → let r = send_webhook true answer cfg in
      let n = nat_of cfg.retries in
      ((k : ℕ) × (k ≤ n)
        × (is_taken (answer k) ≡ true)
        × NoneTaken answer 0 k
        × (r ≡ record { waits = pauses 1 k; posts = suc k; delivered = true }))
      ⊎ (NoneTaken answer 0 (suc n)
          × (r ≡ record { waits = pauses 1 n; posts = suc n; delivered = false }))
unfolding send_webhook send_attempts pauses
sent answer cfg url = elim (Bool-cases (is_taken (answer 0))) [
  | inl e ↦
      inl (0, omega arith, e, (λ j low up. absurd (omega (arith, up))), ground (arith, e, url))
  | inr e ↦ elim (attempts_lem answer (nat_of cfg.retries) 0) [
    | inl (k, small, taken, before, is) ↦ inl (
      suc k,
      omega (arith, small),
      ap (λ i. is_taken (answer i)) (omega arith) ∙ taken,
      one_more answer 0 (suc k) e (λ j low up. before j low (omega (arith, up))),
      ground (arith, e, url, is),
    )
    | inr (before, is) ↦ inr (
      one_more answer 0 (suc (nat_of cfg.retries)) e (λ j low up. before j low (omega (arith, up))),
      ground (arith, e, url, is),
    )
  ]
]

-- Where a URL is configured and the body can be encoded, a change of state is posted again and again
-- until the first answer below 500, which ends it, and at most once more than `WebhookRetries` says,
-- a negative number counting as 0; before the repetitions it waits for the backoff of 1, 2, and so
-- on.
pub send_webhook-retries :
    (answer : Answers) (cfg : WebhookConfig)
    → text_eq cfg.url [] ≡ false
    → let r = send_webhook true answer cfg in
      let n = nat_of cfg.retries in
      ((k : ℕ) × (k ≤ n)
        × IsTaken (answer k)
        × ((j : ℕ) → j < k → ¬ IsTaken (answer j))
        × (r ≡ record { waits = pauses 1 k; posts = suc k; delivered = true }))
      ⊎ (((j : ℕ) → j ≤ n → ¬ IsTaken (answer j))
          × (r ≡ record { waits = pauses 1 n; posts = suc n; delivered = false }))
send_webhook-retries answer cfg url = elim (sent answer cfg url) [
  | inl (k, small, taken, before, is) ↦ inl (
    k,
    small,
    (is_taken-IsTaken (answer k)).0 taken,
    (λ j up t. refused answer j (before j (omega arith) up) t),
    is,
  )
  | inr (before, is) ↦
      inr ((λ j up t. refused answer j (before j (omega arith) (omega (arith, up))) t), is)
]
