-- ===== src/Process/Policy.antt =====
-- internal/process/process.go: the restart window and the exit code policy.
use gosupervisor.Process.{Process}
use gosupervisor.Prelude.{
  ltb, if◌then◌else◌, is_positive, reaches, int_eq, nat_of, ℤ, ℕ, suc, ◌+◌, ◌*◌, Bool, true, false,
  ◌||◌, not, List, [], ◌∷◌, ◌++◌,
}

abbrev pub second : ℕ
second = 1000000000

-- `if windowSecs <= 0 { windowSecs = 60 }`, in nanoseconds.
unfoldable pub window_of : ℤ → ℕ
window_of secs = (if is_positive secs then nat_of secs else 60) * second

-- The times after `now - window`, in place and in their order.
unfoldable pub prune : (now window : ℕ) → List ℕ → List ℕ
prune now window [] = []
prune now window (t ∷ ts) =
    let rest = prune now window ts in if ltb now (t + window) then t ∷ rest else rest

unfoldable pub add_restart_timestamp : (now : ℕ) → ℤ → List ℕ → List ℕ
unfolding prune window_of
add_restart_timestamp now secs ts = prune now (window_of secs) (ts ++ now ∷ [])

unfoldable pub count_recent : (now window : ℕ) → List ℕ → ℕ
count_recent now window [] = 0
count_recent now window (t ∷ ts) =
    let n = count_recent now window ts in if ltb now (t + window) then suc n else n

unfoldable pub restart_rate_exceeded : (now : ℕ) → Process → Bool
unfolding count_recent window_of
restart_rate_exceeded now p =
    if is_positive p.config.restart_max_count
    then reaches (count_recent now (window_of p.config.restart_window_secs) p.restart_timestamps)
        p.config.restart_max_count
    else false

-- `slices.Contains` on ints.
unfoldable pub code_in : ℤ → List ℤ → Bool
code_in c [] = false
code_in c (d ∷ ds) = int_eq c d || code_in c ds

abbrev is_empty : List ℤ → Bool
is_empty [] = true
is_empty (c ∷ cs) = false

unfoldable pub should_restart_on_exit_code : Process → Bool
unfolding code_in
should_restart_on_exit_code p =
    if not (is_empty p.config.restart_codes)
    then code_in p.exit_code p.config.restart_codes
    else if not (is_empty p.config.no_restart_codes)
    then not (code_in p.exit_code p.config.no_restart_codes)
    else true
