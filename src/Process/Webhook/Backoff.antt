-- ===== src/Process/Webhook/Backoff.antt =====
-- internal/process/process.go: how long `sendWebhook` waits before it repeats a request.
use gosupervisor.Prelude.{
  ℕ, zero, suc, ◌+◌, ◌-◌, ◌*◌, ◌%◌, ◌^◌, ◌≤◌, ◌≡◌, refl, ap, ◌∙◌, pos, arith, min,
}
use native.Mathlib.Nat.{pow-le-pow_right, pow-suc}
use gosupervisor.Process.Webhook.{backoff, signed, min_duration, thirty_seconds, second, word}

small_power : (m : ℕ) → m ≤ 33 → 2 ^ m ≤ 8589934592
small_power m h = pow-le-pow_right {n = 2} (omega arith) h

large_power : (n : ℕ) → 2 ^ (55 + n) ≡ 2 ^ n * 36028797018963968
large_power zero = refl
large_power (suc n) =
    let e = large_power n in
    let one_more : 55 + suc n ≡ suc (55 + n) = omega arith in
    let step : 2 ^ (55 + suc n) ≡ 2 ^ (55 + n) * 2 =
      ap (λ k. 2 ^ k) one_more ∙ pow-suc 2 (55 + n) in
    let last : 2 ^ suc n ≡ 2 ^ n * 2 = pow-suc 2 n in omega (arith, e, step, last)

no_wrap : (x : ℕ) → x ≤ 8589934592 → signed (x % word * second % word) ≡ pos (x * second)
unfolding signed
no_wrap x h = ground (arith, h)

all_gone : (x : ℕ) → x * 36028797018963968 % word * second % word ≡ 0
all_gone x = omega arith

backoff_after :
    (m : ℕ) → backoff (suc m) ≡ min_duration (signed (2 ^ m % word * second % word)) thirty_seconds
unfolding backoff
backoff_after m =
    let e : suc m - 1 ≡ m = omega arith in
    ap (λ k. min_duration (signed (2 ^ k % word * second % word)) thirty_seconds) e

-- Before the first 34 repetitions the wait doubles, from one second up to thirty; from the 56th
-- repetition on there is no wait at all, since the doubled second has no bit left of its 64.
pub backoff_range :
    (m n : ℕ)
    → m ≤ 33
    → (backoff (suc m) ≡ pos (min (2 ^ m * second) (30 * second)))
      × (backoff (suc (55 + n)) ≡ pos 0)
unfolding min_duration signed
backoff_range m n h =
    let e : signed (2 ^ m % word * second % word) ≡ pos (2 ^ m * second) =
      no_wrap (2 ^ m) (small_power m h) in
    let gone : 2 ^ (55 + n) % word * second % word ≡ 0 =
      ap (λ x. x % word * second % word) (large_power n) ∙ all_gone (2 ^ n) in
    (ground (arith, backoff_after m, e), ground (arith, backoff_after (55 + n), gone))
