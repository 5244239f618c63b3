-- ===== src/Process/Webhook.antt =====
-- internal/process/process.go: `sendWebhook`. Its JSON body is left out but for whether it can be
-- encoded; how each attempt is answered is given. Durations are Go's 64 bits of nanoseconds.
pub mod Attempts
pub mod Backoff
use gosupervisor.Prelude.{
  ℕ, zero, suc, ◌+◌, ◌-◌, ◌*◌, ◌%◌, ◌^◌, ℤ, pos, negsuc, int_lt, Bool, true, false, ◌||◌, not, List,
  [], ◌∷◌, ◌++◌, Option, none, some, ltb, leb, ◌==◌, if◌then◌else◌, Text, text_eq, nat_of,
  is_positive,
}

-- What `sendWebhook` reads of the configuration.
pub record WebhookConfig : Type 0 where
  pub url : Text
  pub retries : ℤ
  pub timeout : ℤ

-- 2 ^ 64 and 2 ^ 63
abbrev pub word : ℕ
word = 18446744073709551616

abbrev pub half_word : ℕ
half_word = 9223372036854775808

-- The signed number that 64 bits stand for.
unfoldable pub signed : ℕ → ℤ
signed n = if ltb n half_word then pos n else negsuc (word - 1 - n)

-- The 64 bits of a number.
unfoldable pub bits : ℤ → ℕ
bits (pos n) = n % word
bits (negsuc n) = word - 1 - n % word

abbrev pub second : ℕ
second = 1000000000

abbrev pub thirty_seconds : ℤ
thirty_seconds = pos 30000000000

-- `time.Duration(n) * time.Second`
unfoldable pub seconds : ℤ → ℤ
unfolding signed bits
seconds n = signed (bits n * second % word)

unfoldable pub min_duration : ℤ → ℤ → ℤ
min_duration a b = if int_lt b a then b else a

-- `timeout`, ten seconds where it is not positive.
unfoldable pub post_timeout : WebhookConfig → ℤ
unfolding seconds
post_timeout cfg =
    let timeout = seconds cfg.timeout in if is_positive timeout then timeout else pos (10 * second)

-- `min(time.Duration(1<<(attempt-1))*time.Second, 30*time.Second)`
unfoldable pub backoff : ℕ → ℤ
unfolding signed min_duration
backoff attempt = min_duration (signed (2 ^ (attempt - 1) % word * second % word)) thirty_seconds

-- The status of an attempt's answer; `none` where there was an error.
abbrev pub Answers : Type 0
Answers = ℕ → Option ℕ

-- How long was waited before each repetition, how many requests were sent, and whether one was taken.
pub record Delivery : Type 0 where
  pub waits : List ℤ
  pub posts : ℕ
  pub delivered : Bool

unfoldable pub is_taken : Option ℕ → Bool
is_taken none = false
is_taken (some status) = ltb status 500

-- The loop, with `left` attempts to come.
unfoldable pub send_attempts : Answers → (left attempt : ℕ) → Delivery
unfolding backoff is_taken
send_attempts answer zero attempt = record { waits = []; posts = 0; delivered = false }
send_attempts answer (suc left) attempt =
    let waits = if attempt == 0 then [] else backoff attempt ∷ [] in
    let rest = send_attempts answer left (suc attempt) in
    if is_taken (answer attempt)
    then (record { waits = waits; posts = 1; delivered = true })
    else (record {
      waits = waits ++ rest.waits;
      posts = suc rest.posts;
      delivered = rest.delivered;
    })

unfoldable pub send_webhook : (encodes : Bool) → Answers → WebhookConfig → Delivery
unfolding send_attempts
send_webhook encodes answer cfg =
    if text_eq cfg.url [] || not encodes
    then (record { waits = []; posts = 0; delivered = false })
    else send_attempts answer (suc (nat_of cfg.retries)) 0
