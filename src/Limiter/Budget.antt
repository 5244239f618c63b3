-- ===== src/Limiter/Budget.antt =====
-- internal/web/ratelimit.go: no client gets more than its burst and its rate.
use native.Mathlib.Nat.{add-mul, mul-le-mul_right, sub_self, zero-mul, add-zero}
use gosupervisor.Limiter.{
  second, Bucket, RateLimiter, new_rate_limiter, refill, spend, allow, sweep, cleanup,
}
use gosupervisor.Prelude.{
  ltb, leb, if◌then◌else◌, Bool-cases, ℤ, Text, text_eq, text_eq_iff, lookup, lookup-insert, IsMap,
  insert-IsMap, ℕ, zero, suc, ◌+◌, ◌-◌, ◌*◌, ◌≤◌, ◌<◌, ◌≡◌, refl, ap, subst, inl, inr, true, ◌&&◌,
  Option, none, some, List, [], ◌∷◌, arith, pos, negsuc,
}

module _ (burst rps : ℕ) where
  -- What a client may still spend at time `now`; an address without a bucket has a full burst.
  unfoldable pub credit : ℕ → Option Bucket → ℕ
  credit now none = burst * second
  credit now (some b) = refill burst rps now b

  refill_fresh :
      (now tokens : ℕ)
      → tokens ≤ burst * second
      → refill burst rps now (record { tokens = tokens; last_time = now }) ≡ tokens
  unfolding refill
  refill_fresh now tokens h = rw (sub_self now, zero-mul rps, add-zero tokens) (ground arith)

  refill-le : (now : ℕ) (b : Bucket) → refill burst rps now b ≤ burst * second
  unfolding refill
  refill-le now b = ground arith

  elapsed_later : (now d last : ℕ) → (now + d - last) * rps ≤ (now - last) * rps + d * rps
  elapsed_later now d last =
      let split : (now + d - last) * rps ≤ ((now - last) + d) * rps =
        mul-le-mul_right rps (omega arith) in
      omega (arith, split, add-mul (now - last) d rps)

  credit_later : (now d : ℕ) (b : Option Bucket) → credit (now + d) b ≤ credit now b + d * rps
  unfolding credit refill
  credit_later now d none = omega arith
  credit_later now d (some b) = ground (arith, elapsed_later now d b.last_time)

  -- A request is allowed exactly if a whole token is there, and then it costs one.
  spend_lem :
      (now : ℕ) (ob : Option Bucket)
      → 0 < burst
      → ((spend burst rps now ob).1 ≡ leb second (credit now ob))
        × (credit now (some (spend burst rps now ob).0)
              + (if (spend burst rps now ob).1 then second else 0)
            ≡ credit now ob)
  unfolding credit spend
  spend_lem now none h =
      (ground arith, rw (refill_fresh now (burst * second - second) (omega arith)) (omega arith))
  spend_lem now (some b) h = elim (Bool-cases (leb second (refill burst rps now b))) [
    | inl e ↦ rw e (
      refl,
      rw (refill_fresh now (refill burst rps now b - second) (omega (arith, refill-le now b)))
          (ground (arith, e)),
    )
    | inr e ↦
        rw e (refl, rw (refill_fresh now (refill burst rps now b) (refill-le now b)) (omega arith))
  ]

  -- A bucket that a sweep drops would have been full, if a full burst fits in the interval.
  swept_full :
      (interval now : ℕ) (b : Bucket)
      → burst * second ≤ interval * rps
      → ltb interval (now - b.last_time) ≡ true
      → refill burst rps now b ≡ burst * second
  unfolding refill
  swept_full interval now b h e =
      let longer : interval * rps ≤ (now - b.last_time) * rps =
        mul-le-mul_right rps (ground arith) in
      ground (arith, longer)

  -- A sweep changes no client's credit.
  credit-sweep :
      (interval now : ℕ) (ip : Text) (m : List (Text × Bucket))
      → burst * second ≤ interval * rps
      → IsMap m
      → credit now (lookup ip (sweep interval now m)) ≡ credit now (lookup ip m)
  unfolding credit sweep lookup
  credit-sweep interval now ip [] h d = refl
  credit-sweep interval now ip ((j, b) ∷ m) h d =
      ground
        (arith, text_eq_iff j ip, credit-sweep interval now ip m h d.1, swept_full interval now b h)

lookup-sweep-none :
    (interval now : ℕ) (ip : Text) (m : List (Text × Bucket))
    → lookup ip m ≡ none
    → lookup ip (sweep interval now m) ≡ none
unfolding sweep lookup
lookup-sweep-none interval now ip [] h = refl
lookup-sweep-none interval now ip ((j, b) ∷ m) h =
    ground (arith, lookup-sweep-none interval now ip m)

sweep-IsMap : (interval now : ℕ) (m : List (Text × Bucket)) → IsMap m → IsMap (sweep interval now m)
unfolding sweep
sweep-IsMap interval now [] h = tt
sweep-IsMap interval now ((j, b) ∷ m) h =
    ground (arith, sweep-IsMap interval now m h.1, lookup-sweep-none interval now j m h.0)

allow-credit :
    (ip who : Text) (now : ℕ) (rl : RateLimiter)
    → 0 < rl.burst
    → credit rl.burst rl.rps now (lookup who (allow ip now rl).0.buckets)
        + (if (allow ip now rl).1 && text_eq ip who then second else 0)
      ≡ credit rl.burst rl.rps now (lookup who rl.buckets)
unfolding allow
allow-credit ip who now rl h =
    let paid = (spend_lem rl.burst rl.rps now (lookup ip rl.buckets) h).1 in
    let new = (spend rl.burst rl.rps now (lookup ip rl.buckets)).0 in
    rw (lookup-insert ip who new rl.buckets) (elim (Bool-cases (text_eq ip who)) [
      | inl e ↦
          rw e (ground (arith, paid, ap (λ k. lookup k rl.buckets) ((text_eq_iff ip who).0 e)))
      | inr e ↦ rw e (ground arith)
    ])

-- What happens to a limiter: requests, the passing of time, and the ticks of `cleanup`.
pub data Op : Type 0 where
  request : Text → Op
  pass : ℕ → Op
  tick : Op

-- A limiter at a time, with the number of requests of the client `who` that it has allowed.
pub record Watch : Type 0 where
  pub limiter : RateLimiter
  pub now : ℕ
  pub granted : ℕ

pub step : (interval : ℕ) (who : Text) → Op → Watch → Watch
step interval who (request ip) w =
    let (limiter', ok) = allow ip w.now w.limiter in
    record w {
      limiter = limiter';
      granted = if ok && text_eq ip who then suc w.granted else w.granted;
    }
step interval who (pass d) w = record w { now = w.now + d }
step interval who tick w = record w { limiter = cleanup interval w.now w.limiter }

pub run : (interval : ℕ) (who : Text) → List Op → Watch → Watch
run interval who [] w = w
run interval who (o ∷ os) w = run interval who os (step interval who o w)

module _ (interval burst rps since : ℕ) (who : Text) where
  -- What one client was allowed and may still spend is paid for by its burst and the time.
  record IsPaid (w : Watch) : Type 0 where
    map : IsMap w.limiter.buckets
    same_burst : w.limiter.burst ≡ burst
    same_rps : w.limiter.rps ≡ rps
    onward : since ≤ w.now
    paid :
        w.granted * second + credit burst rps w.now (lookup who w.limiter.buckets)
        ≤ burst * second + (w.now - since) * rps

  request-IsPaid :
      (ip : Text) (w : Watch) → 0 < burst → IsPaid w → IsPaid (step interval who (request ip) w)
  unfolding step
  request-IsPaid ip w h p =
      let cost = allow-credit ip who w.now w.limiter (rw p.same_burst h) in
      let cost' : credit burst rps w.now (lookup who (allow ip w.now w.limiter).0.buckets)
            + (if (allow ip w.now w.limiter).1 && text_eq ip who then second else 0)
          ≡ credit burst rps w.now (lookup who w.limiter.buckets) =
        subst
          (λ b.
            credit b rps w.now (lookup who (allow ip w.now w.limiter).0.buckets)
              + (if (allow ip w.now w.limiter).1 && text_eq ip who then second else 0)
            ≡ credit b rps w.now (lookup who w.limiter.buckets))
          p.same_burst
          (subst
            (λ r.
              credit w.limiter.burst r w.now (lookup who (allow ip w.now w.limiter).0.buckets)
                + (if (allow ip w.now w.limiter).1 && text_eq ip who then second else 0)
              ≡ credit w.limiter.burst r w.now (lookup who w.limiter.buckets))
            p.same_rps cost) in
      record {
        map = unfold allow in insert-IsMap ip _ w.limiter.buckets p.map;
        same_burst = unfold allow in p.same_burst;
        same_rps = unfold allow in p.same_rps;
        onward = p.onward;
        paid = ground (arith, cost', p.paid);
      }

  step-IsPaid :
      (o : Op) (w : Watch)
      → 0 < burst
      → burst * second ≤ interval * rps
      → IsPaid w
      → IsPaid (step interval who o w)
  unfolding step cleanup
  step-IsPaid (request ip) w h k p = request-IsPaid ip w h p
  step-IsPaid (pass d) w h k p = record {
    map = p.map;
    same_burst = p.same_burst;
    same_rps = p.same_rps;
    onward = omega (arith, p.onward);
    paid =
        let later = credit_later burst rps w.now d (lookup who w.limiter.buckets) in
        let e : w.now + d - since ≡ (w.now - since) + d = omega (arith, p.onward) in
        rw (e, add-mul (w.now - since) d rps) (omega (arith, later, p.paid));
  }
  step-IsPaid tick w h k p = record {
    map = sweep-IsMap interval w.now w.limiter.buckets p.map;
    same_burst = p.same_burst;
    same_rps = p.same_rps;
    onward = p.onward;
    paid = rw (credit-sweep burst rps interval w.now who w.limiter.buckets k p.map) p.paid;
  }

  run-IsPaid :
      (os : List Op) (w : Watch)
      → 0 < burst
      → burst * second ≤ interval * rps
      → IsPaid w
      → IsPaid (run interval who os w)
  unfolding run
  run-IsPaid [] w h k p = p
  run-IsPaid (o ∷ os) w h k p = run-IsPaid os (step interval who o w) h k (step-IsPaid o w h k p)

-- A new limiter, with a positive burst.
pub fresh : ℤ → ℤ → ℕ → Watch
fresh rps burst now = record { limiter = new_rate_limiter rps burst; now = now; granted = 0 }

fresh-burst_pos : (rps burst : ℤ) → 0 < (new_rate_limiter rps burst).burst
unfolding new_rate_limiter
fresh-burst_pos (pos zero) (pos zero) = omega arith
fresh-burst_pos (pos (suc r)) (pos zero) = omega arith
fresh-burst_pos (negsuc r) (pos zero) = omega arith
fresh-burst_pos r (pos (suc b)) = omega arith
fresh-burst_pos (pos zero) (negsuc b) = omega arith
fresh-burst_pos (pos (suc r)) (negsuc b) = omega arith
fresh-burst_pos (negsuc r) (negsuc b) = omega arith

-- Whatever requests of whatever addresses come in, however time passes and `cleanup` ticks, a new
-- limiter allows one address at most its burst and `rps` requests for each second passed, if
-- `cleanup` waits long enough for a full burst to be refilled.
pub run-within_budget :
    (rps burst : ℤ) (now interval : ℕ) (who : Text) (os : List Op)
    → let limit = new_rate_limiter rps burst in
      let end = run interval who os (fresh rps burst now) in
      limit.burst * second ≤ interval * limit.rps
      → end.granted * second ≤ limit.burst * second + (end.now - now) * limit.rps
unfolding fresh
run-within_budget rps burst now interval who os k =
    let limit = new_rate_limiter rps burst in
    let p =
      run-IsPaid interval limit.burst limit.rps now who os (fresh rps burst now)
        (fresh-burst_pos rps burst) k
        (record {
          map = unfold new_rate_limiter in tt;
          same_burst = refl;
          same_rps = refl;
          onward = omega arith;
          paid = unfold new_rate_limiter credit lookup in omega arith;
        }) in
    omega (arith, p.paid)
