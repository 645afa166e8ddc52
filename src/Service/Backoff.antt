-- ===== src/Service/Backoff.antt =====
-- The delay before a retry, in handleRetry of internal/service/delivery.go. A `time.Duration` is
-- held as the 64 bits of an int64. A float64 is held by round_float of Prelude/Float, rounded after each
-- operation, as on amd64; one that no int64 holds converts to the least int64, as on amd64 too. A time
-- before the epoch is held as the epoch.
use native.Mathlib.Nat.{mul-le-mul_left, pow-le-pow_right, mod-eq_of_lt}
use event_driven_notificatio.Prelude.Float.{round_float, round_float_bounds}
use event_driven_notificatio.Prelude.{
  ℕ, ◌+◌, ◌-◌, ◌*◌, ◌/◌, ◌%◌, ◌^◌, ◌≤◌, ◌<◌, ◌≡◌, ◌&&◌, ltb, if◌then◌else◌, arith, lt→ltb, refl,
  min,
}

-- time.Duration(f), from a float64 that is not negative
unfoldable pub duration_of_float : ℕ → ℕ
duration_of_float v = if ltb v (2 ^ 63) then v else 2 ^ 63

-- baseDelay * time.Duration(math.Pow(2, float64(retryCount-1))), which wraps
unfoldable pub raw_delay : ℕ → ℕ → ℕ
unfolding duration_of_float
raw_delay base retry_count = (base * duration_of_float (2 ^ (retry_count - 1))) % 2 ^ 64

-- if delay > maxDelay { delay = maxDelay }, on signed numbers
unfoldable pub capped : ℕ → ℕ → ℕ
capped max_delay d = if ltb d (2 ^ 63) && ltb max_delay d then max_delay else d

-- the float64 nearest to 0.8, in units of 2 ^ -53, and to 0.4, in units of 2 ^ -54
abbrev four_fifths : ℕ
four_fifths = 7205759403792794

-- 0.8 + rand.Float64()*0.4, in units of 2 ^ -107; rand.Float64() is random / 2 ^ 53.
unfoldable pub jitter : ℕ → ℕ
unfolding round_float
jitter random = round_float (four_fifths * 2 ^ 54 + round_float (random * four_fifths))

-- float64(delay) * (0.8 + r * 0.4), cut to whole nanoseconds
unfoldable pub scale : ℕ → ℕ → ℕ
unfolding jitter round_float
scale random d = round_float (round_float d * jitter random) / 2 ^ 107

-- now.Add(time.Duration(float64(delay) * (0.8 + r * 0.4)))
unfoldable pub add_jittered : ℕ → ℕ → ℕ → ℕ
unfolding duration_of_float scale
add_jittered random now d =
    if ltb d (2 ^ 63)
    then (let j = duration_of_float (scale random d) in if ltb j (2 ^ 63) then now + j else now - j)
    else now - duration_of_float (scale random (2 ^ 64 - d))

-- nextRetry
unfoldable pub next_retry : ℕ → ℕ → ℕ → ℕ → ℕ → ℕ
unfolding raw_delay capped add_jittered
next_retry base max_delay random now retry_count =
    add_jittered random now (capped max_delay (raw_delay base retry_count))

jitter_bounds :
    (random : ℕ)
    → random < 2 ^ 53
    → (8 * 2 ^ 107 * (2 ^ 53 - 1) ≤ jitter random * 10 * 2 ^ 53)
      × (jitter random * 10 * 2 ^ 53 ≤ 12 * 2 ^ 107 * (2 ^ 53 + 4))
unfolding jitter
jitter_bounds random h =
    let (m, _) = round_float_bounds (random * four_fifths) (omega arith) in
    let (a, b) =
      round_float_bounds (four_fifths * 2 ^ 54 + round_float (random * four_fifths))
        (omega arith) in
    (omega (arith, b), omega (arith, a, m))

regroup : (f j a b : ℕ) → f * (j * a * b) ≡ f * j * a * b
regroup f j a b = grind arith

product_low : (f j a b low : ℕ) → low ≤ j * a * b → f * low ≤ f * j * a * b
product_low f j a b low h =
    let k = mul-le-mul_left {m = low} {n = j * a * b} f h in omega (arith, k, regroup f j a b)

product_high : (f j a b high : ℕ) → j * a * b ≤ high → f * j * a * b ≤ f * high
product_high f j a b high h =
    let k = mul-le-mul_left {m = j * a * b} {n = high} f h in omega (arith, k, regroup f j a b)

-- 80% to 120% of the delay, but for one part in 2 ^ 50 of it and the fraction that is cut.
scale_bounds :
    (random d : ℕ)
    → random < 2 ^ 53
    → d < 2 ^ 63
    → (d * 8 * 2 ^ 50 < (scale random d + 1) * 10 * 2 ^ 50 + d * 10)
      × (scale random d * 10 * 2 ^ 50 ≤ d * 12 * 2 ^ 50 + d * 10)
unfolding scale
scale_bounds random d h l =
    let f = round_float d in
    let x = f * jitter random in
    let (j_low, j_high) = jitter_bounds random h in
    let (f_high, f_low) = round_float_bounds d (omega arith) in
    let low : f * (8 * 2 ^ 107 * (2 ^ 53 - 1)) ≤ x * 10 * 2 ^ 53 =
      product_low f (jitter random) 10 (2 ^ 53) (8 * 2 ^ 107 * (2 ^ 53 - 1)) j_low in
    let high : x * 10 * 2 ^ 53 ≤ f * (12 * 2 ^ 107 * (2 ^ 53 + 4)) =
      product_high f (jitter random) 10 (2 ^ 53) (12 * 2 ^ 107 * (2 ^ 53 + 4)) j_high in
    let (x_high, x_low) = round_float_bounds x (omega arith) in
    (omega (arith, x_low, low, f_low), omega (arith, x_high, high, f_high))

-- the product before it wraps
exact : ℕ → ℕ → ℕ
exact base retry_count = base * 2 ^ (retry_count - 1)

capped-raw_delay :
    (base max_delay retry_count : ℕ)
    → retry_count ≤ 63
    → exact base retry_count < 2 ^ 63
    → capped max_delay (raw_delay base retry_count) ≡ min (exact base retry_count) max_delay
unfolding capped raw_delay duration_of_float exact
capped-raw_delay base max_delay retry_count h e =
    let p = pow-le-pow_right {n = 2} (omega arith) {i = retry_count - 1} {j = 62} (omega arith) in
    let small = lt→ltb (2 ^ (retry_count - 1)) (2 ^ 63) (omega (arith, p)) in
    let whole = mod-eq_of_lt {n = base * 2 ^ (retry_count - 1)} {m = 2 ^ 64} (omega (arith, e)) in
    rw small (rw whole (rw (lt→ltb (base * 2 ^ (retry_count - 1)) (2 ^ 63) e) refl))

-- A time at 80% to 120% of a delay from now, but for one part in 2 ^ 50 of the delay and a fraction of a
-- nanosecond.
abbrev pub IsNear : ℕ → ℕ → ℕ → Type 0
IsNear now d t =
    ((now * 10 + d * 8) * 2 ^ 50 < (t + 1) * 10 * 2 ^ 50 + d * 10)
    × (t * 10 * 2 ^ 50 ≤ (now * 10 + d * 12) * 2 ^ 50 + d * 10)

add_jittered_bounds :
    (random now d : ℕ) → random < 2 ^ 53 → d < 2 ^ 62 → IsNear now d (add_jittered random now d)
unfolding add_jittered duration_of_float
add_jittered_bounds random now d r h =
    let b = scale_bounds random d r (omega arith) in
    rw (lt→ltb d (2 ^ 63) (omega arith)) (
      rw (lt→ltb (scale random d) (2 ^ 63) (omega (arith, b.1))) (
        rw (lt→ltb (scale random d) (2 ^ 63) (omega (arith, b.1)))
          (omega (arith, b.0), omega (arith, b.1))))

-- A retry whose delay does not overflow, under a maximum below 2 ^ 62 nanoseconds, comes at least 80%
-- and at most 120% of d = min(base * 2 ^ (n - 1), max) after now, but for the rounding of float64: one
-- part in 2 ^ 50 of d and a fraction of a nanosecond.
pub next_retry_bounds :
    (base max_delay random now retry_count : ℕ)
    → random < 2 ^ 53
    → retry_count ≤ 63
    → max_delay < 2 ^ 62
    → base * 2 ^ (retry_count - 1) < 2 ^ 63
    → let d = min (base * 2 ^ (retry_count - 1)) max_delay in
      IsNear now d (next_retry base max_delay random now retry_count)
unfolding next_retry
next_retry_bounds base max_delay random now retry_count r h m e =
    rw (capped-raw_delay base max_delay retry_count h (unfold exact in e)) (
      unfold exact in
      add_jittered_bounds random now (min (base * 2 ^ (retry_count - 1)) max_delay) r
        (ground arith))
