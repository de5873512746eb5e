-- ===== src/Relay/Limiter/Rate.antt =====
-- The bandwidth limiter holds the rate, and its loop ends.
use beacon_desk.Prelude.{
  ℕ, zero, suc, ◌+◌, ◌-◌, ◌*◌, ◌/◌, ◌≤◌, ◌<◌, ◌≡◌, ◌≢◌, refl, ◌∙◌, List, [], ◌∷◌, arith, ap, length,
  leb, if◌then◌else◌,
}
use beacon_desk.Relay.Limiter.{
  BandwidthLimiter, rate, burst, billion, refill, reserve_delay, unfinished, Timers, wait_loop,
  wait,
}

-- The bucket never holds more than the burst.
abbrev pub IsFilled : BandwidthLimiter → Type 0
IsFilled l = l.tokens ≤ burst l * billion

pub refill-le-burst : (l : BandwidthLimiter) (now : ℕ) → refill l now ≤ burst l * billion
unfolding refill
refill-le-burst l now = ground arith

pub reserve_delay-IsFilled :
    (l : BandwidthLimiter) (needed now : ℕ) → IsFilled (reserve_delay l needed now).0
unfolding reserve_delay
reserve_delay-IsFilled l needed now = ground (arith, refill-le-burst l now)

-- What one call takes out of the bucket, in bytes.
abbrev pub taken : ℕ → ℕ → ℕ
taken needed delay = if leb delay 0 then needed else 0

div_small : (a r : ℕ) → 0 < r → a / r ≤ 0 → a < r
div_small a r h e = grind arith

-- One call pays for what it grants from the bucket and the refill, up to the rounding of the delay
-- to whole nanoseconds.
pub reserve_delay_pays :
    (l : BandwidthLimiter) (needed now : ℕ)
    → 0 < rate l
    → taken needed (reserve_delay l needed now).1 * billion + (reserve_delay l needed now).0.tokens
      ≤ l.tokens + (now - l.last_fill) * rate l + rate l
unfolding reserve_delay refill
reserve_delay_pays l needed now h =
    ground (arith, div_small (needed * billion - refill l now) (rate l) h)

-- The calls of a history come in order, from `start` to `end`.
abbrev pub IsOrdered : ℕ → ℕ → List (ℕ × ℕ) → Type 0
IsOrdered start end [] = start ≤ end
IsOrdered start end ((needed, now) ∷ calls) = (start ≤ now) × IsOrdered now end calls

-- The bytes that the calls of a history are granted.
abbrev pub total_taken : BandwidthLimiter → List (ℕ × ℕ) → ℕ
total_taken l [] = 0
total_taken l ((needed, now) ∷ calls) =
    taken needed (reserve_delay l needed now).1 + total_taken (reserve_delay l needed now).0 calls

start-le-end : (start end : ℕ) (calls : List (ℕ × ℕ)) → IsOrdered start end calls → start ≤ end
start-le-end start end [] h = h
start-le-end start end ((needed, now) ∷ calls) h = omega (arith, start-le-end now end calls h.1)

pub reserve_delay-frame :
    (l : BandwidthLimiter) (needed now : ℕ)
    → ((reserve_delay l needed now).0.limit_kbps ≡ l.limit_kbps)
      × ((reserve_delay l needed now).0.last_fill ≡ now)
unfolding reserve_delay
reserve_delay-frame l needed now = ground arith

elapsed_split : (a b c r : ℕ) → a ≤ b → b ≤ c → (c - a) * r ≡ (b - a) * r + (c - b) * r
elapsed_split a b c r h k = let e : c - a ≡ (b - a) + (c - b) = omega arith in rw e (omega arith)

total_bound :
    (l : BandwidthLimiter) (calls : List (ℕ × ℕ)) (start end r : ℕ)
    → rate l ≡ r
    → l.last_fill ≡ start
    → 0 < r
    → IsOrdered start end calls
    → total_taken l calls * billion ≤ l.tokens + (end - start) * r + length calls * r
total_bound l [] start end r e f h o = omega arith
total_bound l ((needed, now) ∷ calls) start end r e f h o =
    let frame : ((reserve_delay l needed now).0.limit_kbps ≡ l.limit_kbps)
        × ((reserve_delay l needed now).0.last_fill ≡ now) =
      reserve_delay-frame l needed now in
    let rest : total_taken (reserve_delay l needed now).0 calls * billion
        ≤ (reserve_delay l needed now).0.tokens + (end - now) * r + length calls * r =
      total_bound (reserve_delay l needed now).0 calls now end r
        (ap (λ (k : ℕ). k * 1000 / 8) frame.0 ∙ e) frame.1 h o.1 in
    let paid : taken needed (reserve_delay l needed now).1 * billion
          + (reserve_delay l needed now).0.tokens
        ≤ l.tokens + (now - start) * r + r =
      rw (← e, ← f) (reserve_delay_pays l needed now (rw e h)) in
    omega (arith, elapsed_split start now end r o.0 (start-le-end now end calls o.1))

-- Over any history of calls, in order, that ends by `end`, the bytes granted are paid for by the
-- tokens at the start and the rate times the time that has gone by, up to a nanosecond of the rate
-- for each call.
pub total_taken_bounded :
    (l : BandwidthLimiter) (calls : List (ℕ × ℕ)) (end : ℕ)
    → 0 < rate l
    → IsOrdered l.last_fill end calls
    → total_taken l calls * billion
      ≤ l.tokens + (end - l.last_fill) * rate l + length calls * rate l
total_taken_bounded l calls end h o = total_bound l calls l.last_fill end (rate l) refl refl h o

-- The loop ends before its fuel does.
wait_loop-total :
    (timers : Timers) (fuel : ℕ) (l : BandwidthLimiter) (needed now deadline : ℕ)
    → deadline - now < fuel
    → wait_loop timers fuel l needed now deadline ≢ unfinished
unfolding wait_loop
wait_loop-total timers zero l needed now deadline h = absurd (omega arith)
wait_loop-total timers (suc fuel) l needed now deadline h = ground (
  arith,
  wait_loop-total timers fuel (reserve_delay l needed now).0 needed
      (now + (reserve_delay l needed now).1 + timers.late fuel) deadline,
)

-- `Wait` always comes to an end, with the bytes granted or with the context's error.
pub wait-total :
    (timers : Timers) (l : BandwidthLimiter) (bytes now deadline : ℕ)
    → wait timers l bytes now deadline ≢ unfinished
unfolding wait
wait-total timers l bytes now deadline =
    ground (arith, wait_loop-total timers (suc (deadline - now)) l bytes now deadline)
