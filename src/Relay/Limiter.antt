-- ===== src/Relay/Limiter.antt =====
-- internal/relay/limiter.go: the token bucket in front of a client's writes.
-- The bucket is kept in billionths of a byte, so that nanoseconds times bytes per second is exact
-- where the source rounds a float64; instants and delays are nanoseconds.
pub mod Rate
pub mod Starvation
use beacon_desk.Prelude.{
  ℕ, zero, suc, ◌+◌, ◌-◌, ◌*◌, ◌/◌, Bool, true, false, ◌||◌, ◌&&◌, not, ltb, leb, if◌then◌else◌,
}
use beacon_desk.Prelude.Int.{ℤ, pos_part}

abbrev pub token_bucket_burst_seconds : ℕ
token_bucket_burst_seconds = 2

abbrev pub billion : ℕ
billion = 1_000_000_000

-- A limit of 0 or less is never looked at again, and stands here as 0.
pub record BandwidthLimiter : Type 0 where
  pub limit_kbps : ℕ
  pub tokens : ℕ
  pub last_fill : ℕ

abbrev pub rate : BandwidthLimiter → ℕ
rate l = l.limit_kbps * 1000 / 8

abbrev pub burst : BandwidthLimiter → ℕ
burst l = rate l * token_bucket_burst_seconds

unfoldable pub new_bandwidth_limiter : ℤ → ℕ → BandwidthLimiter
new_bandwidth_limiter limit_kbps now = record {
  limit_kbps = pos_part limit_kbps;
  tokens = pos_part limit_kbps * 1000 / 8 * token_bucket_burst_seconds * billion;
  last_fill = now;
}

-- The bucket after the refill at `now`.
unfoldable pub refill : BandwidthLimiter → ℕ → ℕ
refill l now =
    let filled = l.tokens + (now - l.last_fill) * rate l in
    if ltb (burst l * billion) filled then burst l * billion else filled

-- `reserveDelay`: the new bucket and the delay, 0 if the bytes were taken.
unfoldable pub reserve_delay : BandwidthLimiter → ℕ → ℕ → BandwidthLimiter × ℕ
unfolding refill
reserve_delay l needed now =
    if leb (needed * billion) (refill l now)
    then (record l { tokens = refill l now - needed * billion; last_fill = now }, 0)
    else (record l { tokens = 0; last_fill = now }, (needed * billion - refill l now) / rate l)

-- How a call of `Wait` ends: with `nil`, or with the context's error.
pub data WaitResult : Type 0 where
  granted : BandwidthLimiter → ℕ → WaitResult
  cancelled : BandwidthLimiter → WaitResult
  unfinished : WaitResult

-- What the runtime decides in the round with fuel `k`: the time by which the timer fires late, and
-- whether `select` takes the timer when both it and the context are ready.
pub record Timers : Type 0 where
  pub late : ℕ → ℕ
  pub picks : ℕ → Bool

-- Timers that are never late.
abbrev pub on_time : (ℕ → Bool) → Timers
on_time picks = record { late = λ _. 0; picks = picks }

-- The loop of `Wait`, with `deadline` for the end of the context. A round that starts after that
-- end finds the context ready before its timer.
unfoldable pub wait_loop : Timers → ℕ → BandwidthLimiter → ℕ → ℕ → ℕ → WaitResult
unfolding reserve_delay
wait_loop timers zero l needed now deadline = unfinished
wait_loop timers (suc fuel) l needed now deadline =
    let l' = (reserve_delay l needed now).0 in
    let delay = (reserve_delay l needed now).1 in
    let wake = now + delay + timers.late fuel in
    let next = wait_loop timers fuel l' needed wake deadline in
    if leb delay 0
    then granted l' now
    else if leb deadline wake && not (ltb now deadline && timers.picks fuel)
    then cancelled l'
    else next

-- `Wait`. The context ends within `deadline - now`, and each round lasts a nanosecond at least.
unfoldable pub wait : Timers → BandwidthLimiter → ℕ → ℕ → ℕ → WaitResult
unfolding wait_loop
wait timers l bytes now deadline =
    if leb l.limit_kbps 0 || leb bytes 0
    then granted l now
    else wait_loop timers (suc (deadline - now)) l bytes now deadline
