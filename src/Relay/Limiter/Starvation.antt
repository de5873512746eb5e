-- ===== src/Relay/Limiter/Starvation.antt =====
-- Where the limiter never grants: the bucket is emptied at each refusal.
use beacon_desk.Prelude.{
  ℕ, zero, suc, ◌+◌, ◌-◌, ◌*◌, ◌/◌, ◌≤◌, ◌<◌, ◌≡◌, ◌≢◌, refl, ◌∙◌, Bool, true, false, arith,
}
use beacon_desk.Relay.Limiter.{
  Timers, on_time, BandwidthLimiter, rate, burst, billion, refill, reserve_delay, WaitResult,
  granted, unfinished, wait_loop, wait,
}
use beacon_desk.Relay.Limiter.Rate.{refill-le-burst, reserve_delay-frame, wait-total}

abbrev pub is_granted : WaitResult → Bool
is_granted (granted _ _) = true
is_granted _ = false

div_large : (a r : ℕ) → 0 < r → r ≤ a → 0 < a / r
div_large a r h k = grind arith

refused_delay :
    (l : BandwidthLimiter) (needed now : ℕ)
    → burst l < needed
    → 0 < rate l
    → rate l ≤ billion
    → 0 < (reserve_delay l needed now).1
unfolding reserve_delay
refused_delay l needed now h p q =
    ground (arith, refill-le-burst l now, div_large (needed * billion - refill l now) (rate l) p)

wait_loop_oversize :
    (timers : Timers) (fuel : ℕ) (l : BandwidthLimiter) (k needed now deadline : ℕ)
    → l.limit_kbps ≡ k
    → k * 1000 / 8 * 2 < needed
    → 0 < k * 1000 / 8
    → k * 1000 / 8 ≤ billion
    → is_granted (wait_loop timers fuel l needed now deadline) ≡ false
unfolding wait_loop
wait_loop_oversize timers zero l k needed now deadline e h p q = refl
wait_loop_oversize timers (suc fuel) l k needed now deadline e h p q =
    let l' : BandwidthLimiter = (reserve_delay l needed now).0 in
    let delay : ℕ = (reserve_delay l needed now).1 in
    let positive : 0 < delay = refused_delay l needed now (rw e h) (rw e p) (rw e q) in
    let rest : is_granted
          (wait_loop timers fuel l' needed (now + delay + timers.late fuel) deadline)
        ≡ false =
      wait_loop_oversize timers fuel l' k needed (now + delay + timers.late fuel) deadline
        ((reserve_delay-frame l needed now).0 ∙ e) h p q in
    ground (arith, positive, rest)

-- A write of more bytes than two seconds of the rate never passes the limiter: whatever the bucket
-- holds, however late the timers fire, and whichever case `select` takes, `Wait` ends with the context's error (for rates up to a
-- byte per nanosecond).
pub wait_oversize :
    (timers : Timers) (l : BandwidthLimiter) (bytes now deadline : ℕ)
    → burst l < bytes
    → 0 < rate l
    → rate l ≤ billion
    → (wait timers l bytes now deadline ≢ unfinished)
      × (is_granted (wait timers l bytes now deadline) ≡ false)
unfolding wait
wait_oversize timers l bytes now deadline h p q = (
  wait-total timers l bytes now deadline,
  ground (
    arith,
    wait_loop_oversize timers (suc (deadline - now)) l l.limit_kbps bytes now deadline refl,
  ),
)

mul_pos : (b r : ℕ) → 0 < b → 0 < r → 0 < b * r
mul_pos b r h k = grind arith

refill_exact :
    (l : BandwidthLimiter) (needed a b now : ℕ)
    → needed * billion ≡ (a + b) * rate l
    → needed ≤ burst l
    → 0 < b * rate l
    → l.tokens + (now - l.last_fill) * rate l ≡ a * rate l
    → (refill l now ≡ a * rate l) × (a * rate l < needed * billion)
unfolding refill
refill_exact l needed a b now e h p t = ground arith

-- With `a` nanoseconds' worth of tokens in the bucket, of the `a + b` that are needed, a round
-- empties the bucket and asks for a delay of `b`.
livelock_round :
    (l : BandwidthLimiter) (needed a b now : ℕ)
    → needed * billion ≡ (a + b) * rate l
    → needed ≤ burst l
    → 0 < rate l
    → 0 < b
    → l.tokens + (now - l.last_fill) * rate l ≡ a * rate l
    → reserve_delay l needed now ≡ (record l { tokens = 0; last_fill = now }, b)
unfolding reserve_delay
livelock_round l needed a b now e h p q t =
    let filled : (refill l now ≡ a * rate l) × (a * rate l < needed * billion) =
      refill_exact l needed a b now e h (mul_pos b (rate l) q p) t in
    let missing : needed * billion - refill l now ≡ b * rate l = omega arith in
    let delay : (needed * billion - refill l now) / rate l ≡ b = rw missing (grind arith) in
    ground (arith, delay)

livelock_refill : (now b r : ℕ) → 0 + (now + b + 0 - now) * r ≡ b * r
livelock_refill now b r = let e : now + b + 0 - now ≡ b = omega arith in rw e (omega arith)

livelock_loop :
    (picks : ℕ → Bool) (fuel : ℕ) (l : BandwidthLimiter) (needed a b r now deadline : ℕ)
    → rate l ≡ r
    → needed * billion ≡ (a + b) * r
    → needed ≤ r * 2
    → 0 < r
    → 0 < a
    → 0 < b
    → l.tokens + (now - l.last_fill) * r ≡ a * r
    → is_granted (wait_loop (on_time picks) fuel l needed now deadline) ≡ false
unfolding wait_loop
livelock_loop picks zero l needed a b r now deadline k e h p qa qb t = refl
livelock_loop picks (suc fuel) l needed a b r now deadline k e h p qa qb t =
    let round : reserve_delay l needed now ≡ (record l { tokens = 0; last_fill = now }, b) =
      livelock_round l needed a b now (rw k e) (rw k h) (rw k p) qb (rw k t) in
    let rest : is_granted (
          wait_loop (on_time picks) fuel (record l { tokens = 0; last_fill = now }) needed
            (now + b + 0) deadline)
        ≡ false =
      livelock_loop picks fuel (record l { tokens = 0; last_fill = now }) needed b a r (now + b + 0)
        deadline k (omega arith) h p qb qa (livelock_refill now b r) in
    rw (round, wait_loop) (ground arith)

-- A write that the burst has room for can starve too. The rate is positive, the timers fire on
-- time, and the call comes at the instant of the last refill; the bucket holds exactly `a` nanoseconds'
-- worth of the rate, the bytes are exactly `a + b` nanoseconds' worth of it, both `a` and `b` are
-- positive, and the bytes are no more than the burst. Then `Wait` ends, and never with a grant.
pub wait_livelock :
    (picks : ℕ → Bool) (l : BandwidthLimiter) (bytes a b deadline : ℕ)
    → 0 < rate l
    → bytes ≤ burst l
    → 0 < a
    → 0 < b
    → l.tokens ≡ a * rate l
    → bytes * billion ≡ (a + b) * rate l
    → (wait (on_time picks) l bytes l.last_fill deadline ≢ unfinished)
      × (is_granted (wait (on_time picks) l bytes l.last_fill deadline) ≡ false)
unfolding wait
wait_livelock picks l bytes a b deadline p h qa qb t e =
    let start : l.tokens + (l.last_fill - l.last_fill) * rate l ≡ a * rate l =
      let none_since : l.last_fill - l.last_fill ≡ 0 = omega arith in rw none_since (omega arith) in
    (
      wait-total (on_time picks) l bytes l.last_fill deadline,
      ground (
        arith,
        mul_pos (a + b) (rate l),
        livelock_loop picks (suc (deadline - l.last_fill)) l bytes a b (rate l) l.last_fill deadline
            refl e h p qa qb start,
      ),
    )
