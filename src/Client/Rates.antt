-- ===== src/Client/Rates.antt =====
-- How far the quality and the rate of the frames may go: client.go, `adjustCaptureQuality`,
-- `adjustCaptureFPS` and `UpdateMediaOptions`.
use beacon_desk.Prelude.{
  ℕ, ◌+◌, ◌-◌, ◌*◌, ◌/◌, ◌≤◌, ◌≡◌, refl, sym, subst, Bool, not, ◌&&◌, if_rule, if◌then◌else◌, arith,
  ltb,
}
use beacon_desk.Prelude.Int.{ℤ, pos, ltb_ℤ, pos_part}
use beacon_desk.Client.State.{Client, Texts}
use beacon_desk.Client.Basics.{estimated_bitrate, packet_loss}
use beacon_desk.Client.Media.{
  adjust_capture_quality, adjust_capture_fps, fps_or, next_quality, next_fps, minus, plus,
}

-- A number within bounds.
pub record Within (low high : ℕ) (z : ℤ) : Type 0 where
  pub size : ℕ
  pub value : z ≡ pos size
  pub above : low ≤ size
  pub below : size ≤ high

-- A step down, a step up, or none.
stepped :
    (down up : Bool) (most current : ℕ)
    → 1 ≤ current
    → current ≤ most
    → Within 1 most (
        if down && ltb_ℤ (pos 1) (pos current)
        then minus (pos current) 1
        else if up && ltb_ℤ (pos current) (pos most)
        then plus (pos current) 1
        else pos current)
stepped down up most current h k =
    if_rule (Within 1 most) (down && ltb_ℤ (pos 1) (pos current)) _ _
      (λ e. record {
        size = current - 1;
        value = ground arith;
        above = ground arith;
        below = ground arith;
      })
      (λ _.
        if_rule (Within 1 most) (up && ltb_ℤ (pos current) (pos most)) _ _
          (λ e. record {
            size = current + 1;
            value = ground arith;
            above = ground arith;
            below = ground arith;
          })
          (λ _. record { size = current; value = refl; above = h; below = k }))

next_fps-Within :
    (most : ℕ) (limit : ℤ) (bitrate loss : ℕ) (rtt : ℤ) (current : ℕ)
    → 1 ≤ current
    → current ≤ most
    → Within 1 most (next_fps (pos most) limit bitrate loss rtt (pos current))
unfolding next_fps
next_fps-Within most limit bitrate loss rtt current h k = stepped _ _ most current h k

next_quality-Within :
    (limit : ℤ) (wanted bitrate current : ℕ)
    → 21 ≤ current
    → current ≤ wanted + 1
    → Within 21 (wanted + 1) (next_quality limit (pos wanted) bitrate (pos current))
unfolding next_quality
next_quality-Within limit wanted bitrate current h k =
    if_rule (Within 21 (wanted + 1)) (not (ltb_ℤ (pos 0) limit)) _ _
      (λ _. record { size = current; value = refl; above = h; below = k })
      (λ _.
        if_rule (Within 21 (wanted + 1)) (ltb_ℤ limit (pos bitrate) && ltb_ℤ (pos 25) (pos current))
          _ _
          (λ e. record {
            size = current - 5;
            value = ground arith;
            above = ground arith;
            below = ground arith;
          })
          (λ _.
            if_rule (Within 21 (wanted + 1))
              (ltb bitrate (pos_part limit * 6 / 10) && ltb_ℤ (pos current) (pos wanted)) _ _
              (λ e. record {
                size = current + 2;
                value = ground arith;
                above = ground arith;
                below = ground arith;
              })
              (λ _. record { size = current; value = refl; above = h; below = k })))

fps-Within :
    (most current : ℕ) (max_fps limit : ℤ) (bitrate loss : ℕ) (rtt : ℤ)
    → max_fps ≡ pos most
    → 1 ≤ current
    → current ≤ most
    → Within 1 most (next_fps max_fps limit bitrate loss rtt (fps_or (pos current) max_fps))
fps-Within most current max_fps limit bitrate loss rtt e h k =
    let known : fps_or (pos current) (pos most) ≡ pos current = ground arith in
    subst (λ m. Within 1 most (next_fps m limit bitrate loss rtt (fps_or (pos current) m))) (sym e)
      (subst (λ z. Within 1 most (next_fps (pos most) limit bitrate loss rtt z)) (sym known)
        (next_fps-Within most limit bitrate loss rtt current h k))

quality-Within :
    (wanted current : ℕ) (quality limit : ℤ) (bitrate : ℕ)
    → quality ≡ pos wanted
    → 21 ≤ current
    → current ≤ wanted + 1
    → Within 21 (wanted + 1) (next_quality limit quality bitrate (pos current))
quality-Within wanted current quality limit bitrate e h k =
    subst (λ q. Within 21 (wanted + 1) (next_quality limit q bitrate (pos current))) (sym e)
      (next_quality-Within limit wanted bitrate current h k)

module _ {D A : Type 0} (texts : Texts) (now : ℕ) where
  adjust_capture_fps-Within :
      (most current : ℕ) (c : Client D A)
      → c.opts.capture_fps ≡ pos most
      → 1 ≤ current
      → current ≤ most
      → Within 1 most (adjust_capture_fps texts now (pos current) c).1
  unfolding adjust_capture_fps
  adjust_capture_fps-Within most current c e h k =
      let next =
        fps-Within most current (c.opts.capture_fps) c.opts.bandwidth_limit_kbps
          (estimated_bitrate c.state.connected_at now c.bytes_sent)
          (packet_loss c.heartbeat_seq c.heartbeat_pongs) c.state.rtt_millis e h k in
      if_rule Ends (not (ltb_ℤ (pos 1) c.opts.capture_fps)) _ _
        (λ _. record { size = current; value = ground arith; above = h; below = k })
        (λ _. if_rule Ends _ _ _ (λ _. next) (λ _. next))
    where
      Ends : Client D A × ℤ → Type 0
      Ends r = Within 1 most r.1

  adjust_capture_quality-Within :
      (wanted current : ℕ) (c : Client D A)
      → c.opts.capture_quality ≡ pos wanted
      → 21 ≤ current
      → current ≤ wanted + 1
      → Within 21 (wanted + 1) (adjust_capture_quality texts now (pos current) c).1
  unfolding adjust_capture_quality
  adjust_capture_quality-Within wanted current c e h k =
      let next =
        quality-Within wanted current c.opts.capture_quality c.opts.bandwidth_limit_kbps
          (estimated_bitrate c.state.connected_at now c.bytes_sent) e h k in
      if_rule Ends (not (ltb_ℤ (pos 0) c.opts.bandwidth_limit_kbps)) _ _
        (λ _. record { size = current; value = refl; above = h; below = k })
        (λ _.
          if_rule Ends _ _ _ (λ _. record { size = current; value = refl; above = h; below = k })
            (λ _. next))
    where
      Ends : Client D A × ℤ → Type 0
      Ends r = Within 21 (wanted + 1) r.1

  -- The rate that is adjusted stays between one and the configured one, and the quality between 21
  -- and one more than the configured one, if they were there before.
  pub adjusted-Within :
      (most wanted fps quality : ℕ) (c : Client D A)
      → c.opts.capture_fps ≡ pos most
      → c.opts.capture_quality ≡ pos wanted
      → 1 ≤ fps
      → fps ≤ most
      → 21 ≤ quality
      → quality ≤ wanted + 1
      → Within 1 most (adjust_capture_fps texts now (pos fps) c).1
        × Within 21 (wanted + 1) (adjust_capture_quality texts now (pos quality) c).1
  adjusted-Within most wanted fps quality c e e' h k h' k' = (
    adjust_capture_fps-Within most fps c e h k,
    adjust_capture_quality-Within wanted quality c e' h' k',
  )
