-- ===== src/Client/Media.antt =====
-- client.go: the options of the stream, and how its quality and rate follow the connection.
use beacon_desk.Prelude.{
  ℕ, ◌*◌, ◌/◌, Bool, false, not, ◌&&◌, ◌||◌, none, some, ltb, leb, if◌then◌else◌,
}
use Prim.Native.String.{◌++◌ as append}
use beacon_desk.Prelude.Int.{ℤ, pos, ltb_ℤ, sub_ℤ, pos_part}
use beacon_desk.Config.{second}
use beacon_desk.ClientOptions.{Options}
use beacon_desk.Protocol.Payloads.{StreamControlPayload}
use beacon_desk.Client.State.{Client, Texts}
use beacon_desk.Client.Basics.{emit, estimated_bitrate, packet_loss, set_state}

unfoldable pub clamp : ℤ → ℕ → ℕ → ℤ
clamp v low high = if ltb_ℤ v (pos low) then pos low else if ltb_ℤ (pos high) v then pos high else v

-- A number of the payload that is positive, clamped; or else the old one.
abbrev pub control_or : ℤ → ℕ → ℕ → ℤ → ℤ
control_or v low high old = if ltb_ℤ (pos 0) v then clamp v low high else old

-- What `UpdateMediaOptions` makes of the options.
unfoldable pub media_options : StreamControlPayload → Options → Options
media_options p o = record o {
  send_screen_frames = elim p.send_screen_frames [ none ↦ o.send_screen_frames | some b ↦ b ];
  send_mock_frames = elim p.send_screen_frames [
    | none ↦ o.send_mock_frames
    | some b ↦ if b then false else o.send_mock_frames
  ];
  capture_fps = control_or p.capture_fps 1 120 o.capture_fps;
  capture_max_width = control_or p.capture_max_width 320 7680 o.capture_max_width;
  capture_max_height = control_or p.capture_max_height 240 4320 o.capture_max_height;
  capture_quality = control_or p.capture_quality 20 90 o.capture_quality;
  bandwidth_limit_kbps = control_or p.bandwidth_limit_kbps 128 200_000 o.bandwidth_limit_kbps;
  static_frame_seconds = control_or p.static_frame_seconds 1 300 o.static_frame_seconds;
}

abbrev pub update_media_options : {D A : Type 0} → StreamControlPayload → Client D A → Client D A
update_media_options p c = record c { opts = media_options p c.opts }

-- `frameInterval`, in nanoseconds.
unfoldable pub frame_interval : ℤ → ℕ
frame_interval fps = second / pos_part (if ltb_ℤ (pos 0) fps then fps else pos 1)

abbrev pub plus : ℤ → ℕ → ℤ
plus a n = sub_ℤ a (sub_ℤ (pos 0) (pos n))

abbrev pub minus : ℤ → ℕ → ℤ
minus a n = sub_ℤ a (pos n)

-- The next quality, for the limit, the wanted quality, the bitrate and the quality of the moment.
unfoldable pub next_quality : ℤ → ℤ → ℕ → ℤ → ℤ
next_quality limit wanted bitrate current =
    if not (ltb_ℤ (pos 0) limit)
    then current
    else if ltb_ℤ limit (pos bitrate) && ltb_ℤ (pos 25) current
    then minus current 5
    else if ltb bitrate (pos_part limit * 6 / 10) && ltb_ℤ current wanted
    then plus current 2
    else current

abbrev pub same_int : ℤ → ℤ → Bool
same_int a b = not (ltb_ℤ a b) && not (ltb_ℤ b a)

-- The next rate, for the highest one, the limit, the bitrate, the loss, the round trip and the rate
-- of the moment.
unfoldable pub next_fps : ℤ → ℤ → ℕ → ℕ → ℤ → ℤ → ℤ
next_fps max_fps limit bitrate loss rtt current =
    let limited = ltb_ℤ (pos 0) limit in
    let congested =
      (limited && ltb_ℤ limit (pos bitrate)) || leb 500 loss || not (ltb_ℤ rtt (pos 350)) in
    let healthy =
      (not limited || ltb bitrate (pos_part limit * 6 / 10))
      && leb loss 100
      && ltb_ℤ rtt (pos 180) in
    if congested && ltb_ℤ (pos 1) current
    then minus current 1
    else if healthy && ltb_ℤ current max_fps
    then plus current 1
    else current

abbrev pub at_least_one : ℤ → ℤ
at_least_one n = if ltb_ℤ n (pos 1) then pos 1 else n

abbrev pub fps_or : ℤ → ℤ → ℤ
fps_or current max_fps = if ltb_ℤ (pos 0) current then current else max_fps

module _ {D A : Type 0} (texts : Texts) where
  -- `adjustCaptureQuality`: the client and the quality from now on.
  unfoldable pub adjust_capture_quality : ℕ → ℤ → Client D A → Client D A × ℤ
  adjust_capture_quality now current c =
      let bitrate = estimated_bitrate c.state.connected_at now c.bytes_sent in
      let next = next_quality c.opts.bandwidth_limit_kbps c.opts.capture_quality bitrate current in
      let noted = set_state (λ s. record s { bitrate_kbps = bitrate; capture_quality = next }) c in
      if not (ltb_ℤ (pos 0) c.opts.bandwidth_limit_kbps)
      then (c, current)
      else if same_int next current
      then (noted, current)
      else (
        emit now "screen.quality"
            (append "adjusted jpeg quality to " (
              append (texts.show_int next)
                (append " at " (append (texts.show_int (pos bitrate)) "kbps"))))
            noted,
        next,
      )

  -- `adjustCaptureFPS`.
  unfoldable pub adjust_capture_fps : ℕ → ℤ → Client D A → Client D A × ℤ
  adjust_capture_fps now current c =
      let max_fps = c.opts.capture_fps in
      let bitrate = estimated_bitrate c.state.connected_at now c.bytes_sent in
      let loss = packet_loss c.heartbeat_seq c.heartbeat_pongs in
      let rtt = c.state.rtt_millis in
      let current' = fps_or current max_fps in
      let next = next_fps max_fps c.opts.bandwidth_limit_kbps bitrate loss rtt current' in
      let noted = set_state (λ s. record s { current_fps = next }) c in
      if not (ltb_ℤ (pos 1) max_fps)
      then (
        set_state (λ s. record s { current_fps = at_least_one current }) c,
        at_least_one current,
      )
      else if same_int next current'
      then (noted, next)
      else (
        emit now "screen.fps"
            (append "adjusted capture fps to " (
              append (texts.show_int next) (
                append " at rtt=" (
                  append (texts.show_int rtt) (
                    append "ms loss=" (
                      append (texts.show_int (pos loss)) (
                        append "/10000 bitrate="
                          (append (texts.show_int (pos bitrate)) "kbps"))))))))
            noted,
        next,
      )
