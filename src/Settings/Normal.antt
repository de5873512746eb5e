-- ===== src/Settings/Normal.antt =====
-- cmd/client-windows/app.go: settings that `normalizeUISettings` has put in order stay so.
use beacon_desk.Prelude.{
  ℕ, ◌≤◌, ◌≡◌, refl, ap, sym, ◌∙◌, ◌⊎◌, inl, inr, String, List, [], ◌∷◌, if_rule, arith, eq_iff,
}
use beacon_desk.Prelude.Int.{ℤ, pos}
use beacon_desk.Settings.{
  UiSettings, text_or, positive_or, is_int, preset_int, resolution_key, fit_resolution, fps_presets,
  quality_presets, bandwidth_presets, static_presets, normalize_ui_settings,
}

text_again : (s d : String) → text_or (text_or s d) d ≡ text_or s d
text_again s d = ground (arith, eq_iff s "", eq_iff d "")

positive_again : (n : ℤ) (d : ℕ) → 1 ≤ d → positive_or (positive_or n d) d ≡ positive_or n d
positive_again n d h = ground arith

preset_fallback :
    (fallback : ℕ) (allowed : List ℕ) → preset_int (pos fallback) fallback allowed ≡ pos fallback
unfolding preset_int
preset_fallback fallback [] = refl
preset_fallback fallback (a ∷ rest) =
    if_rule (λ z. z ≡ pos fallback) (is_int (pos fallback) a) _ _ (λ _. refl)
      (λ _. preset_fallback fallback rest)

preset_cases :
    (n : ℤ) (fallback : ℕ) (allowed : List ℕ)
    → (preset_int n fallback allowed ≡ n) ⊎ (preset_int n fallback allowed ≡ pos fallback)
unfolding preset_int
preset_cases n fallback [] = inr refl
preset_cases n fallback (a ∷ rest) =
    if_rule (λ z. (z ≡ n) ⊎ (z ≡ pos fallback)) (is_int n a) _ _ (λ _. inl refl)
      (λ _. preset_cases n fallback rest)

preset_again :
    (n : ℤ) (fallback : ℕ) (allowed : List ℕ)
    → preset_int (preset_int n fallback allowed) fallback allowed ≡ preset_int n fallback allowed
preset_again n fallback allowed = elim (preset_cases n fallback allowed) [
  | inl e ↦ ap (λ z. preset_int z fallback allowed) e
  | inr e ↦ ap (λ z. preset_int z fallback allowed) e ∙ (preset_fallback fallback allowed ∙ sym e)
]

fit_cases :
    (width height : ℤ)
    → (fit_resolution width height ≡ (width, height))
      ⊎ (fit_resolution width height ≡ (pos 1280, pos 720))
unfolding fit_resolution
fit_cases width height =
    if_rule (λ p. (p ≡ (width, height)) ⊎ (p ≡ (pos 1280, pos 720))) _ _ _ (λ _. inr refl)
      (λ _. inl refl)

fit_default : fit_resolution (pos 1280) (pos 720) ≡ (pos 1280, pos 720)
unfolding fit_resolution resolution_key
fit_default = refl

fit_again :
    (width height : ℤ)
    → fit_resolution (fit_resolution width height).0 (fit_resolution width height).1
      ≡ fit_resolution width height
fit_again width height = elim (fit_cases width height) [
  | inl e ↦ ap fit e
  | inr e ↦ ap fit e ∙ (fit_default ∙ sym e)
]
  where
    fit : ℤ × ℤ → ℤ × ℤ
    fit p = fit_resolution p.0 p.1

-- Settings that have been normalized stay as they are.
pub normalize_again :
    (s : UiSettings) → normalize_ui_settings (normalize_ui_settings s) ≡ normalize_ui_settings s
unfolding normalize_ui_settings
normalize_again s = λ i. record (normalize_ui_settings s) {
  language = text_again s.language "zh-CN" i;
  server_address = text_again s.server_address "127.0.0.1:8443" i;
  transport = text_again s.transport "websocket" i;
  web_socket_path = text_again s.web_socket_path "/ws" i;
  device_name = text_again s.device_name "beacondesk-windows" i;
  role = text_again s.role "peer" i;
  request_mode = text_again s.request_mode "view-control" i;
  web_share_ttl_minutes = positive_again s.web_share_ttl_minutes 60 (omega arith) i;
  capture_fps = preset_again s.capture_fps 15 fps_presets i;
  capture_max_width = (fit_again s.capture_max_width s.capture_max_height i).0;
  capture_max_height = (fit_again s.capture_max_width s.capture_max_height i).1;
  capture_quality = preset_again s.capture_quality 55 quality_presets i;
  bandwidth_limit_kbps = preset_again s.bandwidth_limit_kbps 2048 bandwidth_presets i;
  static_frame_seconds = preset_again s.static_frame_seconds 5 static_presets i;
}
