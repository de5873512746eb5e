-- ===== src/Desktop.antt =====
-- internal/desktop: what decides whether a captured frame is sent.
pub mod ChangeDetector
