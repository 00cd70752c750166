-- ===== src/App.antt =====
-- src/app: what joins the window, the start flow and the recorder.
pub mod StartFlow
