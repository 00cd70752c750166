-- ===== src/Bus.antt =====
-- src/bus: how Klip writes and reads what crosses the session bus.
pub mod FileUri
