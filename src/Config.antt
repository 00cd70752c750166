-- ===== src/Config.antt =====
-- src/config: the settings file.
pub mod Document
pub mod Names
pub mod Reading
pub mod Schema
pub mod Writing
pub mod RoundTrip
pub mod Bounds
pub mod KlipConf
pub mod Store
pub mod XdgPaths
