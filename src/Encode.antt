-- ===== src/Encode.antt =====
-- src/encode: the formats Klip offers, what the card takes, and the encoder's own bookkeeping.
pub mod Format
pub mod Quality
pub mod Capabilities
pub mod Region
pub mod Video
pub mod Audio
