-- ===== src/Recorder.antt =====
-- src/recorder: the recorder behind the window, its session, and the texts they show.
pub mod Settings
pub mod State
pub mod Monitoring
pub mod Hints
pub mod Choices
pub mod Format
pub mod Recording
pub mod Update
pub mod Start
pub mod Steps
pub mod Invariant
pub mod Offers
pub mod Grants
pub mod Requests
pub mod Session
pub mod Levels
pub mod Labels
