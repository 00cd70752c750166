-- ===== src/Capture.antt =====
-- src/capture: what the recorder asks the desktop for.
use klip.Base.{Bool, true, false, ◌||◌, [], Bytes}

pub data SourceType : Type 0 where
  screen window : SourceType

pub record AudioDevice : Type 0 where
  pub node_name : Bytes
  pub description : Bytes
  pub is_monitor : Bool

abbrev pub no_device : AudioDevice
no_device = record { node_name = []; description = []; is_monitor = false }

abbrev pub is_screen : SourceType → Bool
is_screen screen = true
is_screen window = false

-- `KeepsGrant` of portal_session.cpp.
abbrev pub keeps_grant : SourceType → Bool → Bool
keeps_grant source remember_window = is_screen source || remember_window
