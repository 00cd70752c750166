-- ===== src/Config/Store/Refine.antt =====
-- src/config/private/settings_store.cpp: the store against what it promises, settings that a later
-- run finds as they were left.
use klip.Json.{Json}
use klip.Recorder.Settings.{Settings}
