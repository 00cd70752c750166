-- ===== src/Recorder/State.antt =====
-- src/recorder/public/recorder/recorder.hpp: what CRecorder holds, what it asks of its parts, and
-- what they and the system answer. A time is a number of nanoseconds.
use klip.Base.{ℕ, Bool, true, false, ◌++◌, List, [], ◌∷◌, Option, Bytes, ℤ}
use klip.Capture.{SourceType, AudioDevice}
use klip.Encode.Format.{Container, Codec}
use klip.Encode.Quality.{Quality}
use klip.Encode.Capabilities.{Capabilities}
use klip.Recorder.Settings.{AudioSource, PerSource, Screen, Settings, SettingsChanges}

pub data RecorderState : Type 0 where
  idle starting recording : RecorderState

pub data Reveal : Type 0 where
  nothing show raise : Reveal

-- SRegion.
pub record Region : Type 0 where
  pub x : ℕ
  pub y : ℕ
  pub width : ℕ
  pub height : ℕ

abbrev pub whole_frame : Region
whole_frame = record { x = 0; y = 0; width = 0; height = 0 }

-- SSessionStats.
pub record SessionStats : Type 0 where
  pub num_captured : ℕ
  pub num_encoded : ℕ
  pub num_dropped : ℕ
  pub bytes_written : ℕ

-- SThroughput: the bytes and the whole seconds that its two texts are made of; `none` where both
-- are empty.
abbrev pub Throughput : Type 0
Throughput = Option (ℕ × ℕ)

-- `m_status`, by the text's format string and what is put in.
pub data Status : Type 0 where
  blank ready cannot_record stopped_sharing waiting cannot_write running : Status
  not_permitted failed : Status
  unavailable saved : Bytes → Status
  progress : ℕ → Throughput → Status

-- The paragraphs of `m_notice`.
pub data Notice : Type 0 where
  no_portal old_portal no_screen no_device refused_codecs : Notice

-- `m_qualityHint`: the rate behind its figure, and the size where the text names one.
pub record QualityHint : Type 0 where
  pub bits_per_second : ℕ
  pub size : Option (ℕ × ℕ)

-- SRecordingRequest. A gain is kept in decibels, from which `ToGain` makes the float.
pub record Request : Type 0 where
  pub output_path : Bytes
  pub region : Region
  pub source : SourceType
  pub remember_window : Bool
  pub restore_token : Bytes
  pub codec : Codec
  pub quality : Quality
  pub max_frame_rate : ℕ
  pub system_audio : AudioDevice
  pub microphone : AudioDevice
  pub system_gain : ℤ
  pub microphone_gain : ℤ
  pub audio_quality : Quality

-- The calls of CSession, CTray, CAudioDevices, CAudioStream and CLevelBallistics that change them.
pub data Call : Type 0 where
  session_start : Request → Call
  session_stop session_terminate : Call
  tray_initialize tray_terminate : Call
  tray_recording : Bool → Call
  tray_label : Bytes → Throughput → Call
  tray_detail : Bytes → ℕ → Throughput → Call
  devices_terminate : Call
  monitor_open : AudioSource → AudioDevice → Call
  monitor_close meter_reset : AudioSource → Call
  meter_feed : AudioSource → Bool → ℤ → ℕ → Call

-- What the closure passed to `CSession::Start` holds.
pub record Pending : Type 0 where
  pub keeps : Bool
  pub source : SourceType
  pub sent : Bytes

pub record Recorder : Type 0 where
  pub settings : Settings
  pub changes : SettingsChanges
  pub screen : Screen
  pub capabilities : Capabilities
  pub containers : List Container
  pub codecs : List Codec
  pub devices : PerSource (List AudioDevice)
  pub written_devices : PerSource Bytes
  pub monitored : PerSource Bytes
  pub num_buffers : PerSource ℕ
  pub meter_unavailable : PerSource Bool
  pub status : Status
  pub elapsed : Bytes
  pub quality_hint : QualityHint
  pub audio_quality_hint : Bytes
  pub current_path : Bytes
  pub notice : List Notice
  pub region : Region
  pub meter_deadline : Option ℕ
  pub tick_deadline : Option ℕ
  pub recording_start : ℕ
  pub first_byte : Option ℕ
  pub state : RecorderState
  pub reveal : Reveal
  pub visible : Bool
  pub can_record : Bool
  pub withdrawn : Bool
  pub pending : List Pending
  pub calls : List Call

-- What the parts and the system answer during one call of the recorder.
pub record World : Type 0 where
  pub now : ℕ
  pub stamp : Bytes
  pub is_usable_folder : Bytes → Bool
  pub opens : AudioSource → AudioDevice → Bool
  pub listed : PerSource (List AudioDevice)
  pub num_buffers : AudioSource → ℕ
  pub stats : SessionStats
  pub finalised : Bool

-- `m_calls` grows at its end.
abbrev pub call : Call → Recorder → Recorder
call c r = record r { calls = r.calls ++ c ∷ [] }

abbrev pub is_idle : RecorderState → Bool
is_idle idle = true
is_idle starting = false
is_idle recording = false

abbrev pub is_starting : RecorderState → Bool
is_starting idle = false
is_starting starting = true
is_starting recording = false

abbrev pub is_recording : RecorderState → Bool
is_recording idle = false
is_recording starting = false
is_recording recording = true
