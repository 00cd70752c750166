-- ===== src/Tests.antt =====
-- Concrete recorders, worlds and cards, on which the modules below run src/recorder, src/app,
-- src/encode and src/bus.
pub mod Recording
pub mod Flow
pub mod Formats
pub mod Sessions
pub mod Videos
pub mod Trees
pub mod Config
pub mod Disk
pub mod Sound
use klip.Base.{ℕ, leb, ◌==◌, Bool, true, false, List, [], ◌∷◌, none, some, Bytes, codes, pos}
use klip.Capture.{AudioDevice}
use klip.Encode.Format.{Codec, h264, hevc, av1, mp4, matroska, webm}
use klip.Encode.Capabilities.{Capabilities, Card}
use klip.Recorder.Settings.{
  AudioSource, both, Source, Settings, default_settings, no_changes, Screen,
}
use klip.Recorder.State.{
  Recorder, World, idle, starting, recording, nothing, whole_frame, ready, running, waiting,
  Pending,
}

abbrev pub speakers : AudioDevice
speakers = record { node_name = codes "sink"; description = codes "Speakers"; is_monitor = true }

abbrev pub headset : AudioDevice
headset = record { node_name = codes "mic"; description = codes "Headset"; is_monitor = false }

abbrev pub world : World
world = record {
  now = 5_000_000_000;
  stamp = codes "20250102-030405";
  is_usable_folder = λ directory. true;
  opens = λ source device. true;
  listed = record { of_system = speakers ∷ []; of_microphone = headset ∷ [] };
  num_buffers = λ source. 3;
  stats = record { num_captured = 9; num_encoded = 8; num_dropped = 1; bytes_written = 4096 };
  finalised = true;
}

-- The system's sinks are gone.
abbrev pub silent_world : World
silent_world = record world { listed = both [] }

-- A card that takes H.264 and HEVC.
abbrev pub old_card : Codec → Bool
old_card h264 = true
old_card hevc = true
old_card av1 = false

abbrev pub card : Capabilities
card = record { device_path = codes "/dev/dri/renderD129"; encodes = old_card }

abbrev pub panel : Screen
panel = record { width = 1920; height = 1080; refresh_hz = 144 }

abbrev pub chosen : Settings
chosen = record default_settings {
  directory = codes "/home/klip/Videos";
  audio = both (record { enabled = true; device = codes "sink"; gain_decibels = pos 3 });
  screen_token = codes "screen-grant";
  window_token = codes "window-grant";
}

abbrev pub idle_recorder : Recorder
idle_recorder = record {
  settings = chosen;
  changes = no_changes;
  screen = panel;
  capabilities = card;
  containers = mp4 ∷ matroska ∷ [];
  codecs = h264 ∷ hevc ∷ [];
  devices = record { of_system = speakers ∷ []; of_microphone = headset ∷ [] };
  written_devices = both (codes "sink");
  monitored = both [];
  num_buffers = both 0;
  meter_unavailable = both false;
  status = ready;
  elapsed = codes "00:00:00";
  quality_hint = record { bits_per_second = 0; size = none };
  audio_quality_hint = [];
  current_path = [];
  notice = [];
  region = whole_frame;
  meter_deadline = none;
  tick_deadline = none;
  recording_start = 0;
  first_byte = none;
  state = idle;
  reveal = nothing;
  visible = true;
  can_record = true;
  withdrawn = false;
  pending = [];
  calls = [];
}

abbrev pub starting_recorder : Recorder
starting_recorder = record idle_recorder { state = starting }

-- A window is recorded, and its grant is not kept.
abbrev pub window_recorder : Recorder
window_recorder = record starting_recorder { settings = record chosen { source = Source.window } }

abbrev pub recording_recorder : Recorder
recording_recorder = record idle_recorder {
  state = recording;
  status = running;
  tick_deadline = some 5_250_000_000;
  meter_deadline = some 5_040_000_000;
}

-- The graphics cards of a machine: one that takes nothing at 128, and the old one at 129.
abbrev pub cards : ℕ → Card
cards n = record {
  accessible = leb n 129;
  opens = true;
  makes_frames = n == 129;
  can_encode = old_card;
}
