-- ===== src/Tests/Sessions.antt =====
-- The session of src/recorder on concrete grants, frames and turns of its two threads.
use klip.Base.{
  ◌≤◌, ◌≡◌, refl, arith, Bool, true, false, ◌&&◌, List, [], ◌∷◌, none, some, codes, pos,
}
use klip.Capture.{SourceType, AudioDevice}
use klip.Encode.Format.{h264}
use klip.Encode.Quality.{balanced, high}
use klip.Recorder.Settings.{AudioSource, system, microphone, both}
use klip.Recorder.State.{Request, SessionStats, whole_frame}
use klip.Recorder.Session.{Session, Parts, Grant, continue, start_session, stop_session, get_stats}
use klip.Recorder.Session.Sources.{NoneOpen, Continued, continue-Continued}
use klip.Recorder.Session.Lifetime.{on_frames, on_frames-start_session, stop_session-closed}
use klip.Recorder.Session.Ring.{Frame, Ring, bgrx, waiting, finished, frame_copied, ring_step}
use klip.Recorder.Session.Ring.Owned.{RingInv}
use klip.Recorder.Session.Ring.Turns.{ring_step-RingInv}
use klip.Recorder.Session.Ring.Drain.{run_encoder, run_encoder-finished}
use klip.Tests.{speakers, headset}

abbrev request : Request
request = record {
  output_path = codes "/tmp/klip.mp4";
  region = whole_frame;
  source = SourceType.screen;
  remember_window = false;
  restore_token = [];
  codec = h264;
  quality = balanced;
  max_frame_rate = 60;
  system_audio = speakers;
  microphone = headset;
  system_gain = pos 0;
  microphone_gain = pos 3;
  audio_quality = high;
}

abbrev no_stats : SessionStats
no_stats = record { num_captured = 0; num_encoded = 0; num_dropped = 0; bytes_written = 0 }

abbrev session : Session
session = record {
  request = request;
  start_failure = [];
  restore_token = [];
  num_audio_sources = 0;
  audio_source = both none;
  audio_open = both false;
  stream_open = false;
  encoding = false;
  start_failed = false;
  last_timestamp_ns = 0;
  last_arrival_ns = 0;
  last_stats = no_stats;
  num_encoder_starts = 0;
}

-- The headset does not open.
abbrev opens_speakers : AudioSource → AudioDevice → Bool
opens_speakers system device = true
opens_speakers microphone device = false

abbrev parts : Parts
parts = record {
  opens_audio = opens_speakers;
  opens_stream = true;
  starts_encoder = false;
  finishes = true;
  stats = record no_stats { num_encoded = 7 };
  monotonic_ns = 900;
}

abbrev grant : Grant
grant = record { is_success = true; restore_token = codes "grant" }

session_closed : NoneOpen session
session_closed system = refl
session_closed microphone = refl

headset_refused : Continued parts grant session (continue parts grant session)
headset_refused = continue-Continued parts grant session session_closed

encoder_tried_once :
    (on_frames ((parts, 10) ∷ (parts, 20) ∷ []) (start_session request session)).num_encoder_starts
    ≤ 1
encoder_tried_once = on_frames-start_session ((parts, 10) ∷ (parts, 20) ∷ []) request session refl

abbrev running : Session
running = record session { encoding = true; stream_open = true; audio_open = both true }

session_stopped :
    NoneOpen (stop_session parts running).0
    × ((stop_session parts running).0.stream_open ≡ false)
    × ((stop_session parts running).0.encoding ≡ false)
    × (get_stats parts (stop_session parts running).0 ≡ get_stats parts running)
    × ((stop_session parts running).1 ≡ (running.encoding && parts.finishes))
session_stopped = stop_session-closed parts parts running

-- One pixel of four bytes.
abbrev pixel : Frame
pixel = record {
  pixels = 1 ∷ 2 ∷ 3 ∷ 4 ∷ [];
  stride = 4;
  width = 1;
  height = 1;
  timestamp_ns = 10;
  format = bgrx;
}

abbrev arrived : Ring
arrived = record {
  slots = λ index. record pixel {
    pixels = 0 ∷ 0 ∷ 0 ∷ 0 ∷ [];
    stride = 0;
    width = 0;
    height = 0;
    timestamp_ns = 0;
  };
  free = 1 ∷ 2 ∷ 3 ∷ [];
  filled = [];
  permits = 0;
  writing = some 0;
  releasing = false;
  encoder = waiting;
  stopping = false;
  num_dropped = 0;
  num_encode_failures = 0;
  accepted = [];
  submitted = [];
}

arrived-RingInv : RingInv 4 arrived
arrived-RingInv = record {
  owned = λ i. ground arith;
  sized = λ i. refl;
  order = refl;
  counted = refl;
  ended = λ h. absurd (cc h);
  quiet = λ h. absurd (cc h);
}

ring_step-RingInv_example : RingInv 4 (ring_step (frame_copied pixel) arrived)
ring_step-RingInv_example =
    ring_step-RingInv 4 (frame_copied pixel) arrived ((refl, refl), refl) arrived-RingInv

abbrev full : Ring
full = record arrived {
  slots = λ index. pixel;
  filled = 0 ∷ [];
  permits = 2;
  writing = none;
  stopping = true;
  accepted = pixel ∷ [];
}

full-RingInv : RingInv 4 full
full-RingInv = record {
  owned = λ i. ground arith;
  sized = λ i. refl;
  order = refl;
  counted = refl;
  ended = λ h. absurd (cc h);
  quiet = λ h. (refl, refl);
}

abbrev answers : List Bool
answers = true ∷ false ∷ true ∷ true ∷ true ∷ true ∷ []

run_encoder-finished_example :
    ((run_encoder answers full).encoder ≡ finished)
    × ((run_encoder answers full).submitted ≡ full.accepted)
    × ((run_encoder answers full).permits ≡ 0)
run_encoder-finished_example = run_encoder-finished 4 answers full refl full-RingInv (omega arith)
