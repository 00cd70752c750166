-- ===== src/Recorder/Recording.antt =====
-- src/recorder/private/recorder.cpp: a recording from its preparation to its end.
use klip.Base.{
  ℕ, ◌+◌, Bool, true, false, not, ◌&&◌, ◌++◌, [], ◌∷◌, none, some, Bytes, codes, equal, is_empty,
  ◌==◌, if◌then◌else◌,
}
use klip.Capture.{SourceType, keeps_grant, no_device, AudioDevice}
use klip.Encode.Format.{get_container_extension}
use klip.Recorder.Settings.{Source, AudioSource, system, microphone, Settings}
use klip.Recorder.State.{
  Recorder, World, idle, starting, recording, show, raise, Region, whole_frame, Status, ready,
  waiting, cannot_write, running, not_permitted, failed, unavailable, saved, Request, Pending, call,
  session_start, session_stop, tray_recording, is_idle,
}
use klip.Recorder.Monitoring.{
  choice, carries_audio, wants_audio, find_device, refresh_monitoring, stop_monitoring,
}
use klip.Recorder.Format.{format_duration}

-- 250 milliseconds.
abbrev pub tick_interval : ℕ
tick_interval = 250_000_000

abbrev pub to_folder : Bytes → Bytes
to_folder directory = if is_empty directory then codes "." else directory

abbrev pub ends_with_slash : Bytes → Bool
ends_with_slash [] = false
ends_with_slash (c ∷ []) = c == b'/'
ends_with_slash (c ∷ d ∷ text) = ends_with_slash (d ∷ text)

-- `folder / name` of a relative name.
abbrev pub join_path : Bytes → Bytes → Bytes
join_path folder name = if ends_with_slash folder then folder ++ name else folder ++ (b'/' ∷ name)

unfoldable pub make_output_path : World → Recorder → Bytes
make_output_path w r =
    join_path (to_folder r.settings.directory)
      (codes "klip-" ++ (w.stamp ++ (b'.' ∷ get_container_extension r.settings.container)))

-- `ShowIdleState`.
unfoldable pub show_idle_state : Status → Recorder → Recorder
show_idle_state status r = call (tray_recording false) (record r { state = idle; status = status })

-- The new state, and whether the recording is prepared.
unfoldable pub prepare_recording : World → Recorder → Recorder × Bool
prepare_recording w r =
    let reset = record r { region = whole_frame } in
    if is_idle r.state && not r.can_record
    then (record r { reveal = raise }, false)
    else if is_idle r.state
    then (if w.is_usable_folder (to_folder r.settings.directory)
        then (record reset { state = starting }, true)
        else (show_idle_state cannot_write reset, false))
    else (r, false)

unfoldable pub begin_recording : World → Region → Recorder → Recorder
begin_recording w region r =
    record (stop_monitoring (record r { region = region; current_path = make_output_path w r })) {
      status = waiting;
    }

abbrev is_window : SourceType → Bool
is_window SourceType.screen = false
is_window SourceType.window = true

-- `m_settings.source == ESource::Window ? Window : Screen`.
abbrev pub source_type : Source → SourceType
source_type Source.screen = SourceType.screen
source_type Source.window = SourceType.window
source_type Source.region = SourceType.screen

-- `window ? m_settings.windowToken : m_settings.screenToken`.
abbrev pub get_token : SourceType → Settings → Bytes
get_token source settings =
    if is_window source then settings.window_token else settings.screen_token

-- The token written, and its change noted.
unfoldable pub put_token : SourceType → Bytes → Recorder → Recorder
put_token SourceType.screen token r = record r {
  settings = record r.settings { screen_token = token };
  changes = record r.changes { screen_token = true };
}
put_token SourceType.window token r = record r {
  settings = record r.settings { window_token = token };
  changes = record r.changes { window_token = true };
}

-- The device a source is recorded from.
unfoldable pub requested_device : Recorder → AudioSource → AudioDevice
requested_device r source =
    if carries_audio r && wants_audio r source then find_device r source else no_device

unfoldable pub make_request : Recorder → SourceType → Bytes → Request
make_request r source token = record {
  output_path = r.current_path;
  region = r.region;
  source = source;
  remember_window = r.settings.remember_window;
  restore_token = token;
  codec = r.settings.codec;
  quality = r.settings.quality;
  max_frame_rate = r.settings.max_frame_rate;
  system_audio = requested_device r system;
  microphone = requested_device r microphone;
  system_gain = (choice r system).gain_decibels;
  microphone_gain = (choice r microphone).gain_decibels;
  audio_quality = r.settings.audio_quality;
}

unfoldable pub request_capture : Recorder → Recorder
request_capture r =
    let source = source_type r.settings.source in
    let keeps = keeps_grant source r.settings.remember_window in
    let kept = if keeps then r else put_token source [] r in
    let sent = get_token source kept.settings in
    let asked = call (session_start (make_request kept source sent)) kept in
    record asked {
      pending = asked.pending ++ (record { keeps = keeps; source = source; sent = sent } ∷ []);
    }

-- What the session holds when it calls back.
pub record Answer : Type 0 where
  pub started : Bool
  pub token : Bytes
  pub failure : Bytes

unfoldable pub keep_token : Answer → Pending → Recorder → Recorder
keep_token a p r =
    if p.keeps && not (is_empty a.token) && not (equal a.token p.sent)
    then put_token p.source a.token r
    else r

unfoldable pub start_succeeded : World → Recorder → Recorder
start_succeeded w r = refresh_monitoring w (
    call (tray_recording true) (record r {
      recording_start = w.now;
      first_byte = none;
      tick_deadline = some (w.now + tick_interval);
      state = recording;
      status = running;
    }))

unfoldable pub start_failed : Answer → Recorder → Recorder
start_failed a r =
    show_idle_state (if is_empty a.failure then not_permitted else unavailable a.failure)
      (record r { reveal = show })

unfoldable pub on_started : World → Answer → Pending → Recorder → Recorder
on_started w a p r =
    let kept = keep_token a p r in if a.started then start_succeeded w kept else start_failed a kept

unfoldable pub cancel_recording : Recorder → Recorder
cancel_recording r = show_idle_state ready r

-- `filename()`: what stands behind the last slash.
unfoldable pub file_name : Bytes → Bytes → Bytes
file_name name [] = name
file_name name (c ∷ path) = file_name (if c == b'/' then [] else name ++ c ∷ []) path

unfoldable pub stop_recording : World → Recorder → Recorder
stop_recording w r =
    let stopped = call session_stop (record r { tick_deadline = none }) in
    let shown =
      show_idle_state (if w.finalised then saved (file_name [] r.current_path) else failed)
        stopped in
    refresh_monitoring w (record shown { elapsed = format_duration 0; reveal = raise })
