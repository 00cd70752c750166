-- ===== src/Recorder/Session.antt =====
-- src/recorder/private/session.cpp: CSession. The streams, the portal, the encoder and the clock
-- answer through `Parts`; the ring of frame slots is the child module Ring.
pub mod Ring
pub mod Sources
pub mod Lifetime
use klip.Base.{
  ℕ, ◌+◌, ◌-◌, ◌%◌, ◌^◌, Bool, true, false, not, ◌&&◌, [], Bytes, Option, none, some, is_empty,
  ◌==◌, if◌then◌else◌,
}
use klip.Capture.{AudioDevice}
use klip.Recorder.Settings.{AudioSource, system, microphone, PerSource, get, put, both}
use klip.Recorder.State.{Request, Region, SessionStats}

-- The members of CSession; `none` is `InvalidSource`, and a stream is open from an `Initialize` that
-- succeeds to its `Terminate`.
pub record Session : Type 0 where
  pub request : Request
  pub start_failure : Bytes
  pub restore_token : Bytes
  pub num_audio_sources : ℕ
  pub audio_source : PerSource (Option ℕ)
  pub audio_open : PerSource Bool
  pub stream_open : Bool
  pub encoding : Bool
  pub start_failed : Bool
  pub last_timestamp_ns : ℕ
  pub last_arrival_ns : ℕ
  pub last_stats : SessionStats
  -- The calls of `StartEncoder` since `Start`.
  pub num_encoder_starts : ℕ

-- What the parts answer during one call.
pub record Parts : Type 0 where
  pub opens_audio : AudioSource → AudioDevice → Bool
  pub opens_stream : Bool
  pub starts_encoder : Bool
  pub finishes : Bool
  pub stats : SessionStats
  pub monotonic_ns : ℕ

-- SPortalGrant.
pub record Grant : Type 0 where
  pub is_success : Bool
  pub restore_token : Bytes

abbrev pub device_of : Request → AudioSource → AudioDevice
device_of request system = request.system_audio
device_of request microphone = request.microphone

abbrev pub is_named : AudioDevice → Bool
is_named device = not (is_empty device.node_name)

-- `m_systemAudio.Terminate(); m_microphoneAudio.Terminate();`
abbrev pub close_audio : Session → Session
close_audio s = record s { audio_open = both false }

-- One of the two blocks of `OpenAudio`, and whether it opened what it had to.
unfoldable pub open_source : Parts → AudioSource → Session → Session × Bool
open_source p source s =
    let device = device_of s.request source in
    let opened = record s {
      audio_source = put s.audio_source source (some s.num_audio_sources);
      audio_open = put s.audio_open source true;
      num_audio_sources = s.num_audio_sources + 1;
    } in
    let failed = record s { start_failure = device.description } in
    if is_named device
    then if p.opens_audio source device then (opened, true) else (failed, false)
    else (s, true)

-- What `OpenAudio` does where not every source opened.
abbrev pub give_up_audio : Session → Session
give_up_audio s = record (close_audio s) { num_audio_sources = 0 }

-- The microphone's block, behind the system's.
unfoldable pub open_second : Parts → Session → Session × Bool
open_second p s =
    let opened = open_source p microphone s in
    if opened.1 then (opened.0, true) else (give_up_audio opened.0, false)

unfoldable pub open_audio : Parts → Session → Session × Bool
open_audio p s =
    let first =
      open_source p system (record s { num_audio_sources = 0; audio_source = both none }) in
    if first.1 then open_second p first.0 else (give_up_audio first.0, false)

-- `Start`; the portal's answer comes to `continue`.
unfoldable pub start_session : Request → Session → Session
start_session request s = record s {
  request = request;
  start_failed = false;
  start_failure = [];
  restore_token = [];
  num_encoder_starts = 0;
}

-- The stream, once the audio is open.
unfoldable pub open_stream : Parts → Session → Session × Bool
open_stream p s =
    if p.opens_stream then (record s { stream_open = true }, true) else (give_up_audio s, false)

-- `Continue`, and what its callback is called with.
unfoldable pub continue : Parts → Grant → Session → Session × Bool
continue p grant s =
    let answered = record s { restore_token = grant.restore_token } in
    let opened = open_audio p answered in
    if grant.is_success
    then if opened.1 then open_stream p opened.0 else (give_up_audio opened.0, false)
    else (answered, false)

-- The first block of `OnFrame`.
unfoldable pub ensure_encoder : Parts → Session → Session
ensure_encoder p s =
    let tried = record s { num_encoder_starts = s.num_encoder_starts + 1 } in
    if not s.encoding && not s.start_failed
    then if p.starts_encoder
      then record tried { encoding = true }
      else record tried { start_failed = true }
    else s

-- `OnFrame` but for what it does with the frame itself, which is the ring's.
unfoldable pub on_frame : Parts → ℕ → Session → Session
on_frame p timestamp_ns s =
    let ready = ensure_encoder p s in
    if ready.encoding
    then record ready { last_timestamp_ns = timestamp_ns; last_arrival_ns = p.monotonic_ns }
    else ready

-- The region that `StartEncoder` asks for: the picked one, or the frame's crop.
unfoldable pub encoded_region : Region → Region → Region
encoded_region picked crop = if picked.width == 0 && not (crop.width == 0) then crop else picked

unfoldable pub get_stats : Parts → Session → SessionStats
get_stats p s = if s.encoding then p.stats else s.last_stats

-- `endTimestampNs`, in 64 bits.
unfoldable pub end_timestamp : Parts → Session → ℕ
end_timestamp p s =
    if s.last_timestamp_ns == 0
    then 0
    else (s.last_timestamp_ns + (p.monotonic_ns + 2 ^ 64 - s.last_arrival_ns) % 2 ^ 64) % 2 ^ 64

-- `Stop`, and its answer.
unfoldable pub stop_session : Parts → Session → Session × Bool
stop_session p s =
    let closed = record (close_audio s) { stream_open = false } in
    if closed.encoding
    then (record closed { last_stats = get_stats p closed; encoding = false }, p.finishes)
    else (closed, false)
