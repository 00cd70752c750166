-- ===== src/Recorder/Monitoring.antt =====
-- src/recorder/private/recorder.cpp: the codecs on offer, the devices behind a choice, and the
-- previews that drive the level meters.
pub mod Frame
pub mod Outcome
use klip.Base.{
  ℕ, ◌+◌, Bool, true, false, not, ◌&&◌, List, [], ◌∷◌, none, some, Bytes, equal, is_empty,
  last_match, if◌then◌else◌,
}
use klip.Capture.{AudioDevice, no_device}
use klip.Encode.Format.{
  Container, Codec, all_codecs, same_codec, container_accepts, container_carries_audio,
}
use klip.Encode.Capabilities.{Capabilities, is_codec_offered}
use klip.Recorder.Settings.{AudioSource, get, put, for_sources, AudioChoice}
use klip.Recorder.State.{
  Recorder, World, call, monitor_open, monitor_close, meter_reset, is_idle, is_recording,
}

-- 40 milliseconds.
abbrev pub meter_interval : ℕ
meter_interval = 40_000_000

abbrev pub choice : Recorder → AudioSource → AudioChoice
choice r source = get r.settings.audio source

unfoldable pub carries_audio : Recorder → Bool
carries_audio r = container_carries_audio r.settings.container

abbrev pub get_devices : Recorder → AudioSource → List AudioDevice
get_devices r source = get r.devices source

unfoldable pub wants_audio : Recorder → AudioSource → Bool
wants_audio r source = (choice r source).enabled && not (is_empty (get_devices r source))

-- The last device of that name.
unfoldable pub find_device : Recorder → AudioSource → AudioDevice
find_device r source =
    last_match (λ (d : AudioDevice). equal d.node_name (choice r source).device) (λ d. d) no_device
      (get_devices r source)

-- The codecs that the container accepts and the card is offered for, in their order.
unfoldable pub usable_codecs : Capabilities → Container → List Codec → List Codec
usable_codecs c container [] = []
usable_codecs c container (codec ∷ rest) =
    let others = usable_codecs c container rest in
    if container_accepts container codec && is_codec_offered c codec then codec ∷ others else others

-- `std::ranges::find(codecs, codec) != codecs.end()`.
abbrev pub has_codec : Codec → List Codec → Bool
has_codec codec [] = false
has_codec codec (c ∷ rest) = if same_codec c codec then true else has_codec codec rest

abbrev pub front_codec : Codec → List Codec → Codec
front_codec codec [] = codec
front_codec codec (c ∷ rest) = c

unfoldable pub refresh_codecs : Recorder → Recorder
refresh_codecs r =
    let codecs = usable_codecs r.capabilities r.settings.container all_codecs in
    let codec = r.settings.codec in
    record r {
      codecs = codecs;
      settings = record r.settings {
        codec = if has_codec codec codecs then codec else front_codec codec codecs;
      };
    }

-- The four lines that both loops share.
unfoldable pub close_monitor : AudioSource → Recorder → Recorder
close_monitor source r =
    let closed = call (monitor_close source) r in
    call (meter_reset source) (record closed {
      monitored = put closed.monitored source [];
      num_buffers = put closed.num_buffers source 0;
    })

-- `SetUnavailable(...)`.
abbrev pub set_unavailable : AudioSource → Bool → Recorder → Recorder
set_unavailable source unavailable r = record r {
  meter_unavailable = put r.meter_unavailable source unavailable;
}

-- `!wanted.empty() && Initialize(...)`, and what a success does.
pub open_monitor : World → AudioSource → Bytes → Recorder → Recorder
open_monitor w source wanted r =
    let device = find_device r source in
    let tried = call (monitor_open source device) r in
    if is_empty wanted
    then r
    else if w.opens source device
    then record tried { monitored = put tried.monitored source wanted }
    else tried

pub switch_monitor : World → AudioSource → Bytes → Recorder → Recorder
switch_monitor w source wanted r =
    let opened = open_monitor w source wanted (close_monitor source r) in
    set_unavailable source (not (is_empty wanted) && is_empty (get opened.monitored source)) opened

unfoldable pub can_monitor : Recorder → Bool
can_monitor r = r.visible && is_idle r.state && carries_audio r

unfoldable pub wanted_device : Bool → Recorder → AudioSource → Bytes
wanted_device allowed r source =
    if allowed && wants_audio r source then (choice r source).device else []

pub refresh_monitor : World → Bool → Recorder → AudioSource → Recorder
refresh_monitor w allowed r source =
    let wanted = wanted_device allowed r source in
    if equal wanted (get r.monitored source) then r else switch_monitor w source wanted r

abbrev pub no_monitors : Recorder → Bool
no_monitors r = is_empty r.monitored.of_system && is_empty r.monitored.of_microphone

unfoldable pub refresh_monitoring : World → Recorder → Recorder
refresh_monitoring w r =
    let refreshed = for_sources (refresh_monitor w (can_monitor r)) r in
    record refreshed {
      meter_deadline =
          if no_monitors refreshed && not (is_recording refreshed.state)
          then none
          else some (w.now + meter_interval);
    }

unfoldable pub stop_monitor : Recorder → AudioSource → Recorder
stop_monitor r source = set_unavailable source false (close_monitor source r)

unfoldable pub stop_monitoring : Recorder → Recorder
stop_monitoring r = for_sources stop_monitor (record r { meter_deadline = none })
