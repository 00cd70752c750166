-- ===== src/Recorder/Start.antt =====
-- src/recorder/private/recorder.cpp: `CRecorder::Initialize`, from a recorder just constructed.
use klip.Base.{
  ℕ, Bool, true, false, not, ◌&&◌, ◌||◌, ◌++◌, List, [], ◌∷◌, none, clamp, ◌==◌, is_empty,
  if◌then◌else◌,
}
use klip.Encode.Format.{
  Container, Codec, all_codecs, all_containers, same_container, container_accepts,
}
use klip.Encode.Capabilities.{Capabilities, any_encodes, is_codec_offered}
use klip.Recorder.Settings.{
  AudioSource, put, both, for_sources, minimum_gain, maximum_gain, no_frame_rate_cap,
  frame_rate_caps, default_settings, no_changes, Screen, Settings,
}
use klip.Recorder.State.{
  Recorder, World, idle, nothing, whole_frame, blank, ready, cannot_record, Notice, no_portal,
  old_portal, no_screen, no_device, refused_codecs, call, tray_initialize,
}
use klip.Recorder.Monitoring.{choice, refresh_codecs}
use klip.Recorder.Hints.{update_quality_hint, update_audio_quality_hint}
use klip.Recorder.Choices.{refresh_audio_devices}
use klip.Recorder.Format.{format_duration}

pub data PortalProblem : Type 0 where
  no_problem missing too_old no_monitor : PortalProblem

unfoldable pub get_portal_notice : PortalProblem → Notice
get_portal_notice too_old = old_portal
get_portal_notice no_monitor = no_screen
get_portal_notice no_problem = no_portal
get_portal_notice missing = no_portal

-- The members' initializers.
unfoldable pub new_recorder : Recorder
new_recorder = record {
  settings = default_settings;
  changes = no_changes;
  screen = record { width = 0; height = 0; refresh_hz = 0 };
  capabilities = record { device_path = []; encodes = λ codec. false };
  containers = [];
  codecs = [];
  devices = both [];
  written_devices = both [];
  monitored = both [];
  num_buffers = both 0;
  meter_unavailable = both false;
  status = blank;
  elapsed = [];
  quality_hint = record { bits_per_second = 0; size = none };
  audio_quality_hint = [];
  current_path = [];
  notice = [];
  region = whole_frame;
  meter_deadline = none;
  tick_deadline = none;
  recording_start = 0;
  first_byte = none;
  state = idle;
  reveal = nothing;
  visible = false;
  can_record = true;
  withdrawn = false;
  pending = [];
  calls = [];
}

-- The inner loop: some codec that the container takes is offered.
unfoldable pub is_usable : Capabilities → Container → List Codec → Bool
is_usable c container [] = false
is_usable c container (codec ∷ rest) =
    (container_accepts container codec && is_codec_offered c codec) || is_usable c container rest

unfoldable pub usable_containers : Capabilities → List Container → List Container
usable_containers c [] = []
usable_containers c (container ∷ rest) =
    let others = usable_containers c rest in
    if is_usable c container all_codecs then container ∷ others else others

abbrev pub has_container : Container → List Container → Bool
has_container container [] = false
has_container container (c ∷ rest) =
    if same_container c container then true else has_container container rest

abbrev pub front_container : Container → List Container → Container
front_container container [] = container
front_container container (c ∷ rest) = c

abbrev pub has_rate : ℕ → List ℕ → Bool
has_rate rate [] = false
has_rate rate (cap ∷ rest) = if cap == rate then true else has_rate rate rest

unfoldable pub offer_containers : Recorder → Recorder
offer_containers r =
    let containers = usable_containers r.capabilities all_containers in
    let container = r.settings.container in
    record r {
      containers = containers;
      settings = record r.settings {
        container =
            if has_container container containers
            then container
            else front_container container containers;
      };
    }

unfoldable pub bound_frame_rate : Recorder → Recorder
bound_frame_rate r =
    let rate = r.settings.max_frame_rate in
    record r {
      settings = record r.settings {
        max_frame_rate = if has_rate rate frame_rate_caps then rate else no_frame_rate_cap;
      };
    }

unfoldable pub bound_gain : Recorder → AudioSource → Recorder
bound_gain r source =
    let bounded = clamp (choice r source).gain_decibels minimum_gain maximum_gain in
    record r {
      settings = record r.settings {
        audio = put r.settings.audio source (record (choice r source) { gain_decibels = bounded });
      };
      written_devices = put r.written_devices source (choice r source).device;
    }

-- The paragraphs in the order of the calls of `addNotice`.
unfoldable pub gather_notices : Bool → PortalProblem → Capabilities → List Notice
gather_notices has_portal problem c =
    let portal = if has_portal then [] else get_portal_notice problem ∷ [] in
    let device =
      if is_empty c.device_path
      then no_device ∷ []
      else if any_encodes c.encodes all_codecs
      then []
      else refused_codecs ∷ [] in
    portal ++ device

-- `has_portal` is what `CSession::Initialize` answers, `problem` what `GetPortalProblem` does.
unfoldable pub initialize :
    World → Settings → Screen → Capabilities → Bool → PortalProblem → Recorder
initialize w settings screen capabilities has_portal problem =
    let given = record new_recorder {
      settings = settings;
      screen = screen;
      capabilities = capabilities;
    } in
    let chosen = bound_frame_rate (refresh_codecs (offer_containers given)) in
    let listed = refresh_audio_devices w (for_sources bound_gain chosen) in
    let hinted =
      update_quality_hint (
        update_audio_quality_hint
          (record listed { status = ready; elapsed = format_duration 0 })) in
    let can_record = has_portal && not (is_empty capabilities.device_path) in
    record (call tray_initialize hinted) {
      can_record = can_record;
      notice = gather_notices has_portal problem capabilities;
      status = if can_record then ready else cannot_record;
    }
