-- ===== src/Recorder/Choices.antt =====
-- src/recorder/private/recorder.cpp: the setters behind the window's controls, and the device lists.
pub mod Devices
use klip.Base.{
  ℕ, Bool, true, false, ◌||◌, List, [], ◌∷◌, Bytes, ℤ, clamp, equal, is_empty, if◌then◌else◌,
}
use klip.Capture.{AudioDevice}
use klip.Encode.Format.{Container, Codec}
use klip.Encode.Quality.{Quality}
use klip.Recorder.Settings.{
  AudioSource, PerSource, get, put, for_sources, minimum_gain, maximum_gain, Source, AudioChoice,
  Screen, Settings, SettingsChanges, no_changes, system, microphone,
}
use klip.Recorder.State.{Recorder, World, Reveal, nothing}
use klip.Recorder.Monitoring.{choice, get_devices, refresh_codecs, refresh_monitoring}
use klip.Recorder.Hints.{update_quality_hint, update_audio_quality_hint}

-- `m_settings.… = …; m_changes.choices = true;`
abbrev pub choose : Settings → Recorder → Recorder
choose settings r = record r { settings = settings; changes = record r.changes { choices = true } }

unfoldable pub set_source : Source → Recorder → Recorder
set_source source r = update_quality_hint (choose (record r.settings { source = source }) r)

unfoldable pub set_remember_window : Bool → Recorder → Recorder
set_remember_window remember r = choose (record r.settings { remember_window = remember }) r

unfoldable pub set_directory : Bytes → Recorder → Recorder
set_directory directory r = choose (record r.settings { directory = directory }) r

unfoldable pub set_container : World → Container → Recorder → Recorder
set_container w container r =
    update_quality_hint (
      refresh_monitoring w
        (refresh_codecs (choose (record r.settings { container = container }) r)))

unfoldable pub set_codec : Codec → Recorder → Recorder
set_codec codec r = update_quality_hint (choose (record r.settings { codec = codec }) r)

unfoldable pub set_quality : Quality → Recorder → Recorder
set_quality quality r = update_quality_hint (choose (record r.settings { quality = quality }) r)

unfoldable pub set_max_frame_rate : ℕ → Recorder → Recorder
set_max_frame_rate rate r =
    update_quality_hint (choose (record r.settings { max_frame_rate = rate }) r)

unfoldable pub set_audio_quality : Quality → Recorder → Recorder
set_audio_quality quality r =
    update_quality_hint
      (update_audio_quality_hint (choose (record r.settings { audio_quality = quality }) r))

-- `m_settings.audio[Index(source)]` replaced.
abbrev pub choose_audio : AudioSource → AudioChoice → Recorder → Recorder
choose_audio source c r = choose (record r.settings { audio = put r.settings.audio source c }) r

unfoldable pub set_audio_enabled : World → AudioSource → Bool → Recorder → Recorder
set_audio_enabled w source enabled r =
    update_quality_hint (
      refresh_monitoring w (choose_audio source (record (choice r source) { enabled = enabled }) r))

unfoldable pub set_audio_device : World → AudioSource → Bytes → Recorder → Recorder
set_audio_device w source node_name r =
    refresh_monitoring w (choose_audio source (record (choice r source) { device = node_name }) r)

unfoldable pub set_gain : AudioSource → ℤ → Recorder → Recorder
set_gain source decibels r =
    choose_audio source
      (record (choice r source) { gain_decibels = clamp decibels minimum_gain maximum_gain }) r

unfoldable pub set_screen : Screen → Recorder → Recorder
set_screen screen r = record r { screen = screen }

unfoldable pub set_visible : World → Bool → Recorder → Recorder
set_visible w visible r = refresh_monitoring w (record r { visible = visible })

-- `std::ranges::any_of(devices, ...)`.
unfoldable pub lists_device : Bytes → List AudioDevice → Bool
lists_device name [] = false
lists_device name (d ∷ devices) = equal d.node_name name || lists_device name devices

-- The device that a source falls back to in the list.
unfoldable pub pick_device : Bytes → List AudioDevice → Bytes
pick_device wanted [] = []
pick_device wanted (d ∷ devices) = if lists_device wanted (d ∷ devices) then wanted else d.node_name

-- What the first loop looks for.
unfoldable pub wanted_name : Recorder → AudioSource → Bytes
wanted_name r source =
    if is_empty (get_devices r source)
    then get r.written_devices source
    else (choice r source).device

unfoldable pub refresh_device : Recorder → Recorder → AudioSource → Recorder
refresh_device before r source =
    let device = pick_device (wanted_name before source) (get_devices r source) in
    record r {
      settings = record r.settings {
        audio = put r.settings.audio source (record (choice r source) { device = device });
      };
    }

unfoldable pub refresh_audio_devices : World → Recorder → Recorder
refresh_audio_devices w r = for_sources (refresh_device r) (record r { devices = w.listed })

-- The new state, and the changes handed out.
unfoldable pub take_settings_changes : Recorder → Recorder × SettingsChanges
take_settings_changes r =
    let written : PerSource Bytes = record {
      of_system = (choice r system).device;
      of_microphone = (choice r microphone).device;
    } in
    (
      record r {
        changes = no_changes;
        written_devices = if r.changes.choices then written else r.written_devices;
      },
      r.changes,
    )

unfoldable pub take_reveal : Recorder → Recorder × Reveal
take_reveal r = (record r { reveal = nothing }, r.reveal)
