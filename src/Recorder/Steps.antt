-- ===== src/Recorder/Steps.antt =====
-- src/recorder/public/recorder/recorder.hpp: the calls that change a recorder, as one step.
use klip.Base.{ℕ, Bool, List, Bytes, ℤ}
use klip.Encode.Format.{Container, Codec}
use klip.Encode.Quality.{Quality}
use klip.Recorder.Settings.{Source, AudioSource, Screen}
use klip.Recorder.State.{Recorder, World, Region}
use klip.Recorder.Choices.{
  set_source, set_remember_window, set_directory, set_container, set_codec, set_quality,
  set_max_frame_rate, set_audio_quality, set_audio_enabled, set_audio_device, set_gain, set_screen,
  set_visible, refresh_audio_devices, take_settings_changes, take_reveal,
}
use klip.Recorder.Recording.{
  Answer, prepare_recording, begin_recording, request_capture, cancel_recording, stop_recording,
}
use klip.Recorder.Update.{update, end_sharing, terminate}

pub data Operation : Type 0 where
  source : Source → Operation
  remember_window : Bool → Operation
  directory : Bytes → Operation
  container : Container → Operation
  codec : Codec → Operation
  quality : Quality → Operation
  max_frame_rate : ℕ → Operation
  audio_quality : Quality → Operation
  audio_enabled : AudioSource → Bool → Operation
  audio_device : AudioSource → Bytes → Operation
  gain : AudioSource → ℤ → Operation
  display : Screen → Operation
  visible : Bool → Operation
  refresh_devices : Operation
  prepare : Operation
  begin : Region → Operation
  request : Operation
  cancel : Operation
  stop : Operation
  taken_changes : Operation
  taken_reveal : Operation
  wake : List Answer → Operation
  ended : Operation
  quit : Operation

-- The results that some of the calls return stand beside the state; here they are left out.
unfoldable pub step : World → Operation → Recorder → Recorder
step w (source s) r = set_source s r
step w (remember_window b) r = set_remember_window b r
step w (directory d) r = set_directory d r
step w (container c) r = set_container w c r
step w (codec c) r = set_codec c r
step w (quality q) r = set_quality q r
step w (max_frame_rate f) r = set_max_frame_rate f r
step w (audio_quality q) r = set_audio_quality q r
step w (audio_enabled s b) r = set_audio_enabled w s b r
step w (audio_device s d) r = set_audio_device w s d r
step w (gain s g) r = set_gain s g r
step w (display s) r = set_screen s r
step w (visible v) r = set_visible w v r
step w refresh_devices r = refresh_audio_devices w r
step w prepare r = (prepare_recording w r).0
step w (begin g) r = begin_recording w g r
step w request r = request_capture r
step w cancel r = cancel_recording r
step w stop r = stop_recording w r
step w taken_changes r = (take_settings_changes r).0
step w taken_reveal r = (take_reveal r).0
step w (wake answers) r = update w answers r
step w ended r = end_sharing r
step w quit r = terminate w r
