-- ===== src/Recorder/Invariant/Reach.antt =====
-- src/recorder/private/recorder.cpp: the invariant over every history of calls.
use klip.Base.{◌≡◌, ◌≢◌, refl, arith, if-cases, if◌then◌else◌}
use klip.Encode.Capabilities.{Capabilities}
use klip.Recorder.Settings.{Settings}
use klip.Recorder.State.{Recorder, World, recording, idle, is_recording}
use klip.Recorder.Monitoring.{stop_monitoring}
use klip.Recorder.Monitoring.Frame.{refresh_monitoring-Keeps}
use klip.Recorder.Choices.{
  set_source, set_remember_window, set_directory, set_codec, set_quality, set_max_frame_rate,
  set_audio_quality, set_audio_enabled, set_audio_device, set_gain, set_screen, set_visible,
  refresh_audio_devices, refresh_device, take_settings_changes, take_reveal,
}
use klip.Recorder.Hints.{update_quality_hint, update_audio_quality_hint}
use klip.Recorder.Recording.{stop_recording, cancel_recording, show_idle_state}
use klip.Recorder.Update.{terminate, end_sharing}
use klip.Recorder.Steps.{Operation, step}
use klip.Recorder.Invariant.{Inv, IsPermitted}
use klip.Recorder.Invariant.Parts.{
  SameParts, SameParts-Inv, refresh_monitoring-Inv, stop_monitoring-Inv,
}
use klip.Recorder.Invariant.Kept.{
  set_container-Inv, prepare_recording-Inv, begin_recording-Inv, request_capture-Inv,
  show_idle_state-Inv, stop_recording-Inv, update-Inv, update_quality_hint-Inv,
}

stop_recording-idle : (w : World) (r : Recorder) → (stop_recording w r).state ≡ idle
unfolding stop_recording show_idle_state
stop_recording-idle w r = (refresh_monitoring-Keeps w _).state

abbrev Stopped : Recorder → Type 0
Stopped r = Inv r × (r.state ≢ recording)

terminate-Inv : (w : World) (r : Recorder) → Inv r → Inv (terminate w r)
unfolding terminate
terminate-Inv w r v =
    let (s, n) =
      if-cases Stopped (is_recording r.state)
        (λ h. (stop_recording-Inv w r v (ground arith), rw (stop_recording-idle w r) (λ e. cc)))
        (λ h. (v, λ e. ground arith)) in
    let i = stop_monitoring-Inv _ s.ticks n s.awaited in
    SameParts-Inv (stop_monitoring (if is_recording r.state then stop_recording w r else r)) _
      (ground arith) i.awaited i

same : (r after : Recorder) → SameParts r after → Inv r → after.pending ≡ r.pending → Inv after
same r after e v q = SameParts-Inv r after e (rw (q, e.state) v.awaited) v

-- Every call of the recorder, with the calls of a start made only in their states, keeps this: the
-- tick has a deadline exactly while a recording runs, no preview holds a device meanwhile, the meters
-- have a deadline while anything feeds them, and one start at most waits for its answer.
pub step-Inv :
    (w : World) (op : Operation) (r : Recorder) → IsPermitted op r → Inv r → Inv (step w op r)
unfolding step
step-Inv w (Operation.source s) r p v =
    unfold set_source update_quality_hint in same r _ (ground arith) v refl
step-Inv w (Operation.remember_window b) r p v =
    unfold set_remember_window in same r _ (ground arith) v refl
step-Inv w (Operation.directory d) r p v = unfold set_directory in same r _ (ground arith) v refl
step-Inv w (Operation.container c) r p v = set_container-Inv w c r v
step-Inv w (Operation.codec c) r p v =
    unfold set_codec update_quality_hint in same r _ (ground arith) v refl
step-Inv w (Operation.quality q) r p v =
    unfold set_quality update_quality_hint in same r _ (ground arith) v refl
step-Inv w (Operation.max_frame_rate f) r p v =
    unfold set_max_frame_rate update_quality_hint in same r _ (ground arith) v refl
step-Inv w (Operation.audio_quality q) r p v =
    unfold set_audio_quality update_quality_hint update_audio_quality_hint in
    same r _ (ground arith) v refl
step-Inv w (Operation.audio_enabled s b) r p v =
    unfold set_audio_enabled in
    update_quality_hint-Inv _ (refresh_monitoring-Inv w _ v.ticks v.awaited)
step-Inv w (Operation.audio_device s d) r p v =
    unfold set_audio_device in refresh_monitoring-Inv w _ v.ticks v.awaited
step-Inv w (Operation.gain s g) r p v = unfold set_gain in same r _ (ground arith) v refl
step-Inv w (Operation.display s) r p v = unfold set_screen in same r _ (ground arith) v refl
step-Inv w (Operation.visible b) r p v =
    unfold set_visible in refresh_monitoring-Inv w _ v.ticks v.awaited
step-Inv w Operation.refresh_devices r p v =
    unfold refresh_audio_devices refresh_device in same r _ (ground arith) v refl
step-Inv w Operation.prepare r p v = prepare_recording-Inv w r v
step-Inv w (Operation.begin g) r p v = begin_recording-Inv w g r v p.0
step-Inv w Operation.request r p v = request_capture-Inv r v p.0 p.1
step-Inv w Operation.cancel r p v = unfold cancel_recording in show_idle_state-Inv r _ v p.0 p.1
step-Inv w Operation.stop r p v = stop_recording-Inv w r v p
step-Inv w Operation.taken_changes r p v =
    unfold take_settings_changes in same r _ (ground arith) v refl
step-Inv w Operation.taken_reveal r p v = unfold take_reveal in same r _ (ground arith) v refl
step-Inv w (Operation.wake answers) r p v = update-Inv w answers r v
step-Inv w Operation.ended r p v = unfold end_sharing in same r _ (ground arith) v refl
step-Inv w Operation.quit r p v = terminate-Inv w r v

-- The recorders that an initialised one comes to by calls made in their states, whatever the session,
-- the system and the clock answer.
pub data Reach (first : Recorder) : Recorder → Type 0 where
  start : Reach first first
  later :
      {r : Recorder} (w : World) (op : Operation)
      → IsPermitted op r
      → Reach first r
      → Reach first (step w op r)
