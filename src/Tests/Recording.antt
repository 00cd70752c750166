-- ===== src/Tests/Recording.antt =====
-- The recorder of src/recorder on concrete recorders.
use klip.Base.{
  equal, ◌≡◌, ◌⊎◌, refl, inl, arith, true, false, [], ◌∷◌, ◌++◌, codes, if◌then◌else◌, is_empty,
}
use klip.Capture.{SourceType}
use klip.Encode.Capabilities.{is_codec_offered}
use klip.Encode.Format.{container_accepts, matroska}
use klip.Recorder.Settings.{AudioSource, system, microphone, get}
use klip.Recorder.State.{World, idle, whole_frame, Request, session_start, Recorder}
use klip.Recorder.Monitoring.{
  stop_monitoring, stop_monitor, close_monitor, usable_codecs, no_monitors, choice,
}
use klip.Recorder.Choices.{refresh_audio_devices, lists_device}
use klip.Recorder.Choices.Devices.{refresh_audio_devices-listed, refresh_audio_devices_back}
use klip.Recorder.Recording.{
  Answer, begin_recording, request_capture, on_started, start_failed, show_idle_state, keep_token,
}
use klip.Recorder.Update.{take_answer}
use klip.Recorder.Start.{usable_containers, is_usable, initialize, missing}
use klip.Recorder.Steps.{Operation, step}
use klip.Recorder.Invariant.{Inv}
use klip.Recorder.Invariant.Reach.{step-Inv}
use klip.Recorder.Offers.{IsOffered}
use klip.Recorder.Offers.Kept.{step-IsOffered, initialize-IsOffered}
use klip.Recorder.Grants.{
  request_capture-tokens, take_answer-token_of, token_of, asked_source, other_source, is_kept,
}
use klip.Recorder.Requests.{IsBounded}
use klip.Recorder.Update.{update, get_next_deadline}
use klip.Recorder.Update.Deadline.{IsAhead, get_next_deadline-update}
use klip.Tests.{
  world, silent_world, card, panel, chosen, idle_recorder, starting_recorder, window_recorder,
  recording_recorder,
}

idle-Inv : Inv idle_recorder
idle-Inv = record {
  ticks = refl;
  quiet = λ e. refl;
  metered = λ e. ground arith;
  awaited = inl refl;
}

recording-Inv : Inv recording_recorder
recording-Inv = record { ticks = refl; quiet = λ e. refl; metered = λ e. refl; awaited = inl refl }

step-Inv_example : Inv (step world Operation.stop recording_recorder)
step-Inv_example = step-Inv world Operation.stop recording_recorder refl recording-Inv

idle_gain : (s : AudioSource) → IsBounded (choice idle_recorder s).gain_decibels
idle_gain system = ground arith
idle_gain microphone = ground arith

idle-IsOffered : IsOffered idle_recorder
unfolding usable_containers is_usable usable_codecs container_accepts is_codec_offered
idle-IsOffered = record {
  containers = refl;
  codecs = refl;
  codec = refl;
  rate = refl;
  gain = idle_gain;
}

step-IsOffered_example : IsOffered (step world (Operation.container matroska) idle_recorder)
step-IsOffered_example =
    step-IsOffered world (Operation.container matroska) idle_recorder refl idle-IsOffered

initialize-IsOffered_example : IsOffered (initialize world chosen panel card false missing)
initialize-IsOffered_example = initialize-IsOffered world chosen panel card false missing

window_request :
    (q : Request) × ((request_capture window_recorder).calls
      ≡ window_recorder.calls ++ session_start q ∷ [])
    × (q.source ≡ asked_source window_recorder)
    × (q.restore_token ≡ (
        if is_kept window_recorder
        then token_of (asked_source window_recorder) window_recorder
        else []))
    × (token_of (asked_source window_recorder) (request_capture window_recorder) ≡ q.restore_token)
    × (token_of (other_source (asked_source window_recorder)) (request_capture window_recorder)
        ≡ token_of (other_source (asked_source window_recorder)) window_recorder)
window_request = request_capture-tokens window_recorder

abbrev granted : Answer
granted = record { started = true; token = codes "new-grant"; failure = [] }

grant_stored :
    (token_of (asked_source starting_recorder) (
        take_answer world granted
          (request_capture starting_recorder).pending
          (request_capture starting_recorder))
      ≡ (if is_kept starting_recorder
          then if is_empty granted.token
            then token_of (asked_source starting_recorder) starting_recorder
            else granted.token
          else []))
    × (token_of (other_source (asked_source starting_recorder)) (
          take_answer world granted
            (request_capture starting_recorder).pending
            (request_capture starting_recorder))
        ≡ token_of (other_source (asked_source starting_recorder)) starting_recorder)
grant_stored = take_answer-token_of world granted starting_recorder refl

devices_listed :
    (((get world.listed system ≡ [])
        × ((choice (refresh_audio_devices world idle_recorder) system).device ≡ []))
      ⊎ (lists_device
            (choice (refresh_audio_devices world idle_recorder) system).device
            (get world.listed system)
          ≡ true))
    × ((refresh_audio_devices world idle_recorder).devices ≡ world.listed)
    × ((refresh_audio_devices world idle_recorder).changes ≡ idle_recorder.changes)
devices_listed = refresh_audio_devices-listed world idle_recorder system

device_back :
    (choice
      (refresh_audio_devices world (refresh_audio_devices silent_world idle_recorder))
      system).device
    ≡ codes "sink"
unfolding lists_device equal
device_back = refresh_audio_devices_back silent_world world idle_recorder system refl refl

-- The level of the system's sound is shown while a start is prepared.
abbrev metered_recorder : Recorder
metered_recorder = record starting_recorder {
  monitored = record { of_system = codes "sink"; of_microphone = [] };
}

-- A start that is refused leaves the preview off although the recorder is idle and visible.
refused_start_keeps_preview_off :
    let after =
      on_started world
        (record { started = false; token = []; failure = [] })
        (record { keeps = true; source = SourceType.screen; sent = [] })
        (request_capture (begin_recording world whole_frame metered_recorder)) in
    (after.state ≡ idle) × (after.visible ≡ true) × (no_monitors after ≡ true)
unfolding on_started begin_recording request_capture start_failed show_idle_state keep_token
    stop_monitoring stop_monitor close_monitor
refused_start_keeps_preview_off = (refl, refl, refl)

-- A tick and a meter are due.
abbrev late_world : World
late_world = record world { now = 6_000_000_000 }

deadline_after_update :
    IsAhead late_world.now (get_next_deadline (update late_world [] recording_recorder))
deadline_after_update = get_next_deadline-update late_world [] recording_recorder
