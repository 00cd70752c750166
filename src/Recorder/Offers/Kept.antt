-- ===== src/Recorder/Offers/Kept.antt =====
-- src/recorder/private/recorder.cpp: the choices stay among those on offer.
use klip.Base.{ℕ, ◌≡◌, refl, Bool, true, arith, ◌≤ℤ◌, ℤ, clamp, if◌then◌else◌}
use klip.Encode.Format.{Container, Codec, all_codecs}
use klip.Encode.Capabilities.{Capabilities}
use klip.Recorder.Settings.{
  AudioChoice, PerSource, put, for_sources, AudioSource, system, microphone, get, minimum_gain,
  maximum_gain, frame_rate_caps, no_frame_rate_cap, Settings, Screen,
}
use klip.Recorder.State.{Recorder, World}
use klip.Recorder.Monitoring.{choice, refresh_codecs, refresh_monitoring, has_codec}
use klip.Recorder.Monitoring.Frame.{refresh_monitoring-Keeps}
use klip.Recorder.Choices.{
  set_source, set_remember_window, set_directory, set_container, set_codec, set_quality,
  set_max_frame_rate, set_audio_quality, set_audio_enabled, set_audio_device, set_gain, set_screen,
  set_visible, choose, choose_audio, refresh_audio_devices, refresh_device, take_settings_changes,
  take_reveal,
}
use klip.Recorder.Hints.{update_quality_hint, update_audio_quality_hint}
use klip.Recorder.Recording.{cancel_recording}
use klip.Recorder.Update.{end_sharing}
use klip.Recorder.Start.{
  PortalProblem, initialize, new_recorder, offer_containers, bound_frame_rate, bound_gain,
  is_usable, has_rate,
}
use klip.Recorder.Steps.{Operation, step}
use klip.Recorder.Offers.{IsOffered, IsListed}
use klip.Recorder.Offers.Codecs.{listed-takes, chosen-takes, listed-is_usable, chosen-is_usable}
use klip.Recorder.Offers.Same.{
  SameChoices-IsOffered, Keeps-SameChoices, prepare_recording-Same, begin_recording-Same,
  request_capture-Same, show_idle_state-Same, stop_recording-Same, update-Same, terminate-Same,
}

abbrev InRange : ℤ → Type 0
InRange g = (minimum_gain ≤ℤ g) × (g ≤ℤ maximum_gain)

clamp-InRange : (g : ℤ) → InRange (clamp g minimum_gain maximum_gain)
clamp-InRange g = ground arith

refresh_monitoring-IsOffered :
    (w : World) (r : Recorder) → IsOffered r → IsOffered (refresh_monitoring w r)
refresh_monitoring-IsOffered w r v =
    SameChoices-IsOffered r _ (Keeps-SameChoices r _ (refresh_monitoring-Keeps w r)) v

hint-IsOffered : (r : Recorder) → IsOffered r → IsOffered (update_quality_hint r)
unfolding update_quality_hint
hint-IsOffered r v = SameChoices-IsOffered r _ (ground arith) v

refresh_codecs-IsOffered :
    (r : Recorder)
    → IsOffered r
    → (k : Container) → is_usable r.capabilities k all_codecs ≡ true
    → IsOffered (refresh_codecs (record r { settings = record r.settings { container = k } }))
unfolding refresh_codecs
refresh_codecs-IsOffered r v k u = record {
  containers = v.containers;
  codecs = refl;
  codec = chosen-takes r.capabilities k r.settings.codec u;
  rate = v.rate;
  gain = v.gain;
}

set_container-IsOffered :
    (w : World) (k : Container) (r : Recorder)
    → is_usable r.capabilities k all_codecs ≡ true
    → IsOffered r
    → IsOffered (set_container w k r)
unfolding set_container
set_container-IsOffered w k r u v = hint-IsOffered _ (
    refresh_monitoring-IsOffered w (refresh_codecs (choose (record r.settings { container = k }) r))
      (SameChoices-IsOffered
        (refresh_codecs (record r { settings = record r.settings { container = k } })) _
        (unfold refresh_codecs in ground arith) (refresh_codecs-IsOffered r v k u)))

set_codec-IsOffered :
    (c : Codec) (r : Recorder)
    → has_codec c r.codecs ≡ true
    → IsOffered r
    → IsOffered (set_codec c r)
unfolding set_codec update_quality_hint
set_codec-IsOffered c r h v = record {
  containers = v.containers;
  codecs = v.codecs;
  codec = listed-takes r.capabilities r.settings.container c (rw v.codecs at h);
  rate = v.rate;
  gain = v.gain;
}

put-InRange :
    (a : PerSource AudioChoice) (s t : AudioSource) (c : AudioChoice)
    → InRange c.gain_decibels
    → ((t : AudioSource) → InRange (get a t).gain_decibels)
    → InRange (get (put a s c) t).gain_decibels
put-InRange a system system c h all = h
put-InRange a system microphone c h all = all microphone
put-InRange a microphone system c h all = all system
put-InRange a microphone microphone c h all = h

choose_audio-IsOffered :
    (s : AudioSource) (c : AudioChoice) (r : Recorder)
    → InRange c.gain_decibels
    → IsOffered r
    → IsOffered (choose_audio s c r)
choose_audio-IsOffered s c r h v = record {
  containers = v.containers;
  codecs = v.codecs;
  codec = v.codec;
  rate = v.rate;
  gain = λ t. put-InRange r.settings.audio s t c h v.gain;
}

refresh_device-IsOffered :
    (before r : Recorder) (s : AudioSource) → IsOffered r → IsOffered (refresh_device before r s)
unfolding refresh_device
refresh_device-IsOffered before r s v = record {
  containers = v.containers;
  codecs = v.codecs;
  codec = v.codec;
  rate = v.rate;
  gain = λ t. put-InRange r.settings.audio s t _ (v.gain s) v.gain;
}

refresh_audio_devices-IsOffered :
    (w : World) (r : Recorder) → IsOffered r → IsOffered (refresh_audio_devices w r)
unfolding refresh_audio_devices
refresh_audio_devices-IsOffered w r v =
    let listed = record r { devices = w.listed } in
    refresh_device-IsOffered r (refresh_device r listed system) microphone
      (refresh_device-IsOffered r listed system (SameChoices-IsOffered r _ (ground arith) v))

-- While the window sets only what it offers, the recorder's codec is always one that its
-- container carries and the card is offered for, its frame rate a known cap, and each gain within
-- its limits.
pub step-IsOffered :
    (w : World) (op : Operation) (r : Recorder)
    → IsListed op r
    → IsOffered r
    → IsOffered (step w op r)
unfolding step
step-IsOffered w (Operation.source s) r p v =
    unfold set_source in hint-IsOffered _ (SameChoices-IsOffered r _ (ground arith) v)
step-IsOffered w (Operation.remember_window b) r p v =
    unfold set_remember_window in SameChoices-IsOffered r _ (ground arith) v
step-IsOffered w (Operation.directory d) r p v =
    unfold set_directory in SameChoices-IsOffered r _ (ground arith) v
step-IsOffered w (Operation.container c) r p v =
    set_container-IsOffered w c r (listed-is_usable r.capabilities c (rw v.containers at p)) v
step-IsOffered w (Operation.codec c) r p v = set_codec-IsOffered c r p v
step-IsOffered w (Operation.quality q) r p v =
    unfold set_quality in hint-IsOffered _ (SameChoices-IsOffered r _ (ground arith) v)
step-IsOffered w (Operation.max_frame_rate f) r p v =
    unfold set_max_frame_rate in
    hint-IsOffered _ (record {
      containers = v.containers;
      codecs = v.codecs;
      codec = v.codec;
      rate = p;
      gain = v.gain;
    })
step-IsOffered w (Operation.audio_quality q) r p v =
    unfold set_audio_quality update_audio_quality_hint in
    hint-IsOffered _ (SameChoices-IsOffered r _ (ground arith) v)
step-IsOffered w (Operation.audio_enabled s b) r p v =
    unfold set_audio_enabled in
    hint-IsOffered _ (refresh_monitoring-IsOffered w _ (choose_audio-IsOffered s _ r (v.gain s) v))
step-IsOffered w (Operation.audio_device s d) r p v =
    unfold set_audio_device in
    refresh_monitoring-IsOffered w _ (choose_audio-IsOffered s _ r (v.gain s) v)
step-IsOffered w (Operation.gain s g) r p v =
    unfold set_gain in choose_audio-IsOffered s _ r (clamp-InRange g) v
step-IsOffered w (Operation.display s) r p v =
    unfold set_screen in SameChoices-IsOffered r _ (ground arith) v
step-IsOffered w (Operation.visible b) r p v =
    unfold set_visible in
    refresh_monitoring-IsOffered w _ (SameChoices-IsOffered r _ (ground arith) v)
step-IsOffered w Operation.refresh_devices r p v = refresh_audio_devices-IsOffered w r v
step-IsOffered w Operation.prepare r p v = SameChoices-IsOffered r _ (prepare_recording-Same w r) v
step-IsOffered w (Operation.begin g) r p v =
    SameChoices-IsOffered r _ (begin_recording-Same w g r) v
step-IsOffered w Operation.request r p v = SameChoices-IsOffered r _ (request_capture-Same r) v
step-IsOffered w Operation.cancel r p v =
    unfold cancel_recording in SameChoices-IsOffered r _ (show_idle_state-Same _ r) v
step-IsOffered w Operation.stop r p v = SameChoices-IsOffered r _ (stop_recording-Same w r) v
step-IsOffered w Operation.taken_changes r p v =
    unfold take_settings_changes in SameChoices-IsOffered r _ (ground arith) v
step-IsOffered w Operation.taken_reveal r p v =
    unfold take_reveal in SameChoices-IsOffered r _ (ground arith) v
step-IsOffered w (Operation.wake answers) r p v =
    SameChoices-IsOffered r _ (update-Same w answers r) v
step-IsOffered w Operation.ended r p v =
    unfold end_sharing in SameChoices-IsOffered r _ (ground arith) v
step-IsOffered w Operation.quit r p v = SameChoices-IsOffered r _ (terminate-Same w r) v

has_rate-bounded :
    (f : ℕ)
    → has_rate (if has_rate f frame_rate_caps then f else no_frame_rate_cap) frame_rate_caps ≡ true
has_rate-bounded f = ground arith

chosen_choices : Recorder → Recorder
chosen_choices r = for_sources bound_gain (bound_frame_rate (refresh_codecs (offer_containers r)))

chosen_choices-IsOffered : (r : Recorder) → IsOffered (chosen_choices r)
unfolding chosen_choices bound_gain bound_frame_rate refresh_codecs offer_containers
chosen_choices-IsOffered r = record {
  containers = refl;
  codecs = refl;
  codec =
      chosen-takes r.capabilities _ r.settings.codec
        (chosen-is_usable r.capabilities r.settings.container);
  rate = has_rate-bounded r.settings.max_frame_rate;
  gain = gains;
}
  where
    gains :
        (s : AudioSource)
        → InRange
            (choice
              (for_sources bound_gain (bound_frame_rate (refresh_codecs (offer_containers r))))
              s).gain_decibels
    gains system = clamp-InRange (choice r system).gain_decibels
    gains microphone = clamp-InRange (choice r microphone).gain_decibels

-- Whatever the settings file held and the card takes, `Initialize` leaves a codec that the container
-- carries and the card is offered for, a known frame rate cap, and gains within their limits.
pub initialize-IsOffered :
    (w : World) (settings : Settings) (screen : Screen) (c : Capabilities) (has_portal : Bool)
    (reason : PortalProblem)
    → IsOffered (initialize w settings screen c has_portal reason)
unfolding initialize chosen_choices update_quality_hint update_audio_quality_hint
initialize-IsOffered w settings screen c has_portal reason =
    let given : Recorder = record new_recorder {
      settings = settings;
      screen = screen;
      capabilities = c;
    } in
    let listed = refresh_audio_devices w (chosen_choices given) in
    SameChoices-IsOffered listed _ (ground arith)
      (refresh_audio_devices-IsOffered w (chosen_choices given) (chosen_choices-IsOffered given))
