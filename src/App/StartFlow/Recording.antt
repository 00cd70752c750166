-- ===== src/App/StartFlow/Recording.antt =====
-- src/recorder/private/recorder.cpp, as the start flow sees it: which calls may end or begin a
-- recorder's wait for an answer.
use klip.Base.{◌≡◌, ◌≢◌, refl, sym, ◌∙◌, [], ◌∷◌, List, arith, if-cases, ◌&&◌, some, ◌+◌}
use klip.Recorder.Settings.{AudioSource, system, microphone}
use klip.Recorder.State.{
  Recorder, World, Pending, RecorderState, idle, starting, recording, is_recording,
}
use klip.Recorder.Monitoring.{refresh_monitoring, meter_interval, refresh_codecs}
use klip.Recorder.Monitoring.Frame.{Keeps, refresh_monitoring-Keeps}
use klip.Recorder.Choices.{
  set_source, set_remember_window, set_directory, set_container, set_codec, set_quality,
  set_max_frame_rate, set_audio_quality, set_audio_enabled, set_audio_device, set_gain, set_screen,
  set_visible, refresh_audio_devices, refresh_device, take_settings_changes, take_reveal,
}
use klip.Recorder.Hints.{update_quality_hint, update_audio_quality_hint}
use klip.Recorder.Recording.{
  Answer, stop_recording, show_idle_state, on_started, start_succeeded, start_failed,
}
use klip.Recorder.Update.{
  update, end_sharing, take_answer, take_answers, take_withdrawal, run_meter, run_tick, on_tick,
  on_meter_tick, update_meter, meter_source, is_due,
}
use klip.Recorder.Steps.{Operation, step}

-- The call neither begins a start nor loses one that waits for its request.
pub record Steady (before after : Recorder) : Type 0 where
  pub back : after.state ≡ starting → (before.state ≡ starting) × (after.pending ≡ before.pending)
  pub forth :
      before.state ≡ starting
      → before.pending ≡ []
      → (after.state ≡ starting) × (after.pending ≡ [])

pub Steady-same :
    (r after : Recorder) → after.state ≡ r.state → after.pending ≡ r.pending → Steady r after
Steady-same r after s p = record { back = λ h. (rw s at h, p); forth = λ h e. (s ∙ h, p ∙ e) }

Steady-trans : (r s t : Recorder) → Steady r s → Steady s t → Steady r t
Steady-trans r s t p q = record {
  back = λ h. let (a, b) = q.back h in let (c, d) = p.back a in (c, b ∙ d);
  forth = λ h e. let (a, b) = p.forth h e in q.forth a b;
}

-- A recorder that is neither starting before nor after.
Steady-apart : (r after : Recorder) → after.state ≢ starting → r.state ≢ starting → Steady r after
Steady-apart r after n m = record { back = λ h. absurd (n h); forth = λ h e. absurd (m h) }

Keeps-Steady : (r after : Recorder) → Keeps r after → Steady r after
Keeps-Steady r after k = Steady-same r after k.state k.pending

pub stop_recording-idle : (w : World) (r : Recorder) → (stop_recording w r).state ≡ idle
unfolding stop_recording show_idle_state
stop_recording-idle w r = (refresh_monitoring-Keeps w _).state

moved_to : (s t : RecorderState) → s ≡ t → t ≢ starting → s ≢ starting
moved_to s t e n h = n (sym e ∙ h)

on_started-ne-starting :
    (w : World) (a : Answer) (p : Pending) (r : Recorder) → (on_started w a p r).state ≢ starting
unfolding on_started start_succeeded start_failed show_idle_state
on_started-ne-starting w a p r =
    if-cases (λ (s : Recorder). s.state ≢ starting) a.started
      (λ _. moved_to _ recording (refresh_monitoring-Keeps w _).state (λ e. cc))
      (λ _. moved_to _ idle refl (λ e. cc))

take_answer-Steady :
    (w : World) (a : Answer) (ps : List Pending) (r : Recorder)
    → r.pending ≡ ps
    → Steady r (take_answer w a ps r)
unfolding take_answer
take_answer-Steady w a [] r e = Steady-same r r refl refl
take_answer-Steady w a (p ∷ ps) r e = record {
  back = λ h. absurd (on_started-ne-starting w a p (record r { pending = ps }) h);
  forth = λ h none_waits. cc;
}

take_answers-Steady :
    (w : World) (answers : List Answer) (r : Recorder) → Steady r (take_answers w answers r)
unfolding take_answers
take_answers-Steady w [] r = Steady-same r r refl refl
take_answers-Steady w (a ∷ rest) r =
    Steady-trans r (take_answer w a r.pending r) _ (take_answer-Steady w a r.pending r refl)
      (take_answers-Steady w rest (take_answer w a r.pending r))

take_withdrawal-Steady : (w : World) (r : Recorder) → Steady r (take_withdrawal w r)
unfolding take_withdrawal
take_withdrawal-Steady w r =
    if-cases (Steady r) (r.withdrawn && is_recording r.state)
      (λ h.
        Steady-apart r _ (moved_to _ idle (stop_recording-idle w _) (λ e. cc)) (λ e. ground arith))
      (λ _. Steady-same r _ refl refl)

meter_source-Steady : (w : World) (s : AudioSource) (r : Recorder) → Steady r (meter_source w s r)
unfolding update_meter
meter_source-Steady w s r = Steady-same r _ (ground arith) (ground arith)

run_meter-Steady : (w : World) (r : Recorder) → Steady r (run_meter w r)
unfolding run_meter on_meter_tick
run_meter-Steady w r =
    let due = record r { meter_deadline = some (w.now + meter_interval) } in
    if-cases (Steady r) (is_due w.now r.meter_deadline)
      (λ _.
        Steady-trans r (meter_source w system due) _
          (Steady-trans r due _ (Steady-same r due refl refl) (meter_source-Steady w system due))
          (meter_source-Steady w microphone (meter_source w system due)))
      (λ _. Steady-same r r refl refl)

run_tick-Steady : (w : World) (r : Recorder) → Steady r (run_tick w r)
unfolding run_tick on_tick
run_tick-Steady w r = Steady-same r _ (ground arith) (ground arith)

update-Steady : (w : World) (answers : List Answer) (r : Recorder) → Steady r (update w answers r)
unfolding update
update-Steady w answers r =
    let a = take_answers w answers r in
    let b = take_withdrawal w a in
    Steady-trans r (run_meter w b) _
      (Steady-trans r b _
        (Steady-trans r a _ (take_answers-Steady w answers r) (take_withdrawal-Steady w a))
        (run_meter-Steady w b))
      (run_tick-Steady w (run_meter w b))

-- The calls that the window, the tray and the wakes make, none of which belongs to the start flow.
abbrev pub IsOutside : Operation → Type 0
IsOutside Operation.prepare = ⊥
IsOutside (Operation.begin g) = ⊥
IsOutside Operation.request = ⊥
IsOutside Operation.cancel = ⊥
IsOutside Operation.stop = ⊥
IsOutside Operation.quit = ⊥
IsOutside _ = Unit

refreshed-Steady :
    (w : World) (r before : Recorder)
    → before.state ≡ r.state
    → before.pending ≡ r.pending
    → Steady r (refresh_monitoring w before)
refreshed-Steady w r before s p =
    Steady-trans r before _ (Steady-same r before s p)
      (Keeps-Steady before _ (refresh_monitoring-Keeps w before))

pub step-Steady :
    (w : World) (op : Operation) (r : Recorder) → IsOutside op → Steady r (step w op r)
unfolding step
step-Steady w Operation.prepare r h = elim h [ ]
step-Steady w (Operation.begin g) r h = elim h [ ]
step-Steady w Operation.request r h = elim h [ ]
step-Steady w Operation.cancel r h = elim h [ ]
step-Steady w Operation.stop r h = elim h [ ]
step-Steady w Operation.quit r h = elim h [ ]
step-Steady w (Operation.container c) r h =
    unfold set_container update_quality_hint refresh_codecs in
    (let k = refreshed-Steady w r _ refl refl in
      Steady-trans r (refresh_monitoring w _) _ k (Steady-same _ _ refl refl))
step-Steady w (Operation.audio_enabled s b) r h =
    unfold set_audio_enabled update_quality_hint in
    Steady-trans r (refresh_monitoring w _) _ (refreshed-Steady w r _ refl refl)
      (Steady-same _ _ refl refl)
step-Steady w (Operation.audio_device s d) r h =
    unfold set_audio_device in refreshed-Steady w r _ refl refl
step-Steady w (Operation.visible b) r h = unfold set_visible in refreshed-Steady w r _ refl refl
step-Steady w (Operation.wake answers) r h = update-Steady w answers r
step-Steady w (Operation.source s) r h =
    unfold set_source update_quality_hint in Steady-same r _ refl refl
step-Steady w (Operation.remember_window b) r h =
    unfold set_remember_window in Steady-same r _ refl refl
step-Steady w (Operation.directory d) r h = unfold set_directory in Steady-same r _ refl refl
step-Steady w (Operation.codec c) r h =
    unfold set_codec update_quality_hint in Steady-same r _ refl refl
step-Steady w (Operation.quality q) r h =
    unfold set_quality update_quality_hint in Steady-same r _ refl refl
step-Steady w (Operation.max_frame_rate f) r h =
    unfold set_max_frame_rate update_quality_hint in Steady-same r _ refl refl
step-Steady w (Operation.audio_quality q) r h =
    unfold set_audio_quality update_quality_hint update_audio_quality_hint in
    Steady-same r _ refl refl
step-Steady w (Operation.gain s g) r h = unfold set_gain in Steady-same r _ refl refl
step-Steady w (Operation.display s) r h = unfold set_screen in Steady-same r _ refl refl
step-Steady w Operation.refresh_devices r h =
    unfold refresh_audio_devices refresh_device in Steady-same r _ refl refl
step-Steady w Operation.taken_changes r h =
    unfold take_settings_changes in Steady-same r _ refl refl
step-Steady w Operation.taken_reveal r h = unfold take_reveal in Steady-same r _ refl refl
step-Steady w Operation.ended r h = unfold end_sharing in Steady-same r _ refl refl
