-- ===== src/Recorder/Offers/Same.antt =====
-- src/recorder/private/recorder.cpp: the calls that leave the choices alone, tokens apart.
use klip.Base.{
  ◌≡◌, ◌∙◌, ap, Bytes, Bool, false, ◌&&◌, [], ◌∷◌, List, arith, if-cases, some, ◌+◌, if◌then◌else◌,
}
use klip.Capture.{SourceType, keeps_grant}
use klip.Recorder.Settings.{AudioSource, system, microphone}
use klip.Recorder.State.{Recorder, World, Pending, Region, Status, is_recording}
use klip.Recorder.Monitoring.{stop_monitoring, meter_interval}
use klip.Recorder.Monitoring.Frame.{Keeps, refresh_monitoring-Keeps, stop_monitoring-Keeps}
use klip.Recorder.Recording.{
  Answer, prepare_recording, begin_recording, request_capture, put_token, source_type,
  stop_recording, show_idle_state, on_started, keep_token, start_succeeded, start_failed,
  make_output_path,
}
use klip.Recorder.Update.{
  update, terminate, take_answer, take_answers, take_withdrawal, run_meter, run_tick, on_tick,
  on_meter_tick, update_meter, meter_source, is_due,
}
use klip.Recorder.Offers.{IsOffered}

pub record SameChoices (before after : Recorder) : Type 0 where
  pub containers : after.containers ≡ before.containers
  pub capabilities : after.capabilities ≡ before.capabilities
  pub codecs : after.codecs ≡ before.codecs
  pub container : after.settings.container ≡ before.settings.container
  pub codec : after.settings.codec ≡ before.settings.codec
  pub rate : after.settings.max_frame_rate ≡ before.settings.max_frame_rate
  pub audio : after.settings.audio ≡ before.settings.audio

pub SameChoices-IsOffered :
    (r after : Recorder) → SameChoices r after → IsOffered r → IsOffered after
SameChoices-IsOffered r after e v = record {
  containers = rw (e.containers, e.capabilities) v.containers;
  codecs = rw (e.codecs, e.capabilities, e.container) v.codecs;
  codec = rw (e.capabilities, e.container, e.codec) v.codec;
  rate = rw e.rate v.rate;
  gain = rw e.audio v.gain;
}

refl_same : (r : Recorder) → SameChoices r r
refl_same r = ground arith

then_same : (r s t : Recorder) → SameChoices r s → SameChoices s t → SameChoices r t
then_same r s t p q = record {
  containers = q.containers ∙ p.containers;
  capabilities = q.capabilities ∙ p.capabilities;
  codecs = q.codecs ∙ p.codecs;
  container = q.container ∙ p.container;
  codec = q.codec ∙ p.codec;
  rate = q.rate ∙ p.rate;
  audio = q.audio ∙ p.audio;
}

pub Keeps-SameChoices : (r after : Recorder) → Keeps r after → SameChoices r after
Keeps-SameChoices r after k = record {
  containers = k.containers;
  capabilities = k.capabilities;
  codecs = k.codecs;
  container = ap (λ s. s.container) k.settings;
  codec = ap (λ s. s.codec) k.settings;
  rate = ap (λ s. s.max_frame_rate) k.settings;
  audio = ap (λ s. s.audio) k.settings;
}

pub prepare_recording-Same : (w : World) (r : Recorder) → SameChoices r (prepare_recording w r).0
unfolding prepare_recording show_idle_state
prepare_recording-Same w r = ground arith

pub begin_recording-Same :
    (w : World) (g : Region) (r : Recorder) → SameChoices r (begin_recording w g r)
unfolding begin_recording
begin_recording-Same w g r =
    let k =
      Keeps-SameChoices _ _
        (stop_monitoring-Keeps (record r { region = g; current_path = make_output_path w r })) in
    ground (arith, k)

put_token-Same :
    (b : Bool) (s : SourceType) (t : Bytes) (r : Recorder)
    → SameChoices r (if b then r else put_token s t r)
unfolding put_token
put_token-Same b SourceType.screen t r = ground arith
put_token-Same b _ t r = ground arith

pub request_capture-Same : (r : Recorder) → SameChoices r (request_capture r)
unfolding request_capture
request_capture-Same r =
    let source = source_type r.settings.source in
    ground (arith, put_token-Same (keeps_grant source r.settings.remember_window) source [] r)

pub show_idle_state-Same : (t : Status) (r : Recorder) → SameChoices r (show_idle_state t r)
unfolding show_idle_state
show_idle_state-Same t r = ground arith

pub stop_recording-Same : (w : World) (r : Recorder) → SameChoices r (stop_recording w r)
unfolding stop_recording show_idle_state
stop_recording-Same w r =
    then_same r _ _ (ground arith) (Keeps-SameChoices _ _ (refresh_monitoring-Keeps w _))

keep_token-Same : (a : Answer) (p : Pending) (r : Recorder) → SameChoices r (keep_token a p r)
unfolding keep_token put_token
keep_token-Same a p r = ground arith

on_started-Same :
    (w : World) (a : Answer) (p : Pending) (r : Recorder) → SameChoices r (on_started w a p r)
unfolding on_started start_succeeded start_failed
on_started-Same w a p r = then_same r (keep_token a p r) _ (keep_token-Same a p r) (
    if-cases (SameChoices (keep_token a p r)) a.started
      (λ _.
        then_same (keep_token a p r) _ _ (ground arith)
          (Keeps-SameChoices _ _ (refresh_monitoring-Keeps w _)))
      (λ _. then_same (keep_token a p r) _ _ (ground arith) (show_idle_state-Same _ _)))

take_answer-Same :
    (w : World) (a : Answer) (ps : List Pending) (r : Recorder)
    → SameChoices r (take_answer w a ps r)
unfolding take_answer
take_answer-Same w a [] r = refl_same r
take_answer-Same w a (p ∷ ps) r =
    then_same r _ _ (ground arith) (on_started-Same w a p (record r { pending = ps }))

take_answers-Same :
    (w : World) (answers : List Answer) (r : Recorder) → SameChoices r (take_answers w answers r)
unfolding take_answers
take_answers-Same w [] r = refl_same r
take_answers-Same w (a ∷ rest) r =
    then_same r _ _ (take_answer-Same w a r.pending r)
      (take_answers-Same w rest (take_answer w a r.pending r))

take_withdrawal-Same : (w : World) (r : Recorder) → SameChoices r (take_withdrawal w r)
unfolding take_withdrawal
take_withdrawal-Same w r =
    let stopped = stop_recording-Same w (record r { withdrawn = false }) in
    if-cases (SameChoices r) (r.withdrawn && is_recording r.state) (λ _. ground (arith, stopped))
      (λ _. ground arith)

meter_source-Same :
    (w : World) (s : AudioSource) (r : Recorder) → SameChoices r (meter_source w s r)
unfolding update_meter
meter_source-Same w s r = ground arith

run_meter-Same : (w : World) (r : Recorder) → SameChoices r (run_meter w r)
unfolding run_meter on_meter_tick
run_meter-Same w r =
    if-cases (SameChoices r) (is_due w.now r.meter_deadline)
      (λ _.
        let due = record r { meter_deadline = some (w.now + meter_interval) } in
        then_same r (meter_source w system due) _
          (then_same r due _ (ground arith) (meter_source-Same w system due))
          (meter_source-Same w microphone (meter_source w system due)))
      (λ _. refl_same r)

run_tick-Same : (w : World) (r : Recorder) → SameChoices r (run_tick w r)
unfolding run_tick on_tick
run_tick-Same w r = ground arith

pub update-Same :
    (w : World) (answers : List Answer) (r : Recorder) → SameChoices r (update w answers r)
unfolding update
update-Same w answers r =
    let a = take_answers w answers r in
    let b = take_withdrawal w a in
    then_same r (run_meter w b) _
      (then_same r b _ (then_same r a _ (take_answers-Same w answers r) (take_withdrawal-Same w a))
        (run_meter-Same w b))
      (run_tick-Same w (run_meter w b))

pub terminate-Same : (w : World) (r : Recorder) → SameChoices r (terminate w r)
unfolding terminate
terminate-Same w r =
    let s = if is_recording r.state then stop_recording w r else r in
    let k =
      then_same r s _
        (if-cases (SameChoices r) (is_recording r.state) (λ _. stop_recording-Same w r)
          (λ _. refl_same r))
        (Keeps-SameChoices s _ (stop_monitoring-Keeps s)) in
    then_same r (stop_monitoring s) _ k (ground arith)
