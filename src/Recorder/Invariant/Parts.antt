-- ===== src/Recorder/Invariant/Parts.antt =====
-- src/recorder/private/recorder.cpp: the invariant through the recorder's private functions.
use klip.Base.{◌≡◌, ◌≢◌, sym, ◌∙◌, false, not, arith}
use klip.Recorder.State.{Recorder, World, RecorderState, recording, is_recording}
use klip.Recorder.Monitoring.{refresh_monitoring, stop_monitoring}
use klip.Recorder.Monitoring.Frame.{refresh_monitoring-Keeps, stop_monitoring-Keeps}
use klip.Recorder.Monitoring.Outcome.{refresh_monitoring-Settled, no_preview, stop_monitoring_ends}
use klip.Recorder.Invariant.{Inv, IsAwaited, is_some}

still_recording : (s : RecorderState) → not (is_recording s) ≡ false → s ≡ recording
still_recording s h = ground arith

-- After a refresh of the previews only the tick and the pending start are left to check.
pub refresh_monitoring-Inv :
    (w : World) (r : Recorder)
    → is_some r.tick_deadline ≡ is_recording r.state
    → IsAwaited r
    → Inv (refresh_monitoring w r)
refresh_monitoring-Inv w r t a =
    let k = refresh_monitoring-Keeps w r in
    let (each, deadline) = refresh_monitoring-Settled w r in
    record {
      ticks = rw (k.tick_deadline, k.state) t;
      quiet = λ h. no_preview w r (sym k.state ∙ h);
      metered = λ h. rw (deadline, rw k.state at h);
      awaited = rw (k.pending, k.state) a;
    }

pub stop_monitoring-Inv :
    (r : Recorder)
    → is_some r.tick_deadline ≡ is_recording r.state
    → r.state ≢ recording
    → IsAwaited r
    → Inv (stop_monitoring r)
stop_monitoring-Inv r t n a =
    let k = stop_monitoring-Keeps r in
    let (ended, deadline) = stop_monitoring_ends r in
    record {
      ticks = rw (k.tick_deadline, k.state) t;
      quiet = λ _. ended;
      metered = λ h. absurd (n (still_recording r.state (rw (ended, k.state) at h)));
      awaited = rw (k.pending, k.state) a;
    }

-- All that the invariant looks at, but for the pending start.
pub record SameParts (before after : Recorder) : Type 0 where
  pub tick_deadline : after.tick_deadline ≡ before.tick_deadline
  pub state : after.state ≡ before.state
  pub monitored : after.monitored ≡ before.monitored
  pub meter_deadline : after.meter_deadline ≡ before.meter_deadline

pub SameParts-Inv : (r after : Recorder) → SameParts r after → IsAwaited after → Inv r → Inv after
SameParts-Inv r after e a v = record {
  ticks = rw (e.tick_deadline, e.state) v.ticks;
  quiet = λ h. rw e.monitored (v.quiet (sym e.state ∙ h));
  metered = λ h. rw e.meter_deadline (v.metered (rw (e.monitored, e.state) at h));
  awaited = a;
}
