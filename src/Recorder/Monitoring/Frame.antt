-- ===== src/Recorder/Monitoring/Frame.antt =====
-- src/recorder/private/recorder.cpp: what `RefreshMonitoring` and `StopMonitoring` leave alone.
use klip.Base.{◌≡◌, refl, ◌∙◌, Bool, false, arith, Bytes, none, equal, Bool-cases, inl, inr}
use klip.Recorder.Settings.{get, AudioSource, system, microphone}
use klip.Recorder.State.{Recorder, World}
use klip.Recorder.Monitoring.{
  close_monitor, open_monitor, switch_monitor, refresh_monitor, refresh_monitoring, stop_monitor,
  stop_monitoring, can_monitor, set_unavailable, wanted_device,
}

pub record Keeps (before after : Recorder) : Type 0 where
  pub settings : after.settings ≡ before.settings
  pub changes : after.changes ≡ before.changes
  pub capabilities : after.capabilities ≡ before.capabilities
  pub containers : after.containers ≡ before.containers
  pub codecs : after.codecs ≡ before.codecs
  pub devices : after.devices ≡ before.devices
  pub tick_deadline : after.tick_deadline ≡ before.tick_deadline
  pub state : after.state ≡ before.state
  pub visible : after.visible ≡ before.visible
  pub pending : after.pending ≡ before.pending
  pub status : after.status ≡ before.status

Keeps-refl : (r : Recorder) → Keeps r r
Keeps-refl r = record {
  settings = refl;
  changes = refl;
  capabilities = refl;
  containers = refl;
  codecs = refl;
  devices = refl;
  tick_deadline = refl;
  state = refl;
  visible = refl;
  pending = refl;
  status = refl;
}

Keeps-trans : (r s t : Recorder) → Keeps r s → Keeps s t → Keeps r t
Keeps-trans r s t p q = record {
  settings = q.settings ∙ p.settings;
  changes = q.changes ∙ p.changes;
  capabilities = q.capabilities ∙ p.capabilities;
  containers = q.containers ∙ p.containers;
  codecs = q.codecs ∙ p.codecs;
  devices = q.devices ∙ p.devices;
  tick_deadline = q.tick_deadline ∙ p.tick_deadline;
  state = q.state ∙ p.state;
  visible = q.visible ∙ p.visible;
  pending = q.pending ∙ p.pending;
  status = q.status ∙ p.status;
}

close_monitor-Keeps : (s : AudioSource) (r : Recorder) → Keeps r (close_monitor s r)
unfolding close_monitor
close_monitor-Keeps s r = ground arith

open_monitor-Keeps :
    (w : World) (s : AudioSource) (d : Bytes) (r : Recorder) → Keeps r (open_monitor w s d r)
unfolding open_monitor
open_monitor-Keeps w s d r = ground arith

set_unavailable-Keeps :
    (s : AudioSource) (b : Bool) (r : Recorder) → Keeps r (set_unavailable s b r)
set_unavailable-Keeps s b r = ground arith

switch_monitor-Keeps :
    (w : World) (s : AudioSource) (d : Bytes) (r : Recorder) → Keeps r (switch_monitor w s d r)
unfolding switch_monitor
switch_monitor-Keeps w s d r = Keeps-trans r (close_monitor s r) _ (close_monitor-Keeps s r) (
    Keeps-trans (close_monitor s r) (open_monitor w s d (close_monitor s r)) _
      (open_monitor-Keeps w s d (close_monitor s r))
      (set_unavailable-Keeps s _ (open_monitor w s d (close_monitor s r))))

pub refresh_monitor-Keeps :
    (w : World) (b : Bool) (r : Recorder) (s : AudioSource) → Keeps r (refresh_monitor w b r s)
unfolding refresh_monitor
refresh_monitor-Keeps w b r s =
    elim (Bool-cases (equal (wanted_device b r s) (get r.monitored s))) [
      | inl same ↦ rw same (Keeps-refl r)
      | inr other ↦ rw other (switch_monitor-Keeps w s (wanted_device b r s) r)
    ]

pub refresh_monitoring-Keeps : (w : World) (r : Recorder) → Keeps r (refresh_monitoring w r)
unfolding refresh_monitoring
refresh_monitoring-Keeps w r =
    let first = refresh_monitor w (can_monitor r) r system in
    let kept =
      Keeps-trans r first _ (refresh_monitor-Keeps w (can_monitor r) r system)
        (refresh_monitor-Keeps w (can_monitor r) first microphone) in
    ground (arith, kept)

pub stop_monitor-Keeps : (r : Recorder) (s : AudioSource) → Keeps r (stop_monitor r s)
unfolding stop_monitor
stop_monitor-Keeps r s =
    Keeps-trans r (close_monitor s r) _ (close_monitor-Keeps s r)
      (set_unavailable-Keeps s false (close_monitor s r))

pub stop_monitoring-Keeps : (r : Recorder) → Keeps r (stop_monitoring r)
unfolding stop_monitoring
stop_monitoring-Keeps r =
    let first = stop_monitor (record r { meter_deadline = none }) system in
    let kept =
      Keeps-trans (record r { meter_deadline = none }) first _
        (stop_monitor-Keeps (record r { meter_deadline = none }) system)
        (stop_monitor-Keeps first microphone) in
    ground (arith, kept)
