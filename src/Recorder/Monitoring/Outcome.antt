-- ===== src/Recorder/Monitoring/Outcome.antt =====
-- src/recorder/private/recorder.cpp: which previews run after `RefreshMonitoring`.
use klip.Base.{
  ◌+◌, ◌≡◌, ◌≢◌, refl, ◌⊎◌, inl, inr, Bool, true, false, not, ◌&&◌, [], none, some, equal,
  equal_iff, Bool-cases, arith, sym, ◌∙◌, if◌then◌else◌,
}
use klip.Recorder.Settings.{AudioSource, system, microphone, get, for_sources}
use klip.Recorder.State.{Recorder, World, recording, is_recording}
use klip.Recorder.Monitoring.{
  close_monitor, open_monitor, switch_monitor, refresh_monitor, refresh_monitoring, stop_monitor,
  stop_monitoring, can_monitor, wanted_device, find_device, wants_audio, no_monitors,
  meter_interval,
}
use klip.Recorder.Monitoring.Frame.{Keeps, refresh_monitor-Keeps}

-- The wanted preview runs, or none where none is wanted; or its meter says that it did not open.
abbrev pub Settled : World → Bool → Recorder → Recorder → AudioSource → Type 0
Settled w allowed r after s =
    (get after.monitored s ≡ wanted_device allowed r s)
    ⊎ ((wanted_device allowed r s ≢ [])
        × (get after.monitored s ≡ [])
        × (w.opens s (find_device r s) ≡ false)
        × (get after.meter_unavailable s ≡ true))

find_device-Keeps :
    (r after : Recorder) (s : AudioSource) → Keeps r after → find_device after s ≡ find_device r s
unfolding find_device
find_device-Keeps r after s k = rw (k.settings, k.devices)

wanted_device-Keeps :
    (b : Bool) (r after : Recorder) (s : AudioSource)
    → Keeps r after
    → wanted_device b after s ≡ wanted_device b r s
unfolding wanted_device wants_audio
wanted_device-Keeps b r after s k = rw (k.settings, k.devices)

find_device-close_monitor :
    (r : Recorder) (s : AudioSource) → find_device (close_monitor s r) s ≡ find_device r s
unfolding find_device close_monitor
find_device-close_monitor r s = ground arith

switch_monitor-Settled :
    (w : World) (b : Bool) (r : Recorder) (s : AudioSource)
    → Settled w b r (switch_monitor w s (wanted_device b r s) r) s
unfolding switch_monitor open_monitor close_monitor
switch_monitor-Settled w b r system = ground (arith, find_device-close_monitor r system)
switch_monitor-Settled w b r microphone = ground (arith, find_device-close_monitor r microphone)

refresh_monitor-Settled :
    (w : World) (b : Bool) (r : Recorder) (s : AudioSource)
    → Settled w b r (refresh_monitor w b r s) s
unfolding refresh_monitor
refresh_monitor-Settled w b r s =
    elim (Bool-cases (equal (wanted_device b r s) (get r.monitored s))) [
      | inl same ↦
          let e = (equal_iff (wanted_device b r s) (get r.monitored s)).0 same in
          rw same (inl (sym e))
      | inr other ↦ rw other (switch_monitor-Settled w b r s)
    ]

-- A refresh of one preview does not touch the other.
refresh_monitor_other :
    (w : World) (b : Bool) (r : Recorder)
    → let after = refresh_monitor w b r microphone in
      (get after.monitored system ≡ get r.monitored system)
      × (get after.meter_unavailable system ≡ get r.meter_unavailable system)
unfolding refresh_monitor switch_monitor open_monitor close_monitor
refresh_monitor_other w b r = ground arith

find_device-refresh :
    (w : World) (b : Bool) (r : Recorder) (s t : AudioSource)
    → find_device (refresh_monitor w b r s) t ≡ find_device r t
find_device-refresh w b r s t = find_device-Keeps r _ t (refresh_monitor-Keeps w b r s)

Settled-Keeps :
    (w : World) (b : Bool) (r first after : Recorder) (s : AudioSource)
    → Keeps r first
    → Settled w b first after s
    → Settled w b r after s
Settled-Keeps w b r first after s k v =
    rw (wanted_device-Keeps b r first s k, find_device-Keeps r first s k) at v

Settled-other :
    (w : World) (b : Bool) (r after later : Recorder) (s : AudioSource)
    → Settled w b r after s
    → (get later.monitored s ≡ get after.monitored s)
      × (get later.meter_unavailable s ≡ get after.meter_unavailable s)
    → Settled w b r later s
Settled-other w b r after later s v (m, u) = rw (m, u) v

pub refresh_monitoring-Settled :
    (w : World) (r : Recorder)
    → ((s : AudioSource) → Settled w (can_monitor r) r (refresh_monitoring w r) s)
      × ((refresh_monitoring w r).meter_deadline ≡ (
          if no_monitors (refresh_monitoring w r) && not (is_recording r.state)
          then none
          else some (w.now + meter_interval)))
unfolding refresh_monitoring
refresh_monitoring-Settled w r = (each, rw (refresh_monitoring, same_state))
  where
    first : Recorder
    first = refresh_monitor w (can_monitor r) r system

    kept : Keeps r first
    kept = refresh_monitor-Keeps w (can_monitor r) r system

    same_state : (for_sources (refresh_monitor w (can_monitor r)) r).state ≡ r.state
    same_state = (refresh_monitor-Keeps w (can_monitor r) first microphone).state ∙ kept.state

    other :
        (get (refresh_monitoring w r).monitored system ≡ get first.monitored system)
        × (get (refresh_monitoring w r).meter_unavailable system
            ≡ get first.meter_unavailable system)
    other = refresh_monitor_other w (can_monitor r) first

    each : (s : AudioSource) → Settled w (can_monitor r) r (refresh_monitoring w r) s
    each system =
        Settled-other w (can_monitor r) r first (refresh_monitor w (can_monitor r) first microphone)
          system (refresh_monitor-Settled w (can_monitor r) r system) other
    each microphone =
        Settled-other w (can_monitor r) r (refresh_monitor w (can_monitor r) first microphone)
          (refresh_monitor w (can_monitor r) first microphone) microphone
          (Settled-Keeps w (can_monitor r) r first
            (refresh_monitor w (can_monitor r) first microphone) microphone kept
            (refresh_monitor-Settled w (can_monitor r) first microphone))
          (refl, refl)

not_wanted :
    (r : Recorder) (s : AudioSource) → r.state ≡ recording → wanted_device (can_monitor r) r s ≡ []
unfolding wanted_device can_monitor
not_wanted r s h = ground arith

none_runs :
    (w : World) (b : Bool) (r after : Recorder) (s : AudioSource)
    → Settled w b r after s
    → wanted_device b r s ≡ []
    → get after.monitored s ≡ []
none_runs w b r after s (inl e) h = e ∙ h
none_runs w b r after s (inr (n, _, _, _)) h = absurd (n h)

-- While a recording runs the session owns the devices: a refresh ends every preview.
pub no_preview :
    (w : World) (r : Recorder) → r.state ≡ recording → no_monitors (refresh_monitoring w r) ≡ true
no_preview w r h =
    let (each, deadline) = refresh_monitoring-Settled w r in
    rw (
      none_runs w (can_monitor r) r (refresh_monitoring w r) system (each system)
          (not_wanted r system h),
      none_runs w (can_monitor r) r (refresh_monitoring w r) microphone (each microphone)
          (not_wanted r microphone h),
    )

pub stop_monitoring_ends :
    (r : Recorder)
    → (no_monitors (stop_monitoring r) ≡ true) × ((stop_monitoring r).meter_deadline ≡ none)
unfolding stop_monitoring stop_monitor close_monitor
stop_monitoring_ends r = (refl, refl)
