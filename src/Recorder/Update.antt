-- ===== src/Recorder/Update.antt =====
-- src/recorder/private/recorder.cpp: what the recorder does after a wake or a deadline, and its end.
-- The clock's successive readings within one call are one number.
pub mod Deadline
use klip.Base.{
  ℕ, ◌+◌, ◌-◌, ◌/◌, Bool, true, false, not, ◌&&◌, ◌||◌, List, [], ◌∷◌, Option, none, some, ltb, leb,
  is_empty, ◌==◌, if◌then◌else◌,
}
use klip.Recorder.Settings.{AudioSource, system, microphone, get, put}
use klip.Recorder.State.{
  Recorder, World, stopped_sharing, progress, call, session_terminate, tray_terminate, tray_label,
  tray_detail, devices_terminate, meter_feed, is_recording, Pending,
}
use klip.Recorder.Monitoring.{choice, stop_monitoring, meter_interval}
use klip.Recorder.Format.{format_duration, format_throughput}
use klip.Recorder.Recording.{Answer, on_started, stop_recording, tick_interval}

-- `peaks` are the stream's where the number of buffers changed, and silent otherwise.
unfoldable pub update_meter : World → AudioSource → Recorder → Recorder
update_meter w source r =
    let current = w.num_buffers source in
    let fresh = not (current == get r.num_buffers source) in
    call (meter_feed source fresh (choice r source).gain_decibels w.now)
      (record r { num_buffers = put r.num_buffers source current })

abbrev pub meter_source : World → AudioSource → Recorder → Recorder
meter_source w source r =
    if is_recording r.state || not (is_empty (get r.monitored source))
    then update_meter w source r
    else r

unfoldable pub on_meter_tick : World → Recorder → Recorder
on_meter_tick w r = meter_source w microphone (meter_source w system r)

-- Milliseconds since the recording started.
abbrev elapsed_ms : World → Recorder → ℕ
elapsed_ms w r = (w.now - r.recording_start) / 1_000_000

-- `m_firstByte` after the tick.
unfoldable pub first_byte_after : World → Recorder → Option ℕ
first_byte_after w r = elim r.first_byte [
  | none ↦ if ltb 0 w.stats.bytes_written then some (elapsed_ms w r) else none
  | some first ↦ some first
]

abbrev writing_ms : ℕ → Option ℕ → ℕ
writing_ms elapsed none = 0
writing_ms elapsed (some first) = elapsed - first

unfoldable pub on_tick : World → Recorder → Recorder
on_tick w r =
    let elapsed = elapsed_ms w r in
    let first = first_byte_after w r in
    let text = format_duration elapsed in
    let written = w.stats.bytes_written in
    let rate = format_throughput written (writing_ms elapsed first / 1000) in
    call (tray_detail text written rate) (
      call (tray_label text rate)
        (record r { first_byte = first; elapsed = text; status = progress written rate }))

-- `deadline.has_value() && now >= *deadline`.
abbrev pub is_due : ℕ → Option ℕ → Bool
is_due now none = false
is_due now (some deadline) = leb deadline now

-- `CSession::Update`: each answer goes to the callback of the start that it answers.
unfoldable pub take_answer : World → Answer → List Pending → Recorder → Recorder
take_answer w a [] r = r
take_answer w a (p ∷ pending) r = on_started w a p (record r { pending = pending })

unfoldable pub take_answers : World → List Answer → Recorder → Recorder
take_answers w [] r = r
take_answers w (a ∷ answers) r = take_answers w answers (take_answer w a r.pending r)

unfoldable pub take_withdrawal : World → Recorder → Recorder
take_withdrawal w r =
    let taken = record r { withdrawn = false } in
    if r.withdrawn && is_recording r.state
    then record (stop_recording w taken) { status = stopped_sharing }
    else taken

unfoldable pub run_meter : World → Recorder → Recorder
run_meter w r =
    if is_due w.now r.meter_deadline
    then on_meter_tick w (record r { meter_deadline = some (w.now + meter_interval) })
    else r

unfoldable pub run_tick : World → Recorder → Recorder
run_tick w r =
    if is_due w.now r.tick_deadline
    then on_tick w (record r { tick_deadline = some (w.now + tick_interval) })
    else r

unfoldable pub update : World → List Answer → Recorder → Recorder
update w answers r = run_tick w (run_meter w (take_withdrawal w (take_answers w answers r)))

abbrev pub earliest : Option ℕ → Option ℕ → Option ℕ
earliest none tick = tick
earliest (some meter) none = some meter
earliest (some meter) (some tick) = if ltb tick meter then some tick else some meter

unfoldable pub get_next_deadline : Recorder → Option ℕ
get_next_deadline r = earliest r.meter_deadline r.tick_deadline

-- The callback of `SetEndedCallback`, on another thread.
unfoldable pub end_sharing : Recorder → Recorder
end_sharing r = record r { withdrawn = true }

unfoldable pub terminate : World → Recorder → Recorder
terminate w r =
    let stopped = if is_recording r.state then stop_recording w r else r in
    call devices_terminate (call session_terminate (call tray_terminate (stop_monitoring stopped)))
