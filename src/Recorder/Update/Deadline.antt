-- ===== src/Recorder/Update/Deadline.antt =====
-- src/recorder/private/recorder.cpp: `GetNextDeadline` before and after an `Update`.
use klip.Base.{
  ℕ, ◌+◌, ◌<◌, ◌≡◌, refl, false, Option, none, some, List, arith, ltb, if-cases, subst, sym, ◌∙◌,
  ◌||◌, not, is_empty,
}
use klip.Recorder.Settings.{AudioSource, system, microphone, get}
use klip.Recorder.State.{Recorder, World, is_recording}
use klip.Recorder.Monitoring.{meter_interval}
use klip.Recorder.Recording.{Answer}
use klip.Recorder.Update.{
  update_meter, meter_source, on_meter_tick, on_tick, is_due, run_meter, run_tick, update,
  take_answers, take_withdrawal, earliest, get_next_deadline,
}

-- There is no deadline, or it is yet to come.
abbrev pub IsAhead : ℕ → Option ℕ → Type 0
IsAhead now none = Unit
IsAhead now (some deadline) = now < deadline

ahead : (now : ℕ) (d : Option ℕ) → is_due now d ≡ false → IsAhead now d
ahead now none h = tt
ahead now (some d) h = ground arith

meter_source_keeps :
    (w : World) (s : AudioSource) (r : Recorder)
    → (meter_source w s r).meter_deadline ≡ r.meter_deadline
unfolding update_meter
meter_source_keeps w s r =
    if-cases (λ (after : Recorder). after.meter_deadline ≡ r.meter_deadline)
      (is_recording r.state || not (is_empty (get r.monitored s))) (λ _. refl) (λ _. refl)

on_meter_tick_keeps :
    (w : World) (r : Recorder) → (on_meter_tick w r).meter_deadline ≡ r.meter_deadline
unfolding on_meter_tick
on_meter_tick_keeps w r =
    meter_source_keeps w microphone (meter_source w system r) ∙ meter_source_keeps w system r

run_meter-IsAhead : (w : World) (r : Recorder) → IsAhead w.now (run_meter w r).meter_deadline
unfolding run_meter
run_meter-IsAhead w r =
    if-cases (λ (s : Recorder). IsAhead w.now s.meter_deadline) (is_due w.now r.meter_deadline)
      (λ _.
        subst (IsAhead w.now)
          (sym
            (on_meter_tick_keeps w (record r { meter_deadline = some (w.now + meter_interval) })))
          (omega arith))
      (λ h. ahead w.now r.meter_deadline h)

run_tick-IsAhead :
    (w : World) (r : Recorder)
    → IsAhead w.now r.meter_deadline
    → IsAhead w.now (run_tick w r).meter_deadline × IsAhead w.now (run_tick w r).tick_deadline
unfolding run_tick on_tick
run_tick-IsAhead w r m =
    if-cases (λ (s : Recorder). IsAhead w.now s.meter_deadline × IsAhead w.now s.tick_deadline)
      (is_due w.now r.tick_deadline) (λ _. (m, omega arith))
      (λ h. (m, ahead w.now r.tick_deadline h))

earliest-IsAhead :
    (now : ℕ) (m t : Option ℕ) → IsAhead now m → IsAhead now t → IsAhead now (earliest m t)
earliest-IsAhead now none t h k = k
earliest-IsAhead now (some m) none h k = h
earliest-IsAhead now (some m) (some t) h k = if-cases (IsAhead now) (ltb t m) (λ _. k) (λ _. h)

-- After an update the next deadline, if there is one, is yet to come, so that the loop that sleeps
-- until it does not spin.
pub get_next_deadline-update :
    (w : World) (answers : List Answer) (r : Recorder)
    → IsAhead w.now (get_next_deadline (update w answers r))
unfolding get_next_deadline update
get_next_deadline-update w answers r =
    let before = take_withdrawal w (take_answers w answers r) in
    let (m, t) = run_tick-IsAhead w (run_meter w before) (run_meter-IsAhead w before) in
    earliest-IsAhead w.now _ _ m t
