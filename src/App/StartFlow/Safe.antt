-- ===== src/App/StartFlow/Safe.antt =====
-- src/app/private/start_flow.cpp: the events of the loop, one by one.
use klip.Base.{◌≡◌, ◌≢◌, refl, sym, ◌∙◌, inl, inr, Bool, Option, none, some, Bytes, arith, if-cases}
use klip.Recorder.State.{Recorder, World, is_recording}
use klip.Recorder.Update.{is_due}
use klip.Recorder.Steps.{Operation, step}
use klip.Recorder.Invariant.{IsPermitted}
use klip.Recorder.Invariant.Kept.{stop_recording-Inv}
use klip.Recorder.Invariant.Reach.{step-Inv}
use klip.App.StartFlow.Recording.{IsOutside, step-Steady, stop_recording-idle}
use klip.App.StartFlow.{
  StartStep, nowhere, settling_before_backdrop, awaiting_backdrop, picking, settling_after_picker,
  settling_before_capture, SelectorAnswer, unanswered, accepted, cancelled, Scene, Flow, Event,
  toggled, flow_updated, called, window_hidden, ended, toggle, await_backdrop, take_pick,
  request_backdrop, advance, update_flow, flow_event, is_nowhere,
}
use klip.App.StartFlow.Waits.{
  IsPrepared, FlowInv, Returns, waiting-FlowInv, call_request-FlowInv, begin-FlowInv, not_idle,
  cancel-FlowInv, open_selector-FlowInv, try_start-FlowInv,
}

toggle-FlowInv :
    (w : World) (scene : Scene) (token : Bytes) (f : Flow)
    → FlowInv f
    → Returns FlowInv (toggle w scene token f)
unfolding toggle
toggle-FlowInv w scene token f v =
    if-cases (Returns FlowInv) (is_recording f.recorder.state)
      (λ h. record {
        inv = stop_recording-Inv w f.recorder v.inv (ground arith);
        busy = λ n. let (starts, _) = v.busy n in ground arith;
        live = λ e. absurd (not_idle (sym (stop_recording-idle w f.recorder) ∙ e));
        timed = v.timed;
      })
      (λ _.
        if-cases (Returns FlowInv) (is_nowhere f.flow_step)
          (λ n. try_start-FlowInv w scene token f (ground arith) v) (λ _. v))

preparation : (f : Flow) → FlowInv f → f.flow_step ≢ nowhere → IsPrepared f.recorder
preparation f v n = record { inv = v.inv; state = (v.busy n).0; pending = (v.busy n).1 }

-- A step that its answer or its deadline ends.
await_backdrop-FlowInv :
    (due : Bool) (scene : Scene) (answer : Option Bytes) (f : Flow)
    → IsPrepared f.recorder
    → FlowInv f
    → FlowInv (await_backdrop due scene answer f)
unfolding await_backdrop
await_backdrop-FlowInv due scene (some path) f p v = open_selector-FlowInv scene f p
await_backdrop-FlowInv due scene none f p v =
    if-cases FlowInv due (λ _. open_selector-FlowInv scene f p) (λ _. v)

take_pick-FlowInv :
    (w : World) (a : SelectorAnswer) (f : Flow)
    → IsPrepared f.recorder
    → FlowInv f
    → FlowInv (take_pick w a f)
unfolding take_pick
take_pick-FlowInv w unanswered f p v = v
take_pick-FlowInv w accepted f p v = waiting-FlowInv _ (λ e. cc) p refl
take_pick-FlowInv w cancelled f p v = cancel-FlowInv f p

request_backdrop-FlowInv :
    (w : World) (scene : Scene) (f : Flow)
    → IsPrepared f.recorder
    → FlowInv (request_backdrop w scene f)
unfolding request_backdrop
request_backdrop-FlowInv w scene f p =
    if-cases FlowInv scene.requests_screenshot (λ _. waiting-FlowInv _ (λ e. cc) p refl)
      (λ _. open_selector-FlowInv scene _ p)

advance-FlowInv :
    (w : World) (scene : Scene) (due : Bool) (s : StartStep) (f : Flow)
    → f.flow_step ≡ s
    → FlowInv f
    → Returns FlowInv (advance w scene due s f)
unfolding advance
advance-FlowInv w scene due nowhere f e v = v
advance-FlowInv w scene due settling_before_backdrop f e v =
    if-cases FlowInv due (λ _. request_backdrop-FlowInv w scene f (preparation f v (λ n. cc)))
      (λ _. v)
advance-FlowInv w scene due awaiting_backdrop f e v =
    await_backdrop-FlowInv due scene scene.screenshot f (preparation f v (λ n. cc)) v
advance-FlowInv w scene due picking f e v =
    take_pick-FlowInv w scene.selected f (preparation f v (λ n. cc)) v
advance-FlowInv w scene due settling_after_picker f e v =
    if-cases (Returns FlowInv) due
      (λ _. begin-FlowInv w scene scene.region f (preparation f v (λ n. cc))) (λ _. v)
advance-FlowInv w scene due settling_before_capture f e v =
    if-cases (Returns FlowInv) due
      (λ _. call_request-FlowInv (ended f) refl refl (preparation f v (λ n. cc))) (λ _. v)

-- What the loop does outside the start flow is what the window, the tray and the wakes do.
abbrev pub IsAllowed : Event → Type 0
IsAllowed (called op) = IsOutside op
IsAllowed _ = Unit

permitted : (op : Operation) (r : Recorder) → IsOutside op → IsPermitted op r
permitted (Operation.source s) r h = tt
permitted (Operation.remember_window b) r h = tt
permitted (Operation.directory d) r h = tt
permitted (Operation.container c) r h = tt
permitted (Operation.codec c) r h = tt
permitted (Operation.quality q) r h = tt
permitted (Operation.max_frame_rate f) r h = tt
permitted (Operation.audio_quality q) r h = tt
permitted (Operation.audio_enabled s b) r h = tt
permitted (Operation.audio_device s d) r h = tt
permitted (Operation.gain s g) r h = tt
permitted (Operation.display s) r h = tt
permitted (Operation.visible b) r h = tt
permitted Operation.refresh_devices r h = tt
permitted Operation.prepare r h = elim h [ ]
permitted (Operation.begin g) r h = elim h [ ]
permitted Operation.request r h = elim h [ ]
permitted Operation.cancel r h = elim h [ ]
permitted Operation.stop r h = elim h [ ]
permitted Operation.taken_changes r h = tt
permitted Operation.taken_reveal r h = tt
permitted (Operation.wake answers) r h = tt
permitted Operation.ended r h = tt
permitted Operation.quit r h = elim h [ ]

called-FlowInv :
    (w : World) (op : Operation) (f : Flow)
    → IsOutside op
    → FlowInv f
    → FlowInv (record f { recorder = step w op f.recorder })
called-FlowInv w op f h v =
    let s = step-Steady w op f.recorder h in
    record {
      inv = step-Inv w op f.recorder (permitted op f.recorder h) v.inv;
      busy = λ n. let (starts, none_waits) = v.busy n in s.forth starts none_waits;
      live = λ e.
          let (starts, same) = s.back e in
          elim (v.live starts) [
            | inl n ↦ inl n
            | inr n ↦ inr (λ none_waits. n (sym same ∙ none_waits))
          ];
      timed = v.timed;
    }

-- No assertion fails when the loop toggles the start flow, updates it, calls the recorder outside
-- it or moves the window, and what holds of the flow before holds after: a start that is under
-- way has a deadline or waits for the selector, its recorder is starting and has not asked the
-- session yet, and a recorder that is starting is either under way or waits for the session's answer.
pub flow_event-FlowInv :
    (w : World) (scene : Scene) (e : Event) (f : Flow)
    → IsAllowed e
    → FlowInv f
    → Returns FlowInv (flow_event w scene e f)
unfolding flow_event update_flow
flow_event-FlowInv w scene (toggled token) f h v = toggle-FlowInv w scene token f v
flow_event-FlowInv w scene flow_updated f h v =
    advance-FlowInv w scene (is_due w.now f.deadline) f.flow_step f refl v
flow_event-FlowInv w scene (called op) f h v = called-FlowInv w op f h v
flow_event-FlowInv w scene (window_hidden b) f h v = record {
  inv = v.inv;
  busy = v.busy;
  live = v.live;
  timed = v.timed;
}
