-- ===== src/App/StartFlow.antt =====
-- src/app/private/start_flow.cpp: a start runs in steps, so that the window is out of shot. SDL,
-- the screenshot portal and the region selector answer through `Scene`.
pub mod Recording
pub mod Waits
pub mod Safe
use klip.Base.{
  ℕ, ◌+◌, Bool, true, false, not, ◌&&◌, List, [], Option, none, some, Bytes, if◌then◌else◌,
}
use klip.Recorder.Settings.{Source}
use klip.Recorder.State.{Recorder, World, Region, whole_frame, is_starting, is_recording}
use klip.Recorder.Recording.{
  prepare_recording, begin_recording, request_capture, cancel_recording, stop_recording,
}
use klip.Recorder.Update.{is_due}
use klip.Recorder.Steps.{Operation, step}

pub data StartStep : Type 0 where
  nowhere settling_before_backdrop awaiting_backdrop picking settling_after_picker : StartStep
  settling_before_capture : StartStep

pub data SelectorAnswer : Type 0 where
  unanswered accepted cancelled : SelectorAnswer

-- What the screenshot, the selector, the tray and SDL answer during one call.
pub record Scene : Type 0 where
  pub requests_screenshot : Bool
  pub screenshot : Option Bytes
  pub opens_selector : Bool
  pub selected : SelectorAnswer
  pub region : Region
  pub has_tray : Bool

-- CStartFlow, with the recorder and the window that it points to.
pub record Flow : Type 0 where
  pub flow_step : StartStep
  pub deadline : Option ℕ
  pub activation_token : Bytes
  pub hidden : Bool
  pub recorder : Recorder

-- 250 milliseconds.
abbrev pub hide_settle : ℕ
hide_settle = 250_000_000

-- 30 seconds.
abbrev pub screenshot_patience : ℕ
screenshot_patience = 30_000_000_000

abbrev pub settle : StartStep → ℕ → Flow → Flow
settle next now f = record f { flow_step = next; deadline = some (now + hide_settle) }

-- `none` is a TGE_ASSERT that fails: these two calls come only to a recorder that is starting.
unfoldable pub call_begin : World → Region → Flow → Option Flow
call_begin w region f =
    if is_starting f.recorder.state
    then some (record f { recorder = begin_recording w region f.recorder })
    else none

unfoldable pub call_request : Flow → Option Flow
call_request f =
    if is_starting f.recorder.state
    then some (record f { recorder = request_capture f.recorder })
    else none

abbrev pub ended : Flow → Flow
ended f = record f { flow_step = nowhere; deadline = none }

-- `Begin` behind its call of the recorder.
unfoldable pub leave_shot : World → Scene → Flow → Option Flow
leave_shot w scene f =
    if not f.hidden && scene.has_tray
    then some (settle settling_before_capture w.now (record f { hidden = true }))
    else call_request f

unfoldable pub begin : World → Scene → Region → Flow → Option Flow
begin w scene region f = elim (call_begin w region (ended f)) [
  | none ↦ none
  | some begun ↦ leave_shot w scene begun
]

unfoldable pub cancel : Flow → Flow
cancel f = record (ended f) { hidden = false; recorder = cancel_recording f.recorder }

unfoldable pub open_selector : Scene → Flow → Flow
open_selector scene f =
    let waiting = record f { deadline = none; activation_token = [] } in
    if scene.opens_selector then record waiting { flow_step = picking } else cancel waiting

abbrev is_nowhere : StartStep → Bool
is_nowhere nowhere = true
is_nowhere settling_before_backdrop = false
is_nowhere awaiting_backdrop = false
is_nowhere picking = false
is_nowhere settling_after_picker = false
is_nowhere settling_before_capture = false

abbrev is_region : Source → Bool
is_region Source.screen = false
is_region Source.window = false
is_region Source.region = true

-- `Toggle` behind a PrepareRecording that succeeded.
unfoldable pub start : World → Scene → Bytes → Flow → Option Flow
start w scene token f =
    if is_region f.recorder.settings.source
    then some (
        settle settling_before_backdrop w.now
          (record f { activation_token = token; hidden = true }))
    else begin w scene whole_frame f

-- `m_pRecorder->PrepareRecording()` as the second operand of `&&`.
unfoldable pub try_start : World → Scene → Bytes → Flow → Option Flow
try_start w scene token f =
    let prepared = record f { recorder = (prepare_recording w f.recorder).0 } in
    if (prepare_recording w f.recorder).1 then start w scene token prepared else some prepared

unfoldable pub toggle : World → Scene → Bytes → Flow → Option Flow
toggle w scene token f =
    if is_recording f.recorder.state
    then some (record f { recorder = stop_recording w f.recorder })
    else if is_nowhere f.flow_step
    then try_start w scene token f
    else some f

unfoldable pub await_backdrop : Bool → Scene → Option Bytes → Flow → Flow
await_backdrop due scene (some path) f = open_selector scene f
await_backdrop due scene none f = if due then open_selector scene f else f

unfoldable pub take_pick : World → SelectorAnswer → Flow → Flow
take_pick w unanswered f = f
take_pick w accepted f = settle settling_after_picker w.now f
take_pick w cancelled f = cancel f

unfoldable pub request_backdrop : World → Scene → Flow → Flow
request_backdrop w scene f =
    let reset = record f { deadline = none } in
    if scene.requests_screenshot
    then record reset {
      flow_step = awaiting_backdrop;
      deadline = some (w.now + screenshot_patience);
    }
    else open_selector scene reset

-- The `switch` of `Update`; the flag is `isDue`.
unfoldable pub advance : World → Scene → Bool → StartStep → Flow → Option Flow
advance w scene due nowhere f = some f
advance w scene due settling_before_backdrop f =
    some (if due then request_backdrop w scene f else f)
advance w scene due awaiting_backdrop f = some (await_backdrop due scene scene.screenshot f)
advance w scene due picking f = some (take_pick w scene.selected f)
advance w scene due settling_after_picker f = if due then begin w scene scene.region f else some f
advance w scene due settling_before_capture f = if due then call_request (ended f) else some f

unfoldable pub update_flow : World → Scene → Flow → Option Flow
update_flow w scene f = advance w scene (is_due w.now f.deadline) f.flow_step f

unfoldable pub terminate_flow : Flow → Flow
terminate_flow f = if is_nowhere f.flow_step then f else ended f

-- What the application's loop may do between two waits.
pub data Event : Type 0 where
  toggled : Bytes → Event
  flow_updated : Event
  called : Operation → Event
  window_hidden : Bool → Event

unfoldable pub flow_event : World → Scene → Event → Flow → Option Flow
flow_event w scene (toggled token) f = toggle w scene token f
flow_event w scene flow_updated f = update_flow w scene f
flow_event w scene (called op) f = some (record f { recorder = step w op f.recorder })
flow_event w scene (window_hidden b) f = some (record f { hidden = b })
