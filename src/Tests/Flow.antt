-- ===== src/Tests/Flow.antt =====
-- The start flow of src/app on a concrete start.
use klip.Base.{refl, inl, arith, true, [], none, some}
use klip.Recorder.State.{whole_frame}
use klip.Recorder.Invariant.{Inv}
use klip.App.StartFlow.{Flow, Scene, unanswered, settling_before_capture, flow_updated, flow_event}
use klip.App.StartFlow.Waits.{FlowInv, Returns}
use klip.App.StartFlow.Safe.{flow_event-FlowInv}
use klip.Tests.{world, starting_recorder}

abbrev scene : Scene
scene = record {
  requests_screenshot = true;
  screenshot = none;
  opens_selector = true;
  selected = unanswered;
  region = whole_frame;
  has_tray = true;
}

-- The window is hidden, and the capture is to be asked for now.
abbrev hidden_flow : Flow
hidden_flow = record {
  flow_step = settling_before_capture;
  deadline = some 4_000_000_000;
  activation_token = [];
  hidden = true;
  recorder = starting_recorder;
}

starting-Inv : Inv starting_recorder
starting-Inv = record {
  ticks = refl;
  quiet = λ e. refl;
  metered = λ e. ground arith;
  awaited = inl refl;
}

hidden_flow-FlowInv : FlowInv hidden_flow
hidden_flow-FlowInv = record {
  inv = starting-Inv;
  busy = λ n. (refl, refl);
  live = λ e. inl (λ s. cc);
  timed = refl;
}

flow_event-FlowInv_example : Returns FlowInv (flow_event world scene flow_updated hidden_flow)
flow_event-FlowInv_example =
    flow_event-FlowInv world scene flow_updated hidden_flow tt hidden_flow-FlowInv
