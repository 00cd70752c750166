-- ===== src/App/StartFlow/Waits.antt =====
-- src/app/private/start_flow.cpp with src/recorder/private/recorder.cpp: what holds between events.
use mathlib.Core.List.{concat-ne-nil}
use klip.Base.{
  ℕ, ◌≡◌, ◌≢◌, refl, sym, ◌∙◌, ◌⊎◌, inl, inr, true, false, not, ◌&&◌, [], Option, none, some, Bytes,
  arith, if-cases,
}
use klip.Capture.{SourceType, keeps_grant}
use klip.Recorder.State.{Recorder, World, Region, whole_frame, idle, starting, is_starting}
use klip.Recorder.Monitoring.Frame.{stop_monitoring-Keeps}
use klip.Recorder.Recording.{
  prepare_recording, begin_recording, request_capture, put_token, source_type, cancel_recording,
  show_idle_state, make_output_path,
}
use klip.Recorder.Invariant.{Inv, is_some}
use klip.Recorder.Invariant.Kept.{
  prepare_recording-Inv, begin_recording-Inv, request_capture-Inv, show_idle_state-Inv,
}
use klip.App.StartFlow.{
  StartStep, nowhere, picking, Scene, Flow, call_begin, call_request, ended, leave_shot, begin,
  cancel, open_selector, start, try_start, is_region,
}

-- The recorder is prepared, and has not asked the session for anything yet.
pub record IsPrepared (r : Recorder) : Type 0 where
  pub inv : Inv r
  pub state : r.state ≡ starting
  pub pending : r.pending ≡ []

-- Every step of a start has a deadline to end it, but for the picking, which an answer ends.
abbrev pub IsTimed : StartStep → Option ℕ → Type 0
IsTimed nowhere d = d ≡ none
IsTimed picking d = d ≡ none
IsTimed _ d = is_some d ≡ true

pub record FlowInv (f : Flow) : Type 0 where
  pub inv : Inv f.recorder
  pub busy : f.flow_step ≢ nowhere → (f.recorder.state ≡ starting) × (f.recorder.pending ≡ [])
  pub live : f.recorder.state ≡ starting → (f.flow_step ≢ nowhere) ⊎ (f.recorder.pending ≢ [])
  pub timed : IsTimed f.flow_step f.deadline

-- No assertion fails, and the result is as `P` says.
abbrev pub Returns : (Flow → Type 0) → Option Flow → Type 0
Returns P none = ⊥
Returns P (some f) = P f

pub waiting-FlowInv :
    (f : Flow)
    → f.flow_step ≢ nowhere
    → IsPrepared f.recorder
    → IsTimed f.flow_step f.deadline
    → FlowInv f
waiting-FlowInv f n p t = record {
  inv = p.inv;
  busy = λ _. (p.state, p.pending);
  live = λ _. inl n;
  timed = t;
}

put_token_keeps :
    (s : SourceType) (t : Bytes) (r : Recorder)
    → ((put_token s t r).state ≡ r.state) × ((put_token s t r).pending ≡ r.pending)
unfolding put_token
put_token_keeps SourceType.screen t r = (refl, refl)
put_token_keeps SourceType.window t r = (refl, refl)

-- A request is made in the state it is called in, and its answer is awaited.
abbrev IsAsked : Recorder → Recorder → Type 0
IsAsked r after = (after.state ≡ r.state) × (after.pending ≢ [])

request_capture-IsAsked : (r : Recorder) → IsAsked r (request_capture r)
unfolding request_capture
request_capture-IsAsked r =
    let source = source_type r.settings.source in
    (
      if-cases (λ (k : Recorder). k.state ≡ r.state) (keeps_grant source r.settings.remember_window)
          (λ _. refl) (λ _. (put_token_keeps source [] r).0),
      concat-ne-nil _ _,
    )

begin_recording-IsPrepared :
    (w : World) (g : Region) (r : Recorder) → IsPrepared r → IsPrepared (begin_recording w g r)
begin_recording-IsPrepared w g r p =
    let k = stop_monitoring-Keeps (record r { region = g; current_path = make_output_path w r }) in
    record {
      inv = begin_recording-Inv w g r p.inv p.state;
      state = unfold begin_recording in (k.state ∙ p.state);
      pending = unfold begin_recording in (k.pending ∙ p.pending);
    }

pub call_request-FlowInv :
    (f : Flow)
    → f.flow_step ≡ nowhere
    → f.deadline ≡ none
    → IsPrepared f.recorder
    → Returns FlowInv (call_request f)
unfolding call_request
call_request-FlowInv f s d p =
    if-cases (Returns FlowInv) (is_starting f.recorder.state)
      (λ _. record {
        inv = request_capture-Inv f.recorder p.inv p.state p.pending;
        busy = λ n. absurd (n s);
        live = λ _. inr (request_capture-IsAsked f.recorder).1;
        timed = rw s d;
      })
      (λ h. ground arith)

-- No step of a start is left, and the recorder is prepared.
record IsReady (f : Flow) : Type 0 where
  pub flow_step : f.flow_step ≡ nowhere
  pub deadline : f.deadline ≡ none
  pub prepared : IsPrepared f.recorder

leave_shot-FlowInv :
    (w : World) (scene : Scene) (f : Flow) → IsReady f → Returns FlowInv (leave_shot w scene f)
unfolding leave_shot
leave_shot-FlowInv w scene f p =
    if-cases (Returns FlowInv) (not f.hidden && scene.has_tray)
      (λ _. waiting-FlowInv _ (λ e. cc) p.prepared refl)
      (λ _. call_request-FlowInv f p.flow_step p.deadline p.prepared)

begun-FlowInv :
    (w : World) (scene : Scene) (o : Option Flow)
    → Returns IsReady o
    → Returns FlowInv (elim o [ none ↦ none | some begun ↦ leave_shot w scene begun ])
begun-FlowInv w scene none h = h
begun-FlowInv w scene (some f) h = leave_shot-FlowInv w scene f h

call_begin-IsReady :
    (w : World) (g : Region) (f : Flow)
    → IsPrepared f.recorder
    → Returns IsReady (call_begin w g (ended f))
unfolding call_begin
call_begin-IsReady w g f p =
    if-cases (Returns IsReady) (is_starting f.recorder.state)
      (λ _. record {
        flow_step = refl;
        deadline = refl;
        prepared = begin_recording-IsPrepared w g f.recorder p;
      })
      (λ h. ground arith)

pub begin-FlowInv :
    (w : World) (scene : Scene) (g : Region) (f : Flow)
    → IsPrepared f.recorder
    → Returns FlowInv (begin w scene g f)
unfolding begin
begin-FlowInv w scene g f p =
    begun-FlowInv w scene (call_begin w g (ended f)) (call_begin-IsReady w g f p)

pub not_idle : idle ≢ starting
not_idle e = cc

pub cancel-FlowInv : (f : Flow) → IsPrepared f.recorder → FlowInv (cancel f)
unfolding cancel cancel_recording show_idle_state
cancel-FlowInv f p = record {
  inv = show_idle_state-Inv f.recorder _ p.inv p.state p.pending;
  busy = λ n. absurd (n refl);
  live = λ h. absurd (not_idle h);
  timed = refl;
}

pub open_selector-FlowInv :
    (scene : Scene) (f : Flow) → IsPrepared f.recorder → FlowInv (open_selector scene f)
unfolding open_selector
open_selector-FlowInv scene f p =
    if-cases FlowInv scene.opens_selector (λ _. waiting-FlowInv _ (λ e. cc) p refl)
      (λ _. cancel-FlowInv _ p)

start-FlowInv :
    (w : World) (scene : Scene) (token : Bytes) (f : Flow)
    → IsPrepared f.recorder
    → Returns FlowInv (start w scene token f)
unfolding start
start-FlowInv w scene token f p =
    if-cases (Returns FlowInv) (is_region f.recorder.settings.source)
      (λ _. waiting-FlowInv _ (λ e. cc) p refl) (λ _. begin-FlowInv w scene whole_frame f p)

prepare_recording-IsPrepared :
    (w : World) (r : Recorder)
    → Inv r
    → (prepare_recording w r).1 ≡ true
    → IsPrepared (prepare_recording w r).0
prepare_recording-IsPrepared w r v h = record {
  inv = prepare_recording-Inv w r v;
  state = unfold prepare_recording in ground arith;
  pending = let a = v.awaited in unfold prepare_recording in ground arith;
}

refused_keeps :
    (w : World) (r : Recorder)
    → (prepare_recording w r).1 ≡ false
    → (prepare_recording w r).0.state ≡ starting
    → (r.state ≡ starting) × ((prepare_recording w r).0.pending ≡ r.pending)
unfolding prepare_recording show_idle_state
refused_keeps w r h e = ground arith

refused-FlowInv :
    (w : World) (f : Flow)
    → f.flow_step ≡ nowhere
    → (prepare_recording w f.recorder).1 ≡ false
    → FlowInv f
    → FlowInv (record f { recorder = (prepare_recording w f.recorder).0 })
refused-FlowInv w f s h v = record {
  inv = prepare_recording-Inv w f.recorder v.inv;
  busy = λ n. absurd (n s);
  live = λ e.
      let (starts, same) = refused_keeps w f.recorder h e in
      elim (v.live starts) [ inl n ↦ absurd (n s) | inr n ↦ inr (λ none. n (sym same ∙ none)) ];
  timed = v.timed;
}

pub try_start-FlowInv :
    (w : World) (scene : Scene) (token : Bytes) (f : Flow)
    → f.flow_step ≡ nowhere
    → FlowInv f
    → Returns FlowInv (try_start w scene token f)
unfolding try_start
try_start-FlowInv w scene token f s v =
    if-cases (Returns FlowInv) (prepare_recording w f.recorder).1
      (λ h. start-FlowInv w scene token _ (prepare_recording-IsPrepared w f.recorder v.inv h))
      (λ h. refused-FlowInv w f s h v)
