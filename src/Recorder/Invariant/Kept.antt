-- ===== src/Recorder/Invariant/Kept.antt =====
-- src/recorder/private/recorder.cpp: each call keeps the invariant.
use klip.Base.{
  ℕ, ◌+◌, ◌||◌, Option, ◌≡◌, refl, ◌∙◌, ◌⊎◌, inl, inr, Bool, true, false, not, ◌&&◌, ◌++◌, [], ◌∷◌,
  some, is_empty, Bytes, arith, if◌then◌else◌, List, Bool-cases, if-cases,
}
use klip.Capture.{SourceType, keeps_grant}
use klip.Encode.Format.{Container}
use klip.Recorder.Settings.{AudioSource, system, microphone, get, Settings}
use klip.Recorder.State.{
  Recorder, World, Pending, RecorderState, show, recording, starting, is_recording, Region, Status,
}
use klip.Recorder.Monitoring.{stop_monitoring, refresh_codecs, meter_interval}
use klip.Recorder.Choices.{choose, set_container}
use klip.Recorder.Hints.{update_quality_hint}
use klip.Recorder.Recording.{
  source_type, make_output_path, Answer, prepare_recording, begin_recording, request_capture,
  put_token, stop_recording, show_idle_state, on_started, keep_token, start_succeeded, start_failed,
  tick_interval,
}
use klip.Recorder.Update.{
  update, take_answer, take_answers, take_withdrawal, run_meter, run_tick, on_tick, on_meter_tick,
  update_meter, meter_source, is_due,
}
use klip.Recorder.Invariant.{Inv, is_some}
use klip.Recorder.Invariant.Parts.{
  SameParts, SameParts-Inv, refresh_monitoring-Inv, stop_monitoring-Inv,
}

pub update_quality_hint-Inv : (r : Recorder) → Inv r → Inv (update_quality_hint r)
unfolding update_quality_hint
update_quality_hint-Inv r v = SameParts-Inv r _ (ground arith) v.awaited v

pub set_source-Inv : (r : Recorder) (s : Settings) → Inv r → Inv (update_quality_hint (choose s r))
set_source-Inv r s v = update_quality_hint-Inv _ (SameParts-Inv r _ (ground arith) v.awaited v)

pub set_container-Inv :
    (w : World) (c : Container) (r : Recorder) → Inv r → Inv (set_container w c r)
unfolding set_container refresh_codecs
set_container-Inv w c r v = update_quality_hint-Inv _ (refresh_monitoring-Inv w _ v.ticks v.awaited)

pub prepare_recording-Inv : (w : World) (r : Recorder) → Inv r → Inv (prepare_recording w r).0
unfolding prepare_recording show_idle_state
prepare_recording-Inv w r v = ground arith

pub begin_recording-Inv :
    (w : World) (g : Region) (r : Recorder)
    → Inv r
    → r.state ≡ starting
    → Inv (begin_recording w g r)
unfolding begin_recording
begin_recording-Inv w g r v s =
    let stopped = record r { region = g; current_path = make_output_path w r } in
    let i = stop_monitoring-Inv stopped v.ticks (rw s (λ e. cc)) v.awaited in
    SameParts-Inv (stop_monitoring stopped) _ (ground arith) i.awaited i

-- A token written touches nothing that the invariant looks at.
put_token-SameParts :
    (b : Bool) (s : SourceType) (t : Bytes) (r : Recorder)
    → SameParts r (if b then r else put_token s t r)
      × ((if b then r else put_token s t r).pending ≡ r.pending)
unfolding put_token
put_token-SameParts b SourceType.screen t r = ground arith
put_token-SameParts b _ t r = ground arith

append_one :
    (ps : List Pending) (x : Pending) (state : RecorderState)
    → ps ≡ []
    → state ≡ starting
    → (ps ++ x ∷ [] ≡ []) ⊎ ((p : Pending) × (ps ++ x ∷ [] ≡ p ∷ []) × (state ≡ starting))
append_one ps x state e s = inr (x, rw e, s)

pub request_capture-Inv :
    (r : Recorder) → Inv r → r.state ≡ starting → r.pending ≡ [] → Inv (request_capture r)
unfolding request_capture
request_capture-Inv r v s p =
    let source = source_type r.settings.source in
    let (e, q) = put_token-SameParts (keeps_grant source r.settings.remember_window) source [] r in
    SameParts-Inv r _
      (record {
        tick_deadline = e.tick_deadline;
        state = e.state;
        monitored = e.monitored;
        meter_deadline = e.meter_deadline;
      })
      (append_one _ _ _ (q ∙ p) (e.state ∙ s)) v

pub show_idle_state-Inv :
    (r : Recorder) (t : Status)
    → Inv r
    → r.state ≡ starting
    → r.pending ≡ []
    → Inv (show_idle_state t r)
unfolding show_idle_state
show_idle_state-Inv r t v s p = ground arith

pub stop_recording-Inv :
    (w : World) (r : Recorder) → Inv r → r.state ≡ recording → Inv (stop_recording w r)
unfolding stop_recording show_idle_state
stop_recording-Inv w r v s = refresh_monitoring-Inv w _ refl (inl (ground arith))

keep_token-SameParts :
    (a : Answer) (p : Pending) (r : Recorder)
    → SameParts r (keep_token a p r) × ((keep_token a p r).pending ≡ r.pending)
unfolding keep_token put_token
keep_token-SameParts a p r = ground arith

start_succeeded-Inv : (w : World) (r : Recorder) → r.pending ≡ [] → Inv (start_succeeded w r)
unfolding start_succeeded
start_succeeded-Inv w r e = refresh_monitoring-Inv w _ refl (inl e)

start_failed-Inv :
    (a : Answer) (r : Recorder)
    → Inv r
    → r.state ≡ starting
    → r.pending ≡ []
    → Inv (start_failed a r)
unfolding start_failed
start_failed-Inv a r v s e =
    show_idle_state-Inv (record r { reveal = show }) _
      (SameParts-Inv r _ (ground arith) v.awaited v) s e

on_started-Inv :
    (w : World) (a : Answer) (p : Pending) (r : Recorder)
    → Inv r
    → r.state ≡ starting
    → r.pending ≡ []
    → Inv (on_started w a p r)
unfolding on_started
on_started-Inv w a p r v s e =
    let (k, q) = keep_token-SameParts a p r in
    let kept = SameParts-Inv r (keep_token a p r) k (inl (q ∙ e)) v in
    if-cases Inv a.started (λ _. start_succeeded-Inv w (keep_token a p r) (q ∙ e))
      (λ _. start_failed-Inv a (keep_token a p r) kept (k.state ∙ s) (q ∙ e))

take_answer-Inv :
    (w : World) (a : Answer) (ps : List Pending) (r : Recorder)
    → r.pending ≡ ps
    → Inv r
    → Inv (take_answer w a ps r)
unfolding take_answer
take_answer-Inv w a [] r e v = v
take_answer-Inv w a (p ∷ ps) r e v = elim v.awaited [
  | inl nothing_waits ↦ cc
  | inr (x, one, s) ↦
      let rest : ps ≡ [] = cc in
      on_started-Inv w a p (record r { pending = ps })
        (SameParts-Inv r _ (ground arith) (inl rest) v) s rest
]

take_answers-Inv :
    (w : World) (answers : List Answer) (r : Recorder) → Inv r → Inv (take_answers w answers r)
unfolding take_answers
take_answers-Inv w [] r v = v
take_answers-Inv w (a ∷ rest) r v =
    take_answers-Inv w rest (take_answer w a r.pending r) (take_answer-Inv w a r.pending r refl v)

take_withdrawal-Inv : (w : World) (r : Recorder) → Inv r → Inv (take_withdrawal w r)
unfolding take_withdrawal
take_withdrawal-Inv w r v =
    let taken = SameParts-Inv r (record r { withdrawn = false }) (ground arith) v.awaited v in
    elim (Bool-cases (r.withdrawn && is_recording r.state)) [
      | inl ended ↦ rw ended (
          let i = stop_recording-Inv w (record r { withdrawn = false }) taken (ground arith) in
          SameParts-Inv _ _ (ground arith) i.awaited i)
      | inr other ↦ rw other taken
    ]

update_meter-SameParts :
    (w : World) (s : AudioSource) (r : Recorder)
    → SameParts r (update_meter w s r) × ((update_meter w s r).pending ≡ r.pending)
unfolding update_meter
update_meter-SameParts w s r = ground arith

due_ticks : (now : ℕ) (d : Option ℕ) → is_due now d ≡ true → ◌≡◌ {A = Bool} true (is_some d)
due_ticks now d h = ground arith

meter_source-Inv : (w : World) (s : AudioSource) (r : Recorder) → Inv r → Inv (meter_source w s r)
meter_source-Inv w s r v =
    if-cases Inv (is_recording r.state || not (is_empty (get r.monitored s)))
      (λ _.
        let (e, q) = update_meter-SameParts w s r in
        SameParts-Inv r _ e (rw (q, e.state) v.awaited) v)
      (λ _. v)

run_meter-Inv : (w : World) (r : Recorder) → Inv r → Inv (run_meter w r)
unfolding run_meter on_meter_tick
run_meter-Inv w r v =
    if-cases Inv (is_due w.now r.meter_deadline)
      (λ _. meter_source-Inv w microphone _ (meter_source-Inv w system _ (later v))) (λ _. v)
  where
    later : Inv r → Inv (record r { meter_deadline = some (w.now + meter_interval) })
    later v = record { ticks = v.ticks; quiet = v.quiet; metered = λ _. refl; awaited = v.awaited }

run_tick-Inv : (w : World) (r : Recorder) → Inv r → Inv (run_tick w r)
unfolding run_tick on_tick
run_tick-Inv w r v =
    if-cases Inv (is_due w.now r.tick_deadline)
      (λ due.
        SameParts-Inv (record r { tick_deadline = some (w.now + tick_interval) }) _ (ground arith)
          v.awaited
          (record {
            ticks = due_ticks w.now r.tick_deadline due ∙ v.ticks;
            quiet = v.quiet;
            metered = v.metered;
            awaited = v.awaited;
          }))
      (λ _. v)

pub update-Inv :
    (w : World) (answers : List Answer) (r : Recorder) → Inv r → Inv (update w answers r)
unfolding update
update-Inv w answers r v =
    run_tick-Inv w _ (run_meter-Inv w _ (take_withdrawal-Inv w _ (take_answers-Inv w answers r v)))
