-- ===== src/Recorder/Grants.antt =====
-- src/recorder/private/recorder.cpp: the restore tokens that a start sends and its answer leaves.
use klip.Base.{
  ◌≡◌, refl, Bool, true, false, List, [], ◌∷◌, ◌++◌, Bytes, is_empty, not, equal, equal_iff, ◌&&◌,
  if◌then◌else◌, if-cases, sym, ◌∙◌, ap,
}
use klip.Capture.{SourceType, keeps_grant}
use klip.Recorder.State.{Recorder, World, Request, Pending, session_start}
use klip.Recorder.Monitoring.Frame.{refresh_monitoring-Keeps}
use klip.Recorder.Recording.{
  request_capture, source_type, get_token, put_token, make_request, Answer, on_started, keep_token,
  start_succeeded, start_failed, show_idle_state,
}
use klip.Recorder.Update.{take_answer}

abbrev pub other_source : SourceType → SourceType
other_source SourceType.screen = SourceType.window
other_source SourceType.window = SourceType.screen

-- The source that the settings record, and whether its grant is kept.
abbrev pub asked_source : Recorder → SourceType
asked_source r = source_type r.settings.source

abbrev pub is_kept : Recorder → Bool
is_kept r = keeps_grant (asked_source r) r.settings.remember_window

abbrev pub token_of : SourceType → Recorder → Bytes
token_of s r = get_token s r.settings

-- The token of the source is as given, and nothing else that a start sends has changed.
abbrev pub HasToken : SourceType → Bytes → Recorder → Recorder → Type 0
HasToken s token r after =
    (token_of s after ≡ token)
    × (token_of (other_source s) after ≡ token_of (other_source s) r)
    × (after.calls ≡ r.calls)
    × (after.pending ≡ r.pending)

put_token-HasToken : (s : SourceType) (t : Bytes) (r : Recorder) → HasToken s t r (put_token s t r)
unfolding put_token
put_token-HasToken SourceType.screen t r = (refl, refl, refl, refl)
put_token-HasToken SourceType.window t r = (refl, refl, refl, refl)

pub forget-HasToken :
    (b : Bool) (s : SourceType) (r : Recorder)
    → HasToken s (if b then token_of s r else []) r (if b then r else put_token s [] r)
forget-HasToken true s r = (refl, refl, refl, refl)
forget-HasToken false s r = put_token-HasToken s [] r

-- What a start sends: one request, for the source chosen, with the token stored for it where its
-- grant is kept and none where it is not. A token not kept is forgotten; the other source's stays.
pub request_capture-tokens :
    (r : Recorder)
    → (q : Request) × ((request_capture r).calls ≡ r.calls ++ session_start q ∷ [])
      × (q.source ≡ asked_source r)
      × (q.restore_token ≡ (if is_kept r then token_of (asked_source r) r else []))
      × (token_of (asked_source r) (request_capture r) ≡ q.restore_token)
      × (token_of (other_source (asked_source r)) (request_capture r)
          ≡ token_of (other_source (asked_source r)) r)
unfolding request_capture make_request
request_capture-tokens r =
    let s = asked_source r in
    let (sent, other, same, _) = forget-HasToken (is_kept r) s r in
    let kept = if is_kept r then r else put_token s [] r in
    (make_request kept s (token_of s kept), rw same, refl, sent, refl, other)

-- The token that an answer leaves for the source it is about.
abbrev answered_token : Answer → Bool → Bytes → Bytes
answered_token a keeps sent = if keeps && not (is_empty a.token) then a.token else sent

written-HasToken :
    (keeps empty same : Bool) (s : SourceType) (t sent : Bytes) (r : Recorder)
    → token_of s r ≡ sent
    → (same ≡ true → t ≡ sent)
    → HasToken s
        (if keeps && not empty then t else sent)
        r
        (if keeps && not empty && not same then put_token s t r else r)
written-HasToken true false true s t sent r h e = (h ∙ sym (e refl), refl, refl, refl)
written-HasToken true false false s t sent r h e = put_token-HasToken s t r
written-HasToken true true same s t sent r h e = (h, refl, refl, refl)
written-HasToken false empty same s t sent r h e = (h, refl, refl, refl)

keep_token-HasToken :
    (a : Answer) (p : Pending) (r : Recorder)
    → token_of p.source r ≡ p.sent
    → HasToken p.source (answered_token a p.keeps p.sent) r (keep_token a p r)
unfolding keep_token
keep_token-HasToken a p r h =
    written-HasToken p.keeps (is_empty a.token) (equal a.token p.sent) p.source a.token p.sent r h
      (equal_iff a.token p.sent).0

on_started_settings :
    (w : World) (a : Answer) (p : Pending) (r : Recorder)
    → (on_started w a p r).settings ≡ (keep_token a p r).settings
unfolding on_started start_succeeded start_failed show_idle_state
on_started_settings w a p r =
    if-cases (λ (s : Recorder). s.settings ≡ (keep_token a p r).settings) a.started
      (λ _. (refresh_monitoring-Keeps w _).settings) (λ _. refl)

answered_settings :
    (w : World) (a : Answer) (p : Pending) (ps : List Pending) (r : Recorder)
    → ps ≡ p ∷ []
    → (take_answer w a ps r).settings ≡ (keep_token a p (record r { pending = [] })).settings
unfolding take_answer
answered_settings w a p ps r e = rw e (on_started_settings w a p (record r { pending = [] }))

kept_answer :
    (keeps empty : Bool) (t old : Bytes)
    → (if keeps && not empty then t else (if keeps then old else []))
      ≡ (if keeps then if empty then old else t else [])
kept_answer true true t old = refl
kept_answer true false t old = refl
kept_answer false empty t old = refl

-- A start and its answer: the token granted for the source asked for is the one stored from then
-- on, if its grant is kept; an empty token leaves the one sent. Where the grant is not kept no
-- token is stored for it, whatever the answer holds. The other source's token stays in any case.
pub take_answer-token_of :
    (w : World) (a : Answer) (r : Recorder)
    → r.pending ≡ []
    → let asked = request_capture r in
      let after = take_answer w a asked.pending asked in
      let s = asked_source r in
      (token_of s after
        ≡ (if is_kept r then if is_empty a.token then token_of s r else a.token else []))
      × (token_of (other_source s) after ≡ token_of (other_source s) r)
unfolding request_capture
take_answer-token_of w a r e =
    let s = asked_source r in
    let keeps = is_kept r in
    let kept = if keeps then r else put_token s [] r in
    let p : Pending = record { keeps = keeps; source = s; sent = token_of s kept } in
    let asked = request_capture r in
    let (sent, other, _, waits) = forget-HasToken keeps s r in
    let (token, rest, _, _) = keep_token-HasToken a p (record asked { pending = [] }) refl in
    let same = answered_settings w a p asked.pending asked (ap (λ ps. ps ++ p ∷ []) (waits ∙ e)) in
    (
      ap (get_token s) same
          ∙ token
          ∙ ap (λ t. if keeps && not (is_empty a.token) then a.token else t) sent
          ∙ kept_answer keeps (is_empty a.token) a.token (token_of s r),
      ap (get_token (other_source s)) same ∙ rest ∙ other,
    )
