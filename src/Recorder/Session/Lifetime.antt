-- ===== src/Recorder/Session/Lifetime.antt =====
-- src/recorder/private/session.cpp: the encoder's only start, and the end of a recording.
use klip.Base.{
  ℕ, ◌≤◌, ◌≡◌, refl, Bool, false, List, ◌∷◌, ◌&&◌, ◌||◌, [], if◌then◌else◌, if-cases, arith,
}
use klip.Recorder.State.{Request}
use klip.Recorder.Session.{
  Session, Parts, start_session, ensure_encoder, on_frame, get_stats, stop_session,
}
use klip.Recorder.Session.Sources.{NoneOpen, none_open}

-- The encoder is started at most once a recording, however many frames come: a start that failed is
-- not tried again.
record StartsOnce (s : Session) : Type 0 where
  at_most : s.num_encoder_starts ≡ (if s.encoding || s.start_failed then 1 else 0)
  one : (s.encoding && s.start_failed) ≡ false

on_frame-StartsOnce : (p : Parts) (t : ℕ) (s : Session) → StartsOnce s → StartsOnce (on_frame p t s)
unfolding on_frame ensure_encoder
on_frame-StartsOnce p t s v =
    let a = v.at_most in
    let b = v.one in
    if-cases StartsOnce (ensure_encoder p s).encoding
      (λ h. record { at_most = ground arith; one = ground arith })
      (λ h. record { at_most = ground arith; one = ground arith })

-- `OnFrame` for each frame in turn, with what its parts answer.
abbrev pub on_frames : List (Parts × ℕ) → Session → Session
on_frames [] s = s
on_frames ((p, t) ∷ frames) s = on_frames frames (on_frame p t s)

on_frames-StartsOnce :
    (frames : List (Parts × ℕ)) (s : Session) → StartsOnce s → StartsOnce (on_frames frames s)
on_frames-StartsOnce [] s v = v
on_frames-StartsOnce ((p, t) ∷ frames) s v =
    on_frames-StartsOnce frames (on_frame p t s) (on_frame-StartsOnce p t s v)

StartsOnce-le : (s : Session) → StartsOnce s → s.num_encoder_starts ≤ 1
StartsOnce-le s v = let h = v.at_most in ground arith

-- However many frames come after a start, the encoder is started at most once: a start of it that
-- failed is not tried again.
pub on_frames-start_session :
    (frames : List (Parts × ℕ)) (request : Request) (s : Session)
    → s.encoding ≡ false
    → (on_frames frames (start_session request s)).num_encoder_starts ≤ 1
on_frames-start_session frames request s e =
    StartsOnce-le (on_frames frames (start_session request s)) (
      on_frames-StartsOnce frames (start_session request s)
        (unfold start_session in record { at_most = rw e refl; one = rw e refl }))

-- `Stop` leaves nothing open and no encoder running, reports what the encoder's end answered if one
-- ran, and keeps its last figures for whatever asks later.
pub stop_session-closed :
    (p later : Parts) (s : Session)
    → let after = (stop_session p s).0 in
      NoneOpen after
      × (after.stream_open ≡ false)
      × (after.encoding ≡ false)
      × (get_stats later after ≡ get_stats p s)
      × ((stop_session p s).1 ≡ (s.encoding && p.finishes))
unfolding stop_session get_stats
stop_session-closed p later s =
    if-cases
      (λ (o : Session × Bool).
        NoneOpen o.0
        × (o.0.stream_open ≡ false)
        × (o.0.encoding ≡ false)
        × (get_stats later o.0 ≡ get_stats p s)
        × (o.1 ≡ (s.encoding && p.finishes)))
      s.encoding (λ h. (none_open s, refl, refl, refl, ground arith))
      (λ h. (none_open s, refl, h, ground arith, ground arith))
