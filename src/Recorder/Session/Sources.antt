-- ===== src/Recorder/Session/Sources.antt =====
-- src/recorder/private/session.cpp: the audio sources of a start, and the encoder's only start.
use klip.Base.{
  ℕ, ◌+◌, ◌≡◌, ◌⊎◌, refl, inl, inr, Bool, true, false, Bytes, Option, none, some, if◌then◌else◌, ap,
  ◌∙◌, if-cases, arith,
}
use klip.Recorder.Settings.{AudioSource, PerSource, system, microphone, get, put, both}
use klip.Recorder.State.{Request}
use klip.Recorder.Session.{
  Session, Parts, Grant, device_of, is_named, open_source, open_second, open_audio, open_stream,
  continue, give_up_audio,
}

-- The number that a source has among those that are opened, in the order system, microphone.
abbrev pub expected_source : Request → AudioSource → Option ℕ
expected_source q system = if is_named q.system_audio then some 0 else none
expected_source q microphone =
    if is_named q.microphone then some (if is_named q.system_audio then 1 else 0) else none

abbrev pub as_number : Bool → ℕ
as_number false = 0
as_number true = 1

-- Each source that was asked for is open, with a number of its own below the number of sources.
pub record AllOpen (q : Request) (s : Session) : Type 0 where
  pub count :
      s.num_audio_sources ≡ as_number (is_named q.system_audio) + as_number (is_named q.microphone)
  pub numbered : (source : AudioSource) → get s.audio_source source ≡ expected_source q source
  pub all : (source : AudioSource) → get s.audio_open source ≡ is_named (device_of q source)

-- No source is open.
abbrev pub NoneOpen : Session → Type 0
NoneOpen s = (source : AudioSource) → get s.audio_open source ≡ false

-- A device that was asked for did not open, and the failure names it.
pub record FailedOn (p : Parts) (q : Request) (failure : Bytes) : Type 0 where
  pub source : AudioSource
  pub named : is_named (device_of q source) ≡ true
  pub refused : p.opens_audio source (device_of q source) ≡ false
  pub told : failure ≡ (device_of q source).description

abbrev Opened : Parts → Session → Session × Bool → Type 0
Opened p s (after, opened) =
    ((opened ≡ true) × AllOpen s.request after × (after.start_failure ≡ s.start_failure))
    ⊎ ((opened ≡ false) × NoneOpen after × FailedOn p s.request after.start_failure)

AllOpen-from :
    (q : Request) (s : Session) (a b : Bool)
    → is_named q.system_audio ≡ a
    → is_named q.microphone ≡ b
    → s.num_audio_sources ≡ as_number a + as_number b
    → s.audio_source ≡ record {
      of_system = if a then some 0 else none;
      of_microphone = if b then some (if a then 1 else 0) else none;
    }
    → s.audio_open ≡ record { of_system = a; of_microphone = b }
    → AllOpen q s
AllOpen-from q s a b e f count numbered all = record {
  count = rw (e, f) count;
  numbered = numbers;
  all = opens;
}
  where
    numbers : (source : AudioSource) → get s.audio_source source ≡ expected_source q source
    numbers system = rw (numbered, e) refl
    numbers microphone = rw (numbered, e, f) refl

    opens : (source : AudioSource) → get s.audio_open source ≡ is_named (device_of q source)
    opens system = rw (all, e) refl
    opens microphone = rw (all, f) refl

pub none_open : (s : Session) → NoneOpen (give_up_audio s)
none_open s system = refl
none_open s microphone = refl

as_number_if : (a : Bool) → as_number a ≡ (if a then 1 else 0)
as_number_if true = refl
as_number_if false = refl

all_closed :
    (o : PerSource Bool)
    → o.of_system ≡ false
    → o.of_microphone ≡ false
    → o ≡ record { of_system = false; of_microphone = false }
all_closed o e f =
    ap (λ (x : Bool). record { of_system = x; of_microphone = o.of_microphone }) e
    ∙ ap (λ (x : Bool). record { of_system = false; of_microphone = x }) f

-- The microphone's block, after the system's opened what it had to.
open_second-Opened :
    (p : Parts) (first : Session) (a : Bool)
    → is_named first.request.system_audio ≡ a
    → first.num_audio_sources ≡ as_number a
    → first.audio_source ≡ record { of_system = if a then some 0 else none; of_microphone = none }
    → first.audio_open ≡ record { of_system = a; of_microphone = false }
    → Opened p first (open_second p first)
unfolding open_second open_source
open_second-Opened p first a e count numbered all =
    let last : Session × Bool → Session × Bool =
      λ o. if o.1 then (o.0, true) else (give_up_audio o.0, false) in
    if-cases (λ (o : Session × Bool). Opened p first (last o)) (is_named first.request.microphone)
      (λ n.
        if-cases (λ (o : Session × Bool). Opened p first (last o))
          (p.opens_audio microphone first.request.microphone)
          (λ o. inl (
            refl,
            AllOpen-from first.request _ a true e n (ap (λ k. k + 1) count)
                (ap (λ (x : PerSource (Option ℕ)). put x microphone (some first.num_audio_sources))
                    numbered
                  ∙ ap
                      (λ (k : ℕ). record {
                        of_system = if a then some 0 else none;
                        of_microphone = some k;
                      })
                      (count ∙ as_number_if a))
                (ap (λ (x : PerSource Bool). put x microphone true) all),
            refl,
          ))
          (λ c. inr (
            refl,
            none_open (record first { start_failure = first.request.microphone.description }),
            record { source = microphone; named = n; refused = c; told = refl },
          )))
      (λ n. inl (
        refl,
        AllOpen-from first.request _ a false e n (rw count (omega arith)) numbered all,
        refl,
      ))

open_audio-Opened : (p : Parts) (s : Session) → NoneOpen s → Opened p s (open_audio p s)
unfolding open_audio open_source
open_audio-Opened p s closed =
    let begun = record s { num_audio_sources = 0; audio_source = both none } in
    let next : Session × Bool → Session × Bool =
      λ o. if o.1 then open_second p o.0 else (give_up_audio o.0, false) in
    let none_yet : s.audio_open ≡ both false =
      all_closed s.audio_open (closed system) (closed microphone) in
    if-cases (λ (o : Session × Bool). Opened p s (next o)) (is_named s.request.system_audio)
      (λ n.
        if-cases (λ (o : Session × Bool). Opened p s (next o))
          (p.opens_audio system s.request.system_audio)
          (λ o.
            open_second-Opened p _ true n refl refl
              (ap (λ (x : PerSource Bool). put x system true) none_yet))
          (λ c. inr (
            refl,
            none_open (record begun { start_failure = s.request.system_audio.description }),
            record { source = system; named = n; refused = c; told = refl },
          )))
      (λ n. open_second-Opened p begun false n refl refl none_yet)

-- What a start comes to, with the failure that its session tells.
abbrev pub Continued : Parts → Grant → Session → Session × Bool → Type 0
Continued p grant s (after, started) =
    ((started ≡ true)
      × (grant.is_success ≡ true)
      × (after.stream_open ≡ true)
      × AllOpen s.request after
      × (after.start_failure ≡ s.start_failure))
    ⊎ ((started ≡ false)
        × NoneOpen after
        × (after.stream_open ≡ s.stream_open)
        × ((after.start_failure ≡ s.start_failure) ⊎ FailedOn p s.request after.start_failure))

open_stream-Continued :
    (p : Parts) (grant : Grant) (s : Session) (o : Session × Bool)
    → grant.is_success ≡ true
    → o.0.stream_open ≡ s.stream_open
    → Opened p s o
    → Continued p grant s (if o.1 then open_stream p o.0 else (give_up_audio o.0, false))
unfolding open_stream
open_stream-Continued p grant s (after, true) g stream (inl (_, open_sources, told)) =
    if-cases (Continued p grant s) p.opens_stream
      (λ o. inl (
        refl,
        g,
        refl,
        record {
          count = open_sources.count;
          numbered = open_sources.numbered;
          all = open_sources.all;
        },
        told,
      ))
      (λ c. inr (refl, none_open after, stream, inl told))
open_stream-Continued p grant s (after, true) g stream (inr (e, _, _)) = absurd (cc e)
open_stream-Continued p grant s (after, false) g stream (inl (e, _, _)) = absurd (cc e)
open_stream-Continued p grant s (after, false) g stream (inr (_, closed, failed)) =
    inr (refl, none_open after, stream, inr failed)

open_audio-stream_open : (p : Parts) (s : Session) → (open_audio p s).0.stream_open ≡ s.stream_open
unfolding open_audio open_second open_source
open_audio-stream_open p s = ground arith

-- When the portal has answered, either all that the request names is open -- the stream, and each
-- audio device, numbered in order from 0 -- and the start is reported; or the start is refused and
-- no audio device is open. A failure is told only of a device that was asked for and did not open.
pub continue-Continued :
    (p : Parts) (grant : Grant) (s : Session)
    → NoneOpen s
    → Continued p grant s (continue p grant s)
unfolding continue
continue-Continued p grant s closed =
    let answered = record s { restore_token = grant.restore_token } in
    if-cases (Continued p grant s) grant.is_success
      (λ g.
        open_stream-Continued p grant answered (open_audio p answered) g
          (open_audio-stream_open p answered) (open_audio-Opened p answered closed))
      (λ refused. inr (refl, closed, refl, inl refl))
