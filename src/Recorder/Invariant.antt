-- ===== src/Recorder/Invariant.antt =====
-- src/recorder/private/recorder.cpp: what holds of a recorder between two of its calls.
pub mod Parts
pub mod Kept
pub mod Reach
use klip.Base.{◌≡◌, ◌⊎◌, Bool, true, false, not, ◌&&◌, [], ◌∷◌, Option, none, some, Bytes}
use klip.Recorder.State.{
  Recorder, Pending, RecorderState, idle, starting, recording, is_starting, is_recording,
}
use klip.Recorder.Monitoring.{no_monitors}
use klip.Recorder.Steps.{Operation, begin, request, cancel, stop, wake}

abbrev pub is_some {ℓ} : {A : Type ℓ} → Option A → Bool
is_some none = false
is_some (some a) = true

-- At most one start waits for its answer, and only between its request and that answer.
abbrev pub IsAwaited : Recorder → Type 0
IsAwaited r = (r.pending ≡ []) ⊎ ((p : Pending) × (r.pending ≡ p ∷ []) × (r.state ≡ starting))

pub record Inv (r : Recorder) : Type 0 where
  pub ticks : is_some r.tick_deadline ≡ is_recording r.state
  pub quiet : r.state ≡ recording → no_monitors r ≡ true
  pub metered :
      (no_monitors r && not (is_recording r.state)) ≡ false → is_some r.meter_deadline ≡ true
  pub awaited : IsAwaited r

-- When the start flow may make a call that the recorder does not guard by itself.
abbrev pub IsPermitted : Operation → Recorder → Type 0
IsPermitted (begin g) r = (r.state ≡ starting) × (r.pending ≡ [])
IsPermitted request r = (r.state ≡ starting) × (r.pending ≡ [])
IsPermitted cancel r = (r.state ≡ starting) × (r.pending ≡ [])
IsPermitted stop r = r.state ≡ recording
IsPermitted _ r = Unit
