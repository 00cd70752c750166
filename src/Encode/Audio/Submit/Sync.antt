-- ===== src/Encode/Audio/Submit/Sync.antt =====
-- src/encode/private/encoder.cpp: the sound stays in step with the time.
use native.Mathlib.Nat.{add-mul, div-mul-le_self, lt-div-mul-add, mul-le-mul_right}
use klip.Base.{
  ℕ, ◌+◌, ◌-◌, ◌*◌, ◌%◌, ◌^◌, ◌≤◌, ◌<◌, ◌≡◌, ◌⊎◌, inl, inr, refl, ◌∙◌, ap, arith, Bool, true, ltb,
  ltb→lt, Bool-cases,
}
use klip.Encode.Audio.{Source}
use klip.Encode.Audio.Submit.{
  second, gap_threshold, AudioBuffer, samples_in, duration_of, write_silence, skipped_frames,
  fill_gap, append_frames, elapsed_of, take_buffer,
}

small_mod : (n : ℕ) → n < 2 ^ 64 → n % 2 ^ 64 ≡ n
small_mod n h = omega arith

-- Where a sample of the track stands, against the time since the epoch: no more than the threshold
-- and a sample too early, and moved there only to be within a sample of the time.
pub record IsInStep (rate elapsed before placed : ℕ) : Type 0 where
  pub lag : elapsed * rate ≤ (placed + 1) * second + gap_threshold * rate
  pub moved :
      placed ≡ before
      ⊎ (elapsed * rate ≤ (placed + 1) * second) × (placed * second ≤ (elapsed + 1) * rate)

step_moved :
    (rate elapsed before d a q : ℕ)
    → a * rate ≤ before * second
    → before * second < a * rate + rate
    → q * second ≤ d * rate
    → d * rate < q * second + second
    → elapsed ≡ a + d
    → (elapsed * rate ≤ (before + q + 1) * second) × ((before + q) * second ≤ (elapsed + 1) * rate)
step_moved rate elapsed before d a q p p' t t' e =
    let e' : elapsed * rate ≡ a * rate + d * rate = ap (λ n. n * rate) e ∙ add-mul a d rate in
    (omega (arith, e'), omega (arith, e'))

duration_of-bounds :
    (rate n : ℕ)
    → 0 < rate
    → n * second < 2 ^ 64
    → (duration_of rate n * rate ≤ n * second) × (n * second < duration_of rate n * rate + rate)
duration_of-bounds rate n r small =
    rw (small_mod (n * second) small) (div-mul-le_self (n * second) rate, lt-div-mul-add r)

samples_in-bounds :
    (rate d : ℕ)
    → d * rate < 2 ^ 64
    → (samples_in rate d * second ≤ d * rate) × (d * rate < samples_in rate d * second + second)
samples_in-bounds rate d small =
    rw (small_mod (d * rate) small)
      (div-mul-le_self (d * rate) second, lt-div-mul-add (omega arith))

filled-IsInStep :
    (rate elapsed before : ℕ)
    → 0 < rate
    → before * second < 2 ^ 64
    → elapsed * rate < 2 ^ 64
    → gap_threshold < elapsed - duration_of rate before
    → IsInStep rate elapsed before (before + samples_in rate (elapsed - duration_of rate before))
filled-IsInStep rate elapsed before r small early gap =
    let position = duration_of rate before in
    let drift = elapsed - position in
    let le : drift ≤ elapsed = omega arith in
    let (p, p') = duration_of-bounds rate before r small in
    let (t, t') = samples_in-bounds rate drift (omega (arith, mul-le-mul_right rate le, early)) in
    let whole : elapsed ≡ position + drift = omega (arith, gap) in
    let moved =
      step_moved rate elapsed before drift position (samples_in rate drift) p p' t t' whole in
    record { lag = omega (arith, moved.0); moved = inr moved }

kept-IsInStep :
    (rate elapsed before : ℕ)
    → 0 < rate
    → before * second < 2 ^ 64
    → elapsed - duration_of rate before ≤ gap_threshold
    → IsInStep rate elapsed before before
kept-IsInStep rate elapsed before r small near =
    let position = duration_of rate before in
    let (p, p') = duration_of-bounds rate before r small in
    let le : elapsed ≤ position + gap_threshold = omega (arith, near) in
    let scaled = mul-le-mul_right rate le in
    let split = add-mul position gap_threshold rate in
    record { lag = omega (arith, scaled, split, p); moved = inl refl }

fill_gap-IsInStep :
    (rate elapsed : ℕ) (s : Source)
    → 0 < rate
    → s.num_samples * second < 2 ^ 64
    → elapsed * rate < 2 ^ 64
    → IsInStep rate elapsed s.num_samples (fill_gap true rate elapsed s).num_samples
unfolding fill_gap write_silence
fill_gap-IsInStep rate elapsed s r small early =
    let drift : ℕ = elapsed - duration_of rate s.num_samples in
    elim (Bool-cases (ltb gap_threshold drift)) [
      | inl gap ↦ rw gap (
          filled-IsInStep rate elapsed s.num_samples r small early (ltb→lt gap_threshold drift gap))
      | inr near ↦ rw near (kept-IsInStep rate elapsed s.num_samples r small (ground arith))
    ]

fill_gap-fifo :
    (rate elapsed : ℕ) (s : Source)
    → (fill_gap true rate elapsed s).fifo + s.num_samples
      ≡ s.fifo + (fill_gap true rate elapsed s).num_samples
unfolding fill_gap write_silence
fill_gap-fifo rate elapsed s =
    let drift : ℕ = elapsed - duration_of rate s.num_samples in
    elim (Bool-cases (ltb gap_threshold drift)) [
      | inl gap ↦ rw gap (omega arith)
      | inr near ↦ rw near (omega arith)
    ]

append_frames-grown :
    (plane : Bool) (n : ℕ) (s : Source)
    → plane ≡ true
    → ((append_frames true plane n s).num_samples ≡ s.num_samples + n)
      × ((append_frames true plane n s).fifo ≡ s.fifo + n)
unfolding append_frames
append_frames-grown plane n s h = elim (Bool-cases (ltb 0 n)) [
  | inl more ↦ rw (more, h) (refl, refl)
  | inr nothing ↦
      let none_left : n ≡ 0 = ground arith in
      rw nothing (omega (arith, none_left), omega (arith, none_left))
]

-- Where the fifo takes what is written and the recording is short enough for 64 bits, the samples of
-- a buffer from the epoch on are all taken, and placed no more than the threshold and a sample too
-- early; the track is moved only by silence, to within a sample of the buffer's time, and every
-- sample that is counted is put into the fifo.
pub take_buffer-IsInStep :
    (rate epoch : ℕ) (b : AudioBuffer) (s : Source)
    → 0 < rate
    → b.has_plane ≡ true
    → s.num_samples * second < 2 ^ 64
    → elapsed_of epoch b * rate < 2 ^ 64
    → (placed : ℕ) × IsInStep rate (elapsed_of epoch b) s.num_samples placed
      × ((take_buffer true rate epoch b s).num_samples
          ≡ placed + (b.num_frames - skipped_frames rate epoch b))
      × ((take_buffer true rate epoch b s).fifo + s.num_samples
          ≡ s.fifo + (take_buffer true rate epoch b s).num_samples)
unfolding take_buffer
take_buffer-IsInStep rate epoch b s r plane small early =
    let filled = fill_gap true rate (elapsed_of epoch b) s in
    let n = b.num_frames - skipped_frames rate epoch b in
    let (grown, longer) = append_frames-grown b.has_plane n filled plane in
    let same = fill_gap-fifo rate (elapsed_of epoch b) s in
    (
      filled.num_samples,
      fill_gap-IsInStep rate (elapsed_of epoch b) s r small early,
      grown,
      omega (arith, grown, longer, same),
    )
