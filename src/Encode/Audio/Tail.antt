-- ===== src/Encode/Audio/Tail.antt =====
-- src/encode/private/encoder.cpp: how `FinishAudio` leaves the fifos.
use klip.Base.{
  ℕ, zero, suc, ◌+◌, ◌-◌, ◌<◌, ◌≤◌, ◌≡◌, refl, Bool, true, false, List, [], ◌∷◌, All, arith, ltb,
  leb, ◌&&◌, if-cases, Bool-cases, inl, inr, ap, subst, ◌∙◌,
}
use klip.Encode.Audio.{
  Source, Audio, longest_of, level_source, level_all, level_sources, read_all, encode_mixed_frame,
  all_ready, encode_audio_frames, first_fifo, before_tail, finish_audio,
}

-- Every fifo holds that many samples.
abbrev pub Level : ℕ → List Source → Type 0
Level n sources = All (λ (s : Source). s.fifo ≡ n) sources

level_source-fifo :
    (longest : ℕ) (s : Source) → s.fifo ≤ longest → (level_source true 0 longest s).fifo ≡ longest
unfolding level_source
level_source-fifo longest s h = ground arith

level_all-Level :
    (longest : ℕ) (sources : List Source)
    → longest_of sources ≤ longest
    → Level longest (level_all true 0 longest sources)
level_all-Level longest [] h = tt
level_all-Level longest (s ∷ sources) h =
    (level_source-fifo longest s (ground arith), level_all-Level longest sources (ground arith))

read_all-Level :
    (n m : ℕ) (sources : List Source) → Level m sources → Level (m - n) (read_all n sources)
read_all-Level n m [] h = tt
read_all-Level n m (s ∷ sources) (e, h) = (ap (λ k. k - n) e, read_all-Level n m sources h)

and_true : (b : Bool) → (b && true) ≡ b
and_true true = refl
and_true false = refl

and_same : (b : Bool) → (b && b) ≡ b
and_same true = refl
and_same false = refl

all_ready-Level :
    (frame_size m : ℕ) (s : Source) (sources : List Source)
    → Level m (s ∷ sources)
    → all_ready frame_size (s ∷ sources) ≡ leb frame_size m
all_ready-Level frame_size m s [] (e, h) =
    ap (λ k. leb frame_size k && true) e ∙ and_true (leb frame_size m)
all_ready-Level frame_size m s (t ∷ sources) (e, h) =
    ap (λ k. leb frame_size k && all_ready frame_size (t ∷ sources)) e
    ∙ ap (λ b. leb frame_size m && b) (all_ready-Level frame_size m t sources h)
    ∙ and_same (leb frame_size m)

-- Fewer samples than a frame are left in each fifo, and the rest have been mixed.
record Mixed (frame_size before m : ℕ) (a : Audio) : Type 0 where
  left : ℕ
  few : left < frame_size
  level : Level left a.sources
  first : first_fifo a.sources ≡ left
  mixed : a.num_audio_samples + left ≡ before + m

next-Mixed :
    (frame_size before m : ℕ) (a : Audio)
    → frame_size ≤ m
    → Mixed frame_size (before + frame_size) (m - frame_size) a
    → Mixed frame_size before m a
next-Mixed frame_size before m a h x = record {
  left = x.left;
  few = x.few;
  level = x.level;
  first = x.first;
  mixed = let e = x.mixed in omega arith;
}

encode_audio_frames-Mixed :
    (frame_size fuel m before : ℕ) (s : Source) (sources : List Source)
    → 0 < frame_size
    → m ≤ fuel
    → Level m (s ∷ sources)
    → Mixed frame_size before m (
        encode_audio_frames true frame_size fuel
          (record { sources = s ∷ sources; num_audio_samples = before }))
unfolding encode_audio_frames encode_mixed_frame
encode_audio_frames-Mixed frame_size zero m before s sources p f h = record {
  left = m;
  few = omega arith;
  level = h;
  first = h.0;
  mixed = refl;
}
encode_audio_frames-Mixed frame_size (suc fuel) m before s sources p f h =
    elim (Bool-cases (leb frame_size m)) [
      | inl ready ↦
          rw (all_ready-Level frame_size m s sources h, ready)
            (next-Mixed frame_size before m _ (ground arith) (
              encode_audio_frames-Mixed frame_size fuel (m - frame_size) (before + frame_size)
                (record s { fifo = s.fifo - frame_size }) (read_all frame_size sources) p
                (omega arith) (read_all-Level frame_size m (s ∷ sources) h)))
      | inr few ↦
          rw (all_ready-Level frame_size m s sources h, few)
            (record { left = m; few = ground arith; level = h; first = h.0; mixed = refl })
    ]

before_tail-Mixed :
    (frame_size before : ℕ) (s : Source) (sources : List Source)
    → 0 < frame_size
    → let a : Audio = record { sources = s ∷ sources; num_audio_samples = before } in
      Mixed frame_size before (longest_of (s ∷ sources)) (before_tail true true frame_size a)
unfolding before_tail level_sources
before_tail-Mixed frame_size before s sources p =
    let longest = longest_of (s ∷ sources) in
    encode_audio_frames-Mixed frame_size longest longest before (level_source true 0 longest s)
      (level_all true 0 longest sources) p (omega arith)
      (level_all-Level longest (s ∷ sources) (omega arith))

-- At `Stop`, where the fifos take the silence and the encoder takes every frame, the sources are
-- levelled and mixed to their end: every fifo is empty, the track is as long as its longest source,
-- and the last frame, which alone is short, is not longer than the codec's.
pub finish_audio-Level :
    (frame_size before : ℕ) (s : Source) (sources : List Source)
    → 0 < frame_size
    → let a : Audio = record { sources = s ∷ sources; num_audio_samples = before } in
      let after = finish_audio true true frame_size a in
      Level 0 after.sources
      × (after.num_audio_samples ≡ before + longest_of (s ∷ sources))
      × (first_fifo (before_tail true true frame_size a).sources < frame_size)
unfolding finish_audio encode_mixed_frame
finish_audio-Level frame_size before s sources p =
    let a : Audio = record { sources = s ∷ sources; num_audio_samples = before } in
    let levelled = before_tail true true frame_size a in
    let x = before_tail-Mixed frame_size before s sources p in
    let remaining = first_fifo levelled.sources in
    let same = x.first in
    let long = x.mixed in
    let few = x.few in
    let short : remaining < frame_size = omega arith in
    let (empty, length) =
      if-cases
        (λ (o : Audio).
          Level 0 o.sources × (o.num_audio_samples ≡ before + longest_of (s ∷ sources)))
        (ltb 0 remaining)
        (λ _. (
          subst (λ n. Level n (read_all remaining levelled.sources)) (omega arith)
              (read_all-Level remaining x.left levelled.sources x.level),
          omega arith,
        ))
        (λ none_left.
          (subst (λ n. Level n levelled.sources) (ground arith) x.level, ground arith)) in
    (empty, length, short)
