-- ===== src/Encode/Audio/Submit.antt =====
-- src/encode/private/encoder.cpp: `SubmitAudio`, which places the samples of a buffer behind those
-- that its source has. The times are reckoned in 64 bits, as the source does.
pub mod Sync
use klip.Base.{
  ℕ, zero, suc, ◌+◌, ◌-◌, ◌*◌, ◌/◌, ◌%◌, ◌^◌, Bool, true, false, not, ◌&&◌, ◌||◌, Option, none,
  some, List, [], ◌∷◌, length, ltb, leb, if◌then◌else◌,
}
use klip.Encode.Audio.{
  Source, Audio, larger_of, longest_of, level_sources, all_ready, encode_audio_frames,
}

abbrev pub second : ℕ
second = 1_000_000_000

abbrev pub gap_threshold : ℕ
gap_threshold = 100_000_000

abbrev pub stall_tolerance : ℕ
stall_tolerance = 1_000_000_000

-- SAudioBuffer; of the planes, whether the first is there.
pub record AudioBuffer : Type 0 where
  pub has_plane : Bool
  pub num_frames : ℕ
  pub timestamp : ℕ

abbrev pub samples_in : ℕ → ℕ → ℕ
samples_in rate nanoseconds = (nanoseconds * rate) % 2 ^ 64 / second

abbrev pub duration_of : ℕ → ℕ → ℕ
duration_of rate samples = (samples * second) % 2 ^ 64 / rate

-- `FillSilence` and the numbers of `WriteSilence`.
unfoldable pub write_silence : Bool → ℕ → Source → Source
write_silence writes n s = record {
  fifo = if writes then s.fifo + n else s.fifo;
  num_samples = s.num_samples + n;
  num_silent = s.num_silent + n;
}

abbrev pub smaller_of : ℕ → ℕ → ℕ
smaller_of a b = if ltb b a then b else a

-- The frames before the epoch.
unfoldable pub skipped_frames : ℕ → ℕ → AudioBuffer → ℕ
skipped_frames rate epoch b =
    if ltb b.timestamp epoch
    then smaller_of (samples_in rate (epoch - b.timestamp) % 2 ^ 32) b.num_frames
    else 0

-- A drift below zero is none: both stay below the threshold.
unfoldable pub fill_gap : Bool → ℕ → ℕ → Source → Source
unfolding write_silence
fill_gap writes rate elapsed s =
    let drift = elapsed - duration_of rate s.num_samples in
    if ltb gap_threshold drift then write_silence writes (samples_in rate drift) s else s

unfoldable pub append_frames : Bool → Bool → ℕ → Source → Source
append_frames writes has_plane n s =
    if ltb 0 n && has_plane
    then record s { fifo = if writes then s.fifo + n else s.fifo; num_samples = s.num_samples + n }
    else s

abbrev pub elapsed_of : ℕ → AudioBuffer → ℕ
elapsed_of epoch b = larger_of b.timestamp epoch - epoch

unfoldable pub take_buffer : Bool → ℕ → ℕ → AudioBuffer → Source → Source
unfolding fill_gap append_frames
take_buffer writes rate epoch b s =
    append_frames writes b.has_plane (b.num_frames - skipped_frames rate epoch b)
      (fill_gap writes rate (elapsed_of epoch b) s)

abbrev pub modify_source : ℕ → (Source → Source) → List Source → List Source
modify_source n f [] = []
modify_source zero f (s ∷ sources) = f s ∷ sources
modify_source (suc n) f (s ∷ sources) = s ∷ modify_source n f sources

-- What `EncodeAudioFrames` returns.
abbrev pub frames_encoded : Bool → ℕ → Audio → Bool
frames_encoded encodes frame_size a = if all_ready frame_size a.sources then encodes else true

abbrev pub after_levels : Bool → ℕ → Audio → Audio × Bool
after_levels encodes frame_size a = (
  encode_audio_frames encodes frame_size (longest_of a.sources) a,
  frames_encoded encodes frame_size a,
)

-- Whether the file has sound, the first timestamp, and the answers of the fifos and the encoder.
pub record Sound : Type 0 where
  pub is_open : Bool
  pub epoch : Option ℕ
  pub rate : ℕ
  pub frame_size : ℕ
  pub writes : Bool
  pub encodes : Bool

unfoldable pub place_buffer : Sound → ℕ → ℕ → AudioBuffer → Audio → Audio × Bool
unfolding take_buffer
place_buffer x epoch index b a =
    if leb ((b.timestamp + duration_of x.rate b.num_frames) % 2 ^ 64) epoch
    then (a, true)
    else after_levels x.encodes x.frame_size (
        level_sources x.writes (stall_tolerance * x.rate / second) (record a {
          sources = modify_source index (take_buffer x.writes x.rate epoch b) a.sources;
        }))

abbrev pub since_epoch : Option ℕ → (ℕ → Audio × Bool) → Audio → Audio × Bool
since_epoch none f a = (a, false)
since_epoch (some epoch) f a = f epoch

-- `SubmitAudio`: the sources after it, and what it returns.
unfoldable pub submit_audio : Sound → ℕ → AudioBuffer → Audio → Audio × Bool
unfolding place_buffer
submit_audio x index b a =
    if x.is_open && ltb index (length a.sources) && ltb 0 b.num_frames
    then since_epoch x.epoch (λ epoch. place_buffer x epoch index b a) a
    else (a, false)
