-- ===== src/Encode/Audio.antt =====
-- src/encode/private/encoder.cpp: the sound's sources, each a fifo of samples, and the mix that
-- takes the same number from all. A fifo is its number of samples. Whether the fifos take what is
-- written and the encoder takes a frame are arguments.
pub mod Submit
pub mod Tail
use klip.Base.{
  ℕ, zero, suc, ◌+◌, ◌-◌, Bool, true, false, ◌&&◌, List, [], ◌∷◌, map, ltb, leb, if◌then◌else◌,
}

-- SAudioSource.
pub record Source : Type 0 where
  pub fifo : ℕ
  pub num_samples : ℕ
  pub num_silent : ℕ

pub record Audio : Type 0 where
  pub sources : List Source
  pub num_audio_samples : ℕ

abbrev pub larger_of : ℕ → ℕ → ℕ
larger_of a b = if ltb a b then b else a

-- The first loop of `LevelSources`.
abbrev pub longest_of : List Source → ℕ
longest_of [] = 0
longest_of (s ∷ sources) = larger_of s.fifo (longest_of sources)

-- The body of the second loop, with `FillSilence`; the tolerance is a number of samples.
unfoldable pub level_source : Bool → ℕ → ℕ → Source → Source
level_source writes tolerance longest s =
    let behind = longest - s.fifo in
    if ltb tolerance behind
    then record {
      fifo = if writes then s.fifo + behind else s.fifo;
      num_samples = s.num_samples + behind;
      num_silent = s.num_silent + behind;
    }
    else s

abbrev pub level_all : Bool → ℕ → ℕ → List Source → List Source
level_all writes tolerance longest [] = []
level_all writes tolerance longest (s ∷ sources) =
    level_source writes tolerance longest s ∷ level_all writes tolerance longest sources

unfoldable pub level_sources : Bool → ℕ → Audio → Audio
level_sources writes tolerance a = record a {
  sources = level_all writes tolerance (longest_of a.sources) a.sources;
}

-- `av_audio_fifo_read`, which reads what there is.
abbrev pub read_all : ℕ → List Source → List Source
read_all n [] = []
read_all n (s ∷ sources) = record s { fifo = s.fifo - n } ∷ read_all n sources

unfoldable pub encode_mixed_frame : Bool → ℕ → Audio → Audio
encode_mixed_frame encodes n a = record {
  sources = read_all n a.sources;
  num_audio_samples = if encodes then a.num_audio_samples + n else a.num_audio_samples;
}

abbrev pub all_ready : ℕ → List Source → Bool
all_ready frame_size [] = true
all_ready frame_size (s ∷ sources) = leb frame_size s.fifo && all_ready frame_size sources

-- The loop of `EncodeAudioFrames`; the fuel bounds its rounds.
unfoldable pub encode_audio_frames : Bool → ℕ → ℕ → Audio → Audio
encode_audio_frames encodes frame_size zero a = a
encode_audio_frames encodes frame_size (suc fuel) a =
    let next = encode_mixed_frame encodes frame_size a in
    let rest = encode_audio_frames encodes frame_size fuel next in
    if all_ready frame_size a.sources then if encodes then rest else next else a

abbrev pub first_fifo : List Source → ℕ
first_fifo [] = 0
first_fifo (s ∷ sources) = s.fifo

-- `FinishAudio` before its last frame; a round takes samples off each fifo, so their number is fuel
-- enough.
unfoldable pub before_tail : Bool → Bool → ℕ → Audio → Audio
before_tail writes encodes frame_size a =
    encode_audio_frames encodes frame_size (longest_of a.sources) (level_sources writes 0 a)

unfoldable pub finish_audio : Bool → Bool → ℕ → Audio → Audio
finish_audio writes encodes frame_size a =
    let levelled = before_tail writes encodes frame_size a in
    let remaining = first_fifo levelled.sources in
    if ltb 0 remaining then encode_mixed_frame encodes remaining levelled else levelled
