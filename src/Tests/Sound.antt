-- ===== src/Tests/Sound.antt =====
-- Buffers that `SubmitAudio` of src/encode takes: one that straddles the epoch, and one after a hole;
-- and peaks that a meter of src/recorder shows.
use klip.Base.{ℕ, ◌+◌, ◌-◌, ◌*◌, ◌/◌, ◌==◌, leb, ltb, ◌≡◌, refl, arith, true, [], ◌∷◌, some}
use klip.Recorder.Levels.{Floats, Peak, new_channel, feed_all}
use klip.Recorder.Levels.Latch.{feed_all-clipped}
use klip.Encode.Audio.{Source, Audio, encode_audio_frames, level_sources, level_source}
use klip.Encode.Audio.Submit.{
  AudioBuffer, Sound, skipped_frames, elapsed_of, take_buffer, submit_audio, fill_gap,
}
use klip.Encode.Audio.Submit.Sync.{IsInStep, take_buffer-IsInStep}

abbrev quiet : Source
quiet = record { fifo = 0; num_samples = 0; num_silent = 0 }

abbrev track : Audio
track = record { sources = quiet ∷ []; num_audio_samples = 0 }

-- A file with sound that began at one second.
abbrev open_sound : Sound
open_sound = record {
  is_open = true;
  epoch = some 1_000_000_000;
  rate = 48000;
  frame_size = 1024;
  writes = true;
  encodes = true;
}

-- Ten milliseconds, of which the last half are recorded.
abbrev straddling : AudioBuffer
straddling = record { has_plane = true; num_frames = 480; timestamp = 995_000_000 }

takes_half : submit_audio open_sound 0 straddling track ≡ (
  record {
    sources = record { fifo = 240; num_samples = 240; num_silent = 0 } ∷ [];
    num_audio_samples = 0;
  },
  true,
)
unfolding submit_audio encode_audio_frames level_sources level_source skipped_frames
takes_half = refl

-- Half a second after the first.
abbrev late : AudioBuffer
late = record { has_plane = true; num_frames = 480; timestamp = 1_500_000_000 }

abbrev begun : Source
begun = record { fifo = 240; num_samples = 240; num_silent = 0 }

fills_hole :
    take_buffer true 48000 1_000_000_000 late begun
    ≡ record { fifo = 24480; num_samples = 24480; num_silent = 23760 }
unfolding take_buffer skipped_frames
fills_hole = refl

-- After 106 hours and 45 minutes the product of the samples wraps, and a source that is a millisecond
-- early is taken to be the whole recording late.
abbrev full : Source
full = record { fifo = 0; num_samples = 18_446_784_000; num_silent = 0 }

wraps : (fill_gap true 48000 384_307_999_000_000 full).num_silent ≡ 18_446_744_025
unfolding fill_gap
wraps = refl

take_buffer-IsInStep_example :
    (placed : ℕ) × IsInStep 48000 (elapsed_of 1_000_000_000 late) 240 placed
    × ((take_buffer true 48000 1_000_000_000 late begun).num_samples
        ≡ placed + (480 - skipped_frames 48000 1_000_000_000 late))
    × ((take_buffer true 48000 1_000_000_000 late begun).fifo + 240
        ≡ 240 + (take_buffer true 48000 1_000_000_000 late begun).num_samples)
take_buffer-IsInStep_example =
    take_buffer-IsInStep 48000 1_000_000_000 late begun (omega arith) refl (omega arith)
      (omega arith)

-- Levels in decibels below full, of which a fall takes whole ones off.
abbrev meters : Floats ℕ
meters = record {
  silence = 60;
  is_full = λ level. level == 0;
  at_least = leb;
  less = λ a b. ltb b a;
  fallen = λ level rate time. level + rate * time / 1_000_000_000;
}

abbrev peak_at : ℕ → ℕ → Peak ℕ
peak_at level now = record { peak = level; now = now }

feed_all-clipped_example :
    (feed_all meters
      (peak_at 0 5_000_000_000 ∷ peak_at 9 6_000_000_000 ∷ peak_at 60 8_000_000_000 ∷ [])
      (new_channel meters)).clipped
    ≡ true
feed_all-clipped_example =
    feed_all-clipped meters (peak_at 0 5_000_000_000)
      (peak_at 9 6_000_000_000 ∷ peak_at 60 8_000_000_000 ∷ []) (new_channel meters) refl
      ((omega arith, omega arith), ((omega arith, omega arith), tt))

-- A second after the hold, four silent feeds have lowered it by fifty decibels where one lowers it
-- by twenty: each lowers what the one before left, by all the time since the hold.
four_feeds :
    (feed_all meters
      (peak_at 0 0
        ∷ peak_at 60 1_750_000_000
        ∷ peak_at 60 2_000_000_000
        ∷ peak_at 60 2_250_000_000
        ∷ peak_at 60 2_500_000_000
        ∷ [])
      (new_channel meters)).hold
    ≡ 50
unfolding feed_all
four_feeds = refl

one_feed :
    (feed_all meters (peak_at 0 0 ∷ peak_at 60 2_500_000_000 ∷ []) (new_channel meters)).hold ≡ 20
unfolding feed_all
one_feed = refl
