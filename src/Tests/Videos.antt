-- ===== src/Tests/Videos.antt =====
-- The tracks of src/encode on a few frames, packets and sources.
use klip.Base.{◌+◌, ℕ, ◌/◌, ◌<◌, ◌≡◌, refl, arith, true, List, [], ◌∷◌, ◌++◌, none}
use klip.Encode.Audio.{Source, Audio, finish_audio, before_tail, first_fifo, longest_of}
use klip.Encode.Audio.Tail.{Level, finish_audio-Level}
use klip.Encode.Video.{Video, Sent, send_all, hold_all, write_held_packet}
use klip.Encode.Video.Times.{
  Ascending, Joined, starts, send_all-Ascending, write_held_packet-Joined,
}

abbrev video : Video
video = record {
  first_timestamp_ns = 1_000_000;
  has_first_timestamp = true;
  next_pts = 16_667;
  num_frames_encoded = 1;
  sent = 0 ∷ [];
}

-- The second of two frames with one timestamp.
abbrev frames : List Sent
frames =
    record { timestamp_ns = 21_000_000; accepted = true; drained = true }
    ∷ record { timestamp_ns = 21_000_000; accepted = true; drained = true }
    ∷ []

times_advance :
    (times : List ℕ) × ((send_all video frames).sent ≡ video.sent ++ times) × Ascending 0 times
times_advance = send_all-Ascending video frames 0 refl (omega arith)

-- Milliseconds.
abbrev rescale : ℕ → ℕ
rescale microseconds = microseconds / 1000

video_track :
    Joined 0
      (write_held_packet rescale video 90_000_000
        (hold_all (record { held = none; written = [] }) (0 ∷ 20 ∷ 40 ∷ []))).written
      89
    × (starts
          (write_held_packet rescale video 90_000_000
            (hold_all (record { held = none; written = [] }) (0 ∷ 20 ∷ 40 ∷ []))).written
        ≡ 0 ∷ 20 ∷ 40 ∷ [])
    × ((write_held_packet rescale video 90_000_000
          (hold_all (record { held = none; written = [] }) (0 ∷ 20 ∷ 40 ∷ []))).held
        ≡ none)
video_track =
    write_held_packet-Joined rescale video 90_000_000 0 (20 ∷ 40 ∷ []) (omega arith)
      (omega arith, (omega arith, tt))

-- The microphone stands four samples behind.
abbrev system_sound : Source
system_sound = record { fifo = 11; num_samples = 11; num_silent = 0 }

abbrev voice : Source
voice = record { fifo = 7; num_samples = 7; num_silent = 0 }

abbrev sound : Audio
sound = record { sources = system_sound ∷ voice ∷ []; num_audio_samples = 20 }

finish_audio-Level_example :
    Level 0 (finish_audio true true 4 sound).sources
    × ((finish_audio true true 4 sound).num_audio_samples
        ≡ 20 + longest_of (system_sound ∷ voice ∷ []))
    × (first_fifo (before_tail true true 4 sound).sources < 4)
finish_audio-Level_example = finish_audio-Level 4 20 system_sound (voice ∷ []) (omega arith)
