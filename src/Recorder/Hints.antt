-- ===== src/Recorder/Hints.antt =====
-- src/recorder/private/recorder.cpp: the two hints under the quality choices.
use klip.Base.{
  ℕ, ◌+◌, ◌/◌, ◌%◌, ◌^◌, Bool, true, false, not, ◌&&◌, ◌||◌, ◌++◌, none, some, codes, decimal, ◌==◌,
  if◌then◌else◌,
}
use klip.Encode.Quality.{get_audio_bits_per_second, estimate_bits_per_second}
use klip.Recorder.Settings.{Source, screen, window, region, system, microphone, no_frame_rate_cap}
use klip.Recorder.State.{Recorder, QualityHint}
use klip.Recorder.Monitoring.{carries_audio, wants_audio}

abbrev fallback_frame_rate : ℕ
fallback_frame_rate = 60

abbrev is_whole_screen : Source → Bool
is_whole_screen screen = true
is_whole_screen window = false
is_whole_screen region = false

unfoldable pub expected_rate : Recorder → ℕ
expected_rate r =
    if not (r.settings.max_frame_rate == no_frame_rate_cap)
    then r.settings.max_frame_rate
    else if not (r.screen.refresh_hz == 0)
    then r.screen.refresh_hz
    else fallback_frame_rate

-- uint64_t arithmetic.
unfoldable pub expected_bits : Recorder → ℕ
expected_bits r =
    let video =
      estimate_bits_per_second r.settings.codec r.settings.quality r.screen.width r.screen.height
        (expected_rate r) in
    if carries_audio r && (wants_audio r system || wants_audio r microphone)
    then (video + get_audio_bits_per_second r.settings.audio_quality) % 2 ^ 64
    else video

unfoldable pub make_quality_hint : Recorder → QualityHint
make_quality_hint r = record {
  bits_per_second = expected_bits r;
  size = if is_whole_screen r.settings.source then some (r.screen.width, r.screen.height) else none;
}

unfoldable pub update_quality_hint : Recorder → Recorder
update_quality_hint r = record r { quality_hint = make_quality_hint r }

unfoldable pub update_audio_quality_hint : Recorder → Recorder
update_audio_quality_hint r = record r {
  audio_quality_hint =
      codes "AAC, "
      ++ (decimal (get_audio_bits_per_second r.settings.audio_quality / 1000)
          ++ codes " kbps stereo");
}
