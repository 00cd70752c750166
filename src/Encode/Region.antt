-- ===== src/Encode/Region.antt =====
-- src/encode/private/encoder.cpp: the part of a frame that is encoded. A number has 32 bits.
pub mod Bounds
use klip.Base.{ℕ, ◌+◌, ◌*◌, ◌/◌, ◌%◌, ◌^◌, Bool, ◌||◌, ltb, ◌==◌, if◌then◌else◌}
use klip.Recorder.State.{Region}

-- `value & ~1u`: the lowest bit cleared.
abbrev pub round_down_to_even : ℕ → ℕ
round_down_to_even value = value / 2 * 2

-- The picked region, if it has a size and its ends, in 32 bits, are in the frame.
unfoldable pub bounded_region : Region → ℕ → ℕ → Region
bounded_region region width height =
    if region.width == 0
      || region.height == 0
      || ltb width ((region.x + region.width) % 2 ^ 32)
      || ltb height ((region.y + region.height) % 2 ^ 32)
    then record { x = 0; y = 0; width = width; height = height }
    else region

unfoldable pub resolve_region : Region → ℕ → ℕ → Region
resolve_region region width height =
    let bounded = bounded_region region width height in
    record {
      x = round_down_to_even bounded.x;
      y = round_down_to_even bounded.y;
      width = round_down_to_even bounded.width;
      height = round_down_to_even bounded.height;
    }

-- Where `SubmitMapped` starts to read.
unfoldable pub read_offset : Region → ℕ → ℕ
read_offset region stride = region.y * stride + region.x * 4
