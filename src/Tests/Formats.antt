-- ===== src/Tests/Formats.antt =====
-- The tables of src/encode, the render nodes and the URIs of src/bus on concrete values.
use klip.Base.{◌++◌, ◌+◌, ◌≡◌, ◌≤◌, ◌*◌, ◌/◌, refl, arith, codes, Bytes}
use klip.Bus.FileUri.{
  decode_rooted, without_host, decode, get_hex_value, escaped_byte, to_file_uri, to_local_path,
}
use klip.Bus.FileUri.RoundTrip.{to_local_path-to_file_uri}
use klip.Bus.FileUri.Output.{IsUriPath, IsAbsolute, to_file_uri-IsUriPath, to_local_path-IsAbsolute}
use klip.Encode.Format.{h264, av1}
use klip.Encode.Quality.{smaller, high, resolve_codec_quality, estimate_bits_per_second}
use klip.Encode.Quality.Ladder.{estimate_bits_per_second-ordered}
use klip.Recorder.State.{Region}
use klip.Encode.Region.{resolve_region, bounded_region, read_offset}
use klip.Encode.Region.Bounds.{
  IsWithin, IsEven, IsNear, resolve_region-IsWithin, read_offset-resolve_region,
}

abbrev spaced : Bytes
spaced = codes "/home/a b"

to_local_path-to_file_uri_example : to_local_path (to_file_uri spaced) ≡ spaced
to_local_path-to_file_uri_example = to_local_path-to_file_uri spaced (ground arith) refl

to_file_uri-IsUriPath_example :
    (rest : Bytes) × (to_file_uri spaced ≡ codes "file://" ++ rest) × IsUriPath rest
to_file_uri-IsUriPath_example = to_file_uri-IsUriPath spaced (ground arith)

abbrev host_uri : Bytes
host_uri = codes "file://localhost/tmp/%41"

host_uri_path : to_local_path host_uri ≡ codes "/tmp/A"
unfolding to_local_path decode_rooted without_host decode get_hex_value escaped_byte
host_uri_path = refl

to_local_path-IsAbsolute_example : IsAbsolute (to_local_path host_uri)
to_local_path-IsAbsolute_example =
    to_local_path-IsAbsolute host_uri (ground arith) (λ e. cc (e, host_uri_path))

estimate_bits_per_second-ordered_example :
    (estimate_bits_per_second av1 smaller 1920 1080 60
      ≡ (resolve_codec_quality av1 smaller).bits_per_pixel * (1920 * 1080 * 60) / 10000)
    × (estimate_bits_per_second av1 smaller 1920 1080 60
        ≤ estimate_bits_per_second h264 high 1920 1080 60)
estimate_bits_per_second-ordered_example =
    estimate_bits_per_second-ordered h264 av1 smaller high 1920 1080 60 (omega arith) (omega arith)
      (omega arith)

-- A region dragged from an odd pixel.
abbrev picked : Region
picked = record { x = 101; y = 7; width = 640; height = 481 }

resolve_region-IsWithin_example :
    IsWithin (resolve_region picked 1920 1080) 1920 1080
    × IsEven (resolve_region picked 1920 1080)
    × IsNear (resolve_region picked 1920 1080) (bounded_region picked 1920 1080)
resolve_region-IsWithin_example =
    resolve_region-IsWithin picked 1920 1080 (omega arith) (omega arith)

read_offset-resolve_region_example :
    read_offset (resolve_region picked 1920 1080) 7680
      + 479 * 7680
      + (resolve_region picked 1920 1080).width * 4
    ≤ 1080 * 7680
unfolding resolve_region bounded_region
read_offset-resolve_region_example =
    read_offset-resolve_region picked 1920 1080 7680 479 (omega arith) (omega arith) (omega arith)
      (omega arith)
