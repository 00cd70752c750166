-- ===== src/Encode/Video.antt =====
-- src/encode/private/encoder.cpp: the timestamps of the frames sent to the video encoder and the
-- lengths of the packets that come back. libav's answers and `av_rescale_q` are arguments.
pub mod Times
use klip.Base.{
  ℕ, ◌+◌, ◌-◌, ◌/◌, ◌%◌, ◌^◌, Bool, true, false, not, ◌&&◌, List, [], ◌∷◌, ◌++◌, Option, none, some,
  ltb, leb, ◌==◌, if◌then◌else◌, ℤ, pos, negsuc,
}

-- 16667 microseconds.
abbrev pub nominal_frame : ℕ
nominal_frame = 16_667

pub record Video : Type 0 where
  pub first_timestamp_ns : ℕ
  pub has_first_timestamp : Bool
  pub next_pts : ℕ
  pub num_frames_encoded : ℕ
  -- The timestamps that `avcodec_send_frame` was called with.
  pub sent : List ℕ

-- What `avcodec_send_frame` and `DrainPackets` answer to a frame, and its timestamp.
pub record Sent : Type 0 where
  pub timestamp_ns : ℕ
  pub accepted : Bool
  pub drained : Bool

-- The 64-bit difference, in microseconds.
unfoldable pub frame_pts : Video → ℕ → ℕ
frame_pts v timestamp_ns =
    if not (timestamp_ns == 0) && v.has_first_timestamp
    then (timestamp_ns + 2 ^ 64 - v.first_timestamp_ns) % 2 ^ 64 / 1000
    else v.next_pts

-- `pts <= m_nextPts - NominalFrameMicroseconds` of signed numbers.
unfoldable pub advancing_pts : Video → ℕ → ℕ
advancing_pts v pts =
    if ltb 0 v.num_frames_encoded && leb (pts + nominal_frame) v.next_pts then v.next_pts else pts

unfoldable pub send_to_encoder : Video → Sent → Video
send_to_encoder v frame =
    let pts = advancing_pts v (frame_pts v frame.timestamp_ns) in
    record v {
      next_pts = pts + nominal_frame;
      sent = v.sent ++ pts ∷ [];
      num_frames_encoded =
          if frame.accepted && frame.drained
          then v.num_frames_encoded + 1
          else v.num_frames_encoded;
    }

unfoldable pub send_all : Video → List Sent → Video
send_all v [] = v
send_all v (frame ∷ frames) = send_all (send_to_encoder v frame) frames

-- A packet written, with its duration.
pub record Written : Type 0 where
  pub pts : ℕ
  pub duration : ℤ

-- The held packet's timestamp, and what `WritePacket` was called with.
pub record Muxer : Type 0 where
  pub held : Option ℕ
  pub written : List Written

-- A difference of signed numbers.
abbrev pub difference : ℕ → ℕ → ℤ
difference a b = if leb b a then pos (a - b) else negsuc (b - a - 1)

-- The held packet, written with its duration when the next one is there.
unfoldable pub write_until : Option ℕ → ℕ → List Written → List Written
write_until none pts written = written
write_until (some held) pts written =
    written ++ (record { pts = held; duration = difference pts held } ∷ [])

unfoldable pub hold_video_packet : Muxer → ℕ → Muxer
hold_video_packet m pts = record { held = some pts; written = write_until m.held pts m.written }

unfoldable pub hold_all : Muxer → List ℕ → Muxer
hold_all m [] = m
hold_all m (pts ∷ packets) = hold_all (hold_video_packet m pts) packets

-- The duration of the last packet; the file's units are counted from zero.
unfoldable pub last_duration : (ℕ → ℕ) → Video → ℕ → ℕ → ℤ
last_duration rescale v end_ns held =
    let nominal = rescale nominal_frame in
    let end_pts = rescale ((end_ns - v.first_timestamp_ns) / 1000) in
    if not (end_ns == 0) && v.has_first_timestamp && ltb v.first_timestamp_ns end_ns
    then if ltb held end_pts then difference end_pts held else pos nominal
    else pos nominal

unfoldable pub write_last : (ℕ → ℕ) → Video → ℕ → Option ℕ → List Written → Muxer
write_last rescale v end_ns none written = record { held = none; written = written }
write_last rescale v end_ns (some held) written = record {
  held = none;
  written = written ++ (record { pts = held; duration = last_duration rescale v end_ns held } ∷ []);
}

unfoldable pub write_held_packet : (ℕ → ℕ) → Video → ℕ → Muxer → Muxer
write_held_packet rescale v end_ns m = write_last rescale v end_ns m.held m.written
