-- ===== src/Encode/Video/Times.antt =====
-- src/encode/private/encoder.cpp: timestamps that advance, and packets that follow each other.
use mathlib.Core.List.{map-append}
use klip.Base.{
  subst, ℕ, ◌+◌, ◌-◌, ◌/◌, ℤ, pos, ◌&&◌, ltb, if◌then◌else◌, Bool-cases, inl, inr, ◌<◌, ◌≡◌, refl,
  sym, ap, ◌∙◌, List, [], ◌∷◌, ◌++◌, map, none, some, arith, append_assoc, append-nil,
}
use klip.Encode.Video.{
  nominal_frame, Video, Sent, frame_pts, advancing_pts, send_to_encoder, send_all, Written, Muxer,
  write_until, hold_video_packet, hold_all, difference, last_duration, write_last,
  write_held_packet,
}

-- Each is after the one before it, and the first after `last`.
abbrev pub Ascending : ℕ → List ℕ → Type 0
Ascending last [] = Unit
Ascending last (x ∷ xs) = (last < x) × Ascending x xs

-- The last frame was sent at `last`, and some frame was encoded.
abbrev pub IsSentAt : Video → ℕ → Type 0
IsSentAt v last = (v.next_pts ≡ last + nominal_frame) × (0 < v.num_frames_encoded)

advances : (v : Video) (last pts : ℕ) → IsSentAt v last → last < advancing_pts v pts
unfolding advancing_pts
advances v last pts (e, n) = ground arith

send_to_encoder-IsSentAt :
    (v : Video) (frame : Sent) (last : ℕ)
    → IsSentAt v last
    → IsSentAt (send_to_encoder v frame) (advancing_pts v (frame_pts v frame.timestamp_ns))
unfolding send_to_encoder
send_to_encoder-IsSentAt v frame last (e, n) = (refl, ground arith)

sent_once :
    (v : Video) (frame : Sent)
    → (send_to_encoder v frame).sent
      ≡ v.sent ++ advancing_pts v (frame_pts v frame.timestamp_ns) ∷ []
unfolding send_to_encoder
sent_once v frame = refl

-- After a frame has been encoded, every timestamp sent is later than the one before it, whatever
-- the frames' own timestamps are and whether or not the encoder takes them.
pub send_all-Ascending :
    (v : Video) (frames : List Sent) (last : ℕ)
    → v.next_pts ≡ last + nominal_frame
    → 0 < v.num_frames_encoded
    → (times : List ℕ) × ((send_all v frames).sent ≡ v.sent ++ times) × Ascending last times
unfolding send_all
send_all-Ascending v [] last e n = ([], sym (append-nil v.sent), tt)
send_all-Ascending v (frame ∷ frames) last e n =
    let pts = advancing_pts v (frame_pts v frame.timestamp_ns) in
    let (a, b) = send_to_encoder-IsSentAt v frame last (e, n) in
    let (times, same, later) = send_all-Ascending (send_to_encoder v frame) frames pts a b in
    (
      pts ∷ times,
      same ∙ ap (λ s. s ++ times) (sent_once v frame) ∙ append_assoc v.sent (pts ∷ []) times,
      (advances v last (frame_pts v frame.timestamp_ns) (e, n), later),
    )

-- Each packet has a length, and starts where the one before it ends.
abbrev pub Joined : ℕ → List Written → ℕ → Type 0
Joined start [] end = start ≡ end
Joined start (w ∷ ws) end =
    (w.pts ≡ start)
    × (length : ℕ) × (0 < length)
    × (w.duration ≡ pos length)
    × Joined (start + length) ws end

Joined-snoc :
    (start middle length : ℕ) (ws : List Written)
    → Joined start ws middle
    → 0 < length
    → Joined start (ws ++ (record { pts = middle; duration = pos length } ∷ [])) (middle + length)
Joined-snoc start middle length [] h l = (sym h, length, l, refl, ap (λ n. n + length) h)
Joined-snoc start middle length (w ∷ ws) (e, n, m, f, h) l =
    (e, n, m, f, Joined-snoc (start + n) middle length ws h l)

abbrev pub starts : List Written → List ℕ
starts written = map (λ (w : Written). w.pts) written

starts-snoc :
    (ws : List Written) (pts : ℕ) (duration : ℤ)
    → starts (ws ++ (record { pts = pts; duration = duration } ∷ [])) ≡ starts ws ++ pts ∷ []
starts-snoc ws pts duration =
    map-append (λ (w : Written). w.pts) ws (record { pts = pts; duration = duration } ∷ [])

difference_later : (a b : ℕ) → b < a → difference a b ≡ pos (a - b)
difference_later a b h = ground arith

-- The packets written so far end where the held one starts; with it, they are those seen.
record Holding (first : ℕ) (seen : List ℕ) (m : Muxer) (last : ℕ) : Type 0 where
  held : m.held ≡ some last
  joined : Joined first m.written last
  given : starts m.written ++ last ∷ [] ≡ seen

hold-Holding :
    (first pts last : ℕ) (seen : List ℕ) (m : Muxer)
    → last < pts
    → Holding first seen m last
    → Holding first (seen ++ pts ∷ []) (hold_video_packet m pts) pts
unfolding hold_video_packet write_until
hold-Holding first pts last seen m later h =
    let whole : last + (pts - last) ≡ pts = omega arith in
    let joined = Joined-snoc first last (pts - last) m.written h.joined (omega arith) in
    record {
      held = refl;
      joined =
          rw (h.held, difference_later pts last later)
            (subst
              (Joined first
                (m.written ++ (record { pts = last; duration = pos (pts - last) } ∷ [])))
              whole joined);
      given =
          rw h.held
            (ap (λ s. s ++ pts ∷ []) (starts-snoc m.written last (difference pts last) ∙ h.given));
    }

-- The last of the packets.
abbrev pub last_of : ℕ → List ℕ → ℕ
last_of last [] = last
last_of last (pts ∷ packets) = last_of pts packets

hold_all-Holding :
    (first last : ℕ) (seen : List ℕ) (m : Muxer) (packets : List ℕ)
    → Ascending last packets
    → Holding first seen m last
    → Holding first (seen ++ packets) (hold_all m packets) (last_of last packets)
unfolding hold_all
hold_all-Holding first last seen m [] later h =
    subst (λ s. Holding first s m last) (sym (append-nil seen)) h
hold_all-Holding first last seen m (pts ∷ packets) (after, later) h =
    subst (λ s. Holding first s (hold_all (hold_video_packet m pts) packets) (last_of pts packets))
      (append_assoc seen (pts ∷ []) packets)
      (hold_all-Holding first pts (seen ++ pts ∷ []) (hold_video_packet m pts) packets later
        (hold-Holding first pts last seen m after h))

-- The video ends at the time that the recording ended, where this is known and after the last frame,
-- and else a nominal frame after the last one.
abbrev pub end_of : (ℕ → ℕ) → Video → ℕ → ℕ → ℕ
end_of rescale v end_ns last =
    let known = v.has_first_timestamp && ltb v.first_timestamp_ns end_ns in
    let end_pts = rescale ((end_ns - v.first_timestamp_ns) / 1000) in
    if known && ltb last end_pts then end_pts else last + rescale nominal_frame

last_duration_lem :
    (rescale : ℕ → ℕ) (v : Video) (end_ns last : ℕ)
    → 0 < rescale nominal_frame
    → (last_duration rescale v end_ns last ≡ pos (end_of rescale v end_ns last - last))
      × (last < end_of rescale v end_ns last)
unfolding last_duration
last_duration_lem rescale v end_ns last h =
    let end_pts : ℕ = rescale ((end_ns - v.first_timestamp_ns) / 1000) in
    let nominal : last + rescale nominal_frame - last ≡ rescale nominal_frame = omega arith in
    elim (Bool-cases v.has_first_timestamp) [
      | inr unseen ↦ (ground arith, ground arith)
      | inl seen ↦ elim (Bool-cases (ltb v.first_timestamp_ns end_ns)) [
        | inr early ↦ (ground arith, ground arith)
        | inl later ↦ elim (Bool-cases (ltb last end_pts)) [
          | inr before ↦ (ground arith, ground arith)
          | inl after ↦ (ground arith, ground arith)
        ]
      ]
    ]

-- Where each frame's timestamp is later than the one before and a nominal frame has a length in the
-- file, the packets of a recording, once the held one is written, are those that the encoder gave,
-- in their order. Each has a length and starts where the one before it ends, so that they leave no
-- gap and do not overlap; the last one ends when the recording ended, or a nominal frame after its
-- start; and none is still held.
pub write_held_packet-Joined :
    (rescale : ℕ → ℕ) (v : Video) (end_ns first : ℕ) (packets : List ℕ)
    → 0 < rescale nominal_frame
    → Ascending first packets
    → let after =
        write_held_packet rescale v end_ns
          (hold_all (record { held = none; written = [] }) (first ∷ packets)) in
      Joined first after.written (end_of rescale v end_ns (last_of first packets))
      × (starts after.written ≡ first ∷ packets)
      × (after.held ≡ none)
unfolding write_held_packet write_last hold_all hold_video_packet write_until
write_held_packet-Joined rescale v end_ns first packets h later =
    let begun : Muxer = record { held = some first; written = [] } in
    let k =
      hold_all-Holding first first (first ∷ []) begun packets later
        (record { held = refl; joined = refl; given = refl }) in
    let m = hold_all begun packets in
    let last = last_of first packets in
    let end = end_of rescale v end_ns last in
    let (length, after) = last_duration_lem rescale v end_ns last h in
    let whole : last + (end - last) ≡ end = omega (arith, after) in
    let joined = Joined-snoc first last (end - last) m.written k.joined (omega (arith, after)) in
    (
      rw (k.held, length)
          (subst
            (Joined first (m.written ++ (record { pts = last; duration = pos (end - last) } ∷ [])))
            whole joined),
      rw k.held (starts-snoc m.written last (last_duration rescale v end_ns last) ∙ k.given),
      rw k.held refl,
    )
