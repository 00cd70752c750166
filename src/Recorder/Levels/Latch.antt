-- ===== src/Recorder/Levels/Latch.antt =====
-- src/recorder/private/level_ballistics.cpp: how long a peak is shown.
use klip.Base.{
  ℕ, ◌+◌, ◌-◌, ◌≤◌, ◌≡◌, refl, ◌∙◌, arith, true, false, not, ◌||◌, List, [], ◌∷◌, ltb, All,
  Bool-cases, inl, inr,
}
use klip.Recorder.Levels.{
  hold_time, clip_latch, Floats, Channel, Peak, since, feed_level, feed_clip, feed_hold,
  feed_channel, feed_all, is_held,
}

-- A peak of the time from the first on that the duration covers.
abbrev pub IsWithin : {L : Type 0} → ℕ → ℕ → Peak L → Type 0
IsWithin start duration p = (start ≤ p.now) × (p.now ≤ start + duration)

module _ {L : Type 0} (f : Floats L) where
  record IsLatched (start : ℕ) (c : Channel L) : Type 0 where
    clipped : c.clipped ≡ true
    recent : start ≤ c.clipped_since

  feed_hold-clipped :
      (p : Peak L) (c : Channel L)
      → ((feed_hold f p c).clipped ≡ c.clipped)
        × ((feed_hold f p c).clipped_since ≡ c.clipped_since)
  unfolding feed_hold
  feed_hold-clipped p c =
      elim (Bool-cases (f.at_least p.peak c.hold || not (is_held f c.held_since))) [
        | inl new ↦ rw new (refl, refl)
        | inr old ↦ elim (Bool-cases (ltb hold_time (since c.held_since p.now))) [
          | inl falls ↦ rw (old, falls) (refl, refl)
          | inr stays ↦ rw (old, stays) (refl, refl)
        ]
      ]

  feed_clip-IsLatched :
      (start : ℕ) (p : Peak L) (c : Channel L)
      → IsWithin start clip_latch p
      → IsLatched start c
      → IsLatched start (feed_clip f p c)
  unfolding feed_clip
  feed_clip-IsLatched start p c (from, to) h = elim (Bool-cases (f.is_full p.peak)) [
    | inl full ↦ rw full (record { clipped = refl; recent = from })
    | inr below ↦
        let young : ltb clip_latch (p.now - c.clipped_since) ≡ false =
          ground (arith, h.recent, to) in
        rw (below, h.clipped, young) (record { clipped = refl; recent = h.recent })
  ]

  feed_level-kept :
      (start : ℕ) (p : Peak L) (c : Channel L)
      → IsLatched start c
      → IsLatched start (feed_level f p c)
  unfolding feed_level
  feed_level-kept start p c h = record { clipped = h.clipped; recent = h.recent }

  feed_hold-kept :
      (start : ℕ) (p : Peak L) (c : Channel L)
      → IsLatched start c
      → IsLatched start (feed_hold f p c)
  feed_hold-kept start p c h =
      let (same, time) = feed_hold-clipped p c in
      record { clipped = same ∙ h.clipped; recent = omega (arith, time, h.recent) }

  feed_all-IsLatched :
      (start : ℕ) (peaks : List (Peak L)) (c : Channel L)
      → All (IsWithin start clip_latch) peaks
      → IsLatched start c
      → IsLatched start (feed_all f peaks c)
  unfolding feed_all feed_channel
  feed_all-IsLatched start [] c within h = h
  feed_all-IsLatched start (p ∷ peaks) c (first, rest) h =
      let levelled = feed_level-kept start p c h in
      let latched = feed_clip-IsLatched start p (feed_level f p c) first levelled in
      feed_all-IsLatched start peaks (feed_channel f p c) rest
        (feed_hold-kept start p (feed_clip f p (feed_level f p c)) latched)

  -- Whatever was shown before and whatever peaks come after it, a channel is shown as clipped for
  -- three seconds after a peak of full level.
  pub feed_all-clipped :
      (p : Peak L) (peaks : List (Peak L)) (c : Channel L)
      → f.is_full p.peak ≡ true
      → All (IsWithin p.now clip_latch) peaks
      → (feed_all f (p ∷ peaks) c).clipped ≡ true
  unfolding feed_all feed_channel feed_clip
  feed_all-clipped p peaks c full within =
      let latched : IsLatched p.now (feed_clip f p (feed_level f p c)) =
        rw full (record { clipped = refl; recent = omega arith }) in
      (feed_all-IsLatched p.now peaks (feed_channel f p c) within
        (feed_hold-kept p.now p (feed_clip f p (feed_level f p c)) latched)).clipped
