-- ===== src/Recorder/Levels.antt =====
-- src/recorder/private/level_ballistics.cpp: CLevelBallistics, of which a level is whatever the
-- floats and decibels.hpp make of it. A time is a number of nanoseconds.
pub mod Latch
use klip.Base.{
  ℕ, ◌-◌, Bool, true, false, not, ◌&&◌, ◌||◌, Option, none, some, List, [], ◌∷◌, ltb, if◌then◌else◌,
}

abbrev pub hold_time : ℕ
hold_time = 1_500_000_000

abbrev pub clip_latch : ℕ
clip_latch = 3_000_000_000

abbrev pub hold_fall : ℕ
hold_fall = 20

abbrev pub level_fall : ℕ
level_fall = 60

-- Comparisons of floats, and `fallen level rate time`, the level that is so many decibels for each
-- second of the time lower.
pub record Floats (L : Type 0) : Type 0 where
  pub silence : L
  pub is_full : L → Bool
  pub at_least : L → L → Bool
  pub less : L → L → Bool
  pub fallen : L → ℕ → ℕ → L

-- SChannel.
pub record Channel (L : Type 0) : Type 0 where
  pub level : L
  pub hold : L
  pub held_since : Option ℕ
  pub falling_since : Option ℕ
  pub clipped_since : ℕ
  pub clipped : Bool

pub record Peak (L : Type 0) : Type 0 where
  pub peak : L
  pub now : ℕ

abbrev pub since : Option ℕ → ℕ → ℕ
since none now = 0
since (some start) now = now - start

module _ {L : Type 0} (f : Floats L) where
  abbrev pub larger : L → L → L
  larger a b = if f.less a b then b else a

  unfoldable pub feed_level : Peak L → Channel L → Channel L
  feed_level p c = record c {
    level = larger p.peak (f.fallen c.level level_fall (since c.falling_since p.now));
    falling_since = some p.now;
  }

  unfoldable pub feed_clip : Peak L → Channel L → Channel L
  feed_clip p c =
      if f.is_full p.peak
      then record c { clipped = true; clipped_since = p.now }
      else if c.clipped && ltb clip_latch (p.now - c.clipped_since)
      then record c { clipped = false }
      else c

  abbrev pub is_held : Option ℕ → Bool
  is_held none = false
  is_held (some start) = true

  unfoldable pub feed_hold : Peak L → Channel L → Channel L
  feed_hold p c =
      if f.at_least p.peak c.hold || not (is_held c.held_since)
      then record c { hold = p.peak; held_since = some p.now }
      else if ltb hold_time (since c.held_since p.now)
      then record c {
        hold = larger p.peak (f.fallen c.hold hold_fall (since c.held_since p.now - hold_time));
      }
      else c

  unfoldable pub feed_channel : Peak L → Channel L → Channel L
  unfolding feed_level feed_clip feed_hold
  feed_channel p c = feed_hold p (feed_clip p (feed_level p c))

  -- `Feed`, which takes as many peaks as there are channels.
  unfoldable pub feed : List L → ℕ → List (Channel L) → List (Channel L)
  unfolding feed_channel
  feed [] now channels = channels
  feed (peak ∷ peaks) now [] = []
  feed (peak ∷ peaks) now (c ∷ channels) =
      feed_channel (record { peak = peak; now = now }) c ∷ feed peaks now channels

  abbrev pub new_channel : Channel L
  new_channel = record {
    level = f.silence;
    hold = f.silence;
    held_since = none;
    falling_since = none;
    clipped_since = 0;
    clipped = false;
  }

  abbrev pub reset : List (Channel L) → List (Channel L)
  reset [] = []
  reset (c ∷ channels) = new_channel ∷ reset channels

  -- The peaks of one channel, one `Feed` after the other.
  unfoldable pub feed_all : List (Peak L) → Channel L → Channel L
  unfolding feed_channel
  feed_all [] c = c
  feed_all (p ∷ peaks) c = feed_all peaks (feed_channel p c)
