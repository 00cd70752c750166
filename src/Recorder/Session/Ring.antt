-- ===== src/Recorder/Session/Ring.antt =====
-- src/recorder/private/session.cpp: the ring of frame slots between the PipeWire thread, which runs
-- `OnFrame`, and the encoder's thread, which runs `EncoderMain`, until `Stop` joins it. Each event has
-- one call of a queue or of the semaphore, with what its thread does on its own slot beside it; the
-- flag of `Stop` is stored with the release that follows and loaded with the failed call before it.
pub mod Owned
pub mod Turns
pub mod Drain
use klip.Base.{
  ℕ, zero, suc, ◌+◌, ◌*◌, Bool, true, false, not, ◌&&◌, List, [], ◌∷◌, ◌++◌, map, Option, none,
  some, Bytes, length, ltb, ◌==◌, if◌then◌else◌,
}

pub data PixelFormat : Type 0 where
  bgrx rgbx bgra rgba : PixelFormat

-- A mapped SFrame, and an SSlot: what `OnFrame` copies of the one into the other.
pub record Frame : Type 0 where
  pub pixels : Bytes
  pub stride : ℕ
  pub width : ℕ
  pub height : ℕ
  pub timestamp_ns : ℕ
  pub format : PixelFormat

-- What the encoder's thread is about to do.
pub data EncoderStep : Type 0 where
  waiting woken finished : EncoderStep
  submitting : ℕ → EncoderStep

pub record Ring : Type 0 where
  pub slots : ℕ → Frame
  pub free : List ℕ
  pub filled : List ℕ
  pub permits : ℕ
  -- The slot that `OnFrame` has taken and not yet handed on.
  pub writing : Option ℕ
  -- Whether `OnFrame` has handed a slot on and not yet released the semaphore.
  pub releasing : Bool
  pub encoder : EncoderStep
  pub stopping : Bool
  pub num_dropped : ℕ
  pub num_encode_failures : ℕ
  -- The frames that `OnFrame` handed on, and those that `SubmitFrame` was called with.
  pub accepted : List Frame
  pub submitted : List Frame

abbrev pub num_slots : ℕ
num_slots = 4

abbrev pub smaller_of : ℕ → ℕ → ℕ
smaller_of a b = if ltb b a then b else a

-- `memcpy` of the first bytes.
abbrev pub overwrite : ℕ → Bytes → Bytes → Bytes
overwrite zero new old = old
overwrite (suc n) [] old = old
overwrite (suc n) (x ∷ new) [] = []
overwrite (suc n) (x ∷ new) (y ∷ old) = x ∷ overwrite n new old

-- The slot after the copy of a frame.
unfoldable pub copy_into : Frame → Frame → Frame
copy_into frame slot = record frame {
  pixels =
      overwrite (smaller_of (frame.stride * frame.height) (length slot.pixels)) frame.pixels
        slot.pixels;
}

abbrev pub put_slot : ℕ → Frame → (ℕ → Frame) → ℕ → Frame
put_slot index frame slots i = if i == index then frame else slots i

abbrev pub has_stopped : EncoderStep → Bool
has_stopped finished = true
has_stopped waiting = false
has_stopped woken = false
has_stopped (submitting i) = false

-- `m_free.Dequeue(index)` and its two branches.
unfoldable pub take_slot : List ℕ → Ring → Ring
take_slot [] r = record r { num_dropped = r.num_dropped + 1 }
take_slot (index ∷ free) r = record r { free = free; writing = some index }

-- The copy and `m_filled.Enqueue(index)`.
unfoldable pub fill_slot : Frame → Option ℕ → Ring → Ring
fill_slot frame none r = r
fill_slot frame (some index) r = record r {
  slots = put_slot index (copy_into frame (r.slots index)) r.slots;
  filled = r.filled ++ index ∷ [];
  writing = none;
  releasing = true;
  accepted = r.accepted ++ frame ∷ [];
}

-- `m_filledCount.release()` of `OnFrame`.
unfoldable pub release_filled : Bool → Ring → Ring
release_filled false r = r
release_filled true r = record r { permits = r.permits + 1; releasing = false }

-- `m_filledCount.acquire()`; a thread that waits for a permit does nothing.
unfoldable pub acquire : ℕ → Ring → Ring
acquire zero r = r
acquire (suc permits) r = record r { permits = permits; encoder = woken }

-- `m_filled.Dequeue(index)` and what follows where nothing was queued.
unfoldable pub take_filled : List ℕ → Ring → Ring
take_filled [] r = record r { encoder = if r.stopping then finished else waiting }
take_filled (index ∷ filled) r = record r { filled = filled; encoder = submitting index }

-- `SubmitFrame`, and the slot handed back. Whether the encoder took the frame is an argument.
unfoldable pub submit : Bool → ℕ → Ring → Ring
submit encoded index r = record r {
  submitted = r.submitted ++ r.slots index ∷ [];
  num_encode_failures = if encoded then r.num_encode_failures else r.num_encode_failures + 1;
  free = r.free ++ index ∷ [];
  encoder = waiting;
}

-- One step of `EncoderMain`.
unfoldable pub encoder_main : Bool → EncoderStep → Ring → Ring
encoder_main encoded waiting r = acquire r.permits r
encoder_main encoded woken r = take_filled r.filled r
encoder_main encoded (submitting index) r = submit encoded index r
encoder_main encoded finished r = r

pub data RingEvent : Type 0 where
  frame_arrived frame_released : RingEvent
  frame_copied : Frame → RingEvent
  encoder_ran : Bool → RingEvent
  stop_asked : RingEvent

unfoldable pub ring_step : RingEvent → Ring → Ring
ring_step frame_arrived r = take_slot r.free r
ring_step (frame_copied frame) r = fill_slot frame r.writing r
ring_step frame_released r = release_filled r.releasing r
ring_step (encoder_ran encoded) r = encoder_main encoded r.encoder r
ring_step stop_asked r = record r { stopping = true; permits = r.permits + 1 }

-- `StartEncoder`: the slots, of `slot_bytes` bytes each, all free.
abbrev pub empty_slot : Bytes → Frame
empty_slot pixels = record {
  pixels = pixels;
  stride = 0;
  width = 0;
  height = 0;
  timestamp_ns = 0;
  format = bgrx;
}

abbrev pub zeros : ℕ → Bytes
zeros zero = []
zeros (suc n) = 0 ∷ zeros n

unfoldable pub start_ring : ℕ → Ring
start_ring slot_bytes = record {
  slots = λ index. empty_slot (zeros slot_bytes);
  free = 0 ∷ 1 ∷ 2 ∷ 3 ∷ [];
  filled = [];
  permits = 0;
  writing = none;
  releasing = false;
  encoder = waiting;
  stopping = false;
  num_dropped = 0;
  num_encode_failures = 0;
  accepted = [];
  submitted = [];
}
