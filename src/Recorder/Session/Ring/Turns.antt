-- ===== src/Recorder/Session/Ring/Turns.antt =====
-- src/recorder/private/session.cpp: a slot that is filled, and the turns of the two threads.
use mathlib.Core.List.{map-append}
use klip.Base.{
  ℕ, zero, suc, ◌*◌, ◌≡◌, refl, ap, ◌∙◌, Bool, true, false, List, [], ◌∷◌, ◌++◌, map, Option, none,
  some, Bytes, length, ltb, ◌==◌, ==_iff, if◌then◌else◌, arith, append_assoc, ◌≤◌, if-cases,
  Bool-cases, inl, inr,
}
use klip.Recorder.Session.Ring.{
  Frame, EncoderStep, waiting, woken, finished, submitting, Ring, num_slots, smaller_of, overwrite,
  copy_into, put_slot, fill_slot, release_filled, encoder_main, RingEvent, frame_arrived,
  frame_copied, frame_released, encoder_ran, stop_asked, ring_step, zeros, start_ring,
}
use klip.Recorder.Session.Ring.Owned.{
  times_in, held, reading, in_hand, RingInv, times_in-append, length_snoc, take_slot-RingInv,
  acquire-RingInv, take_filled-RingInv, submit-RingInv, stop-RingInv,
}

smaller_of_same : (a : ℕ) → smaller_of a a ≡ a
smaller_of_same a = ground arith

overwrite_all :
    (n : ℕ) (new old : Bytes) → length new ≡ n → length old ≡ n → overwrite n new old ≡ new
overwrite_all zero [] [] e f = refl
overwrite_all zero [] (y ∷ old) e f = absurd (omega arith)
overwrite_all zero (x ∷ new) old e f = absurd (omega arith)
overwrite_all (suc n) [] old e f = absurd (omega arith)
overwrite_all (suc n) (x ∷ new) [] e f = absurd (omega arith)
overwrite_all (suc n) (x ∷ new) (y ∷ old) e f =
    ap (λ rest. x ∷ rest) (overwrite_all n new old (omega arith) (omega arith))

-- A frame of the slots' size.
abbrev pub Fits : ℕ → Frame → Type 0
Fits n frame = (length frame.pixels ≡ n) × (frame.stride * frame.height ≡ n)

copy_into_lem :
    (n : ℕ) (frame slot : Frame)
    → Fits n frame
    → length slot.pixels ≡ n
    → copy_into frame slot ≡ frame
unfolding copy_into
copy_into_lem n frame slot (e, f) g =
    ap (λ p. record frame { pixels = p })
      (rw (f, g, smaller_of_same n) (overwrite_all n frame.pixels slot.pixels e g))

same_index : (i : ℕ) → (i == i) ≡ true
same_index i = (==_iff i i).1 refl

-- A slot that is filled anew is not among the others.
put_slot_other :
    (index x : ℕ) (frame : Frame) (slots : ℕ → Frame)
    → held index (some x) ≡ 0
    → put_slot index frame slots x ≡ slots x
put_slot_other index x frame slots h = elim (Bool-cases (x == index)) [
  | inl e ↦ absurd (let k = rw e at h in omega arith)
  | inr e ↦ rw e
]

map-put_slot :
    (index : ℕ) (frame : Frame) (slots : ℕ → Frame) (xs : List ℕ)
    → times_in index xs ≡ 0
    → map (put_slot index frame slots) xs ≡ map slots xs
map-put_slot index frame slots [] h = refl
map-put_slot index frame slots (x ∷ xs) h =
    let first = put_slot_other index x frame slots (omega arith) in
    let rest = map-put_slot index frame slots xs (omega arith) in
    ap (λ y. y ∷ map (put_slot index frame slots) xs) first ∙ ap (λ ys. slots x ∷ ys) rest

in_hand-put_slot :
    (index : ℕ) (frame : Frame) (slots : ℕ → Frame) (o : Option ℕ)
    → held index o ≡ 0
    → in_hand (put_slot index frame slots) o ≡ in_hand slots o
in_hand-put_slot index frame slots none h = refl
in_hand-put_slot index frame slots (some x) h =
    ap (λ y. y ∷ []) (put_slot_other index x frame slots h)

put_slot-sized :
    (n index : ℕ) (frame : Frame) (slots : ℕ → Frame)
    → length frame.pixels ≡ n
    → ((i : ℕ) → length (slots i).pixels ≡ n)
    → (i : ℕ) → length (put_slot index frame slots i).pixels ≡ n
put_slot-sized n index frame slots e h i =
    if-cases (λ (f : Frame). length f.pixels ≡ n) (i == index) (λ _. e) (λ _. h i)

if_le : (b : Bool) → (if b then 1 else 0) ≤ 1
if_le true = omega arith
if_le false = omega arith

-- The slot that is written is neither queued nor read.
alone :
    (n index : ℕ) (r : Ring)
    → r.writing ≡ some index
    → RingInv n r
    → (times_in index r.filled ≡ 0) × (held index (reading r.encoder) ≡ 0)
alone n index r w v =
    let h = rw (w, same_index index) at (v.owned index) in
    let most = if_le (ltb index num_slots) in (omega arith, omega arith)

queued :
    (n index : ℕ) (frame : Frame) (r : Ring)
    → r.writing ≡ some index
    → RingInv n r
    → r.accepted ++ frame ∷ []
      ≡ r.submitted
        ++ (in_hand (put_slot index frame r.slots) (reading r.encoder)
            ++ map (put_slot index frame r.slots) (r.filled ++ index ∷ []))
queued n index frame r w v =
    let (a, b) = alone n index r w v in
    let hand = in_hand r.slots (reading r.encoder) in
    let rest = map r.slots r.filled in
    rw
      (
        map-append (put_slot index frame r.slots) r.filled (index ∷ []),
        in_hand-put_slot index frame r.slots (reading r.encoder) b,
        map-put_slot index frame r.slots r.filled a,
        same_index index,
      )
      (ap (λ frames. frames ++ frame ∷ []) v.order
        ∙ append_assoc r.submitted (hand ++ rest) (frame ∷ [])
        ∙ ap (λ frames. r.submitted ++ frames) (append_assoc hand rest (frame ∷ [])))

fill_slot-RingInv :
    (n : ℕ) (frame : Frame) (r : Ring) (writing : Option ℕ)
    → r.writing ≡ writing
    → r.releasing ≡ false
    → Fits n frame
    → RingInv n r
    → RingInv n (fill_slot frame writing r)
unfolding fill_slot
fill_slot-RingInv n frame r none e l f v = v
fill_slot-RingInv n frame r (some index) e l f v =
    let copied = copy_into_lem n frame (r.slots index) f (v.sized index) in
    record {
      owned = λ i. let h = rw e at (v.owned i) in omega (arith, times_in-append i index r.filled);
      sized =
          put_slot-sized n index (copy_into frame (r.slots index)) r.slots
            (ap (λ (c : Frame). length c.pixels) copied ∙ f.0) v.sized;
      order = rw copied (queued n index frame r e v);
      counted = let h = rw l at v.counted in omega (arith, length_snoc r.filled index);
      ended = λ h. absurd (cc ((v.quiet (v.ended h).1).0, e));
      quiet = λ h. absurd (cc ((v.quiet h).0, e));
    }

release_filled-RingInv :
    (n : ℕ) (r : Ring) (releasing : Bool)
    → r.releasing ≡ releasing
    → RingInv n r
    → RingInv n (release_filled releasing r)
unfolding release_filled
release_filled-RingInv n r false e v = v
release_filled-RingInv n r true e v = record {
  owned = v.owned;
  sized = v.sized;
  order = v.order;
  counted = let h = rw e at v.counted in omega arith;
  ended = v.ended;
  quiet = λ h. ((v.quiet h).0, refl);
}

encoder_main-RingInv :
    (n : ℕ) (r : Ring) (encoded : Bool) (encoder : EncoderStep)
    → r.encoder ≡ encoder
    → RingInv n r
    → RingInv n (encoder_main encoded encoder r)
unfolding encoder_main
encoder_main-RingInv n r encoded waiting e v = acquire-RingInv n r r.permits refl e v
encoder_main-RingInv n r encoded woken e v = take_filled-RingInv n r r.filled refl e v
encoder_main-RingInv n r encoded (submitting index) e v = submit-RingInv n r encoded index e v
encoder_main-RingInv n r encoded finished e v = v

-- `OnFrame` runs to its end before it is called again, the stream gives frames of the size that the
-- slots were made for, and it has ended when `Stop` asks the thread to stop.
abbrev pub IsPossible : ℕ → RingEvent → Ring → Type 0
IsPossible n frame_arrived r = (r.writing ≡ none) × (r.releasing ≡ false) × (r.stopping ≡ false)
IsPossible n (frame_copied frame) r = Fits n frame × (r.releasing ≡ false)
IsPossible n frame_released r = Unit
IsPossible n (encoder_ran encoded) r = Unit
IsPossible n stop_asked r = (r.writing ≡ none) × (r.releasing ≡ false) × (r.stopping ≡ false)

-- However the two threads take turns at their calls of the queues and the semaphore, as long as
-- `OnFrame` is not called again before it returns, each frame has the size that the slots were made
-- for, and the stream has ended when the thread is asked to stop: each slot is in one queue or with
-- one thread, so that none is written while it is read; the frames submitted, with those on their
-- way, are the frames handed on, unchanged and in their order; and the semaphore's permits, with the
-- one acquired and not yet used and the one about to be released, are the filled slots, and one more
-- while the thread is asked to stop.
pub ring_step-RingInv :
    (n : ℕ) (e : RingEvent) (r : Ring) → IsPossible n e r → RingInv n r → RingInv n (ring_step e r)
unfolding ring_step
ring_step-RingInv n frame_arrived r (w, l, s) v = take_slot-RingInv n r r.free refl w s v
ring_step-RingInv n (frame_copied frame) r (f, l) v =
    fill_slot-RingInv n frame r r.writing refl l f v
ring_step-RingInv n frame_released r u v = release_filled-RingInv n r r.releasing refl v
ring_step-RingInv n (encoder_ran encoded) r u v = encoder_main-RingInv n r encoded r.encoder refl v
ring_step-RingInv n stop_asked r (w, l, s) v = stop-RingInv n r s w l v

length-zeros : (n : ℕ) → length (zeros n) ≡ n
length-zeros zero = refl
length-zeros (suc n) = omega (arith, length-zeros n)

-- In the ring that `StartEncoder` makes each of the four slots is in one queue or with one thread and
-- has its size, and the permits are the filled slots.
pub start_ring-RingInv : (n : ℕ) → RingInv n (start_ring n)
unfolding start_ring
start_ring-RingInv n = record {
  owned = λ i. ground arith;
  sized = λ i. length-zeros n;
  order = refl;
  counted = refl;
  ended = λ h. absurd (cc h);
  quiet = λ h. absurd (cc h);
}
