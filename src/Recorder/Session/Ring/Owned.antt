-- ===== src/Recorder/Session/Ring/Owned.antt =====
-- src/recorder/private/session.cpp: who owns each slot of the ring, and which frames are in it.
use klip.Base.{
  ℕ, zero, suc, ◌+◌, ◌≡◌, refl, sym, ◌∙◌, Bool, true, false, not, ◌&&◌, List, [], ◌∷◌, ◌++◌, map,
  Option, none, some, length, length-append, ltb, ◌==◌, if◌then◌else◌, arith, append_assoc,
  Bool-cases, inl, inr,
}
use klip.Recorder.Session.Ring.{
  Frame, EncoderStep, waiting, woken, finished, submitting, Ring, num_slots, has_stopped, take_slot,
  acquire, take_filled, submit, stop_asked, ring_step,
}

-- How often an index is in a queue, or held by a thread.
abbrev pub times_in : ℕ → List ℕ → ℕ
times_in i [] = 0
times_in i (x ∷ xs) = (if x == i then 1 else 0) + times_in i xs

abbrev pub held : ℕ → Option ℕ → ℕ
held i none = 0
held i (some x) = if x == i then 1 else 0

abbrev pub reading : EncoderStep → Option ℕ
reading (submitting x) = some x
reading waiting = none
reading woken = none
reading finished = none

-- The frame that the encoder's thread has taken and not yet submitted.
abbrev pub in_hand : (ℕ → Frame) → Option ℕ → List Frame
in_hand slots none = []
in_hand slots (some x) = slots x ∷ []

-- The permit that the encoder's thread has acquired and not yet used.
abbrev pub used_permit : EncoderStep → ℕ
used_permit woken = 1
used_permit waiting = 0
used_permit (submitting x) = 0
used_permit finished = 0

abbrev pub stop_permit : Bool → EncoderStep → ℕ
stop_permit stopping encoder = if stopping && not (has_stopped encoder) then 1 else 0

-- The permit that `OnFrame` is about to release.
abbrev pub due_permit : Bool → ℕ
due_permit releasing = if releasing then 1 else 0

pub record RingInv (slot_bytes : ℕ) (r : Ring) : Type 0 where
  -- Each of the four slots is in one queue or with one thread, and no other index is.
  pub owned :
      (i : ℕ)
      → times_in i r.free + times_in i r.filled + held i r.writing + held i (reading r.encoder)
        ≡ (if ltb i num_slots then 1 else 0)
  pub sized : (i : ℕ) → length (r.slots i).pixels ≡ slot_bytes
  -- No frame that was handed on is lost, changed or overtaken.
  pub order :
      r.accepted ≡ r.submitted ++ (in_hand r.slots (reading r.encoder) ++ map r.slots r.filled)
  -- There is a permit for each filled slot, or it is about to be released, and one for the stop.
  pub counted :
      r.permits + used_permit r.encoder + due_permit r.releasing
      ≡ length r.filled + stop_permit r.stopping r.encoder
  pub ended : has_stopped r.encoder ≡ true → (r.filled ≡ []) × (r.stopping ≡ true)
  pub quiet : r.stopping ≡ true → (r.writing ≡ none) × (r.releasing ≡ false)

pub times_in-append :
    (i x : ℕ) (xs : List ℕ) → times_in i (xs ++ x ∷ []) ≡ times_in i xs + held i (some x)
times_in-append i x [] = omega arith
times_in-append i x (y ∷ xs) = omega (arith, times_in-append i x xs)

pub length_snoc : (xs : List ℕ) (x : ℕ) → length (xs ++ x ∷ []) ≡ length xs + 1
length_snoc xs x = length-append xs (x ∷ [])

pub take_slot-RingInv :
    (n : ℕ) (r : Ring) (free : List ℕ)
    → r.free ≡ free
    → r.writing ≡ none
    → r.stopping ≡ false
    → RingInv n r
    → RingInv n (take_slot free r)
unfolding take_slot
take_slot-RingInv n r [] e w s v = record {
  owned = v.owned;
  sized = v.sized;
  order = v.order;
  counted = v.counted;
  ended = v.ended;
  quiet = v.quiet;
}
take_slot-RingInv n r (index ∷ free) e w s v = record {
  owned = λ i. let h = rw (e, w) at (v.owned i) in omega arith;
  sized = v.sized;
  order = v.order;
  counted = v.counted;
  ended = v.ended;
  quiet = λ h. absurd (cc (h, s));
}

pub acquire-RingInv :
    (n : ℕ) (r : Ring) (permits : ℕ)
    → r.permits ≡ permits
    → r.encoder ≡ waiting
    → RingInv n r
    → RingInv n (acquire permits r)
unfolding acquire
acquire-RingInv n r zero e s v = v
acquire-RingInv n r (suc permits) e s v = record {
  owned = λ i. rw s at v.owned i;
  sized = v.sized;
  order = rw s at v.order;
  counted = let h = rw (e, s) at v.counted in omega arith;
  ended = λ h. absurd (cc h);
  quiet = v.quiet;
}

-- The semaphore has a permit only for a filled slot or for the stop, so that a thread that finds
-- nothing queued has been asked to stop.
nothing_queued-RingInv :
    (n : ℕ) (r : Ring) (stopping : Bool)
    → r.stopping ≡ stopping
    → r.filled ≡ []
    → r.encoder ≡ woken
    → RingInv n r
    → RingInv n (record r { encoder = if stopping then finished else waiting })
nothing_queued-RingInv n r true t e s v = record {
  owned = λ i. rw s at (v.owned i);
  sized = v.sized;
  order = rw s at v.order;
  counted = let h = rw (s, e, t) at v.counted in rw (e, t) (omega arith);
  ended = λ h. (e, t);
  quiet = v.quiet;
}
nothing_queued-RingInv n r false t e s v = record {
  owned = λ i. rw s at (v.owned i);
  sized = v.sized;
  order = rw s at v.order;
  counted = let h = rw (s, e, t) at v.counted in rw (e, t) (omega arith);
  ended = λ h. absurd (cc h);
  quiet = v.quiet;
}

pub take_filled-RingInv :
    (n : ℕ) (r : Ring) (filled : List ℕ)
    → r.filled ≡ filled
    → r.encoder ≡ woken
    → RingInv n r
    → RingInv n (take_filled filled r)
unfolding take_filled
take_filled-RingInv n r [] e s v = nothing_queued-RingInv n r r.stopping refl e s v
take_filled-RingInv n r (index ∷ filled) e s v = record {
  owned = λ i. let h = rw (e, s) at (v.owned i) in omega arith;
  sized = v.sized;
  order = rw (e, s) at v.order;
  counted = let h = rw (e, s) at v.counted in omega arith;
  ended = λ h. absurd (cc h);
  quiet = v.quiet;
}

pub submit-RingInv :
    (n : ℕ) (r : Ring) (encoded : Bool) (index : ℕ)
    → r.encoder ≡ submitting index
    → RingInv n r
    → RingInv n (submit encoded index r)
unfolding submit
submit-RingInv n r encoded index s v = record {
  owned = λ i. let h = rw s at (v.owned i) in omega (arith, times_in-append i index r.free);
  sized = v.sized;
  order =
      let h = rw s at v.order in
      h ∙ sym (append_assoc r.submitted (r.slots index ∷ []) (map r.slots r.filled));
  counted = let h = rw s at v.counted in h;
  ended = λ h. absurd (cc h);
  quiet = v.quiet;
}

pub stop-RingInv :
    (n : ℕ) (r : Ring)
    → r.stopping ≡ false
    → r.writing ≡ none
    → r.releasing ≡ false
    → RingInv n r
    → RingInv n (ring_step stop_asked r)
unfolding ring_step
stop-RingInv n r s w l v = record {
  owned = v.owned;
  sized = v.sized;
  order = v.order;
  counted = elim (Bool-cases (has_stopped r.encoder)) [
    | inl h ↦ absurd (cc ((v.ended h).1, s))
    | inr h ↦ let k = rw s at v.counted in rw h (omega arith)
  ];
  ended = λ h. absurd (cc ((v.ended h).1, s));
  quiet = λ h. (w, l);
}
