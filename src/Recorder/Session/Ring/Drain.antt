-- ===== src/Recorder/Session/Ring/Drain.antt =====
-- src/recorder/private/session.cpp: `Stop` waits for `EncoderMain`, which empties the ring and ends.
use klip.Base.{
  ℕ, zero, suc, ◌+◌, ◌*◌, ◌≤◌, ◌≡◌, refl, sym, ◌∙◌, ◌⊎◌, inl, inr, Bool, true, false, List, [], ◌∷◌,
  length, arith, append-nil, subst, if◌then◌else◌,
}
use klip.Recorder.Session.Ring.{
  Frame, EncoderStep, waiting, woken, finished, submitting, Ring, acquire, take_filled, submit,
  encoder_main, encoder_ran, ring_step,
}
use klip.Recorder.Session.Ring.Owned.{RingInv}
use klip.Recorder.Session.Ring.Turns.{ring_step-RingInv}

-- `EncoderMain` on its own, given what `SubmitFrame` answers in its steps.
unfoldable pub run_encoder : List Bool → Ring → Ring
run_encoder [] r = r
run_encoder (encoded ∷ rest) r = run_encoder rest (ring_step (encoder_ran encoded) r)

-- A bound on the steps that are left: three for each filled slot, and two to end.
abbrev pub work_of : EncoderStep → ℕ → ℕ
work_of waiting n = 3 * n + 2
work_of woken n = 3 * n + 1
work_of (submitting i) n = 3 * n + 3
work_of finished n = 0

abbrev pub work : Ring → ℕ
work r = work_of r.encoder (length r.filled)

-- The step leaves less to do, or the thread has ended.
abbrev Nearer : ℕ → Ring → Type 0
Nearer before after = (work after + 1 ≤ before) ⊎ (work after ≡ 0)

acquire-Nearer :
    (n : ℕ) (r : Ring) (permits : ℕ)
    → r.permits ≡ permits
    → r.encoder ≡ waiting
    → r.stopping ≡ true
    → RingInv n r
    → Nearer (work_of waiting (length r.filled)) (acquire permits r)
unfolding acquire
acquire-Nearer n r zero p e s v =
    absurd (let h = rw (p, e, s, (v.quiet s).1) at v.counted in omega arith)
acquire-Nearer n r (suc permits) p e s v = inl (omega arith)

take_filled-Nearer :
    (r : Ring) (filled : List ℕ)
    → r.filled ≡ filled
    → r.stopping ≡ true
    → Nearer (work_of woken (length r.filled)) (take_filled filled r)
unfolding take_filled
take_filled-Nearer r [] f s = inl (rw f (ends r.stopping s))
  where
    ends : (b : Bool) → b ≡ true → work_of (if b then finished else waiting) 0 + 1 ≤ 3 * 0 + 1
    ends true e = omega arith
    ends false e = absurd (cc e)
take_filled-Nearer r (index ∷ filled) f s = inl (rw f (omega arith))

encoder_main-Nearer :
    (n : ℕ) (r : Ring) (encoded : Bool) (s : EncoderStep)
    → r.encoder ≡ s
    → r.stopping ≡ true
    → RingInv n r
    → Nearer (work_of s (length r.filled)) (encoder_main encoded s r)
unfolding encoder_main
encoder_main-Nearer n r encoded waiting e h v = acquire-Nearer n r r.permits refl e h v
encoder_main-Nearer n r encoded woken e h v = take_filled-Nearer r r.filled refl h
encoder_main-Nearer n r encoded (submitting index) e h v = inl (unfold submit in omega arith)
encoder_main-Nearer n r encoded finished e h v = inr (rw e refl)

acquire-same :
    (r : Ring) (permits : ℕ)
    → ((acquire permits r).stopping ≡ r.stopping) × ((acquire permits r).accepted ≡ r.accepted)
unfolding acquire
acquire-same r zero = (refl, refl)
acquire-same r (suc permits) = (refl, refl)

take_filled-same :
    (r : Ring) (filled : List ℕ)
    → ((take_filled filled r).stopping ≡ r.stopping)
      × ((take_filled filled r).accepted ≡ r.accepted)
unfolding take_filled
take_filled-same r [] = (refl, refl)
take_filled-same r (index ∷ filled) = (refl, refl)

-- What a step of the thread leaves as it is.
encoder_main-same :
    (r : Ring) (encoded : Bool) (s : EncoderStep)
    → ((encoder_main encoded s r).stopping ≡ r.stopping)
      × ((encoder_main encoded s r).accepted ≡ r.accepted)
unfolding encoder_main submit
encoder_main-same r encoded waiting = acquire-same r r.permits
encoder_main-same r encoded woken = take_filled-same r r.filled
encoder_main-same r encoded (submitting index) = (refl, refl)
encoder_main-same r encoded finished = (refl, refl)

work-le : (s : EncoderStep) (n : ℕ) → work_of s n ≤ 3 * n + 3
work-le waiting n = omega arith
work-le woken n = omega arith
work-le (submitting i) n = omega arith
work-le finished n = omega arith

le_trans : {a b c : ℕ} → a ≤ b → b ≤ c → a ≤ c
le_trans h k = omega arith

work_done : (s : EncoderStep) (n : ℕ) → work_of s n ≤ 0 → s ≡ finished
work_done waiting n h = absurd (omega arith)
work_done woken n h = absurd (omega arith)
work_done (submitting i) n h = absurd (omega arith)
work_done finished n h = refl

-- What holds of a thread that has ended, with the frames that it was given.
abbrev Emptied : List Frame → Ring → Type 0
Emptied frames r = (r.encoder ≡ finished) × (r.submitted ≡ frames) × (r.permits ≡ 0)

finished-Emptied : (n : ℕ) (r : Ring) → r.encoder ≡ finished → RingInv n r → Emptied r.accepted r
finished-Emptied n r e v =
    let (empty, stopped) = v.ended (rw e refl) in
    let h = rw (e, empty) at v.order in
    let k = rw (e, empty, stopped, (v.quiet stopped).1) at v.counted in
    (e, sym (h ∙ append-nil r.submitted), omega arith)

run_encoder-Emptied :
    (n : ℕ) (answers : List Bool) (r : Ring)
    → r.stopping ≡ true
    → RingInv n r
    → work r ≤ length answers
    → Emptied r.accepted (run_encoder answers r)
unfolding run_encoder
run_encoder-Emptied n [] r s v h = finished-Emptied n r (work_done r.encoder _ h) v
run_encoder-Emptied n (encoded ∷ answers) r s v h =
    let after = ring_step (encoder_ran encoded) r in
    let w = ring_step-RingInv n (encoder_ran encoded) r tt v in
    let (stops, same) : (after.stopping ≡ r.stopping) × (after.accepted ≡ r.accepted) =
      unfold ring_step in encoder_main-same r encoded r.encoder in
    let near : Nearer (work r) after =
      unfold ring_step in encoder_main-Nearer n r encoded r.encoder refl s v in
    subst (λ frames. Emptied frames (run_encoder answers after)) same
      (run_encoder-Emptied n answers after (stops ∙ s) w (enough near))
  where
    enough :
        Nearer (work r) (ring_step (encoder_ran encoded) r)
        → work (ring_step (encoder_ran encoded) r) ≤ length answers
    enough (inl less) = omega arith
    enough (inr ended) = omega arith

-- Once it has been asked to stop, the encoder's thread ends after at most three steps for each
-- filled slot and three more, whatever `SubmitFrame` answers: it submits every frame that was handed
-- on, in order, and leaves no permit behind.
pub run_encoder-finished :
    (n : ℕ) (answers : List Bool) (r : Ring)
    → r.stopping ≡ true
    → RingInv n r
    → 3 * length r.filled + 3 ≤ length answers
    → let after = run_encoder answers r in
      (after.encoder ≡ finished) × (after.submitted ≡ r.accepted) × (after.permits ≡ 0)
unfolding run_encoder
run_encoder-finished n answers r s v h =
    run_encoder-Emptied n answers r s v (le_trans (work-le r.encoder (length r.filled)) h)
