-- ===== src/Json/Files/Atomic.antt =====
-- src/json/private/files.cpp: a write stores the whole text or leaves the file as it was.
use klip.Base.{
  ℕ, zero, suc, ◌≤◌, ◌⊎◌, Bool, true, false, ◌&&◌, Bytes, none, some, List, [], ◌∷◌, ◌++◌, ◌≡◌,
  refl, ◌∙◌, sym, ap, arith, length, append_assoc, append-nil, if◌then◌else◌, Bool-cases, inl, inr,
}
use klip.Json.Files.{
  take, drop, Stored, Files, get_file_mode, WriteAnswer, wrote, wrote_nothing, write_interrupted,
  write_failed, write_all, System, fill_temporary, finish_write, finish_with, write_file_atomically,
}

-- The answers that end the loop or bring it a byte further.
abbrev pub advances : List WriteAnswer → ℕ
advances [] = 0
advances (write_interrupted ∷ answers) = advances answers
advances (_ ∷ answers) = suc (advances answers)

take-drop : (n : ℕ) (t : Bytes) → take n t ++ drop n t ≡ t
take-drop zero t = refl
take-drop (suc n) [] = refl
take-drop (suc n) (c ∷ t) = ap (λ r. c ∷ r) (take-drop n t)

length-drop : (n : ℕ) (t : Bytes) → length (drop n t) ≤ length t
length-drop zero t = omega arith
length-drop (suc n) [] = omega arith
length-drop (suc n) (c ∷ t) = omega (arith, length-drop n t)

-- With enough answers the loop ends, and if it does not fail the file holds everything.
record Ends (rest file : Bytes) (answers : List WriteAnswer) : Type 0 where
  done : Bool
  left : Bytes
  same : write_all answers rest file ≡ some (done, left)
  whole : done ≡ true → left ≡ file ++ rest

write_all-Ends :
    (answers : List WriteAnswer) (rest file : Bytes)
    → length rest ≤ advances answers
    → Ends rest file answers
unfolding write_all
write_all-Ends answers [] file h = record {
  done = true;
  left = file;
  same = refl;
  whole = λ e. sym (append-nil file);
}
write_all-Ends [] (c ∷ rest) file h = absurd (omega arith)
write_all-Ends (wrote n ∷ answers) (c ∷ rest) file h =
    let e =
      write_all-Ends answers (drop n rest) (file ++ (c ∷ take n rest))
        (omega (arith, length-drop n rest)) in
    record {
      done = e.done;
      left = e.left;
      same = e.same;
      whole = λ d.
          e.whole d
          ∙ append_assoc file (c ∷ take n rest) (drop n rest)
          ∙ ap (λ r. file ++ (c ∷ r)) (take-drop n rest);
    }
write_all-Ends (wrote_nothing ∷ answers) (c ∷ rest) file h = record {
  done = false;
  left = file;
  same = refl;
  whole = λ e. absurd (cc);
}
write_all-Ends (write_interrupted ∷ answers) (c ∷ rest) file h =
    let e = write_all-Ends answers (c ∷ rest) file h in
    record { done = e.done; left = e.left; same = e.same; whole = e.whole }
write_all-Ends (write_failed ∷ answers) (c ∷ rest) file h = record {
  done = false;
  left = file;
  same = refl;
  whole = λ e. absurd (cc);
}

-- The text as it is stored, with the permissions of the file that it replaces.
abbrev pub stored_text : Bytes → Files → Stored
stored_text text files = record { content = text; mode = get_file_mode files.target }

pub record IsAtomic (sys : System) (text : Bytes) (files : Files) (ok : Bool) (after : Files)
    : Type 0 where
  pub target : after.target ≡ (if ok then some (stored_text text files) else files.target)
  pub temporary : (after.temporary ≡ none) ⊎ ((ok ≡ false) × (sys.removes ≡ false))

-- A temporary file that was filled as it should be, or was not.
abbrev Filled : Bytes → Files → Bool × Stored → Type 0
Filled text files (filled, t) = (filled ≡ false) ⊎ (t ≡ stored_text text files)

finish_write-IsAtomic :
    (sys : System) (text : Bytes) (files : Files) (r : Bool × Stored)
    → Filled text files r
    → IsAtomic sys text files (finish_write sys r files).0 (finish_write sys r files).1
unfolding finish_write
finish_write-IsAtomic sys text files (false, t) h = record {
  target = refl;
  temporary = elim (Bool-cases sys.removes) [
    | inl gone ↦ inl (rw gone refl)
    | inr stays ↦ inr (refl, stays)
  ];
}
finish_write-IsAtomic sys text files (true, t) h = elim (Bool-cases sys.renames) [
  | inl renamed ↦ rw renamed (record {
    target = elim h [ inl empty ↦ absurd (cc) | inr same ↦ ap some same ];
    temporary = inl refl;
  })
  | inr refused ↦ rw refused (record {
    target = refl;
    temporary = elim (Bool-cases sys.removes) [
      | inl gone ↦ inl (rw gone refl)
      | inr stays ↦ inr (refl, stays)
    ];
  })
]

fill_temporary-Filled :
    (sys : System) (text : Bytes) (files : Files)
    → length text ≤ advances sys.writes
    → (r : Bool × Stored) × (fill_temporary sys text (get_file_mode files.target) ≡ some r)
      × Filled text files r
unfolding fill_temporary
fill_temporary-Filled sys text files h = elim (Bool-cases sys.sets_mode) [
  | inr refused ↦ ((false, record { content = []; mode = 384 }), rw refused refl, inl refl)
  | inl set ↦
      let e = write_all-Ends sys.writes text [] h in
      (
        (
          e.done && sys.flushes && sys.closes,
          record { content = e.left; mode = get_file_mode files.target },
        ),
        rw (set, e.same, fill_temporary) refl,
        elim (Bool-cases e.done) [
          | inl d ↦
              inr (ap (λ c. record { content = c; mode = get_file_mode files.target }) (e.whole d))
          | inr failed ↦ inl (rw failed refl)
        ],
      )
]

-- However the system answers, once `write` has answered often enough the call returns, and then the
-- file is the whole new text with the permissions of the old file, or it is untouched and the call
-- says so; no temporary file is left unless its removal failed.
pub write_file_atomically-IsAtomic :
    (sys : System) (text : Bytes) (files : Files)
    → files.temporary ≡ none
    → length text ≤ advances sys.writes
    → (ok : Bool) × (after : Files) × (write_file_atomically sys text files ≡ some (ok, after))
      × IsAtomic sys text files ok after
unfolding write_file_atomically
write_file_atomically-IsAtomic sys text files clean h = elim (Bool-cases sys.creates) [
  | inr refused ↦ (false, files, rw refused refl, record { target = refl; temporary = inl clean })
  | inl created ↦
      let (r, same, filled) = fill_temporary-Filled sys text files h in
      (
        (finish_write sys r files).0,
        (finish_write sys r files).1,
        ap
              (λ b.
                if b
                then finish_with sys files (fill_temporary sys text (get_file_mode files.target))
                else some (false, files))
              created
            ∙ ap (finish_with sys files) same,
        finish_write-IsAtomic sys text files r filled,
      )
]
