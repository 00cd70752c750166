-- ===== src/Json/Files/Limits.antt =====
-- src/json/private/files.cpp: what `ReadFile` gives of a file.
use klip.Base.{
  ℕ, zero, suc, ◌-◌, ◌≤◌, true, Bytes, some, List, [], ◌∷◌, ◌++◌, ◌≡◌, refl, ◌∙◌, sym, ap, arith,
  length, append_assoc, append-nil, leb, ltb, Bool-cases, inl, inr, ◌⊎◌,
}
use klip.Json.Files.{
  take, ReadAnswer, got, read_interrupted, read_failed, FileText, text_of, unreadable, Source,
  FileKind, regular, directory, other_kind, read_all, read_kind, read_file, file_too_large,
  cannot_open, cannot_stat, is_a_directory, invalid_argument, read_error,
}

-- What the answers hold of the file, up to its end.
abbrev pub given : List ReadAnswer → Bytes
given [] = []
given (got [] ∷ answers) = []
given (got (c ∷ bytes) ∷ answers) = c ∷ bytes ++ given answers
given (read_interrupted ∷ answers) = given answers
given (read_failed ∷ answers) = []

-- The answers that end the loop or bring it a byte further.
abbrev pub arrivals : List ReadAnswer → ℕ
arrivals [] = 0
arrivals (read_interrupted ∷ answers) = arrivals answers
arrivals (_ ∷ answers) = suc (arrivals answers)

length-take : (n : ℕ) (t : Bytes) → length (take n t) ≤ n
length-take zero t = omega arith
length-take (suc n) [] = omega arith
length-take (suc n) (c ∷ t) = omega (arith, length-take n t)

take-full : (n : ℕ) (t u : Bytes) → n ≤ length (take n t) → take n (t ++ u) ≡ take n t
take-full zero t u h = refl
take-full (suc n) [] u h = absurd (omega arith)
take-full (suc n) (c ∷ t) u h = ap (λ r. c ∷ r) (take-full n t u (omega arith))

take-append :
    (n : ℕ) (t u : Bytes)
    → suc (length (take n t)) ≤ n
    → take n (t ++ u) ≡ take n t ++ take (n - length (take n t)) u
take-append zero t u h = absurd (omega arith)
take-append (suc n) [] u h = let all : suc n ≡ suc n - 0 = omega arith in ap (λ m. take m u) all
take-append (suc n) (c ∷ t) u h =
    let less : n - length (take n t) ≡ suc n - suc (length (take n t)) = omega arith in
    ap (λ r. c ∷ r) (take-append n t u (omega arith) ∙ ap (λ m. take n t ++ take m u) less)

length-take-cons : (n c : ℕ) (t : Bytes) → n ≡ 0 ⊎ (1 ≤ length (take n (c ∷ t)))
length-take-cons zero c t = inl refl
length-take-cons (suc n) c t = inr (omega arith)

-- The loop ends, and a text that it gives is what the file held, up to the room.
record Reads (answers : List ReadAnswer) (room : ℕ) (t : Bytes) : Type 0 where
  result : FileText
  same : read_all answers room t ≡ some result
  text : (u : Bytes) → result ≡ text_of u → u ≡ t ++ take room (given answers)

text_of-inj : (t u : Bytes) → text_of t ≡ text_of u → u ≡ t
text_of-inj t u h = cc

read_all-full :
    (answers : List ReadAnswer) (room c : ℕ) (bytes t : Bytes)
    → leb room (length (take room (c ∷ bytes))) ≡ true
    → Reads (got (c ∷ bytes) ∷ answers) room t
unfolding read_all
read_all-full answers room c bytes t full =
    let piece : Bytes = take room (c ∷ bytes) in
    let all : take room (c ∷ bytes ++ given answers) ≡ piece =
      take-full room (c ∷ bytes) (given answers) (ground arith) in
    record {
      result = text_of (t ++ piece);
      same = cc;
      text = λ u e. text_of-inj (t ++ piece) u e ∙ ap (λ r. t ++ r) (sym all);
    }

read_all-Reads :
    (answers : List ReadAnswer) (room : ℕ) (t : Bytes)
    → suc room ≤ arrivals answers
    → Reads answers room t
unfolding read_all
read_all-Reads [] room t h = absurd (omega arith)
read_all-Reads (got [] ∷ answers) zero t h = record {
  result = text_of t;
  same = refl;
  text = λ u e. text_of-inj t u e ∙ sym (append-nil t);
}
read_all-Reads (got [] ∷ answers) (suc room) t h = record {
  result = text_of t;
  same = refl;
  text = λ u e. text_of-inj t u e ∙ sym (append-nil t);
}
read_all-Reads (got (c ∷ bytes) ∷ answers) room t h =
    let piece : Bytes = take room (c ∷ bytes) in
    elim (Bool-cases (leb room (length piece))) [
      | inl full ↦ read_all-full answers room c bytes t full
      | inr space ↦
          let part = take-append room (c ∷ bytes) (given answers) (ground arith) in
          let some_read = length-take-cons room c bytes in
          let rest = read_all-Reads answers (room - length piece) (t ++ piece) (ground arith) in
          record {
            result = rest.result;
            same = cc (rest.same);
            text = λ u e.
                rest.text u e
                ∙ append_assoc t piece (take (room - length piece) (given answers))
                ∙ ap (λ r. t ++ r) (sym part);
          }
    ]
read_all-Reads (read_interrupted ∷ answers) room t h =
    let r = read_all-Reads answers room t h in
    record { result = r.result; same = r.same; text = r.text }
read_all-Reads (read_failed ∷ answers) room t h = record {
  result = unreadable read_error;
  same = refl;
  text = λ u e. absurd (cc);
}

-- What `ReadFile` promises of a file's text.
pub record Holds (s : Source) (max_size : ℕ) (t : Bytes) : Type 0 where
  pub same : t ≡ take s.size (given s.reads)
  pub small : length t ≤ max_size

abbrev pub Gives : Source → ℕ → FileText → Type 0
Gives s max_size (text_of t) = Holds s max_size t
Gives s max_size (unreadable e) = Unit

pub record Answers (s : Source) (max_size : ℕ) : Type 0 where
  pub result : FileText
  pub same : read_file s max_size ≡ some result
  pub text : Gives s max_size result

take-Holds :
    (s : Source) (max_size : ℕ) (t : Bytes)
    → t ≡ take s.size (given s.reads)
    → s.size ≤ max_size
    → Holds s max_size t
take-Holds s max_size t same fits = record {
  same = same;
  small = ground (arith, length-take s.size (given s.reads));
}

read-Gives :
    (s : Source) (max_size : ℕ) (r : FileText)
    → ((u : Bytes) → r ≡ text_of u → u ≡ take s.size (given s.reads))
    → s.size ≤ max_size
    → Gives s max_size r
read-Gives s max_size (text_of t) same fits = take-Holds s max_size t (same t refl) fits
read-Gives s max_size (unreadable e) same fits = tt

read_kind-Answers :
    (s : Source) (max_size : ℕ) (kind : FileKind)
    → suc s.size ≤ arrivals s.reads
    → read_file s max_size ≡ read_kind s max_size kind
    → Answers s max_size
unfolding read_kind
read_kind-Answers s max_size directory enough same = record {
  result = unreadable is_a_directory;
  same = same;
  text = tt;
}
read_kind-Answers s max_size other_kind enough same = record {
  result = unreadable invalid_argument;
  same = same;
  text = tt;
}
read_kind-Answers s max_size regular enough same = elim (Bool-cases (ltb max_size s.size)) [
  | inl large ↦ record { result = unreadable file_too_large; same = cc; text = tt }
  | inr fits ↦
      let r = read_all-Reads s.reads s.size [] enough in
      record {
        result = r.result;
        same = same ∙ (cc (r.same));
        text = read-Gives s max_size r.result r.text (ground arith);
      }
]

-- Whatever the system answers, when it answers often enough `ReadFile` ends, and a text that it
-- gives is what the file held up to the size it had, and no larger than the limit, also where the
-- file grows or shrinks meanwhile.
pub read_file-Answers :
    (s : Source) (max_size : ℕ) → suc s.size ≤ arrivals s.reads → Answers s max_size
unfolding read_file
read_file-Answers s max_size enough = elim (Bool-cases s.opens) [
  | inr closed ↦ record { result = unreadable cannot_open; same = cc; text = tt }
  | inl opened ↦ elim (Bool-cases s.stats) [
    | inr unknown ↦ record { result = unreadable cannot_stat; same = cc; text = tt }
    | inl known ↦ read_kind-Answers s max_size s.kind enough (cc)
  ]
]
