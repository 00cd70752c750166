-- ===== src/Json/Files.antt =====
-- src/json/private/files.cpp: `ReadFile` and `WriteFileAtomically`. What the system answers of each
-- call is an argument; the loops take one answer for each call of `read` and `write`, and are `none`
-- while they wait for a further one.
pub mod Atomic
pub mod Limits
use klip.Base.{
  ℕ, zero, suc, ◌-◌, ◌%◌, ◌≤◌, Bool, true, false, not, ◌&&◌, ◌||◌, Bytes, Option, none, some, List,
  [], ◌∷◌, ◌++◌, is_empty, length, leb, ltb, ◌==◌, if◌then◌else◌,
}

-- The first n elements, and what follows them.
abbrev pub take : ℕ → Bytes → Bytes
take zero t = []
take (suc n) [] = []
take (suc n) (c ∷ t) = c ∷ take n t

abbrev pub drop : ℕ → Bytes → Bytes
drop zero t = t
drop (suc n) [] = []
drop (suc n) (c ∷ t) = drop n t

-- A file with its permissions.
pub record Stored : Type 0 where
  pub content : Bytes
  pub mode : ℕ

-- The file that is to be replaced, and the temporary one beside it.
pub record Files : Type 0 where
  pub target : Option Stored
  pub temporary : Option Stored

abbrev pub new_file_mode : ℕ
new_file_mode = 420

-- `& PermissionBits`, the low twelve bits.
unfoldable pub get_file_mode : Option Stored → ℕ
get_file_mode none = new_file_mode
get_file_mode (some f) = f.mode % 4096

-- What `write` answers: a positive count, zero, EINTR, or another error.
pub data WriteAnswer : Type 0 where
  wrote : ℕ → WriteAnswer
  wrote_nothing write_interrupted write_failed : WriteAnswer

-- `WriteAll`, with the bytes that are left to write and those in the file: whether all were
-- written, and the file. A count is one more than the number.
unfoldable pub write_all : List WriteAnswer → Bytes → Bytes → Option (Bool × Bytes)
write_all answers [] file = some (true, file)
write_all [] (c ∷ rest) file = none
write_all (wrote n ∷ answers) (c ∷ rest) file =
    write_all answers (drop n rest) (file ++ (c ∷ take n rest))
write_all (wrote_nothing ∷ answers) (c ∷ rest) file = some (false, file)
write_all (write_interrupted ∷ answers) (c ∷ rest) file = write_all answers (c ∷ rest) file
write_all (write_failed ∷ answers) (c ∷ rest) file = some (false, file)

-- What the system answers of the other calls of `WriteFileAtomically`.
pub record System : Type 0 where
  pub creates : Bool
  pub sets_mode : Bool
  pub writes : List WriteAnswer
  pub flushes : Bool
  pub closes : Bool
  pub renames : Bool
  pub removes : Bool

-- `mkostemp` makes a file with mode 0600. The calls on the open temporary file: whether they and the closing worked, and the file.
unfoldable pub fill_temporary : System → Bytes → ℕ → Option (Bool × Stored)
unfolding write_all
fill_temporary sys text mode =
    if sys.sets_mode
    then elim (write_all sys.writes text []) [
      | none ↦ none
      | some r ↦ some (r.0 && sys.flushes && sys.closes, record { content = r.1; mode = mode })
    ]
    else some (false, record { content = []; mode = 384 })

-- The rename, and the removal of the temporary file where something failed.
unfoldable pub finish_write : System → Bool × Stored → Files → Bool × Files
finish_write sys (filled, temporary) files =
    if filled && sys.renames
    then (true, record { target = some temporary; temporary = none })
    else (false, record files { temporary = if sys.removes then none else some temporary })

abbrev pub finish_with : System → Files → Option (Bool × Stored) → Option (Bool × Files)
finish_with sys files none = none
finish_with sys files (some r) = some (finish_write sys r files)

-- Whether the text was stored, and the files; `files` has no temporary file of this call.
unfoldable pub write_file_atomically : System → Bytes → Files → Option (Bool × Files)
unfolding fill_temporary finish_write get_file_mode
write_file_atomically sys text files =
    if sys.creates
    then finish_with sys files (fill_temporary sys text (get_file_mode files.target))
    else some (false, files)

pub data FileKind : Type 0 where
  regular directory other_kind : FileKind

-- What `read` answers: bytes, of which none are the end, EINTR, or another error.
pub data ReadAnswer : Type 0 where
  got : Bytes → ReadAnswer
  read_interrupted read_failed : ReadAnswer

pub data ReadError : Type 0 where
  cannot_open cannot_stat is_a_directory invalid_argument file_too_large read_error : ReadError

pub data FileText : Type 0 where
  text_of : Bytes → FileText
  unreadable : ReadError → FileText

pub record Source : Type 0 where
  pub opens : Bool
  pub stats : Bool
  pub kind : FileKind
  pub size : ℕ
  pub reads : List ReadAnswer

-- The loop, with the bytes that fit still and those that were read; `read` gives no more than fit.
unfoldable pub read_all : List ReadAnswer → ℕ → Bytes → Option FileText
read_all [] room t = none
read_all (got [] ∷ answers) room t = some (text_of t)
read_all (got (c ∷ bytes) ∷ answers) room t =
    let piece = take room (c ∷ bytes) in
    let more = read_all answers (room - length piece) (t ++ piece) in
    if leb room (length piece) then some (text_of (t ++ piece)) else more
read_all (read_interrupted ∷ answers) room t = read_all answers room t
read_all (read_failed ∷ answers) room t = some (unreadable read_error)

unfoldable pub read_kind : Source → ℕ → FileKind → Option FileText
unfolding read_all
read_kind s max_size directory = some (unreadable is_a_directory)
read_kind s max_size other_kind = some (unreadable invalid_argument)
read_kind s max_size regular =
    if ltb max_size s.size then some (unreadable file_too_large) else read_all s.reads s.size []

unfoldable pub read_file : Source → ℕ → Option FileText
unfolding read_kind
read_file s max_size =
    if not s.opens
    then some (unreadable cannot_open)
    else if not s.stats
    then some (unreadable cannot_stat)
    else read_kind s max_size s.kind
