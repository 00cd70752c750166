-- ===== src/Base/Text.antt =====
-- A C++ string is the list of its bytes.
use Prim.Native.Char.{code}
use Prim.Native.String.{String}
use Prim.Native.Nat.{ℕ, zero, suc, ◌+◌, ◌%◌, ◌/◌}
use mathlib.Core.Path.{◌≡◌, refl}
use mathlib.Core.Logic.{◌↔◌}
use mathlib.Core.Bool.{Bool, true, false, ◌&&◌}
use mathlib.Core.List.{List, [], ◌∷◌, ◌++◌}
use mathlib.Core.Option.{Option, none, some}
use native.Mathlib.Omega.{arith}
use klip.Base.Tests.{◌==◌, ltb, if◌then◌else◌}

abbrev pub Bytes : Type 0
Bytes = List ℕ

-- The bytes of an ASCII text.
abbrev pub codes : String → Bytes
codes String.[] = []
codes (String.◌∷◌ c s) = code c ∷ codes s

-- `text.empty()`.
abbrev pub is_empty {ℓ} : {A : Type ℓ} → List A → Bool
is_empty [] = true
is_empty (c ∷ text) = false

-- `==` of two strings.
unfoldable pub equal : Bytes → Bytes → Bool
equal [] right = is_empty right
equal (l ∷ left) [] = false
equal (l ∷ left) (r ∷ right) = l == r && equal left right

-- What follows the prefix, if the text starts with it: `starts_with` and `remove_prefix` at once.
abbrev pub strip_prefix : Bytes → Bytes → Option Bytes
strip_prefix [] text = some text
strip_prefix (p ∷ ps) [] = none
strip_prefix (p ∷ ps) (c ∷ cs) = if p == c then strip_prefix ps cs else none

pub strip_prefix-append : (p text : Bytes) → strip_prefix p (p ++ text) ≡ some text
strip_prefix-append [] text = refl
strip_prefix-append (c ∷ p) text = ground (arith, strip_prefix-append p text)

equal_sound : (left right : Bytes) → equal left right ≡ true → left ≡ right
unfolding equal
equal_sound [] [] h = refl
equal_sound [] (r ∷ right) h = absurd (cc h)
equal_sound (l ∷ left) [] h = absurd (cc h)
equal_sound (l ∷ left) (r ∷ right) h = ground (arith, equal_sound left right)

pub equal_self : (text : Bytes) → equal text text ≡ true
unfolding equal
equal_self [] = refl
equal_self (c ∷ text) = ground (arith, equal_self text)

pub equal_iff : (left right : Bytes) → (equal left right ≡ true) ↔ (left ≡ right)
equal_iff left right = (equal_sound left right, λ same. rw same (equal_self right))

-- The decimal digits of a number, in front of `rest`; the fuel is above the number.
pub decimal_onto : ℕ → ℕ → Bytes → Bytes
decimal_onto zero n rest = rest
decimal_onto (suc fuel) n rest =
    let digits = (48 + n % 10) ∷ rest in
    let more = decimal_onto fuel (n / 10) digits in if ltb n 10 then digits else more

-- `std::format("{}", n)`.
unfoldable pub decimal : ℕ → Bytes
unfolding decimal_onto
decimal n = decimal_onto (suc n) n []
