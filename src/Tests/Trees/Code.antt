-- ===== src/Tests/Trees/Code.antt =====
-- The trees, and a code that the parser reads back.
use klip.Base.{
  ℕ, zero, suc, ◌+◌, ◌≤◌, Bool, true, false, Bytes, Option, none, some, [], ◌∷◌, ◌++◌, ◌≡◌, refl,
  ◌∙◌, ap, arith, pos, negsuc, length, length-append, append_assoc, ◌==◌, if◌then◌else◌,
}
use klip.Json.{Leaf, null, boolean, text, unsigned, integer}

mutual
  pub data Tree : Type 0 where
    plain : Leaf → Tree
    opaque : Bytes → Tree
    node : Members → Tree

  pub data Members : Type 0 where
    end : Members
    member : Bytes → Tree → Members → Members

abbrev pub stored_leaf : Leaf → Leaf
stored_leaf (integer (pos n)) = unsigned n
stored_leaf l = l

unfoldable mutual
  pub stored : Tree → Tree
  stored (plain l) = plain (stored_leaf l)
  stored (opaque s) = opaque s
  stored (node ms) = node (stored_members ms)

  pub stored_members : Members → Members
  stored_members end = end
  stored_members (member k v rest) = member k (stored v) (stored_members rest)

abbrev flag : Bool → ℕ
flag true = 1
flag false = 0

abbrev encode_leaf : Leaf → Bytes
encode_leaf null = 0 ∷ []
encode_leaf (boolean b) = 1 ∷ flag b ∷ []
encode_leaf (text s) = 2 ∷ length s ∷ s
encode_leaf (unsigned n) = 3 ∷ n ∷ []
encode_leaf (integer (pos n)) = 3 ∷ n ∷ []
encode_leaf (integer (negsuc n)) = 4 ∷ n ∷ []

unfoldable mutual
  pub encode : Tree → Bytes
  encode (plain l) = encode_leaf l
  encode (opaque s) = 6 ∷ length s ∷ s
  encode (node ms) = 5 ∷ encode_members ms

  pub encode_members : Members → Bytes
  encode_members end = 0 ∷ []
  encode_members (member k v rest) = 1 ∷ length k ∷ (k ++ (encode v ++ encode_members rest))

-- The first n bytes, and the others.
abbrev split : ℕ → Bytes → Option (Bytes × Bytes)
split zero t = some ([], t)
split (suc n) [] = none
split (suc n) (c ∷ t) = elim (split n t) [ none ↦ none | some p ↦ some (c ∷ p.0, p.1) ]

split-length : (s t : Bytes) → split (length s) (s ++ t) ≡ some (s, t)
split-length [] t = refl
split-length (c ∷ s) t = rw (split-length s t) refl

abbrev text_leaf : Option (Bytes × Bytes) → Option (Tree × Bytes)
text_leaf none = none
text_leaf (some (s, t)) = some (plain (text s), t)

abbrev opaque_leaf : Option (Bytes × Bytes) → Option (Tree × Bytes)
opaque_leaf none = none
opaque_leaf (some (s, t)) = some (opaque s, t)

abbrev as_node : Option (Members × Bytes) → Option (Tree × Bytes)
as_node none = none
as_node (some (ms, t)) = some (node ms, t)

abbrev decode_leaf : ℕ → Bytes → Option (Tree × Bytes)
decode_leaf tag [] = if tag == 0 then some (plain null, []) else none
decode_leaf tag (c ∷ t) =
    if tag == 0
    then some (plain null, c ∷ t)
    else if tag == 1
    then some (plain (boolean (c == 1)), t)
    else if tag == 2
    then text_leaf (split c t)
    else if tag == 3
    then some (plain (unsigned c), t)
    else if tag == 4
    then some (plain (integer (negsuc c)), t)
    else if tag == 6
    then opaque_leaf (split c t)
    else none

abbrev add_member : Bytes → Tree → Option (Members × Bytes) → Option (Members × Bytes)
add_member k v none = none
add_member k v (some (ms, t)) = some (member k v ms, t)

unfoldable mutual
  pub decode : ℕ → Bytes → Option (Tree × Bytes)
  decode zero t = none
  decode (suc f) [] = none
  decode (suc f) (tag ∷ t) =
      let inner = as_node (decode_members f t) in if tag == 5 then inner else decode_leaf tag t

  pub decode_members : ℕ → Bytes → Option (Members × Bytes)
  decode_members zero t = none
  decode_members (suc f) [] = none
  decode_members (suc f) (tag ∷ []) = if tag == 0 then some (end, []) else none
  decode_members (suc f) (tag ∷ n ∷ t) =
      let more : Option (Members × Bytes) = elim (split n t) [
        | none ↦ none
        | some p ↦ elim (decode f p.1) [
          | none ↦ none
          | some q ↦ add_member p.0 q.0 (decode_members f q.1)
        ]
      ] in
      if tag == 0 then some (end, n ∷ t) else more

decode_leaf-encode_leaf :
    (f : ℕ) (l : Leaf) (t : Bytes)
    → decode (suc f) (encode_leaf l ++ t) ≡ some (plain (stored_leaf l), t)
unfolding decode
decode_leaf-encode_leaf f null [] = refl
decode_leaf-encode_leaf f null (c ∷ t) = refl
decode_leaf-encode_leaf f (boolean true) t = refl
decode_leaf-encode_leaf f (boolean false) t = refl
decode_leaf-encode_leaf f (text s) t = rw (split-length s t, text_leaf) refl
decode_leaf-encode_leaf f (unsigned n) t = refl
decode_leaf-encode_leaf f (integer (pos n)) t = refl
decode_leaf-encode_leaf f (integer (negsuc n)) t = refl

unfoldable mutual
  need : Tree → ℕ
  need (plain l) = 1
  need (opaque s) = 1
  need (node ms) = suc (need_members ms)

  need_members : Members → ℕ
  need_members end = 1
  need_members (member k v rest) = suc (need v + need_members rest)

decode_members-member :
    (f : ℕ) (k : Bytes) (v : Tree) (t : Bytes) {w : Tree}
    → decode f (encode v ++ t) ≡ some (w, t)
    → decode_members (suc f) ((1 ∷ length k ∷ k) ++ (encode v ++ t))
      ≡ add_member k w (decode_members f t)
unfolding decode
decode_members-member f k v t e = rw (split-length k (encode v ++ t), decode_members) (rw e refl)

mutual
  unfolding decode encode stored need

  decode-encode :
      (f : ℕ) (v : Tree) (t : Bytes) → need v ≤ f → decode f (encode v ++ t) ≡ some (stored v, t)
  decode-encode zero (plain l) t h = absurd (omega arith)
  decode-encode zero (opaque s) t h = absurd (omega arith)
  decode-encode zero (node ms) t h = absurd (omega arith)
  decode-encode (suc f) (plain l) t h = decode_leaf-encode_leaf f l t
  decode-encode (suc f) (opaque s) t h = rw (split-length s t, opaque_leaf) refl
  decode-encode (suc f) (node ms) t h =
      rw (decode_members-encode f ms t (omega arith), as_node) refl

  decode_members-encode :
      (f : ℕ) (ms : Members) (t : Bytes)
      → need_members ms ≤ f
      → decode_members f (encode_members ms ++ t) ≡ some (stored_members ms, t)
  decode_members-encode zero end t h = absurd (omega arith)
  decode_members-encode zero (member k v rest) t h = absurd (omega arith)
  decode_members-encode (suc f) end [] h = refl
  decode_members-encode (suc f) end (c ∷ t) h = refl
  decode_members-encode (suc f) (member k v rest) t h =
      rw (append_assoc k (encode v ++ encode_members rest) t) (
        rw (append_assoc (encode v) (encode_members rest) t) (
          decode_members-member f k v (encode_members rest ++ t)
            (decode-encode f v (encode_members rest ++ t) (omega arith))
          ∙ ap (add_member k (stored v)) (decode_members-encode f rest t (omega arith))))

mutual
  unfolding encode need

  need-le : (v : Tree) → need v ≤ length (encode v)
  need-le (plain null) = omega arith
  need-le (plain (boolean b)) = omega arith
  need-le (plain (text s)) = omega arith
  need-le (plain (unsigned n)) = omega arith
  need-le (plain (integer (pos n))) = omega arith
  need-le (plain (integer (negsuc n))) = omega arith
  need-le (opaque s) = omega arith
  need-le (node ms) = omega (arith, need_members-le ms)

  need_members-le : (ms : Members) → need_members ms ≤ length (encode_members ms)
  need_members-le end = omega arith
  need_members-le (member k v rest) = omega (
    arith,
    need-le v,
    need_members-le rest,
    length-append k (encode v ++ encode_members rest),
    length-append (encode v) (encode_members rest),
  )

unfoldable pub decode_text : Bytes → Option Tree
unfolding decode
decode_text t = elim (decode (length t) t) [ none ↦ none | some p ↦ some p.0 ]

pub decode_text-encode : (v : Tree) (t : Bytes) → decode_text (encode v ++ t) ≡ some (stored v)
unfolding decode_text
decode_text-encode v t =
    rw
      (
        decode-encode (length (encode v ++ t)) v t
            (omega (arith, need-le v, length-append (encode v) t)),
        decode_text,
      )
      refl
