-- ===== src/Tests/Trees/Laws.antt =====
-- The operations on trees, and their laws.
use mathlib.Core.Option
use klip.Base.{
  Bool, true, ◌&&◌, Bytes, Option, none, some, List, [], ◌∷◌, ◌++◌, ◌≡◌, ◌≢◌, refl, ◌∙◌, ap, sym,
  arith, ◌<◌, ltb, All, equal, equal_iff, append-nil, if◌then◌else◌, Option-cases, inl, inr, pos,
  negsuc,
}
use klip.Json.{
  Json, IsLawful, Kind, leaf, object, other, Leaf, null, boolean, text, unsigned, integer, kind_at,
  stored_kind, newline,
}
use klip.Tests.Trees.Code.{
  Tree, plain, opaque, node, Members, end, member, stored, stored_members, encode, decode_text,
  decode_text-encode,
}

abbrev tree_kind : Tree → Kind
tree_kind (plain l) = leaf l
tree_kind (opaque s) = other s
tree_kind (node ms) = object

abbrev find_member : Members → Bytes → Option Tree
find_member end i = none
find_member (member k v rest) i = if equal k i then some v else find_member rest i

abbrev tree_find : Tree → Bytes → Option Tree
tree_find (plain l) i = none
tree_find (opaque s) i = none
tree_find (node ms) i = find_member ms i

abbrev assign_member : Members → Bytes → Tree → Members
assign_member end i w = member i w end
assign_member (member k v rest) i w =
    if equal k i then member k w rest else member k v (assign_member rest i w)

abbrev tree_assign : Tree → Bytes → Tree → Tree
tree_assign (plain l) i w = plain l
tree_assign (opaque s) i w = opaque s
tree_assign (node ms) i w = node (assign_member ms i w)

-- The texts of this code are ASCII.
abbrev is_ascii : Bytes → Bool
is_ascii [] = true
is_ascii (c ∷ s) = ltb c 128 && is_ascii s

abbrev is_clean_leaf : Leaf → Bool
is_clean_leaf (text s) = is_ascii s
is_clean_leaf _ = true

unfoldable mutual
  pub is_clean : Tree → Bool
  is_clean (plain l) = is_clean_leaf l
  is_clean (opaque s) = is_ascii s
  is_clean (node ms) = are_clean ms

  pub are_clean : Members → Bool
  are_clean end = true
  are_clean (member k v rest) = is_ascii k && (is_clean v && are_clean rest)

abbrev tree_parse : Bytes → Option Tree
tree_parse t = elim (decode_text t) [ none ↦ none | some v ↦ if is_clean v then some v else none ]

abbrev pub tree_json : Json
tree_json = record {
  Value = Tree;
  kind = tree_kind;
  find = tree_find;
  assign = tree_assign;
  make = plain;
  empty = node end;
  parse = tree_parse;
  dump = λ v. if is_clean v then some (encode v) else none;
  print = encode;
  utf8 = is_ascii;
}

find_member-assign_member :
    (ms : Members) (k i : Bytes) (w : Tree)
    → find_member (assign_member ms k w) i ≡ (if equal k i then some w else find_member ms i)
find_member-assign_member end k i w = refl
find_member-assign_member (member l v rest) k i w =
    ground
      (arith, equal_iff l k, equal_iff l i, equal_iff k i, find_member-assign_member rest k i w)

tree_find-tree_assign :
    (v w : Tree) (k i : Bytes)
    → tree_kind v ≡ object
    → tree_find (tree_assign v k w) i ≡ (if equal k i then some w else tree_find v i)
tree_find-tree_assign (plain l) w k i h = absurd (ground arith)
tree_find-tree_assign (opaque s) w k i h = absurd (ground arith)
tree_find-tree_assign (node ms) w k i h = find_member-assign_member ms k i w

are_clean-assign_member :
    (ms : Members) (k : Bytes) (w : Tree)
    → are_clean ms ≡ true
    → is_clean w ≡ true
    → is_ascii k ≡ true
    → are_clean (assign_member ms k w) ≡ true
unfolding is_clean
are_clean-assign_member end k w h c a = ground arith
are_clean-assign_member (member l v rest) k w h c a =
    ground (arith, are_clean-assign_member rest k w)

find_member_clean :
    (ms : Members) (k : Bytes) (w : Tree)
    → are_clean ms ≡ true
    → find_member ms k ≡ some w
    → is_clean w ≡ true
unfolding is_clean
find_member_clean end k w h e = absurd (cc)
find_member_clean (member l v rest) k w h e = ground (arith, find_member_clean rest k w)

is_ascii-All : (s : Bytes) → All (λ c. c < 128) s → is_ascii s ≡ true
is_ascii-All [] h = refl
is_ascii-All (c ∷ s) h = ground (arith, is_ascii-All s)

mutual
  unfolding is_clean stored

  stored_clean : (v : Tree) → is_clean v ≡ true → is_clean (stored v) ≡ true
  stored_clean (plain (integer (pos n))) h = refl
  stored_clean (plain l) h = ground arith
  stored_clean (opaque s) h = h
  stored_clean (node ms) h = stored_members_clean ms h

  stored_members_clean : (ms : Members) → are_clean ms ≡ true → are_clean (stored_members ms) ≡ true
  stored_members_clean end h = refl
  stored_members_clean (member k v rest) h =
      ground (arith, stored_clean v, stored_members_clean rest)

tree_kind-stored : (v : Tree) → tree_kind (stored v) ≡ stored_kind (tree_kind v)
unfolding stored
tree_kind-stored (plain null) = refl
tree_kind-stored (plain (boolean b)) = refl
tree_kind-stored (plain (text s)) = refl
tree_kind-stored (plain (unsigned n)) = refl
tree_kind-stored (plain (integer (pos n))) = refl
tree_kind-stored (plain (integer (negsuc n))) = refl
tree_kind-stored (opaque s) = refl
tree_kind-stored (node ms) = refl

find_member-stored :
    (ms : Members) (k : Bytes)
    → find_member (stored_members ms) k ≡ Option.map stored (find_member ms k)
unfolding stored
find_member-stored end k = refl
find_member-stored (member l v rest) k = ground (arith, find_member-stored rest k)

tree_find-stored :
    (v : Tree) (k : Bytes) → tree_find (stored v) k ≡ Option.map stored (tree_find v k)
unfolding stored
tree_find-stored (plain l) k = refl
tree_find-stored (opaque s) k = refl
tree_find-stored (node ms) k = find_member-stored ms k

stored_at :
    (path : List Bytes) (v : Tree)
    → kind_at tree_json path (stored v) ≡ Option.map stored_kind (kind_at tree_json path v)
stored_at [] v = ap some (tree_kind-stored v)
stored_at (k ∷ path) v = elim (Option-cases (tree_find v k)) [
  | inl absent ↦ rw (tree_find-stored v k, absent, kind_at) refl
  | inr (w, found) ↦ rw (tree_find-stored v k, found, kind_at) (stored_at path w)
]

parse_stored :
    (v : Tree) (t : Bytes) → is_clean v ≡ true → tree_parse (encode v ++ t) ≡ some (stored v)
parse_stored v t clean = rw (decode_text-encode v t, tree_parse) (rw (stored_clean v clean) refl)

parse_clean : (t : Bytes) (v : Tree) → tree_parse t ≡ some v → is_clean v ≡ true
parse_clean t v h = ground arith

tree_find_other : (v : Tree) (k : Bytes) → tree_kind v ≢ object → tree_find v k ≡ none
tree_find_other (plain l) k h = refl
tree_find_other (opaque s) k h = refl
tree_find_other (node ms) k h = absurd (h refl)

tree_kind-tree_assign :
    (v w : Tree) (k : Bytes) → tree_kind v ≡ object → tree_kind (tree_assign v k w) ≡ object
tree_kind-tree_assign (plain l) w k h = h
tree_kind-tree_assign (opaque s) w k h = h
tree_kind-tree_assign (node ms) w k h = refl

leaf_clean : (l : Leaf) → ((s : Bytes) → l ≡ text s → is_ascii s ≡ true) → is_clean (plain l) ≡ true
unfolding is_clean
leaf_clean (text s) h = h s refl
leaf_clean _ h = refl

end_clean : is_clean (node end) ≡ true
unfolding is_clean
end_clean = refl

tree_assign_clean :
    (v w : Tree) (k : Bytes)
    → is_clean v ≡ true
    → is_clean w ≡ true
    → is_ascii k ≡ true
    → is_clean (tree_assign v k w) ≡ true
unfolding is_clean
tree_assign_clean (plain l) w k h c a = h
tree_assign_clean (opaque s) w k h c a = h
tree_assign_clean (node ms) w k h c a = are_clean-assign_member ms k w h c a

tree_find_clean :
    (v w : Tree) (k : Bytes) → is_clean v ≡ true → tree_find v k ≡ some w → is_clean w ≡ true
unfolding is_clean
tree_find_clean (plain l) w k h e = absurd (cc)
tree_find_clean (opaque s) w k h e = absurd (cc)
tree_find_clean (node ms) w k h e = find_member_clean ms k w h e

dump_clean : (v : Tree) (t : Bytes) → tree_json.dump v ≡ some t → is_clean v ≡ true
dump_clean v t h = ground arith

text_clean :
    (v : Tree) (b : Bytes) → is_clean v ≡ true → tree_kind v ≡ leaf (text b) → is_ascii b ≡ true
unfolding is_clean
text_clean (plain (text s)) b h e = ground arith
text_clean (plain _) b h e = absurd (cc)
text_clean (opaque s) b h e = absurd (cc)
text_clean (node ms) b h e = absurd (cc)

pub tree_json-IsLawful : IsLawful tree_json
tree_json-IsLawful = record {
  kind-make = λ l. refl;
  kind-empty = refl;
  find-empty = λ k. refl;
  find_other = tree_find_other;
  kind-assign = tree_kind-tree_assign;
  find-assign = tree_find-tree_assign;
  IsUtf8 = λ v. is_clean v ≡ true;
  make-IsUtf8 = leaf_clean;
  empty-IsUtf8 = end_clean;
  assign-IsUtf8 = tree_assign_clean;
  find-IsUtf8 = tree_find_clean;
  parse-IsUtf8 = parse_clean;
  utf8_ascii = is_ascii-All;
  parse-print =
      λ v clean. (stored v, parse_stored v (newline ∷ []) clean, λ path. stored_at path v);
  parse-dump = λ v clean. (
    encode v,
    rw clean refl,
    (
      stored v,
      ap tree_parse (sym (append-nil (encode v))) ∙ parse_stored v [] clean,
      λ path. stored_at path v,
    ),
  );
  dump-IsUtf8 = dump_clean;
  text-IsUtf8 = text_clean;
}
