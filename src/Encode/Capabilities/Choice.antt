-- ===== src/Encode/Capabilities/Choice.antt =====
-- src/encode/private/capabilities.cpp: which node is chosen.
use klip.Base.{ℕ, ◌≤◌, ◌≡◌, ◌≢◌, true, [], arith, Bool-cases, inl, inr, ◌⊎◌, if◌then◌else◌, false}
use klip.Encode.Format.{Codec, h264, hevc, av1, all_codecs}
use klip.Encode.Capabilities.{
  Capabilities, Card, probe_node, count_codecs, Search, consider, is_codec_offered, any_encodes,
}

record IsSound (s : Search) : Type 0 where
  counted : s.best_codecs ≡ count_codecs s.found.encodes
  unset : s.found.device_path ≡ [] → s.best_codecs ≡ 0

-- What the loop has done after some nodes, `n` being one of them.
record Chosen (card : ℕ → Card) (n : ℕ) (s : Search) : Type 0 where
  at_least : (card n).accessible ≡ true → count_codecs (probe_node (card n)).encodes ≤ s.best_codecs
  device : (card n).accessible ≡ true → (card n).opens ≡ true → s.found.device_path ≢ []

module _ (card : ℕ → Card) where
  visit : Search → ℕ → Search
  visit s node = if (card node).accessible then consider s node (probe_node (card node)) else s

any_of_taken :
    (c : Capabilities) (taken : Codec)
    → c.encodes taken ≡ true
    → any_encodes c.encodes all_codecs ≡ true
any_of_taken c h264 h = ground arith
any_of_taken c hevc h = ground arith
any_of_taken c av1 h = ground arith

taken_of_any :
    (c : Capabilities)
    → any_encodes c.encodes all_codecs ≡ true
    → (taken : Codec) × (c.encodes taken ≡ true)
taken_of_any c h = elim (Bool-cases (c.encodes h264)) [
  | inl e ↦ (h264, e)
  | inr e ↦ elim (Bool-cases (c.encodes hevc)) [ inl f ↦ (hevc, f) | inr f ↦ (av1, ground arith) ]
]

none_taken :
    (c : Capabilities)
    → any_encodes c.encodes all_codecs ≡ false
    → (other : Codec) → c.encodes other ≡ false
none_taken c h h264 = ground arith
none_taken c h hevc = ground arith
none_taken c h av1 = ground arith

pub offered_codec : (c : Capabilities) → (codec : Codec) × (is_codec_offered c codec ≡ true)
unfolding is_codec_offered
offered_codec c = elim (Bool-cases (any_encodes c.encodes all_codecs)) [
  | inl h ↦ let (taken, e) = taken_of_any c h in (taken, ground arith)
  | inr h ↦ (h264, rw h)
]

-- Where the card takes some codec, a codec is offered exactly if the card takes it, and one that it
-- takes is offered; where it takes none, all are offered.
pub is_codec_offered_lem :
    (c : Capabilities) (codec : Codec)
    → ((taken : Codec) × (c.encodes taken ≡ true) × (is_codec_offered c codec ≡ c.encodes codec))
      ⊎ (((other : Codec) → c.encodes other ≡ false) × (is_codec_offered c codec ≡ true))
unfolding is_codec_offered
is_codec_offered_lem c codec = elim (Bool-cases (any_encodes c.encodes all_codecs)) [
  | inl h ↦ let (taken, e) = taken_of_any c h in inl (taken, e, rw h)
  | inr h ↦ inr (none_taken c h, rw h)
]
