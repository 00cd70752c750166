-- ===== src/Encode/Quality/Ladder.antt =====
-- src/encode/public/encode/quality.hpp: the order of the qualities, and the estimate's arithmetic.
use klip.Base.{ℕ, ◌*◌, ◌/◌, ◌%◌, ◌^◌, ◌≤◌, ◌<◌, ◌≡◌, refl, arith, ap, ◌∙◌}
use native.Mathlib.Nat.{mul_assoc, mul-le-mul, mul-le-mul_right, mod-eq_of_lt}
use klip.Encode.Format.{Codec, codec_index}
use klip.Encode.Quality.{
  Quality, smallest, quality_index, get_quality_name, parse_quality, get_audio_bits_per_second,
  resolve_codec_quality, resolve_global_quality, estimate_bits_per_second,
}

-- A quality is read back from the name written for it, whatever the fallback.
pub parse_quality-get_quality_name :
    (quality fallback : Quality) → parse_quality (get_quality_name quality) fallback ≡ quality
unfolding parse_quality get_quality_name
parse_quality-get_quality_name smallest fallback = refl
parse_quality-get_quality_name _ fallback = refl

abbrev pub bits : Codec → Quality → ℕ
bits codec quality = (resolve_codec_quality codec quality).bits_per_pixel

bits-le : (codec : Codec) (quality : Quality) → bits codec quality ≤ 78
unfolding resolve_codec_quality
bits-le codec quality = ground arith

bits-ordered :
    (older newer : Codec) (a b : Quality)
    → codec_index older ≤ codec_index newer
    → quality_index a ≤ quality_index b
    → bits newer a ≤ bits older b
unfolding resolve_codec_quality
bits-ordered older newer a b h q = ground arith

-- The pixels of a second of any screen there is, so that 64 bits hold their product with `bits`.
abbrev pub pixel_limit : ℕ
pixel_limit = 2 ^ 57

exact : (b w h f : ℕ) → w * h * f < pixel_limit → b ≤ 78 → b * w * h * f % 2 ^ 64 ≡ b * (w * h * f)
exact b w h f p q =
    let e = ap (λ x. x * f) (mul_assoc b w h) ∙ mul_assoc b (w * h) f in
    let small = mul-le-mul q (le_of p) in mod-eq_of_lt (rw e (omega arith)) ∙ e
  where
    le_of : w * h * f < pixel_limit → w * h * f ≤ pixel_limit
    le_of p = omega arith

estimate_lem :
    (codec : Codec) (quality : Quality) (w h f : ℕ)
    → w * h * f < pixel_limit
    → estimate_bits_per_second codec quality w h f ≡ bits codec quality * (w * h * f) / 10000
unfolding estimate_bits_per_second
estimate_lem codec quality w h f p =
    ap (λ x. x / 10000) (exact (bits codec quality) w h f p (bits-le codec quality))

div-ordered : (a b : ℕ) → a ≤ b → a / 10000 ≤ b / 10000
div-ordered a b h = omega arith

-- For fewer than 2^57 pixels a second the estimate does not wrap, and is never higher for a newer
-- codec or a lower quality.
pub estimate_bits_per_second-ordered :
    (older newer : Codec) (a b : Quality) (width height rate : ℕ)
    → width * height * rate < pixel_limit
    → codec_index older ≤ codec_index newer
    → quality_index a ≤ quality_index b
    → (estimate_bits_per_second newer a width height rate
        ≡ (resolve_codec_quality newer a).bits_per_pixel * (width * height * rate) / 10000)
      × (estimate_bits_per_second newer a width height rate
          ≤ estimate_bits_per_second older b width height rate)
estimate_bits_per_second-ordered older newer a b width height rate p h q =
    let x = estimate_lem newer a width height rate p in
    let y = estimate_lem older b width height rate p in
    (
      x,
      rw (x, y)
          (div-ordered _ _
            (mul-le-mul_right (width * height * rate) (bits-ordered older newer a b h q))),
    )

-- The steps of quality, from one to the next better: each codec's quantiser goes down and its bits
-- go up, and so do the bits of the sound.
pub quality_entries-ordered :
    (codec : Codec) (a b : Quality)
    → quality_index a < quality_index b
    → (resolve_global_quality codec b < resolve_global_quality codec a)
      × (bits codec a < bits codec b)
      × (get_audio_bits_per_second a < get_audio_bits_per_second b)
unfolding resolve_global_quality resolve_codec_quality get_audio_bits_per_second
quality_entries-ordered codec a b h = ground arith
