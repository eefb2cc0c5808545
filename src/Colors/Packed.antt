-- ===== src/Colors/Packed.antt =====
-- A colour and its number say the same (msg.go).
use Prim.Native.Nat.{bit_and, bit_or}
use instant_message.Prelude.{ℕ, ◌+◌, ◌*◌, ◌/◌, ◌%◌, ◌^◌, ◌<◌, ◌≤◌, ◌≡◌, refl, ◌∙◌, ap, arith}
use instant_message.Snowflake.Bits.{bit_or_disjoint, bit_and-ones}
use instant_message.Colors.{
  RgbColor, combined, appended, convert_rgb_color_to_int64, convert_int64_to_rgb_color,
}

appended-sum : (s p : ℕ) → s < 2 ^ 24 → p < 2 ^ 8 → appended s p ≡ s * 2 ^ 8 + p
appended-sum s p h k =
    let small : s * 2 ^ 8 % 2 ^ 64 ≡ s * 2 ^ 8 = omega arith in
    ap (λ t. bit_or t p) small ∙ bit_or_disjoint 8 s p k

abbrev sum_of : (r g b alpha : ℕ) → ℕ
sum_of r g b alpha = ((r * 2 ^ 8 + g) * 2 ^ 8 + b) * 2 ^ 8 + alpha

-- The number of four components that fit in a byte each.
number_of :
    (r g b alpha : ℕ)
    → r ≤ 255
    → g ≤ 255
    → b ≤ 255
    → alpha ≤ 255
    → appended (appended (appended (bit_or 0 r) g) b) alpha ≡ sum_of r g b alpha
number_of r g b alpha hr hg hb ha =
    let start : bit_or 0 r ≡ r = bit_or_disjoint 8 0 r (omega arith) ∙ omega arith in
    let one = appended-sum r g (omega arith) (omega arith) in
    let two = appended-sum (r * 2 ^ 8 + g) b (omega arith) (omega arith) in
    let three = appended-sum ((r * 2 ^ 8 + g) * 2 ^ 8 + b) alpha (omega arith) (omega arith) in
    ap (λ t. appended (appended (appended t g) b) alpha) start
    ∙ ap (λ t. appended (appended t b) alpha) one
    ∙ ap (λ t. appended t alpha) two
    ∙ three

parts_of :
    (r g b alpha : ℕ)
    → r ≤ 255
    → g ≤ 255
    → b ≤ 255
    → alpha ≤ 255
    → convert_int64_to_rgb_color (sum_of r g b alpha)
      ≡ record { color_r = r; color_g = g; color_b = b; color_alpha = alpha }
unfolding convert_int64_to_rgb_color
parts_of r g b alpha hr hg hb ha =
    let n = sum_of r g b alpha in
    let at_r : bit_and (n / 2 ^ 24) 0xff ≡ r = omega (arith, bit_and-ones 8 (n / 2 ^ 24)) in
    let at_g : bit_and (n / 2 ^ 16) 0xff ≡ g = omega (arith, bit_and-ones 8 (n / 2 ^ 16)) in
    let at_b : bit_and (n / 2 ^ 8) 0xff ≡ b = omega (arith, bit_and-ones 8 (n / 2 ^ 8)) in
    let at_alpha : bit_and n 0xff ≡ alpha = omega (arith, bit_and-ones 8 n) in
    rw (at_r, at_g, at_b, at_alpha) refl

-- The number of a colour, in arithmetic.
abbrev pub packed : RgbColor → ℕ
packed color = sum_of color.color_r color.color_g color.color_b color.color_alpha

module _ (color : RgbColor) (r_fits : color.color_r ≤ 255) (g_fits : color.color_g ≤ 255)
    (b_fits : color.color_b ≤ 255) (alpha_fits : color.color_alpha ≤ 100) where
  combined_number : convert_rgb_color_to_int64 color ≡ combined (packed color)
  unfolding convert_rgb_color_to_int64
  combined_number = ground (
    arith,
    number_of color.color_r color.color_g color.color_b color.color_alpha r_fits g_fits b_fits
        (omega arith),
  )

  -- A colour whose components fit, the opacity in a hundred, is combined to its number, which is below 2 ^ 32,
  -- and is read back from it.
  pub color_roundtrip :
      (convert_rgb_color_to_int64 color ≡ combined (packed color))
      × (packed color < 2 ^ 32)
      × (convert_int64_to_rgb_color (packed color) ≡ color)
  color_roundtrip = (
    combined_number,
    omega arith,
    parts_of color.color_r color.color_g color.color_b color.color_alpha r_fits g_fits b_fits
        (omega arith),
  )
