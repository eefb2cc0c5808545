-- ===== src/Colors/Tests.antt =====
-- A colour packed and read back.
use instant_message.Prelude.{◌≡◌, refl}
use instant_message.Colors.{
  RgbColor, combined, minus, convert_rgb_color_to_int64, convert_int64_to_rgb_color,
}

abbrev orange : RgbColor
orange = record { color_r = 255; color_g = 165; color_b = 0; color_alpha = 80 }

orange_packed : convert_rgb_color_to_int64 orange ≡ combined 4289003600
unfolding convert_rgb_color_to_int64
orange_packed = refl

orange_back : convert_int64_to_rgb_color 4289003600 ≡ orange
unfolding convert_int64_to_rgb_color
orange_back = refl

too_opaque : convert_rgb_color_to_int64 (record orange { color_alpha = 101 }) ≡ minus 13
unfolding convert_rgb_color_to_int64
too_opaque = refl
