-- ===== src/Colors.antt =====
-- common-library/convert/msg.go: a colour as one number, and back. A component is the bit pattern of an int32,
-- so that a negative one is above 255 too; a number is that of an int64.
pub mod Packed
pub mod Tests
use Prim.Native.Nat.{bit_and, bit_or}
use instant_message.Prelude.{ℕ, ◌*◌, ◌/◌, ◌%◌, ◌^◌, ltb, if◌then◌else◌}

pub record RgbColor : Type 0 where
  pub color_r : ℕ
  pub color_g : ℕ
  pub color_b : ℕ
  pub color_alpha : ℕ

-- `minus n` is the error -n.
pub data Combined : Type 0 where
  minus combined : ℕ → Combined

-- `sum<<8 | part`.
abbrev pub appended : (sum part : ℕ) → ℕ
appended sum part = bit_or (sum * 2 ^ 8 % 2 ^ 64) part

unfoldable pub convert_rgb_color_to_int64 : RgbColor → Combined
convert_rgb_color_to_int64 color =
    if ltb 255 color.color_r
    then minus 10
    else if ltb 255 color.color_g
    then minus 11
    else if ltb 255 color.color_b
    then minus 12
    else if ltb 100 color.color_alpha
    then minus 13
    else combined (
        appended (appended (appended (bit_or 0 color.color_r) color.color_g) color.color_b)
          color.color_alpha)

unfoldable pub convert_int64_to_rgb_color : ℕ → RgbColor
convert_int64_to_rgb_color n = record {
  color_r = bit_and (n / 2 ^ 24) 0xff;
  color_g = bit_and (n / 2 ^ 16) 0xff;
  color_b = bit_and (n / 2 ^ 8) 0xff;
  color_alpha = bit_and n 0xff;
}
