-- ===== src/Format/Tests.antt =====
-- Concrete numbers.
use image_proxy.Base.{◌≡◌, refl, none, some, codes}
use image_proxy.Base.Int.{negsuc}
use image_proxy.Format.{
  fill, fill_signed, formatidiv_hex, formatidiv_bin, formatidiv_signed, as_unsigned,
  formatidiv_integer,
}

padded_run : formatidiv_signed 32 10 (negsuc 122) 8 32 ≡ some (codes "    -123")
unfolding formatidiv_signed fill_signed
padded_run = refl

-- A number that is too wide loses its first digits, and its sign where the padding is not by zeros.
narrow_run : formatidiv_signed 32 10 (negsuc 122) 3 32 ≡ some (codes "123")
unfolding formatidiv_signed fill_signed
narrow_run = refl

smallest_run : formatidiv_signed 8 10 (negsuc 127) 8 32 ≡ none
unfolding formatidiv_signed
smallest_run = refl

hex_run : formatidiv_hex 0xBEEF 6 48 ≡ codes "00BEEF"
unfolding formatidiv_hex fill
hex_run = refl

bin_run : formatidiv_bin 5 4 32 ≡ codes " 101"
unfolding formatidiv_bin fill
bin_run = refl

-- In base 16 a negative number is printed as the unsigned one.
negative_hex_run : formatidiv_integer 16 16 (negsuc 0) 6 48 ≡ some (codes "00FFFF")
unfolding formatidiv_integer as_unsigned formatidiv_hex fill
negative_hex_run = refl
