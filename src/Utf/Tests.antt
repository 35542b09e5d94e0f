-- ===== src/Utf/Tests.antt =====
-- Concrete characters.
use image_proxy.Base.{◌%◌, ◌^◌, ◌≤◌, ◌≡◌, refl, none, some, [], ◌∷◌, ◌++◌, arith, length, Bytes}
use image_proxy.Base.Int.{pos, negsuc, add_ℕ}
use image_proxy.Utf.{
  convert_loop, uc_tail, uc_to_utf, lead_bits, decode_tail, decode_rest, utf_to_uc, could_be_loop,
  could_be_utf, convert_utf16_utf8, try_convert_utf8_utf16,
}
use image_proxy.Utf.RoundTrip.{utf_to_uc-uc_to_utf, try_convert-utf8_back, read_back, lost}
use image_proxy.Utf.Buffers.{
  utf8_loop, try_convert_utf16_utf8, convert_into, wide_loop, try_convert_into,
}
use image_proxy.Utf.Fitting.{
  Fits, Agrees, try_convert-Fits, convert_into-string, try_convert_into-Agrees,
}

euro_run : uc_to_utf 0x20AC ≡ 0xE2 ∷ 0x82 ∷ 0xAC ∷ []
unfolding uc_to_utf uc_tail
euro_run = refl

-- U+0905, a letter of Devanagari.
refused_run : utf_to_uc (0xE0 ∷ 0xA4 ∷ 0x85 ∷ []) ≡ none
unfolding utf_to_uc lead_bits decode_rest decode_tail
refused_run = refl

-- An overlong form of the letter A.
overlong_run : utf_to_uc (0xC1 ∷ 0x81 ∷ []) ≡ some (0x41, 2)
unfolding utf_to_uc lead_bits decode_rest decode_tail
overlong_run = refl

could_be_utf_run : could_be_utf (0xD0 ∷ 0x90 ∷ []) ≡ pos 1
unfolding could_be_utf could_be_loop utf_to_uc lead_bits decode_rest decode_tail add_ℕ
could_be_utf_run = refl

could_be_utf_invalid : could_be_utf (0x41 ∷ 0x90 ∷ []) ≡ negsuc 0
unfolding could_be_utf could_be_loop utf_to_uc lead_bits decode_rest decode_tail
could_be_utf_invalid = refl

utf_to_uc-uc_to_utf_example : utf_to_uc (uc_to_utf 0x20AC ++ (0x41 ∷ [])) ≡ read_back 0x20AC
utf_to_uc-uc_to_utf_example = utf_to_uc-uc_to_utf 0x20AC (0x41 ∷ []) (omega arith)

try_convert-utf8_back_run :
    try_convert_utf8_utf16 0x7FFFFFFF (convert_utf16_utf8 (0x20AC ∷ 0x41 ∷ []))
    ≡ some (0x20AC ∷ 0x41 ∷ [])
unfolding lost
try_convert-utf8_back_run =
    try_convert-utf8_back 0x7FFFFFFF (0x20AC ∷ 0x41 ∷ [])
      ((omega arith, omega arith, refl), ((omega arith, omega arith, refl), tt))

-- With room for one byte the euro sign is left out and the letter behind it is not.
gap_run : try_convert_utf16_utf8 (0x20AC ∷ 0x41 ∷ []) 1 ≡ (0x41 ∷ [], pos 4)
unfolding try_convert_utf16_utf8 utf8_loop uc_to_utf uc_tail
gap_run = refl

no_gap_run : convert_into (0x20AC ∷ 0x41 ∷ []) 1 ≡ []
unfolding convert_into uc_to_utf uc_tail
no_gap_run = refl

cut_run : try_convert_into 0xFFFF (0xE2 ∷ 0x82 ∷ 0xAC ∷ 0x41 ∷ []) 1 ≡ (0x20AC ∷ [], pos 2)
unfolding try_convert_into wide_loop utf_to_uc lead_bits decode_rest decode_tail
cut_run = refl

try_convert-Fits_example :
    Fits (0x20AC ∷ 0x41 ∷ []) 3 0 (try_convert_utf16_utf8 (0x20AC ∷ 0x41 ∷ []) 3)
unfolding convert_utf16_utf8 uc_to_utf uc_tail
try_convert-Fits_example =
    try_convert-Fits (0x20AC ∷ 0x41 ∷ []) 3 (omega arith, (omega arith, tt)) (omega arith)

convert_into_cut :
    let r = convert_into (0x20AC ∷ 0x41 ∷ []) 3 in
    let whole = convert_utf16_utf8 (0x20AC ∷ 0x41 ∷ []) in
    ((cut : Bytes) × (r ++ cut ≡ whole)) × (length r ≤ 3) × (length whole ≤ 3 → r ≡ whole)
convert_into_cut = convert_into-string (0x20AC ∷ 0x41 ∷ []) 3

try_convert_into-Agrees_example :
    Agrees
      (1 % 2 ^ 31)
      0
      (try_convert_utf8_utf16 0xFFFF (0xE2 ∷ 0x82 ∷ 0xAC ∷ 0x41 ∷ []))
      (try_convert_into 0xFFFF (0xE2 ∷ 0x82 ∷ 0xAC ∷ 0x41 ∷ []) 1)
try_convert_into-Agrees_example =
    try_convert_into-Agrees 0xFFFF (0xE2 ∷ 0x82 ∷ 0xAC ∷ 0x41 ∷ []) 1 (omega arith)

-- A negative `int` is not above the largest wide character.
negative_run :
    try_convert_utf8_utf16 0xFFFF (0xFF ∷ 0xBF ∷ 0xBF ∷ 0xBF ∷ 0xBF ∷ 0xBF ∷ 0xBF ∷ 0xBF ∷ [])
    ≡ some (0xFFFF ∷ [])
unfolding try_convert_utf8_utf16 convert_loop utf_to_uc lead_bits decode_rest decode_tail
negative_run = refl
