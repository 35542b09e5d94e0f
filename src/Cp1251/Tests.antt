-- ===== src/Cp1251/Tests.antt =====
-- Concrete texts in the code page 1251.
use image_proxy.Base.{◌≡◌, none, [], ◌∷◌, map, arith, Bytes}
use image_proxy.Cp1251.{
  convert_utf16_cp1251, convert_cp1251_utf16, try_convert_utf16_cp1251, cp1251_utf16, utf16_cp1251,
}
use image_proxy.Cp1251.Convert.{
  kept, kept, convert-back, try_convert-back, utf16_cp1251-cp1251_utf16,
}

-- The letters "Да" and the byte 0x7F.
abbrev some_text : Bytes
some_text = 0xC4 ∷ 0xE0 ∷ 0x7F ∷ []

utf16_cp1251-cp1251_utf16_example : utf16_cp1251 (cp1251_utf16 0xC4) ≡ 0xC4
utf16_cp1251-cp1251_utf16_example = utf16_cp1251-cp1251_utf16 0xC4 (omega arith)

convert_back_run : convert_utf16_cp1251 (convert_cp1251_utf16 some_text 3) 3 ≡ map kept some_text
convert_back_run = convert-back some_text (omega arith, (omega arith, (omega arith, tt)))

try_convert-back_example : try_convert_utf16_cp1251 (convert_cp1251_utf16 some_text 3) ≡ none
try_convert-back_example =
    try_convert-back some_text (omega arith, (omega arith, (omega arith, tt)))
