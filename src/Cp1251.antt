-- ===== src/Cp1251.antt =====
-- The conversions between the code page 1251 and UTF-16 of cpcl/string_util.h, with the tables of
-- cpcl/string_util.cpp. A wide character is a number.
pub mod Convert
mod Tests
use image_proxy.Base.{
  ℕ, zero, suc, ◌+◌, ◌-◌, ◌*◌, ◌/◌, ◌%◌, ◌^◌, ◌≤◌, ◌<◌, min, max, ◌≡◌, refl, sym, ap, ap₂, subst,
  ◌∙◌, ◌≢◌, ◌↔◌, ◌⊎◌, inl, inr, Bool, true, false, not, ◌&&◌, ◌||◌, Option, none, some, List, [],
  ◌∷◌, ◌++◌, map, flatten, append-nil, append_assoc, arith, ltb, leb, ◌==◌, if◌then◌else◌, ltb→lt,
  lt→ltb, leb→le, ==→eq, ==_iff, tests, Bool-cases, Option-cases, List-cases, length, get_elem?,
  set, get_or, take, drop, replicate, All, length-append, length-set, length-take, length-drop,
  length-replicate, take-append-drop, get_elem?-set_self, get_elem?-set_ne, take-add, drop-drop,
  take-take, drop-take, take-take-min, take-all, drop-all, take-append_le, take-append_add,
  drop-append_le, drop-append_add, holds_below, holds_below_at, Bytes, dec_lt, dec_le, ℕ_discrete,
  codes, bytes_eq, bytes_eq_refl, bytes_eq→eq, bytes_eq_iff,
}

abbrev pub cp1251_utf16_tab : List ℕ
cp1251_utf16_tab =
    0x0000 ∷ 0x0001 ∷ 0x0002 ∷ 0x0003 ∷ 0x0004 ∷ 0x0005 ∷ 0x0006 ∷ 0x0007 ∷ 0x0008 ∷ 0x0009 ∷ 0x000A
    ∷ 0x000B ∷ 0x000C ∷ 0x000D ∷ 0x000E ∷ 0x000F ∷ 0x0010 ∷ 0x0011 ∷ 0x0012 ∷ 0x0013 ∷ 0x0014
    ∷ 0x0015 ∷ 0x0016 ∷ 0x0017 ∷ 0x0018 ∷ 0x0019 ∷ 0x001A ∷ 0x001B ∷ 0x001C ∷ 0x001D ∷ 0x001E
    ∷ 0x001F ∷ 0x0020 ∷ 0x0021 ∷ 0x0022 ∷ 0x0023 ∷ 0x0024 ∷ 0x0025 ∷ 0x0026 ∷ 0x0027 ∷ 0x0028
    ∷ 0x0029 ∷ 0x002A ∷ 0x002B ∷ 0x002C ∷ 0x002D ∷ 0x002E ∷ 0x002F ∷ 0x0030 ∷ 0x0031 ∷ 0x0032
    ∷ 0x0033 ∷ 0x0034 ∷ 0x0035 ∷ 0x0036 ∷ 0x0037 ∷ 0x0038 ∷ 0x0039 ∷ 0x003A ∷ 0x003B ∷ 0x003C
    ∷ 0x003D ∷ 0x003E ∷ 0x003F ∷ 0x0040 ∷ 0x0041 ∷ 0x0042 ∷ 0x0043 ∷ 0x0044 ∷ 0x0045 ∷ 0x0046
    ∷ 0x0047 ∷ 0x0048 ∷ 0x0049 ∷ 0x004A ∷ 0x004B ∷ 0x004C ∷ 0x004D ∷ 0x004E ∷ 0x004F ∷ 0x0050
    ∷ 0x0051 ∷ 0x0052 ∷ 0x0053 ∷ 0x0054 ∷ 0x0055 ∷ 0x0056 ∷ 0x0057 ∷ 0x0058 ∷ 0x0059 ∷ 0x005A
    ∷ 0x005B ∷ 0x005C ∷ 0x005D ∷ 0x005E ∷ 0x005F ∷ 0x0060 ∷ 0x0061 ∷ 0x0062 ∷ 0x0063 ∷ 0x0064
    ∷ 0x0065 ∷ 0x0066 ∷ 0x0067 ∷ 0x0068 ∷ 0x0069 ∷ 0x006A ∷ 0x006B ∷ 0x006C ∷ 0x006D ∷ 0x006E
    ∷ 0x006F ∷ 0x0070 ∷ 0x0071 ∷ 0x0072 ∷ 0x0073 ∷ 0x0074 ∷ 0x0075 ∷ 0x0076 ∷ 0x0077 ∷ 0x0078
    ∷ 0x0079 ∷ 0x007A ∷ 0x007B ∷ 0x007C ∷ 0x007D ∷ 0x007E ∷ 0x007F ∷ 0x0402 ∷ 0x0403 ∷ 0x201A
    ∷ 0x0453 ∷ 0x201E ∷ 0x2026 ∷ 0x2020 ∷ 0x2021 ∷ 0x20AC ∷ 0x2030 ∷ 0x0409 ∷ 0x2039 ∷ 0x040A
    ∷ 0x040C ∷ 0x040B ∷ 0x040F ∷ 0x0452 ∷ 0x2018 ∷ 0x2019 ∷ 0x201C ∷ 0x201D ∷ 0x2022 ∷ 0x2013
    ∷ 0x2014 ∷ 0x20DE ∷ 0x2122 ∷ 0x0459 ∷ 0x203A ∷ 0x045A ∷ 0x045C ∷ 0x045B ∷ 0x045F ∷ 0x00A0
    ∷ 0x040E ∷ 0x045E ∷ 0x0408 ∷ 0x00A4 ∷ 0x0490 ∷ 0x00A6 ∷ 0x00A7 ∷ 0x0401 ∷ 0x00A9 ∷ 0x0404
    ∷ 0x00AB ∷ 0x00AC ∷ 0x00AD ∷ 0x00AE ∷ 0x0407 ∷ 0x00B0 ∷ 0x00B1 ∷ 0x0406 ∷ 0x0456 ∷ 0x0491
    ∷ 0x00B5 ∷ 0x00B6 ∷ 0x00B7 ∷ 0x0451 ∷ 0x2116 ∷ 0x0454 ∷ 0x00BB ∷ 0x0458 ∷ 0x0405 ∷ 0x0455
    ∷ 0x0457 ∷ 0x0410 ∷ 0x0411 ∷ 0x0412 ∷ 0x0413 ∷ 0x0414 ∷ 0x0415 ∷ 0x0416 ∷ 0x0417 ∷ 0x0418
    ∷ 0x0419 ∷ 0x041A ∷ 0x041B ∷ 0x041C ∷ 0x041D ∷ 0x041E ∷ 0x041F ∷ 0x0420 ∷ 0x0421 ∷ 0x0422
    ∷ 0x0423 ∷ 0x0424 ∷ 0x0425 ∷ 0x0426 ∷ 0x0427 ∷ 0x0428 ∷ 0x0429 ∷ 0x042A ∷ 0x042B ∷ 0x042C
    ∷ 0x042D ∷ 0x042E ∷ 0x042F ∷ 0x0430 ∷ 0x0431 ∷ 0x0432 ∷ 0x0433 ∷ 0x0434 ∷ 0x0435 ∷ 0x0436
    ∷ 0x0437 ∷ 0x0438 ∷ 0x0439 ∷ 0x043A ∷ 0x043B ∷ 0x043C ∷ 0x043D ∷ 0x043E ∷ 0x043F ∷ 0x0440
    ∷ 0x0441 ∷ 0x0442 ∷ 0x0443 ∷ 0x0444 ∷ 0x0445 ∷ 0x0446 ∷ 0x0447 ∷ 0x0448 ∷ 0x0449 ∷ 0x044A
    ∷ 0x044B ∷ 0x044C ∷ 0x044D ∷ 0x044E ∷ 0x044F ∷ []

abbrev pub utf16_cp1251_tab_0 : List ℕ
utf16_cp1251_tab_0 =
    1 ∷ 0 ∷ 0 ∷ 0 ∷ 1 ∷ 0 ∷ 1 ∷ 1 ∷ 0 ∷ 1 ∷ 0 ∷ 1 ∷ 1 ∷ 1 ∷ 1 ∷ 0 ∷ 1 ∷ 1 ∷ 0 ∷ 0 ∷ 0 ∷ 1 ∷ 1 ∷ 1
    ∷ 0 ∷ 0 ∷ 0 ∷ 1 ∷ []

abbrev pub utf16_cp1251_tab_1 : List ℕ
utf16_cp1251_tab_1 =
    0xA8 ∷ 0x80 ∷ 0x81 ∷ 0xAA ∷ 0xBD ∷ 0xB2 ∷ 0xAF ∷ 0xA3 ∷ 0x8A ∷ 0x8C ∷ 0x8E ∷ 0x8D ∷ 0 ∷ 0xA1
    ∷ 0x8F ∷ 0xC0 ∷ 0xC1 ∷ 0xC2 ∷ 0xC3 ∷ 0xC4 ∷ 0xC5 ∷ 0xC6 ∷ 0xC7 ∷ 0xC8 ∷ 0xC9 ∷ 0xCA ∷ 0xCB
    ∷ 0xCC ∷ 0xCD ∷ 0xCE ∷ 0xCF ∷ 0xD0 ∷ 0xD1 ∷ 0xD2 ∷ 0xD3 ∷ 0xD4 ∷ 0xD5 ∷ 0xD6 ∷ 0xD7 ∷ 0xD8
    ∷ 0xD9 ∷ 0xDA ∷ 0xDB ∷ 0xDC ∷ 0xDD ∷ 0xDE ∷ 0xDF ∷ 0xE0 ∷ 0xE1 ∷ 0xE2 ∷ 0xE3 ∷ 0xE4 ∷ 0xE5
    ∷ 0xE6 ∷ 0xE7 ∷ 0xE8 ∷ 0xE9 ∷ 0xEA ∷ 0xEB ∷ 0xEC ∷ 0xED ∷ 0xEE ∷ 0xEF ∷ 0xF0 ∷ 0xF1 ∷ 0xF2
    ∷ 0xF3 ∷ 0xF4 ∷ 0xF5 ∷ 0xF6 ∷ 0xF7 ∷ 0xF8 ∷ 0xF9 ∷ 0xFA ∷ 0xFB ∷ 0xFC ∷ 0xFD ∷ 0xFE ∷ 0xFF ∷ 0
    ∷ 0xB8 ∷ 0x90 ∷ 0x83 ∷ 0xBA ∷ 0xBE ∷ 0xB3 ∷ 0xBF ∷ 0xBC ∷ 0x9A ∷ 0x9C ∷ 0x9E ∷ 0x9D ∷ 0 ∷ 0xA2
    ∷ 0x9F ∷ []

abbrev pub utf16_cp1251_tab_2 : List ℕ
utf16_cp1251_tab_2 =
    0x96 ∷ 0x97 ∷ 0 ∷ 0 ∷ 0 ∷ 0x91 ∷ 0x92 ∷ 0x82 ∷ 0 ∷ 0x93 ∷ 0x94 ∷ 0x84 ∷ 0 ∷ 0x86 ∷ 0x87 ∷ 0x95
    ∷ 0 ∷ 0 ∷ 0 ∷ 0x85 ∷ 0 ∷ 0 ∷ 0 ∷ 0 ∷ 0 ∷ 0 ∷ 0 ∷ 0 ∷ 0 ∷ 0x89 ∷ 0 ∷ 0 ∷ 0 ∷ 0 ∷ 0 ∷ 0 ∷ 0 ∷ 0
    ∷ 0x8B ∷ 0x9B ∷ []

-- `CP1251_UTF16`.
unfoldable pub cp1251_utf16 : ℕ → ℕ
cp1251_utf16 c = get_or cp1251_utf16_tab c 0

-- `UTF16_CP1251` below 0x2000, behind the test for ASCII.
unfoldable pub utf16_cp1251_low : ℕ → ℕ
utf16_cp1251_low u =
    if leb 0xA0 u && leb u 0xBB
    then (if get_or utf16_cp1251_tab_0 (u - 0xA0) 0 == 0 then 0 else u)
    else if leb u 0x45F
    then (if leb 0x401 u then get_or utf16_cp1251_tab_1 (u - 0x401) 0 else 0)
    else if u == 0x490
    then 0xA5
    else if u == 0x491
    then 0xB4
    else 0

-- From 0x2000 on.
unfoldable pub utf16_cp1251_high : ℕ → ℕ
utf16_cp1251_high u =
    if ltb u 0x2116
    then (if leb 0x2013 u && leb u 0x203A
        then get_or utf16_cp1251_tab_2 (u - 0x2013) 0
        else if u == 0x20AC
        then 0x88
        else if u == 0x20DE
        then 0x98
        else 0)
    else if u == 0x2116
    then 0xB9
    else if u == 0x2122
    then 0x99
    else 0

-- `UTF16_CP1251`.
unfoldable pub utf16_cp1251 : ℕ → ℕ
utf16_cp1251 u =
    if ltb u 0x7F then u else if ltb u 0x2000 then utf16_cp1251_low u else utf16_cp1251_high u

-- `ConvertUTF16_CP1251` into a buffer of `r_len` bytes.
unfoldable pub convert_utf16_cp1251 : List ℕ → ℕ → Bytes
convert_utf16_cp1251 [] r_len = []
convert_utf16_cp1251 (u ∷ us) zero = []
convert_utf16_cp1251 (u ∷ us) (suc r_len) =
    (if utf16_cp1251 u == 0 then 63 else utf16_cp1251 u) ∷ convert_utf16_cp1251 us r_len

-- `TryConvertUTF16_CP1251`.
unfoldable pub try_convert_utf16_cp1251 : List ℕ → Option Bytes
try_convert_utf16_cp1251 [] = some []
try_convert_utf16_cp1251 (u ∷ us) =
    let rest = try_convert_utf16_cp1251 us in
    if utf16_cp1251 u == 0
    then none
    else (elim rest [ none ↦ none | some bs ↦ some (utf16_cp1251 u ∷ bs) ])

-- `ConvertCP1251_UTF16` into a buffer of `r_len` wide characters.
unfoldable pub convert_cp1251_utf16 : Bytes → ℕ → List ℕ
convert_cp1251_utf16 [] r_len = []
convert_cp1251_utf16 (c ∷ cs) zero = []
convert_cp1251_utf16 (c ∷ cs) (suc r_len) = cp1251_utf16 c ∷ convert_cp1251_utf16 cs r_len
