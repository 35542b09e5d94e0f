-- ===== src/Utf/RoundTrip.antt =====
-- What becomes of a character that is written as UTF-8 and read back, and of a text.
use image_proxy.Base.{
  ℕ, zero, suc, ◌-◌, ◌/◌, ◌^◌, ◌≤◌, ◌<◌, ◌≡◌, refl, sym, ap, ap₂, ◌∙◌, inl, inr, Bool, true, false,
  ◌&&◌, ◌||◌, Option, none, some, List, [], ◌∷◌, ◌++◌, arith, ltb, leb, ◌==◌, if◌then◌else◌, ltb→lt,
  Bool-cases, List-cases, length, drop, All, length-append, drop-append_add, Bytes, dec_lt,
}
use image_proxy.Utf.{
  above, to_wchar, uc_tail, uc_sequence, uc_to_utf, utf_to_uc, convert_utf16_utf8, convert_loop,
  try_convert_utf8_utf16, above, to_wchar,
}
use image_proxy.Utf.Sequence.{
  Lead, sequence_lem, length-uc_tail, two_bytes-Lead, three_bytes-Lead, four_bytes-Lead,
  five_bytes-Lead, six_bytes-Lead,
}

-- The characters whose first byte has no bits of the number.
unfoldable pub lost : ℕ → Bool
lost w =
    (leb 0x800 w && ltb w 0x1000)
    || ((leb 0x10000 w && ltb w 0x40000)
        || ((leb 0x200000 w && ltb w 0x1000000) || (leb 0x4000000 w && ltb w 0x40000000)))

-- What reading back the bytes of a character gives.
abbrev pub read_back : ℕ → Option (ℕ × ℕ)
read_back w = if lost w then none else some (w, length (uc_to_utf w))

length-uc_sequence : (n w : ℕ) → 2 ≤ n → length (uc_sequence n w) ≡ n
unfolding uc_sequence
length-uc_sequence n w h = omega (arith, h, length-uc_tail (n - 1) w [])

-- A character with a sequence of `n` bytes.
case_lem :
    (n q w : ℕ) (rest : Bytes)
    → w < 2 ^ 32
    → Lead n q (uc_tail (n - 1) w []).0
    → uc_to_utf w ≡ uc_sequence n w
    → lost w ≡ ((uc_tail (n - 1) w []).0 == 0)
    → utf_to_uc (uc_to_utf w ++ rest) ≡ read_back w
case_lem n q w rest h l e f =
    ap (λ s. utf_to_uc (s ++ rest)) e
    ∙ sequence_lem n q w rest h l
    ∙ ap₂ (λ b k. if b then none else some (w, k)) (sym f)
        (sym (ap length e ∙ length-uc_sequence n w l.long))

one_byte : (w : ℕ) (rest : Bytes) → w < 0x80 → utf_to_uc (uc_to_utf w ++ rest) ≡ read_back w
unfolding uc_to_utf utf_to_uc lost
one_byte w rest h =
    let e : uc_to_utf w ≡ w ∷ [] = ground arith in
    let low : (w / 128 == 0) ≡ true = ground arith in
    let kept : lost w ≡ false = ground arith in rw (e, low, kept) refl

two_bytes :
    (w : ℕ) (rest : Bytes) → 0x80 ≤ w → w < 0x800 → utf_to_uc (uc_to_utf w ++ rest) ≡ read_back w
unfolding uc_to_utf lost uc_tail
two_bytes w rest l h =
    case_lem 2 0x20 w rest (omega arith) (two_bytes-Lead (w / 64) (omega arith)) (ground arith)
      (ground arith)

three_bytes :
    (w : ℕ) (rest : Bytes) → 0x800 ≤ w → w < 0x10000 → utf_to_uc (uc_to_utf w ++ rest) ≡ read_back w
unfolding uc_to_utf lost uc_tail
three_bytes w rest l h =
    case_lem 3 0x10 w rest (omega arith) (three_bytes-Lead (w / 64 / 64) (omega arith))
      (ground arith) (ground arith)

four_bytes :
    (w : ℕ) (rest : Bytes)
    → 0x10000 ≤ w
    → w < 0x200000
    → utf_to_uc (uc_to_utf w ++ rest) ≡ read_back w
unfolding uc_to_utf lost uc_tail
four_bytes w rest l h =
    case_lem 4 8 w rest (omega arith) (four_bytes-Lead (w / 64 / 64 / 64) (omega arith))
      (ground arith) (ground arith)

five_bytes :
    (w : ℕ) (rest : Bytes)
    → 0x200000 ≤ w
    → w < 0x4000000
    → utf_to_uc (uc_to_utf w ++ rest) ≡ read_back w
unfolding uc_to_utf lost uc_tail
five_bytes w rest l h =
    case_lem 5 4 w rest (omega arith) (five_bytes-Lead (w / 64 / 64 / 64 / 64) (omega arith))
      (ground arith) (ground arith)

six_bytes :
    (w : ℕ) (rest : Bytes)
    → 0x4000000 ≤ w
    → w < 2 ^ 31
    → utf_to_uc (uc_to_utf w ++ rest) ≡ read_back w
unfolding uc_to_utf lost uc_tail
six_bytes w rest l h =
    case_lem 6 2 w rest (omega arith) (six_bytes-Lead (w / 64 / 64 / 64 / 64 / 64) (omega arith))
      (ground arith) (ground arith)

-- The bytes that `uc_to_utf` makes of a number below 2^31, read by `utf_to_uc` with anything behind them, give
-- the number and their count, but for the numbers whose first byte has no bits of them, as from 0x800 to 0xFFF
-- and from 0x10000 to 0x3FFFF: those are refused.
pub utf_to_uc-uc_to_utf :
    (w : ℕ) (rest : Bytes) → w < 2 ^ 31 → utf_to_uc (uc_to_utf w ++ rest) ≡ read_back w
utf_to_uc-uc_to_utf w rest h = elim (dec_lt w 0x80) [
  | yes a ↦ one_byte w rest a
  | no a ↦ elim (dec_lt w 0x800) [
    | yes b ↦ two_bytes w rest (omega arith) b
    | no b ↦ elim (dec_lt w 0x10000) [
      | yes c ↦ three_bytes w rest (omega arith) c
      | no c ↦ elim (dec_lt w 0x200000) [
        | yes d ↦ four_bytes w rest (omega arith) d
        | no d ↦ elim (dec_lt w 0x4000000) [
          | yes e ↦ five_bytes w rest (omega arith) e
          | no e ↦ six_bytes w rest (omega arith) h
        ]
      ]
    ]
  ]
]

to_wchar_lem : (wchar_max w : ℕ) → w ≤ wchar_max → to_wchar wchar_max w ≡ w
to_wchar_lem wchar_max w m = elim (Bool-cases (ltb wchar_max (2 ^ 16))) [
  | inl narrow ↦ let small = ltb→lt wchar_max (2 ^ 16) narrow in rw narrow (omega (arith, small, m))
  | inr wide ↦ rw wide refl
]

-- The text conversion goes on behind a character.
convert_step :
    (wchar_max fuel w k : ℕ) (x : Bytes) (ws : List ℕ)
    → utf_to_uc x ≡ some (w, k)
    → w ≤ wchar_max
    → convert_loop wchar_max fuel (drop k x) ≡ some ws
    → convert_loop wchar_max (suc fuel) x ≡ some (w ∷ ws)
unfolding convert_loop utf_to_uc
convert_step wchar_max fuel w k [] ws e m h = absurd cc
convert_step wchar_max fuel w k (z ∷ x) ws e m h =
    let fits : above wchar_max w ≡ false = ground (arith, m) in
    rw (convert_loop, e, fits, h) (ap (λ v. some (v ∷ ws)) (to_wchar_lem wchar_max w m))

-- A character that a text may have.
abbrev pub Kept : ℕ → ℕ → Type 0
Kept wchar_max w = (w < 2 ^ 31) × (w ≤ wchar_max) × (lost w ≡ false)

uc_to_utf-filled : (w : ℕ) → w < 2 ^ 31 → lost w ≡ false → 0 < length (uc_to_utf w)
unfolding utf_to_uc
uc_to_utf-filled w h l = elim (List-cases (uc_to_utf w)) [
  | inl e ↦
      let nothing : Option (ℕ × ℕ) = none in
      let bad : nothing ≡ some (w, length (uc_to_utf w)) =
        sym (ap (λ s. utf_to_uc (s ++ [])) e)
        ∙ utf_to_uc-uc_to_utf w [] h
        ∙ ap (λ b. if b then none else some (w, length (uc_to_utf w))) l in
      absurd cc
  | inr (z, s, e) ↦ omega (arith, ap length e)
]

none_to_convert : (wchar_max fuel : ℕ) → convert_loop wchar_max fuel [] ≡ some []
unfolding convert_loop
none_to_convert wchar_max fuel = refl

loop_lem :
    (wchar_max fuel : ℕ) (ws : List ℕ)
    → All (Kept wchar_max) ws
    → length (convert_utf16_utf8 ws) ≤ fuel
    → convert_loop wchar_max fuel (convert_utf16_utf8 ws) ≡ some ws
unfolding convert_utf16_utf8
loop_lem wchar_max zero [] a f = none_to_convert wchar_max zero
loop_lem wchar_max (suc fuel) [] a f = none_to_convert wchar_max (suc fuel)
loop_lem wchar_max zero (w ∷ ws) ((h, m, l), a) f =
    absurd
      (omega (arith, uc_to_utf-filled w h l, length-append (uc_to_utf w) (convert_utf16_utf8 ws)))
loop_lem wchar_max (suc fuel) (w ∷ ws) ((h, m, l), a) f =
    let k = length (uc_to_utf w) in
    let rest = convert_utf16_utf8 ws in
    convert_step wchar_max fuel w k (uc_to_utf w ++ rest) ws
      (utf_to_uc-uc_to_utf w rest h
        ∙ ap (λ b. if b then none else some (w, length (uc_to_utf w))) l)
      m
      (ap (convert_loop wchar_max fuel) (drop-append_add k 0 (uc_to_utf w) rest (omega arith))
        ∙ loop_lem wchar_max fuel ws a
            (omega (arith, f, uc_to_utf-filled w h l, length-append (uc_to_utf w) rest)))

-- A text of characters below 2^31 that a wide character can hold, none of them among those that `utf_to_uc`
-- refuses, is the same after `ConvertUTF16_UTF8` and `TryConvertUTF8_UTF16`.
pub try_convert-utf8_back :
    (wchar_max : ℕ) (ws : List ℕ)
    → All (Kept wchar_max) ws
    → try_convert_utf8_utf16 wchar_max (convert_utf16_utf8 ws) ≡ some ws
unfolding try_convert_utf8_utf16
try_convert-utf8_back wchar_max ws a =
    loop_lem wchar_max (length (convert_utf16_utf8 ws)) ws a (omega arith)
