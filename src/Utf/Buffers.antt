-- ===== src/Utf/Buffers.antt =====
-- The conversions of cpcl/string_util.h and string_util.cpp between UTF-8 and wide characters into a buffer
-- of `r_len` places. They give what was put into the buffer, from its start on, and the result.
-- Texts have fewer than 2^31 characters, as the code counts them by an `int`.

use image_proxy.Base.{
  ℕ, zero, suc, ◌+◌, ◌-◌, ◌%◌, ◌^◌, none, some, List, [], ◌∷◌, ◌++◌, ltb, leb, ◌==◌, if◌then◌else◌,
  length, drop, Bytes,
}
use image_proxy.Base.Int.{ℤ, negsuc}
use image_proxy.Utf.{above, to_wchar, to_int, uc_to_utf, utf_to_uc}

-- The loop of `TryConvertUTF16_UTF8`, with the room left and the length so far, as its remainder by
-- 2^32. A sequence that has no room is left out, and the next that
-- has room follows the last that had.
unfoldable pub utf8_loop : List ℕ → ℕ → ℕ → Bytes × ℤ
utf8_loop [] r_len r_size = ([], to_int r_size)
utf8_loop (w ∷ s) r_len r_size =
    let buf = uc_to_utf w in
    let k = length buf in
    let fits = leb k r_len in
    let (r, result) = utf8_loop s (if fits then r_len - k else r_len) ((r_size + k) % 2 ^ 32) in
    if k == 0 then ([], negsuc 0) else (if fits then buf ++ r else r, result)

-- `TryConvertUTF16_UTF8`.
unfoldable pub try_convert_utf16_utf8 : List ℕ → ℕ → Bytes × ℤ
try_convert_utf16_utf8 s r_len = utf8_loop s r_len 0

-- `ConvertUTF16_UTF8` into a buffer, which stops at the first sequence that has no room.
unfoldable pub convert_into : List ℕ → ℕ → Bytes
convert_into [] r_len = []
convert_into (w ∷ s) r_len =
    let buf = uc_to_utf w in
    let rest = convert_into s (r_len - length buf) in
    if leb (length buf) r_len then buf ++ rest else []

-- The loop of `TryConvertUTF8_UTF16` into a buffer, on fuel, with the room left and the characters so far.
unfoldable pub wide_loop : ℕ → ℕ → Bytes → ℕ → ℕ → List ℕ × ℤ
wide_loop wchar_max fuel [] r_size r_len = ([], to_int (r_len % 2 ^ 32))
wide_loop wchar_max zero (z ∷ s) r_size r_len = ([], negsuc 0)
wide_loop wchar_max (suc fuel) (z ∷ s) r_size r_len = elim (utf_to_uc (z ∷ s)) [
  | none ↦ ([], negsuc 0)
  | some (w, k) ↦
      let (r, result) = wide_loop wchar_max fuel (drop k (z ∷ s)) (r_size - 1) (r_len + 1) in
      if above wchar_max w
      then ([], negsuc 0)
      else (if ltb 0 r_size then to_wchar wchar_max w ∷ r else r, result)
]

-- `TryConvertUTF8_UTF16` into a buffer.
unfoldable pub try_convert_into : ℕ → Bytes → ℕ → List ℕ × ℤ
try_convert_into wchar_max s r_len = wide_loop wchar_max (length s) s (r_len % 2 ^ 31) 0
