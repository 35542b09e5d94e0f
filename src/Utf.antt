-- ===== src/Utf.antt =====
-- UTF-8 and wide characters: cpcl/string_util.h and string_util.cpp. A byte is a number below 256 and a wide
-- character a number below 2^32; a negative `int` stands as its remainder by 2^32. A sequence that is cut
-- or invalid is `none`, where the code returns 0.
pub mod Sequence
pub mod Buffers
mod Fitting
pub mod RoundTrip
mod Tests
use image_proxy.Base.{
  ℕ, zero, suc, ◌+◌, ◌-◌, ◌*◌, ◌/◌, ◌%◌, ◌^◌, ◌≤◌, ◌<◌, min, max, ◌≡◌, refl, sym, ap, ap₂, subst,
  ◌∙◌, ◌≢◌, ◌↔◌, ◌⊎◌, inl, inr, Bool, true, false, not, ◌&&◌, ◌||◌, Option, none, some, List, [],
  ◌∷◌, ◌++◌, map, flatten, append-nil, append_assoc, arith, ltb, leb, ◌==◌, if◌then◌else◌, ltb→lt,
  lt→ltb, leb→le, ==→eq, ==_iff, tests, Bool-cases, Option-cases, List-cases, length, get_elem?,
  set, get_or, take, drop, replicate, All, length-append, length-set, length-take, length-drop,
  length-replicate, take-append-drop, get_elem?-set_self, get_elem?-set_ne, take-add, drop-drop,
  take-take, drop-take, take-take-min, take-all, drop-all, take-append_le, take-append_add,
  drop-append_le, drop-append_add, holds_below, holds_below_at, Bytes, dec_lt, dec_le, ℕ_discrete,
  codes, bytes_eq, bytes_eq_refl, bytes_eq→eq, bytes_eq_iff,
}
use image_proxy.Base.Int.{ℤ, pos, negsuc, add_ℕ, sub_ℕ}

-- The loop of `uc_to_utf` for so many bytes behind the first: what is left of the number, and the bytes.
unfoldable pub uc_tail : ℕ → ℕ → Bytes → ℕ × Bytes
uc_tail zero w acc = (w, acc)
uc_tail (suc k) w acc = uc_tail k (w / 64) ((128 + w % 64) ∷ acc)

-- A sequence of so many bytes, from 2 on: the first byte has as many bits set in front.
unfoldable pub uc_sequence : ℕ → ℕ → Bytes
uc_sequence n w = let (top, bytes) = uc_tail (n - 1) w [] in ((256 - 2 ^ (8 - n)) + top) ∷ bytes

-- `uc_to_utf`, whose tests are on the bits from a place on.
unfoldable pub uc_to_utf : ℕ → Bytes
unfolding uc_sequence
uc_to_utf w =
    if not (w / 2 ^ 31 == 0)
    then []
    else if not (w / 2 ^ 26 == 0)
    then uc_sequence 6 w
    else if not (w / 2 ^ 21 == 0)
    then uc_sequence 5 w
    else if not (w / 2 ^ 16 == 0)
    then uc_sequence 4 w
    else if not (w / 2 ^ 11 == 0)
    then uc_sequence 3 w
    else if not (w / 2 ^ 7 == 0)
    then uc_sequence 2 w
    else w ∷ []

-- The loop of `utf_to_uc` over the bits of the first byte: how many are set in front, and the bit behind them.
-- It takes 8 rounds at most.
unfoldable pub lead_bits : ℕ → ℕ → ℕ → ℕ → ℕ × ℕ
lead_bits zero z n q = (n, q)
lead_bits (suc fuel) z n q =
    let rest = lead_bits fuel z (n + 1) (q / 2) in
    if q / 2 == 0 then (n + 1, q / 2) else if (z / (q / 2)) % 2 == 1 then rest else (n + 1, q / 2)

-- The loop of `utf_to_uc` over the bytes behind the first.
unfoldable pub decode_tail : ℕ → ℕ → Bytes → Option ℕ
decode_tail zero r p = some r
decode_tail (suc k) r [] = none
decode_tail (suc k) r (z ∷ p) =
    if z / 64 == 2 then decode_tail k ((r * 64 + z % 64) % 2 ^ 32) p else none

-- `utf_to_uc` behind the loop over the bits.
unfoldable pub decode_rest : ℕ → Bytes → ℕ × ℕ → Option (ℕ × ℕ)
decode_rest z p (n, q) =
    let r = if q == 0 then z else z % q in
    if ltb n 2 || ltb (length p + 1) n
    then none
    else if r == 0
    then none
    else elim (decode_tail (n - 1) r p) [ none ↦ none | some w ↦ some (w, n) ]

-- `utf_to_uc` on the bytes up to the limit: the character, and how many bytes it has.
unfoldable pub utf_to_uc : Bytes → Option (ℕ × ℕ)
utf_to_uc [] = none
utf_to_uc (z ∷ p) = if z / 128 == 0 then some (z, 1) else decode_rest z p (lead_bits 8 z 0 0x80)

-- The comparison of an `int`, as its remainder by 2^32, with a limit: a negative one is not above it.
abbrev pub above : ℕ → ℕ → Bool
above limit w = ltb w (2 ^ 31) && ltb limit w

-- The conversion of an `int` to `wchar_t`, which has 16 bits where its largest is below 2^16.
abbrev pub to_wchar : ℕ → ℕ → ℕ
to_wchar wchar_max w = if ltb wchar_max (2 ^ 16) then w % 2 ^ 16 else w

-- The `int` that a remainder by 2^32 stands for.
abbrev pub to_int : ℕ → ℤ
to_int n = if ltb n (2 ^ 31) then pos n else negsuc (2 ^ 32 - 1 - n)

-- The loop of `could_be_utf`, on fuel; `none` where it returns -1 at once.
unfoldable pub could_be_loop : ℕ → ℤ → Bytes → Option ℤ
could_be_loop fuel res [] = some res
could_be_loop zero res (z ∷ s) = none
could_be_loop (suc fuel) res (z ∷ s) = elim (utf_to_uc (z ∷ s)) [
  | none ↦ none
  | some (w, k) ↦
      let rest = could_be_loop fuel (if ltb 1 k then pos 0 else res) (drop k (z ∷ s)) in
      if above 65535 w then none else rest
]

-- `could_be_utf`: -1 for no UTF-8, 0 for ASCII alone, 1 where there is another character.
unfoldable pub could_be_utf : Bytes → ℤ
could_be_utf s = elim (could_be_loop (length s) (negsuc 0) s) [
  | none ↦ negsuc 0
  | some res ↦ add_ℕ 1 res
]

-- `ConvertUTF16_UTF8` into a string.
unfoldable pub convert_utf16_utf8 : List ℕ → Bytes
convert_utf16_utf8 [] = []
convert_utf16_utf8 (w ∷ s) = uc_to_utf w ++ convert_utf16_utf8 s

-- `TryConvertUTF8_UTF16` into a string, where the largest wide character is a parameter, an `int` like the
-- character it is compared with; the loop is on
-- fuel.
unfoldable pub convert_loop : ℕ → ℕ → Bytes → Option (List ℕ)
convert_loop wchar_max fuel [] = some []
convert_loop wchar_max zero (z ∷ s) = none
convert_loop wchar_max (suc fuel) (z ∷ s) = elim (utf_to_uc (z ∷ s)) [
  | none ↦ none
  | some (w, k) ↦
      let rest = convert_loop wchar_max fuel (drop k (z ∷ s)) in
      if above wchar_max w
      then none
      else elim rest [ none ↦ none | some ws ↦ some (to_wchar wchar_max w ∷ ws) ]
]

unfoldable pub try_convert_utf8_utf16 : ℕ → Bytes → Option (List ℕ)
try_convert_utf8_utf16 wchar_max s = convert_loop wchar_max (length s) s
