-- ===== src/Utf/Fitting.antt =====
-- The buffers of UTF-8 and wide characters against the conversions of whole strings.
use image_proxy.Base.{
  ℕ, zero, suc, ◌+◌, ◌-◌, ◌/◌, ◌%◌, ◌^◌, ◌≤◌, ◌<◌, ◌≡◌, refl, ap, ◌∙◌, ◌⊎◌, inl, inr, true, false,
  Option, none, some, List, [], ◌∷◌, ◌++◌, append_assoc, arith, ltb, leb, ◌==◌, if◌then◌else◌,
  Bool-cases, Option-cases, length, take, drop, All, length-append, Bytes,
}
use image_proxy.Base.Int.{ℤ, pos, negsuc}
use image_proxy.Utf.{
  above, to_wchar, to_int, uc_to_utf, utf_to_uc, convert_utf16_utf8, convert_loop,
  try_convert_utf8_utf16, uc_sequence,
}
use image_proxy.Utf.Buffers.{
  utf8_loop, try_convert_utf16_utf8, wide_loop, try_convert_into, convert_into,
}

to_int-pos : (n : ℕ) → n < 2 ^ 31 → to_int n ≡ pos n
to_int-pos n h = let below : ltb n (2 ^ 31) ≡ true = ground arith in rw below refl

uc_sequence-some : (n w : ℕ) → (length (uc_sequence n w) == 0) ≡ false
unfolding uc_sequence
uc_sequence-some n w = ground arith

uc_to_utf-some : (w : ℕ) → w < 2 ^ 31 → (length (uc_to_utf w) == 0) ≡ false
unfolding uc_to_utf
uc_to_utf-some w h =
    let small : (w / 2 ^ 31 == 0) ≡ true = ground arith in
    rw small (
      ground (
        arith,
        uc_sequence-some 2 w,
        uc_sequence-some 3 w,
        uc_sequence-some 4 w,
        uc_sequence-some 5 w,
        uc_sequence-some 6 w,
      ))

-- What `TryConvertUTF16_UTF8` leaves: the result is the length of the whole text in UTF-8 behind `r_size`, the
-- buffer is not overrun, and where there is room for the whole text the buffer has it.
pub record Fits (s : List ℕ) (r_len r_size : ℕ) (r : Bytes × ℤ) : Type 0 where
  pub required : r.1 ≡ pos (r_size + length (convert_utf16_utf8 s))
  pub in_buffer : length r.0 ≤ r_len
  pub complete : (r_len < length (convert_utf16_utf8 s)) ⊎ (r.0 ≡ convert_utf16_utf8 s)

room-Fits :
    (w : ℕ) (s : List ℕ) (r_len r_size : ℕ) (c : Bytes × ℤ)
    → length (uc_to_utf w) ≤ r_len
    → Fits s (r_len - length (uc_to_utf w)) (r_size + length (uc_to_utf w)) c
    → Fits (w ∷ s) r_len r_size (uc_to_utf w ++ c.0, c.1)
unfolding convert_utf16_utf8
room-Fits w s r_len r_size c m f =
    let buf = uc_to_utf w in
    let parts = length-append buf (convert_utf16_utf8 s) in
    record {
      required = f.required ∙ ap pos (omega (arith, parts));
      in_buffer = omega (arith, length-append buf c.0, f.in_buffer);
      complete = elim f.complete [
        | inl over ↦ inl (omega (arith, parts, over))
        | inr same ↦ inr (ap (λ x. buf ++ x) same)
      ];
    }

full-Fits :
    (w : ℕ) (s : List ℕ) (r_len r_size : ℕ) (c : Bytes × ℤ)
    → ¬ (length (uc_to_utf w) ≤ r_len)
    → Fits s r_len (r_size + length (uc_to_utf w)) c
    → Fits (w ∷ s) r_len r_size (c.0, c.1)
unfolding convert_utf16_utf8
full-Fits w s r_len r_size c m f =
    let parts = length-append (uc_to_utf w) (convert_utf16_utf8 s) in
    record {
      required = f.required ∙ ap pos (omega (arith, parts));
      in_buffer = f.in_buffer;
      complete = inl (omega (arith, parts));
    }

utf8_loop-Fits :
    (s : List ℕ) (r_len r_size : ℕ)
    → All (λ w. w < 2 ^ 31) s
    → r_size + length (convert_utf16_utf8 s) < 2 ^ 31
    → Fits s r_len r_size (utf8_loop s r_len r_size)
unfolding utf8_loop convert_utf16_utf8
utf8_loop-Fits [] r_len r_size all h = record {
  required = to_int-pos r_size (omega (arith, h)) ∙ ap pos (omega arith);
  in_buffer = omega arith;
  complete = inr refl;
}
utf8_loop-Fits (w ∷ s) r_len r_size (v, all) h =
    let buf = uc_to_utf w in
    let k = length buf in
    let some_byte = uc_to_utf-some w v in
    let bound : r_size + k + length (convert_utf16_utf8 s) < 2 ^ 31 =
      omega (arith, h, length-append buf (convert_utf16_utf8 s)) in
    let small : (r_size + k) % 2 ^ 32 ≡ r_size + k = omega (arith, bound) in
    elim (Bool-cases (leb k r_len)) [
      | inl fits ↦
          rw (some_byte, fits, small)
            (room-Fits w s r_len r_size _ (ground arith)
              (utf8_loop-Fits s (r_len - k) (r_size + k) all bound))
      | inr full ↦
          rw (some_byte, full, small)
            (full-Fits w s r_len r_size _ (ground arith)
              (utf8_loop-Fits s r_len (r_size + k) all bound))
    ]

-- For wide characters below 2^31, whose text in UTF-8 is shorter than 2^31, `TryConvertUTF16_UTF8` gives
-- the length of the text in UTF-8, as the conversion into a string has it, writes no more than there is room
-- for, and where there is room for the whole text it writes that text.
pub try_convert-Fits :
    (s : List ℕ) (r_len : ℕ)
    → All (λ w. w < 2 ^ 31) s
    → length (convert_utf16_utf8 s) < 2 ^ 31
    → Fits s r_len 0 (try_convert_utf16_utf8 s r_len)
unfolding try_convert_utf16_utf8
try_convert-Fits s r_len all h = utf8_loop-Fits s r_len 0 all (omega (arith, h))

-- `ConvertUTF16_UTF8` into a buffer writes a beginning of the text in UTF-8 that the conversion into a string
-- gives, no more than there is room for, and all of it where there is room.
pub convert_into-string :
    (s : List ℕ) (r_len : ℕ)
    → ((cut : Bytes) × (convert_into s r_len ++ cut ≡ convert_utf16_utf8 s))
      × (length (convert_into s r_len) ≤ r_len)
      × (length (convert_utf16_utf8 s) ≤ r_len → convert_into s r_len ≡ convert_utf16_utf8 s)
unfolding convert_into convert_utf16_utf8
convert_into-string [] r_len = (([], refl), omega arith, λ m. refl)
convert_into-string (w ∷ s) r_len =
    let buf = uc_to_utf w in
    let ((cut, same), bound, whole) = convert_into-string s (r_len - length buf) in
    let parts = length-append buf (convert_utf16_utf8 s) in
    elim (Bool-cases (leb (length buf) r_len)) [
      | inl fits ↦
          let m : length buf ≤ r_len = ground arith in
          rw fits (
            (
              cut,
              append_assoc buf (convert_into s (r_len - length buf)) cut ∙ ap (λ x. buf ++ x) same,
            ),
            omega (arith, m, bound, length-append buf (convert_into s (r_len - length buf))),
            λ n. ap (λ x. buf ++ x) (whole (omega (arith, n, parts))),
          )
      | inr full ↦
          let m : ¬ (length buf ≤ r_len) = ground arith in
          rw full (
            (buf ++ convert_utf16_utf8 s, refl),
            omega arith,
            λ n. absurd (omega (arith, m, n, parts)),
          )
    ]

-- What `TryConvertUTF8_UTF16` into a buffer leaves, from the room and the count on, for what the conversion
-- into a string gives.
pub Agrees : (r_size r_len : ℕ) → Option (List ℕ) → List ℕ × ℤ → Type 0
Agrees r_size r_len none r = r.1 ≡ negsuc 0
Agrees r_size r_len (some ws) r = (r.1 ≡ pos (r_len + length ws)) × (r.0 ≡ take r_size ws)

character-Agrees :
    (w r_size r_len : ℕ) (o : Option (List ℕ)) (r : List ℕ × ℤ)
    → Agrees (r_size - 1) (r_len + 1) o r
    → Agrees r_size r_len
        (elim o [ none ↦ none | some ws ↦ some (w ∷ ws) ])
        (if ltb 0 r_size then w ∷ r.0 else r.0, r.1)
unfolding Agrees
character-Agrees w r_size r_len none r a = a
character-Agrees w zero r_len (some ws) r (a, b) = (a ∙ ap pos (omega arith), b)
character-Agrees w (suc n) r_len (some ws) r (a, b) =
    let room : ltb 0 (suc n) ≡ true = ground arith in
    let one_less : suc n - 1 ≡ n = omega arith in
    (a ∙ ap pos (omega arith), rw room (ap (◌∷◌ w) (b ∙ ap (λ k. take k ws) one_less)))

count_lem : (n : ℕ) → n < 2 ^ 31 → to_int (n % 2 ^ 32) ≡ pos (n + 0)
count_lem n h =
    let same : n % 2 ^ 32 ≡ n = omega (arith, h) in
    ap to_int same ∙ to_int-pos n h ∙ ap pos (omega arith)

wide_loop-Agrees :
    (wchar_max fuel : ℕ) (s : Bytes) (r_size r_len : ℕ)
    → r_len + fuel < 2 ^ 31
    → Agrees r_size r_len (convert_loop wchar_max fuel s) (wide_loop wchar_max fuel s r_size r_len)
unfolding Agrees wide_loop convert_loop
wide_loop-Agrees wchar_max fuel [] zero r_len h = (count_lem r_len (omega (arith, h)), refl)
wide_loop-Agrees wchar_max fuel [] (suc n) r_len h = (count_lem r_len (omega (arith, h)), refl)
wide_loop-Agrees wchar_max zero (z ∷ s) r_size r_len h = refl
wide_loop-Agrees wchar_max (suc fuel) (z ∷ s) r_size r_len h =
    elim (Option-cases (utf_to_uc (z ∷ s))) [
      | inl invalid ↦ rw (convert_loop, wide_loop, invalid) refl
      | inr ((w, k), e) ↦
          let rest =
            wide_loop-Agrees wchar_max fuel (drop k (z ∷ s)) (r_size - 1) (r_len + 1)
              (omega (arith, h)) in
          elim (Bool-cases (above wchar_max w)) [
            | inl wide ↦ rw (convert_loop, wide_loop, e, wide) refl
            | inr held ↦
                rw (convert_loop, wide_loop, e, held)
                  (character-Agrees (to_wchar wchar_max w) r_size r_len _ _ rest)
          ]
    ]

-- For a text of fewer than 2^31 bytes `TryConvertUTF8_UTF16` into a buffer agrees with the conversion into a string: it
-- gives -1 where that fails, and else its result is the number of the characters and the buffer has as many of
-- them as it has room for, where the code takes the remainder of `r_len` by 2^31 for the room.
pub try_convert_into-Agrees :
    (wchar_max : ℕ) (s : Bytes) (r_len : ℕ)
    → length s < 2 ^ 31
    → Agrees
        (r_len % 2 ^ 31)
        0
        (try_convert_utf8_utf16 wchar_max s)
        (try_convert_into wchar_max s r_len)
unfolding try_convert_into try_convert_utf8_utf16
try_convert_into-Agrees wchar_max s r_len h =
    wide_loop-Agrees wchar_max (length s) s (r_len % 2 ^ 31) 0 (omega (arith, h))
