-- ===== src/Chunk/Codec.antt =====
-- Reading a chunked body back: RFC 7230, 4.1, without extensions and trailers.
use image_proxy.Base.{
  ℕ, zero, suc, ◌+◌, ◌-◌, ◌*◌, ◌/◌, ◌%◌, ◌≤◌, ◌<◌, ◌≡◌, refl, ap, ◌∙◌, inl, inr, true, false, ◌&&◌,
  Option, none, some, [], ◌∷◌, ◌++◌, append-nil, append_assoc, arith, ltb, leb, ◌==◌, if◌then◌else◌,
  ltb→lt, lt→ltb, Bool-cases, length, take, drop, length-append, take-append_add, drop-append_add,
  Bytes, bytes_eq,
}
use image_proxy.Response.{crlf, show_hex, string_format, digit, digits}
use image_proxy.Response.Sizes.{Fits, length-digits_fits}
use image_proxy.Chunk.{size_line}

-- The value of a hexadecimal digit in lower case.
unfoldable pub hex_value : ℕ → Option ℕ
hex_value c =
    if leb 48 c && ltb c 58
    then some (c - 48)
    else if leb 97 c && ltb c 103
    then some (c - 87)
    else none

-- A chunk size that goes on behind a value, up to the line's end, and what follows.
unfoldable pub read_size : ℕ → Bytes → Option (ℕ × Bytes)
read_size n [] = none
read_size n (c ∷ x) = elim (hex_value c) [
  | some d ↦ read_size (n * 16 + d) x
  | none ↦ if bytes_eq (take 2 (c ∷ x)) crlf then some (n, drop 2 (c ∷ x)) else none
]

-- The same with at least one digit.
unfoldable pub first_size : Bytes → Option (ℕ × Bytes)
first_size [] = none
first_size (c ∷ x) = elim (hex_value c) [ some d ↦ read_size d x | none ↦ none ]

-- The data of a chunk behind its size, and what follows the chunk.
unfoldable pub chunk_data : ℕ × Bytes → Option (Bytes × Bytes)
chunk_data (n, x) =
    if leb n (length x) && bytes_eq (take 2 (drop n x)) crlf
    then some (take n x, drop (n + 2) x)
    else none

unfoldable pub read_chunk : Bytes → Option (Bytes × Bytes)
read_chunk x = elim (first_size x) [ none ↦ none | some p ↦ chunk_data p ]

-- The data of all the chunks up to the empty one, behind which nothing may stand, on fuel.
unfoldable pub dechunk : ℕ → Bytes → Option Bytes
dechunk zero x = none
dechunk (suc fuel) x = elim (read_chunk x) [
  | none ↦ none
  | some (data_bytes, rest) ↦
      let more = dechunk fuel rest in
      elim (length data_bytes == 0) [
        | true ↦ if length rest == 0 then some [] else none
        | false ↦ elim more [ none ↦ none | some y ↦ some (data_bytes ++ y) ]
      ]
]

-- A chunk.
abbrev pub chunk_text : Bytes → Bytes
chunk_text x = size_line (length x) ++ (x ++ crlf)

hex_value-digit : (d : ℕ) → d < 16 → hex_value (digit d) ≡ some d
unfolding hex_value
hex_value-digit d h = ground arith

first_size-digit : (d : ℕ) (x : Bytes) → d < 16 → first_size (digit d ∷ x) ≡ read_size d x
unfolding first_size
first_size-digit d x h = rw (first_size, hex_value-digit d h) refl

read_size-digit :
    (n d : ℕ) (x : Bytes) → d < 16 → read_size n (digit d ∷ x) ≡ read_size (n * 16 + d) x
unfolding read_size
read_size-digit n d x h = rw (read_size, hex_value-digit d h) refl

first_size-digits :
    (k fuel n : ℕ) (acc : Bytes)
    → Fits 16 k n
    → k < fuel
    → first_size (digits 16 fuel n acc) ≡ read_size n acc
unfolding digits
first_size-digits k zero n acc f h = absurd (omega arith)
first_size-digits zero (suc fuel) n acc f h = rw (lt→ltb n 16 f) (first_size-digit n acc f)
first_size-digits (suc k) (suc fuel) n acc f h = elim (Bool-cases (ltb n 16)) [
  | inl e ↦ rw e (first_size-digit n acc (ltb→lt n 16 e))
  | inr e ↦
      let same : n / 16 * 16 + n % 16 ≡ n = omega arith in
      rw e (
        first_size-digits k fuel (n / 16) (digit (n % 16) ∷ acc) f (omega arith)
        ∙ read_size-digit (n / 16) (n % 16) acc (omega arith)
        ∙ ap (λ m. read_size m acc) same)
]

read_size-crlf : (n : ℕ) (x : Bytes) → read_size n (13 ∷ (10 ∷ x)) ≡ some (n, x)
unfolding read_size hex_value bytes_eq
read_size-crlf n x = refl

length-show_hex_small : (n : ℕ) → n < 4096 → length (show_hex n) ≤ 3
unfolding show_hex
length-show_hex_small n h = length-digits_fits 16 2 16 n [] (omega arith)

pub size_line_lem :
    (n : ℕ) → n < 4096 → (size_line n ≡ show_hex n ++ crlf) × (length (size_line n) ≤ 5)
unfolding size_line string_format
size_line_lem n h =
    let short : length (show_hex n ++ crlf) ≤ 5 =
      omega (arith, length-show_hex_small n h, length-append (show_hex n) crlf) in
    let fits : leb 7 (length (show_hex n ++ crlf)) ≡ false = ground arith in rw fits (refl, short)

pub length-chunk_text : (x : Bytes) → length x < 4096 → length (chunk_text x) ≤ length x + 7
length-chunk_text x h = omega (
  arith,
  (size_line_lem (length x) h).1,
  length-append (size_line (length x)) (x ++ crlf),
  length-append x crlf,
)

digits-append :
    (base fuel n : ℕ) (acc x : Bytes) → digits base fuel n acc ++ x ≡ digits base fuel n (acc ++ x)
unfolding digits
digits-append base zero n acc x = refl
digits-append base (suc fuel) n acc x = elim (Bool-cases (ltb n base)) [
  | inl e ↦ rw e refl
  | inr e ↦ rw e (digits-append base fuel (n / base) (digit (n % base) ∷ acc) x)
]

pub first_size-size_line :
    (n : ℕ) (x : Bytes) → n < 4096 → first_size (size_line n ++ x) ≡ some (n, x)
unfolding show_hex
first_size-size_line n x h =
    ap (λ t. first_size (t ++ x)) ((size_line_lem n h).0)
    ∙ ap first_size (append_assoc (show_hex n) crlf x ∙ digits-append 16 16 n [] (crlf ++ x))
    ∙ first_size-digits 2 16 n (crlf ++ x) (omega arith) (omega arith)
    ∙ read_size-crlf n x

chunk_data_lem : (x rest : Bytes) → chunk_data (length x, x ++ (crlf ++ rest)) ≡ some (x, rest)
unfolding chunk_data bytes_eq
chunk_data_lem x rest =
    let fits : leb (length x) (length (x ++ (crlf ++ rest))) ≡ true =
      ground (arith, length-append x (crlf ++ rest)) in
    rw
      (
        fits,
        drop-append_add (length x) 0 x (crlf ++ rest) (omega arith),
        drop-append_add (length x + 2) 2 x (crlf ++ rest) (omega arith),
        take-append_add (length x) 0 x (crlf ++ rest) (omega arith),
        append-nil x,
      )
      refl

pub read_chunk-chunk_text :
    (x rest : Bytes) → length x < 4096 → read_chunk (chunk_text x ++ rest) ≡ some (x, rest)
unfolding read_chunk
read_chunk-chunk_text x rest h =
    let same : chunk_text x ++ rest ≡ size_line (length x) ++ (x ++ (crlf ++ rest)) =
      append_assoc (size_line (length x)) (x ++ crlf) rest
      ∙ ap (λ t. size_line (length x) ++ t) (append_assoc x crlf rest) in
    rw (same, read_chunk, first_size-size_line (length x) (x ++ (crlf ++ rest)) h)
      (chunk_data_lem x rest)

dechunk-done :
    (fuel : ℕ) (x : Bytes) → read_chunk x ≡ some ([], []) → dechunk (suc fuel) x ≡ some []
unfolding dechunk
dechunk-done fuel x e = rw (dechunk, e) refl

pub dechunk-last : (fuel : ℕ) → dechunk (suc fuel) (chunk_text [] ++ []) ≡ some []
dechunk-last fuel =
    dechunk-done fuel (chunk_text [] ++ []) (read_chunk-chunk_text [] [] (omega arith))

pub dechunk-more :
    (fuel : ℕ) (x rest y : Bytes)
    → 0 < length x
    → length x < 4096
    → dechunk fuel rest ≡ some y
    → dechunk (suc fuel) (chunk_text x ++ rest) ≡ some (x ++ y)
unfolding dechunk
dechunk-more fuel x rest y p h e =
    let filled : (length x == 0) ≡ false = ground arith in
    rw (dechunk, read_chunk-chunk_text x rest h, filled, e) refl
