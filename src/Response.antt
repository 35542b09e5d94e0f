-- ===== src/Response.antt =====
-- The texts that a connection sends, `BuildRequest` and `BuildResponse` of
-- webhdfs_image_proxy/connection.cpp, with `StringAdvance` and `WriteHeader`. The connection's buffer has
-- 0x1000 bytes; what stands in it in front of the pointer `buf` is a text, and `buf_len` is what is
-- left. `StringFormat` calls `vsnprintf`, whose result is here the text that it prints. The codes of
-- the pixel formats are the plugin interface's, so they are a parameter.
pub mod Texts
pub mod Sizes
pub mod Whole
mod Tests
use image_proxy.Base.{
  ℕ, zero, suc, ◌+◌, ◌-◌, ◌*◌, ◌/◌, ◌%◌, ◌^◌, ◌≤◌, ◌<◌, min, max, ◌≡◌, refl, sym, ap, ap₂, subst,
  ◌∙◌, ◌≢◌, ◌↔◌, ◌⊎◌, inl, inr, Bool, true, false, not, ◌&&◌, ◌||◌, Option, none, some, List, [],
  ◌∷◌, ◌++◌, map, flatten, append-nil, append_assoc, arith, ltb, leb, ◌==◌, if◌then◌else◌, ltb→lt,
  lt→ltb, leb→le, ==→eq, ==_iff, tests, Bool-cases, Option-cases, List-cases, length, get_elem?,
  set, get_or, take, drop, replicate, All, length-append, length-set, length-take, length-drop,
  length-replicate, take-append-drop, get_elem?-set_self, get_elem?-set_ne, take-add, drop-drop,
  take-take, drop-take, take-take-min, take-all, drop-all, take-append_le, take-append_add,
  drop-append_le, drop-append_add, holds_below, holds_below_at, Bytes, dec_lt, dec_le, ℕ_discrete,
  codes, bytes_eq, bytes_eq_refl, bytes_eq→eq, bytes_eq_iff,
}
use image_proxy.Base.Int.{ℤ, pos, negsuc, sub_ℕ, add_ℕ}
use image_proxy.Strings.{
  string_copy, to_lower, chars_ascii, fold_char, same_letters, equals_ignore_case,
  same_wide_letters, equals_ignore_case_wide,
}
use image_proxy.Split.{
  scan, Iterator, begin_split, advance, current, at_end, as_string, visit, split_pair, Piece,
}

abbrev pub buffer_size : ℕ
buffer_size = 0x1000

abbrev pub crlf : Bytes
crlf = 13 ∷ 10 ∷ []

-- `StringAdvance`.
unfoldable pub string_advance : Bytes → Bytes → Bytes
string_advance s chunk = s ++ string_copy (buffer_size - length s) chunk

-- `WriteHeader`.
unfoldable pub write_header : Bytes → Bytes → Bytes → Bytes
write_header s name value =
    string_advance (string_advance (string_advance (string_advance s name) (codes ": ")) value) crlf

-- `StringFormatImpl` into a buffer of `r_size` bytes, of what `vsnprintf` prints.
unfoldable pub string_format : ℕ → Bytes → Bytes
string_format r_size text =
    if not (ltb 0 r_size)
    then []
    else if leb r_size (length text)
    then take (r_size - 1) text
    else text

-- A digit, and the digits of a number to a base, on fuel for as many digits.
abbrev pub digit : ℕ → ℕ
digit d = if ltb d 10 then 48 + d else 87 + d

unfoldable pub digits : ℕ → ℕ → ℕ → Bytes → Bytes
digits base zero n acc = acc
digits base (suc fuel) n acc =
    let rest = digits base fuel (n / base) (digit (n % base) ∷ acc) in
    if ltb n base then digit n ∷ acc else rest

-- `%u` and `%x`, for numbers of at most 64 bits.
unfoldable pub show_unsigned : ℕ → Bytes
show_unsigned n = digits 10 20 n []

unfoldable pub show_hex : ℕ → Bytes
show_hex n = digits 16 16 n []

-- `%d`.
unfoldable pub show_int : ℤ → Bytes
show_int (pos n) = show_unsigned n
show_int (negsuc n) = b'-' ∷ show_unsigned (n + 1)

-- `c_str()` as a text: up to the first NUL.
abbrev pub c_str : Bytes → Bytes
c_str s = take (scan 0 s) s

-- `BuildRequest` for a path and a host.
unfoldable pub build_request : Bytes → Bytes → Bytes
build_request request_path host =
    let s =
      string_format buffer_size
        (codes "GET /webhdfs/v1" ++ (c_str request_path ++ (codes "?op=OPEN HTTP/1.1" ++ crlf))) in
    let s1 = write_header s (codes "Host") host in
    let s2 = write_header s1 (codes "Connection") (codes "close") in string_advance s2 crlf

-- The table `responses`, and the message that `lower_bound` finds in it for a code.
abbrev pub responses : List (ℕ × Bytes)
responses =
    (200, codes "OK")
    ∷ (302, codes "Found")
    ∷ (400, codes "Invalid request")
    ∷ (404, codes "Not Found")
    ∷ (500, codes "Server error")
    ∷ []

unfoldable pub find_message : List (ℕ × Bytes) → ℕ → Bytes
find_message [] code = codes "Not Implemented"
find_message ((c, m) ∷ rest) code =
    if ltb c code then find_message rest code else if c == code then m else codes "Not Implemented"

unfoldable pub message : ℤ → Bytes
message (pos n) = find_message responses n
message (negsuc n) = codes "Not Implemented"

-- The names `pf_s`, and the index that `lower_bound` finds in `pf`, 0 if the code is not there.
abbrev pub pf_s : List Bytes
pf_s =
    codes "invalid"
    ∷ codes "gray8"
    ∷ codes "rgb24"
    ∷ codes "bgr24"
    ∷ codes "rgba32"
    ∷ codes "argb32"
    ∷ codes "abgr32"
    ∷ codes "bgra32"
    ∷ []

unfoldable pub find_pixfmt : List ℕ → ℕ → ℕ → ℕ
find_pixfmt [] i pixfmt = 0
find_pixfmt (f ∷ pf) i pixfmt =
    if ltb f pixfmt then find_pixfmt pf (i + 1) pixfmt else if f == pixfmt then i else 0

-- What a response is about: the query's `json`, and the page.
pub record Page : Type 0 where
  pub page_width : ℕ
  pub page_height : ℕ
  pub page_pixfmt : ℕ

-- The buffer `json_response`.
unfoldable pub json_response : List ℕ → Page → Bytes
json_response pf page = string_format 0x100 (
    codes "{'width' : '"
    ++ (show_unsigned page.page_width
        ++ (codes "', 'height' : '"
            ++ (show_unsigned page.page_height
                ++ (codes "', 'pf' : '"
                    ++ (get_or pf_s (find_pixfmt pf 0 page.page_pixfmt) [] ++ codes "'}"))))))

unfoldable pub is_code : ℕ → ℤ → Bool
is_code n (pos m) = m == n
is_code n (negsuc m) = false

-- The headers of a response with the code 200.
unfoldable pub write_headers : List ℕ → Bool → Page → Bytes → Bytes
write_headers pf json page s =
    let s1 = write_header s (codes "Connection") (codes "close") in
    if json
    then write_header (write_header s1 (codes "Content-Type") (codes "application/json"))
        (codes "Content-Length")
        (string_format 0x10 (show_unsigned (length (json_response pf page))))
    else write_header (write_header s1 (codes "Content-Type") (codes "image/jpeg"))
        (codes "Transfer-Encoding") (codes "chunked")

-- `BuildResponse`.
unfoldable pub build_response : List ℕ → ℤ → Bool → Page → Bytes
build_response pf code json page =
    let s =
      string_format buffer_size
        (codes "HTTP/1.1 " ++ (show_int code ++ (32 ∷ (message code ++ crlf)))) in
    let s1 = if is_code 200 code then write_headers pf json page s else s in
    let s2 = string_advance s1 crlf in
    if is_code 200 code && json
    then s2
      ++ take (min (length (json_response pf page)) (buffer_size - length s2))
          (json_response pf page)
    else s2
