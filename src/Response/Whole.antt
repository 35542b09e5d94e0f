-- ===== src/Response/Whole.antt =====
-- The response as a whole: the status line, the headers, the body.
use image_proxy.Base.{
  ℕ, ◌+◌, ◌-◌, ◌≤◌, ◌<◌, min, ◌≡◌, sym, ap, ◌∙◌, Bool, true, false, ◌&&◌, List, [], ◌∷◌, ◌++◌,
  append-nil, append_assoc, arith, if◌then◌else◌, length, take, length-append, take-all, Bytes,
  codes,
}
use image_proxy.Base.Int.{ℤ}
use image_proxy.Response.{
  show_unsigned, show_int, message, buffer_size, crlf, is_code, write_headers, build_response, Page,
}
use image_proxy.Response.Texts.{
  cut, cut-all, string_advance-cut, string_format-cut, write_header-cut, header,
}
use image_proxy.Response.Sizes.{
  json_text, length-json_text, json_response-text, shown_length, length-message, length-show_int,
  length-show_unsigned,
}

-- The header lines of an answer with the code 200.
abbrev pub header_lines : List ℕ → Bool → Page → Bytes
header_lines pf json page =
    header (codes "Connection") (codes "close")
    ++ (if json
        then header (codes "Content-Type") (codes "application/json")
          ++ header (codes "Content-Length") (show_unsigned (length (json_text pf page)))
        else header (codes "Content-Type") (codes "image/jpeg")
          ++ header (codes "Transfer-Encoding") (codes "chunked"))

write_headers-cut :
    (pf : List ℕ) (json : Bool) (page : Page) (x : Bytes)
    → write_headers pf json page (cut x) ≡ cut (x ++ header_lines pf json page)
unfolding write_headers
write_headers-cut pf true page x =
    let h1 = header (codes "Connection") (codes "close") in
    let h2 = header (codes "Content-Type") (codes "application/json") in
    let h3 = header (codes "Content-Length") (show_unsigned (length (json_text pf page))) in
    rw
      (
        json_response-text pf page,
        shown_length pf page,
        write_header-cut x (codes "Connection") (codes "close"),
        write_header-cut (x ++ h1) (codes "Content-Type") (codes "application/json"),
        write_header-cut ((x ++ h1) ++ h2) (codes "Content-Length")
            (show_unsigned (length (json_text pf page))),
      )
      (ap cut (append_assoc (x ++ h1) h2 h3 ∙ append_assoc x h1 (h2 ++ h3)))
write_headers-cut pf false page x =
    let h1 = header (codes "Connection") (codes "close") in
    let h2 = header (codes "Content-Type") (codes "image/jpeg") in
    let h3 = header (codes "Transfer-Encoding") (codes "chunked") in
    rw
      (
        write_header-cut x (codes "Connection") (codes "close"),
        write_header-cut (x ++ h1) (codes "Content-Type") (codes "image/jpeg"),
        write_header-cut ((x ++ h1) ++ h2) (codes "Transfer-Encoding") (codes "chunked"),
      )
      (ap cut (append_assoc (x ++ h1) h2 h3 ∙ append_assoc x h1 (h2 ++ h3)))

length-header_lines :
    (pf : List ℕ) (json : Bool) (page : Page) → length (header_lines pf json page) ≤ 0x80
length-header_lines pf true page =
    let n = show_unsigned (length (json_text pf page)) in
    omega (arith, length-show_unsigned (length (json_text pf page)), length-append n crlf)
length-header_lines pf false page = omega arith

-- The status line of a response.
abbrev pub status_line : ℤ → Bytes
status_line code = codes "HTTP/1.1 " ++ (show_int code ++ (32 ∷ (message code ++ crlf)))

length-status_line : (code : ℤ) → length (status_line code) ≤ 0x40
length-status_line code = omega (
  arith,
  length-show_int code,
  length-message code,
  length-append (show_int code) (32 ∷ (message code ++ crlf)),
  length-append (message code) crlf,
)

-- A text that stands in a response only if a test holds.
unfoldable pub given : Bool → Bytes → Bytes
given true x = x
given false x = []

headers_given :
    (b json : Bool) (pf : List ℕ) (page : Page) (x : Bytes)
    → (if b then write_headers pf json page (cut x) else cut x)
      ≡ cut (x ++ given b (header_lines pf json page))
unfolding given
headers_given true json pf page x = write_headers-cut pf json page x
headers_given false json pf page x = ap cut (sym (append-nil x))

length-given : (b : Bool) (x : Bytes) → length (given b x) ≤ length x
unfolding given
length-given true x = omega arith
length-given false x = omega arith

body_given :
    (b : Bool) (x j : Bytes)
    → length x + length j < buffer_size
    → (if b then cut x ++ take (min (length j) (buffer_size - length (cut x))) j else cut x)
      ≡ x ++ given b j
unfolding given
body_given true x j h =
    rw (cut-all x (omega arith))
      (ap (λ t. x ++ t) (take-all (min (length j) (buffer_size - length x)) j (omega arith)))
body_given false x j h = cut-all x (omega arith) ∙ sym (append-nil x)

-- A whole response, written in one piece.
abbrev pub response_text : List ℕ → ℤ → Bool → Page → Bytes
response_text pf code json page =
    ((status_line code ++ given (is_code 200 code) (header_lines pf json page)) ++ crlf)
    ++ given (is_code 200 code && json) (json_text pf page)

-- A response is the status line, for the code 200 the headers of a JSON or of an image response, an empty
-- line, and for a JSON response the body, none of them cut: it is shorter than the buffer. The header
-- `Content-Length` gives the length of the body that is sent.
pub build_response-text :
    (pf : List ℕ) (code : ℤ) (json : Bool) (page : Page)
    → (build_response pf code json page ≡ response_text pf code json page)
      × (length (build_response pf code json page) < buffer_size)
unfolding build_response
build_response-text pf code json page =
    let first = status_line code in
    let lines = given (is_code 200 code) (header_lines pf json page) in
    let front = (first ++ lines) ++ crlf in
    let j = json_text pf page in
    let n1 = length-status_line code in
    let n2 = length-header_lines pf json page in
    let n3 = length-given (is_code 200 code) (header_lines pf json page) in
    let small : length front ≤ 0x100 =
      omega (arith, n1, n2, n3, length-append (first ++ lines) crlf, length-append first lines) in
    let e : build_response pf code json page ≡ response_text pf code json page =
      rw
        (
          json_response-text pf page,
          string_format-cut first,
          headers_given (is_code 200 code) json pf page first,
          string_advance-cut (first ++ lines) crlf,
        )
        (body_given (is_code 200 code && json) front j
          (omega (arith, small, length-json_text pf page))) in
    (
      e,
      rw e (
          omega (
            arith,
            small,
            length-json_text pf page,
            length-given (is_code 200 code && json) j,
            length-append front (given (is_code 200 code && json) j),
          )),
    )
