-- ===== src/Response/Texts.antt =====
-- What the steps that write into the buffer leave there, cut to what the buffer holds.
use image_proxy.Base.{
  ◌-◌, ◌<◌, ◌≡◌, refl, sym, ap, ◌∙◌, inl, inr, true, ◌++◌, append_assoc, arith, ltb, leb, lt→ltb,
  Bool-cases, length, take, length-take, take-all, Bytes, codes,
}
use image_proxy.Strings.{string_copy}
use image_proxy.Http.{append}
use image_proxy.Http.Parts.{append-clip, clip}
use image_proxy.Response.{
  string_advance, write_header, string_format, buffer_size, crlf, c_str, build_request,
}

-- What the buffer keeps of a text: all but the last byte can hold it, as a NUL stands behind.
abbrev pub cut : Bytes → Bytes
cut x = clip buffer_size x

length-cut : (x : Bytes) → length (cut x) < buffer_size
length-cut x = omega (arith, length-take (buffer_size - 1) x)

pub string_advance-cut : (x c : Bytes) → string_advance (cut x) c ≡ cut (x ++ c)
unfolding string_advance append
string_advance-cut x c =
    let room : ltb 0 (buffer_size - length (cut x)) ≡ true =
      lt→ltb _ _ (omega (arith, length-cut x)) in
    let same : append buffer_size (cut x) c
        ≡ cut x ++ string_copy (buffer_size - length (cut x)) c =
      rw room refl in
    sym same ∙ append-clip buffer_size x c (omega arith)

pub string_format-cut : (x : Bytes) → string_format buffer_size x ≡ cut x
unfolding string_format
string_format-cut x = elim (Bool-cases (leb buffer_size (length x))) [
  | inl e ↦ rw e refl
  | inr e ↦ rw e (sym (take-all (buffer_size - 1) x (ground arith)))
]

-- A header line.
abbrev pub header : Bytes → Bytes → Bytes
header name value = name ++ (codes ": " ++ (value ++ crlf))

pub write_header-cut :
    (x name value : Bytes) → write_header (cut x) name value ≡ cut (x ++ header name value)
unfolding write_header
write_header-cut x name value =
    rw (string_advance-cut, string_advance-cut, string_advance-cut, string_advance-cut)
      (ap cut (
        append_assoc ((x ++ name) ++ codes ": ") value crlf
        ∙ append_assoc (x ++ name) (codes ": ") (value ++ crlf)
        ∙ append_assoc x name (codes ": " ++ (value ++ crlf))))

pub cut-all : (x : Bytes) → length x < buffer_size → cut x ≡ x
cut-all x h = take-all (buffer_size - 1) x (omega arith)

-- The request to the server for a path.
abbrev pub request_text : Bytes → Bytes → Bytes
request_text request_path host =
    (codes "GET /webhdfs/v1" ++ (c_str request_path ++ (codes "?op=OPEN HTTP/1.1" ++ crlf)))
    ++ (header (codes "Host") host ++ (header (codes "Connection") (codes "close") ++ crlf))

-- The request in the buffer is the request line for the path, up to a NUL in it, with the two headers
-- and an empty line, cut at the buffer's size less one byte; so one that is shorter is sent whole.
pub build_request-text :
    (request_path host : Bytes)
    → (build_request request_path host ≡ take (buffer_size - 1) (request_text request_path host))
      × (length (build_request request_path host) < buffer_size)
unfolding build_request
build_request-text request_path host =
    let first =
      codes "GET /webhdfs/v1" ++ (c_str request_path ++ (codes "?op=OPEN HTTP/1.1" ++ crlf)) in
    let h1 = header (codes "Host") host in
    let h2 = header (codes "Connection") (codes "close") in
    let e : build_request request_path host ≡ cut (request_text request_path host) =
      rw
        (
          string_format-cut first,
          write_header-cut first (codes "Host") host,
          write_header-cut (first ++ h1) (codes "Connection") (codes "close"),
          string_advance-cut ((first ++ h1) ++ h2) crlf,
        )
        (ap cut (append_assoc (first ++ h1) h2 crlf ∙ append_assoc first h1 (h2 ++ crlf))) in
    (e, rw e (length-cut (request_text request_path host)))
