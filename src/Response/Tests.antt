-- ===== src/Response/Tests.antt =====
-- Concrete requests and responses.
use image_proxy.Base.{ℕ, ◌<◌, ◌≡◌, refl, true, List, [], ◌∷◌, ◌++◌, length, take, codes}
use image_proxy.Base.Int.{pos}
use image_proxy.Response.{
  digits, crlf, string_advance, write_header, string_format, show_unsigned, show_hex, build_request,
  find_message, message, find_pixfmt, json_response, build_response, Page,
}
use image_proxy.Response.Texts.{request_text, build_request-text}
use image_proxy.Response.Whole.{response_text, build_response-text}
use image_proxy.Split.{scan}
use image_proxy.Strings.{string_copy}

build_request_run :
    build_request (codes "/a.png") (codes "hdfs")
    ≡ codes "GET /webhdfs/v1/a.png?op=OPEN HTTP/1.1"
      ++ (crlf ++ (codes "Host: hdfs" ++ (crlf ++ (codes "Connection: close" ++ (crlf ++ crlf)))))
unfolding build_request write_header string_advance string_format string_copy scan
build_request_run = refl

message_run : message (pos 404) ≡ codes "Not Found"
unfolding message find_message
message_run = refl

message_unknown : message (pos 403) ≡ codes "Not Implemented"
unfolding message find_message
message_unknown = refl

show_hex_run : show_hex 4088 ≡ codes "ff8"
unfolding show_hex digits
show_hex_run = refl

-- Codes of the pixel formats in the order of the names, and a page.
abbrev formats : List ℕ
formats = 0 ∷ 1 ∷ 2 ∷ 3 ∷ 4 ∷ 5 ∷ 6 ∷ 7 ∷ []

abbrev page : Page
page = record { page_width = 640; page_height = 480; page_pixfmt = 2 }

json_response_run :
    json_response formats page ≡ codes "{'width' : '640', 'height' : '480', 'pf' : 'rgb24'}"
unfolding json_response string_format show_unsigned digits find_pixfmt
json_response_run = refl

build_request-text_run :
    (build_request (codes "/a") (codes "hdfs")
      ≡ take 4095 (request_text (codes "/a") (codes "hdfs")))
    × (length (build_request (codes "/a") (codes "hdfs")) < 0x1000)
build_request-text_run = build_request-text (codes "/a") (codes "hdfs")

build_response-text_example :
    (build_response formats (pos 200) true page ≡ response_text formats (pos 200) true page)
    × (length (build_response formats (pos 200) true page) < 0x1000)
build_response-text_example = build_response-text formats (pos 200) true page
