-- ===== src/Http.antt =====
-- The header table and the callbacks of webhdfs_image_proxy/http_parse.hpp and http_parse.cpp.
-- A pointer into `headers[0x10]` is its index, 16 for one past the end; a StringPiece into a header's
-- own buffer is the text in it. http_parser.c is another project's code, so `http_parser_execute`
-- is a parameter, which drives the callbacks below.
pub mod Parts
pub mod Headers
pub mod Messages
mod Tests
use image_proxy.Base.{
  ℕ, zero, suc, ◌+◌, ◌-◌, ◌*◌, ◌/◌, ◌%◌, ◌^◌, ◌≤◌, ◌<◌, min, max, ◌≡◌, refl, sym, ap, ap₂, subst,
  ◌∙◌, ◌≢◌, ◌↔◌, ◌⊎◌, inl, inr, Bool, true, false, not, ◌&&◌, ◌||◌, Option, none, some, List, [],
  ◌∷◌, ◌++◌, map, flatten, append-nil, append_assoc, arith, ltb, leb, ◌==◌, if◌then◌else◌, ltb→lt,
  lt→ltb, leb→le, ==→eq, ==_iff, tests, Bool-cases, Option-cases, List-cases, length, get_elem?,
  set, get_or, take, drop, replicate, All, length-append, length-set, length-take, length-drop,
  length-replicate, take-append-drop, get_elem?-set_self, get_elem?-set_ne, take-add, drop-drop,
  take-take, drop-take, take-take-min, take-all, drop-all, take-append_le, take-append_add,
  drop-append_le, drop-append_add, holds_below, holds_below_at, Bytes, dec_lt, dec_le, ℕ_discrete,
  codes, bytes_eq, bytes_eq_refl, bytes_eq→eq, bytes_eq_iff,
}
use image_proxy.Base.Int.{ℤ, pos, negsuc, sub_ℕ, add_ℕ}
use image_proxy.Strings.{
  string_copy, equals_ignore_case, to_lower, same_letters, chars_ascii, fold_char,
  same_wide_letters, equals_ignore_case_wide,
}
use image_proxy.Dynamic.{
  DynamicMemoryStream, size_mod, u32_mod, block_at, read_blocks, storage_read, overwrite,
  write_blocks, append_blocks, grow, write_rest, write_from, storage_write, read, write,
  seek_target, seek_to, seek, tell, stream_size, copy_blocks, copy_to, MemoryStorage,
}
use image_proxy.Dynamic

pub record Header : Type 0 where
  pub field : Bytes
  pub value : Bytes

-- `Header::Append` for a buffer of `n` bytes.
unfoldable pub append : ℕ → Bytes → Bytes → Bytes
append n s chunk = if ltb 0 (n - length s) then s ++ string_copy (n - length s) chunk else s

abbrev pub field_cap : ℕ
field_cap = 0x100

abbrev pub value_cap : ℕ
value_cap = 0x200

abbrev pub max_headers : ℕ
max_headers = 0x10

-- `AppendField` and `AppendValue` on the header at an index.
unfoldable pub append_field : List Header → ℕ → Bytes → List Header
append_field [] i chunk = []
append_field (h ∷ hs) zero chunk = record h { field = append field_cap h.field chunk } ∷ hs
append_field (h ∷ hs) (suc i) chunk = h ∷ append_field hs i chunk

unfoldable pub append_value : List Header → ℕ → Bytes → List Header
append_value [] i chunk = []
append_value (h ∷ hs) zero chunk = record h { value = append value_cap h.value chunk } ∷ hs
append_value (h ∷ hs) (suc i) chunk = h ∷ append_value hs i chunk

-- The fields of `HttpParser` but for the vendored parser's state.
pub record HttpParser : Type 0 where
  pub headers : List Header
  pub head : ℕ
  pub tail : ℕ
  pub header_it : ℕ
  pub url : Bytes
  pub status_code : ℤ
  pub content : Option ℕ
  pub headers_complete : Bool
  pub message_complete : Bool

abbrev pub no_header : Header
no_header = record { field = []; value = [] }

abbrev pub cleared : List Header
cleared = replicate max_headers no_header

-- `ClearHeaders`.
unfoldable pub clear_headers : HttpParser → HttpParser
clear_headers p = record p { headers = cleared; head = 0; tail = max_headers; header_it = 0 }

-- The constructor. The source has `content(content)`, which copies the member before it is there; what
-- stands in it is taken for no stream, and `Connection::Start` sets it before it is used.
unfoldable pub init : HttpParser
init = record {
  headers = cleared;
  head = 0;
  tail = max_headers;
  header_it = 0;
  url = [];
  status_code = negsuc 0;
  content = none;
  headers_complete = false;
  message_complete = false;
}

-- `Reset`, but for the call of `http_parser_init`.
unfoldable pub reset : HttpParser → HttpParser
unfolding clear_headers
reset p = clear_headers (record p {
  status_code = negsuc 0;
  headers_complete = false;
  message_complete = false;
  url = [];
})

-- The loop of `GetHeader` over the headers from `head` to `tail`.
unfoldable pub find_header : List Header → ℕ → Bytes → Option Bytes
find_header hs zero name = none
find_header [] (suc n) name = none
find_header (h ∷ hs) (suc n) name =
    if equals_ignore_case h.field name then some h.value else find_header hs n name

-- `GetHeader`: what goes through `value`, `none` for the result false.
unfoldable pub get_header : HttpParser → Bytes → Option Bytes
get_header p name = find_header (drop p.head p.headers) (p.tail - p.head) name

-- The streams of the program by their handles.
abbrev pub Store : Type 0
Store = ℕ → DynamicMemoryStream

abbrev pub update : Store → ℕ → DynamicMemoryStream → Store
update st h s = λ i. if i == h then s else st i

-- A stream's `Write` through its handle. It comes to an end for each stream with nonempty blocks.
unfoldable pub store_write : ℕ → Store → ℕ → Bytes → Store
store_write raw st h chunk = elim (Dynamic.write raw (st h) chunk) [
  | none ↦ st
  | some (s, r) ↦ update st h s
]

-- The calls that `http_parser_execute` makes.
pub data Callback : Type 0 where
  message_begin : Callback
  url_part : Bytes → Callback
  header_field : Bytes → Callback
  header_value : Bytes → Callback
  headers_done : ℕ → Callback
  body : Bytes → Callback
  message_done : Callback

-- `on_message_begin`, `on_headers_complete`, `on_message_complete`, `on_url`.
unfoldable pub on_message_begin : HttpParser → HttpParser
on_message_begin p = record p { header_it = 0 }

unfoldable pub on_headers_complete : HttpParser → ℕ → HttpParser
on_headers_complete p status = record p {
  head = 0;
  tail = p.header_it;
  headers_complete = true;
  status_code = pos status;
}

unfoldable pub on_message_complete : HttpParser → HttpParser
on_message_complete p = record p { message_complete = true }

unfoldable pub on_url : HttpParser → Bytes → HttpParser
on_url p s = record p { url = p.url ++ s }

unfoldable pub on_header_field : HttpParser → Bytes → HttpParser
on_header_field p s =
    let head = if p.head == p.header_it then p.head else p.header_it in
    if head == p.tail
    then record p { head = head }
    else record p { head = head; headers = append_field p.headers head s }

unfoldable pub on_header_value : HttpParser → Bytes → HttpParser
on_header_value p s = if p.head == p.tail then p else record p {
  header_it = if p.head == p.header_it then p.header_it + 1 else p.header_it;
  headers = append_value p.headers p.head s;
}

-- `on_body`: the store, and the result for the parser, 1 for an error.
unfoldable pub on_body : ℕ → Store → HttpParser → Bytes → Store × ℕ
on_body raw st p s = elim p.content [ none ↦ (st, 1) | some h ↦ (store_write raw st h s, 0) ]

-- One callback: the store, the parser and the result.
unfoldable pub callback : ℕ → Store × HttpParser → Callback → (Store × HttpParser) × ℕ
callback raw (st, p) message_begin = ((st, on_message_begin p), 0)
callback raw (st, p) (url_part s) = ((st, on_url p s), 0)
callback raw (st, p) (header_field s) = ((st, on_header_field p s), 0)
callback raw (st, p) (header_value s) = ((st, on_header_value p s), 0)
callback raw (st, p) (headers_done status) = ((st, on_headers_complete p status), 0)
callback raw (st, p) (body s) = let (st', r) = on_body raw st p s in ((st', p), r)
callback raw (st, p) message_done = ((st, on_message_complete p), 0)

-- Callbacks in a row, up to the first that fails.
unfoldable pub callbacks : ℕ → Store × HttpParser → List Callback → Store × HttpParser
callbacks raw sp [] = sp
callbacks raw sp (c ∷ cs) =
    let (sp', r) = callback raw sp c in
    let rest = callbacks raw sp' cs in if r == 0 then rest else sp'
