-- ===== src/Connection.antt =====
-- A client's connection, webhdfs_image_proxy/connection.cpp and connection.h: the data. The handlers are in
-- the modules below. The first four fields of the state are shared with the other connections and with
-- the rendering threads: the streams by their handles, the next free handle, the cache and the pool.
-- An asynchronous operation that was started and whose handler has not run is an element of `pending`;
-- a page that was given to the pool counts as one, and its handler is `SendResponse`. The sockets and the
-- resolver are boost's. The vendored parser and the plugins are parameters, the record `Library`: the state
-- of the parser is what it was given since `http_parser_init`, a page is its document with the calls that
-- set its size.
pub mod Answer
pub mod Send
pub mod Forward
pub mod Handlers
pub mod Quiet
pub mod Steps
pub mod Keep
pub mod Serving
pub mod Ends
pub mod Reach
pub mod Failing
pub mod Invalid
pub mod Redirects
pub mod Delivery
pub mod Image
mod Tests
use image_proxy.Base.{
  ℕ, zero, suc, ◌+◌, ◌-◌, ◌*◌, ◌/◌, ◌%◌, ◌^◌, ◌≤◌, ◌<◌, min, max, ◌≡◌, refl, sym, ap, ap₂, subst,
  ◌∙◌, ◌≢◌, ◌↔◌, ◌⊎◌, inl, inr, Bool, true, false, not, ◌&&◌, ◌||◌, Option, none, some, List, [],
  ◌∷◌, ◌++◌, map, flatten, append-nil, append_assoc, arith, ltb, leb, ◌==◌, if◌then◌else◌, ltb→lt,
  lt→ltb, leb→le, ==→eq, ==_iff, tests, Bool-cases, Option-cases, List-cases, length, get_elem?,
  set, get_or, take, drop, replicate, All, length-append, length-set, length-take, length-drop,
  length-replicate, take-append-drop, get_elem?-set_self, get_elem?-set_ne, take-add, drop-drop,
  take-take, drop-take, take-take-min, take-all, drop-all, take-append_le, take-append_add,
  drop-append_le, drop-append_add, holds_below, holds_below_at, Bytes, dec_lt, dec_le, ℕ_discrete,
  codes, bytes_eq, bytes_eq_refl, bytes_eq→eq, bytes_eq_iff,
}
use image_proxy.Base.Int.{ℤ, pos, negsuc, sub_ℕ, add_ℕ}
use image_proxy.Dynamic.{
  DynamicMemoryStream, size_mod, u32_mod, block_at, read_blocks, storage_read, overwrite,
  write_blocks, append_blocks, grow, write_rest, write_from, storage_write, init, read, write,
  seek_target, seek_to, seek, tell, stream_size, copy_blocks, copy_to, MemoryStorage,
}
use image_proxy.Dynamic
use image_proxy.Cache.{
  ImageCache, Lock, Value, Map, find, insert, assign, tail, push, gives_up, search_map, get, put,
  Reply, step, run, Call,
}
use image_proxy.TaskPool.{
  System, no_task, is_null, is_empty_task, new_pool, next_task, notify_all, add_task, request_stop,
  all_ended, join, take_task, worker_step, wake, work_at, wake_at, Task, Worker, Action,
}
use image_proxy.Http.{
  Store, HttpParser, Callback, callbacks, update, append, field_cap, value_cap, max_headers,
  append_field, append_value, no_header, cleared, clear_headers, reset, find_header, get_header,
  store_write, on_message_begin, on_headers_complete, on_message_complete, on_url, on_header_field,
  on_header_value, on_body, callback, Header,
}
use image_proxy.Http
use image_proxy.Query.{
  Query, no_query, try_convert_long, try_convert_int, and_then, piece_texts, set_value, set_pair,
  set_pairs, query_loop, get_query,
}
use image_proxy.Response.{
  Page, buffer_size, crlf, string_advance, write_header, string_format, digit, digits,
  show_unsigned, show_hex, show_int, c_str, build_request, responses, find_message, message, pf_s,
  find_pixfmt, json_response, is_code, write_headers, build_response,
}

-- `http_parser_url`: the offsets and lengths of the fields that are set.
pub record Url : Type 0 where
  pub url_host : Option (ℕ × ℕ)
  pub url_port : Option (ℕ × ℕ)
  pub url_path : Option (ℕ × ℕ)
  pub url_query : Option (ℕ × ℕ)

-- The calls that set the size of a page.
pub data Sizing : Type 0 where
  width_to : ℕ → Sizing
  height_to : ℕ → Sizing

-- The page 0 of a document.
pub record Leaf : Type 0 where
  pub document : DynamicMemoryStream
  pub sizings : List Sizing

-- What is not the repository's own code. `execute` gives the callbacks that `http_parser_execute` makes
-- and the number that it returns; `load_doc` leaves the stream somewhere.
pub record Library : Type 0 where
  pub long_bits : ℕ
  pub strtoul : Bytes → ℕ × ℕ
  pub parse_url : Bytes → Url
  pub execute : Bool → List Bytes → Bytes → List Callback × ℕ
  pub is_get : Bool → List Bytes → Bool
  pub load_doc : DynamicMemoryStream → DynamicMemoryStream × Bool
  pub has_page : DynamicMemoryStream → Bool
  pub leaf_width : Leaf → ℕ
  pub leaf_height : Leaf → ℕ
  pub leaf_pixfmt : Leaf → ℕ
  pub pixfmts : List ℕ
  pub raw : ℕ

-- The operations. `connects` has the number of endpoints that are left to try.
pub data Operation : Type 0 where
  reads_request : Operation
  resolves : Operation
  connects : ℕ → Operation
  writes_request : Bytes → Operation
  reads_response : Operation
  renders : Leaf → Operation
  writes_response : Bytes → Operation

pub record Connection : Type 0 where
  pub store : Store
  pub next : ℕ
  pub cache : ImageCache
  pub pool : System
  pub self : ℕ
  pub host : Bytes
  pub port : Bytes
  pub buffer : Bytes
  pub parser : HttpParser
  pub is_request : Bool
  pub fed : List Bytes
  pub image : Option ℕ
  pub webhdfs_path : Bytes
  pub image_path : Bytes
  pub status_code : ℤ
  pub page : Page
  pub query : Query
  pub pending : List Operation

-- The first argument of the handlers.
pub data ErrorCode : Type 0 where
  success : ErrorCode
  eof : ErrorCode
  failure : ErrorCode

-- How an operation ends: the error code, what was read, the endpoints behind the first that a name
-- resolves to, how the cache's lock is got in the handler, and for a page that was rendered the stream and
-- whether the rendering threw.
pub record Completion : Type 0 where
  pub error_code : ErrorCode
  pub received : Bytes
  pub endpoints : ℕ
  pub lock : Lock
  pub rendering : DynamicMemoryStream
  pub threw : Bool

-- An operation is started.
unfoldable pub begin : Operation → Connection → Connection
begin op c = record c { pending = c.pending ++ (op ∷ []) }

-- `new DynamicMemoryStream()`, and the handle it gets.
unfoldable pub new_stream : Connection → Connection
new_stream c = record c { next = c.next + 1; store = update c.store c.next (Dynamic.init 0x1000) }

-- `Seek(0, SEEK_SET, NULL)` on a stream.
unfoldable pub rewind : ℕ → Connection → Connection
rewind h c = record c { store = update c.store h (Dynamic.seek (c.store h) (pos 0) 0).0 }

-- The constructor, and `Start`.
unfoldable pub start : Connection → Connection
start c =
    begin reads_request
      (record (new_stream c) { parser = record c.parser { content = some c.next } })

unfoldable pub new_connection :
    Store → ℕ → ImageCache → System → ℕ → Bytes → Bytes → Bytes → ℕ → Connection
new_connection store next cache pool self host port buffer invalid_pixfmt = record {
  store = store;
  next = next;
  cache = cache;
  pool = pool;
  self = self;
  host = host;
  port = port;
  buffer = buffer;
  parser = Http.init;
  is_request = true;
  fed = [];
  image = none;
  webhdfs_path = [];
  image_path = [];
  status_code = negsuc 0;
  page = record { page_width = 0; page_height = 0; page_pixfmt = invalid_pixfmt };
  query = no_query;
  pending = [];
}
