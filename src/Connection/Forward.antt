-- ===== src/Connection/Forward.antt =====
-- The request to the server: `SendRequest`, `handle_resolve`, `handle_connect`, `handle_write_request`
-- and `SetLocation` of webhdfs_image_proxy/connection.cpp.
use image_proxy.Base.{
  ℕ, zero, suc, Bool, true, false, ◌&&◌, Option, none, some, [], leb, ◌==◌, if◌then◌else◌, length,
  take, drop, Bytes, codes, bytes_eq,
}
use image_proxy.Base.Int.{pos}
use image_proxy.Cache.{
  ImageCache, Lock, Value, Map, find, insert, assign, tail, push, gives_up, search_map, get, put,
  Reply, step, run, Call, init,
}
use image_proxy.Cache
use image_proxy.Http.{
  Store, HttpParser, Callback, callbacks, update, get_header, append, field_cap, value_cap,
  max_headers, append_field, append_value, no_header, cleared, clear_headers, reset, find_header,
  store_write, on_message_begin, on_headers_complete, on_message_complete, on_url, on_header_field,
  on_header_value, on_body, callback, Header,
}
use image_proxy.Http
use image_proxy.Response.{build_request}
use image_proxy.Strings.{equals_ignore_case}
use image_proxy.Connection.{
  Library, Connection, begin, rewind, new_stream, ErrorCode, success, eof, failure, resolves,
  connects, writes_request, reads_response, Url,
}
use image_proxy.Connection.Answer.{send_response, fill}
use image_proxy.Connection.Send.{send_page}

-- The end of `SendRequest`: the name of the server is looked up.
unfoldable pub resolve : Connection → Connection
resolve c = begin resolves (record c { parser = record c.parser { content = c.image } })

-- `image_cache->Get`, which makes a stream if it has none, and `image = r.first`.
unfoldable pub take_item : ℕ × Bool → Connection → Connection
take_item (item, hit) c = record (if item == c.next then new_stream c else c) { image = some item }

-- `request_path` under a size, as `assign` copies it.
abbrev pub slice : ℕ × ℕ → Bytes → Bytes
slice (off, len) s = take len (drop off s)

-- `StringPiece::starts_with`.
unfoldable pub starts_with : Bytes → Bytes → Bool
starts_with s x = leb (length x) (length s) && bytes_eq (take (length x) s) x

-- `WEBHDFS_REQUEST_PREFIX`.
abbrev pub webhdfs_request_prefix : Bytes
webhdfs_request_prefix = codes "/webhdfs/v1"

-- The path of a redirect, less the prefix that the request line adds again.
unfoldable pub cut_prefix : Bytes → Bytes
cut_prefix path =
    if starts_with path webhdfs_request_prefix
    then drop (length webhdfs_request_prefix) path
    else path

unfoldable pub handle_connect : ErrorCode → ℕ → Connection → Connection
handle_connect success k c =
    let text = build_request c.webhdfs_path c.host in begin (writes_request text) (fill text c)
handle_connect eof zero c = c
handle_connect eof (suc k) c = begin (connects k) c
handle_connect failure zero c = c
handle_connect failure (suc k) c = begin (connects k) c

-- `handle_resolve`, for so many endpoints behind the first.
unfoldable pub handle_resolve : ErrorCode → ℕ → Connection → Connection
handle_resolve success k c = begin (connects k) c
handle_resolve eof k c = c
handle_resolve failure k c = c

unfoldable pub handle_write_request : ErrorCode → Connection → Connection
handle_write_request success c =
    begin reads_response (record c { parser = Http.reset c.parser; is_request = false; fed = [] })
handle_write_request eof c = c
handle_write_request failure c = c

-- `SetLocation` for the path's field.
unfoldable pub set_path : Option (ℕ × ℕ) → Bytes → Connection → Connection × Bool
set_path none uri c = (c, false)
set_path (some path) uri c = (record c { webhdfs_path = cut_prefix (slice path uri) }, true)

-- `SetLocation` from the host's field on.
unfoldable pub set_host : Option (ℕ × ℕ) → Url → Bytes → Connection → Connection × Bool
set_host none url uri c = (c, false)
set_host (some host) url uri c =
    let port : Bytes = elim url.url_port [ none ↦ codes "80" | some p ↦ slice p uri ] in
    set_path url.url_path uri (record c { host = slice host uri; port = port })

module _ (lib : Library) where
  -- `SendRequest` where there is no image yet, with what the cache gives.
  unfoldable pub send_uncached : Lock → ℕ × Bool → Connection → Option Connection
  send_uncached lock (item, hit) c =
      if hit
      then send_page lib lock (take_item (item, hit) c)
      else some (resolve (take_item (item, hit) c))

  -- `SendRequest` with the image that there is.
  unfoldable pub send_path : Lock → Bytes → Option ℕ → Connection → Option Connection
  send_path lock path none c =
      let c1 = record c { image_path = path } in
      send_uncached lock (Cache.get c1.cache lock c1.next path) c1
  send_path lock path (some h) c = some (resolve (rewind h c))

  -- `SendRequest`.
  unfoldable pub send_request : Lock → Bytes → Connection → Option Connection
  send_request lock path c =
      if equals_ignore_case path (codes "/favicon.ico")
      then some (send_response lib.pixfmts (pos 404) c)
      else send_path lock path c.image (record c { webhdfs_path = path })

  -- `SetLocation`.
  unfoldable pub set_location : Bytes → Connection → Connection × Bool
  unfolding set_host set_path
  set_location uri c = let url = lib.parse_url uri in set_host url.url_host url uri c
