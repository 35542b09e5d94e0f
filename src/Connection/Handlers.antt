-- ===== src/Connection/Handlers.antt =====
-- The handlers that parse, and all handlers as one function.
use image_proxy.Base.{
  Bool, true, false, not, ◌&&◌, ◌||◌, Option, none, some, [], ◌∷◌, ◌++◌, ltb, ◌==◌, if◌then◌else◌,
  length, Bytes, codes,
}
use image_proxy.Base.Int.{ℤ, pos}
use image_proxy.Cache.{Lock}
use image_proxy.Http.{callbacks, get_header}
use image_proxy.Query.{Query, get_query, and_then}
use image_proxy.Response.{is_code}
use image_proxy.Connection.{
  Library, Connection, begin, Operation, Completion, ErrorCode, success, eof, failure,
  reads_request, resolves, connects, writes_request, reads_response, renders, writes_response,
}
use image_proxy.Connection.Answer.{store_at, send_response, fill, handle_write_response}
use image_proxy.Connection.Send.{send_page}
use image_proxy.Connection.Forward.{
  send_request, set_location, handle_connect, handle_resolve, handle_write_request,
}

abbrev pub is_eof : ErrorCode → Bool
is_eof success = false
is_eof eof = true
is_eof failure = false

-- The status codes of a redirect, and the search in them.
unfoldable pub is_redirect : ℤ → Bool
is_redirect code = is_code 301 code || (is_code 302 code || (is_code 303 code || is_code 307 code))

module _ (lib : Library) where
  -- `HttpParser::Parse` on what was read.
  unfoldable pub parse : Bytes → Connection → Connection × Bool
  parse text c =
      let (calls, n) = lib.execute c.is_request c.fed text in
      let (st, p) = callbacks lib.raw (c.store, c.parser) calls in
      (record c { store = st; parser = p; fed = c.fed ++ (text ∷ []) }, n == length text)

  -- What a handler of a read does first: the connection, and whether what came is invalid.
  unfoldable pub parse_received : ErrorCode → Bytes → Connection → Connection × Bool
  parse_received ec text c =
      let (c1, parsed) = if ltb 0 (length text) then parse text (fill text c) else (c, true) in
      (c1, not parsed || (is_eof ec && not c1.parser.headers_complete))

  unfoldable pub find_query : Connection → Option Query
  find_query c =
      get_query lib.long_bits lib.strtoul
        (λ uri. let url = lib.parse_url uri in (url.url_path, url.url_query)) c.parser.url

  -- A request with a query.
  unfoldable pub serve : Lock → Query → Connection → Option Connection
  serve lock q c =
      if not (lib.is_get c.is_request c.fed) || ltb (length q.request_path) 2
      then some (send_response lib.pixfmts (pos 400) (record c { query = q }))
      else send_request lib lock q.request_path
          (record c { query = q; webhdfs_path = q.request_path })

  unfoldable pub request_received : Lock → Connection × Bool → Option Connection
  request_received lock (c, invalid) =
      if invalid
      then some (send_response lib.pixfmts (pos 400) c)
      else if c.parser.headers_complete
      then and_then (find_query c) (λ q. serve lock q c)
      else some (begin reads_request c)

  unfoldable pub handle_read_request : ErrorCode → Lock → Bytes → Connection → Option Connection
  handle_read_request success lock text c = request_received lock (parse_received success text c)
  handle_read_request eof lock text c = request_received lock (parse_received eof text c)
  handle_read_request failure lock text c = some c

  unfoldable pub follow : Lock → Connection × Bool → Option Connection
  follow lock (c, found) =
      if found
      then send_request lib lock c.webhdfs_path c
      else some (send_response lib.pixfmts (pos 500) c)

  -- A redirect, to what the header says.
  unfoldable pub redirect_to : Lock → Option Bytes → Connection → Option Connection
  redirect_to lock none c = some (send_response lib.pixfmts (pos 500) c)
  redirect_to lock (some uri) c = follow lock (set_location lib uri c)

  unfoldable pub redirect : Lock → Connection → Option Connection
  redirect lock c = redirect_to lock (get_header c.parser (codes "Location")) c

  -- Headers of the server that are no redirect.
  unfoldable pub answer : ErrorCode → Lock → Connection → Option Connection
  answer ec lock c =
      if not (is_code 200 c.parser.status_code)
      then some (send_response lib.pixfmts c.parser.status_code c)
      else if c.parser.message_complete
      then send_page lib lock c
      else if is_eof ec
      then some (send_response lib.pixfmts (pos 500) c)
      else some (begin reads_response c)

  unfoldable pub response_received : ErrorCode → Lock → Connection × Bool → Option Connection
  response_received ec lock (c, invalid) =
      if invalid
      then some (send_response lib.pixfmts (pos 500) c)
      else if not c.parser.headers_complete
      then some (begin reads_response c)
      else if is_redirect c.parser.status_code
      then redirect lock c
      else answer ec lock c

  unfoldable pub handle_read_webhdfs_response :
      ErrorCode → Lock → Bytes → Connection → Option Connection
  handle_read_webhdfs_response success lock text c =
      response_received success lock (parse_received success text c)
  handle_read_webhdfs_response eof lock text c =
      response_received eof lock (parse_received eof text c)
  handle_read_webhdfs_response failure lock text c = some c

  -- The end of a worker's round, which calls `SendResponse` if the worker was not told to exit.
  unfoldable pub worker_done : ErrorCode → Bool → Connection → Connection
  worker_done success threw c = send_response lib.pixfmts (if threw then pos 500 else pos 200) c
  worker_done eof threw c = c
  worker_done failure threw c = c

  -- The image holds what was rendered.
  unfoldable pub rendered : Completion → Connection → Connection
  rendered e c = worker_done e.error_code e.threw (store_at c.image e.rendering c)

  -- The handler of an operation that ended. `none` is an access through a null pointer.
  unfoldable pub handle : Operation → Completion → Connection → Option Connection
  handle reads_request e c = handle_read_request e.error_code e.lock e.received c
  handle resolves e c = some (handle_resolve e.error_code e.endpoints c)
  handle (connects k) e c = some (handle_connect e.error_code k c)
  handle (writes_request text) e c = some (handle_write_request e.error_code c)
  handle reads_response e c = handle_read_webhdfs_response e.error_code e.lock e.received c
  handle (renders p) e c = some (rendered e c)
  handle (writes_response text) e c = some (handle_write_response e.error_code c)
