-- ===== src/Connection/Ends.antt =====
-- Each handler keeps the invariant, whatever operation ended.
use image_proxy.Base.{
  ℕ, zero, suc, ◌≤◌, ◌≡◌, refl, ◌∙◌, ◌⊎◌, inl, inr, Bool, false, none, [], arith, if◌then◌else◌,
  length, Bytes,
}
use image_proxy.Base.Int.{pos}
use image_proxy.Cache.{Lock}
use image_proxy.Http.{
  Store, HttpParser, Callback, callbacks, update, get_header, append, field_cap, value_cap,
  max_headers, append_field, append_value, no_header, cleared, clear_headers, reset, find_header,
  store_write, on_message_begin, on_headers_complete, on_message_complete, on_url, on_header_field,
  on_header_value, on_body, callback, Header,
}
use image_proxy.Http
use image_proxy.Response.{buffer_size, build_request}
use image_proxy.Connection.{
  Library, Connection, begin, Operation, Completion, ErrorCode, success, eof, failure,
  reads_request, resolves, connects, writes_request, reads_response, renders, writes_response,
}
use image_proxy.Connection.Answer.{fill, store_at}
use image_proxy.Connection.Handlers.{
  handle, parse_received, find_query, handle_read_request, handle_read_webhdfs_response,
  worker_done, rendered,
}
use image_proxy.Connection.Quiet.{
  IsQuiet, IsValid, Feeding, Ready, idle-IsValid, begin-IsValid, fill-IsQuiet,
  send_response-IsValid,
}
use image_proxy.Connection.Steps.{Fine, handle_write_response-IsValid, store_at-IsQuiet}
use image_proxy.Connection.Forward.{handle_connect, handle_resolve, handle_write_request}
use image_proxy.Response.Texts.{build_request-text}
use image_proxy.Connection.Keep.{request_received-Fine, parse_received-Parsed, Feeds, Undone}
use image_proxy.Connection.Serving.{response_received-Fine}

module _ (lib : Library) where
  -- The handler ran, and the invariant holds; or it was the client's request, and what `GetQuery` reads in
  -- its address is undefined.
  abbrev pub Handled : Operation → Completion → Connection → Type 0
  Handled op e c =
      Fine (handle lib op e c)
      ⊎ ((op ≡ reads_request)
          × (handle lib op e c ≡ none)
          × (find_query lib (parse_received lib e.error_code e.received c).0 ≡ none))

  worker_done-IsValid :
      (ec : ErrorCode) (threw : Bool) (c : Connection)
      → IsQuiet c
      → IsValid (worker_done lib ec threw c)
  unfolding worker_done
  worker_done-IsValid success threw c q =
      send_response-IsValid lib.pixfmts (if threw then pos 500 else pos 200) c q
  worker_done-IsValid eof threw c q = idle-IsValid c q
  worker_done-IsValid failure threw c q = idle-IsValid c q

  read_request-Fine :
      (ec : ErrorCode) (lock : Lock) (text : Bytes) (c : Connection)
      → length text ≤ buffer_size
      → Feeds lib c
      → IsQuiet c
      → Undone lib
          (find_query lib (parse_received lib ec text c).0)
          (handle_read_request lib ec lock text c)
  unfolding handle_read_request
  read_request-Fine success lock text c l (h, f) q =
      let p = parse_received-Parsed lib success text c l q in
      let (c1, invalid) = parse_received lib success text c in
      request_received-Fine lib lock c1 invalid (h, p.content_kept ∙ f) p.quiet
  read_request-Fine eof lock text c l (h, f) q =
      let p = parse_received-Parsed lib eof text c l q in
      let (c1, invalid) = parse_received lib eof text c in
      request_received-Fine lib lock c1 invalid (h, p.content_kept ∙ f) p.quiet
  read_request-Fine failure lock text c l f q = inl (c, refl, idle-IsValid c q)

  read_response-Fine :
      (ec : ErrorCode) (lock : Lock) (text : Bytes) (c : Connection)
      → length text ≤ buffer_size
      → Feeding c
      → IsQuiet c
      → Fine (handle_read_webhdfs_response lib ec lock text c)
  unfolding handle_read_webhdfs_response
  read_response-Fine success lock text c l (h, i, f) q =
      let p = parse_received-Parsed lib success text c l q in
      let (c1, invalid) = parse_received lib success text c in
      response_received-Fine lib success lock c1 invalid (h, p.image_kept ∙ i, p.content_kept ∙ f)
        p.quiet
  read_response-Fine eof lock text c l (h, i, f) q =
      let p = parse_received-Parsed lib eof text c l q in
      let (c1, invalid) = parse_received lib eof text c in
      response_received-Fine lib eof lock c1 invalid (h, p.image_kept ∙ i, p.content_kept ∙ f)
        p.quiet
  read_response-Fine failure lock text c l f q = (c, refl, idle-IsValid c q)

  connect-IsValid :
      (ec : ErrorCode) (k : ℕ) (c : Connection)
      → Feeding c
      → IsQuiet c
      → IsValid (handle_connect ec k c)
  unfolding handle_connect begin fill
  connect-IsValid success k c f q =
      let text = build_request c.webhdfs_path c.host in
      let short = (build_request-text c.webhdfs_path c.host).1 in
      begin-IsValid (writes_request text) (fill text c)
        (fill-IsQuiet text c (omega (arith, short)) q) f
  connect-IsValid eof zero c f q = idle-IsValid c q
  connect-IsValid eof (suc k) c f q = begin-IsValid (connects k) c q f
  connect-IsValid failure zero c f q = idle-IsValid c q
  connect-IsValid failure (suc k) c f q = begin-IsValid (connects k) c q f

  resolved-IsValid :
      (ec : ErrorCode) (k : ℕ) (c : Connection)
      → Feeding c
      → IsQuiet c
      → IsValid (handle_resolve ec k c)
  unfolding handle_resolve begin
  resolved-IsValid success k c f q = begin-IsValid (connects k) c q f
  resolved-IsValid eof k c f q = idle-IsValid c q
  resolved-IsValid failure k c f q = idle-IsValid c q

  written-IsValid :
      (ec : ErrorCode) (c : Connection)
      → Feeding c
      → IsQuiet c
      → IsValid (handle_write_request ec c)
  unfolding handle_write_request begin Http.reset
  written-IsValid success c f q =
      begin-IsValid reads_response
        (record c { parser = Http.reset c.parser; is_request = false; fed = [] })
        (record { whole = q.whole; none_pending = q.none_pending }) f
  written-IsValid eof c f q = idle-IsValid c q
  written-IsValid failure c f q = idle-IsValid c q

  pub handle-Handled :
      (op : Operation) (e : Completion) (c : Connection)
      → length e.received ≤ buffer_size
      → Ready c op
      → IsQuiet c
      → Handled op e c
  unfolding handle rendered
  handle-Handled reads_request e c l r q =
      elim (read_request-Fine e.error_code e.lock e.received c l r q) [
        | inl fine ↦ inl fine
        | inr (nothing, undefined) ↦ inr (refl, nothing, undefined)
      ]
  handle-Handled resolves e c l r q = inl (_, refl, resolved-IsValid e.error_code e.endpoints c r q)
  handle-Handled (connects k) e c l r q = inl (_, refl, connect-IsValid e.error_code k c r q)
  handle-Handled (writes_request text) e c l r q = inl (_, refl, written-IsValid e.error_code c r q)
  handle-Handled reads_response e c l r q =
      inl (read_response-Fine e.error_code e.lock e.received c l r q)
  handle-Handled (renders p) e c l r q = inl (
    _,
    refl,
    worker_done-IsValid e.error_code e.threw (store_at c.image e.rendering c)
        (store_at-IsQuiet c.image e.rendering c q),
  )
  handle-Handled (writes_response text) e c l r q =
      inl (_, refl, handle_write_response-IsValid e.error_code c q)
