-- ===== src/Connection/Invalid.antt =====
-- The answers to what cannot be parsed.
use image_proxy.Base.{
  ◌≤◌, ◌<◌, ◌≡◌, refl, ◌≢◌, inl, inr, Bool, true, false, Option, some, [], ◌∷◌, arith, ltb, ◌==◌,
  Bool-cases, length, Bytes,
}
use image_proxy.Base.Int.{ℤ, pos}
use image_proxy.Cache.{Lock}
use image_proxy.Response.{buffer_size, is_code}
use image_proxy.Connection.{
  Library, Connection, Completion, ErrorCode, success, eof, failure, reads_request, reads_response,
  writes_response,
}
use image_proxy.Connection.Handlers.{
  handle, parse_received, parse, request_received, handle_read_request, response_received,
  handle_read_webhdfs_response,
}
use image_proxy.Http.{callbacks}
use image_proxy.Connection.Answer.{fill}
use image_proxy.Connection.Quiet.{IsQuiet}
use image_proxy.Connection.Keep.{parse_received-Parsed}
use image_proxy.Connection.Failing.{bare_response, send_response-bare}

-- The handler starts one operation, the write of an answer without headers.
abbrev pub Replies : ℤ → Option Connection → Type 0
Replies code r =
    (c : Connection) × (r ≡ some c) × (c.pending ≡ writes_response (bare_response code) ∷ [])

abbrev pub is_failure : ErrorCode → Bool
is_failure success = false
is_failure eof = false
is_failure failure = true

module _ (lib : Library) where
  refused :
      (lock : Lock) (r : Connection × Bool)
      → r.1 ≡ true
      → r.0.pending ≡ []
      → Replies (pos 400) (request_received lib lock r)
  unfolding request_received is_code
  refused lock (c, invalid) i q = rw i (_, refl, send_response-bare lib.pixfmts (pos 400) c refl q)

  broken :
      (ec : ErrorCode) (lock : Lock) (r : Connection × Bool)
      → r.1 ≡ true
      → r.0.pending ≡ []
      → Replies (pos 500) (response_received lib ec lock r)
  unfolding response_received is_code
  broken ec lock (c, invalid) i q =
      rw i (_, refl, send_response-bare lib.pixfmts (pos 500) c refl q)

  invalid_request :
      (ec : ErrorCode) (lock : Lock) (text : Bytes) (c : Connection)
      → is_failure ec ≡ false
      → length text ≤ buffer_size
      → IsQuiet c
      → (parse_received lib ec text c).1 ≡ true
      → Replies (pos 400) (handle_read_request lib ec lock text c)
  unfolding handle_read_request
  invalid_request success lock text c f l q i =
      refused lock (parse_received lib success text c) i
        ((parse_received-Parsed lib success text c l q).quiet.none_pending)
  invalid_request eof lock text c f l q i =
      refused lock (parse_received lib eof text c) i
        ((parse_received-Parsed lib eof text c l q).quiet.none_pending)
  invalid_request failure lock text c f l q i = absurd cc

  invalid_response :
      (ec : ErrorCode) (lock : Lock) (text : Bytes) (c : Connection)
      → is_failure ec ≡ false
      → length text ≤ buffer_size
      → IsQuiet c
      → (parse_received lib ec text c).1 ≡ true
      → Replies (pos 500) (handle_read_webhdfs_response lib ec lock text c)
  unfolding handle_read_webhdfs_response
  invalid_response success lock text c f l q i =
      broken success lock (parse_received lib success text c) i
        ((parse_received-Parsed lib success text c l q).quiet.none_pending)
  invalid_response eof lock text c f l q i =
      broken eof lock (parse_received lib eof text c) i
        ((parse_received-Parsed lib eof text c l q).quiet.none_pending)
  invalid_response failure lock text c f l q i = absurd cc

  -- What came is invalid: the parser does not take all of it; or it is the end, and the headers are not
  -- complete behind what came, or where nothing came.
  pub data Invalid (c : Connection) : ErrorCode → Bytes → Type 0 where
    not_parsed :
        (ec : ErrorCode) (text : Bytes)
        → 0 < length text
        → (lib.execute c.is_request c.fed text).1 ≢ length text
        → Invalid c ec text
    cut_off :
        (text : Bytes)
        → 0 < length text
        → (let (st, p) =
              callbacks lib.raw (c.store, c.parser) (lib.execute c.is_request c.fed text).0 in
            p.headers_complete ≡ false)
        → Invalid c eof text
    nothing_came : c.parser.headers_complete ≡ false → Invalid c eof []

  parse_received-Invalid :
      (c : Connection) (ec : ErrorCode) (text : Bytes)
      → Invalid c ec text
      → (parse_received lib ec text c).1 ≡ true
  unfolding parse_received parse fill
  parse_received-Invalid c ec text (not_parsed _ _ l n) =
      let some_text : ltb 0 (length text) ≡ true = ground (arith, l) in
      let short : ((lib.execute c.is_request c.fed text).1 == length text) ≡ false =
        ground (arith, n) in
      rw (some_text, short) refl
  parse_received-Invalid c _ text (cut_off _ l n) =
      let some_text : ltb 0 (length text) ≡ true = ground (arith, l) in
      rw (some_text, n)
        (elim (Bool-cases ((lib.execute c.is_request c.fed text).1 == length text)) [
          | inl e ↦ rw e refl
          | inr e ↦ rw e refl
        ])
  parse_received-Invalid c _ _ (nothing_came n) = rw n refl

  -- When a read does not fail and what came is invalid (the parser does not take all of it, or it is the end of the
  -- data and the headers are not complete, also where nothing came), the one operation that is started is the
  -- write of an answer without headers: with the code 400 if it came from the client, 500 if from the server.
  pub invalid-Replies :
      (e : Completion) (c : Connection)
      → is_failure e.error_code ≡ false
      → length e.received ≤ buffer_size
      → IsQuiet c
      → Invalid c e.error_code e.received
      → Replies (pos 400) (handle lib reads_request e c)
        × Replies (pos 500) (handle lib reads_response e c)
  unfolding handle
  invalid-Replies e c f l q n =
      let i = parse_received-Invalid c e.error_code e.received n in
      (
        invalid_request e.error_code e.lock e.received c f l q i,
        invalid_response e.error_code e.lock e.received c f l q i,
      )
