-- ===== src/Connection/Keep.antt =====
-- Each handler keeps the invariant of the connection.
use image_proxy.Base.{
  ℕ, ◌≤◌, ◌≡◌, refl, ◌∙◌, ◌⊎◌, inl, inr, Bool, true, false, not, ◌||◌, Option, none, some, List, [],
  ◌∷◌, ltb, ◌==◌, if◌then◌else◌, Bool-cases, length, Bytes,
}
use image_proxy.Base.Int.{pos}
use image_proxy.Cache.{Lock}
use image_proxy.Http.{
  Store, HttpParser, Callback, callbacks, on_message_begin, on_headers_complete,
  on_message_complete, on_url, on_header_field, on_header_value,
}
use image_proxy.Query.{Query, and_then}
use image_proxy.Response.{buffer_size}
use image_proxy.Connection.{Library, Connection, begin, ErrorCode, reads_request}
use image_proxy.Http.{
  callback, message_begin, url_part, header_field, header_value, headers_done, body, message_done,
}
use image_proxy.Connection.Answer.{fill}
use image_proxy.Connection.Handlers.{parse, parse_received, find_query, serve, request_received}
use image_proxy.Connection.Quiet.{IsQuiet, begin-IsValid, fill-IsQuiet, send_response-IsValid}
use image_proxy.Connection.Steps.{send_request-Fine, Fine}

callback-content :
    (raw : ℕ) (sp : Store × HttpParser) (x : Callback)
    → (callback raw sp x).0.1.content ≡ sp.1.content
unfolding callback on_message_begin on_url on_headers_complete on_message_complete on_header_field
    on_header_value
callback-content raw (st, p) message_begin = refl
callback-content raw (st, p) (url_part s) = refl
callback-content raw (st, p) (header_field s) =
    let head = if p.head == p.header_it then p.head else p.header_it in
    elim (Bool-cases (head == p.tail)) [ inl e ↦ rw e refl | inr e ↦ rw e refl ]
callback-content raw (st, p) (header_value s) = elim (Bool-cases (p.head == p.tail)) [
  | inl e ↦ rw e refl
  | inr e ↦ rw e refl
]
callback-content raw (st, p) (headers_done status) = refl
callback-content raw (st, p) (body s) = refl
callback-content raw (st, p) message_done = refl

callbacks-content :
    (raw : ℕ) (sp : Store × HttpParser) (xs : List Callback)
    → (callbacks raw sp xs).1.content ≡ sp.1.content
unfolding callbacks
callbacks-content raw sp [] = refl
callbacks-content raw sp (x ∷ xs) = elim (Bool-cases ((callback raw sp x).1 == 0)) [
  | inl e ↦ rw e (callbacks-content raw ((callback raw sp x).0) xs ∙ callback-content raw sp x)
  | inr e ↦ rw e (callback-content raw sp x)
]

module _ (lib : Library) where
  -- What `Parse` leaves as it is.
  pub record Parsed (c c' : Connection) : Type 0 where
    pub quiet : IsQuiet c'
    pub image_kept : c'.image ≡ c.image
    pub content_kept : c'.parser.content ≡ c.parser.content

  pub parse_received-Parsed :
      (ec : ErrorCode) (text : Bytes) (c : Connection)
      → length text ≤ buffer_size
      → IsQuiet c
      → Parsed c (parse_received lib ec text c).0
  unfolding parse_received parse fill
  parse_received-Parsed ec text c h q = elim (Bool-cases (ltb 0 (length text))) [
    | inl e ↦ rw e (record {
      quiet = record { whole = (fill-IsQuiet text c h q).whole; none_pending = q.none_pending };
      image_kept = refl;
      content_kept =
          callbacks-content lib.raw (c.store, c.parser) (lib.execute c.is_request c.fed text).0;
    })
    | inr e ↦ rw e (record { quiet = q; image_kept = refl; content_kept = refl })
  ]

  serve-Fine :
      (lock : Lock) (query : Query) (c : Connection) → IsQuiet c → Fine (serve lib lock query c)
  unfolding serve
  serve-Fine lock query c q =
      elim (Bool-cases (not (lib.is_get c.is_request c.fed) || ltb (length query.request_path) 2)) [
        | inl e ↦ rw e (
          _,
          refl,
          send_response-IsValid lib.pixfmts (pos 400) (record c { query = query })
              (record { whole = q.whole; none_pending = q.none_pending }),
        )
        | inr e ↦ rw e (
            send_request-Fine lib lock query.request_path
              (record c { query = query; webhdfs_path = query.request_path })
              (record { whole = q.whole; none_pending = q.none_pending }))
      ]

  -- What comes goes into a stream.
  abbrev pub Feeds : Connection → Type 0
  Feeds c = (h : ℕ) × (c.parser.content ≡ some h)

  -- A step that goes on with what may be undefined.
  and_then-Fine :
      {A : Type 0} (o : Option A) (f : A → Option Connection)
      → ((a : A) → Fine (f a))
      → Fine (and_then o f) ⊎ ((and_then o f ≡ none) × (o ≡ none))
  unfolding and_then
  and_then-Fine none f h = inr (refl, refl)
  and_then-Fine (some a) f h = inl (h a)

  -- The handler's result is undefined only where the query is.
  abbrev pub Undone : Option Query → Option Connection → Type 0
  Undone query r = Fine r ⊎ ((r ≡ none) × (query ≡ none))

  received-Undone :
      (lock : Lock) (c : Connection) (complete : Bool)
      → Feeds c
      → IsQuiet c
      → Undone (find_query lib c) (
          if complete
          then and_then (find_query lib c) (λ x. serve lib lock x c)
          else some (begin reads_request c))
  unfolding begin
  received-Undone lock c true f q =
      and_then-Fine (find_query lib c) (λ x. serve lib lock x c) (λ x. serve-Fine lock x c q)
  received-Undone lock c false f q =
      inl (begin reads_request c, refl, begin-IsValid reads_request c q f)

  pub request_received-Fine :
      (lock : Lock) (c : Connection) (invalid : Bool)
      → Feeds c
      → IsQuiet c
      → Undone (find_query lib c) (request_received lib lock (c, invalid))
  unfolding request_received
  request_received-Fine lock c true f q =
      inl (_, refl, send_response-IsValid lib.pixfmts (pos 400) c q)
  request_received-Fine lock c false f q = received-Undone lock c c.parser.headers_complete f q
