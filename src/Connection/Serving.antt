-- ===== src/Connection/Serving.antt =====
-- The handler of the server's data keeps the invariant of the connection.
use image_proxy.Base.{
  ℕ, refl, inl, inr, Bool, true, false, not, Option, none, some, List, Bool-cases, Bytes, codes,
}
use image_proxy.Base.Int.{ℤ, pos}
use image_proxy.Cache.{Lock}
use image_proxy.Http.{get_header}
use image_proxy.Response.{is_code}
use image_proxy.Connection.{Library, Connection, begin, ErrorCode, reads_response, Url}
use image_proxy.Connection.Answer.{send_response}
use image_proxy.Connection.Forward.{set_location, set_path, set_host}
use image_proxy.Connection.Handlers.{
  is_eof, is_redirect, follow, redirect_to, redirect, answer, response_received,
}
use image_proxy.Connection.Quiet.{IsQuiet, Feeding, begin-IsValid, send_response-IsValid}
use image_proxy.Connection.Steps.{Fine, send_request-Fine, send_page-Fine}

-- What an answer to the client leaves.
send-Fine :
    (pixfmts : List ℕ) (code : ℤ) (c : Connection)
    → IsQuiet c
    → Fine (some (send_response pixfmts code c))
send-Fine pixfmts code c q =
    (send_response pixfmts code c, refl, send_response-IsValid pixfmts code c q)

read_on-Fine : (c : Connection) → Feeding c → IsQuiet c → Fine (some (begin reads_response c))
unfolding begin
read_on-Fine c f q = (begin reads_response c, refl, begin-IsValid reads_response c q f)

set_path-IsQuiet :
    (path : Option (ℕ × ℕ)) (uri : Bytes) (c : Connection)
    → IsQuiet c
    → IsQuiet (set_path path uri c).0
unfolding set_path
set_path-IsQuiet none uri c q = q
set_path-IsQuiet (some path) uri c q = record { whole = q.whole; none_pending = q.none_pending }

set_host-IsQuiet :
    (host : Option (ℕ × ℕ)) (url : Url) (uri : Bytes) (c : Connection)
    → IsQuiet c
    → IsQuiet (set_host host url uri c).0
unfolding set_host
set_host-IsQuiet none url uri c q = q
set_host-IsQuiet (some host) url uri c q =
    set_path-IsQuiet url.url_path uri _ (record { whole = q.whole; none_pending = q.none_pending })

module _ (lib : Library) where
  follow-Fine :
      (lock : Lock) (c : Connection) (found : Bool) → IsQuiet c → Fine (follow lib lock (c, found))
  unfolding follow
  follow-Fine lock c true q = send_request-Fine lib lock c.webhdfs_path c q
  follow-Fine lock c false q = send-Fine lib.pixfmts (pos 500) c q

  redirect_to-Fine :
      (lock : Lock) (uri : Option Bytes) (c : Connection)
      → IsQuiet c
      → Fine (redirect_to lib lock uri c)
  unfolding redirect_to set_location
  redirect_to-Fine lock none c q = send-Fine lib.pixfmts (pos 500) c q
  redirect_to-Fine lock (some uri) c q =
      let url = lib.parse_url uri in
      let r = set_host url.url_host url uri c in
      follow-Fine lock r.0 r.1 (set_host-IsQuiet url.url_host url uri c q)

  answer-Fine :
      (ec : ErrorCode) (lock : Lock) (c : Connection)
      → Feeding c
      → IsQuiet c
      → Fine (answer lib ec lock c)
  unfolding answer
  answer-Fine ec lock c (h, image, content) q =
      elim (Bool-cases (not (is_code 200 c.parser.status_code))) [
        | inl e ↦ rw e (send-Fine lib.pixfmts c.parser.status_code c q)
        | inr e ↦ rw e (elim (Bool-cases c.parser.message_complete) [
          | inl done ↦ simp done (send_page-Fine lib lock c h q image)
          | inr undone ↦ simp undone (elim (Bool-cases (is_eof ec)) [
            | inl ended ↦ rw ended (send-Fine lib.pixfmts (pos 500) c q)
            | inr more ↦ rw more (read_on-Fine c (h, image, content) q)
          ])
        ])
      ]

  pub response_received-Fine :
      (ec : ErrorCode) (lock : Lock) (c : Connection) (invalid : Bool)
      → Feeding c
      → IsQuiet c
      → Fine (response_received lib ec lock (c, invalid))
  unfolding response_received redirect
  response_received-Fine ec lock c true f q = send-Fine lib.pixfmts (pos 500) c q
  response_received-Fine ec lock c false f q = elim (Bool-cases (not c.parser.headers_complete)) [
    | inl e ↦ rw e (read_on-Fine c f q)
    | inr e ↦ rw e (elim (Bool-cases (is_redirect c.parser.status_code)) [
      | inl moved ↦ rw moved (redirect_to-Fine lock (get_header c.parser (codes "Location")) c q)
      | inr here ↦ rw here (answer-Fine ec lock c f q)
    ])
  ]
