-- ===== src/Http/Messages.antt =====
-- The headers of a whole message: from the callbacks, as the parser makes them, to what
-- `GetHeader` finds.
use image_proxy.Base.{
  ℕ, suc, ◌+◌, ◌-◌, ◌≡◌, refl, ap, ◌∙◌, true, Option, none, some, List, [], ◌∷◌, ◌++◌, map, arith,
  if◌then◌else◌, length, take, replicate, Bytes,
}
use image_proxy.Base.Int.{pos}
use image_proxy.Strings.{equals_ignore_case}
use image_proxy.Http.{
  Header, HttpParser, Callback, message_begin, header_field, header_value, headers_done,
  find_header, max_headers, no_header, cleared, clear_headers, reset, get_header, Store,
  on_message_begin, on_headers_complete, on_header_field, on_header_value, callback, callbacks,
}
use image_proxy.Http.Headers.{read_headers, read_headers_lem}
use image_proxy.Http.Parts.{Pieces, stored, name_parts, value_parts, read_header}

unfoldable pub name_calls : List Bytes → List Callback → List Callback
name_calls [] rest = rest
name_calls (c ∷ cs) rest = header_field c ∷ name_calls cs rest

unfoldable pub value_calls : List Bytes → List Callback → List Callback
value_calls [] rest = rest
value_calls (c ∷ cs) rest = header_value c ∷ value_calls cs rest

unfoldable pub header_calls : List Pieces → List Callback → List Callback
header_calls [] rest = rest
header_calls (f ∷ fs) rest =
    header_field f.name
    ∷ name_calls f.more_name (header_value f.text ∷ value_calls f.more_text (header_calls fs rest))

-- The calls up to the end of the headers.
abbrev pub head_calls : List Pieces → ℕ → List Callback
head_calls fs status = message_begin ∷ header_calls fs (headers_done status ∷ [])

-- The value of the first header of some name.
unfoldable pub first_value : List Header → Bytes → Option Bytes
first_value [] name = none
first_value (h ∷ hs) name =
    if equals_ignore_case h.field name then some h.value else first_value hs name

module _ (raw : ℕ) (st : Store) where
  name_calls_lem :
      (p : HttpParser) (cs : List Bytes) (rest : List Callback)
      → callbacks raw (st, p) (name_calls cs rest) ≡ callbacks raw (st, name_parts p cs) rest
  unfolding callbacks callback name_calls name_parts
  name_calls_lem p [] rest = refl
  name_calls_lem p (c ∷ cs) rest = name_calls_lem (on_header_field p c) cs rest

  value_calls_lem :
      (p : HttpParser) (cs : List Bytes) (rest : List Callback)
      → callbacks raw (st, p) (value_calls cs rest) ≡ callbacks raw (st, value_parts p cs) rest
  unfolding callbacks callback value_calls value_parts
  value_calls_lem p [] rest = refl
  value_calls_lem p (c ∷ cs) rest = value_calls_lem (on_header_value p c) cs rest

  header_calls_lem :
      (p : HttpParser) (fs : List Pieces) (rest : List Callback)
      → callbacks raw (st, p) (header_calls fs rest) ≡ callbacks raw (st, read_headers p fs) rest
  unfolding callbacks callback header_calls read_headers read_header
  header_calls_lem p [] rest = refl
  header_calls_lem p (f ∷ fs) rest =
      name_calls_lem (on_header_field p f.name) f.more_name _
      ∙ value_calls_lem (on_header_value (name_parts (on_header_field p f.name) f.more_name) f.text)
          f.more_text _
      ∙ header_calls_lem (read_header p f) fs rest

  head_calls_lem :
      (p : HttpParser) (fs : List Pieces) (status : ℕ)
      → callbacks raw (st, p) (head_calls fs status)
        ≡ (st, on_headers_complete (read_headers (on_message_begin p) fs) status)
  unfolding callbacks callback
  head_calls_lem p fs status = header_calls_lem (on_message_begin p) fs (headers_done status ∷ [])

find_header-first :
    (hs rest : List Header) (name : Bytes)
    → find_header (hs ++ rest) (length hs) name ≡ first_value hs name
unfolding find_header first_value
find_header-first [] [] name = refl
find_header-first [] (r ∷ rest) name = refl
find_header-first (h ∷ hs) rest name = rw (find_header-first hs rest name) refl

-- What the parser has after the headers of a message, from a table that has been cleared.
abbrev pub after_head : HttpParser → ℕ → List Pieces → ℕ → HttpParser
after_head p at fs status = record p {
  head = 0;
  header_it = length (take max_headers fs);
  tail = length (take max_headers fs);
  headers = map stored (take max_headers fs) ++ replicate (max_headers - length fs) no_header;
  headers_complete = true;
  status_code = pos status;
}

head_calls-cleared :
    (raw : ℕ) (st : Store) (p : HttpParser) (fs : List Pieces) (status : ℕ)
    → p.headers ≡ cleared
    → p.tail ≡ max_headers
    → callbacks raw (st, p) (head_calls fs status) ≡ (st, after_head p 0 fs status)
unfolding on_message_begin on_headers_complete
head_calls-cleared raw st p fs status table end =
    let (at, r) = read_headers_lem (on_message_begin p) [] max_headers fs table refl end in
    let n : 0 + length (take max_headers fs) ≡ length (take max_headers fs) = omega arith in
    rw (head_calls_lem raw st p fs status, r, n) refl

length-map_stored : (fs : List Pieces) → length (map stored fs) ≡ length fs
length-map_stored [] = refl
length-map_stored (f ∷ fs) = ap suc (length-map_stored fs)

found :
    (taken : List Pieces) (room : ℕ) (name : Bytes)
    → find_header (map stored taken ++ replicate room no_header) (length taken - 0) name
      ≡ first_value (map stored taken) name
found taken room name =
    let n : length taken - 0 ≡ length (map stored taken) = omega (arith, length-map_stored taken) in
    rw n (find_header-first (map stored taken) (replicate room no_header) name)

-- The headers of a message that comes after `Reset`, each name and each value in any number of
-- pieces, write to no stream, and they set `headers_complete` and the status. `GetHeader` then finds
-- the value of the first header among the first 16 whose name, cut to 255 bytes, is the given one
-- in all but case; it is that header's value, cut to 511 bytes. Further headers are passed over.
pub get_header-callbacks :
    (raw : ℕ) (st : Store) (p : HttpParser) (fs : List Pieces) (status : ℕ) (name : Bytes)
    → let (st', q) = callbacks raw (st, reset p) (head_calls fs status) in
      (st' ≡ st)
      × (q.headers_complete ≡ true)
      × (q.status_code ≡ pos status)
      × (get_header q name ≡ first_value (map stored (take max_headers fs)) name)
unfolding get_header reset clear_headers
get_header-callbacks raw st p fs status name =
    let e : _ = head_calls-cleared raw st (reset p) fs status refl refl in
    rw e (refl, refl, refl, found (take max_headers fs) (max_headers - length fs) name)
