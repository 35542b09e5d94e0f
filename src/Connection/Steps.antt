-- ===== src/Connection/Steps.antt =====
-- The steps from a quiet connection on: the answers, the page, the request to the server.
use image_proxy.Base.{
  ℕ, ◌+◌, ◌-◌, ◌%◌, ◌≤◌, min, ◌≡◌, refl, sym, subst, inl, inr, Bool, Option, none, some, List, [],
  ◌∷◌, arith, ◌==◌, Bool-cases, length, take, drop, length-append, length-take, Bytes, codes,
}
use image_proxy.Base.Int.{pos}
use image_proxy.Dynamic.{size_mod, u32_mod, DynamicMemoryStream, size_mod, u32_mod}
use image_proxy.Cache.{
  ImageCache, Lock, Value, Map, find, insert, assign, tail, push, gives_up, search_map, get, put,
  Reply, step, run, Call,
}
use image_proxy.Cache
use image_proxy.TaskPool.{add_task}
use image_proxy.Http.{update}
use image_proxy.Query.{and_then}
use image_proxy.Response.{buffer_size, is_code}
use image_proxy.Strings.{equals_ignore_case}
use image_proxy.Chunk.{Sending, handle_write, write_next}
use image_proxy.Connection.{
  Library, Connection, begin, rewind, new_stream, Leaf, ErrorCode, success, eof, failure, resolves,
  renders, writes_response,
}
use image_proxy.Dynamic.{size_mod, u32_mod, read, read_blocks, storage_read, block_at}
use image_proxy.Chunk.Frame.{build_chunk-chunk_text}
use image_proxy.Chunk.{max_chunk_size}
use image_proxy.Connection.Answer.{
  send_response, handle_write_response, put_back, write_chunk, image_stream, store_at,
}
use image_proxy.Connection.Send.{send_page, size_to_query, render, show_page, send_image}
use image_proxy.Connection.Forward.{send_request, resolve, take_item, send_uncached, send_path}
use image_proxy.Connection.Quiet.{
  IsQuiet, IsValid, idle-IsValid, begin-IsValid, send_response-IsValid,
}

read_blocks-at_most :
    (n : ℕ) (bs : List Bytes) (pad size : ℕ) → length (read_blocks n bs pad size).1 ≤ size
unfolding read_blocks
read_blocks-at_most n [] pad size = omega arith
read_blocks-at_most n (b ∷ bs) pad size = ground (
  arith,
  read_blocks-at_most n bs 0 (size - min (n - pad) size),
  length-take (min (n - pad) size) (drop pad b),
  length-append (take (min (n - pad) size) (drop pad b))
      (read_blocks n bs 0 (size - min (n - pad) size)).1,
)

read-at_most : (s : DynamicMemoryStream) (size : ℕ) → length (read s size).1 ≤ size
unfolding read storage_read
read-at_most s size =
    let k = min size ((size_mod + s.p_size - s.p_offset) % u32_mod) in
    ground (
      arith,
      read_blocks-at_most s.memory_storage.block_size (block_at s.memory_storage s.p_offset)
          (s.p_offset % s.memory_storage.block_size) k,
    )

write_next-whole :
    (s : Sending) (d : Option DynamicMemoryStream)
    → length s.buffer ≡ buffer_size
    → length (write_next s d).0.buffer ≡ buffer_size
unfolding write_next
write_next-whole s none h = h
write_next-whole s (some d) h = elim (Bool-cases (is_code 200 s.status_code)) [
  | inl done ↦ rw done (
      (build_chunk-chunk_text s.buffer (read d max_chunk_size).1 h
        (read-at_most d max_chunk_size)).1)
  | inr other ↦ rw other h
]

pub store_at-IsQuiet :
    (h : Option ℕ) (s : DynamicMemoryStream) (c : Connection) → IsQuiet c → IsQuiet (store_at h s c)
unfolding store_at
store_at-IsQuiet none s c q = q
store_at-IsQuiet (some h) s c q = record { whole = q.whole; none_pending = q.none_pending }

put_back-IsQuiet :
    (c : Connection) (s : Option DynamicMemoryStream) → IsQuiet c → IsQuiet (put_back c s)
unfolding put_back
put_back-IsQuiet c none q = record { whole = q.whole; none_pending = q.none_pending }
put_back-IsQuiet c (some s) q = store_at-IsQuiet c.image s c q

write_chunk-IsValid :
    (c : Connection) (r : Sending × Option Bytes)
    → IsQuiet c
    → length r.0.buffer ≡ buffer_size
    → IsValid (write_chunk c r)
unfolding write_chunk
write_chunk-IsValid c (s, none) q h = idle-IsValid c q
write_chunk-IsValid c (s, some chunk) q h =
    begin-IsValid (writes_response chunk) (put_back (record c { buffer = s.buffer }) s.image)
      (put_back-IsQuiet (record c { buffer = s.buffer }) s.image
        (record { whole = h; none_pending = q.none_pending }))
      tt

pub handle_write_response-IsValid :
    (ec : ErrorCode) (c : Connection) → IsQuiet c → IsValid (handle_write_response ec c)
unfolding handle_write_response handle_write
handle_write_response-IsValid success c q =
    let s : Sending = record {
      status_code = c.status_code;
      image = image_stream c;
      buffer = c.buffer;
    } in
    write_chunk-IsValid c (handle_write s) q (write_next-whole s s.image q.whole)
handle_write_response-IsValid eof c q = idle-IsValid c q
handle_write_response-IsValid failure c q = idle-IsValid c q

pub resolve-IsValid : (c : Connection) (h : ℕ) → IsQuiet c → c.image ≡ some h → IsValid (resolve c)
unfolding resolve begin
resolve-IsValid c h q e =
    begin-IsValid resolves (record c { parser = record c.parser { content = c.image } })
      (record { whole = q.whole; none_pending = q.none_pending }) (h, e, e)

-- A connection whose handler reached no null pointer, in which the invariant holds.
abbrev pub Fine : Option Connection → Type 0
Fine r = (c : Connection) × (r ≡ some c) × IsValid c

module _ (lib : Library) where
  render-IsValid : (p : Leaf) (c : Connection) → IsQuiet c → IsValid (render lib p c)
  unfolding render new_stream begin
  render-IsValid p c q =
      let c1 = record (new_stream c) { image = some c.next } in
      let out =
        add_task c1.pool
          (record { connection = some c.self; page = some c.next; out = some c.next }) in
      let q2 : IsQuiet (record c1 { pool = out.0 }) = record {
        whole = q.whole;
        none_pending = q.none_pending;
      } in
      elim (Bool-cases out.1) [
        | inl e ↦ rw e (begin-IsValid (renders p) (record c1 { pool = out.0 }) q2 (c.next, refl))
        | inr e ↦ rw e (send_response-IsValid lib.pixfmts (pos 500) (record c1 { pool = out.0 }) q2)
      ]

  show_page-IsValid : (p : Leaf) (c : Connection) → IsQuiet c → IsValid (show_page lib p c)
  unfolding show_page
  show_page-IsValid p c q = elim (Bool-cases c.query.json) [
    | inl e ↦ simp e (
        send_response-IsValid lib.pixfmts (pos 200) _
          (record { whole = q.whole; none_pending = q.none_pending }))
    | inr e ↦ simp e (render-IsValid (size_to_query lib c.query p) c q)
  ]

  send_image-IsValid :
      (lock : Lock) (h : ℕ) (c : Connection) → IsQuiet c → IsValid (send_image lib lock h c)
  unfolding send_image rewind
  send_image-IsValid lock h c q =
      let (s, loaded) = lib.load_doc ((rewind h c).store h) in
      let c1 = record (rewind h c) { store = update (rewind h c).store h s } in
      let q1 : IsQuiet c1 = record { whole = q.whole; none_pending = q.none_pending } in
      elim (Bool-cases loaded) [
        | inl e ↦ rw e (elim (Bool-cases (lib.has_page s)) [
          | inl has ↦ rw has (
              show_page-IsValid (record { document = s; sizings = [] })
                (record c1 { cache = Cache.put c1.cache lock c1.image_path (some h) })
                (record { whole = q.whole; none_pending = q.none_pending }))
          | inr lacks ↦ rw lacks (idle-IsValid c1 q1)
        ])
        | inr e ↦ rw e (send_response-IsValid lib.pixfmts (pos 500) c1 q1)
      ]

  pub send_page-Fine :
      (lock : Lock) (c : Connection) (h : ℕ)
      → IsQuiet c
      → c.image ≡ some h
      → Fine (send_page lib lock c)
  unfolding send_page and_then
  send_page-Fine lock c h q e =
      subst (λ o. Fine (and_then o (λ i. some (send_image lib lock i c)))) (sym e)
        (send_image lib lock h c, refl, send_image-IsValid lock h c q)

  take_item-IsQuiet : (item : ℕ × Bool) (c : Connection) → IsQuiet c → IsQuiet (take_item item c)
  unfolding take_item new_stream
  take_item-IsQuiet item c q = elim (Bool-cases (item.0 == c.next)) [
    | inl e ↦ rw e (record { whole = q.whole; none_pending = q.none_pending })
    | inr e ↦ rw e (record { whole = q.whole; none_pending = q.none_pending })
  ]

  pub send_uncached-Fine :
      (lock : Lock) (item : ℕ × Bool) (c : Connection)
      → IsQuiet c
      → Fine (send_uncached lib lock item c)
  unfolding send_uncached take_item
  send_uncached-Fine lock (item, hit) c q = elim (Bool-cases hit) [
    | inl e ↦ rw e (
        send_page-Fine lock (take_item (item, hit) c) item (take_item-IsQuiet (item, hit) c q) refl)
    | inr e ↦ rw e (
      resolve (take_item (item, hit) c),
      refl,
      resolve-IsValid (take_item (item, hit) c) item (take_item-IsQuiet (item, hit) c q) refl,
    )
  ]

  pub send_path-Fine :
      (lock : Lock) (path : Bytes) (image : Option ℕ) (c : Connection)
      → c.image ≡ image
      → IsQuiet c
      → Fine (send_path lib lock path image c)
  unfolding send_path rewind
  send_path-Fine lock path none c e q =
      send_uncached-Fine lock (Cache.get c.cache lock c.next path) (record c { image_path = path })
        (record { whole = q.whole; none_pending = q.none_pending })
  send_path-Fine lock path (some h) c e q = (
    resolve (rewind h c),
    refl,
    resolve-IsValid (rewind h c) h (record { whole = q.whole; none_pending = q.none_pending }) e,
  )

  pub send_request-Fine :
      (lock : Lock) (path : Bytes) (c : Connection)
      → IsQuiet c
      → Fine (send_request lib lock path c)
  unfolding send_request
  send_request-Fine lock path c q =
      elim (Bool-cases (equals_ignore_case path (codes "/favicon.ico"))) [
        | inl e ↦ rw e (
          send_response lib.pixfmts (pos 404) c,
          refl,
          send_response-IsValid lib.pixfmts (pos 404) c q,
        )
        | inr e ↦ rw e (
            send_path-Fine lock path c.image (record c { webhdfs_path = path }) refl
              (record { whole = q.whole; none_pending = q.none_pending }))
      ]
