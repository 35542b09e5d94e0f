-- ===== src/Connection/Send.antt =====
-- A page of a document for the client: `FitPage` and `SendPage` of
-- webhdfs_image_proxy/connection.cpp.
use image_proxy.Base.{ℕ, ◌&&◌, Option, none, some, [], ◌∷◌, ◌++◌, ltb, ◌==◌, if◌then◌else◌}
use image_proxy.Base.Int.{pos}
use image_proxy.Cache.{
  ImageCache, Lock, Value, Map, find, insert, assign, tail, push, gives_up, search_map, get, put,
  Reply, step, run, Call, init,
}
use image_proxy.Cache
use image_proxy.TaskPool.{add_task}
use image_proxy.Http.{update}
use image_proxy.Query.{Query, and_then}
use image_proxy.Connection.{
  renders, width_to, height_to, Library, Connection, begin, rewind, new_stream, Leaf, Sizing,
}
use image_proxy.Connection.Answer.{send_response}

-- A call that sets the size of a page.
abbrev pub size_page : Sizing → Leaf → Leaf
size_page z p = record p { sizings = p.sizings ++ (z ∷ []) }

module _ (lib : Library) where
  -- `FitPage`.
  unfoldable pub fit_page : ℕ → ℕ → Leaf → Leaf
  fit_page sw sh p =
      let p1 = size_page (width_to sw) p in
      if ltb sh (lib.leaf_height p1) then size_page (height_to sh) p1 else p1

  -- The size that the query asks for.
  unfoldable pub size_to_query : Query → Leaf → Leaf
  size_to_query q p =
      if ltb 0 q.width && ltb 0 q.height
      then fit_page q.width q.height p
      else if (q.width == 0) && ltb 0 q.height
      then size_page (height_to q.height) p
      else if ltb 0 q.width && (q.height == 0)
      then size_page (width_to q.width) p
      else p

  -- The page goes to the pool with a new stream, or the answer is an error. The page has the handle
  -- that the stream has.
  unfoldable pub render : Leaf → Connection → Connection
  render p c =
      let c1 = record (new_stream c) { image = some c.next } in
      let (pool, added) =
        add_task c1.pool
          (record { connection = some c.self; page = some c.next; out = some c.next }) in
      let c2 = record c1 { pool = pool } in
      if added then begin (renders p) c2 else send_response lib.pixfmts (pos 500) c2

  -- `SendPage` for a page: the cache is not changed yet.
  unfoldable pub show_page : Leaf → Connection → Connection
  show_page p c =
      if c.query.json
      then send_response lib.pixfmts (pos 200) (record c {
        page = record {
          page_width = lib.leaf_width p;
          page_height = lib.leaf_height p;
          page_pixfmt = lib.leaf_pixfmt p;
        };
        image = none;
      })
      else render (size_to_query c.query p) c

  -- `SendPage` for the image with a handle.
  unfoldable pub send_image : Lock → ℕ → Connection → Connection
  send_image lock h c =
      let (s, loaded) = lib.load_doc ((rewind h c).store h) in
      let c1 = record (rewind h c) { store = update (rewind h c).store h s } in
      if loaded
      then (if lib.has_page s
          then show_page (record { document = s; sizings = [] })
              (record c1 { cache = Cache.put c1.cache lock c1.image_path (some h) })
          else c1)
      else send_response lib.pixfmts (pos 500) c1

  -- `SendPage`. It reads through the pointer `image`: `none` where that is null.
  unfoldable pub send_page : Lock → Connection → Option Connection
  send_page lock c = and_then c.image (λ h. some (send_image lock h c))
